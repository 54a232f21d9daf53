-- ===== src/Rpc/Pool/Order.antt =====
-- The order of the queue, its bound, and its wake-ups (rpc/fifo.h, rpc/thr_pool.cc).
use ds.Base.{
  ℕ, suc, ◌+◌, ◌*◌, ◌≤◌, ◌<◌, ◌≡◌, refl, ap, List, [], ◌∷◌, ◌++◌, some, arith, ◌==◌, Bool-cases,
  Option-cases, inl, inr, ◌⊎◌, subst, zero, append_assoc, length, length-append,
}
use ds.Rpc.Pool.{
  Job, poison, job, enq, deq, Pool, thr_pool, signal_non_empty, enter, add_job, take_job,
  finish_job, without, item, Event, add, take, finish, spurious, close, pill, step, run,
}

-- What has come out of the queue and what is in it is what went in, in this order; the queue is within
-- its limit; and if threads wait, there are at least as many threads on their way as jobs.
pub record IsSound (sz : ℕ) (p : Pool) : Type 0 where
  pub order : p.entered ≡ p.taken ++ p.jobq.q
  pub limit : p.jobq.max ≡ 100 * sz
  pub bound : 0 < sz → length p.jobq.q ≤ 100 * sz
  pub awake : 0 < p.waiting → length p.jobq.q ≤ p.taking
  pub threads : p.waiting + p.taking + length p.running + p.ended ≡ sz

enter-IsSound :
    (sz : ℕ) (e : Job) (p p' : Pool) → enter e p ≡ some p' → IsSound sz p → IsSound sz p'
unfolding enter enq signal_non_empty
enter-IsSound sz e p p' h v = record {
  order = ground (arith, h, v.order, append_assoc p.taken p.jobq.q (e ∷ []));
  limit = ground (arith, h, v.limit);
  bound = λ pos. ground (arith, h, v.limit, v.bound, pos, length-append p.jobq.q (e ∷ []));
  awake = λ w. ground (arith, h, w, v.awake, length-append p.jobq.q (e ∷ []));
  threads = ground (arith, h, v.threads);
}

add-IsSound : (sz j : ℕ) (p : Pool) → IsSound sz p → IsSound sz (add_job j p).1
unfolding add_job
add-IsSound sz j p v = elim (Option-cases (enter (job j) p)) [
  | inl e ↦ rw (add_job, e) v
  | inr (p', e) ↦ rw (add_job, e) (enter-IsSound sz (job j) p p' e v)
]

take_empty-IsSound :
    (sz : ℕ) (p p' : Pool) → p.jobq.q ≡ [] → take_job p ≡ some p' → IsSound sz p → IsSound sz p'
unfolding take_job deq
take_empty-IsSound sz p p' e h v = record {
  order = ground (arith, h, e, v.order);
  limit = ground (arith, h, e, v.limit);
  bound = λ pos. ground (arith, h, e, v.bound, pos);
  awake = λ w. ground (arith, h, e);
  threads = ground (arith, h, e, v.threads);
}

take_next-IsSound :
    (sz : ℕ) (j : Job) (rest : List Job) (p p' : Pool)
    → p.jobq.q ≡ j ∷ rest
    → take_job p ≡ some p'
    → IsSound sz p
    → IsSound sz p'
unfolding take_job deq
take_next-IsSound sz poison rest p p' e h v = record {
  order = ground (arith, h, e, v.order, append_assoc p.taken (poison ∷ []) rest);
  limit = ground (arith, h, e, v.limit);
  bound = λ pos. ground (arith, h, e, v.bound, pos);
  awake = λ w. ground (arith, h, e, v.awake, w);
  threads = ground (arith, h, e, v.threads);
}
take_next-IsSound sz (job j) rest p p' e h v = record {
  order = ground (arith, h, e, v.order, append_assoc p.taken (job j ∷ []) rest);
  limit = ground (arith, h, e, v.limit);
  bound = λ pos. ground (arith, h, e, v.bound, pos);
  awake = λ w. ground (arith, h, e, v.awake, w);
  threads = ground (arith, h, e, v.threads);
}

pub List-cases : (l : List Job) → (l ≡ []) ⊎ ((e : Job) × (rest : List Job) × (l ≡ e ∷ rest))
List-cases [] = inl refl
List-cases (e ∷ rest) = inr (e, rest, refl)

length-without : (i j : ℕ) (l : List ℕ) → item i l ≡ some j → suc (length (without i l)) ≡ length l
length-without i j [] h = absurd (ground (arith, h))
length-without zero j (x ∷ l) h = refl
length-without (suc i) j (x ∷ l) h = ap suc (length-without i j l h)

finish-IsSound : (sz i : ℕ) (p p' : Pool) → finish_job i p ≡ some p' → IsSound sz p → IsSound sz p'
unfolding finish_job
finish-IsSound sz i p p' h v = elim (Option-cases (item i p.running)) [
  | inl e ↦ absurd (ground (arith, h, e))
  | inr (j, e) ↦ record {
    order = ground (arith, h, e, v.order);
    limit = ground (arith, h, e, v.limit);
    bound = λ pos. ground (arith, h, e, v.bound, pos);
    awake = λ w. ground (arith, h, e, v.awake, w);
    threads = ground (arith, h, e, v.threads, length-without i j p.running e);
  }
]

step-IsSound :
    (sz : ℕ) (e : Event) (p p' : Pool) → step sz e p ≡ some p' → IsSound sz p → IsSound sz p'
unfolding step
step-IsSound sz (add j) p p' h v = elim (Bool-cases p.closing) [
  | inl e ↦ absurd (ground (arith, h, e))
  | inr e ↦
      let same : (add_job j p).1 ≡ p' = ground (arith, h, e) in
      subst (IsSound sz) same (add-IsSound sz j p v)
]
step-IsSound sz take p p' h v = elim (List-cases p.jobq.q) [
  | inl e ↦ take_empty-IsSound sz p p' e h v
  | inr (j, rest, e) ↦ take_next-IsSound sz j rest p p' e h v
]
step-IsSound sz (finish i) p p' h v = finish-IsSound sz i p p' h v
step-IsSound sz spurious p p' h v = record {
  order = ground (arith, h, v.order);
  limit = ground (arith, h, v.limit);
  bound = λ pos. ground (arith, h, v.bound, pos);
  awake = λ w. ground (arith, h, v.awake, w);
  threads = ground (arith, h, v.threads);
}
step-IsSound sz close p p' h v = record {
  order = ground (arith, h, v.order);
  limit = ground (arith, h, v.limit);
  bound = λ pos. ground (arith, h, v.bound, pos);
  awake = λ w. ground (arith, h, v.awake, w);
  threads = ground (arith, h, v.threads);
}
step-IsSound sz pill p p' h v = elim (Option-cases (enter poison p)) [
  | inl e ↦ absurd (ground (arith, h, e))
  | inr (m, e) ↦
      let w = enter-IsSound sz poison p m e v in
      record {
        order = ground (arith, h, e, w.order);
        limit = ground (arith, h, e, w.limit);
        bound = λ pos. ground (arith, h, e, w.bound, pos);
        awake = λ x. ground (arith, h, e, w.awake, x);
        threads = ground (arith, h, e, w.threads);
      }
]

pub run-IsSound :
    (sz : ℕ) (es : List Event) (p p' : Pool) → run sz es p ≡ some p' → IsSound sz p → IsSound sz p'
unfolding run
run-IsSound sz [] p p' h v = let same : p ≡ p' = ground (arith, h) in subst (IsSound sz) same v
run-IsSound sz (e ∷ es) p p' h v = elim (Option-cases (step sz e p)) [
  | inl f ↦ absurd (ground (arith, h, f))
  | inr (m, f) ↦ run-IsSound sz es m p' (rw f at h) (step-IsSound sz e p m f v)
]

pub thr_pool-IsSound : (sz : ℕ) → IsSound sz (thr_pool sz)
unfolding thr_pool
thr_pool-IsSound sz = record {
  order = refl;
  limit = refl;
  bound = λ _. ground arith;
  awake = λ _. ground arith;
  threads = ground arith;
}

-- Whatever the threads of a pool do, and however often they wake up by themselves: the jobs come out of
-- the queue in the order in which they went in, and none is lost; the queue never has more than a
-- hundred jobs for each thread; and as long as a thread waits for a job, there are at least as many
-- threads on their way to the queue as there are jobs in it, so that no wake-up is lost.
pub queue_lem :
    (sz : ℕ) (es : List Event) (p : Pool)
    → run sz es (thr_pool sz) ≡ some p
    → 0 < sz
    → (p.entered ≡ p.taken ++ p.jobq.q)
      × (length p.jobq.q ≤ 100 * sz)
      × ((p.waiting ≡ 0) ⊎ (length p.jobq.q ≤ p.taking))
queue_lem sz es p h pos =
    let v = run-IsSound sz es (thr_pool sz) p h (thr_pool-IsSound sz) in
    (
      v.order,
      v.bound pos,
      elim (Bool-cases (p.waiting == 0)) [
        | inl e ↦ inl (ground (arith, e))
        | inr e ↦ inr (v.awake (ground (arith, e)))
      ],
    )
