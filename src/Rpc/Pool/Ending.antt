-- ===== src/Rpc/Pool/Ending.antt =====
-- How a pool ends (rpc/thr_pool.cc).
use ds.Base.{
  ℕ, ◌+◌, ◌<◌, ◌≡◌, refl, subst, true, false, List, [], ◌∷◌, ◌++◌, some, arith, Bool-cases,
  Option-cases, inl, inr,
}
use ds.Rpc.Pool.{
  Job, poison, job, enq, deq, Pool, thr_pool, signal_non_empty, enter, add_job, take_job,
  finish_job, item, Event, add, take, finish, spurious, close, pill, step, run,
}
use ds.Rpc.Pool.Order.{List-cases, run-IsSound, thr_pool-IsSound}
use ds.Rpc.Pool.Pills.{
  count_in, count, are_pills, are_sorted, pills_in, count_in-append, pills_in-append,
  are_pills-append, are_sorted-pill, are_sorted-job, are_sorted-pills, count-without, no_jobs,
  count-nil,
}

-- Every job that went into the queue is in it, or being run, or finished; the pills come behind the
-- jobs; every thread that ended took one; and none does before the destructor began.
record IsCounted (sz x : ℕ) (p : Pool) : Type 0 where
  jobs : count_in x p.entered ≡ count_in x p.jobq.q + count x p.running + count x p.finished
  sorted : are_sorted p.jobq.q ≡ true
  open_pills : p.closing ≡ false → p.pills + pills_in p.jobq.q + p.ended ≡ 0
  closed_pills : p.closing ≡ true → p.pills + pills_in p.jobq.q + p.ended ≡ sz
  over : 0 < p.ended → are_pills p.jobq.q ≡ true

-- What enter does, but for the threads.
enter_lem :
    (e : Job) (p p' : Pool)
    → enter e p ≡ some p'
    → (p'.jobq.q ≡ p.jobq.q ++ e ∷ [])
      × (p'.entered ≡ p.entered ++ e ∷ [])
      × (p'.running ≡ p.running)
      × (p'.finished ≡ p.finished)
      × (p'.ended ≡ p.ended)
      × (p'.closing ≡ p.closing)
      × (p'.pills ≡ p.pills)
unfolding enter enq signal_non_empty
enter_lem e p p' h = (
  ground (arith, h),
  ground (arith, h),
  ground (arith, h),
  ground (arith, h),
  ground (arith, h),
  ground (arith, h),
  ground (arith, h),
)

enter_job-IsCounted :
    (sz x j : ℕ) (p p' : Pool)
    → p.closing ≡ false
    → enter (job j) p ≡ some p'
    → IsCounted sz x p
    → IsCounted sz x p'
enter_job-IsCounted sz x j p p' c h v =
    let (q, n, r, f, e, k, l) = enter_lem (job j) p p' h in
    record {
      jobs = ground (
        arith,
        q,
        n,
        r,
        f,
        v.jobs,
        count_in-append x p.jobq.q (job j),
        count_in-append x p.entered (job j),
      );
      sorted = rw q (are_sorted-job p.jobq.q j (ground (arith, c, v.open_pills)));
      open_pills = λ o. ground (arith, q, e, l, c, v.open_pills, pills_in-append p.jobq.q (job j));
      closed_pills = λ o. absurd (ground (arith, o, k, c));
      over = λ o. absurd (ground (arith, o, e, c, v.open_pills));
    }

pill-IsCounted :
    (sz x : ℕ) (p p' : Pool) → step sz pill p ≡ some p' → IsCounted sz x p → IsCounted sz x p'
unfolding step
pill-IsCounted sz x p p' h v = elim (Option-cases (enter poison p)) [
  | inl e ↦ absurd (ground (arith, h, e))
  | inr (m, g) ↦
      let (q, n, r, f, e, k, l) = enter_lem poison p m g in
      let same : p'.jobq.q ≡ p.jobq.q ++ poison ∷ [] = ground (arith, h, g, q) in
      record {
        jobs = ground (
          arith,
          h,
          g,
          q,
          n,
          r,
          f,
          v.jobs,
          count_in-append x p.jobq.q poison,
          count_in-append x p.entered poison,
        );
        sorted = rw same (are_sorted-pill p.jobq.q v.sorted);
        open_pills = λ o. absurd (ground (arith, h, g, o, k, v.open_pills));
        closed_pills =
            λ o. ground (arith, h, g, q, e, k, o, v.closed_pills, pills_in-append p.jobq.q poison);
        over = λ o. rw same (are_pills-append p.jobq.q (v.over (ground (arith, h, g, o, e))));
      }
]

take_pill-IsCounted :
    (sz x : ℕ) (rest : List Job) (p p' : Pool)
    → p.jobq.q ≡ poison ∷ rest
    → take_job p ≡ some p'
    → IsCounted sz x p
    → IsCounted sz x p'
unfolding take_job deq
take_pill-IsCounted sz x rest p p' e h v =
    let jobs = v.jobs in
    let sorted = rw e at v.sorted in
    record {
      jobs = ground (arith, h, e, v.jobs);
      sorted = ground (arith, h, e, sorted, are_sorted-pills rest sorted);
      open_pills = λ o. ground (arith, h, e, o, v.open_pills);
      closed_pills = λ o. ground (arith, h, e, o, v.closed_pills);
      over = λ o. ground (arith, h, e, sorted);
    }

take_job-IsCounted :
    (sz x j : ℕ) (rest : List Job) (p p' : Pool)
    → p.jobq.q ≡ job j ∷ rest
    → take_job p ≡ some p'
    → IsCounted sz x p
    → IsCounted sz x p'
unfolding take_job deq
take_job-IsCounted sz x j rest p p' e h v =
    let sorted = rw e at v.sorted in
    record {
      jobs = ground (arith, h, e, v.jobs);
      sorted = ground (arith, h, e, sorted);
      open_pills = λ o. ground (arith, h, e, o, v.open_pills);
      closed_pills = λ o. ground (arith, h, e, o, v.closed_pills);
      over = λ o. ground (arith, h, e, o, v.over);
    }

take_none-IsCounted :
    (sz x : ℕ) (p p' : Pool)
    → p.jobq.q ≡ []
    → take_job p ≡ some p'
    → IsCounted sz x p
    → IsCounted sz x p'
unfolding take_job deq
take_none-IsCounted sz x p p' e h v = record {
  jobs = ground (arith, h, e, v.jobs);
  sorted = ground (arith, h, e);
  open_pills = λ o. ground (arith, h, e, o, v.open_pills);
  closed_pills = λ o. ground (arith, h, e, o, v.closed_pills);
  over = λ o. ground (arith, h, e);
}

finish-IsCounted :
    (sz x i : ℕ) (p p' : Pool) → finish_job i p ≡ some p' → IsCounted sz x p → IsCounted sz x p'
unfolding finish_job
finish-IsCounted sz x i p p' h v = elim (Option-cases (item i p.running)) [
  | inl e ↦ absurd (ground (arith, h, e))
  | inr (j, e) ↦ record {
    jobs = ground (arith, h, e, v.jobs, count-without x i j p.running e);
    sorted = ground (arith, h, e, v.sorted);
    open_pills = λ o. ground (arith, h, e, o, v.open_pills);
    closed_pills = λ o. ground (arith, h, e, o, v.closed_pills);
    over = λ o. ground (arith, h, e, o, v.over);
  }
]

add-IsCounted :
    (sz x j : ℕ) (p : Pool) → p.closing ≡ false → IsCounted sz x p → IsCounted sz x (add_job j p).1
unfolding add_job
add-IsCounted sz x j p c v = elim (Option-cases (enter (job j) p)) [
  | inl e ↦ rw (add_job, e) v
  | inr (p', e) ↦ rw (add_job, e) (enter_job-IsCounted sz x j p p' c e v)
]

step-IsCounted :
    (sz x : ℕ) (e : Event) (p p' : Pool)
    → step sz e p ≡ some p'
    → IsCounted sz x p
    → IsCounted sz x p'
unfolding step
step-IsCounted sz x (add j) p p' h v = elim (Bool-cases p.closing) [
  | inl e ↦ absurd (ground (arith, h, e))
  | inr e ↦
      let same : (add_job j p).1 ≡ p' = ground (arith, h, e) in
      subst (IsCounted sz x) same (add-IsCounted sz x j p e v)
]
step-IsCounted sz x take p p' h v = elim (List-cases p.jobq.q) [
  | inl e ↦ take_none-IsCounted sz x p p' e h v
  | inr (poison, rest, e) ↦ take_pill-IsCounted sz x rest p p' e h v
  | inr (job j, rest, e) ↦ take_job-IsCounted sz x j rest p p' e h v
]
step-IsCounted sz x (finish i) p p' h v = finish-IsCounted sz x i p p' h v
step-IsCounted sz x spurious p p' h v = record {
  jobs = ground (arith, h, v.jobs);
  sorted = ground (arith, h, v.sorted);
  open_pills = λ o. ground (arith, h, o, v.open_pills);
  closed_pills = λ o. ground (arith, h, o, v.closed_pills);
  over = λ o. ground (arith, h, o, v.over);
}
step-IsCounted sz x close p p' h v = record {
  jobs = ground (arith, h, v.jobs);
  sorted = ground (arith, h, v.sorted);
  open_pills = λ o. absurd (ground (arith, h, o));
  closed_pills = λ o. ground (arith, h, o, v.open_pills);
  over = λ o. ground (arith, h, o, v.over);
}
step-IsCounted sz x pill p p' h v = pill-IsCounted sz x p p' h v

run-IsCounted :
    (sz x : ℕ) (es : List Event) (p p' : Pool)
    → run sz es p ≡ some p'
    → IsCounted sz x p
    → IsCounted sz x p'
unfolding run
run-IsCounted sz x [] p p' h v =
    let same : p ≡ p' = ground (arith, h) in subst (IsCounted sz x) same v
run-IsCounted sz x (e ∷ es) p p' h v = elim (Option-cases (step sz e p)) [
  | inl f ↦ absurd (ground (arith, h, f))
  | inr (m, f) ↦ run-IsCounted sz x es m p' (rw f at h) (step-IsCounted sz x e p m f v)
]

thr_pool-IsCounted : (sz x : ℕ) → IsCounted sz x (thr_pool sz)
unfolding thr_pool
thr_pool-IsCounted sz x = record {
  jobs = refl;
  sorted = refl;
  open_pills = λ o. refl;
  closed_pills = λ o. absurd (ground (arith, o));
  over = λ o. absurd (omega arith);
}

-- When the destructor of a pool with at least one thread has joined all of its threads, every job that
-- was ever taken into the queue has been run to its end, exactly as often as it was added: whatever
-- the order in which the threads ran, where no job is added once the destructor has begun.
pub joined_lem :
    (sz x : ℕ) (es : List Event) (p : Pool)
    → run sz es (thr_pool sz) ≡ some p
    → 0 < sz
    → p.ended ≡ sz
    → count x p.finished ≡ count_in x p.entered
joined_lem sz x es p h pos all =
    let v = run-IsCounted sz x es (thr_pool sz) p h (thr_pool-IsCounted sz x) in
    let s = run-IsSound sz es (thr_pool sz) p h (thr_pool-IsSound sz) in
    let none_left = no_jobs x p.jobq.q (v.over (omega (arith, all))) in
    let none_running = count-nil x p.running (omega (arith, s.threads, all)) in
    omega (arith, v.jobs, none_left, none_running)
