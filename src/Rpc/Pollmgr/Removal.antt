-- ===== src/Rpc/Pollmgr/Removal.antt =====
-- What block_remove_fd guarantees: no callback is called behind it (rpc/pollmgr.cc).
use ds.Base.{
  ℕ, suc, ◌≡◌, ◌≢◌, refl, ◌∙◌, true, false, List, [], ◌∷◌, Option, none, some, arith, ◌==◌,
  if◌then◌else◌, Option-cases, inl, inr, All,
}
use ds.Rpc.Pollmgr.{add_callback, del_callback, block_remove_start, block_remove_end}
use ds.Rpc.Pollmgr.Loop.{
  Point, heading, copying, selecting, calling, returned, State, start, Event, head, copy, interrupt,
  ready, call, add, del, remove, finish, spurious, calls, step, run,
}
use ds.Rpc.Pollmgr.Watched.{lacks}
use ds.Rpc.Pollmgr.Quiet.{absent, quiet}
use ds.Rpc.Pollmgr.Threads.{IsOrderly, step-quiet, run-quiet}

-- The event does not register the descriptor.
abbrev pub Leaves : ℕ → Event → Type 0
Leaves fd (add j flag ch) = j ≢ fd
Leaves fd _ = Unit

abbrev pub count : ℕ → List ℕ → ℕ
count fd [] = 0
count fd (x ∷ l) = let rest = count fd l in if x == fd then suc rest else rest

count-calls :
    (fd j : ℕ) (c : Option ℕ) (l : List ℕ) → (j == fd) ≡ false → count fd (calls c j l) ≡ count fd l
count-calls fd j none l h = refl
count-calls fd j (some c) l h = rw h refl

call-silent :
    (fd : ℕ) (s t : State) (p : Point)
    → s.point ≡ p
    → step call s ≡ some t
    → absent fd p ≡ true
    → (count fd t.called ≡ count fd s.called) × (t.removing ≡ s.removing)
unfolding step lacks
call-silent fd s t (calling [] []) e h a = ground (arith, h, e)
call-silent fd s t (calling [] (j ∷ ws)) e h a =
    ground (arith, h, e, a, count-calls fd j (s.mgr.callbacks j) s.called)
call-silent fd s t (calling (j ∷ rs) ws) e h a =
    ground (arith, h, e, a, count-calls fd j (s.mgr.callbacks j) s.called)
call-silent fd s t heading e h a = ground (arith, h, e)
call-silent fd s t copying e h a = ground (arith, h, e)
call-silent fd s t (selecting r w high) e h a = ground (arith, h, e)

step-silent :
    (fd : ℕ) (e : Event) (s t : State)
    → step e s ≡ some t
    → Leaves fd e
    → s.removing fd ≡ returned
    → quiet fd s ≡ true
    → (count fd t.called ≡ count fd s.called) × (t.removing fd ≡ returned)
unfolding step add_callback del_callback block_remove_start block_remove_end
step-silent fd head s t h l r q = ground (arith, h, l, r)
step-silent fd copy s t h l r q = ground (arith, h, l, r)
step-silent fd interrupt s t h l r q = ground (arith, h, l, r)
step-silent fd (ready rs ws) s t h l r q = ground (arith, h, l, r)
step-silent fd call s t h l r q =
    let a : absent fd s.point ≡ true = let z = rw r at q in ground (arith, z) in
    let (c, e) = call-silent fd s t s.point refl h a in (c, rw e r)
step-silent fd (add j flag ch) s t h l r q = ground (arith, h, l, r)
step-silent fd (del j flag) s t h l r q = ground (arith, h, l, r)
step-silent fd (remove j) s t h l r q = ground (arith, h, l, r)
step-silent fd (finish j) s t h l r q = ground (arith, h, l, r)
step-silent fd (spurious j) s t h l r q = ground (arith, h, l, r)

run-silent :
    (fd : ℕ) (es : List Event) (s t : State)
    → run es s ≡ some t
    → All (IsOrderly fd) es
    → All (Leaves fd) es
    → s.removing fd ≡ returned
    → quiet fd s ≡ true
    → count fd t.called ≡ count fd s.called
unfolding run
run-silent fd [] s t h o l r q = ground (arith, h)
run-silent fd (e ∷ es) s t h (o, os) (l, ls) r q = elim (Option-cases (step e s)) [
  | inl f ↦ absurd (ground (arith, h, f))
  | inr (u, f) ↦
      let (c, r') = step-silent fd e s u f l r q in
      run-silent fd es u t (rw f at h) os ls r' (step-quiet fd e s u f o q) ∙ c
]

finish-returned : (fd : ℕ) (s t : State) → step (finish fd) s ≡ some t → t.removing fd ≡ returned
unfolding step
finish-returned fd s t e = ground (arith, e)

start-quiet : (fd pipe_r : ℕ) → quiet fd (start pipe_r) ≡ true
unfolding start
start-quiet fd pipe_r = refl

-- Once block_remove_fd has returned for a descriptor, wait_loop calls no callback of it any more until
-- add_callback registers the descriptor again, whatever the other threads do and whatever select
-- returns: provided that block_remove_fd was not woken without a broadcast, and that a descriptor is
-- not registered while it is being removed, nor removed twice.
pub removal_lem :
    (pipe_r fd : ℕ) (before after : List Event) (s t u : State)
    → run before (start pipe_r) ≡ some s
    → step (finish fd) s ≡ some t
    → run after t ≡ some u
    → All (IsOrderly fd) before
    → All (IsOrderly fd) after
    → All (Leaves fd) after
    → count fd u.called ≡ count fd t.called
removal_lem pipe_r fd before after s t u h e k o o' l =
    let q = run-quiet fd before (start pipe_r) s h o (start-quiet fd pipe_r) in
    let q' = step-quiet fd (finish fd) s t e tt q in
    run-silent fd after t u k o' l (finish-returned fd s t e) q'
