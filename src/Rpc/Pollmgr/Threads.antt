-- ===== src/Rpc/Pollmgr/Threads.antt =====
-- The invariant over the steps of the other threads, and over runs (rpc/pollmgr.cc).
use ds.Base.{
  ℕ, ◌≡◌, ◌≢◌, refl, true, List, [], ◌∷◌, some, arith, ◌==◌, update, Bool-cases, Option-cases, inl,
  inr, All,
}
use ds.Rpc.Pollmgr.{
  PollFlag, cb_rdwr, SelectAio, watch_fd, unwatch_fd, add_callback, del_callback,
  block_remove_start, block_remove_end,
}
use ds.Rpc.Pollmgr.Loop.{
  Removing, unasked, waiting, woken, returned, State, Event, head, copy, interrupt, ready, call,
  add, del, remove, finish, spurious, step, run,
}
use ds.Rpc.Pollmgr.Watched.{unwatch_fd-rdwr, watch_fd_ne}
use ds.Rpc.Pollmgr.Quiet.{
  unwatched, quiet_as, quiet, unwatched-unwatch, quiet-unwatch, head-quiet, copy-quiet,
  interrupt-quiet, call-quiet, ready-quiet,
}

-- block_remove_fd is not woken without a broadcast.
abbrev pub IsOrderly : ℕ → Event → Type 0
IsOrderly fd (spurious j) = j ≢ fd
IsOrderly fd _ = Unit

-- The steps of the other threads, by what they do to the poll manager and to `removing`.
quiet-at :
    (fd : ℕ) (s t : State) (r : Removing) (a : SelectAio)
    → t.removing fd ≡ r
    → t.mgr.aio ≡ a
    → t.point ≡ s.point
    → quiet_as fd r a s.point ≡ true
    → quiet fd t ≡ true
quiet-at fd s t r a e f g h = rw (e, f, g) h

added-quiet :
    (fd j ch : ℕ) (flag : PollFlag) (s t : State)
    → t ≡ record s {
      mgr = record (s.mgr) {
        callbacks = update s.mgr.callbacks j (some ch);
        aio = watch_fd j flag s.mgr.aio;
      };
      removing = update s.removing j unasked;
    }
    → quiet fd s ≡ true
    → quiet fd t ≡ true
added-quiet fd j ch flag s t e q = elim (Bool-cases (j == fd)) [
  | inl f ↦ ground (arith, e, f)
  | inr f ↦
      let (x, y) = watch_fd_ne j fd flag s.mgr.aio (λ p. ground (arith, f, p)) in
      let u : unwatched fd s.mgr.aio ≡ true → unwatched fd (watch_fd j flag s.mgr.aio) ≡ true =
        λ v. rw (x, y) v in
      let q' = quiet-unwatch fd (s.removing fd) s.mgr.aio (watch_fd j flag s.mgr.aio) s.point u q in
      ground (arith, e, f, q')
]

add-quiet :
    (fd j ch : ℕ) (flag : PollFlag) (s t : State) (r : Removing)
    → s.removing j ≡ r
    → step (add j flag ch) s ≡ some t
    → quiet fd s ≡ true
    → quiet fd t ≡ true
unfolding step add_callback
add-quiet fd j ch flag s t waiting e h q = ground (arith, h, e)
add-quiet fd j ch flag s t woken e h q = ground (arith, h, e)
add-quiet fd j ch flag s t unasked e h q = added-quiet fd j ch flag s t (ground (arith, h, e)) q
add-quiet fd j ch flag s t returned e h q = added-quiet fd j ch flag s t (ground (arith, h, e)) q

del-quiet :
    (fd j : ℕ) (flag : PollFlag) (s t : State)
    → step (del j flag) s ≡ some t
    → quiet fd s ≡ true
    → quiet fd t ≡ true
unfolding step del_callback
del-quiet fd j flag s t h q = elim (Option-cases (unwatch_fd j flag s.mgr.aio)) [
  | inl f ↦ absurd (ground (arith, h, f))
  | inr ((gone, b), f) ↦
      let q' =
        quiet-unwatch fd (s.removing fd) s.mgr.aio b s.point
          (unwatched-unwatch j fd flag s.mgr.aio b gone f) q in
      ground (arith, h, f, q')
]

remove-quiet :
    (fd j : ℕ) (s t : State) (r : Removing)
    → s.removing j ≡ r
    → step (remove j) s ≡ some t
    → quiet fd s ≡ true
    → quiet fd t ≡ true
unfolding step block_remove_start
remove-quiet fd j s t unasked e h q = elim (Option-cases (unwatch_fd j cb_rdwr s.mgr.aio)) [
  | inl f ↦ absurd (ground (arith, h, e, f))
  | inr ((gone, b), f) ↦ elim (Bool-cases (j == fd)) [
    | inl g ↦
        let same : j ≡ fd = ground (arith, g) in
        let (x, y) = unwatch_fd-rdwr fd s.mgr.aio b gone (rw same at f) in
        ground (arith, h, e, f, g, x, y)
    | inr g ↦
        let q' =
          quiet-unwatch fd (s.removing fd) s.mgr.aio b s.point
            (unwatched-unwatch j fd cb_rdwr s.mgr.aio b gone f) q in
        ground (arith, h, e, f, g, q')
  ]
]
remove-quiet fd j s t waiting e h q = ground (arith, h, e)
remove-quiet fd j s t woken e h q = ground (arith, h, e)
remove-quiet fd j s t returned e h q = ground (arith, h, e)

finish-quiet :
    (fd j : ℕ) (s t : State) → step (finish j) s ≡ some t → quiet fd s ≡ true → quiet fd t ≡ true
unfolding step block_remove_end
finish-quiet fd j s t h q = elim (Bool-cases (j == fd)) [
  | inl f ↦ let same : j ≡ fd = ground (arith, f) in let h' = rw same at h in ground (arith, h', q)
  | inr f ↦ ground (arith, h, f, q)
]

spurious-quiet :
    (fd j : ℕ) (s t : State)
    → step (spurious j) s ≡ some t
    → j ≢ fd
    → quiet fd s ≡ true
    → quiet fd t ≡ true
unfolding step
spurious-quiet fd j s t h ne q = ground (arith, h, ne, q)

pub step-quiet :
    (fd : ℕ) (e : Event) (s t : State)
    → step e s ≡ some t
    → IsOrderly fd e
    → quiet fd s ≡ true
    → quiet fd t ≡ true
unfolding step
step-quiet fd head s t h o q = head-quiet fd s t h q
step-quiet fd copy s t h o q = copy-quiet fd s t h q
step-quiet fd interrupt s t h o q = interrupt-quiet fd s t h q
step-quiet fd (ready rs ws) s t h o q = ready-quiet fd rs ws s t s.point refl h q
step-quiet fd call s t h o q = call-quiet fd s t s.point refl h q
step-quiet fd (add j flag ch) s t h o q = add-quiet fd j ch flag s t (s.removing j) refl h q
step-quiet fd (del j flag) s t h o q = del-quiet fd j flag s t h q
step-quiet fd (remove j) s t h o q = remove-quiet fd j s t (s.removing j) refl h q
step-quiet fd (finish j) s t h o q = finish-quiet fd j s t h q
step-quiet fd (spurious j) s t h o q = spurious-quiet fd j s t h o q

pub run-quiet :
    (fd : ℕ) (es : List Event) (s t : State)
    → run es s ≡ some t
    → All (IsOrderly fd) es
    → quiet fd s ≡ true
    → quiet fd t ≡ true
unfolding run
run-quiet fd [] s t h o q = ground (arith, h, q)
run-quiet fd (e ∷ es) s t h (o, os) q = elim (Option-cases (step e s)) [
  | inl f ↦ absurd (ground (arith, h, f))
  | inr (u, f) ↦ run-quiet fd es u t (rw f at h) os (step-quiet fd e s u f o q)
]
