-- ===== src/Rpc/Pollmgr/Quiet.antt =====
-- The invariant of wait_loop and block_remove_fd (rpc/pollmgr.cc).
use ds.Base.{ℕ, ◌≡◌, refl, Bool, true, ◌&&◌, not, [], ◌∷◌, some, arith, Option-cases, inl, inr}
use ds.Rpc.Pollmgr.{PollFlag, SelectAio, unwatch_fd, wait_ready}
use ds.Rpc.Pollmgr.Loop.{
  Point, heading, copying, selecting, calling, Removing, unasked, waiting, woken, returned, State,
  head, copy, interrupt, ready, call, wake, within, step,
}
use ds.Rpc.Pollmgr.Watched.{unwatch_fd-false, lacks, wait_ready-sets, wait_ready-lacks}

-- Not in the sets.
abbrev pub unwatched : ℕ → SelectAio → Bool
unwatched fd a = not (a.rfds fd) && not (a.wfds fd)

-- Not in what wait_loop has taken from the sets.
abbrev pub absent : ℕ → Point → Bool
absent fd (selecting r w high) = not (r fd) && not (w fd)
absent fd (calling readable writable) = lacks fd readable && lacks fd writable
absent fd _ = true

-- A descriptor that block_remove_fd was called for is in no set, and once that is woken also not in
-- what wait_loop works on.
abbrev pub quiet_as : ℕ → Removing → SelectAio → Point → Bool
quiet_as fd unasked a p = true
quiet_as fd waiting a p = unwatched fd a
quiet_as fd _ a p = unwatched fd a && absent fd p

abbrev pub quiet : ℕ → State → Bool
quiet fd s = quiet_as fd (s.removing fd) s.mgr.aio s.point

pub unwatched-unwatch :
    (j fd : ℕ) (flag : PollFlag) (a b : SelectAio) (gone : Bool)
    → unwatch_fd j flag a ≡ some (gone, b)
    → unwatched fd a ≡ true
    → unwatched fd b ≡ true
unwatched-unwatch j fd flag a b gone h u =
    let (p, q) = unwatch_fd-false j fd flag a b gone h (ground (arith, u)) (ground (arith, u)) in
    rw (p, q) refl

pub quiet-unwatch :
    (fd : ℕ) (r : Removing) (a b : SelectAio) (p : Point)
    → (unwatched fd a ≡ true → unwatched fd b ≡ true)
    → quiet_as fd r a p ≡ true
    → quiet_as fd r b p ≡ true
quiet-unwatch fd unasked a b p u h = refl
quiet-unwatch fd waiting a b p u h = u h
quiet-unwatch fd woken a b p u h = ground (arith, u, h)
quiet-unwatch fd returned a b p u h = ground (arith, u, h)

quiet-point :
    (fd : ℕ) (r : Removing) (a : SelectAio) (p q : Point)
    → (unwatched fd a ≡ true → absent fd p ≡ true → absent fd q ≡ true)
    → quiet_as fd r a p ≡ true
    → quiet_as fd r a q ≡ true
quiet-point fd unasked a p q u h = refl
quiet-point fd waiting a p q u h = h
quiet-point fd woken a p q u h = ground (arith, u, h)
quiet-point fd returned a p q u h = ground (arith, u, h)

quiet-wake :
    (fd : ℕ) (r : Removing) (a : SelectAio) (p : Point)
    → quiet_as fd r a p ≡ true
    → quiet_as fd (wake r) a copying ≡ true
quiet-wake fd unasked a p h = refl
quiet-wake fd waiting a p h = ground (arith, h)
quiet-wake fd woken a p h = ground (arith, h)
quiet-wake fd returned a p h = ground (arith, h)

pub head-quiet :
    (fd : ℕ) (s t : State) → step head s ≡ some t → quiet fd s ≡ true → quiet fd t ≡ true
unfolding step
head-quiet fd s t h q =
    let r = s.removing fd in
    let a = s.mgr.aio in
    ground
      (arith, h, q, quiet-wake fd r a s.point q, quiet-point fd r a s.point copying (λ u a. refl) q)

pub copy-quiet :
    (fd : ℕ) (s t : State) → step copy s ≡ some t → quiet fd s ≡ true → quiet fd t ≡ true
unfolding step
copy-quiet fd s t h q =
    let a = s.mgr.aio in
    ground (
      arith,
      h,
      quiet-point fd (s.removing fd) a s.point (selecting a.rfds a.wfds a.highfds) (λ u _. u) q,
    )

pub interrupt-quiet :
    (fd : ℕ) (s t : State) → step interrupt s ≡ some t → quiet fd s ≡ true → quiet fd t ≡ true
unfolding step
interrupt-quiet fd s t h q =
    ground (arith, h, quiet-point fd (s.removing fd) s.mgr.aio s.point heading (λ u _. refl) q)

pub call-quiet :
    (fd : ℕ) (s t : State) (p : Point)
    → s.point ≡ p
    → step call s ≡ some t
    → quiet fd s ≡ true
    → quiet fd t ≡ true
unfolding step lacks
call-quiet fd s t (calling [] []) e h q =
    ground (arith, h, e, quiet-point fd (s.removing fd) s.mgr.aio s.point heading (λ u _. refl) q)
call-quiet fd s t (calling [] (j ∷ ws)) e h q = ground (
  arith,
  h,
  e,
  quiet-point fd (s.removing fd) s.mgr.aio s.point (calling [] ws) (λ u a. ground (arith, a, e)) q,
)
call-quiet fd s t (calling (j ∷ rs) ws) e h q = ground (
  arith,
  h,
  e,
  quiet-point fd (s.removing fd) s.mgr.aio s.point (calling rs ws) (λ u a. ground (arith, a, e)) q,
)
call-quiet fd s t heading e h q = ground (arith, h, e)
call-quiet fd s t copying e h q = ground (arith, h, e)
call-quiet fd s t (selecting r w high) e h q = ground (arith, h, e)

pub ready-quiet :
    (fd : ℕ) (rs ws : ℕ → Bool) (s t : State) (p : Point)
    → s.point ≡ p
    → step (ready rs ws) s ≡ some t
    → quiet fd s ≡ true
    → quiet fd t ≡ true
unfolding step
ready-quiet fd rs ws s t (selecting r w high) e h q =
    let a = s.mgr.aio in
    elim (Option-cases (wait_ready high (within r rs) (within w ws) a)) [
      | inl f ↦ absurd (ground (arith, h, e, f))
      | inr ((b, readable, writable), f) ↦
          let (x, y) =
            wait_ready-sets high fd (within r rs) (within w ws) a b readable writable f in
          let u : unwatched fd a ≡ true → unwatched fd b ≡ true = λ v. rw (x, y) v in
          let q' = quiet-unwatch fd (s.removing fd) a b s.point u q in
          let l : unwatched fd b ≡ true
              → absent fd s.point ≡ true
              → absent fd (calling readable writable) ≡ true =
            λ _ v.
              let z = rw e at v in
              let (m, n) =
                wait_ready-lacks high fd (within r rs) (within w ws) a b readable writable f
                  (ground (arith, z)) (ground (arith, z)) in
              rw (m, n) refl in
          let q'' = quiet-point fd (s.removing fd) b s.point (calling readable writable) l q' in
          ground (arith, h, e, f, q'')
    ]
ready-quiet fd rs ws s t heading e h q = ground (arith, h, e)
ready-quiet fd rs ws s t copying e h q = ground (arith, h, e)
ready-quiet fd rs ws s t (calling a b) e h q = ground (arith, h, e)
