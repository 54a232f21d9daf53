-- ===== src/Rpc/Client/Retry/Waits.antt =====
-- The waits of call1's loop (rpc/rpc.cc).
use ds.Base.{
  ℕ, ◌+◌, ◌*◌, ◌%◌, ◌^◌, ◌≤◌, ◌<◌, ◌≡◌, refl, ap, Bool, true, false, List, [], ◌∷◌, some, arith,
  ◌==◌, Bool-cases, Option-cases, inl, inr, All, ◌⊎◌,
}
use ds.Rpc.Timespec.{Timespec, nanoseconds, cmp_timespec, add_timespec, add_timespec_lem}
use ds.Rpc.Client.Retry.{
  Waiting, Round, get_refconn, reconnect, adopt, transmit_once, begin_wait, after_wait, round, loop,
}

cmp_timespec_ne :
    (a b : Timespec)
    → a.tv_nsec ≤ 1000000000
    → (cmp_timespec a b == 1) ≡ false
    → nanoseconds a ≤ nanoseconds b
unfolding cmp_timespec
cmp_timespec_ne a b h k = ground arith

-- Sending does not change the deadlines.
reconnect-same :
    (r : Round) (w w' : Waiting)
    → reconnect r w ≡ some w'
    → (w'.curr_to ≡ w.curr_to) × (w'.finaldeadline ≡ w.finaldeadline) × (w'.waits ≡ w.waits)
unfolding reconnect
reconnect-same r w w' h = (ground (arith, h), ground (arith, h), ground (arith, h))

adopt-same :
    (w w' : Waiting)
    → adopt w ≡ some w'
    → (w'.curr_to ≡ w.curr_to) × (w'.finaldeadline ≡ w.finaldeadline) × (w'.waits ≡ w.waits)
unfolding adopt
adopt-same w w' h = (ground (arith, h), ground (arith, h), ground (arith, h))

pub transmit_once-same :
    (r : Round) (w w' : Waiting)
    → transmit_once r w ≡ some w'
    → (w'.curr_to ≡ w.curr_to) × (w'.finaldeadline ≡ w.finaldeadline) × (w'.waits ≡ w.waits)
unfolding transmit_once get_refconn
transmit_once-same r w w' h = elim (Option-cases (reconnect r w)) [
  | inl e ↦ (ground (arith, h, e), ground (arith, h, e), ground (arith, h, e))
  | inr (u, e) ↦
      let (a, b, c) = reconnect-same r w u e in
      elim (Option-cases (adopt u)) [
        | inl f ↦ (ground (arith, h, e, f), ground (arith, h, e, f), ground (arith, h, e, f))
        | inr (v, f) ↦
            let (x, y, z) = adopt-same u v f in
            (
              ground (arith, h, e, f, a, x),
              ground (arith, h, e, f, b, y),
              ground (arith, h, e, f, c, z),
            )
      ]
]

-- A round that goes on has waited until finaldeadline, and the next one ends; or until an earlier time,
-- which is the timeout later than the round's beginning, and doubles the timeout.
begin_wait_lem :
    (r : Round) (w : Waiting)
    → r.now.tv_nsec < 1000000000
    → ((begin_wait r w).finaldeadline.tv_sec ≡ 0)
      ⊎ (((begin_wait r w).finaldeadline ≡ w.finaldeadline)
          × ((begin_wait r w).waits ≡ add_timespec r.now w.curr_to ∷ w.waits)
          × (nanoseconds r.now + w.curr_to * 1000000 ≤ nanoseconds w.finaldeadline))
unfolding begin_wait
begin_wait_lem r w h =
    let next = add_timespec r.now w.curr_to in
    let (exact, small) = add_timespec_lem r.now w.curr_to h in
    elim (Bool-cases (cmp_timespec next w.finaldeadline == 1)) [
      | inl e ↦ inl (rw e refl)
      | inr e ↦
          let le = cmp_timespec_ne next w.finaldeadline small e in
          inr (rw e refl, rw e refl, omega (arith, exact, le))
    ]

begin_wait-curr_to : (r : Round) (w : Waiting) → (begin_wait r w).curr_to ≡ w.curr_to
unfolding begin_wait
begin_wait-curr_to r w = ground arith

round_next :
    (retrans : Bool) (r : Round) (w w' : Waiting)
    → round retrans r w ≡ some (false, w')
    → (u : Waiting) × (transmit_once r w ≡ some u) × (w' ≡ after_wait retrans r (begin_wait r u))
unfolding round
round_next retrans r w w' h = elim (Option-cases (transmit_once r w)) [
  | inl e ↦ absurd (ground (arith, h, e))
  | inr (u, e) ↦ (u, e, ground (arith, h, e))
]

-- The time at which the last wait ended, at the earliest.
abbrev pub latest : Timespec → List Timespec → ℕ
latest start [] = nanoseconds start
latest start (t ∷ _) = nanoseconds t

-- Every round finds a time, and not one before the end of the wait that went before it.
abbrev pub Punctual : Bool → Timespec → List Round → Waiting → Type 0
Punctual retrans start [] w = Unit
Punctual retrans start (r ∷ rs) w =
    (r.now.tv_nsec < 1000000000)
    × (latest start w.waits ≤ nanoseconds r.now)
    × ((w' : Waiting) → round retrans r w ≡ some (false, w') → Punctual retrans start rs w')

-- What a round that goes on leaves.
pub next_lem :
    (retrans : Bool) (start : Timespec) (r : Round) (w w' : Waiting)
    → round retrans r w ≡ some (false, w')
    → r.now.tv_nsec < 1000000000
    → latest start w.waits ≤ nanoseconds r.now
    → (w'.finaldeadline.tv_sec ≡ 0)
      ⊎ ((w'.finaldeadline ≡ w.finaldeadline)
          × (w'.curr_to ≡ w.curr_to * 2 % 2 ^ 32)
          × (latest start w.waits + w.curr_to * 1000000 ≤ latest start w'.waits)
          × (latest start w.waits + w.curr_to * 1000000 ≤ nanoseconds w.finaldeadline))
unfolding after_wait
next_lem retrans start r w w' h k l =
    let (u, e, eq) = round_next retrans r w w' h in
    let (a, b, c) = transmit_once-same r w u e in
    let (exact, _) = add_timespec_lem r.now u.curr_to k in
    elim (begin_wait_lem r u k) [
      | inl z ↦ inl (ground (arith, eq, z))
      | inr (f, ws, le) ↦
          let e1 : w'.waits ≡ add_timespec r.now u.curr_to ∷ u.waits = ground (arith, eq, ws) in
          let lw : latest start w'.waits ≡ nanoseconds (add_timespec r.now u.curr_to) =
            ap (latest start) e1 in
          inr (
            ground (arith, eq, f, b),
            ground (arith, eq, a, begin_wait-curr_to r u),
            omega (arith, lw, exact, a, l),
            omega (arith, le, a, l, ap nanoseconds b),
          )
    ]

-- Every wait is until some time that is not later.
abbrev pub AreBy : ℕ → List Timespec → Type 0
AreBy last = All (λ t. nanoseconds t ≤ last)

begin_wait-AreBy :
    (last : ℕ) (r : Round) (w : Waiting)
    → r.now.tv_nsec < 1000000000
    → nanoseconds w.finaldeadline ≤ last
    → AreBy last w.waits
    → (nanoseconds (begin_wait r w).finaldeadline ≤ last) × AreBy last (begin_wait r w).waits
unfolding begin_wait
begin_wait-AreBy last r w h f v =
    let next = add_timespec r.now w.curr_to in
    let (exact, small) = add_timespec_lem r.now w.curr_to h in
    elim (Bool-cases (cmp_timespec next w.finaldeadline == 1)) [
      | inl e ↦ rw e (omega (arith, f), (f, v))
      | inr e ↦
          let le = cmp_timespec_ne next w.finaldeadline small e in
          rw e (f, (omega (arith, le, f), v))
    ]

round-AreBy :
    (last : ℕ) (retrans : Bool) (r : Round) (w w' : Waiting) (ended : Bool)
    → round retrans r w ≡ some (ended, w')
    → r.now.tv_nsec < 1000000000
    → nanoseconds w.finaldeadline ≤ last
    → AreBy last w.waits
    → (nanoseconds w'.finaldeadline ≤ last) × AreBy last w'.waits
unfolding round after_wait
round-AreBy last retrans r w w' ended h k f v = elim (Option-cases (transmit_once r w)) [
  | inl e ↦ absurd (ground (arith, h, e))
  | inr (u, e) ↦
      let (a, b, c) = transmit_once-same r w u e in
      let f' : nanoseconds u.finaldeadline ≤ last = rw b f in
      let v' : AreBy last u.waits = rw c v in
      let (g, x) = begin_wait-AreBy last r u k f' v' in
      elim (Bool-cases (u.finaldeadline.tv_sec == 0)) [
        | inl z ↦ let same : u ≡ w' = ground (arith, h, e, z) in rw (← same) (f', v')
        | inr z ↦ elim (Bool-cases r.replied) [
          | inl d ↦
              let same : begin_wait r u ≡ w' = ground (arith, h, e, z, d) in rw (← same) (g, x)
          | inr d ↦
              let same : after_wait retrans r (begin_wait r u) ≡ w' = ground (arith, h, e, z, d) in
              rw (← same) (g, x)
        ]
      ]
]

pub loop-AreBy :
    (last : ℕ) (retrans : Bool) (start : Timespec) (rs : List Round) (w w' : Waiting) (ended : Bool)
    → loop retrans rs w ≡ some (ended, w')
    → Punctual retrans start rs w
    → nanoseconds w.finaldeadline ≤ last
    → AreBy last w.waits
    → AreBy last w'.waits
unfolding loop
loop-AreBy last retrans start [] w w' ended h p f v =
    let same : w ≡ w' = ground (arith, h) in rw (← same) v
loop-AreBy last retrans start (r ∷ rs) w w' ended h (k, m, p) f v =
    elim (Option-cases (round retrans r w)) [
      | inl e ↦ absurd (ground (arith, h, e))
      | inr ((true, u), e) ↦
          let (g, x) = round-AreBy last retrans r w u true e k f v in
          let same : u ≡ w' = ground (arith, h, e) in rw (← same) x
      | inr ((false, u), e) ↦
          let (g, x) = round-AreBy last retrans r w u false e k f v in
          loop-AreBy last retrans start rs u w' ended (rw e at h) (p u e) g x
    ]
