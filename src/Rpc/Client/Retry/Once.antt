-- ===== src/Rpc/Client/Retry/Once.antt =====
-- How often call1 sends a request (rpc/rpc.cc).
use ds.Base.{
  ℕ, suc, ◌+◌, ◌≤◌, ◌≡◌, Bool, true, false, List, [], ◌∷◌, Option, none, some, arith, if◌then◌else◌,
  Option-cases, inl, inr, length,
}
use ds.Rpc.Timespec.{Timespec}
use ds.Rpc.Client.Retry.{
  Waiting, Round, reconnect, adopt, get_refconn, transmit_once, begin_wait, after_wait, round, loop,
  begin_loop, with_one,
}

-- The transmissions made and the one that is due.
abbrev due : Waiting → ℕ
due w = (if w.transmit then 1 else 0) + length w.sent

get_refconn-sent :
    (r : Round) (w w' : Waiting)
    → get_refconn r w ≡ some w'
    → (w'.sent ≡ w.sent) × (w'.transmit ≡ w.transmit)
unfolding get_refconn reconnect adopt
get_refconn-sent r w w' h = elim (Option-cases (reconnect r w)) [
  | inl e ↦ absurd (ground (arith, h, e))
  | inr (u, e) ↦ (ground (arith, h, e), ground (arith, h, e))
]

length-with_one : (p : Option ℕ) (l : List ℕ) → length (with_one p l) ≤ suc (length l)
length-with_one none l = omega arith
length-with_one (some c) l = omega arith

transmit_once-due : (r : Round) (w w' : Waiting) → transmit_once r w ≡ some w' → due w' ≤ due w
unfolding transmit_once
transmit_once-due r w w' h = elim (Option-cases (get_refconn r w)) [
  | inl e ↦ ground (arith, h, e)
  | inr (u, e) ↦
      let (a, b) = get_refconn-sent r w u e in
      ground (arith, h, e, a, b, length-with_one u.ch u.sent)
]

begin_wait-due : (r : Round) (w : Waiting) → due (begin_wait r w) ≡ due w
unfolding begin_wait
begin_wait-due r w = ground arith

round-due :
    (r : Round) (w w' : Waiting) (ended : Bool)
    → round false r w ≡ some (ended, w')
    → due w' ≤ due w
unfolding round after_wait
round-due r w w' ended h = elim (Option-cases (transmit_once r w)) [
  | inl e ↦ absurd (ground (arith, h, e))
  | inr (u, e) ↦
      let d = transmit_once-due r w u e in let b = begin_wait-due r u in ground (arith, h, e, d, b)
]

loop-due :
    (rs : List Round) (w w' : Waiting) (ended : Bool)
    → loop false rs w ≡ some (ended, w')
    → due w' ≤ due w
unfolding loop
loop-due [] w w' ended h = ground (arith, h)
loop-due (r ∷ rs) w w' ended h = elim (Option-cases (round false r w)) [
  | inl e ↦ absurd (ground (arith, h, e))
  | inr ((true, u), e) ↦ ground (arith, h, e, round-due r w u true e)
  | inr ((false, u), e) ↦
      let ih = loop-due rs u w' ended (rw e at h) in
      let d = round-due r w u false e in omega (arith, ih, d)
]

-- A client that does not retransmit sends the request of a call at most once.
pub once_lem :
    (start : Timespec) (to : ℕ) (chan : Option ℕ) (refs : ℕ → ℕ) (rs : List Round) (w : Waiting)
    (ended : Bool)
    → loop false rs (begin_loop start to chan refs) ≡ some (ended, w)
    → length w.sent ≤ 1
unfolding begin_loop
once_lem start to chan refs rs w ended h =
    let d = loop-due rs (begin_loop start to chan refs) w ended h in ground (arith, d)
