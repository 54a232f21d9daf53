-- ===== src/Rpc/Connection/Sends.antt =====
-- What send and write_cb put on the stream (rpc/connection.cc).
use ds.Base.{
  ℕ, ◌+◌, ◌-◌, ◌^◌, ◌≤◌, ◌<◌, ◌≡◌, ◌≢◌, refl, sym, ap, ◌∙◌, true, false, List, [], ◌∷◌, ◌++◌, none,
  some, arith, fun_ext, ◌==◌, if◌then◌else◌, Bool-cases, Option-cases, inl, inr, append-nil,
  append_assoc, Mem, copy_at, slice, slice-add,
}
use ds.Rpc.Marshall.Writes.{be32}
use ds.Rpc.Connection.{
  Connection, WriteResult, wrote, again, broken, send_start, is_sending, send_finish, pump,
  returned, send, write_cb, write_step, writepdu, charbuf,
}

-- Writes that take `r` bytes in all, as write does: never more than it is given.
abbrev pub Takes : ℕ → List WriteResult → Type 0
Takes r [] = r ≡ 0
Takes r (wrote n ∷ ws) = (n ≤ r) × Takes (r - n) ws
Takes r (again ∷ ws) = Takes r ws
Takes r (broken ∷ ws) = ⊥

-- The buffer with the size of the pdu in front.
abbrev pub framed : Mem → ℕ → Mem
framed b sz = copy_at b 0 (be32 sz)

pub framed_twice : (b : Mem) (sz : ℕ) → framed (framed b sz) sz ≡ framed b sz
framed_twice b sz = fun_ext (λ j. ground arith)

-- A connection that has sent the first `k` bytes of a pdu.
abbrev sending : Connection → Mem → ℕ → ℕ → List ℕ → Connection
sending c b sz k out = record c {
  dead = false;
  wpdu = record { buf = some b; sz = sz; solong = k };
  out = out;
}

-- The buffer has its size in front as soon as something was written.
record IsPartial (b p : Mem) (sz k : ℕ) : Type 0 where
  goal : framed b sz ≡ p
  begun : k ≢ 0 → b ≡ p
  within : k ≤ sz
  positive : 0 < sz
  small : sz < 2 ^ 31

framed-IsPartial : (b p : Mem) (sz k j : ℕ) → IsPartial b p sz k → j ≤ sz → IsPartial p p sz j
framed-IsPartial b p sz k j v h = record {
  goal = ap (λ (q : Mem). framed q sz) (sym v.goal) ∙ framed_twice b sz ∙ v.goal;
  begun = λ _. refl;
  within = h;
  positive = v.positive;
  small = v.small;
}

-- The buffer that writepdu uses.
used : (b p : Mem) (sz k : ℕ) → IsPartial b p sz k → (if k == 0 then framed b sz else b) ≡ p
used b p sz k v = elim (Bool-cases (k == 0)) [
  | inl e ↦ rw e v.goal
  | inr e ↦ rw e (v.begun (ground arith))
]

write_cb-wrote :
    (c : Connection) (b p : Mem) (sz k n : ℕ) (out : List ℕ)
    → IsPartial b p sz k
    → n ≤ sz - k
    → write_cb (wrote n) (sending c b sz k out) ≡ some (sending c p sz (k + n) (out ++ slice p k n))
unfolding write_cb write_step writepdu
write_cb-wrote c b p sz k n out v h = elim (Bool-cases (k == sz)) [
  | inl e ↦
      let n0 : n ≡ 0 = ground arith in
      let bp : b ≡ p = v.begun (ground arith) in ground (arith, n0, bp, append-nil out)
  | inr e ↦ ground (arith, used b p sz k v)
]

write_cb-again :
    (c : Connection) (b p : Mem) (sz k : ℕ) (out : List ℕ)
    → IsPartial b p sz k
    → write_cb again (sending c b sz k out) ≡ some (sending c p sz k out)
unfolding write_cb write_step writepdu
write_cb-again c b p sz k out v = elim (Bool-cases (k == sz)) [
  | inl e ↦ let bp : b ≡ p = v.begun (ground arith) in ground (arith, bp, append-nil out)
  | inr e ↦ ground (arith, used b p sz k v, append-nil out)
]

pump_lem :
    (ws : List WriteResult) (c : Connection) (b p : Mem) (sz k : ℕ) (out : List ℕ)
    → IsPartial b p sz k
    → Takes (sz - k) ws
    → pump ws (sending c b sz k out) ≡ some (sending c p sz sz (out ++ slice p k (sz - k)))
unfolding pump
pump_lem [] c b p sz k out v h =
    let e : k ≡ sz = omega (arith, v.within) in
    let bp : b ≡ p = v.begun (omega (arith, v.positive)) in ground (arith, e, bp, append-nil out)
pump_lem (wrote n ∷ ws) c b p sz k out v (h, t) =
    let v' = framed-IsPartial b p sz k (k + n) v (omega (arith, v.within)) in
    let e : sz - (k + n) ≡ sz - k - n = omega arith in
    let split : sz - k ≡ n + (sz - k - n) = omega arith in
    let ih = pump_lem ws c p p sz (k + n) (out ++ slice p k n) v' (rw e t) in
    rw (write_cb-wrote c b p sz k n out v h) (
      ih
      ∙ ap (λ l. some (sending c p sz sz l))
          (append_assoc out (slice p k n) (slice p (k + n) (sz - (k + n)))
            ∙ ap (out ++◌) (
                ap (λ r. slice p k n ++ slice p (k + n) r) e
                ∙ sym (slice-add p k n (sz - k - n))
                ∙ ap (slice p k) (sym split))))
pump_lem (again ∷ ws) c b p sz k out v h =
    let v' = framed-IsPartial b p sz k k v v.within in
    rw (write_cb-again c b p sz k out v) (pump_lem ws c p p sz k out v' h)
pump_lem (broken ∷ ws) c b p sz k out v h = absurd h

write_cb-step :
    (w : WriteResult) (c : Connection) (b : Mem) (sz : ℕ) (out : List ℕ)
    → 0 < sz
    → write_cb w (sending c b sz 0 out) ≡ write_step w (sending c b sz 0 out)
unfolding write_cb
write_cb-step w c b sz out h = ground arith

send_going :
    (w : WriteResult) (ws : List WriteResult) (b p : Mem) (sz : ℕ) (out : List ℕ) (c : Connection)
    → c.wpdu.buf ≡ none
    → 0 < sz
    → sz < 2 ^ 31
    → pump (w ∷ ws) (sending c b sz 0 c.out) ≡ some (sending c p sz sz out)
    → send w ws b sz (record c { dead = false })
      ≡ some (returned true (record c { dead = false; wpdu = charbuf; out = out }))
unfolding send send_start is_sending send_finish pump
send_going w ws b p sz out c idle pos small r =
    let first = write_cb-step w c b sz c.out pos in
    elim (Option-cases (write_step w (sending c b sz 0 c.out))) [
      | inl f ↦ absurd (ground (arith, r, first))
      | inr (c', f) ↦
          let g : pump ws c' ≡ some (sending c p sz sz out) = ground (arith, r, first) in
          rw (idle, f, g) (ground arith)
    ]

-- On a live connection that sends nothing else, a send of `sz` bytes whose writes take all of them,
-- in whatever pieces, returns true, and puts on the stream exactly the bytes of the buffer with the
-- size of the pdu in the first four; then the connection is free for the next send.
pub send_lem :
    (w : WriteResult) (ws : List WriteResult) (b : Mem) (sz : ℕ) (c : Connection)
    → c.dead ≡ false
    → c.wpdu.buf ≡ none
    → 0 < sz
    → sz < 2 ^ 31
    → Takes sz (w ∷ ws)
    → send w ws b sz c
      ≡ some (returned true (record c { wpdu = charbuf; out = c.out ++ slice (framed b sz) 0 sz }))
send_lem w ws b sz c alive idle pos small h =
    let v : IsPartial b (framed b sz) sz 0 = record {
      goal = refl;
      begun = λ n. absurd (n refl);
      within = omega arith;
      positive = pos;
      small = small;
    } in
    let e : sz - 0 ≡ sz = omega arith in
    let r = rw e at (pump_lem (w ∷ ws) c b (framed b sz) sz 0 c.out v (rw e h)) in
    let t =
      send_going w ws b (framed b sz) sz (c.out ++ slice (framed b sz) 0 sz) c idle pos small r in
    rw alive t
