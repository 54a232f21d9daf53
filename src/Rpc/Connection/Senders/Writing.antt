-- ===== src/Rpc/Connection/Senders/Writing.antt =====
-- What a write takes of a pdu under way (connection::writepdu of rpc/connection.cc).
use ds.Base.{
  ℕ, ◌+◌, ◌-◌, ◌^◌, ◌≤◌, ◌<◌, ◌≡◌, ◌≢◌, refl, true, false, List, [], ◌∷◌, ◌++◌, none, some, arith,
  ◌==◌, if◌then◌else◌, Bool-cases, inl, inr, append_assoc, Mem, slice, slice-add,
}
use ds.Rpc.Connection.{Connection, Charbuf, WriteResult, wrote, again, broken, write_step, writepdu}
use ds.Rpc.Connection.Sends.{framed, framed_twice}
use ds.Rpc.Connection.Senders.{fits}

-- The bytes of whole pdus, one after another.
abbrev pub pdus : List (Mem × ℕ) → List ℕ
pdus [] = []
pdus ((b, sz) ∷ l) = slice (framed b sz) 0 sz ++ pdus l

-- The buffer is that of the pdu, with the size in front as soon as a byte was written.
pub record IsUnderWay (w : Charbuf) (p b : Mem) (sz k : ℕ) : Type 0 where
  pub goal : framed p sz ≡ framed b sz
  pub begun : k ≢ 0 → p ≡ framed b sz
  pub size : w.sz ≡ sz
  pub done : w.solong ≡ k
  pub small : sz < 2 ^ 31

-- The stream holds the pdus `sent` and the first `k` bytes of one more, and the connection, while it
-- lives, is at that byte.
pub record IsStream (c : Connection) (sent : List (Mem × ℕ)) (b : Mem) (sz k : ℕ) : Type 0 where
  pub within : k ≤ sz
  pub stream : c.out ≡ pdus sent ++ slice (framed b sz) 0 k
  pub idle : c.dead ≡ false → c.wpdu.buf ≡ none → k ≡ 0
  pub held : c.dead ≡ false → (p : Mem) → c.wpdu.buf ≡ some p → IsUnderWay c.wpdu p b sz k

-- What a call of writepdu leaves of a pdu under way: dead, with the stream as it was, or some bytes
-- further.
pub record Written (c c' : Connection) (b : Mem) (sz k : ℕ) : Type 0 where
  pub buf : Mem
  pub more : ℕ
  pub within : k + more ≤ sz
  pub null : c'.wpdu.buf ≡ some buf
  pub stream : c'.out ≡ c.out ++ slice (framed b sz) k more
  pub held : c'.dead ≡ false → IsUnderWay c'.wpdu buf b sz (k + more)

-- The buffer that writepdu uses.
used :
    (w : Charbuf) (p b : Mem) (sz k : ℕ)
    → IsUnderWay w p b sz k
    → (if k == 0 then framed p sz else p) ≡ framed b sz
used w p b sz k v = elim (Bool-cases (k == 0)) [
  | inl e ↦ rw e v.goal
  | inr e ↦ rw e (v.begun (ground arith))
]

pub framed-IsUnderWay :
    (w : Charbuf) (b : Mem) (sz k : ℕ)
    → w.sz ≡ sz
    → w.solong ≡ k
    → sz < 2 ^ 31
    → IsUnderWay w (framed b sz) b sz k
framed-IsUnderWay w b sz k e f h = record {
  goal = framed_twice b sz;
  begun = λ n. refl;
  size = e;
  done = f;
  small = h;
}

pub whole-Written :
    (w : WriteResult) (c c' : Connection) (p b : Mem) (sz k : ℕ)
    → IsUnderWay c.wpdu p b sz k
    → c.wpdu.buf ≡ some p
    → k ≡ sz
    → write_step w c ≡ some c'
    → Written c c' b sz k
unfolding write_step writepdu
whole-Written w c c' p b sz k v e h r =
    let size = v.size in
    let done = v.done in
    let small = v.small in
    record {
      buf = p;
      more = 0;
      within = omega arith;
      null = ground (arith, r);
      stream = ground (arith, r);
      held = λ a. record {
        goal = v.goal;
        begun = λ n. v.begun (omega arith);
        size = ground (arith, r);
        done = ground (arith, r);
        small = small;
      };
    }

pub part-Written :
    (w : WriteResult) (c c' : Connection) (p b : Mem) (sz k : ℕ)
    → IsUnderWay c.wpdu p b sz k
    → c.wpdu.buf ≡ some p
    → k < sz
    → fits w (sz - k) ≡ true
    → write_step w c ≡ some c'
    → Written c c' b sz k
unfolding write_step writepdu
part-Written (wrote n) c c' p b sz k v e h f r =
    let size = v.size in
    let done = v.done in
    let small = v.small in
    let use_ = used c.wpdu p b sz k v in
    record {
      buf = framed b sz;
      more = n;
      within = ground arith;
      null = ground (arith, r);
      stream = ground (arith, r);
      held =
          λ a. framed-IsUnderWay c'.wpdu b sz (k + n) (ground (arith, r)) (ground (arith, r)) small;
    }
part-Written again c c' p b sz k v e h f r =
    let size = v.size in
    let done = v.done in
    let small = v.small in
    let use_ = used c.wpdu p b sz k v in
    record {
      buf = framed b sz;
      more = 0;
      within = ground arith;
      null = ground (arith, r);
      stream = ground (arith, r);
      held =
          λ a. framed-IsUnderWay c'.wpdu b sz (k + 0) (ground (arith, r)) (ground (arith, r)) small;
    }
part-Written broken c c' p b sz k v e h f r =
    let size = v.size in
    let done = v.done in
    let small = v.small in
    let use_ = used c.wpdu p b sz k v in
    record {
      buf = framed b sz;
      more = 0;
      within = ground arith;
      null = ground (arith, r);
      stream = ground (arith, r);
      held = λ a. absurd (ground (arith, r));
    }

pub write_step-Written :
    (w : WriteResult) (c c' : Connection) (p b : Mem) (sz k : ℕ)
    → IsUnderWay c.wpdu p b sz k
    → c.wpdu.buf ≡ some p
    → k ≤ sz
    → fits w (sz - k) ≡ true
    → write_step w c ≡ some c'
    → Written c c' b sz k
write_step-Written w c c' p b sz k v e h f r = elim (Bool-cases (k == sz)) [
  | inl q ↦ whole-Written w c c' p b sz k v e (ground arith) r
  | inr q ↦ part-Written w c c' p b sz k v e (ground arith) f r
]

pub Written-IsStream :
    (c c' : Connection) (sent : List (Mem × ℕ)) (b : Mem) (sz k : ℕ) (v : Written c c' b sz k)
    → c.out ≡ pdus sent ++ slice (framed b sz) 0 k
    → IsStream c' sent b sz (k + v.more)
Written-IsStream c c' sent b sz k v e = record {
  within = v.within;
  stream = ground (
    arith,
    v.stream,
    append_assoc (pdus sent) (slice (framed b sz) 0 k) (slice (framed b sz) k v.more),
    slice-add (framed b sz) 0 k v.more,
  );
  idle = λ a n. absurd (ground (arith, v.null));
  held = λ a p q. ground (arith, v.null, v.held a);
}
