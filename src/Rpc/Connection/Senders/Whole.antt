-- ===== src/Rpc/Connection/Senders/Whole.antt =====
-- Several senders on one connection: their pdus never mix on the stream (rpc/connection.cc).
use ds.Base.{
  ℕ, ◌-◌, ◌^◌, ◌≤◌, ◌<◌, ◌≡◌, refl, sym, ap, subst, Bool, true, false, not, ◌&&◌, List, [], zero,
  suc, ◌++◌, none, some, arith, if◌then◌else◌, Bool-cases, Option-cases, inl, inr, Mem, slice,
  replicate,
}
use ds.Rpc.Connection.{Connection, WriteResult, is_null, is_sending, write_cb, read_cb, closeconn}
use ds.Rpc.Connection.Sends.{framed}
use ds.Rpc.Connection.Senders.{
  Phase, outside, queued, writing, removing, Senders, Act, enter, resume, complete, removed, wake,
  writable, readable, close, Reach, start, next, phase_at, signal, resume_at, complete_at,
  removed_at, awake, step, fits, possible, senders, can_enter, can_resume, write_cb_signals,
}
use ds.Rpc.Connection.Senders.Table.{nth, set_at, count, count_two, nth_within}
use ds.Rpc.Connection.Senders.Stream.{write_cb-IsStream, read_cb-IsStream}
use ds.Rpc.Connection.Senders.Writing.{pdus, IsStream}
use ds.Rpc.Connection.Senders.Holders.{
  is_holder, is_removing, pdu, Alike, Alike-IsHeld, refl-Alike, set-Alike, signal-Alike, awake_one,
}
use ds.Rpc.Connection.Senders.Attempts.{
  IsWhole, finish-IsWhole, After, none-After, attempt-IsWhole, Own,
}

-- The pdu under way is that of a thread in its second wait.
Own-IsWhole :
    (i : ℕ) (s : Senders) (sent : List (Mem × ℕ)) (v : IsWhole s sent)
    → is_holder (phase_at i s.threads) ≡ true
    → Own s sent v.k (pdu (phase_at i s.threads))
Own-IsWhole i s sent v h = subst (Own s sent v.k) (sym (v.held.holder i h)) (v.conn, v.held)

-- A step that keeps the phases alike.
Alike-IsWhole :
    (s : Senders) (c : Connection) (ps : List Phase) (sent : List (Mem × ℕ)) (j : ℕ)
    (v : IsWhole s sent)
    → IsStream c sent v.b v.sz j
    → Alike s.threads ps
    → is_null c.wpdu.buf ≡ is_null s.conn.wpdu.buf
    → (s.conn.dead ≡ true → c.dead ≡ true)
    → IsWhole (record s { conn = c; threads = ps }) (sent ++ [])
Alike-IsWhole s c ps sent j v str a n d = none-After _ sent (record {
  b = v.b;
  sz = v.sz;
  k = j;
  conn = str;
  held = Alike-IsHeld s (record s { conn = c; threads = ps }) v.b v.sz v.held a n d;
})

-- A thread that is woken in its second wait.
complete-IsWhole :
    (i : ℕ) (p : Phase) (s : Senders) (sent : List (Mem × ℕ))
    → phase_at i s.threads ≡ p
    → IsWhole s sent
    → IsWhole (complete_at i s p).0 (sent ++ (complete_at i s p).1)
complete-IsWhole i (writing a b sz) s sent e v =
    let m : is_holder (phase_at i s.threads) ≡ true = ap is_holder e in
    let (str, held) = rw e at (Own-IsWhole i s sent v m) in
    let within = nth_within outside i is_holder s.threads refl m in
    elim (Bool-cases (is_sending s.conn)) [
      | inl q ↦ rw q (
          Alike-IsWhole s s.conn _ sent v.k v v.conn
            (set-Alike i (writing true b sz) s.threads within (ap is_holder (sym e))
              (ap pdu (sym e)) (ap is_removing (sym e)))
            refl (λ d. d))
      | inr q ↦ rw q (finish-IsWhole i b sz v.k s sent str held m q)
    ]
complete-IsWhole i outside s sent e v = none-After s sent v
complete-IsWhole i (queued a b sz) s sent e v = none-After s sent v
complete-IsWhole i (removing b sz) s sent e v = none-After s sent v

is_sending_dead : (c : Connection) → c.dead ≡ true → is_sending c ≡ false
unfolding is_sending
is_sending_dead c h = ground arith

removed-IsWhole :
    (i : ℕ) (p : Phase) (s : Senders) (sent : List (Mem × ℕ))
    → phase_at i s.threads ≡ p
    → IsWhole s sent
    → IsWhole (removed_at i s p).0 (sent ++ (removed_at i s p).1)
removed-IsWhole i (removing b sz) s sent e v =
    let m : is_holder (phase_at i s.threads) ≡ true = ap is_holder e in
    let (str, held) = rw e at (Own-IsWhole i s sent v m) in
    let dead = v.held.gone i (ap is_removing e) in
    finish-IsWhole i b sz v.k s sent str held m (is_sending_dead s.conn dead)
removed-IsWhole i outside s sent e v = none-After s sent v
removed-IsWhole i (queued a b sz) s sent e v = none-After s sent v
removed-IsWhole i (writing a b sz) s sent e v = none-After s sent v

abbrev pub is_queued : Phase → Bool
is_queued (queued asleep b sz) = true
is_queued _ = false

pub can_enter_lem :
    (w : WriteResult) (sz : ℕ) (p : Phase)
    → can_enter w sz p ≡ true
    → (is_holder p ≡ false) × (sz < 2 ^ 31) × (fits w sz ≡ true)
can_enter_lem w sz p h = (ground arith, ground arith, ground arith)

resume-IsWhole :
    (i : ℕ) (w : WriteResult) (p : Phase) (s : Senders) (sent : List (Mem × ℕ))
    → phase_at i s.threads ≡ p
    → IsWhole s sent
    → can_resume w p ≡ true
    → After sent (resume_at i w s p)
resume-IsWhole i w (queued a b sz) s sent e v h =
    attempt-IsWhole i b sz w (s.waiters - 1) s sent v
      (nth_within outside i is_queued s.threads refl (ap is_queued e)) (ap is_holder e)
      (v.held.small i b sz (ap pdu e)) (ground arith)
resume-IsWhole i w outside s sent e v h = absurd (ground arith)
resume-IsWhole i w (removing b sz) s sent e v h = absurd (ground arith)
resume-IsWhole i w (writing a b sz) s sent e v h = absurd (ground arith)

signals-Alike : (q : Bool) (ps : List Phase) → Alike ps (if q then signal ps else ps)
signals-Alike true ps = signal-Alike ps
signals-Alike false ps = refl-Alike ps

pub step-IsWhole :
    (a : Act) (s : Senders) (sent : List (Mem × ℕ))
    → IsWhole s sent
    → possible a s ≡ true
    → After sent (step a s)
unfolding step possible closeconn
step-IsWhole (enter i b sz w) s sent v h =
    let (m, small, f) = can_enter_lem w sz (phase_at i s.threads) (ground arith) in
    attempt-IsWhole i b sz w s.waiters s sent v (ground arith) m small f
step-IsWhole (resume i w) s sent v h = resume-IsWhole i w (phase_at i s.threads) s sent refl v h
step-IsWhole (complete i) s sent v h = complete-IsWhole i (phase_at i s.threads) s sent refl v
step-IsWhole (removed i) s sent v h = removed-IsWhole i (phase_at i s.threads) s sent refl v
step-IsWhole (wake i) s sent v h =
    let p = phase_at i s.threads in
    let (x, y, z) = awake_one p in
    Alike-IsWhole s s.conn (set_at i (awake p) s.threads) sent v.k v v.conn
      (set-Alike i (awake p) s.threads (ground arith) x y z) refl (λ d. d)
step-IsWhole (writable w) s sent v h = elim (Option-cases (write_cb w s.conn)) [
  | inl e ↦ rw e tt
  | inr (c, e) ↦
      let (j, str, n, alive) = write_cb-IsStream w s.conn c sent v.b v.sz v.k v.conn h e in
      rw e (
        Alike-IsWhole s c _ sent j v str (signals-Alike (write_cb_signals s.conn c) s.threads) n
          (λ d. absurd (ground (arith, alive))))
]
step-IsWhole (readable first second fresh consumed) s sent v h =
    elim (Option-cases (read_cb first second fresh consumed s.conn)) [
      | inl e ↦ rw e tt
      | inr ((c, got), e) ↦
          let (str, n, d) =
            read_cb-IsStream first second fresh consumed s.conn c got sent v.b v.sz v.k v.conn e in
          rw e (
            Alike-IsWhole s c _ sent v.k v str (signals-Alike (not s.conn.dead && c.dead) s.threads)
              (ap (λ x. is_null x.buf) n) d)
    ]
step-IsWhole close s sent v h =
    Alike-IsWhole s (closeconn s.conn).1 s.threads sent v.k v
      (record {
        within = v.conn.within;
        stream = v.conn.stream;
        idle = λ a _. absurd (ground arith);
        held = λ a p q. absurd (ground arith);
      })
      (refl-Alike s.threads) refl (λ d. refl)

nth-replicate : (i n : ℕ) → phase_at i (replicate n outside) ≡ outside
unfolding nth
nth-replicate i zero = refl
nth-replicate zero (suc n) = refl
nth-replicate (suc i) (suc n) = nth-replicate i n

pub count-replicate :
    (f : Phase → Bool) (n : ℕ) → f outside ≡ false → count f (replicate n outside) ≡ 0
unfolding count
count-replicate f zero h = refl
count-replicate f (suc n) h = ground (arith, count-replicate f n h)

start-IsWhole : (n : ℕ) → IsWhole (senders n) []
start-IsWhole n = record {
  b = λ _. 0;
  sz = 0;
  k = 0;
  conn = record {
    within = omega arith;
    stream = refl;
    idle = λ _ _. refl;
    held = λ a p q. absurd (ground (arith, q));
  };
  held = record {
    one = count-replicate is_holder n refl;
    holder = λ i h. absurd (ground (arith, nth-replicate i n));
    small = λ i p m h. absurd (ground (arith, nth-replicate i n));
    gone = λ i h. absurd (ground (arith, nth-replicate i n));
  };
}

pub reach-IsWhole :
    (n : ℕ) {s : Senders} {sent : List (Mem × ℕ)} → Reach (senders n) s sent → IsWhole s sent
reach-IsWhole n start = start-IsWhole n
reach-IsWhole n (next {s} {t} {sent} {new} a r p e) =
    subst (After sent) e (step-IsWhole a s sent (reach-IsWhole n r) p)

-- Several threads send on one connection, in whatever order they take turns, wait and are woken, and
-- whenever callbacks and closeconn come: the stream holds the pdus of exactly the calls that returned
-- true, each one whole, in the order in which they returned, and behind them some first bytes of one
-- more pdu, of which there are none while the connection lives and is free; at most one thread at a
-- time has its pdu in the connection, and those bytes are then of that pdu.
pub senders_lem :
    (n : ℕ) (s : Senders) (sent : List (Mem × ℕ))
    → Reach (senders n) s sent
    → (b : Mem) × (sz : ℕ) × (k : ℕ) × (k ≤ sz)
      × (s.conn.out ≡ pdus sent ++ slice (framed b sz) 0 k)
      × (s.conn.dead ≡ false → s.conn.wpdu.buf ≡ none → k ≡ 0)
      × ((i j : ℕ)
          → is_holder (phase_at i s.threads) ≡ true
          → is_holder (phase_at j s.threads) ≡ true
          → i ≡ j)
      × ((i : ℕ)
          → is_holder (phase_at i s.threads) ≡ true
          → pdu (phase_at i s.threads) ≡ some (b, sz))
senders_lem n s sent r =
    let v = reach-IsWhole n r in
    (
      v.b,
      v.sz,
      v.k,
      v.conn.within,
      v.conn.stream,
      v.conn.idle,
      λ i j h l. ground (arith, v.held.one, count_two is_holder outside i j s.threads refl h l),
      v.held.holder,
    )
