-- ===== src/Rpc/Connection/Senders/Wakeups.antt =====
-- Who wakes the threads that wait in connection::send (rpc/connection.cc).
use ds.Base.{
  ℕ, ◌-◌, ◌≤◌, ◌≡◌, ◌≢◌, refl, sym, ap, subst, Bool, true, false, not, ◌&&◌, ◌||◌, List, arith,
  if◌then◌else◌, Bool-cases, Option-cases, inl, inr, Mem,
}
use ds.Rpc.Connection.{Connection, WriteResult, is_null, is_sending, write_cb, read_cb}
use ds.Rpc.Connection.Senders.{
  Phase, outside, queued, writing, removing, Senders, Act, enter, resume, complete, removed, wake,
  writable, readable, close, Reach, start, next, phase_at, signal, resume_at, complete_at,
  removed_at, awake, step, possible, senders, can_enter, can_resume, write_cb_signals,
}
use ds.Rpc.Connection.Senders.Table.{count, count-set_at, count-nth, count-found, nth_within}
use ds.Rpc.Connection.Senders.Stream.{write_cb-IsStream, read_cb-IsStream}
use ds.Rpc.Connection.Senders.Writing.{IsStream}
use ds.Rpc.Connection.Senders.Holders.{is_holder, pdu}
use ds.Rpc.Connection.Senders.Whole.{reach-IsWhole, is_queued, can_enter_lem, count-replicate}
use ds.Rpc.Connection.Senders.Attempts.{IsWhole}
use ds.Rpc.Connection.Senders.Rousing.{
  sleeps_first, sleeps_second, is_close, IsRoused, signal_lem, sleeping_le, finish-IsRoused, After,
  attempt-IsRoused,
}

complete-IsRoused :
    (i : ℕ) (p : Phase) (s : Senders) (sent : List (Mem × ℕ))
    → phase_at i s.threads ≡ p
    → IsWhole s sent
    → IsRoused s
    → IsRoused (complete_at i s p).0
complete-IsRoused i (writing a b sz) s sent e v r =
    let m : is_holder (phase_at i s.threads) ≡ true = ap is_holder e in
    let h = nth_within outside i is_holder s.threads refl m in
    let q = count-set_at is_queued outside i (writing true b sz) s.threads h in
    let o = count-set_at sleeps_first outside i (writing true b sz) s.threads h in
    elim (Bool-cases (is_sending s.conn)) [
      | inl c ↦ rw c (record {
        waiting = ground (arith, r.waiting);
        first = λ n. ground (arith, r.first n);
        second = λ n. absurd (ground (arith, n));
      })
      | inr c ↦ rw c (finish-IsRoused i b sz s r.waiting (ground (arith, v.held.one)) m)
    ]
complete-IsRoused i outside s sent e v r = r
complete-IsRoused i (queued a b sz) s sent e v r = r
complete-IsRoused i (removing b sz) s sent e v r = r

removed-IsRoused :
    (i : ℕ) (p : Phase) (s : Senders) (sent : List (Mem × ℕ))
    → phase_at i s.threads ≡ p
    → IsWhole s sent
    → IsRoused s
    → IsRoused (removed_at i s p).0
removed-IsRoused i (removing b sz) s sent e v r =
    finish-IsRoused i b sz s r.waiting (ground (arith, v.held.one)) (ap is_holder e)
removed-IsRoused i outside s sent e v r = r
removed-IsRoused i (queued a b sz) s sent e v r = r
removed-IsRoused i (writing a b sz) s sent e v r = r

resume-IsRoused :
    (i : ℕ) (w : WriteResult) (p : Phase) (s : Senders) (sent : List (Mem × ℕ))
    → phase_at i s.threads ≡ p
    → IsWhole s sent
    → IsRoused s
    → can_resume w p ≡ true
    → After (resume_at i w s p)
resume-IsRoused i w (queued a b sz) s sent e v r h =
    let m = ap is_queued e in
    attempt-IsRoused i b sz w (s.waiters - 1) s sent v r (ap is_holder e)
      (ground (arith, r.waiting, count-nth is_queued outside i s.threads refl m))
      (nth_within outside i is_queued s.threads refl m) (v.held.small i b sz (ap pdu e))
      (ground arith)
resume-IsRoused i w outside s sent e v r h = absurd (ground arith)
resume-IsRoused i w (removing b sz) s sent e v r h = absurd (ground arith)
resume-IsRoused i w (writing a b sz) s sent e v r h = absurd (ground arith)

awake_one :
    (p : Phase)
    → (is_queued (awake p) ≡ is_queued p)
      × (sleeps_first (awake p) ≡ false)
      × (sleeps_second (awake p) ≡ false)
awake_one p = (ground arith, ground arith, ground arith)

enter_queued :
    (w : WriteResult) (sz : ℕ) (p : Phase) → can_enter w sz p ≡ true → is_queued p ≡ false
enter_queued w sz p h = ground arith

-- A callback that changes neither which pdu the connection has nor the queue, and signals where it
-- ends the second wait.
callback-IsRoused :
    (s : Senders) (c : Connection) (q : Bool) (one : count is_holder s.threads ≤ 1)
    → IsRoused s
    → is_null c.wpdu.buf ≡ is_null s.conn.wpdu.buf
    → (q ≡ false → is_sending s.conn ≡ true → count is_holder s.threads ≢ 0 → is_sending c ≡ true)
    → IsRoused (record s { conn = c; threads = if q then signal s.threads else s.threads })
callback-IsRoused s c q one r n g =
    let (a1, a2, a3) = signal_lem s.threads in
    let (l1, l2) = sleeping_le s.threads in
    record {
      waiting = ground (arith, r.waiting);
      first = λ m. ground (arith, r.first);
      second = λ m. elim (Bool-cases (is_sending s.conn)) [
        | inl e ↦ ground (arith, g)
        | inr e ↦ ground (arith, r.second e)
      ];
    }

-- A pdu under way that write_cb leaves without a signal still waits for its end.
write_cb_sending :
    (c c' : Connection) (sent : List (Mem × ℕ)) (b : Mem) (sz k : ℕ)
    → IsStream c' sent b sz k
    → is_null c'.wpdu.buf ≡ false
    → is_sending c ≡ true
    → write_cb_signals c c' ≡ false
    → is_sending c' ≡ true
unfolding is_sending
write_cb_sending c c' sent b sz k v n e q = elim (Bool-cases c'.dead) [
  | inl d ↦ absurd (ground arith)
  | inr d ↦ elim (Option-cases c'.wpdu.buf) [
    | inl m ↦ absurd (ground arith)
    | inr (p, m) ↦ let u = v.held d p m in ground (arith, u.size, u.done, u.small, v.within)
  ]
]

read_cb_sending :
    (c c' : Connection)
    → c'.wpdu ≡ c.wpdu
    → (not c.dead && c'.dead) ≡ false
    → is_sending c ≡ true
    → is_sending c' ≡ true
unfolding is_sending
read_cb_sending c c' w q e = ground (arith, w)

step-IsRoused :
    (a : Act) (s : Senders) (sent : List (Mem × ℕ))
    → IsWhole s sent
    → IsRoused s
    → possible a s ≡ true
    → is_close a ≡ false
    → After (step a s)
unfolding step possible
step-IsRoused (enter i b sz w) s sent v r h c =
    let (m, small, f) = can_enter_lem w sz (phase_at i s.threads) (ground arith) in
    attempt-IsRoused i b sz w s.waiters s sent v r m
      (ground (arith, r.waiting, enter_queued w sz (phase_at i s.threads))) (ground arith) small f
step-IsRoused (resume i w) s sent v r h c =
    resume-IsRoused i w (phase_at i s.threads) s sent refl v r h
step-IsRoused (complete i) s sent v r h c =
    complete-IsRoused i (phase_at i s.threads) s sent refl v r
step-IsRoused (removed i) s sent v r h c = removed-IsRoused i (phase_at i s.threads) s sent refl v r
step-IsRoused (wake i) s sent v r h c =
    let p = phase_at i s.threads in
    let (x, y, z) = awake_one p in
    let q = count-set_at is_queued outside i (awake p) s.threads (ground arith) in
    let o = count-set_at sleeps_first outside i (awake p) s.threads (ground arith) in
    let u = count-set_at sleeps_second outside i (awake p) s.threads (ground arith) in
    record {
      waiting = ground (arith, r.waiting);
      first = λ n. ground (arith, r.first n);
      second = λ n. ground (arith, r.second n);
    }
step-IsRoused (writable w) s sent v r h c = elim (Option-cases (write_cb w s.conn)) [
  | inl e ↦ rw e tt
  | inr (d, e) ↦
      let (j, str, n, alive) = write_cb-IsStream w s.conn d sent v.b v.sz v.k v.conn h e in
      rw e (
        callback-IsRoused s d (write_cb_signals s.conn d) (ground (arith, v.held.one)) r n
          (λ q more o.
            write_cb_sending s.conn d sent v.b v.sz j str (ground (arith, v.held.one)) more q))
]
step-IsRoused (readable first second fresh consumed) s sent v r h c =
    elim (Option-cases (read_cb first second fresh consumed s.conn)) [
      | inl e ↦ rw e tt
      | inr ((d, got), e) ↦
          let (str, w, dead) =
            read_cb-IsStream first second fresh consumed s.conn d got sent v.b v.sz v.k v.conn e in
          rw e (
            callback-IsRoused s d (not s.conn.dead && d.dead) (ground (arith, v.held.one)) r
              (ap (λ x. is_null x.buf) w) (λ q more o. read_cb_sending s.conn d w q more))
    ]
step-IsRoused close s sent v r h c = absurd (ground arith)

-- Whether closeconn is among the steps.
unfoldable pub closes : {s0 s : Senders} {sent : List (Mem × ℕ)} → Reach s0 s sent → Bool
closes start = false
closes (next a r p e) = is_close a || closes r

reach-IsRoused :
    (n : ℕ) {s : Senders} {sent : List (Mem × ℕ)} (r : Reach (senders n) s sent)
    → closes r ≡ false
    → IsRoused s
unfolding closes
reach-IsRoused n start h = record {
  waiting = sym (count-replicate is_queued n refl);
  first = λ _. count-replicate sleeps_first n refl;
  second = λ _. count-replicate sleeps_second n refl;
}
reach-IsRoused n (next {s} {t} {sent} {new} a r p e) h = subst After e (
    step-IsRoused a s sent (reach-IsWhole n r) (reach-IsRoused n r (ground arith)) p (ground arith))

-- As long as closeconn is not called, whatever the order of the threads and the callbacks, no wake-up
-- is lost: waiters_ is the number of threads that wait for the connection; a thread sleeps in that wait
-- only while another thread has its pdu in the connection; and a thread sleeps in the wait for its own
-- pdu only while the connection lives and the pdu is not all written.
pub roused_lem :
    (n : ℕ) (s : Senders) (sent : List (Mem × ℕ)) (r : Reach (senders n) s sent)
    → closes r ≡ false
    → (s.waiters ≡ count is_queued s.threads)
      × ((i : ℕ)
          → sleeps_first (phase_at i s.threads) ≡ true
          → (j : ℕ) × (is_holder (phase_at j s.threads) ≡ true))
      × ((i : ℕ) → sleeps_second (phase_at i s.threads) ≡ true → is_sending s.conn ≡ true)
roused_lem n s sent r h =
    let v = reach-IsRoused n r h in
    let w = reach-IsWhole n r in
    (
      v.waiting,
      λ i m.
          count-found is_holder outside s.threads (
            ground (arith, v.first, w.held.one, count-nth sleeps_first outside i s.threads refl m)),
      λ i m. ground (arith, v.second, count-nth sleeps_second outside i s.threads refl m),
    )
