-- ===== src/Rpc/Connection/Senders/Rousing.antt =====
-- What a thread that gets the connection, or lets it go, leaves asleep (rpc/connection.cc).
use ds.Base.{
  ℕ, ◌+◌, ◌-◌, ◌^◌, ◌≤◌, ◌<◌, ◌≡◌, refl, sym, subst, Bool, true, false, List, [], map, ◌∷◌, Option,
  none, some, arith, if◌then◌else◌, Bool-cases, Option-cases, inl, inr, Mem, length,
}
use ds.Rpc.Connection.{
  Connection, WriteResult, refused, busy, going, is_null, send_start, write_step, is_sending,
}
use ds.Rpc.Connection.Senders.{
  Phase, outside, queued, writing, removing, Senders, Act, close, phase_at, rouse, signal, Next,
  finish, attempt, fits,
}
use ds.Rpc.Connection.Senders.Table.{set_at, count, nth-set_at, count-set_at, nth_within}
use ds.Rpc.Connection.Senders.Stream.{send_start-IsStream}
use ds.Rpc.Connection.Senders.Holders.{is_holder}
use ds.Rpc.Connection.Senders.Whole.{is_queued}
use ds.Rpc.Connection.Senders.Attempts.{IsWhole, attempt_going, with_phase}

abbrev pub sleeps_first : Phase → Bool
sleeps_first (queued asleep b sz) = asleep
sleeps_first _ = false

abbrev pub sleeps_second : Phase → Bool
sleeps_second (writing asleep b sz) = asleep
sleeps_second _ = false

abbrev pub is_close : Act → Bool
is_close close = true
is_close _ = false

-- waiters_ counts the threads in the first wait; none of them sleeps when the connection is free;
-- none sleeps in the second wait when its condition is over.
pub record IsRoused (s : Senders) : Type 0 where
  pub waiting : s.waiters ≡ count is_queued s.threads
  pub first : is_null s.conn.wpdu.buf ≡ true → count sleeps_first s.threads ≡ 0
  pub second : is_sending s.conn ≡ false → count sleeps_second s.threads ≡ 0

pub rouse_lem :
    (ps : List Phase)
    → (count sleeps_first (map rouse ps) ≡ 0)
      × (count is_queued (map rouse ps) ≡ count is_queued ps)
      × (count sleeps_second (map rouse ps) ≡ count sleeps_second ps)
unfolding count
rouse_lem [] = (refl, refl, refl)
rouse_lem (p ∷ ps) = let (a, b, c) = rouse_lem ps in (ground arith, ground arith, ground arith)

pub signal_lem :
    (ps : List Phase)
    → (count sleeps_first (signal ps) ≡ count sleeps_first ps)
      × (count is_queued (signal ps) ≡ count is_queued ps)
      × (count sleeps_second (signal ps) ≡ count sleeps_second ps - 1)
unfolding count
signal_lem [] = (refl, refl, refl)
signal_lem (p ∷ ps) = let (a, b, c) = signal_lem ps in (ground arith, ground arith, ground arith)

pub sleeping_le :
    (ps : List Phase)
    → (count sleeps_first ps ≤ count is_queued ps) × (count sleeps_second ps ≤ count is_holder ps)
unfolding count
sleeping_le [] = (omega arith, omega arith)
sleeping_le (p ∷ ps) = let (a, b) = sleeping_le ps in (ground arith, ground arith)

-- The end of a send by the thread that has its pdu in the connection.
pub finish-IsRoused :
    (i : ℕ) (b : Mem) (sz : ℕ) (s : Senders)
    → s.waiters ≡ count is_queued s.threads
    → count is_holder s.threads ≤ 1
    → is_holder (phase_at i s.threads) ≡ true
    → IsRoused (finish i b sz s).0
unfolding finish
finish-IsRoused i b sz s v one m =
    let h = nth_within outside i is_holder s.threads refl m in
    let rest = set_at i outside s.threads in
    let q = count-set_at is_queued outside i outside s.threads h in
    let o = count-set_at is_holder outside i outside s.threads h in
    let (r1, r2, r3) = rouse_lem rest in
    let (l1, l2) = sleeping_le rest in
    let nq : is_queued (phase_at i s.threads) ≡ false = ground arith in
    record { waiting = ground arith; first = λ _. ground arith; second = λ _. ground arith }

-- What a step leaves, unless it is a fault.
abbrev pub After : Option Next → Type 0
After none = Unit
After (some (t, new)) = IsRoused t

pub going-IsRoused :
    (i : ℕ) (b : Mem) (sz : ℕ) (w : WriteResult) (others : ℕ) (s : Senders) (c : Connection)
    → count is_holder s.threads ≡ 0
    → is_null c.wpdu.buf ≡ false
    → others + (if is_queued (phase_at i s.threads) then 1 else 0) ≡ count is_queued s.threads
    → i < length s.threads
    → send_start w b sz s.conn ≡ some (going c)
    → After (attempt i b sz w others s)
going-IsRoused i b sz w others s c o m k h e =
    let g = attempt_going i b sz w others s c e in
    let (l1, l2) = sleeping_le s.threads in
    let mine = nth-set_at outside i i (writing true b sz) s.threads in
    let q = count-set_at is_queued outside i in
    let f = count-set_at sleeps_second outside i in
    let l = count-set_at is_holder outside i in
    elim (Bool-cases c.dead) [
      | inl dead ↦
          let r : attempt i b sz w others s ≡ some (with_phase i (removing b sz) others s c, []) =
            ground (arith, g) in
          subst After (sym r) (record {
            waiting = ground (arith, q (removing b sz) s.threads h);
            first = λ n. absurd (ground (arith, n));
            second = λ n. ground (arith, f (removing b sz) s.threads h);
          })
      | inr dead ↦ elim (Bool-cases (is_sending c)) [
        | inl more ↦
            let r : attempt i b sz w others s
                ≡ some (with_phase i (writing true b sz) others s c, []) =
              ground (arith, g) in
            subst After (sym r) (record {
              waiting = ground (arith, q (writing true b sz) s.threads h);
              first = λ n. absurd (ground (arith, n));
              second = λ n. absurd (ground (arith, n));
            })
        | inr less ↦
            let x = with_phase i (writing true b sz) others s c in
            let r : attempt i b sz w others s ≡ some (finish i b sz x) = ground (arith, g) in
            subst After (sym r) (
              finish-IsRoused i b sz x (ground (arith, q (writing true b sz) s.threads h))
                (ground (arith, l (writing true b sz) s.threads h)) (ground arith))
      ]
    ]

pub busy_null :
    (w : WriteResult) (b : Mem) (sz : ℕ) (c : Connection)
    → send_start w b sz c ≡ some busy
    → is_null c.wpdu.buf ≡ false
unfolding send_start
busy_null w b sz c e =
    elim (Option-cases
      (write_step w (record c { wpdu = record { buf = some b; sz = sz; solong = 0 } }))) [
        | inl n ↦ ground arith
        | inr (x, n) ↦ ground arith
      ]

pub attempt-IsRoused :
    (i : ℕ) (b : Mem) (sz : ℕ) (w : WriteResult) (others : ℕ) (s : Senders) (sent : List (Mem × ℕ))
    → IsWhole s sent
    → IsRoused s
    → is_holder (phase_at i s.threads) ≡ false
    → others + (if is_queued (phase_at i s.threads) then 1 else 0) ≡ count is_queued s.threads
    → i < length s.threads
    → sz < 2 ^ 31
    → fits w sz ≡ true
    → After (attempt i b sz w others s)
unfolding attempt
attempt-IsRoused i b sz w others s sent v a m k h small f =
    let q = count-set_at is_queued outside i in
    let u = count-set_at sleeps_second outside i in
    let o = count-set_at sleeps_first outside i in
    elim (Option-cases (send_start w b sz s.conn)) [
      | inl e ↦ rw e tt
      | inr (refused, e) ↦ rw e (record {
        waiting = ground (arith, q outside s.threads h);
        first = λ n. ground (arith, o outside s.threads h, a.first n);
        second = λ n. ground (arith, u outside s.threads h, a.second n);
      })
      | inr (busy, e) ↦ rw e (record {
        waiting = ground (arith, q (queued true b sz) s.threads h);
        first = λ n. absurd (ground (arith, n, busy_null w b sz s.conn e));
        second = λ n. ground (arith, u (queued true b sz) s.threads h, a.second n);
      })
      | inr (going c, e) ↦
          let (j, str, n, d, full) =
            send_start-IsStream w s.conn c sent v.b b v.sz sz v.k v.conn small f e in
          going-IsRoused i b sz w others s c (ground (arith, v.held.one)) full k h e
    ]
