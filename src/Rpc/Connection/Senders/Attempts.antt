-- ===== src/Rpc/Connection/Senders/Attempts.antt =====
-- A thread in connection::send gets the connection, and lets it go (rpc/connection.cc).
use ds.Base.{
  ℕ, ◌+◌, ◌^◌, ◌<◌, ◌≡◌, refl, sym, subst, Bool, true, false, List, [], map, ltb, ◌++◌, Option,
  none, some, arith, if◌then◌else◌, Bool-cases, Option-cases, inl, inr, append-nil, Mem, length,
}
use ds.Rpc.Connection.{
  Connection, WriteResult, refused, busy, going, is_null, send_start, is_sending, send_finish,
}
use ds.Rpc.Connection.Senders.{
  Phase, outside, queued, writing, removing, Senders, phase_at, rouse, Next, finish, attempt, fits,
}
use ds.Rpc.Connection.Senders.Table.{set_at, nth-set_at, count-nth, set_at_twice, nth_within}
use ds.Rpc.Connection.Senders.Stream.{send_start-IsStream, send_finish-IsStream}
use ds.Rpc.Connection.Senders.Writing.{IsStream}
use ds.Rpc.Connection.Senders.Holders.{
  is_holder, IsHeld, Alike, refl-Alike, rouse-Alike, leave-IsHeld, set-IsHeld, hold-IsHeld,
}

pub record IsWhole (s : Senders) (sent : List (Mem × ℕ)) : Type 0 where
  pub b : Mem
  pub sz : ℕ
  pub k : ℕ
  pub conn : IsStream s.conn sent b sz k
  pub held : IsHeld s b sz

pub broadcast-Alike : (q : Bool) (ps : List Phase) → Alike ps (if q then map rouse ps else ps)
broadcast-Alike true ps = rouse-Alike ps
broadcast-Alike false ps = refl-Alike ps

-- The two results of a call's end.
pub finish-IsWhole :
    (i : ℕ) (b : Mem) (sz k : ℕ) (s : Senders) (sent : List (Mem × ℕ))
    → IsStream s.conn sent b sz k
    → IsHeld s b sz
    → is_holder (phase_at i s.threads) ≡ true
    → is_sending s.conn ≡ false
    → IsWhole (finish i b sz s).0 (sent ++ (finish i b sz s).1)
unfolding finish
finish-IsWhole i b sz k s sent v h m e =
    let within = nth_within outside i is_holder s.threads refl m in
    let busy_ : is_null s.conn.wpdu.buf ≡ false =
      ground (arith, h.one, count-nth is_holder outside i s.threads refl m) in
    let (j, c) = send_finish-IsStream s.conn sent b sz k v busy_ e in
    let rest = set_at i outside s.threads in
    record {
      b = b;
      sz = sz;
      k = j;
      conn =
          subst (λ l. IsStream (send_finish s.conn).1 l b sz j) (ground (arith, append-nil sent)) c;
      held =
          leave-IsHeld i s (finish i b sz s).0 b b sz sz h within m
            (broadcast-Alike (ltb 0 s.waiters) rest) refl;
    }

-- What a step leaves, unless it is a fault.
abbrev pub After : List (Mem × ℕ) → Option Next → Type 0
After sent none = Unit
After sent (some (t, new)) = IsWhole t (sent ++ new)

pub none-After : (s : Senders) (sent : List (Mem × ℕ)) → IsWhole s sent → IsWhole s (sent ++ [])
none-After s sent v = subst (IsWhole s) (sym (append-nil sent)) v

-- The connection while thread `i` is in the phase `p`.
abbrev pub with_phase : ℕ → Phase → ℕ → Senders → Connection → Senders
with_phase i p others s c = record { conn = c; waiters = others; threads = set_at i p s.threads }

-- How a call goes on when the connection took its pdu.
pub attempt_going :
    (i : ℕ) (b : Mem) (sz : ℕ) (w : WriteResult) (others : ℕ) (s : Senders) (c : Connection)
    → send_start w b sz s.conn ≡ some (going c)
    → attempt i b sz w others s
      ≡ some (
          if c.dead
          then (with_phase i (removing b sz) others s c, [])
          else if is_sending c
          then (with_phase i (writing true b sz) others s c, [])
          else finish i b sz (with_phase i (writing true b sz) others s c))
unfolding attempt finish
attempt_going i b sz w others s c e =
    ground (arith, set_at_twice i outside (writing true b sz) s.threads)

-- The connection holds the new pdu: in block_remove_fd, in the second wait, or done.
pub going-IsWhole :
    (i : ℕ) (b : Mem) (sz : ℕ) (w : WriteResult) (others : ℕ) (s : Senders) (c : Connection)
    (sent : List (Mem × ℕ))
    → IsWhole s sent
    → i < length s.threads
    → sz < 2 ^ 31
    → fits w sz ≡ true
    → send_start w b sz s.conn ≡ some (going c)
    → After sent (attempt i b sz w others s)
going-IsWhole i b sz w others s c sent v h small f e =
    let (j, str, n, d, m) =
      send_start-IsStream w s.conn c sent v.b b v.sz sz v.k v.conn small f e in
    let g = attempt_going i b sz w others s c e in
    elim (Bool-cases c.dead) [
      | inl dead ↦
          let hold =
            hold-IsHeld i (removing b sz) s c others v.b b v.sz sz v.held h n m refl refl small
              (λ _. dead) in
          let o : attempt i b sz w others s ≡ some (with_phase i (removing b sz) others s c, []) =
            ground (arith, g) in
          subst (After sent) (sym o) (
            none-After (with_phase i (removing b sz) others s c) sent
              (record { b = b; sz = sz; k = j; conn = str; held = hold }))
      | inr dead ↦
          let x = with_phase i (writing true b sz) others s c in
          let hold =
            hold-IsHeld i (writing true b sz) s c others v.b b v.sz sz v.held h n m refl refl small
              (λ q. absurd (ground (arith, q))) in
          let mine : is_holder (phase_at i x.threads) ≡ true =
            ground (arith, nth-set_at outside i i (writing true b sz) s.threads) in
          elim (Bool-cases (is_sending c)) [
            | inl q ↦
                let o : attempt i b sz w others s ≡ some (x, []) = ground (arith, g) in
                subst (After sent) (sym o)
                  (none-After x sent (record { b = b; sz = sz; k = j; conn = str; held = hold }))
            | inr q ↦
                let o : attempt i b sz w others s ≡ some (finish i b sz x) = ground (arith, g) in
                subst (After sent) (sym o) (finish-IsWhole i b sz j x sent str hold mine q)
          ]
    ]

pub attempt-IsWhole :
    (i : ℕ) (b : Mem) (sz : ℕ) (w : WriteResult) (others : ℕ) (s : Senders) (sent : List (Mem × ℕ))
    → IsWhole s sent
    → i < length s.threads
    → is_holder (phase_at i s.threads) ≡ false
    → sz < 2 ^ 31
    → fits w sz ≡ true
    → After sent (attempt i b sz w others s)
unfolding attempt
attempt-IsWhole i b sz w others s sent v h m small f =
    elim (Option-cases (send_start w b sz s.conn)) [
      | inl e ↦ rw e tt
      | inr (refused, e) ↦ rw e (
          none-After _ sent (record {
            b = v.b;
            sz = v.sz;
            k = v.k;
            conn = v.conn;
            held =
                set-IsHeld i outside s s.conn others v.b v.sz v.held h m refl
                  (λ q n z. absurd (ground (arith, z))) refl (λ d. d);
          }))
      | inr (busy, e) ↦ rw e (
          none-After _ sent (record {
            b = v.b;
            sz = v.sz;
            k = v.k;
            conn = v.conn;
            held =
                set-IsHeld i (queued true b sz) s s.conn (others + 1) v.b v.sz v.held h m refl
                  (λ q n z. ground (arith, z)) refl (λ d. d);
          }))
      | inr (going c, e) ↦ going-IsWhole i b sz w others s c sent v h small f e
    ]

abbrev pub Own : Senders → List (Mem × ℕ) → ℕ → Option (Mem × ℕ) → Type 0
Own s sent k none = Unit
Own s sent k (some (b, sz)) = IsStream s.conn sent b sz k × IsHeld s b sz
