-- ===== src/Rpc/Connection/Senders/Stranded.antt =====
-- What closeconn does to a thread that waits in connection::send (rpc/connection.cc).
use ds.Base.{
  ℕ, ◌-◌, ◌≡◌, ◌≢◌, refl, sym, subst, Bool, true, false, ◌||◌, List, [], Option, none, some, arith,
  ◌==◌, Mem,
}
use ds.Rpc.Connection.{
  WriteResult, send_start, is_sending, send_finish, write_cb, read_cb, closeconn,
}
use ds.Rpc.Connection.Senders.{
  Phase, outside, queued, writing, removing, Senders, Act, enter, resume, complete, removed, wake,
  writable, readable, close, Reach, start, next, phase_at, rouse, Next, finish, attempt, resume_at,
  complete_at, removed_at, awake, step, possible, can_enter, can_resume, can_complete, can_removed,
}
use ds.Rpc.Connection.Senders.Table.{set_at, nth-set_at, nth-map}

abbrev pub is_wake : ℕ → Act → Bool
is_wake i (wake j) = i == j
is_wake i _ = false

-- Whether the thread wakes by itself in these steps.
unfoldable pub wakes : ℕ → {s0 s : Senders} {sent : List (Mem × ℕ)} → Reach s0 s sent → Bool
wakes i start = false
wakes i (next a r p e) = is_wake i a || wakes i r

-- The connection is dead, and the thread sleeps in its second wait.
record IsStranded (i : ℕ) (b : Mem) (sz : ℕ) (s : Senders) : Type 0 where
  dead : s.conn.dead ≡ true
  asleep : phase_at i s.threads ≡ writing true b sz

abbrev After : ℕ → Mem → ℕ → Option Next → Type 0
After i b sz none = Unit
After i b sz (some (t, new)) = IsStranded i b sz t

set-IsStranded :
    (i j : ℕ) (b : Mem) (sz : ℕ) (p : Phase) (s t : Senders)
    → IsStranded i b sz s
    → t.conn.dead ≡ true
    → t.threads ≡ set_at j p s.threads
    → i ≢ j
    → IsStranded i b sz t
set-IsStranded i j b sz p s t v d e n = record {
  dead = d;
  asleep = ground (arith, v.asleep, e, nth-set_at outside j i p s.threads);
}

refuse-IsStranded :
    (i j : ℕ) (b : Mem) (sz : ℕ) (b' : Mem) (sz' : ℕ) (w : WriteResult) (others : ℕ) (s : Senders)
    → IsStranded i b sz s
    → i ≢ j
    → After i b sz (attempt j b' sz' w others s)
unfolding attempt send_start
refuse-IsStranded i j b sz b' sz' w others s v n =
    let d = v.dead in
    let r : attempt j b' sz' w others s
        ≡ some (record s { waiters = others; threads = set_at j outside s.threads }, []) =
      ground arith in
    subst (After i b sz) (sym r) (set-IsStranded i j b sz outside s _ v d refl n)

finish-IsStranded :
    (i j : ℕ) (b : Mem) (sz : ℕ) (b' : Mem) (sz' : ℕ) (s : Senders)
    → IsStranded i b sz s
    → i ≢ j
    → IsStranded i b sz (finish j b' sz' s).0
unfolding finish send_finish
finish-IsStranded i j b sz b' sz' s v n = record {
  dead = v.dead;
  asleep = ground (
    arith,
    v.asleep,
    nth-set_at outside j i outside s.threads,
    nth-map outside rouse i (set_at j outside s.threads) refl,
  );
}

other :
    (i j : ℕ) (f : Phase → Bool) (ps : List Phase) (b : Mem) (sz : ℕ)
    → phase_at i ps ≡ writing true b sz
    → f (phase_at j ps) ≡ true
    → f (writing true b sz) ≡ false
    → i ≢ j
other i j f ps b sz e h g k = ground arith

-- A thread that is at the point where the step can come is another one.
resume-IsStranded :
    (i j : ℕ) (b : Mem) (sz : ℕ) (w : WriteResult) (q : Phase) (s : Senders)
    → IsStranded i b sz s
    → (can_resume w q ≡ true → i ≢ j)
    → can_resume w q ≡ true
    → After i b sz (resume_at j w s q)
resume-IsStranded i j b sz w (queued a b' sz') s v n h =
    refuse-IsStranded i j b sz b' sz' w (s.waiters - 1) s v (n h)
resume-IsStranded i j b sz w outside s v n h = v
resume-IsStranded i j b sz w (writing a b' sz') s v n h = v
resume-IsStranded i j b sz w (removing b' sz') s v n h = v

complete-IsStranded :
    (i j : ℕ) (b : Mem) (sz : ℕ) (q : Phase) (s : Senders)
    → IsStranded i b sz s
    → i ≢ j
    → IsStranded i b sz (complete_at j s q).0
unfolding is_sending
complete-IsStranded i j b sz (writing a b' sz') s v n =
    let f = finish-IsStranded i j b sz b' sz' s v n in
    let d = v.dead in let over : is_sending s.conn ≡ false = ground arith in rw over f
complete-IsStranded i j b sz (queued a b' sz') s v n = v
complete-IsStranded i j b sz outside s v n = v
complete-IsStranded i j b sz (removing b' sz') s v n = v

removed-IsStranded :
    (i j : ℕ) (b : Mem) (sz : ℕ) (q : Phase) (s : Senders)
    → IsStranded i b sz s
    → i ≢ j
    → IsStranded i b sz (removed_at j s q).0
removed-IsStranded i j b sz (removing b' sz') s v n = finish-IsStranded i j b sz b' sz' s v n
removed-IsStranded i j b sz (queued a b' sz') s v n = v
removed-IsStranded i j b sz outside s v n = v
removed-IsStranded i j b sz (writing a b' sz') s v n = v

step-IsStranded :
    (i : ℕ) (b : Mem) (sz : ℕ) (a : Act) (s : Senders)
    → IsStranded i b sz s
    → possible a s ≡ true
    → is_wake i a ≡ false
    → After i b sz (step a s)
unfolding step possible write_cb read_cb closeconn
step-IsStranded i b sz (enter j b' sz' w) s v p h =
    refuse-IsStranded i j b sz b' sz' w s.waiters s v
      (other i j (can_enter w sz') s.threads b sz v.asleep (ground arith) refl)
step-IsStranded i b sz (resume j w) s v p h =
    resume-IsStranded i j b sz w (phase_at j s.threads) s v
      (λ q. other i j (can_resume w) s.threads b sz v.asleep q refl) p
step-IsStranded i b sz (complete j) s v p h =
    complete-IsStranded i j b sz (phase_at j s.threads) s v
      (other i j can_complete s.threads b sz v.asleep p refl)
step-IsStranded i b sz (removed j) s v p h =
    removed-IsStranded i j b sz (phase_at j s.threads) s v
      (other i j can_removed s.threads b sz v.asleep p refl)
step-IsStranded i b sz (wake j) s v p h =
    set-IsStranded i j b sz (awake (phase_at j s.threads)) s _ v v.dead refl (ground arith)
step-IsStranded i b sz (writable w) s v p h = rw v.dead tt
step-IsStranded i b sz (readable first second fresh consumed) s v p h =
    let d = v.dead in
    let r : step (readable first second fresh consumed) s ≡ some (s, []) = ground arith in
    subst (After i b sz) (sym r) v
step-IsStranded i b sz close s v p h = record { dead = refl; asleep = v.asleep }

reach-IsStranded :
    (i : ℕ) (b : Mem) (sz : ℕ) {s0 s : Senders} {sent : List (Mem × ℕ)} (r : Reach s0 s sent)
    → IsStranded i b sz s0
    → wakes i r ≡ false
    → IsStranded i b sz s
unfolding wakes
reach-IsStranded i b sz start v h = v
reach-IsStranded i b sz (next {s} {t} {sent} {new} a r p e) v h =
    subst (After i b sz) e
      (step-IsStranded i b sz a s (reach-IsStranded i b sz r v (ground arith)) p (ground arith))

-- A thread that sleeps in send until its pdu is written, when closeconn is called, sleeps on through
-- every later step of every thread and every callback, unless pthread_cond_wait returns by itself:
-- closeconn signals nobody, and a dead connection lets no callback do so.
pub closeconn_strands :
    (i : ℕ) (b : Mem) (sz : ℕ) (s t : Senders) (sent : List (Mem × ℕ))
    (r : Reach (record s { conn = (closeconn s.conn).1 }) t sent)
    → phase_at i s.threads ≡ writing true b sz
    → wakes i r ≡ false
    → phase_at i t.threads ≡ writing true b sz
unfolding closeconn
closeconn_strands i b sz s t sent r e h =
    (reach-IsStranded i b sz r (record { dead = refl; asleep = e }) h).asleep
