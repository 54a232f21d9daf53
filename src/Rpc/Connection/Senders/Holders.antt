-- ===== src/Rpc/Connection/Senders/Holders.antt =====
-- Which thread's pdu a connection holds (connection::send of rpc/connection.cc).
use ds.Base.{
  ℕ, ◌^◌, ◌≤◌, ◌<◌, ◌≡◌, refl, sym, ◌∙◌, Bool, true, false, List, [], map, zero, suc, ◌∷◌, Option,
  none, some, arith, if◌then◌else◌, Mem, length,
}
use ds.Rpc.Connection.{Connection, is_null}
use ds.Rpc.Connection.Senders.{
  Phase, outside, queued, writing, removing, Senders, phase_at, rouse, signal, awake,
}
use ds.Rpc.Connection.Senders.Table.{
  nth, set_at, count, nth-set_at, count-set_at, count-nth, length-set_at,
}

-- in send, and its pdu is the connection's
abbrev pub is_holder : Phase → Bool
is_holder (writing asleep b sz) = true
is_holder (removing b sz) = true
is_holder _ = false

abbrev pub is_removing : Phase → Bool
is_removing (removing b sz) = true
is_removing _ = false

-- the arguments of send
abbrev pub pdu : Phase → Option (Mem × ℕ)
pdu outside = none
pdu (queued asleep b sz) = some (b, sz)
pdu (writing asleep b sz) = some (b, sz)
pdu (removing b sz) = some (b, sz)

-- At most one thread has its pdu in the connection, which is then the one under way.
pub record IsHeld (s : Senders) (b : Mem) (sz : ℕ) : Type 0 where
  pub one : count is_holder s.threads ≡ (if is_null s.conn.wpdu.buf then 0 else 1)
  pub holder :
      (i : ℕ) → is_holder (phase_at i s.threads) ≡ true → pdu (phase_at i s.threads) ≡ some (b, sz)
  pub small : (i : ℕ) (p : Mem) (n : ℕ) → pdu (phase_at i s.threads) ≡ some (p, n) → n < 2 ^ 31
  pub gone : (i : ℕ) → is_removing (phase_at i s.threads) ≡ true → s.conn.dead ≡ true

-- A change of the phases that keeps the arguments and who holds the connection.
pub record Alike (ps qs : List Phase) : Type 0 where
  pub holders : count is_holder qs ≡ count is_holder ps
  pub same : (i : ℕ) → is_holder (phase_at i qs) ≡ is_holder (phase_at i ps)
  pub args : (i : ℕ) → pdu (phase_at i qs) ≡ pdu (phase_at i ps)
  pub gone : (i : ℕ) → is_removing (phase_at i qs) ≡ is_removing (phase_at i ps)
  pub long : length qs ≡ length ps

pub Alike-IsHeld :
    (s t : Senders) (b : Mem) (sz : ℕ)
    → IsHeld s b sz
    → Alike s.threads t.threads
    → is_null t.conn.wpdu.buf ≡ is_null s.conn.wpdu.buf
    → (s.conn.dead ≡ true → t.conn.dead ≡ true)
    → IsHeld t b sz
Alike-IsHeld s t b sz v a n d = record {
  one = ground (arith, v.one, a.holders);
  holder = λ i h. a.args i ∙ v.holder i (sym (a.same i) ∙ h);
  small = λ i p m h. v.small i p m (sym (a.args i) ∙ h);
  gone = λ i h. d (v.gone i (sym (a.gone i) ∙ h));
}

pub refl-Alike : (ps : List Phase) → Alike ps ps
refl-Alike ps = record {
  holders = refl;
  same = λ i. refl;
  args = λ i. refl;
  gone = λ i. refl;
  long = refl;
}

cons-Alike :
    (p q : Phase) (ps qs : List Phase)
    → is_holder q ≡ is_holder p
    → pdu q ≡ pdu p
    → is_removing q ≡ is_removing p
    → Alike ps qs
    → Alike (p ∷ ps) (q ∷ qs)
unfolding count nth
cons-Alike p q ps qs e f g v = record {
  holders = ground (arith, v.holders);
  same = λ i. cases_same i;
  args = λ i. cases_args i;
  gone = λ i. cases_gone i;
  long = ground (arith, v.long);
}
  where
    cases_same : (i : ℕ) → is_holder (phase_at i (q ∷ qs)) ≡ is_holder (phase_at i (p ∷ ps))
    cases_same zero = e
    cases_same (suc i) = v.same i

    cases_args : (i : ℕ) → pdu (phase_at i (q ∷ qs)) ≡ pdu (phase_at i (p ∷ ps))
    cases_args zero = f
    cases_args (suc i) = v.args i

    cases_gone : (i : ℕ) → is_removing (phase_at i (q ∷ qs)) ≡ is_removing (phase_at i (p ∷ ps))
    cases_gone zero = g
    cases_gone (suc i) = v.gone i

pub signal-Alike : (ps : List Phase) → Alike ps (signal ps)
signal-Alike [] = refl-Alike []
signal-Alike (writing true b sz ∷ ps) =
    cons-Alike (writing true b sz) (writing false b sz) ps ps refl refl refl (refl-Alike ps)
signal-Alike (writing false b sz ∷ ps) =
    cons-Alike (writing false b sz) (writing false b sz) ps (signal ps) refl refl refl
      (signal-Alike ps)
signal-Alike (outside ∷ ps) =
    cons-Alike outside outside ps (signal ps) refl refl refl (signal-Alike ps)
signal-Alike (queued a b sz ∷ ps) =
    cons-Alike (queued a b sz) (queued a b sz) ps (signal ps) refl refl refl (signal-Alike ps)
signal-Alike (removing b sz ∷ ps) =
    cons-Alike (removing b sz) (removing b sz) ps (signal ps) refl refl refl (signal-Alike ps)

pub rouse_one :
    (p : Phase)
    → (is_holder (rouse p) ≡ is_holder p)
      × (pdu (rouse p) ≡ pdu p)
      × (is_removing (rouse p) ≡ is_removing p)
rouse_one outside = (refl, refl, refl)
rouse_one (queued a b sz) = (refl, refl, refl)
rouse_one (writing a b sz) = (refl, refl, refl)
rouse_one (removing b sz) = (refl, refl, refl)

pub rouse-Alike : (ps : List Phase) → Alike ps (map rouse ps)
rouse-Alike [] = refl-Alike []
rouse-Alike (p ∷ ps) =
    cons-Alike p (rouse p) ps (map rouse ps) (rouse_one p).0 (rouse_one p).1 (rouse_one p).2
      (rouse-Alike ps)

pub awake_one :
    (p : Phase)
    → (is_holder (awake p) ≡ is_holder p)
      × (pdu (awake p) ≡ pdu p)
      × (is_removing (awake p) ≡ is_removing p)
awake_one outside = (refl, refl, refl)
awake_one (queued a b sz) = (refl, refl, refl)
awake_one (writing a b sz) = (refl, refl, refl)
awake_one (removing b sz) = (refl, refl, refl)

pub set-Alike :
    (i : ℕ) (p : Phase) (ps : List Phase)
    → i < length ps
    → is_holder p ≡ is_holder (phase_at i ps)
    → pdu p ≡ pdu (phase_at i ps)
    → is_removing p ≡ is_removing (phase_at i ps)
    → Alike ps (set_at i p ps)
set-Alike i p ps h e f g = record {
  holders = ground (arith, count-set_at is_holder outside i p ps h);
  same = λ j. ground (arith, nth-set_at outside i j p ps);
  args = λ j. ground (arith, nth-set_at outside i j p ps);
  gone = λ j. ground (arith, nth-set_at outside i j p ps);
  long = length-set_at i p ps;
}

removing_holder : (p : Phase) → is_removing p ≡ true → is_holder p ≡ true
removing_holder p h = ground arith

-- A thread leaves with its pdu, and the connection has none.
pub leave-IsHeld :
    (i : ℕ) (s t : Senders) (b b' : Mem) (sz sz' : ℕ)
    → IsHeld s b sz
    → i < length s.threads
    → is_holder (phase_at i s.threads) ≡ true
    → Alike (set_at i outside s.threads) t.threads
    → t.conn.wpdu.buf ≡ none
    → IsHeld t b' sz'
leave-IsHeld i s t b b' sz sz' v h e a n =
    let c = count-set_at is_holder outside i outside s.threads h in
    let at_most : count is_holder s.threads ≤ 1 = ground (arith, v.one) in
    let zero_ : count is_holder t.threads ≡ 0 = ground (arith, a.holders, c) in
    record {
      one = ground arith;
      holder = λ j k. absurd (ground (arith, count-nth is_holder outside j t.threads refl k));
      small = λ j p m k.
          v.small j p m (ground (arith, a.args j, nth-set_at outside i j outside s.threads));
      gone = λ j k. absurd (
          ground (
            arith,
            count-nth is_holder outside j t.threads refl (removing_holder (phase_at j t.threads) k),
          ));
    }

-- A thread that is not the holder changes to a phase that is not one either.
pub set-IsHeld :
    (i : ℕ) (p : Phase) (s : Senders) (c : Connection) (w : ℕ) (b : Mem) (sz : ℕ)
    → IsHeld s b sz
    → i < length s.threads
    → is_holder (phase_at i s.threads) ≡ false
    → is_holder p ≡ false
    → ((q : Mem) (n : ℕ) → pdu p ≡ some (q, n) → n < 2 ^ 31)
    → is_null c.wpdu.buf ≡ is_null s.conn.wpdu.buf
    → (s.conn.dead ≡ true → c.dead ≡ true)
    → IsHeld (record { conn = c; waiters = w; threads = set_at i p s.threads }) b sz
set-IsHeld i p s c w b sz v h e f g n d = record {
  one = ground (arith, v.one, count-set_at is_holder outside i p s.threads h);
  holder = λ j k. ground (arith, v.holder j, nth-set_at outside i j p s.threads);
  small = λ j q m k. ground (arith, v.small j q m, g q m, nth-set_at outside i j p s.threads);
  gone =
      λ j k. d (v.gone j (ground (arith, removing_holder p, nth-set_at outside i j p s.threads)));
}

-- A thread becomes the holder.
pub hold-IsHeld :
    (i : ℕ) (p : Phase) (s : Senders) (c : Connection) (w : ℕ) (b0 b : Mem) (sz0 sz : ℕ)
    → IsHeld s b0 sz0
    → i < length s.threads
    → is_null s.conn.wpdu.buf ≡ true
    → is_null c.wpdu.buf ≡ false
    → is_holder p ≡ true
    → pdu p ≡ some (b, sz)
    → sz < 2 ^ 31
    → (is_removing p ≡ true → c.dead ≡ true)
    → IsHeld (record { conn = c; waiters = w; threads = set_at i p s.threads }) b sz
hold-IsHeld i p s c w b0 b sz0 sz v h n m e f g d =
    let others : (j : ℕ) → is_holder (phase_at j s.threads) ≡ true → ⊥ =
      λ j k. ground (arith, v.one, count-nth is_holder outside j s.threads refl k) in
    let mine : is_holder (phase_at i s.threads) ≡ false = ground (arith, others i) in
    record {
      one = ground (arith, v.one, count-set_at is_holder outside i p s.threads h);
      holder = λ j k. ground (arith, others j, nth-set_at outside i j p s.threads);
      small = λ j q l k. ground (arith, v.small j q l, nth-set_at outside i j p s.threads);
      gone = λ j k. d (
          ground (
            arith,
            others j,
            removing_holder (phase_at j s.threads),
            nth-set_at outside i j p s.threads,
          ));
    }
