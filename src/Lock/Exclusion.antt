-- ===== src/Lock/Exclusion.antt =====
-- Mutual exclusion of the lock server, whatever the schedule.
use ds.Base.{
  ℕ, ◌≡◌, ◌≢◌, refl, Bool, true, false, List, [], ◌∷◌, Option, none, some, arith, Option-cases,
  Bool-cases, inl, inr,
}
use ds.Lock.{
  Point, outside, entering, testing, waiting, setting, holding, leaving, releasing, Lock, lock_t,
  at, signal, take_mutex, advance, run,
}

-- between pthread_mutex_lock and pthread_mutex_unlock or the wait
abbrev in_mutex : Point → Bool
in_mutex testing = true
in_mutex setting = true
in_mutex releasing = true
in_mutex _ = false

-- granted by acquire, and the flag is not cleared yet
abbrev pub is_owner : Point → Bool
is_owner holding = true
is_owner leaving = true
is_owner releasing = true
is_owner _ = false

-- The mutex has one holder; an owner set the flag; behind the while the flag is not set; one owner.
record IsSafe (s : Lock) : Type 0 where
  held : (t : ℕ) → in_mutex (s.point t) ≡ true → s.mutex ≡ some t
  flagged : (t : ℕ) → is_owner (s.point t) ≡ true → s.is_locked ≡ true
  unflagged : (t : ℕ) → s.point t ≡ setting → s.is_locked ≡ false
  unique : (t u : ℕ) → is_owner (s.point t) ≡ true → is_owner (s.point u) ≡ true → t ≡ u

lock_t-IsSafe : IsSafe lock_t
lock_t-IsSafe = record {
  held = λ t h. ground arith;
  flagged = λ t h. ground arith;
  unflagged = λ t h. ground arith;
  unique = λ t u h k. ground arith;
}

-- A step that changes neither the mutex nor the flag and moves `t` outside the mutex.
move-IsSafe :
    (t : ℕ) (p : Point) (s : Lock)
    → IsSafe s
    → in_mutex p ≡ false
    → is_owner p ≡ is_owner (s.point t)
    → IsSafe (record s { point = at t p s.point })
move-IsSafe t p s v h k = record {
  held = λ u e. ground (arith, v.held u);
  flagged = λ u e. ground (arith, v.flagged u);
  unflagged = λ u e. ground (arith, v.unflagged u);
  unique = λ u w e f. ground (arith, v.unique u w, v.unique t w, v.unique u t);
}

take_mutex-IsSafe :
    (t : ℕ) (p : Point) (s : Lock)
    → IsSafe s
    → s.mutex ≡ none
    → is_owner p ≡ is_owner (s.point t)
    → p ≢ setting
    → IsSafe (record s { mutex = some t; point = at t p s.point })
take_mutex-IsSafe t p s v m k n = record {
  held = λ u e. ground (arith, v.held u);
  flagged = λ u e. ground (arith, v.flagged u);
  unflagged = λ u e. ground (arith, v.unflagged u);
  unique = λ u w e f. ground (arith, v.unique u w, v.unique t w, v.unique u t);
}

wait-IsSafe :
    (t : ℕ) (s : Lock)
    → IsSafe s
    → s.point t ≡ testing
    → s.is_locked ≡ true
    → IsSafe (record { mutex = none; is_locked = true; point = at t waiting s.point })
wait-IsSafe t s v h k = record {
  held = λ u e. ground (arith, v.held u, v.held t);
  flagged = λ u e. ground (arith, v.flagged u);
  unflagged = λ u e. ground (arith, v.unflagged u);
  unique = λ u w e f. ground (arith, v.unique u w);
}

pass-IsSafe :
    (t : ℕ) (s : Lock)
    → IsSafe s
    → s.point t ≡ testing
    → s.is_locked ≡ false
    → IsSafe (record { mutex = s.mutex; is_locked = false; point = at t setting s.point })
pass-IsSafe t s v h k = record {
  held = λ u e. ground (arith, v.held u, v.held t);
  flagged = λ u e. ground (arith, v.flagged u);
  unflagged = λ u e. ground (arith, v.unflagged u);
  unique = λ u w e f. ground (arith, v.unique u w);
}

grant-IsSafe :
    (t : ℕ) (s : Lock)
    → IsSafe s
    → s.point t ≡ setting
    → IsSafe (record { mutex = none; is_locked = true; point = at t holding s.point })
grant-IsSafe t s v h = record {
  held = λ u e. ground (arith, v.held u, v.held t);
  flagged = λ u e. ground (arith, v.flagged u);
  unflagged = λ u e. ground (arith, v.held u, v.held t);
  unique = λ u w e f. ground (arith, v.flagged u, v.flagged w, v.unflagged t);
}

free-IsSafe :
    (t : ℕ) (s : Lock)
    → IsSafe s
    → s.point t ≡ releasing
    → IsSafe (record { mutex = none; is_locked = false; point = at t outside s.point })
free-IsSafe t s v h = record {
  held = λ u e. ground (arith, v.held u, v.held t);
  flagged = λ u e. ground (arith, v.unique u t);
  unflagged = λ u e. ground (arith, v.held u, v.held t);
  unique = λ u w e f. ground (arith, v.unique u w);
}

signal-IsSafe :
    (w : Option ℕ) (s : Lock) → IsSafe s → IsSafe (record s { point = signal w s.point })
signal-IsSafe none s v = v
signal-IsSafe (some u) s v = woken u (s.point u) s refl v
  where
    woken :
        (u : ℕ) (p : Point) (s : Lock)
        → s.point u ≡ p
        → IsSafe s
        → IsSafe (record s { point = signal (some u) s.point })
    woken u waiting s e v = rw (e, signal) (move-IsSafe u entering s v refl (rw e refl))
    woken u outside s e v = rw (e, signal) v
    woken u entering s e v = rw (e, signal) v
    woken u testing s e v = rw (e, signal) v
    woken u setting s e v = rw (e, signal) v
    woken u holding s e v = rw (e, signal) v
    woken u leaving s e v = rw (e, signal) v
    woken u releasing s e v = rw (e, signal) v

signal-releasing :
    (w : Option ℕ) (t : ℕ) (s : Lock) → s.point t ≡ releasing → signal w s.point t ≡ releasing
signal-releasing none t s h = h
signal-releasing (some u) t s h = ground arith

advance-IsSafe :
    (t : ℕ) (woken : Option ℕ) (s : Lock) (p : Point)
    → s.point t ≡ p
    → IsSafe s
    → elim (advance t woken s) as (λ x. Type 0) [ none ↦ Unit | some s' ↦ IsSafe s' ]
unfolding advance
advance-IsSafe t w s outside e v = rw e (move-IsSafe t entering s v refl (rw e refl))
advance-IsSafe t w s entering e v = elim (Option-cases s.mutex) [
  | inl m ↦ rw (e, m, take_mutex) (take_mutex-IsSafe t testing s v m (rw e refl) (ground arith))
  | inr (u, m) ↦ rw (e, m, take_mutex) tt
]
advance-IsSafe t w s testing e v = elim (Bool-cases s.is_locked) [
  | inl l ↦ rw (e, l) (wait-IsSafe t s v e l)
  | inr l ↦ rw (e, l) (pass-IsSafe t s v e l)
]
advance-IsSafe t w s waiting e v = rw e (move-IsSafe t entering s v refl (rw e refl))
advance-IsSafe t w s setting e v = rw e (grant-IsSafe t s v e)
advance-IsSafe t w s holding e v = rw e (move-IsSafe t leaving s v refl (rw e refl))
advance-IsSafe t w s leaving e v = elim (Option-cases s.mutex) [
  | inl m ↦ rw (e, m, take_mutex) (take_mutex-IsSafe t releasing s v m (rw e refl) (ground arith))
  | inr (u, m) ↦ rw (e, m, take_mutex) tt
]
advance-IsSafe t w s releasing e v = rw e (
    free-IsSafe t (record s { point = signal w s.point }) (signal-IsSafe w s v)
      (signal-releasing w t s e))

run-IsSafe : (schedule : List (ℕ × Option ℕ)) (s : Lock) → IsSafe s → IsSafe (run schedule s)
unfolding run
run-IsSafe [] s v = v
run-IsSafe ((t, w) ∷ schedule) s v =
    let a = advance-IsSafe t w s (s.point t) refl v in
    elim (Option-cases (advance t w s)) [
      | inl e ↦ rw (e, run) (run-IsSafe schedule s v)
      | inr (s', e) ↦ rw (e, run) (run-IsSafe schedule s' (rw e at a))
    ]

-- Whatever order the threads run in and whomever a signal wakes, while one client holds the lock,
-- from the return of acquire until release clears the flag, no other client holds it, and the flag
-- that keeps the others waiting is set.
pub run-exclusive :
    (schedule : List (ℕ × Option ℕ)) (t u : ℕ)
    → t ≢ u
    → is_owner ((run schedule lock_t).point t) ≡ true
    → (is_owner ((run schedule lock_t).point u) ≡ false) × ((run schedule lock_t).is_locked ≡ true)
run-exclusive schedule t u ne h =
    let v = run-IsSafe schedule lock_t lock_t-IsSafe in
    (
      elim (Bool-cases (is_owner ((run schedule lock_t).point u))) [
        | inl k ↦ absurd (ne (v.unique t u h k))
        | inr k ↦ k
      ],
      v.flagged t h,
    )
