-- ===== src/Lock/Wakeups.antt =====
-- No wake-up is lost in the lock server: a thread waits only while another one is under way.
use ds.Base.{ℕ, ◌≡◌, Bool, true, false, List, [], ◌∷◌, Option, none, some, arith}
use ds.Lock.{Point, outside, waiting, releasing, Lock, at, advance}
use ds.Lock.Exclusion.{is_owner}

-- inside acquire or release, or granted, and not in the wait
abbrev pub is_active : Point → Bool
is_active outside = false
is_active waiting = false
is_active _ = true

abbrev pub is_waiting : Point → Bool
is_waiting waiting = true
is_waiting _ = false

abbrev is_releasing : Point → Bool
is_releasing releasing = true
is_releasing _ = false

-- What POSIX says of pthread_cond_signal, when it is what the step does: it wakes a waiting thread, if there is one.
abbrev pub Signals : ℕ → Option ℕ → Lock → Type 0
Signals t none s = is_releasing (s.point t) ≡ true → (u : ℕ) → is_waiting (s.point u) ≡ false
Signals t (some w) s =
    is_releasing (s.point t) ≡ true
    → (is_waiting (s.point w) ≡ false → (u : ℕ) → is_waiting (s.point u) ≡ false)

-- Every signal of the schedule does.
unfoldable pub AllSignal : List (ℕ × Option ℕ) → Lock → Type 0
AllSignal [] s = Unit
AllSignal ((t, woken) ∷ schedule) s =
    Signals t woken s × AllSignal schedule (elim (advance t woken s) [ none ↦ s | some s' ↦ s' ])

-- A set flag has an owner, and a waiting thread has one that is active.
record IsAwake (s : Lock) : Type 0 where
  owned : s.is_locked ≡ true → (u : ℕ) × (is_owner (s.point u) ≡ true)
  roused : (t : ℕ) → is_waiting (s.point t) ≡ true → (u : ℕ) × (is_active (s.point u) ≡ true)

signal_none :
    (t u : ℕ) (points : ℕ → Point)
    → is_waiting (points u) ≡ false
    → is_waiting (at t outside points u) ≡ false
signal_none t u points h = ground arith
