-- ===== src/Lock/Many.antt =====
-- The locks of lock_server side by side (lock_server.cc): `locks[lid]` makes a lock that is not there.
use ds.Base.{ℕ, List, [], ◌∷◌, Option, none, some, ◌==◌, if◌then◌else◌, update}
use ds.Lock.{Lock, advance}

-- The locks by their ids.
abbrev pub Locks : Type 0
Locks = ℕ → Lock

-- A step of thread `t` in acquire or release on the lock `lid`; a blocked thread does nothing.
unfoldable pub advance_lock : ℕ → ℕ → Option ℕ → Locks → Locks
advance_lock lid t woken s = elim (advance t woken (s lid)) [ none ↦ s | some l ↦ update s lid l ]

-- A schedule: on which lock, which thread, and whom a signal wakes.
unfoldable pub run_locks : List (ℕ × ℕ × Option ℕ) → Locks → Locks
unfolding advance_lock
run_locks [] s = s
run_locks ((lid, t, woken) ∷ schedule) s = run_locks schedule (advance_lock lid t woken s)

-- The part of the schedule on one lock.
abbrev pub on_lock : ℕ → List (ℕ × ℕ × Option ℕ) → List (ℕ × Option ℕ)
on_lock j [] = []
on_lock j ((lid, t, woken) ∷ schedule) =
    let rest = on_lock j schedule in if lid == j then (t, woken) ∷ rest else rest
