-- ===== src/Lock.antt =====
-- Class lock_server (lock_server.h, lock_server.cc): one lock_t and the threads that serve acquire and
-- release on it. The mutex and the condition variable are the ones of POSIX threads: a locked mutex
-- blocks, waiting gives the mutex up in one step with falling asleep and takes it again on waking,
-- and a waiting thread may wake by itself. The locks of different ids share nothing but the map that
-- holds them, whose operations count as one step each. What is printed is left out.
pub mod Exclusion
pub mod Wakeups
pub mod Many
pub mod Service
pub mod Remote
mod Tests
use ds.Base.{ℕ, Bool, true, false, List, [], ◌∷◌, Option, none, some, ◌==◌, if◌then◌else◌}

-- Where a client's thread stands: before acquire; before its pthread_mutex_lock (also behind a wait);
-- at the while; in pthread_cond_wait; behind the while; behind acquire; before the
-- pthread_mutex_lock of release; behind it.
pub data Point : Type 0 where
  outside entering testing waiting setting holding leaving releasing : Point

pub record Lock : Type 0 where
  pub mutex : Option ℕ
  pub is_locked : Bool
  pub point : ℕ → Point

-- lock_t()
abbrev pub lock_t : Lock
lock_t = record { mutex = none; is_locked = false; point = λ t. outside }

abbrev pub at : ℕ → Point → (ℕ → Point) → ℕ → Point
at t p points u = if t == u then p else points u

-- pthread_cond_signal, where `woken` is the thread that the system picks, if any
abbrev pub signal : Option ℕ → (ℕ → Point) → ℕ → Point
signal none points = points
signal (some u) points = elim (points u) [ waiting ↦ at u entering points | _ ↦ points ]

-- pthread_mutex_lock by thread `t`, which goes on at `p`; `none` is a thread that blocks.
abbrev pub take_mutex : ℕ → Point → Lock → Option Lock
take_mutex t p s = elim s.mutex [
  | none ↦ some (record s { mutex = some t; point = at t p s.point })
  | some u ↦ none
]

-- The next step of thread `t` in acquire and then in release. A client releases what it was granted.
unfoldable pub advance : ℕ → Option ℕ → Lock → Option Lock
advance t woken s = elim (s.point t) [
  | outside ↦ some (record s { point = at t entering s.point })
  | entering ↦ take_mutex t testing s
  | testing ↦
      if s.is_locked
      then some (record s { mutex = none; point = at t waiting s.point })
      else some (record s { point = at t setting s.point })
  | waiting ↦ some (record s { point = at t entering s.point })
  | setting ↦ some (record { mutex = none; is_locked = true; point = at t holding s.point })
  | holding ↦ some (record s { point = at t leaving s.point })
  | leaving ↦ take_mutex t releasing s
  | releasing ↦
      some (record { mutex = none; is_locked = false; point = at t outside (signal woken s.point) })
]

-- A schedule: which thread goes next, and whom a signal wakes; a blocked thread does nothing.
unfoldable pub run : List (ℕ × Option ℕ) → Lock → Lock
unfolding advance
run [] s = s
run ((t, woken) ∷ schedule) s = elim (advance t woken s) [
  | none ↦ run schedule s
  | some s' ↦ run schedule s'
]
