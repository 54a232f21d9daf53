-- ===== src/Rpc/Pollmgr.antt =====
-- SelectAIO and PollMgr (rpc/pollmgr.h, rpc/pollmgr.cc). An fd_set is a function into Bool; a
-- callback object is a number; what select returns is an argument. `none` is a failed assertion.
pub mod Epoll
pub mod Watched
pub mod Covered
pub mod Agreement
pub mod Loop
pub mod Quiet
pub mod Threads
pub mod Removal
mod Tests
use ds.Base.{
  ℕ, zero, suc, ◌+◌, ◌-◌, Bool, true, false, ◌&&◌, ◌||◌, not, List, [], ◌∷◌, ◌++◌, Option, none,
  some, ltb, leb, ◌==◌, if◌then◌else◌, ◌>>=◌, update,
}

abbrev pub max_poll_fds : ℕ
max_poll_fds = 128

-- poll_flag, the values that are used for a flag
pub data PollFlag : Type 0 where
  cb_none cb_rdonly cb_wronly cb_rdwr : PollFlag

-- `piped` is the number of bytes in the pipe.
pub record SelectAio : Type 0 where
  pub rfds : ℕ → Bool
  pub wfds : ℕ → Bool
  pub highfds : ℕ
  pub pipe_r : ℕ
  pub piped : ℕ

-- The constructor, with the end of the pipe that is read.
unfoldable pub select_aio : ℕ → SelectAio
select_aio pipe_r = record {
  rfds = update (λ _. false) pipe_r true;
  wfds = λ _. false;
  highfds = pipe_r;
  pipe_r = pipe_r;
  piped = 0;
}

unfoldable pub watch_fd : ℕ → PollFlag → SelectAio → SelectAio
watch_fd fd flag s =
    let high = if leb s.highfds fd then fd else s.highfds in
    elim flag [
      | cb_rdonly ↦ record s { rfds = update s.rfds fd true; highfds = high; piped = s.piped + 1 }
      | cb_wronly ↦ record s { wfds = update s.wfds fd true; highfds = high; piped = s.piped + 1 }
      | _ ↦ record s {
        rfds = update s.rfds fd true;
        wfds = update s.wfds fd true;
        highfds = high;
        piped = s.piped + 1;
      }
    ]

unfoldable pub is_watched : ℕ → PollFlag → SelectAio → Bool
is_watched fd cb_rdonly s = s.rfds fd
is_watched fd cb_wronly s = s.wfds fd
is_watched fd _ s = s.rfds fd && s.wfds fd

-- The loop of unwatch_fd below `n`: the last descriptor that is watched, or `newh`
unfoldable pub highest : ℕ → ℕ → SelectAio → ℕ
highest zero newh s = newh
highest (suc n) newh s =
    let rest = highest n newh s in if s.rfds n then n else if s.wfds n then n else rest

-- unwatch_fd behind the changes of the sets
unfoldable pub lower : ℕ → SelectAio → SelectAio
unfolding highest
lower fd s =
    if not (s.rfds fd) && not (s.wfds fd)
    then if fd == s.highfds then record s { highfds = highest (suc s.highfds) s.pipe_r s } else s
    else s

unfoldable pub unwatch_fd : ℕ → PollFlag → SelectAio → Option (Bool × SelectAio)
unfolding lower
unwatch_fd fd flag s = elim flag [
  | cb_none ↦ none
  | cb_rdonly ↦
      let t = lower fd (record s { rfds = update s.rfds fd false }) in
      some (not (t.rfds fd) && not (t.wfds fd), t)
  | cb_wronly ↦
      let t = lower fd (record s { wfds = update s.wfds fd false }) in
      some (not (t.rfds fd) && not (t.wfds fd), t)
  | cb_rdwr ↦
      let t =
        lower fd (record s { wfds = update s.wfds fd false; rfds = update s.rfds fd false }) in
      some (not (t.rfds fd) && not (t.wfds fd), record t { piped = t.piped + 1 })
]

-- The loop of wait_ready below `n`, with the sets that select leaves: what was read from the pipe, the
-- readable and the writable.
unfoldable pub collect : ℕ → ℕ → ℕ → (ℕ → Bool) → (ℕ → Bool) → Option (ℕ × List ℕ × List ℕ)
collect zero pipe_r piped trfds twfds = some (piped, [], [])
collect (suc fd) pipe_r piped trfds twfds =
    collect fd pipe_r piped trfds twfds >>= λ (left, readable, writable).
    if fd == pipe_r && trfds fd
    then if left == 0 then none else some (left - 1, readable, writable)
    else some (
      left,
      if trfds fd then readable ++ fd ∷ [] else readable,
      if twfds fd then writable ++ fd ∷ [] else writable,
    )

-- wait_ready behind its select, where select has succeeded; `high` was read before.
unfoldable pub wait_ready :
    ℕ → (ℕ → Bool) → (ℕ → Bool) → SelectAio → Option (SelectAio × List ℕ × List ℕ)
unfolding collect
wait_ready high trfds twfds s =
    collect (suc high) s.pipe_r s.piped trfds twfds >>= λ (left, readable, writable).
    some (record s { piped = left }, readable, writable)

pub record PollMgr : Type 0 where
  pub callbacks : ℕ → Option ℕ
  pub aio : SelectAio
  pub pending_change : Bool

-- The constructor.
unfoldable pub poll_mgr : ℕ → PollMgr
unfolding select_aio
poll_mgr pipe_r = record { callbacks = λ _. none; aio = select_aio pipe_r; pending_change = false }

-- !callbacks_[fd] || callbacks_[fd] == ch
abbrev pub is_free_for : ℕ → Option ℕ → Bool
is_free_for ch none = true
is_free_for ch (some c) = c == ch

unfoldable pub add_callback : ℕ → PollFlag → ℕ → PollMgr → Option PollMgr
unfolding watch_fd
add_callback fd flag ch m =
    if ltb fd max_poll_fds
    then if is_free_for ch (m.callbacks fd)
      then some
          (record m { callbacks = update m.callbacks fd (some ch); aio = watch_fd fd flag m.aio })
      else none
    else none

-- block_remove_fd up to its wait, and behind it
unfoldable pub block_remove_start : ℕ → PollMgr → Option PollMgr
unfolding unwatch_fd
block_remove_start fd m =
    unwatch_fd fd cb_rdwr m.aio >>= λ (_, s). some (record m { aio = s; pending_change = true })

unfoldable pub block_remove_end : ℕ → PollMgr → PollMgr
block_remove_end fd m = record m { callbacks = update m.callbacks fd none }

unfoldable pub del_callback : ℕ → PollFlag → PollMgr → Option PollMgr
unfolding unwatch_fd
del_callback fd flag m = unwatch_fd fd flag m.aio >>= λ (gone, s).
    some
      (record m { callbacks = if gone then update m.callbacks fd none else m.callbacks; aio = s })

unfoldable pub has_callback : ℕ → PollFlag → ℕ → PollMgr → Bool
unfolding is_watched
has_callback fd flag c m = elim (m.callbacks fd) [
  | none ↦ false
  | some d ↦ d == c && is_watched fd flag m.aio
]
