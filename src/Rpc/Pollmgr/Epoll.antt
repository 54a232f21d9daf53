-- ===== src/Rpc/Pollmgr/Epoll.antt =====
-- EPollAIO (rpc/pollmgr.cc). Of an entry of fdstatus_ only the bits 0x1 and 0x10 are ever set, and they
-- are the record of this name. An operation also returns the call of epoll_ctl that it makes; whether
-- that returned 0 is an argument.
use ds.Base.{
  ℕ, Bool, true, false, ◌&&◌, ◌||◌, not, List, [], ◌∷◌, Option, none, some, ltb, if◌then◌else◌,
  update,
}
use ds.Rpc.Pollmgr.{PollFlag, cb_none, cb_rdonly, cb_wronly, cb_rdwr, max_poll_fds}

pub record Bits : Type 0 where
  pub rd : Bool
  pub wr : Bool

-- The flag as an int.
abbrev pub bits : PollFlag → Bits
bits cb_none = record { rd = false; wr = false }
bits cb_rdonly = record { rd = true; wr = false }
bits cb_wronly = record { rd = false; wr = true }
bits cb_rdwr = record { rd = true; wr = true }

-- status | flag, status & ~flag, status & CB_MASK, and status == flag
abbrev pub set_bits : Bits → Bits → Bits
set_bits a b = record { rd = a.rd || b.rd; wr = a.wr || b.wr }

abbrev pub clear_bits : Bits → Bits → Bits
clear_bits a b = record { rd = a.rd && not b.rd; wr = a.wr && not b.wr }

abbrev pub masked : Bits → Bits
masked a = clear_bits a (record { rd = true; wr = true })

abbrev pub is_same : Bool → Bool → Bool
is_same true b = b
is_same false b = not b

abbrev pub are_same : Bits → Bits → Bool
are_same a b = is_same a.rd b.rd && is_same a.wr b.wr

abbrev pub is_zero : Bits → Bool
is_zero a = not a.rd && not a.wr

pub data CtlOp : Type 0 where
  ctl_add ctl_mod ctl_del : CtlOp

-- A call of epoll_ctl: the operation, the descriptor, and EPOLLIN and EPOLLOUT of the events
pub record Ctl : Type 0 where
  pub op : CtlOp
  pub fd : ℕ
  pub events : Bits

abbrev pub FdStatus : Type 0
FdStatus = ℕ → Bits

-- The constructor.
abbrev pub epoll_aio : FdStatus
epoll_aio fd = bits cb_none

unfoldable pub epoll_watch_fd : Bool → ℕ → PollFlag → FdStatus → Option (Ctl × FdStatus)
epoll_watch_fd succeeds fd flag s =
    let op = if is_zero (s fd) then ctl_add else ctl_mod in
    let status = set_bits (s fd) (bits flag) in
    if not (ltb fd max_poll_fds)
    then none
    else if elim flag [ cb_rdwr ↦ not (status.rd && status.wr) | _ ↦ false ]
    then none
    else if succeeds
    then some (record { op = op; fd = fd; events = status }, update s fd status)
    else none

unfoldable pub epoll_unwatch_fd : Bool → ℕ → PollFlag → FdStatus → Option (Bool × Ctl × FdStatus)
epoll_unwatch_fd succeeds fd flag s =
    let status = clear_bits (s fd) (bits flag) in
    let op = if is_zero status then ctl_del else ctl_mod in
    if not (ltb fd max_poll_fds)
    then none
    else if elim flag [ cb_rdwr ↦ not (is_zero status) | _ ↦ false ]
    then none
    else if succeeds
    then some (is_zero status, record { op = op; fd = fd; events = status }, update s fd status)
    else none

unfoldable pub epoll_is_watched : ℕ → PollFlag → FdStatus → Option Bool
epoll_is_watched fd flag s =
    if ltb fd max_poll_fds then some (are_same (masked (s fd)) (bits flag)) else none

-- wait_ready behind epoll_wait, with the descriptors and events that it returned.
unfoldable pub epoll_wait_ready : List (ℕ × Bits) → List ℕ × List ℕ
epoll_wait_ready [] = ([], [])
epoll_wait_ready ((fd, events) ∷ ready) =
    let (readable, writable) = epoll_wait_ready ready in
    (if events.rd then fd ∷ readable else readable, if events.wr then fd ∷ writable else writable)
