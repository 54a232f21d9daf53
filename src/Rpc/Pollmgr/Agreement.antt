-- ===== src/Rpc/Pollmgr/Agreement.antt =====
-- EPollAIO against SelectAIO (rpc/pollmgr.cc).
use ds.Base.{
  ℕ, ◌<◌, ◌≡◌, ◌≢◌, Bool, true, false, ◌&&◌, not, List, [], ◌∷◌, Option, some, arith, ◌==◌,
  if◌then◌else◌, ◌>>=◌,
}
use ds.Rpc.Pollmgr.{PollFlag, cb_none, cb_rdonly, cb_wronly, cb_rdwr, max_poll_fds, SelectAio}
use ds.Rpc.Pollmgr.Epoll.{
  Ctl, ctl_add, ctl_mod, ctl_del, FdStatus, bits, set_bits, clear_bits, is_zero, epoll_watch_fd,
  epoll_unwatch_fd, epoll_is_watched,
}
use ds.Rpc.Pollmgr.Covered.{Op, watch, unwatch}

-- The same operations on EPollAIO, where every epoll_ctl succeeds.
unfoldable pub epoll_apply : List Op → FdStatus → Option (FdStatus × List Bool)
epoll_apply [] s = some (s, [])
epoll_apply (watch fd flag ∷ ops) s = epoll_watch_fd true fd flag s >>= λ (_, t). epoll_apply ops t
epoll_apply (unwatch fd flag ∷ ops) s = epoll_unwatch_fd true fd flag s >>= λ (gone, _, t).
    epoll_apply ops t >>= λ (u, more). some (u, gone ∷ more)

-- A flag is CB_RDONLY, CB_WRONLY or CB_RDWR, and a descriptor is below the limit and not the pipe's.
abbrev is_flag : PollFlag → Bool
is_flag cb_none = false
is_flag _ = true

abbrev pub IsUse : ℕ → Op → Type 0
IsUse pipe_r (watch fd flag) = (is_flag flag ≡ true) × (fd < max_poll_fds) × (fd ≢ pipe_r)
IsUse pipe_r (unwatch fd flag) = (is_flag flag ≡ true) × (fd < max_poll_fds) × (fd ≢ pipe_r)

-- The same descriptors are watched.
abbrev pub Agrees : ℕ → SelectAio → FdStatus → Type 0
Agrees pipe_r a s = (fd : ℕ) → fd ≢ pipe_r → (a.rfds fd ≡ (s fd).rd) × (a.wfds fd ≡ (s fd).wr)

-- What an unwatch_fd leaves in a set.
abbrev left : ℕ → Bool → (ℕ → Bool) → ℕ → Bool
left fd cleared set j = if fd == j then set j && not cleared else set j

watch_ctl : ℕ → PollFlag → FdStatus → Ctl
watch_ctl fd flag s = record {
  op = if is_zero (s fd) then ctl_add else ctl_mod;
  fd = fd;
  events = set_bits (s fd) (bits flag);
}

unwatch_ctl : ℕ → PollFlag → FdStatus → Ctl
unwatch_ctl fd flag s = record {
  op = if is_zero (clear_bits (s fd) (bits flag)) then ctl_del else ctl_mod;
  fd = fd;
  events = clear_bits (s fd) (bits flag);
}

-- EPollAIO's is_watched answers no for each of the three flags, whatever is watched.
pub epoll_is_watched_never :
    (fd : ℕ) (flag : PollFlag) (s : FdStatus)
    → is_flag flag ≡ true
    → fd < max_poll_fds
    → epoll_is_watched fd flag s ≡ some false
unfolding epoll_is_watched
epoll_is_watched_never fd cb_none s h l = absurd (ground (arith, h))
epoll_is_watched_never fd cb_rdonly s h l = ground arith
epoll_is_watched_never fd cb_wronly s h l = ground arith
epoll_is_watched_never fd cb_rdwr s h l = ground arith
