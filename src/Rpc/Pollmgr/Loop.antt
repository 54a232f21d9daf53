-- ===== src/Rpc/Pollmgr/Loop.antt =====
-- PollMgr::wait_loop and the threads that call block_remove_fd (rpc/pollmgr.cc), in any order.
use ds.Base.{ℕ, Bool, false, ◌&&◌, List, [], ◌∷◌, Option, none, some, if◌then◌else◌, ◌>>=◌, update}
use ds.Rpc.Pollmgr.{
  PollFlag, PollMgr, poll_mgr, add_callback, block_remove_start, block_remove_end, del_callback,
  wait_ready,
}

-- Where wait_loop is: before it takes the mutex, before it copies the sets, in select with its copies of
-- the sets and of highfds_, or with descriptors whose callbacks it still has to call.
pub data Point : Type 0 where
  heading copying : Point
  selecting : (ℕ → Bool) → (ℕ → Bool) → ℕ → Point
  calling : List ℕ → List ℕ → Point

-- Where block_remove_fd is for a descriptor: not called, waiting, woken, or returned since the
-- last add_callback.
pub data Removing : Type 0 where
  unasked waiting woken returned : Removing

-- `called` are the descriptors of the callbacks that were called.
pub record State : Type 0 where
  pub mgr : PollMgr
  pub point : Point
  pub removing : ℕ → Removing
  pub called : List ℕ

unfoldable pub start : ℕ → State
start pipe_r = record {
  mgr = poll_mgr pipe_r;
  point = heading;
  removing = λ _. unasked;
  called = [];
}

pub data Event : Type 0 where
  -- the parts of wait_loop; select succeeds with these sets, or is interrupted
  head copy interrupt : Event
  ready : (ℕ → Bool) → (ℕ → Bool) → Event
  call : Event
  -- the other threads
  add : ℕ → PollFlag → ℕ → Event
  del : ℕ → PollFlag → Event
  remove finish : ℕ → Event
  -- pthread_cond_wait returns without a broadcast, as it may.
  spurious : ℕ → Event

abbrev pub wake : Removing → Removing
wake waiting = woken
wake r = r

-- The call of a callback, if there is one.
abbrev pub calls : Option ℕ → ℕ → List ℕ → List ℕ
calls none fd called = called
calls (some _) fd called = fd ∷ called

-- The part of select's result that it may leave in a set: below the limit and in the set.
abbrev pub within : (ℕ → Bool) → (ℕ → Bool) → ℕ → Bool
within asked left fd = asked fd && left fd

unfoldable pub step : Event → State → Option State
step head s = elim s.point [
  | heading ↦ some (
      if s.mgr.pending_change
      then record s {
        mgr = record (s.mgr) { pending_change = false };
        removing = λ fd. wake (s.removing fd);
        point = copying;
      }
      else record s { point = copying })
  | _ ↦ none
]
step copy s = elim s.point [
  | copying ↦ let a = s.mgr.aio in some (record s { point = selecting a.rfds a.wfds a.highfds })
  | _ ↦ none
]
step interrupt s = elim s.point [
  | selecting r w high ↦ some (record s { point = heading })
  | _ ↦ none
]
step (ready rs ws) s = elim s.point [
  | selecting r w high ↦
      wait_ready high (within r rs) (within w ws) s.mgr.aio >>= λ (a, readable, writable).
      some (record s { mgr = record (s.mgr) { aio = a }; point = calling readable writable })
  | _ ↦ none
]
step call s = elim s.point [
  | calling readable writable ↦ some (elim readable [
    | fd ∷ rest ↦ record s {
      point = calling rest writable;
      called = calls (s.mgr.callbacks fd) fd s.called;
    }
    | [] ↦ elim writable [
      | fd ∷ rest ↦ record s {
        point = calling [] rest;
        called = calls (s.mgr.callbacks fd) fd s.called;
      }
      | [] ↦ record s { point = heading }
    ]
  ])
  | _ ↦ none
]
step (add fd flag ch) s = elim (s.removing fd) [
  | waiting ↦ none
  | woken ↦ none
  | _ ↦ add_callback fd flag ch s.mgr >>= λ m.
      some (record s { mgr = m; removing = update s.removing fd unasked })
]
step (del fd flag) s = del_callback fd flag s.mgr >>= λ m. some (record s { mgr = m })
step (remove fd) s = elim (s.removing fd) [
  | unasked ↦ block_remove_start fd s.mgr >>= λ m.
      some (record s { mgr = m; removing = update s.removing fd waiting })
  | _ ↦ none
]
step (finish fd) s = elim (s.removing fd) [
  | woken ↦
      some (record s { mgr = block_remove_end fd s.mgr; removing = update s.removing fd returned })
  | _ ↦ none
]
step (spurious fd) s = elim (s.removing fd) [
  | waiting ↦ some (record s { removing = update s.removing fd woken })
  | _ ↦ none
]

unfoldable pub run : List Event → State → Option State
unfolding step
run [] s = some s
run (e ∷ es) s = step e s >>= run es
