-- ===== src/Rpc/Pollmgr/Tests.antt =====
-- Concrete runs of the poll manager (rpc/pollmgr.cc).
use ds.Base.{ℕ, ◌≡◌, refl, true, false, not, ◌&&◌, List, [], ◌∷◌, ◌++◌, Option, none, some, arith}
use ds.Rpc.Pollmgr.{
  cb_rdonly, cb_wronly, cb_rdwr, SelectAio, select_aio, watch_fd, unwatch_fd, lower, highest,
  wait_ready, collect, poll_mgr, add_callback, block_remove_start, block_remove_end,
}
use ds.Rpc.Pollmgr.Loop.{
  Event, State, head, copy, ready, call, add, remove, finish, start, run, step,
}
use ds.Rpc.Pollmgr.Covered.{Op, watch, unwatch, apply, wait_ready_lem}
use ds.Rpc.Pollmgr.Watched.{lacks}
use ds.Rpc.Pollmgr.Removal.{count, removal_lem}

-- Descriptor 1 is registered and removed; 0 is the pipe's.
abbrev before : List Event
before = add 1 cb_rdonly 9 ∷ remove 1 ∷ head ∷ []

-- Only the byte in the pipe is found, though select would find more.
abbrev after : List Event
after = copy ∷ ready (λ j. true) (λ _. true) ∷ call ∷ []

abbrev log : Option State → List ℕ
log none = []
log (some s) = s.called

removal_lem_example : count 1 (log (run (before ++ (finish 1 ∷ after)) (start 0))) ≡ 0
unfolding run step start poll_mgr select_aio add_callback watch_fd block_remove_start unwatch_fd
    lower highest wait_ready collect block_remove_end
removal_lem_example =
    removal_lem 0 1 before after _ _ _ refl refl refl (tt, (tt, (tt, tt))) (tt, (tt, (tt, tt)))
      (tt, (tt, (tt, tt)))

abbrev ops : List Op
ops = watch 5 cb_rdwr ∷ watch 7 cb_wronly ∷ unwatch 5 cb_rdonly ∷ unwatch 7 cb_wronly ∷ []

abbrev watching : SelectAio
watching = watch_fd 1 cb_rdwr (select_aio 0)

wait_ready_lem_example :
    (lacks 1 (1 ∷ []) ≡ not (watching.rfds 1)) × (lacks 1 [] ≡ not (watching.wfds 1 && false))
unfolding apply wait_ready collect watch_fd select_aio
wait_ready_lem_example =
    wait_ready_lem 0 1 (watch 1 cb_rdwr ∷ []) [] watching _ (λ _. true) (λ _. false) (1 ∷ []) []
      refl refl (omega arith)
