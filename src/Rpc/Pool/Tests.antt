-- ===== src/Rpc/Pool/Tests.antt =====
-- Concrete runs of the pool of threads (rpc/thr_pool.cc).
use ds.Base.{◌*◌, ◌≤◌, ◌≡◌, refl, ◌⊎◌, true, List, [], ◌∷◌, ◌++◌, arith, length}
use ds.Rpc.Pool.{
  Pool, job, poison, thr_pool, enq, deq, signal_non_empty, enter, add_job, take_job, finish_job,
  Event, add, take, finish, close, pill, step, run,
}
use ds.Rpc.Pool.Order.{queue_lem}
use ds.Rpc.Pool.Pills.{count, count_in}
use ds.Rpc.Pool.Ending.{joined_lem}

-- One thread, which waits, is woken by a job, runs it, and ends.
abbrev events : List Event
events = take ∷ add 5 ∷ take ∷ close ∷ pill ∷ finish 0 ∷ take ∷ []

abbrev joined : Pool
joined = record {
  jobq = record { q = []; max = 100 };
  waiting = 0;
  taking = 0;
  running = [];
  ended = 1;
  finished = 5 ∷ [];
  closing = true;
  pills = 0;
  entered = job 5 ∷ poison ∷ [];
  taken = job 5 ∷ poison ∷ [];
}

joined_lem_example : count 5 joined.finished ≡ count_in 5 joined.entered
unfolding run step thr_pool enq deq signal_non_empty enter add_job take_job finish_job
joined_lem_example = joined_lem 1 5 events joined refl (omega arith) refl

queue_lem_example :
    (joined.entered ≡ joined.taken ++ [])
    × (length joined.jobq.q ≤ 100 * 1)
    × ((joined.waiting ≡ 0) ⊎ (length joined.jobq.q ≤ joined.taking))
unfolding run step thr_pool enq deq signal_non_empty enter add_job take_job finish_job
queue_lem_example = queue_lem 1 events joined refl (omega arith)
