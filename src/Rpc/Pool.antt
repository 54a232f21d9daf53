-- ===== src/Rpc/Pool.antt =====
-- The queue of jobs and its threads: class fifo (rpc/fifo.h) and class ThrPool (rpc/thr_pool.h,
-- rpc/thr_pool.cc), with the mutex and the condition variables of POSIX threads. The threads all run
-- do_worker, so that only how many are at each point matters. A job is a number, or the NULL function
-- that tells a thread to end.
pub mod Order
pub mod Pills
pub mod Ending
mod Tests
use ds.Base.{
  ℕ, zero, suc, ◌+◌, ◌-◌, ◌*◌, Bool, true, false, ◌||◌, not, List, [], ◌∷◌, ◌++◌, Option, none,
  some, ltb, ◌==◌, if◌then◌else◌, ◌>>=◌, length,
}

pub data Job : Type 0 where
  poison : Job
  job : ℕ → Job

-- fifo; `max` is 0 for no limit.
pub record Fifo : Type 0 where
  pub q : List Job
  pub max : ℕ

-- The return value of size, which is a bool.
unfoldable pub size : Fifo → Bool
size f = elim f.q [ [] ↦ false | _ ∷ _ ↦ true ]

-- A round of enq: `none` if there is no space, so that it waits or returns false.
unfoldable pub enq : Job → Fifo → Option Fifo
enq e f =
    if f.max == 0 || ltb (length f.q) f.max then some (record f { q = f.q ++ e ∷ [] }) else none

-- A round of deq: `none` if the queue is empty, so that it waits.
unfoldable pub deq : Fifo → Option (Job × Fifo)
deq f = elim f.q [ [] ↦ none | e ∷ rest ↦ some (e, record f { q = rest }) ]

-- How many threads wait in deq, are elsewhere in takeJob, and have ended; the jobs that are being run,
-- and those that were. `entered` and `taken` are what has gone into the queue and come out.
-- `pills` is how many the destructor has still to enter.
pub record Pool : Type 0 where
  pub jobq : Fifo
  pub waiting : ℕ
  pub taking : ℕ
  pub running : List ℕ
  pub ended : ℕ
  pub finished : List ℕ
  pub closing : Bool
  pub pills : ℕ
  pub entered : List Job
  pub taken : List Job

-- ThrPool(sz): the threads are about to take their first job.
unfoldable pub thr_pool : ℕ → Pool
thr_pool sz = record {
  jobq = record { q = []; max = 100 * sz };
  waiting = 0;
  taking = sz;
  running = [];
  ended = 0;
  finished = [];
  closing = false;
  pills = 0;
  entered = [];
  taken = [];
}

-- pthread_cond_signal on non_empty_c_: a waiting thread, if there is one, goes on.
unfoldable pub signal_non_empty : Pool → Pool
signal_non_empty p =
    if p.waiting == 0 then p else record p { waiting = p.waiting - 1; taking = p.taking + 1 }

unfoldable pub enter : Job → Pool → Option Pool
unfolding enq signal_non_empty
enter e p = enq e p.jobq >>= λ f.
    some (signal_non_empty (record p { jobq = f; entered = p.entered ++ e ∷ [] }))

-- addJob where the pool does not block, and what it returns
unfoldable pub add_job : ℕ → Pool → Bool × Pool
unfolding enter
add_job j p = elim (enter (job j) p) [ none ↦ (false, p) | some p' ↦ (true, p') ]

-- takeJob of a thread that is not waiting: it waits, ends, or goes on to run a job.
unfoldable pub take_job : Pool → Option Pool
unfolding deq
take_job p =
    if p.taking == 0
    then none
    else some (elim (deq p.jobq) [
      | none ↦ record p { taking = p.taking - 1; waiting = p.waiting + 1 }
      | some (poison, f) ↦ record p {
        jobq = f;
        taken = p.taken ++ poison ∷ [];
        taking = p.taking - 1;
        ended = p.ended + 1;
      }
      | some (job j, f) ↦ record p {
        jobq = f;
        taken = p.taken ++ job j ∷ [];
        taking = p.taking - 1;
        running = j ∷ p.running;
      }
    ])

-- The list without its item at a place.
abbrev pub without : ℕ → List ℕ → List ℕ
without i [] = []
without zero (x ∷ l) = l
without (suc i) (x ∷ l) = x ∷ without i l

abbrev pub item : ℕ → List ℕ → Option ℕ
item i [] = none
item zero (x ∷ l) = some x
item (suc i) (x ∷ l) = item i l

-- The job at a place of `running` returns, and its thread goes back to takeJob.
unfoldable pub finish_job : ℕ → Pool → Option Pool
finish_job i p = item i p.running >>= λ j.
    some
      (record p { running = without i p.running; finished = j ∷ p.finished; taking = p.taking + 1 })

-- What can happen: a job is added, which the destructor's caller must not let happen any more; a thread
-- makes a step; a thread wakes up by itself; the destructor begins, and enters a pill.
pub data Event : Type 0 where
  add : ℕ → Event
  take : Event
  finish : ℕ → Event
  spurious : Event
  close : Event
  pill : Event

unfoldable pub step : ℕ → Event → Pool → Option Pool
unfolding add_job take_job finish_job enter
step sz (add j) p = if p.closing then none else some (add_job j p).1
step sz take p = take_job p
step sz (finish i) p = finish_job i p
step sz spurious p =
    if p.waiting == 0
    then none
    else some (record p { waiting = p.waiting - 1; taking = p.taking + 1 })
step sz close p = if p.closing then none else some (record p { closing = true; pills = sz })
step sz pill p =
    if p.pills == 0 then none else enter poison p >>= λ p'. some (record p' { pills = p.pills - 1 })

unfoldable pub run : ℕ → List Event → Pool → Option Pool
unfolding step
run sz [] p = some p
run sz (e ∷ es) p = step sz e p >>= run sz es
