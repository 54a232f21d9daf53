-- ===== src/Rpc/Server/Jobs.antt =====
-- rpcs::got_pdu (rpc/rpc.cc): a pdu that came becomes a job of the thread pool, which holds a reference to
-- its connection until dispatch gives it up. What addObjJob answers is an argument: the queue takes the
-- job, or is full. One dispatch runs here at a time.
use ds.Base.{ℕ, Bool, true, false, List, [], ◌∷◌, ◌++◌, Option, some, if◌then◌else◌, ◌>>=◌, Mem}
use ds.Rpc.Server.{Server, incref, decref, dispatch}

-- djob_t
pub record Job : Type 0 where
  pub conn : ℕ
  pub buf : Mem
  pub sz : ℕ

module _ {App : Type 0} where
  -- got_pdu: what it returns, the server, and the jobs in the pool
  unfoldable pub got_pdu :
      Bool → ℕ → Mem → ℕ → Server App → List Job → Option (Bool × Server App × List Job)
  got_pdu succ c b sz s jobs =
      let s = incref c s in
      if succ
      then some (true, s, jobs ++ record { conn = c; buf = b; sz = sz } ∷ [])
      else (decref c s >>= λ s. some (false, s, jobs))

-- A pdu comes on a connection, or a thread of the pool takes the first job.
pub data Event : Type 0 where
  pdu : Bool → ℕ → Mem → ℕ → Event
  job : Mem → Event

module _ {App : Type 0} where
  unfoldable pub step : Event → Server App × List Job → Option (Server App × List Job)
  unfolding got_pdu
  step (pdu succ c b sz) (s, jobs) =
      got_pdu succ c b sz s jobs >>= λ (succ, s, jobs). some (s, jobs)
  step (job fresh_mem) (s, []) = some (s, [])
  step (job fresh_mem) (s, j ∷ jobs) =
      dispatch fresh_mem j.conn j.buf j.sz s >>= λ s. some (s, jobs)

  unfoldable pub run : List Event → Server App × List Job → Option (Server App × List Job)
  unfolding step
  run [] x = some x
  run (e ∷ es) x = step e x >>= run es
