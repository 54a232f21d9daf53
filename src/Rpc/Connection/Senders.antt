-- ===== src/Rpc/Connection/Senders.antt =====
-- connection::send by several threads at once (rpc/connection.cc), with the callbacks and closeconn.
-- A step is what runs between two points at which the mutex m_ is free: the two condition variables,
-- and block_remove_fd behind a failed write. A waiting thread may wake by itself. `none` is a fault,
-- as in the connection. A callback may come at any time; what the poll manager adds is its own.
pub mod Table
pub mod Writing
pub mod Stream
pub mod Holders
pub mod Attempts
pub mod Whole
pub mod Rousing
pub mod Wakeups
pub mod Stranded
mod Tests
use ds.Base.{
  ℕ, ◌+◌, ◌-◌, ◌^◌, Bool, true, false, ◌&&◌, ◌||◌, not, List, [], ◌∷◌, ◌++◌, map, Option, none,
  some, ltb, leb, ◌==◌, if◌then◌else◌, ◌>>=◌, Mem, ◌≡◌, length, replicate,
}
use ds.Rpc.Connection.{
  Connection, connection, ReadResult, WriteResult, wrote, again, broken, refused, busy, going,
  send_start, is_sending, send_finish, write_cb, read_cb, closeconn,
}
use ds.Rpc.Connection.Senders.Table.{nth, set_at}

-- Where a thread stands: not in send; in the wait for send_wait_, or in the one for send_complete_,
-- and whether it sleeps; in block_remove_fd. A thread in send has its arguments.
pub data Phase : Type 0 where
  outside : Phase
  queued writing : Bool → Mem → ℕ → Phase
  removing : Mem → ℕ → Phase

pub record Senders : Type 0 where
  pub conn : Connection
  pub waiters : ℕ
  pub threads : List Phase

pub data Act : Type 0 where
  enter : ℕ → Mem → ℕ → WriteResult → Act
  resume : ℕ → WriteResult → Act
  complete removed wake : ℕ → Act
  writable : WriteResult → Act
  readable : ReadResult → ReadResult → Mem → Bool → Act
  close : Act

abbrev pub phase_at : ℕ → List Phase → Phase
phase_at i ps = nth outside i ps

-- pthread_cond_broadcast(&send_wait_)
abbrev pub rouse : Phase → Phase
rouse (queued asleep b sz) = queued false b sz
rouse p = p

-- pthread_cond_signal(&send_complete_), which wakes a thread that sleeps there, if there is one
abbrev pub signal : List Phase → List Phase
signal [] = []
signal (writing true b sz ∷ ps) = writing false b sz ∷ ps
signal (p ∷ ps) = p ∷ signal ps

-- What a step leaves, and the pdus of the calls of send that return true in it.
abbrev pub Next : Type 0
Next = Senders × List (Mem × ℕ)

-- send behind its second wait, by thread `i`
unfoldable pub finish : ℕ → Mem → ℕ → Senders → Next
unfolding send_finish
finish i b sz s =
    let (ret, c) = send_finish s.conn in
    let threads = set_at i outside s.threads in
    (
      record s { conn = c; threads = if ltb 0 s.waiters then map rouse threads else threads },
      if ret then (b, sz) ∷ [] else [],
    )

-- send from the test of its first while on; `others` is waiters_ without this thread.
unfoldable pub attempt : ℕ → Mem → ℕ → WriteResult → ℕ → Senders → Option Next
unfolding send_start is_sending finish
attempt i b sz w others s = send_start w b sz s.conn >>= λ r. elim r [
  | refused ↦ some (record s { waiters = others; threads = set_at i outside s.threads }, [])
  | busy ↦
      some (record s { waiters = others + 1; threads = set_at i (queued true b sz) s.threads }, [])
  | going c ↦
      let s' : Senders = record s { conn = c; waiters = others } in
      if c.dead
      then some (record s' { threads = set_at i (removing b sz) s.threads }, [])
      else if is_sending c
      then some (record s' { threads = set_at i (writing true b sz) s.threads }, [])
      else some (finish i b sz s')
]

-- A thread that was woken in its first wait or its second, comes back from block_remove_fd, or wakes
-- by itself.
abbrev pub resume_at : ℕ → WriteResult → Senders → Phase → Option Next
resume_at i w s (queued asleep b sz) = attempt i b sz w (s.waiters - 1) s
resume_at i w s _ = some (s, [])

abbrev pub complete_at : ℕ → Senders → Phase → Next
complete_at i s (writing asleep b sz) =
    if is_sending s.conn
    then (record s { threads = set_at i (writing true b sz) s.threads }, [])
    else finish i b sz s
complete_at i s _ = (s, [])

abbrev pub removed_at : ℕ → Senders → Phase → Next
removed_at i s (removing b sz) = finish i b sz s
removed_at i s _ = (s, [])

abbrev pub awake : Phase → Phase
awake (queued asleep b sz) = queued false b sz
awake (writing asleep b sz) = writing false b sz
awake p = p

-- Whether write_cb, which has made `c'` of `c`, comes to its pthread_cond_signal.
abbrev pub write_cb_signals : Connection → Connection → Bool
write_cb_signals c c' = not (c.wpdu.sz == 0) && (c'.dead || not (ltb c'.wpdu.solong c'.wpdu.sz))

unfoldable pub step : Act → Senders → Option Next
unfolding attempt finish is_sending write_cb read_cb closeconn
step (enter i b sz w) s = attempt i b sz w s.waiters s
step (resume i w) s = resume_at i w s (phase_at i s.threads)
step (complete i) s = some (complete_at i s (phase_at i s.threads))
step (removed i) s = some (removed_at i s (phase_at i s.threads))
step (wake i) s =
    some (record s { threads = set_at i (awake (phase_at i s.threads)) s.threads }, [])
step (writable w) s = write_cb w s.conn >>= λ c. some (
  record s {
    conn = c;
    threads = if write_cb_signals s.conn c then signal s.threads else s.threads;
  },
  [],
)
step (readable first second fresh consumed) s =
    read_cb first second fresh consumed s.conn >>= λ (c, pdu). some (
      record s {
        conn = c;
        threads = if not s.conn.dead && c.dead then signal s.threads else s.threads;
      },
      [],
    )
step close s = some (record s { conn = (closeconn s.conn).1 }, [])

-- write takes at most what it is given.
abbrev pub fits : WriteResult → ℕ → Bool
fits (wrote n) r = leb n r
fits again r = true
fits broken r = true

-- Whether the step can come: its thread is there and at that point, or write could answer so.
abbrev pub can_enter : WriteResult → ℕ → Phase → Bool
can_enter w sz outside = ltb sz (2 ^ 31) && fits w sz
can_enter w sz _ = false

abbrev pub can_resume : WriteResult → Phase → Bool
can_resume w (queued asleep b sz) = not asleep && fits w sz
can_resume w _ = false

abbrev pub can_complete : Phase → Bool
can_complete (writing asleep b sz) = not asleep
can_complete _ = false

abbrev pub can_removed : Phase → Bool
can_removed (removing b sz) = true
can_removed _ = false

unfoldable pub possible : Act → Senders → Bool
possible (enter i b sz w) s = ltb i (length s.threads) && can_enter w sz (phase_at i s.threads)
possible (resume i w) s = can_resume w (phase_at i s.threads)
possible (complete i) s = can_complete (phase_at i s.threads)
possible (removed i) s = can_removed (phase_at i s.threads)
possible (wake i) s = ltb i (length s.threads)
possible (writable w) s = fits w (s.conn.wpdu.sz - s.conn.wpdu.solong)
possible (readable first second fresh consumed) s = true
possible close s = true

-- The states that steps lead to, with the pdus of the calls that returned true, in their order.
pub data Reach (s0 : Senders) : Senders → List (Mem × ℕ) → Type 0 where
  start : Reach s0 s0 []
  next :
      {s t : Senders} {sent new : List (Mem × ℕ)} (a : Act)
      → Reach s0 s sent
      → possible a s ≡ true
      → step a s ≡ some (t, new)
      → Reach s0 t (sent ++ new)

-- A fresh connection and `n` threads.
abbrev pub senders : ℕ → Senders
senders n = record { conn = connection; waiters = 0; threads = replicate n outside }
