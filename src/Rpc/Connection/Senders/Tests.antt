-- ===== src/Rpc/Connection/Senders/Tests.antt =====
-- Concrete runs: two threads that send on one connection (rpc/connection.cc).
use ds.Base.{ℕ, ◌≤◌, ◌≡◌, refl, true, false, [], ◌∷◌, none, some, Mem, slice}
use ds.Rpc.Connection.{wrote, again, is_sending, closeconn}
use ds.Rpc.Connection.Sends.{framed}
use ds.Rpc.Connection.Senders.{
  writing, Senders, enter, resume, complete, wake, writable, Reach, start, next, step, possible,
  senders, phase_at, Act,
}
use ds.Rpc.Connection.Senders.Table.{count, nth, set_at}
use ds.Rpc.Connection.Senders.Holders.{is_holder, pdu}
use ds.Rpc.Connection.Senders.Whole.{senders_lem, is_queued}
use ds.Rpc.Connection.Senders.Wakeups.{closes, roused_lem}
use ds.Rpc.Connection.Senders.Rousing.{sleeps_first, sleeps_second}
use ds.Rpc.Connection.Senders.Stranded.{wakes, closeconn_strands}

abbrev bytes_a : Mem
bytes_a j = 65

abbrev bytes_b : Mem
bytes_b j = 66

-- Where a step leads.
abbrev after : Act → Senders → Senders
after a s = elim (step a s) [ none ↦ s | some (t, new) ↦ t ]

-- Thread 0 sends six bytes, of which three are taken; thread 1 comes to wait.
abbrev first_act : Act
first_act = enter 0 bytes_a 6 (wrote 3)

abbrev second_act : Act
second_act = enter 1 bytes_b 5 (wrote 5)

abbrev one_sends : Senders
one_sends = after first_act (senders 2)

abbrev one_waits : Senders
one_waits = after second_act one_sends

two_threads : Reach (senders 2) one_waits []
unfolding step possible nth set_at
two_threads = next second_act (next {t = one_sends} {new = []} first_act start refl refl) refl refl

-- Thread 0 goes on when the rest is written, and thread 1 sends when it is.
abbrev last_state : Senders
last_state = after (resume 1 (wrote 5)) (after (complete 0) (after (writable (wrote 3)) one_waits))

last_state_out : last_state.conn.out ≡ 0 ∷ 0 ∷ 0 ∷ 6 ∷ 65 ∷ 65 ∷ 0 ∷ 0 ∷ 0 ∷ 5 ∷ 66 ∷ []
unfolding step nth set_at
last_state_out = refl

senders_lem_example :
    (b : Mem) × (sz : ℕ) × (k : ℕ) × (k ≤ sz)
    × (one_waits.conn.out ≡ slice (framed b sz) 0 k)
    × (one_waits.conn.dead ≡ false → one_waits.conn.wpdu.buf ≡ none → k ≡ 0)
    × ((i j : ℕ)
        → is_holder (phase_at i one_waits.threads) ≡ true
        → is_holder (phase_at j one_waits.threads) ≡ true
        → i ≡ j)
    × ((i : ℕ)
        → is_holder (phase_at i one_waits.threads) ≡ true
        → pdu (phase_at i one_waits.threads) ≡ some (b, sz))
senders_lem_example = senders_lem 2 one_waits [] two_threads

roused_lem_example :
    (one_waits.waiters ≡ count is_queued one_waits.threads)
    × ((i : ℕ)
        → sleeps_first (phase_at i one_waits.threads) ≡ true
        → (j : ℕ) × (is_holder (phase_at j one_waits.threads) ≡ true))
    × ((i : ℕ)
        → sleeps_second (phase_at i one_waits.threads) ≡ true
        → is_sending one_waits.conn ≡ true)
unfolding closes two_threads
roused_lem_example = roused_lem 2 one_waits [] two_threads refl

abbrev closed : Senders
closed = record one_waits { conn = (closeconn one_waits.conn).1 }

-- Thread 1 wakes by itself, and finds the connection dead.
abbrev back : Senders
back = after (resume 1 again) (after (wake 1) closed)

wakes_one : Reach closed back []
unfolding step possible nth set_at closeconn
wakes_one =
    next (resume 1 again) (next {t = after (wake 1) closed} {new = []} (wake 1) start refl refl)
      refl refl

closeconn_strands_example : phase_at 0 back.threads ≡ writing true bytes_a 6
unfolding step nth set_at wakes wakes_one closeconn
closeconn_strands_example = closeconn_strands 0 bytes_a 6 one_waits back [] wakes_one refl refl
