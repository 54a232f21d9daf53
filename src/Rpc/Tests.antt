-- ===== src/Rpc/Tests.antt =====
-- Concrete runs: the window of replies and the acknowledgements of rpc/rpc.cc, and maps.
use ds.Base.{ℕ, ◌≡◌, refl, true, List, [], ◌∷◌, some, arith, copy_at, Map}
use ds.Rpc.Window.{Reply, done, reply_t, check, fill}
use ds.Rpc.Window.Laws.{expected, check-expected}
use ds.Rpc.Window.Trace.{
  Event, request, reply, run, executions, executions_lem, check-fill, executions_after_ack,
}
use ds.Rpc.Marshall.Writes.{Writes}
use ds.Rpc.Unmarshall.{Unmarshall}
use ds.Rpc.Unmarshall.Reads.{Remains, advance}
use ds.Rpc.Codec.{u8, put_map, get_map}
use ds.Rpc.Codec.Laws.{u8-Lawful}
use ds.Rpc.Codec.Maps.{map_lem}

-- A client asks three times, with the reply in between.
abbrev exchange : List (Event ℕ)
exchange = request 5 0 ∷ request 5 3 ∷ reply 5 (some 9) 4 ∷ request 5 4 ∷ []

executions_example : executions 5 exchange [] ≡ 1
executions_example =
    executions_lem 5 exchange [] tt (omega arith, (omega arith, (tt, (omega arith, tt))))

-- The reply to 5 is there, and a request 6 comes.
abbrev behind : List (Reply ℕ)
behind = run (request 6 0 ∷ []) (fill 5 (some 9) 4 (reply_t 5 ∷ []))

check-fill_example :
    ((check 5 4 behind).state ≡ done) × ((check 5 4 behind).saved ≡ some (some 9, 4))
check-fill_example =
    check-fill 5 4 4 (some 9) (request 6 0 ∷ []) (reply_t 5 ∷ []) (refl, tt) refl (omega arith, tt)
      (tt, tt) (omega arith)

abbrev answered : Reply ℕ
answered = record { xid = 3; cb_present = true; buf = some 9; sz = 4 }

check-expected_example :
    check 5 3 (answered ∷ reply_t 5 ∷ [])
    ≡ expected 5 3 (answered ∷ reply_t 5 ∷ []) (some (reply_t 5))
check-expected_example = check-expected 5 3 answered (reply_t 5 ∷ []) (refl, (refl, tt))

executions_after_ack_example :
    executions {Buf = ℕ} 5 (request 5 0 ∷ request 6 5 ∷ request 5 0 ∷ []) [] ≡ 2
executions_after_ack_example = executions_after_ack 5 6 0 [] tt refl (omega arith) (omega arith)

-- 1, 2 and 4 have come; 3 comes.
abbrev acked : List ℕ
acked = 2 ∷ 4 ∷ []

abbrev bytes : List ℕ
bytes = 0 ∷ 0 ∷ 0 ∷ 2 ∷ 7 ∷ 70 ∷ 8 ∷ 80 ∷ []

abbrev reader : Unmarshall
reader = record { buf = copy_at (λ _. 0) 0 bytes; sz = 8; ind = 0; ok = true }

reader-Remains : Remains reader bytes
reader-Remains = record { good = refl; size = refl; rest = refl }

abbrev two_entries : Map ℕ
two_entries = (7, 70) ∷ (8, 80) ∷ []

map_lem_example :
    Writes bytes (put_map u8 u8 two_entries)
    × (get_map u8 u8 (0, 0) ((5, 50) ∷ []) reader ≡ some (two_entries, advance reader 8))
map_lem_example =
    map_lem u8-Lawful u8-Lawful (0, 0) two_entries ((5, 50) ∷ []) reader []
      ((omega arith, omega arith), ((omega arith, omega arith), tt)) ((omega arith, tt), (tt, tt))
      (omega arith) (omega arith) reader-Remains
