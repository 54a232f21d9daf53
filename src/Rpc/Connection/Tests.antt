-- ===== src/Rpc/Connection/Tests.antt =====
-- Concrete runs: one connection (rpc/connection.cc).
use ds.Base.{
  ℕ, ◌≡◌, refl, true, List, [], ◌∷◌, ◌++◌, some, arith, replicate, Mem, copy_at, false, none, ◌==◌,
  ◌||◌, if◌then◌else◌, map, Map, insert, find,
}
use ds.Rpc.Marshall.Writes.{be32}
use ds.Rpc.Message.{IsMessage}
use ds.Rpc.Connection.{
  Connection, connection, ReadResult, bytes, failed, wrote, again, returned, send, receive,
}
use ds.Rpc.Connection.Accepting.{
  Round, accepted, process_accept, interrupted, readable, listening, accept_conn, close_all,
}
use ds.Rpc.Connection.Accepting.Listening.{has, accepts, closed, tcpsconn_lem}
use ds.Rpc.Connection.Transport.{transport_lem}

-- A header, and a body of two bytes.
abbrev hdr : List ℕ
hdr = replicate 20 7

abbrev body : List ℕ
body = 65 ∷ 66 ∷ []

abbrev message : Mem
message = copy_at (λ _. 0) 4 (hdr ++ body)

-- The rest in two pieces, with an event in between that finds nothing.
abbrev pieces : List (ReadResult × ReadResult)
pieces = (bytes [], failed true) ∷ (bytes [], bytes (66 ∷ [])) ∷ []

message-IsMessage : IsMessage message 26 hdr body
message-IsMessage = record { size = refl; header = refl; whole = refl }

transport_lem_example :
    (c' : Connection) × (m : Mem) × (send (wrote 3) (again ∷ wrote 23 ∷ []) message 26 connection
      ≡ some (returned true c'))
    × (c'.out ≡ be32 26 ++ (hdr ++ body))
    × (receive ((bytes (be32 26), bytes (hdr ++ 65 ∷ [])) ∷ pieces) (λ _. 0) connection
        ≡ some (connection, (m, 26) ∷ []))
    × IsMessage m 26 hdr body
transport_lem_example =
    transport_lem message (λ _. 0) 26 hdr body (wrote 3) (again ∷ wrote 23 ∷ []) pieces
      (bytes (hdr ++ 65 ∷ [])) connection connection message-IsMessage (omega arith) refl refl
      (omega arith, (omega arith, refl)) refl refl
      (66 ∷ [], refl, omega arith, (omega arith, ([], refl, omega arith, refl)))

-- Descriptors 7 and 8 are accepted; meanwhile the first connection dies, but keeps two references.
abbrev dies : ℕ → Connection → Connection
dies fd c = if fd == 7 then record c { dead = true; refno = 2 } else c

abbrev rounds : List Round
rounds =
    (readable false true, some 7, λ _ c. c)
    ∷ (interrupted, none, dies)
    ∷ (readable false true, some 8, λ _ c. c)
    ∷ []

abbrev two_conns : Map Connection
two_conns = (7, record connection { dead = true; refno = 2 }) ∷ (8, connection) ∷ []

tcpsconn_lem_example :
    ((j : ℕ) → has j two_conns ≡ (accepts rounds j || false))
    × (close_all two_conns ≡ some (map closed two_conns))
    × (process_accept (some 9) two_conns ≡ some (accepted (insert 9 connection two_conns)))
unfolding find accept_conn insert
tcpsconn_lem_example =
    tcpsconn_lem rounds [] (listening two_conns) 9 refl (omega arith, (omega arith, tt))
