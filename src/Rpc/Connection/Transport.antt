-- ===== src/Rpc/Connection/Transport.antt =====
-- A message of the RPC library from one end of a connection to the other (rpc/connection.cc).
use ds.Base.{
  ℕ, ◌+◌, ◌≤◌, ◌≡◌, ap, ◌∙◌, true, false, List, [], ◌∷◌, ◌++◌, none, some, arith, length,
  length-append, Mem, slice, slice-append_right, slice_congr, slice-add, slice-copy_at,
}
use ds.Rpc.Marshall.Writes.{be32}
use ds.Rpc.Message.{IsMessage}
use ds.Rpc.Connection.{
  Connection, ReadResult, WriteResult, bytes, charbuf, max_pdu, returned, send, receive,
}
use ds.Rpc.Connection.Sends.{Takes, framed, send_lem}
use ds.Rpc.Connection.Receives.{Pieces, receive_lem}

-- The pdu of a message: its size, its header and its body.
pdu-IsMessage :
    (b : Mem) (n : ℕ) (hdr body : List ℕ)
    → IsMessage b n hdr body
    → slice (framed b n) 0 n ≡ be32 n ++ (hdr ++ body)
pdu-IsMessage b n hdr body v =
    let e : n ≡ 4 + length (hdr ++ body) =
      omega (arith, v.size, v.header, length-append hdr body) in
    let tail : slice (framed b n) 4 (length (hdr ++ body)) ≡ hdr ++ body =
      slice_congr (framed b n) b 4 (length (hdr ++ body)) (λ j l m. ground arith) ∙ v.whole in
    ap (slice (framed b n) 0) e
    ∙ slice-add (framed b n) 0 4 (length (hdr ++ body))
    ∙ ap (slice (framed b n) 0 4 ++◌) tail
    ∙ ap (λ a. a ++ (hdr ++ body)) (slice-copy_at b 0 (be32 n))

-- A message that is sent on an idle connection, in whatever pieces the writes take it, and read at the
-- other end, its size at once and the rest in whatever pieces, is given to got_pdu there as a message
-- of the same size with the same header and the same body.
pub transport_lem :
    (b fresh : Mem) (n : ℕ) (hdr body : List ℕ) (w : WriteResult) (ws : List WriteResult)
    (rs : List (ReadResult × ReadResult)) (second : ReadResult) (c d : Connection)
    → IsMessage b n hdr body
    → n ≤ max_pdu
    → c.dead ≡ false
    → c.wpdu.buf ≡ none
    → Takes n (w ∷ ws)
    → d.dead ≡ false
    → d.rpdu ≡ charbuf
    → Pieces (hdr ++ body) ((bytes (be32 n), second) ∷ rs)
    → (c' : Connection) × (m : Mem) × (send w ws b n c ≡ some (returned true c'))
      × (c'.out ≡ c.out ++ (be32 n ++ (hdr ++ body)))
      × (receive ((bytes (be32 n), second) ∷ rs) fresh d ≡ some (d, (m, n) ∷ []))
      × IsMessage m n hdr body
transport_lem b fresh n hdr body w ws rs second c d v small alive idle takes alive' empty pieces =
    let e : n ≡ 4 + length (hdr ++ body) =
      omega (arith, v.size, v.header, length-append hdr body) in
    let s = send_lem w ws b n c alive idle (omega (arith, v.size)) (omega arith) takes in
    let (m, r, whole) =
      receive_lem rs second d fresh (hdr ++ body) alive' empty
        (omega (arith, v.header, length-append hdr body)) (omega (arith, e)) pieces in
    let k : ℕ = 4 + length (hdr ++ body) in
    let long : length (be32 k ++ (hdr ++ body)) ≡ k = omega arith in
    let body_at = slice-append_right m 0 (be32 k) (hdr ++ body) (ap (slice m 0) long ∙ whole) in
    (
      record c { wpdu = charbuf; out = c.out ++ slice (framed b n) 0 n },
      m,
      s,
      ap (c.out ++◌) (pdu-IsMessage b n hdr body v),
      rw (← e) at r,
      record { size = v.size; header = v.header; whole = body_at },
    )
