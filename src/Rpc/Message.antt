-- ===== src/Rpc/Message.antt =====
-- Whole messages: a header that pack_req_header or pack_reply_header puts in front of a body, and
-- the readers unpack_req_header and unpack_reply_header (rpc/marshall.h).
pub mod Packing
use ds.Base.{
  ℕ, ◌+◌, ◌^◌, ◌≤◌, ◌<◌, ◌≡◌, refl, sym, ap, ◌∙◌, List, [], ◌++◌, Option, some, ◌>>=◌, bind_assoc,
  arith, length, zero-add, length-append, append-nil, Mem, slice, slice_congr, slice-append_right,
  slice-append, length-slice,
}
use ds.Rpc.Marshall.{
  Marshall, ReqHeader, ReplyHeader, marshall, pack, pack_req_header, pack_reply_header, str,
}
use ds.Rpc.Marshall.Writes.{
  Writes, IsValid, Appends, max_fill, memory, Writes-bind, be32, pack-Writes,
}
use ds.Rpc.Codec.{Codec}
use ds.Rpc.Codec.Laws.{Lawful}
use ds.Rpc.Unmarshall.{unmarshall, unpack_req_header, unpack_reply_header}
use ds.Rpc.Unmarshall.Reads.{Remains, advance, advance-Remains, unpack-be32}

-- A message of `n` bytes: the size of the pdu, twenty bytes of header, and the body.
pub record IsMessage (b : Mem) (n : ℕ) (hdr body : List ℕ) : Type 0 where
  pub size : n ≡ 24 + length body
  pub header : length hdr ≡ 20
  pub whole : slice b 4 (length (hdr ++ body)) ≡ hdr ++ body

abbrev pub encode_req : ReqHeader → List ℕ
encode_req h =
    be32 h.xid ++ (be32 h.proc ++ (be32 h.clt_nonce ++ (be32 h.srv_nonce ++ be32 h.xid_rep)))

abbrev pub encode_reply : ReplyHeader → List ℕ
encode_reply h = be32 h.xid ++ be32 h.ret

-- Every field is an int.
pub record ReqInRange (h : ReqHeader) : Type 0 where
  pub xid : h.xid < 2 ^ 32
  pub proc : h.proc < 2 ^ 32
  pub clt_nonce : h.clt_nonce < 2 ^ 32
  pub srv_nonce : h.srv_nonce < 2 ^ 32
  pub xid_rep : h.xid_rep < 2 ^ 32

IsMessage-Remains :
    (b : Mem) (n : ℕ) (hdr body : List ℕ)
    → IsMessage b n hdr body
    → Remains (record (unmarshall b n) { ind = 4 }) (hdr ++ body)
IsMessage-Remains b n hdr body g = record {
  good = refl;
  size = omega (arith, g.size, g.header, length-append hdr body);
  rest = g.whole;
}

-- In a message whose header was packed from ints, unpack_req_header finds that header, and leaves the
-- reader in order and at the body.
pub unpack_req_header_lem :
    (b : Mem) (n : ℕ) (h : ReqHeader) (body : List ℕ)
    → ReqInRange h
    → IsMessage b n (encode_req h) body
    → (unpack_req_header (unmarshall b n) ≡ (h, record (unmarshall b n) { ind = 24 }))
      × Remains (record (unmarshall b n) { ind = 24 }) body
unfolding unpack_req_header
unpack_req_header_lem b n h body k g =
    let u0 = record (unmarshall b n) { ind = 4 } in
    let l4 : List ℕ = be32 h.xid_rep ++ body in
    let l3 : List ℕ = be32 h.srv_nonce ++ l4 in
    let l2 : List ℕ = be32 h.clt_nonce ++ l3 in
    let l1 : List ℕ = be32 h.proc ++ l2 in
    let r0 = IsMessage-Remains b n (encode_req h) body g in
    let r1 = advance-Remains u0 (be32 h.xid) l1 r0 in
    let r2 = advance-Remains (advance u0 4) (be32 h.proc) l2 r1 in
    let r3 = advance-Remains (advance (advance u0 4) 4) (be32 h.clt_nonce) l3 r2 in
    let r4 = advance-Remains (advance (advance (advance u0 4) 4) 4) (be32 h.srv_nonce) l4 r3 in
    (
      rw (
        unpack-be32 u0 h.xid l1 k.xid r0,
        unpack-be32 (advance u0 4) h.proc l2 k.proc r1,
        unpack-be32 (advance (advance u0 4) 4) h.clt_nonce l3 k.clt_nonce r2,
        unpack-be32 (advance (advance (advance u0 4) 4) 4) h.srv_nonce l4 k.srv_nonce r3,
        unpack-be32 (advance (advance (advance (advance u0 4) 4) 4) 4) h.xid_rep body k.xid_rep r4,
      ),
      advance-Remains u0 (encode_req h) body r0,
    )

pub unpack_reply_header_lem :
    (b : Mem) (n : ℕ) (h : ReplyHeader) (gap body : List ℕ)
    → h.xid < 2 ^ 32
    → h.ret < 2 ^ 32
    → IsMessage b n (encode_reply h ++ gap) body
    → (unpack_reply_header (unmarshall b n) ≡ (h, record (unmarshall b n) { ind = 24 }))
      × Remains (record (unmarshall b n) { ind = 24 }) body
unfolding unpack_reply_header
unpack_reply_header_lem b n h gap body p q g =
    let u0 = record (unmarshall b n) { ind = 4 } in
    let r0 = IsMessage-Remains b n (encode_reply h ++ gap) body g in
    let r1 = advance-Remains u0 (be32 h.xid) (be32 h.ret ++ (gap ++ body)) r0 in
    (
      rw (
        unpack-be32 u0 h.xid (be32 h.ret ++ (gap ++ body)) p r0,
        unpack-be32 (advance u0 4) h.ret (gap ++ body) q r1,
      ),
      rw g.header at (advance-Remains u0 (encode_reply h ++ gap) body r0),
    )

module _ {A : Type 0} {c : Codec A} {e : A → List ℕ} {ok : A → Type 0} (law : Lawful c e ok) where
  -- The body behind a header is read back.
  pub body_lem :
      (b : Mem) (n : ℕ) (a old : A)
      → ok a
      → n < 2 ^ 31
      → Remains (record (unmarshall b n) { ind = 24 }) (e a)
      → c.get old (record (unmarshall b n) { ind = 24 })
        ≡ some (a, record (unmarshall b n) { ind = n })
  body_lem b n a old k small r =
      let u = record (unmarshall b n) { ind = 24 } in
      let r0 : Remains u (e a ++ []) = rw (append-nil (e a)) r in
      ground (arith, law.reads a old u [] k small r0, r.size)
