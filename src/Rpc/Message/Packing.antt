-- ===== src/Rpc/Message/Packing.antt =====
-- pack_req_header and pack_reply_header (rpc/marshall.h): fresh buffers with a body and a header.
use ds.Base.{
  ℕ, ◌+◌, ◌≤◌, ◌≡◌, refl, sym, ap, ◌∙◌, List, [], ◌++◌, Option, some, ◌>>=◌, bind_assoc, arith,
  length, zero-add, length-append, Mem, slice, slice_congr, slice-append_right, slice-append,
  length-slice,
}
use ds.Rpc.Marshall.{
  Marshall, ReqHeader, ReplyHeader, marshall, pack, pack_req_header, pack_reply_header, str,
}
use ds.Rpc.Marshall.Writes.{Writes, IsValid, Appends, max_fill, memory, Writes-bind, pack-Writes}
use ds.Rpc.Codec.{Codec}
use ds.Rpc.Codec.Laws.{Lawful}
use ds.Rpc.Message.{IsMessage, encode_req, encode_reply}

str-memory : (m : Marshall) → IsValid m → str m ≡ slice (memory m) 0 m.ind
unfolding str
str-memory m v = rw v.allocated

allocated-memory : (m : Marshall) → IsValid m → m.buf ≡ some (memory m)
allocated-memory m v = rw v.allocated

-- The bytes that a writer appended stand from the old head on.
pub Appends-slice :
    (m : Marshall) (bs : List ℕ) (r : Option Marshall)
    → IsValid m
    → (a : Appends m bs r) → slice (memory a.after) m.ind (length bs) ≡ bs
Appends-slice m bs r v a =
    let pre : List ℕ = slice (memory m) 0 m.ind in
    let n : length pre ≡ m.ind = length-slice (memory m) 0 m.ind in
    let whole : slice (memory a.after) 0 (length (pre ++ bs)) ≡ pre ++ bs =
      ap (slice (memory a.after) 0) (omega (arith, length-append pre bs, n, a.moved))
      ∙ sym (str-memory a.after a.valid)
      ∙ a.view
      ∙ ap (λ (t : List ℕ). t ++ bs) (str-memory m v) in
    rw (n, zero-add) at (slice-append_right (memory a.after) 0 pre bs whole)

-- A header writer that starts behind the size of the pdu keeps the body behind the header.
record Packed (m : Marshall) (hdr : List ℕ) (r : Option Marshall) : Type 0 where
  after : Marshall
  done : r ≡ some after
  valid : IsValid after
  same : after.ind ≡ m.ind
  front : slice (memory after) 4 (length hdr) ≡ hdr
  frame : (j : ℕ) → 4 + length hdr ≤ j → memory after j ≡ memory m j

pack_at :
    (m : Marshall) (hdr : List ℕ) (op : Marshall → Option Marshall)
    → Writes hdr op
    → IsValid m
    → 4 + length hdr ≤ m.ind
    → m.ind ≤ max_fill
    → Packed m hdr (op (record m { ind = 4 }) >>= λ a. some (record a { ind = m.ind }))
pack_at m hdr op w v low high =
    let m0 = record m { ind = 4 } in
    let v0 : IsValid m0 = record {
      mem = v.mem;
      allocated = v.allocated;
      within = omega (arith, v.within);
      positive = v.positive;
      bounded = v.bounded;
    } in
    let a = w.run m0 v0 (omega arith) in
    record {
      after = record a.after { ind = m.ind };
      done = rw a.done;
      valid = record {
        mem = a.valid.mem;
        allocated = a.valid.allocated;
        within = omega (arith, v.within, a.grown);
        positive = a.valid.positive;
        bounded = a.valid.bounded;
      };
      same = refl;
      front = Appends-slice m0 hdr (op m0) v0 a;
      frame = a.frame;
    }

req-Writes :
    (h : ReqHeader)
    → Writes (encode_req h) (λ m. pack h.xid m >>= λ m.
        pack h.proc m >>= λ m. pack h.clt_nonce m >>= λ m. pack h.srv_nonce m >>= pack h.xid_rep)
req-Writes h = Writes-bind (pack-Writes h.xid) (
    Writes-bind (pack-Writes h.proc) (
      Writes-bind (pack-Writes h.clt_nonce)
        (Writes-bind (pack-Writes h.srv_nonce) (pack-Writes h.xid_rep))))

pack_req_header-Packed :
    (h : ReqHeader) (m : Marshall)
    → IsValid m
    → 24 ≤ m.ind
    → m.ind ≤ max_fill
    → Packed m (encode_req h) (pack_req_header h m)
unfolding pack_req_header
pack_req_header-Packed h m v low high =
    simp bind_assoc at (pack_at m (encode_req h) _ (req-Writes h) v low high)

pack_reply_header-Packed :
    (h : ReplyHeader) (m : Marshall)
    → IsValid m
    → 24 ≤ m.ind
    → m.ind ≤ max_fill
    → Packed m (encode_reply h) (pack_reply_header h m)
unfolding pack_reply_header
pack_reply_header-Packed h m v low high = simp bind_assoc at (
    pack_at m (encode_reply h) _ (Writes-bind (pack-Writes h.xid) (pack-Writes h.ret)) v
      (omega arith) high)

-- What a packed header and the body behind it make, with what stands between them.
Packed-IsMessage :
    (m : Marshall) (hdr gap body : List ℕ) (r : Option Marshall)
    → (p : Packed m hdr r) → length (hdr ++ gap) ≡ 20
    → gap ≡ slice (memory m) (4 + length hdr) (length gap)
    → m.ind ≡ 24 + length body
    → slice (memory m) 24 (length body) ≡ body
    → IsMessage (memory p.after) m.ind (hdr ++ gap) body
Packed-IsMessage m hdr gap body r p n g i b = record {
  size = i;
  header = n;
  whole =
      slice-append (memory p.after) 4 (hdr ++ gap) body
        (slice-append (memory p.after) 4 hdr gap p.front (
          slice_congr (memory p.after) (memory m) (4 + length hdr) (length gap)
            (λ j l k. p.frame j l)
          ∙ sym g))
        (rw n (
          slice_congr (memory p.after) (memory m) 24 (length body)
            (λ j l k. p.frame j (omega (arith, n, length-append hdr gap)))
          ∙ b));
}

marshall-IsValid : (fresh : Mem) → IsValid (marshall fresh)
unfolding marshall
marshall-IsValid fresh = record {
  mem = fresh;
  allocated = refl;
  within = omega arith;
  positive = omega arith;
  bounded = omega arith;
}

ind-marshall : (fresh : Mem) → (marshall fresh).ind ≡ 24
unfolding marshall
ind-marshall fresh = refl

module _ {A : Type 0} {c : Codec A} {e : A → List ℕ} {ok : A → Type 0} (law : Lawful c e ok) where
  -- A value written to a fresh buffer.
  put_fresh :
      (fresh : Mem) (a : A)
      → 24 + length (e a) ≤ max_fill
      → Appends (marshall fresh) (e a) (c.put a (marshall fresh))
  put_fresh fresh a room =
      (law.writes a).run (marshall fresh) (marshall-IsValid fresh)
        (omega (arith, ind-marshall fresh))

  -- If a value is written by a lawful codec to a fresh buffer, below the limit on its size, and then
  -- the request header is packed, the buffer holds a message with this header and the value behind it.
  pub req-IsMessage :
      (fresh : Mem) (a : A) (h : ReqHeader)
      → 24 + length (e a) ≤ max_fill
      → (m : Marshall) × ((c.put a (marshall fresh) >>= pack_req_header h) ≡ some m)
        × (m.buf ≡ some (memory m))
        × (m.ind ≡ 24 + length (e a))
        × IsMessage (memory m) m.ind (encode_req h) (e a)
  req-IsMessage fresh a h room =
      let w = put_fresh fresh a room in
      let k : w.after.ind ≡ 24 + length (e a) = omega (arith, w.moved, ind-marshall fresh) in
      let p = pack_req_header-Packed h w.after w.valid (omega arith) (omega arith) in
      (
        p.after,
        rw w.done p.done,
        allocated-memory p.after p.valid,
        p.same ∙ k,
        rw (p.same) (
            Packed-IsMessage w.after (encode_req h) [] (e a) _ p refl refl k (
              rw (ind-marshall fresh) at
                (Appends-slice (marshall fresh) (e a) _ (marshall-IsValid fresh) w))),
      )

  -- A fresh buffer with a body and a reply header is a message, with twelve bytes between them.
  pub reply-IsMessage :
      (fresh : Mem) (a : A) (h : ReplyHeader)
      → 24 + length (e a) ≤ max_fill
      → (m : Marshall) × (gap : List ℕ) × ((c.put a (marshall fresh) >>= pack_reply_header h)
          ≡ some m)
        × (m.buf ≡ some (memory m))
        × (m.ind ≡ 24 + length (e a))
        × IsMessage (memory m) m.ind (encode_reply h ++ gap) (e a)
  reply-IsMessage fresh a h room =
      let w = put_fresh fresh a room in
      let k : w.after.ind ≡ 24 + length (e a) = omega (arith, w.moved, ind-marshall fresh) in
      let p = pack_reply_header-Packed h w.after w.valid (omega arith) (omega arith) in
      (
        p.after,
        slice (memory w.after) 12 12,
        rw w.done p.done,
        allocated-memory p.after p.valid,
        p.same ∙ k,
        rw (p.same) (
            Packed-IsMessage w.after (encode_reply h) (slice (memory w.after) 12 12) (e a) _ p refl
              refl k
              (rw (ind-marshall fresh) at
                (Appends-slice (marshall fresh) (e a) _ (marshall-IsValid fresh) w))),
      )

-- A reply with a header alone.
pub status-IsMessage :
    (fresh : Mem) (h : ReplyHeader)
    → (m : Marshall) × (gap : List ℕ) × (pack_reply_header h (marshall fresh) ≡ some m)
      × (m.buf ≡ some (memory m))
      × (m.ind ≡ 24)
      × IsMessage (memory m) m.ind (encode_reply h ++ gap) []
status-IsMessage fresh h =
    let m0 = marshall fresh in
    let k = ind-marshall fresh in
    let p =
      pack_reply_header-Packed h m0 (marshall-IsValid fresh) (omega (arith, k))
        (omega (arith, k)) in
    (
      p.after,
      slice (memory m0) 12 12,
      p.done,
      allocated-memory p.after p.valid,
      p.same ∙ k,
      rw p.same
          (Packed-IsMessage m0 (encode_reply h) (slice (memory m0) 12 12) [] _ p refl refl k refl),
    )
