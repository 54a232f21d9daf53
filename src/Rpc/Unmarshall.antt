-- ===== src/Rpc/Unmarshall.antt =====
-- Class unmarshall of rpc/marshall.h and its readers in rpc/rpc.cc. A reader returns the value that
-- it assigns and the new state. Bytes lie below 256; `|` of disjoint fields is written `+`.
pub mod Reads
use ds.Base.{
  ℕ, suc, ◌+◌, ◌-◌, ◌*◌, ◌%◌, ◌^◌, Bool, true, false, ◌&&◌, List, Option, none, some, ltb, leb,
  ◌==◌, if◌then◌else◌, Mem, slice,
}
use ds.Rpc.Marshall.{rpc_sz_size, rpc_header_sz, ReqHeader, ReplyHeader}

-- `_buf` is NULL only while `sz` is 0; the bytes below `sz` alone are ever read.
pub record Unmarshall : Type 0 where
  pub buf : Mem
  pub sz : ℕ
  pub ind : ℕ
  pub ok : Bool

-- unmarshall()
abbrev pub blank : Unmarshall
blank = record { buf = λ _. 0; sz = 0; ind = 0; ok = false }

-- unmarshall(char *b, int sz)
abbrev pub unmarshall : Mem → ℕ → Unmarshall
unmarshall b sz = record { buf = b; sz = sz; ind = 0; ok = true }

-- A `char` that becomes an `unsigned int` is sign-extended.
abbrev pub char_to_uint : ℕ → ℕ
char_to_uint c = if ltb c 128 then c else c + (2 ^ 32 - 256)

unfoldable pub rawbyte : Unmarshall → ℕ × Unmarshall
rawbyte u =
    if leb u.sz u.ind
    then (0, record u { ok = false })
    else (char_to_uint (u.buf u.ind), record u { ind = suc u.ind })

-- okdone
unfoldable pub okdone : Unmarshall → Bool
okdone u = u.ok && u.ind == u.sz

-- operator>> of unsigned char, and of char by its bit pattern.
unfoldable pub get_u8 : Unmarshall → ℕ × Unmarshall
get_u8 u = let (b, v) = rawbyte u in (b % 2 ^ 8, v)

-- operator>> of unsigned short and short.
unfoldable pub get_u16 : Unmarshall → ℕ × Unmarshall
get_u16 u =
    let (b1, u1) = rawbyte u in let (b0, u0) = rawbyte u1 in (b1 % 256 * 2 ^ 8 + b0 % 256, u0)

-- operator>> of unsigned int and int.
unfoldable pub get_u32 : Unmarshall → ℕ × Unmarshall
get_u32 u =
    let (b3, u3) = rawbyte u in
    let (b2, u2) = rawbyte u3 in
    let (b1, u1) = rawbyte u2 in
    let (b0, u0) = rawbyte u1 in
    (b3 % 256 * 2 ^ 24 + b2 % 256 * 2 ^ 16 + b1 % 256 * 2 ^ 8 + b0 % 256, u0)

-- operator>> of unsigned long long.
unfoldable pub get_u64 : Unmarshall → ℕ × Unmarshall
get_u64 u = let (h, u1) = get_u32 u in let (l, u0) = get_u32 u1 in (l + h * 2 ^ 32, u0)

-- rawbytes(s, n), with `s` the old value of the string. The test adds `_ind` and `n` as unsigned
-- ints, so the sum wraps; `none` is a read beyond the `sz` bytes of the buffer.
unfoldable pub rawbytes : List ℕ → ℕ → Unmarshall → Option (List ℕ × Unmarshall)
rawbytes s n u =
    if ltb u.sz ((u.ind + n) % 2 ^ 32)
    then some (s, record u { ok = false })
    else if leb (u.ind + n) u.sz
    then some (slice u.buf u.ind n, record u { ind = u.ind + n })
    else none

-- operator>> of std::string, with `s` its old value.
unfoldable pub get_string : List ℕ → Unmarshall → Option (List ℕ × Unmarshall)
get_string s u = let (n, v) = get_u32 u in if v.ok then rawbytes s n v else some (s, v)

-- unpack
unfoldable pub unpack : Unmarshall → ℕ × Unmarshall
unpack u =
    let (b3, u3) = rawbyte u in
    let (b2, u2) = rawbyte u3 in
    let (b1, u1) = rawbyte u2 in
    let (b0, u0) = rawbyte u1 in
    (b3 % 256 * 2 ^ 24 + b2 % 256 * 2 ^ 16 + b1 % 256 * 2 ^ 8 + b0 % 256, u0)

unfoldable pub unpack_req_header : Unmarshall → ReqHeader × Unmarshall
unpack_req_header u =
    let (xid, u1) = unpack (record u { ind = rpc_sz_size }) in
    let (proc, u2) = unpack u1 in
    let (clt_nonce, u3) = unpack u2 in
    let (srv_nonce, u4) = unpack u3 in
    let (xid_rep, u5) = unpack u4 in
    (
      record {
        xid = xid;
        proc = proc;
        clt_nonce = clt_nonce;
        srv_nonce = srv_nonce;
        xid_rep = xid_rep;
      },
      record u5 { ind = rpc_header_sz },
    )

unfoldable pub unpack_reply_header : Unmarshall → ReplyHeader × Unmarshall
unpack_reply_header u =
    let (xid, u1) = unpack (record u { ind = rpc_sz_size }) in
    let (ret, u2) = unpack u1 in
    (record { xid = xid; ret = ret }, record u2 { ind = rpc_header_sz })

-- take_in: `u` takes the contents of `another`, which is left with none.
unfoldable pub take_in : Unmarshall → Unmarshall → Unmarshall × Unmarshall
take_in u another = (
  record {
    buf = another.buf;
    sz = another.sz;
    ind = rpc_header_sz;
    ok = leb rpc_header_sz another.sz;
  },
  record another { sz = 0; ind = 0 },
)
