-- ===== src/Rpc/Marshall.antt =====
-- Class marshall of rpc/marshall.h and its writers in rpc/rpc.cc: a buffer that grows as bytes are
-- written. An `int` or `unsigned int` is its bit pattern, below 2 ^ 32. `none` is a fault: a failed
-- assertion, a write outside the allocated bytes, or a signed overflow of `_capa` or `_ind`.
pub mod Writes
use ds.Base.{
  ℕ, suc, ◌+◌, ◌-◌, ◌*◌, ◌/◌, ◌%◌, ◌^◌, List, [], Option, none, some, ltb, leb, if◌then◌else◌,
  ◌>>=◌, length, Mem, update, copy_at, slice,
}

abbrev pub int_max : ℕ
int_max = 2 ^ 31 - 1

-- DEFAULT_RPC_SZ
abbrev pub default_rpc_sz : ℕ
default_rpc_sz = 1024

-- sizeof(rpc_sz_t)
abbrev pub rpc_sz_size : ℕ
rpc_sz_size = 4

-- RPC_HEADER_SZ without RPC_CHECKSUMMING: the larger of the two headers, and the size of the pdu.
abbrev pub rpc_header_sz : ℕ
rpc_header_sz = 20 + rpc_sz_size

pub record ReqHeader : Type 0 where
  pub xid : ℕ
  pub proc : ℕ
  pub clt_nonce : ℕ
  pub srv_nonce : ℕ
  pub xid_rep : ℕ

pub record ReplyHeader : Type 0 where
  pub xid : ℕ
  pub ret : ℕ

-- `buf` is none for NULL.
pub record Marshall : Type 0 where
  pub buf : Option Mem
  pub capa : ℕ
  pub ind : ℕ

-- The constructor; `fresh` is what malloc's bytes happen to hold.
unfoldable pub marshall : Mem → Marshall
marshall fresh = record { buf = some fresh; capa = default_rpc_sz; ind = rpc_header_sz }

-- realloc to `capa` bytes. The bytes that it adds hold whatever `buf` says there.
unfoldable pub realloc : ℕ → Marshall → Option Marshall
realloc capa m = elim m.buf [
  | none ↦ none
  | some b ↦ if leb capa int_max then some (record m { capa = capa }) else none
]

-- _buf[_ind++] = x
unfoldable pub store : ℕ → Marshall → Option Marshall
store x m = elim m.buf [
  | none ↦ none
  | some b ↦
      if ltb m.ind m.capa
      then some (record m { buf = some (update b m.ind x); ind = suc m.ind })
      else none
]

unfoldable pub rawbyte : ℕ → Marshall → Option Marshall
unfolding realloc store
rawbyte x m = do grown ← if leb m.capa m.ind then realloc (m.capa * 2) m else some m; store x grown

-- memcpy(_buf+_ind, p, n); _ind += n
unfoldable pub copy : List ℕ → Marshall → Option Marshall
copy p m = elim m.buf [
  | none ↦ none
  | some b ↦
      if leb (m.ind + length p) m.capa
      then some (record m { buf = some (copy_at b m.ind p); ind = m.ind + length p })
      else none
]

-- `n` is the length of `p`.
unfoldable pub rawbytes : List ℕ → Marshall → Option Marshall
unfolding realloc copy
rawbytes p m = do
  grown ←
      if ltb m.capa (m.ind + length p)
      then realloc (if ltb (length p) m.capa then 2 * m.capa else m.capa + length p) m
      else some m
  copy p grown

-- operator<< of unsigned char, and of char by its bit pattern.
unfoldable pub put_u8 : ℕ → Marshall → Option Marshall
put_u8 x m = rawbyte (x % 2 ^ 8) m

-- operator<< of unsigned short and short.
unfoldable pub put_u16 : ℕ → Marshall → Option Marshall
put_u16 x m = do m ← rawbyte (x / 2 ^ 8 % 256) m; rawbyte (x % 256) m

-- operator<< of unsigned int and int.
unfoldable pub put_u32 : ℕ → Marshall → Option Marshall
put_u32 x m = do
  m ← rawbyte (x / 2 ^ 24 % 256) m
  m ← rawbyte (x / 2 ^ 16 % 256) m
  m ← rawbyte (x / 2 ^ 8 % 256) m
  rawbyte (x % 256) m

-- operator<< of unsigned long long; the casts to unsigned int cut off the upper half.
unfoldable pub put_u64 : ℕ → Marshall → Option Marshall
put_u64 x m = do m ← put_u32 (x / 2 ^ 32 % 2 ^ 32) m; put_u32 (x % 2 ^ 32) m

-- operator<< of std::string.
unfoldable pub put_string : List ℕ → Marshall → Option Marshall
put_string s m = do m ← put_u32 (length s % 2 ^ 32) m; rawbytes s m

-- pack
unfoldable pub pack : ℕ → Marshall → Option Marshall
pack x m = do
  m ← rawbyte (x / 2 ^ 24 % 256) m
  m ← rawbyte (x / 2 ^ 16 % 256) m
  m ← rawbyte (x / 2 ^ 8 % 256) m
  rawbyte (x % 256) m

-- The header goes in front of what is written already, behind the bytes for the pdu's size.
unfoldable pub pack_req_header : ReqHeader → Marshall → Option Marshall
pack_req_header h m = do
  let saved_sz = m.ind
  m ← pack h.xid (record m { ind = rpc_sz_size })
  m ← pack h.proc m
  m ← pack h.clt_nonce m
  m ← pack h.srv_nonce m
  m ← pack h.xid_rep m
  some (record m { ind = saved_sz })

unfoldable pub pack_reply_header : ReplyHeader → Marshall → Option Marshall
pack_reply_header h m = do
  let saved_sz = m.ind
  m ← pack h.xid (record m { ind = rpc_sz_size })
  m ← pack h.ret m
  some (record m { ind = saved_sz })

-- str(): the contents, header included.
unfoldable pub str : Marshall → List ℕ
str m = elim m.buf [ none ↦ [] | some b ↦ slice b 0 m.ind ]

-- The caller becomes the owner of the bytes.
unfoldable pub take_buf : Marshall → (Option Mem × ℕ) × Marshall
take_buf m = ((m.buf, m.ind), record m { buf = none; ind = 0 })
