-- ===== src/Extent/Service.antt =====
-- The operations of the extent server as methods of the RPC library (extent_smain.cc), and the
-- operations of extent_client (extent_client.cc), which are remote calls of them. `junk` is what
-- an int holds that is not assigned, for each of them the same.
use ds.Base.{ℕ, List, [], Option, none, some, ◌>>=◌, Mem}
use ds.Rpc.Codec.{Codec, u32, u64, string, pair}
use ds.Rpc.Client.{Client, Begun}
use ds.Rpc.Call.{start_call, finish_call}
use ds.Rpc.Server.{Server}
use ds.Rpc.Server.Handler.{Method}
use ds.Rpc.Server.Setup.{reg, rpcs}
use ds.Extent.{
  Status, ok, rpcerr, noent, ioerr, fbig, Attr, Extents, attr_codec, put, get, getattr, setattr,
  remove, extent_server,
}

-- The enumerators as ints.
abbrev pub code : Status → ℕ
code ok = 0
code rpcerr = 1
code noent = 2
code ioerr = 3
code fbig = 4

-- rpc_numbers
abbrev pub put_proc : ℕ
put_proc = 0x6001

abbrev pub get_proc : ℕ
get_proc = 0x6002

abbrev pub getattr_proc : ℕ
getattr_proc = 0x6003

abbrev pub remove_proc : ℕ
remove_proc = 0x6004

abbrev pub setattr_proc : ℕ
setattr_proc = 0x6005

-- An attribute as its codec has it.
abbrev pub AttrFields : Type 0
AttrFields = ℕ × (ℕ × (ℕ × ℕ))

abbrev pub fields : Attr → AttrFields
fields a = (a.atime, (a.mtime, (a.ctime, a.size)))

abbrev pub attr_of : AttrFields → Attr
attr_of (a, (m, (c, n))) = record { atime = a; mtime = m; ctime = c; size = n }

-- The object whose methods are registered, and the clock that time(NULL) reads.
pub record Store : Type 0 where
  pub now : ℕ
  pub extents : Extents

unfoldable pub put_method : Method Store (ℕ × List ℕ) ℕ
put_method s (id, buf) r =
    let (st, m) = put s.now id buf s.extents in (record s { extents = m }, code st, r)

unfoldable pub get_method : Method Store ℕ (List ℕ)
get_method s id buf = let (st, buf') = get id buf s.extents in (s, code st, buf')

unfoldable pub getattr_method : Method Store ℕ AttrFields
getattr_method s id a = let (st, a') = getattr id (attr_of a) s.extents in (s, code st, fields a')

unfoldable pub remove_method : Method Store ℕ ℕ
remove_method s id r = let (st, m) = remove id s.extents in (record s { extents = m }, code st, r)

unfoldable pub setattr_method : Method Store (ℕ × AttrFields) ℕ
setattr_method s (id, a) r =
    let (st, m) = setattr s.now id (attr_of a) s.extents in (record s { extents = m }, code st, r)

-- The arguments of main's calls of reg.
abbrev pub put_codec : Codec (ℕ × List ℕ)
put_codec = pair u64 string

abbrev pub setattr_codec : Codec (ℕ × AttrFields)
setattr_codec = pair u64 attr_codec

abbrev pub no_attr : ℕ → AttrFields
no_attr junk = (junk, (junk, (junk, junk)))

-- main of extent_smain.cc up to its loop
unfoldable pub extent_smain : ℕ → ℕ → ℕ → Option (Server Store)
unfolding rpcs extent_server
extent_smain random junk now = do
  s ← rpcs random 0 junk (record { now = now; extents = extent_server now })
  s ← reg u64 string junk [] get_proc get_method s
  s ← reg u64 attr_codec junk (no_attr junk) getattr_proc getattr_method s
  s ← reg put_codec u32 (junk, []) junk put_proc put_method s
  s ← reg u64 u32 junk junk remove_proc remove_method s
  reg setattr_codec u32 (junk, no_attr junk) junk setattr_proc setattr_method s

-- The operations of extent_client, with their arguments, and what each gives beside its status.
pub data Op : Type 0 where
  put_op : ℕ → List ℕ → Op
  get_op getattr_op remove_op : ℕ → Op
  setattr_op : ℕ → AttrFields → Op

abbrev pub Output : Op → Type 0
Output (get_op id) = List ℕ
Output (getattr_op id) = AttrFields
Output _ = Unit

abbrev pub proc_of : Op → ℕ
proc_of (put_op id buf) = put_proc
proc_of (get_op id) = get_proc
proc_of (getattr_op id) = getattr_proc
proc_of (remove_op id) = remove_proc
proc_of (setattr_op id a) = setattr_proc

-- The stub up to the first send of its call.
unfoldable pub start_op : Op → Mem → ℕ → Client → Option Begun
start_op (put_op id buf) mem junk cl = start_call put_codec mem (id, buf) junk put_proc cl
start_op (get_op id) mem junk cl = start_call u64 mem id junk get_proc cl
start_op (getattr_op id) mem junk cl = start_call u64 mem id junk getattr_proc cl
start_op (remove_op id) mem junk cl = start_call u64 mem id junk remove_proc cl
start_op (setattr_op id a) mem junk cl = start_call setattr_codec mem (id, a) junk setattr_proc cl

-- Where the stub has an `int r` for a result that it drops.
abbrev pub drop_result : Option (ℕ × ℕ) → Option (ℕ × Output (remove_op 0))
drop_result none = none
drop_result (some (ret, r)) = some (ret, tt)

-- The stub when the reply in the `n` bytes at `b` comes; `old` is what the output held.
unfoldable pub finish_op : (o : Op) → Output o → ℕ → ℕ → Mem → ℕ → Client → Option (ℕ × Output o)
finish_op (put_op id buf) old junk xid b n cl = drop_result (finish_call u32 junk xid b n cl)
finish_op (get_op id) old junk xid b n cl = finish_call string old xid b n cl
finish_op (getattr_op id) old junk xid b n cl = finish_call attr_codec old xid b n cl
finish_op (remove_op id) old junk xid b n cl = drop_result (finish_call u32 junk xid b n cl)
finish_op (setattr_op id a) old junk xid b n cl = drop_result (finish_call u32 junk xid b n cl)
