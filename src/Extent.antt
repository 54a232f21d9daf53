-- ===== src/Extent.antt =====
-- Class extent_server (extent_server.h, extent_server.cc) and extent_protocol.h. A string is the list
-- of its bytes; time(NULL) is an argument. An operation returns its status, the output that it
-- assigns, and the new map.
pub mod Laws
pub mod Service
pub mod Calls
pub mod Remote
mod Tests
use ds.Base.{
  ℕ, ◌*◌, ◌-◌, ◌%◌, ◌^◌, List, [], ◌∷◌, ◌++◌, Option, none, some, ltb, ◌==◌, if◌then◌else◌, Map,
  find, insert, length, take, replicate,
}
use ds.Rpc.Codec.{Codec, u32, pair}

-- extent_protocol::xxstatus
pub data Status : Type 0 where
  ok rpcerr noent ioerr fbig : Status

abbrev pub maxextent : ℕ
maxextent = 8192 * 1000

pub record Attr : Type 0 where
  pub atime : ℕ
  pub mtime : ℕ
  pub ctime : ℕ
  pub size : ℕ

pub record ExtentInfo : Type 0 where
  pub attr : Attr
  pub content : List ℕ

abbrev pub Extents : Type 0
Extents = Map ExtentInfo

-- operator<< and operator>> of attr, field by field: the fields as a nested pair.
abbrev pub attr_codec : Codec (ℕ × (ℕ × (ℕ × ℕ)))
attr_codec = pair u32 (pair u32 (pair u32 u32))

-- An attribute and an extent with all times the same.
abbrev pub stamped : ℕ → ℕ → Attr
stamped now size = record { atime = now; mtime = now; ctime = now; size = size }

-- extent_server(): the root directory, extent 1
unfoldable pub extent_server : ℕ → Extents
unfolding insert
extent_server now = insert 1 (record { attr = stamped now 0; content = [] }) []

unfoldable pub put : ℕ → ℕ → List ℕ → Extents → Status × Extents
put now id buf m = if ltb maxextent (length buf) then (fbig, m) else elim (find id m) [
  | none ↦ (ok, insert id (record { attr = stamped now (length buf); content = buf }) m)
  | some e ↦ (ok, insert id (record { attr = stamped now (length buf); content = buf }) m)
]

-- `old` is what `buf` holds before.
unfoldable pub get : ℕ → List ℕ → Extents → Status × List ℕ
get id old m = elim (find id m) [ none ↦ (noent, old) | some e ↦ (ok, e.content) ]

unfoldable pub getattr : ℕ → Attr → Extents → Status × Attr
getattr id old m = elim (find id m) [ none ↦ (noent, old) | some e ↦ (ok, e.attr) ]

-- std::string::resize: zeros are added, or the end is cut off.
abbrev pub resize : ℕ → List ℕ → List ℕ
resize n s = take n s ++ replicate (n - length s) 0

-- setattr on the extent that was found
unfoldable pub set_size : ℕ → ℕ → ExtentInfo → ExtentInfo
set_size now new_size e =
    if new_size == e.attr.size
    then record e { attr = record (e.attr) { atime = now } }
    else record { attr = stamped now new_size; content = resize new_size e.content }

unfoldable pub setattr : ℕ → ℕ → Attr → Extents → Status × Extents
unfolding set_size
setattr now id a m = elim (find id m) [
  | none ↦ (noent, m)
  | some e ↦ (ok, insert id (set_size now a.size e) m)
]

-- remove is not implemented.
unfoldable pub remove : ℕ → Extents → Status × Extents
remove id m = (ioerr, m)
