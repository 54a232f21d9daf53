-- ===== src/Yfs.antt =====
-- Class yfs_client (yfs_client.h, yfs_client.cc): files and directories as extents. A call of the
-- extent client is the extent server's operation on the shared map; time(NULL) is an argument. What
-- is printed is left out. A directory's content is name:id:name:id and so on.
pub mod Files
pub mod Directory
pub mod Lookup
pub mod Listing
pub mod Numbers
pub mod Attributes
mod Tests
use ds.Base.{
  ℕ, zero, suc, ◌+◌, ◌-◌, ◌*◌, ◌/◌, ◌%◌, ◌^◌, Bool, true, false, not, List, [], ◌∷◌, ◌++◌, Option,
  none, some, ltb, leb, ◌==◌, if◌then◌else◌, length, take, drop,
}
use ds.Extent.{Extents, Attr, put, get, getattr, setattr}
use ds.Extent

-- yfs_client::xxstatus, the values that are used
pub data Status : Type 0 where
  ok ioerr : Status

pub record FileInfo : Type 0 where
  pub size : ℕ
  pub atime : ℕ
  pub mtime : ℕ
  pub ctime : ℕ

pub record DirInfo : Type 0 where
  pub atime : ℕ
  pub mtime : ℕ
  pub ctime : ℕ

abbrev pub is_ok : Extent.Status → Bool
is_ok Extent.ok = true
is_ok _ = false

abbrev pub no_attr : Attr
no_attr = record { atime = 0; mtime = 0; ctime = 0; size = 0 }

-- inum & 0x80000000: bit 31
abbrev pub isfile : ℕ → Bool
isfile inum = inum / 2 ^ 31 % 2 == 1

abbrev pub isdir : ℕ → Bool
isdir inum = not (isfile inum)

-- filename: the decimal digits of a number, on fuel; twenty digits are enough for 64 bits.
unfoldable pub digits : ℕ → ℕ → List ℕ
digits zero n = []
digits (suc fuel) n =
    let rest = digits fuel (n / 10) in
    if ltb n 10 then (48 + n) ∷ [] else rest ++ (48 + n % 10) ∷ []

unfoldable pub filename : ℕ → List ℕ
unfolding digits
filename inum = digits 20 inum

-- a char, which is signed, as an unsigned long long
abbrev pub widen : ℕ → ℕ
widen c = if ltb c 128 then c else c + (2 ^ 64 - 256)

-- stringToid: no check that the characters are digits; unsigned long long wraps.
unfoldable pub string_to_id : ℕ → List ℕ → ℕ
string_to_id ret [] = ret
string_to_id ret (c ∷ s) = string_to_id ((ret * 10 + widen c + (2 ^ 64 - 48)) % 2 ^ 64) s

unfoldable pub getfile : ℕ → FileInfo → Extents → Status × FileInfo
getfile inum fin m =
    let (r, a) = getattr inum no_attr m in
    if is_ok r
    then (ok, record { size = a.size; atime = a.atime; mtime = a.mtime; ctime = a.ctime })
    else (ioerr, fin)

unfoldable pub getdir : ℕ → DirInfo → Extents → Status × DirInfo
getdir inum din m =
    let (r, a) = getattr inum no_attr m in
    if is_ok r
    then (ok, record { atime = a.atime; mtime = a.mtime; ctime = a.ctime })
    else (ioerr, din)

-- the entry that create appends
abbrev pub with_entry : List ℕ → List ℕ → ℕ → List ℕ
with_entry dir name inum = elim dir [
  | [] ↦ name ++ (b':' ∷ filename inum)
  | c ∷ rest ↦ (c ∷ rest) ++ (b':' ∷ (name ++ (b':' ∷ filename inum)))
]

-- the last put of create
unfoldable pub link : ℕ → ℕ → ℕ → List ℕ → List ℕ → Extents → Status × Extents
link now parent inum name dir m =
    let (r, m') = put now parent (with_entry dir name inum) m in (if is_ok r then ok else ioerr, m')

unfoldable pub create : ℕ → ℕ → ℕ → List ℕ → Extents → Status × Extents
unfolding link
create now parent inum name m =
    let (r, dir) = get parent [] m in
    if is_ok r
    then (if isfile inum
        then (let (r', m') = put now inum [] m in
            if is_ok r' then link now parent inum name dir m' else (ioerr, m'))
        else link now parent inum name dir m)
    else (ioerr, m)

-- read; sizes and offsets are not negative, so that the test for that never fires.
unfoldable pub read : ℕ → ℕ → ℕ → List ℕ → Extents → Status × List ℕ
read inum read_size offset old m =
    let (r, content) = get inum [] m in
    if is_ok r
    then if leb (length content) offset
      then (ok, [])
      else (ok, take read_size (drop offset content))
    else (ioerr, old)

-- what write makes of the content: the bytes go to the end if `off` is not inside it
abbrev pub written : List ℕ → List ℕ → ℕ → ℕ → List ℕ
written content buf size off =
    if leb (length content) off
    then content ++ take size buf
    else take off content ++ take size buf ++ drop (off + size) content

unfoldable pub write : ℕ → ℕ → List ℕ → ℕ → ℕ → Extents → Status × Extents
write now file buf size off m =
    let (r, content) = get file [] m in
    if is_ok r
    then (let (r', m') = put now file (written content buf size off) m in
        (if is_ok r' then ok else ioerr, m'))
    else (ioerr, m)

-- setattr: of the attributes only the size is sent on; `junk` are the others.
unfoldable pub set_attr : ℕ → ℕ → FileInfo → Attr → Extents → Status × Extents
set_attr now file fin junk m =
    let (r, m') = setattr now file (record junk { size = fin.size % 2 ^ 32 }) m in
    (if is_ok r then ok else ioerr, m')
