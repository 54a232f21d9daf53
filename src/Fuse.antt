-- ===== src/Fuse.antt =====
-- The FUSE handlers (fuse.cc): what each replies, in order, and what it makes of the extents. `rnd` is
-- what random() returns, `now` time(NULL), and a Garbage holds the locals that are read before they
-- are assigned. Sizes and offsets are not negative and fit an int, which yfs_client::write takes.
-- Attributes that no handler names and what is printed are left out.
pub mod Requests
pub mod Replies
pub mod Names
pub mod Pages
pub mod Bytes
pub mod Sizes
mod Tests
use ds.Base.{
  ℕ, suc, ◌+◌, ◌-◌, ◌^◌, Bool, true, false, not, List, [], ◌∷◌, ◌++◌, Option, none, some, ltb, ◌==◌,
  if◌then◌else◌, ◌>>=◌, length, Mem, copy_at, slice,
}
use ds.Extent.{Extents, Attr}
use ds.Yfs.{
  Status, ok, ioerr, FileInfo, DirInfo, isfile, isdir, getfile, getdir, create, read, write,
  set_attr,
}
use ds.Yfs.Directory.{ilookup, get_dir_content}

-- The errors that are replied.
pub data Errno : Type 0 where
  enoent enosys enotdir : Errno

-- st_mode: S_IFREG | 0666, S_IFDIR | 0777, or another
pub data Mode : Type 0 where
  regular directory other : Mode

-- struct stat
pub record Stat : Type 0 where
  pub st_ino : ℕ
  pub st_mode : Mode
  pub st_nlink : ℕ
  pub st_atime : ℕ
  pub st_mtime : ℕ
  pub st_ctime : ℕ
  pub st_size : ℕ

-- struct fuse_entry_param
pub record EntryParam : Type 0 where
  pub ino : ℕ
  pub attr : Stat
  pub attr_timeout : ℕ
  pub entry_timeout : ℕ

pub record Garbage : Type 0 where
  pub st : Stat
  pub e : EntryParam
  pub info : FileInfo
  pub dir_info : DirInfo
  pub a : Attr

-- A call of fuse_reply_err and the like, with what it is given.
pub data Answer : Type 0 where
  reply_err : Errno → Answer
  reply_attr : Stat → Answer
  reply_buf : List ℕ → Answer
  reply_write : ℕ → Answer
  reply_create reply_entry : EntryParam → Answer
  reply_open : Answer
  reply_statfs : ℕ → ℕ → Answer

abbrev pub succeeds : Status → Bool
succeeds ok = true
succeeds ioerr = false

-- bzero(&st, sizeof(st))
abbrev pub zero_stat : Stat
zero_stat = record {
  st_ino = 0;
  st_mode = other;
  st_nlink = 0;
  st_atime = 0;
  st_mtime = 0;
  st_ctime = 0;
  st_size = 0;
}

-- The attributes of a file, of a directory: st_ino and, for a directory, st_size stay.
abbrev pub file_stat : FileInfo → Stat → Stat
file_stat info st = record st {
  st_mode = regular;
  st_nlink = 1;
  st_atime = info.atime;
  st_mtime = info.mtime;
  st_ctime = info.ctime;
  st_size = info.size;
}

abbrev pub dir_stat : DirInfo → Stat → Stat
dir_stat info st = record st {
  st_mode = directory;
  st_nlink = 2;
  st_atime = info.atime;
  st_mtime = info.mtime;
  st_ctime = info.ctime;
}

unfoldable pub getattr : ℕ → Garbage → Extents → Status × Stat
getattr inum g m =
    let st = record zero_stat { st_ino = inum } in
    if isfile inum
    then (let (ret, info) = getfile inum g.info m in
        if succeeds ret then (ok, file_stat info st) else (ret, st))
    else (let (ret, info) = getdir inum g.dir_info m in
        if succeeds ret then (ok, dir_stat info st) else (ret, st))

unfoldable pub fuseserver_getattr : ℕ → Garbage → Extents → List Answer × Extents
unfolding getattr
fuseserver_getattr ino g m =
    let (ret, st) = getattr ino g m in
    (if succeeds ret then reply_attr st ∷ [] else reply_err enoent ∷ [], m)

-- `sets_size` is FUSE_SET_ATTR_SIZE & to_set.
unfoldable pub fuseserver_setattr : ℕ → ℕ → ℕ → Bool → Garbage → Extents → List Answer × Extents
fuseserver_setattr now ino st_size sets_size g m =
    if sets_size
    then (let info = record (g.info) { size = st_size } in
        let (ret, m') = set_attr now ino info g.a m in
        if succeeds ret
        then (let (ret', info') = getfile ino info m' in
            if succeeds ret'
            then (reply_attr (file_stat info' g.st) ∷ [], m')
            else (reply_err enosys ∷ [], m'))
        else (reply_err enosys ∷ [], m'))
    else (reply_err enosys ∷ [], m)

unfoldable pub fuseserver_read : ℕ → ℕ → ℕ → Extents → List Answer × Extents
fuseserver_read ino size off m =
    let (ret, ret_string) = read ino size off [] m in
    (if succeeds ret then reply_buf ret_string ∷ [] else reply_err enosys ∷ [], m)

-- The string that a pointer to bytes is turned into: what is before the first zero. `none`: a read
-- beyond the bytes.
unfoldable pub c_string : List ℕ → Option (List ℕ)
c_string [] = none
c_string (c ∷ s) = if c == 0 then some [] else (c_string s >>= λ t. some (c ∷ t))

-- `buf` is the memory from the pointer on.
unfoldable pub fuseserver_write : ℕ → ℕ → List ℕ → ℕ → ℕ → Extents → Option (List Answer × Extents)
fuseserver_write now ino buf size off m = c_string buf >>= λ s.
    let (ret, m') = write now ino s size off m in
    some (if succeeds ret then reply_write size ∷ [] else reply_err enosys ∷ [], m')

-- random() | 0x80000000
abbrev pub file_id : ℕ → ℕ
file_id rnd = if isfile rnd then rnd else rnd + 2 ^ 31

unfoldable pub fuseserver_createhelper :
    ℕ → ℕ → ℕ → List ℕ → Garbage → Extents → Status × EntryParam × Extents
fuseserver_createhelper now rnd parent name g m =
    let id = file_id rnd in
    let (ret, m') = create now parent id name m in
    if succeeds ret
    then (let (ret', info) = getfile id g.info m' in
        if succeeds ret'
        then (
          ok,
          record (g.e) { ino = id; attr = file_stat info (record (g.e.attr) { st_ino = id }) },
          m',
        )
        else (ret', g.e, m'))
    else (ret, g.e, m')

unfoldable pub fuseserver_create : ℕ → ℕ → ℕ → List ℕ → Garbage → Extents → List Answer × Extents
unfolding fuseserver_createhelper
fuseserver_create now rnd parent name g m =
    let (ret, e, m') = fuseserver_createhelper now rnd parent name g m in
    (if succeeds ret then reply_create e ∷ [] else reply_err enoent ∷ [], m')

unfoldable pub fuseserver_mknod : ℕ → ℕ → ℕ → List ℕ → Garbage → Extents → List Answer × Extents
unfolding fuseserver_createhelper
fuseserver_mknod now rnd parent name g m =
    let (ret, e, m') = fuseserver_createhelper now rnd parent name g m in
    (if succeeds ret then reply_entry e ∷ [] else reply_err enoent ∷ [], m')

-- The reply for an entry, which also follows the one for a failed getfile or getdir.
unfoldable pub found : ℕ → Garbage → Extents → List Answer
found inum g m =
    let e = record (g.e) { ino = inum; attr_timeout = 0; entry_timeout = 0 } in
    if isfile inum
    then (let (ret, info) = getfile inum g.info m in
        let last = reply_entry (record e { attr = file_stat info e.attr }) ∷ [] in
        if succeeds ret then last else reply_err enoent ∷ last)
    else (let (ret, info) = getdir inum g.dir_info m in
        let last = reply_entry (record e { attr = dir_stat info e.attr }) ∷ [] in
        if succeeds ret then last else reply_err enoent ∷ last)

unfoldable pub fuseserver_lookup :
    (List ℕ → ℕ) → ℕ → List ℕ → Garbage → Extents → List Answer × Extents
unfolding found
fuseserver_lookup n2i parent name g m =
    let inum = ilookup n2i parent name m in
    (if inum == 0 then reply_err enoent ∷ [] else found inum g m, m)

pub record Dirbuf : Type 0 where
  pub p : Mem
  pub size : ℕ

-- The bytes of a std::string up to its first zero.
abbrev pub c_str : List ℕ → List ℕ
c_str [] = []
c_str (c ∷ s) = let rest = c_str s in if c == 0 then [] else c ∷ rest

unfoldable pub reply_buf_limited : Mem → ℕ → ℕ → ℕ → Answer
reply_buf_limited buf bufsize off maxsize =
    if ltb off bufsize
    then reply_buf (slice buf off (if ltb (bufsize - off) maxsize then bufsize - off else maxsize))
    else reply_buf []

-- `dirent_size` and `add_dirent` are fuse_dirent_size and the bytes that fuse_add_dirent writes for a
-- name, an i-number and an offset.
module _ (dirent_size : ℕ → ℕ) (add_dirent : List ℕ → ℕ → ℕ → List ℕ) where
  unfoldable pub dirbuf_add : Dirbuf → List ℕ → ℕ → Dirbuf
  dirbuf_add b name ino =
      let size = b.size + dirent_size (length name) in
      record { p = copy_at b.p b.size (add_dirent name ino size); size = size }

  -- The loop, which takes the entries from the back.
  unfoldable pub fill_dirbuf : List (List ℕ × ℕ) → Dirbuf → Dirbuf
  unfolding dirbuf_add
  fill_dirbuf [] b = b
  fill_dirbuf ((name, inum) ∷ rest) b = dirbuf_add (fill_dirbuf rest b) (c_str name) inum

  -- `fresh` is the memory that realloc hands out.
  unfoldable pub fuseserver_readdir : ℕ → ℕ → ℕ → Mem → Extents → List Answer × Extents
  unfolding fill_dirbuf reply_buf_limited
  fuseserver_readdir ino size off fresh m =
      if isdir ino
      then (let (ret, content) = get_dir_content ino [] m in
          if succeeds ret
          then (let b = fill_dirbuf content (record { p = fresh; size = 0 }) in
              (reply_buf_limited b.p b.size off size ∷ [], m))
          else ([], m))
      else (reply_err enotdir ∷ [], m)

unfoldable pub fuseserver_open : ℕ → Extents → List Answer × Extents
fuseserver_open ino m =
    (if isdir ino then reply_err enosys ∷ reply_open ∷ [] else reply_open ∷ [], m)

unfoldable pub fuseserver_mkdir : ℕ → ℕ → ℕ → List ℕ → Garbage → Extents → List Answer × Extents
fuseserver_mkdir now rnd parent name g m =
    let (ret, m') = create now parent rnd name m in
    if succeeds ret
    then (let (ret', info) = getfile rnd g.info m' in
        if succeeds ret'
        then (let st = record (g.e.attr) {
          st_ino = rnd;
          st_mode = directory;
          st_nlink = 2;
          st_atime = info.atime;
          st_mtime = info.mtime;
          st_ctime = info.ctime;
        } in
            (reply_entry (record (g.e) { ino = rnd; attr = st }) ∷ [], m'))
        else (reply_err enosys ∷ [], m'))
    else (reply_err enosys ∷ [], m')

unfoldable pub fuseserver_unlink : ℕ → List ℕ → Extents → List Answer × Extents
fuseserver_unlink parent name m = (reply_err enosys ∷ [], m)

unfoldable pub fuseserver_statfs : Extents → List Answer × Extents
fuseserver_statfs m = (reply_statfs 255 512 ∷ [], m)
