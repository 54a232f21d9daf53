-- ===== src/Fuse/Replies.antt =====
-- How often a handler of fuse.cc replies.
use ds.Base.{
  ℕ, ◌≡◌, refl, Bool, true, false, ◌&&◌, not, List, [], none, some, arith, ◌==◌, if◌then◌else◌,
  Bool-cases, Option-cases, inl, inr, length, find, Mem,
}
use ds.Extent.{Extents}
use ds.Yfs.{FileInfo, DirInfo, isdir, isfile, getfile, getdir}
use ds.Yfs.Attributes.{
  getfile-none, getfile-some, getdir-none, getdir-some, get_dir_content-none, get_dir_content-some,
}
use ds.Yfs.Directory.{ilookup}
use ds.Fuse.{
  Answer, Garbage, succeeds, found, fuseserver_getattr, fuseserver_setattr, fuseserver_read,
  fuseserver_readdir, fuseserver_lookup, fuseserver_create, fuseserver_mknod, fuseserver_open,
  fuseserver_write, fuseserver_mkdir, fuseserver_unlink, fuseserver_statfs,
}
use ds.Fuse.Requests.{
  Library, Moment, Request, getattr, statfs, readdir, lookup, create, mknod, open_file, read, write,
  setattr, unlink, mkdir, handle,
}

-- Whether the extent is there.
abbrev pub exists : ℕ → Extents → Bool
unfolding find
exists id m = elim (find id m) [ none ↦ false | some _ ↦ true ]

-- The number of replies.
abbrev pub replies : Library → Request → Extents → ℕ
replies l (readdir ino size off) m = if isdir ino && not (exists ino m) then 0 else 1
replies l (lookup parent name) m =
    let inum = ilookup l.n2i parent name m in
    if not (inum == 0) && not (exists inum m) then 2 else 1
replies l (open_file ino) m = if isdir ino then 2 else 1
replies l _ m = 1

succeeds-getfile :
    (inum : ℕ) (info : FileInfo) (m : Extents) → succeeds (getfile inum info m).0 ≡ exists inum m
unfolding exists
succeeds-getfile inum info m = elim (Option-cases (find inum m)) [
  | inl e ↦ rw (getfile-none inum m info e, exists, e) refl
  | inr (x, e) ↦ rw (getfile-some inum m info x e, exists, e) refl
]

succeeds-getdir :
    (inum : ℕ) (info : DirInfo) (m : Extents) → succeeds (getdir inum info m).0 ≡ exists inum m
unfolding exists
succeeds-getdir inum info m = elim (Option-cases (find inum m)) [
  | inl e ↦ rw (getdir-none inum m info e, exists, e) refl
  | inr (x, e) ↦ rw (getdir-some inum m info x e, exists, e) refl
]

length-found :
    (inum : ℕ) (g : Garbage) (m : Extents)
    → length (found inum g m) ≡ (if not (exists inum m) then 2 else 1)
unfolding found
length-found inum g m = elim (Bool-cases (isfile inum)) [
  | inl f ↦ rw (f, succeeds-getfile inum g.info m) (ground arith)
  | inr f ↦ rw (f, succeeds-getdir inum g.dir_info m) (ground arith)
]

length-readdir :
    (dirent_size : ℕ → ℕ) (add_dirent : List ℕ → ℕ → ℕ → List ℕ) (ino size off : ℕ) (fresh : Mem)
    (m : Extents)
    → length (fuseserver_readdir dirent_size add_dirent ino size off fresh m).0
      ≡ (if isdir ino && not (exists ino m) then 0 else 1)
unfolding fuseserver_readdir exists
length-readdir dirent_size add_dirent ino size off fresh m = elim (Bool-cases (isfile ino)) [
  | inl f ↦ rw f refl
  | inr f ↦ elim (Option-cases (find ino m)) [
    | inl e ↦ rw (f, get_dir_content-none ino m [] e, exists, e) refl
    | inr (x, e) ↦ rw (f, get_dir_content-some ino m [] x e, exists, e) refl
  ]
]

length-lookup :
    (n2i : List ℕ → ℕ) (parent : ℕ) (name : List ℕ) (g : Garbage) (m : Extents)
    → length (fuseserver_lookup n2i parent name g m).0 ≡ (
        if not (ilookup n2i parent name m == 0) && not (exists (ilookup n2i parent name m) m)
        then 2
        else 1)
unfolding fuseserver_lookup
length-lookup n2i parent name g m = ground (arith, length-found (ilookup n2i parent name m) g m)

-- A handler that ends replies exactly once, with three exceptions: a readdir of a directory that is not
-- stored does not reply, a lookup of a name whose number is not stored replies twice, and so does an
-- open of a directory.
pub replies_lem :
    (l : Library) (t : Moment) (r : Request) (m n : Extents) (sent : List Answer)
    → handle l t r m ≡ some (sent, n)
    → length sent ≡ replies l r m
unfolding handle fuseserver_getattr fuseserver_setattr fuseserver_read fuseserver_create
    fuseserver_mknod fuseserver_open fuseserver_write fuseserver_mkdir fuseserver_unlink
    fuseserver_statfs
replies_lem l t (getattr ino) m n sent h = ground arith
replies_lem l t statfs m n sent h = ground arith
replies_lem l t (readdir ino size off) m n sent h =
    ground (arith, length-readdir l.dirent_size l.add_dirent ino size off t.fresh m)
replies_lem l t (lookup parent name) m n sent h =
    ground (arith, length-lookup l.n2i parent name t.g m)
replies_lem l t (create parent name) m n sent h = ground arith
replies_lem l t (mknod parent name) m n sent h = ground arith
replies_lem l t (open_file ino) m n sent h = ground arith
replies_lem l t (read ino size off) m n sent h = ground arith
replies_lem l t (write ino buf size off) m n sent h = ground arith
replies_lem l t (setattr ino st_size sets_size) m n sent h = ground arith
replies_lem l t (unlink parent name) m n sent h = ground arith
replies_lem l t (mkdir parent name) m n sent h = ground arith
