-- ===== src/Fuse/Sizes.antt =====
-- The sizes that the extents record, over the requests of a session (fuse.cc).
use ds.Base.{ℕ, ◌≡◌, List, [], ◌∷◌, some, Bool, arith, Option-cases, inl, inr, Mem}
use ds.Extent.{Extents, Attr, put, get}
use ds.Extent.Laws.{IsValid, put-IsValid, setattr-IsValid}
use ds.Yfs.{FileInfo, create, link, write, written, set_attr}
use ds.Fuse.{
  Answer, Garbage, c_string, file_id, fuseserver_createhelper, fuseserver_create,
  fuseserver_getattr, fuseserver_lookup, fuseserver_mkdir, fuseserver_mknod, fuseserver_open,
  fuseserver_read, fuseserver_readdir, fuseserver_setattr, fuseserver_statfs, fuseserver_unlink,
  fuseserver_write,
}
use ds.Fuse.Requests.{
  Library, Moment, Request, getattr, statfs, readdir, lookup, mknod, open_file, read, unlink, mkdir,
  handle, session,
}
use ds.Fuse.Requests

link-IsValid :
    (now parent inum : ℕ) (name dir : List ℕ) (m : Extents)
    → IsValid m
    → IsValid (link now parent inum name dir m).1
unfolding link
link-IsValid now parent inum name dir m v = put-IsValid now parent _ m v

create-IsValid :
    (now parent inum : ℕ) (name : List ℕ) (m : Extents)
    → IsValid m
    → IsValid (create now parent inum name m).1
unfolding create
create-IsValid now parent inum name m v =
    let p = put-IsValid now inum [] m v in
    ground (
      arith,
      v,
      p,
      link-IsValid now parent inum name (get parent [] m).1 m v,
      link-IsValid now parent inum name (get parent [] m).1 (put now inum [] m).1 p,
    )

write-IsValid :
    (now file : ℕ) (buf : List ℕ) (size off : ℕ) (m : Extents)
    → IsValid m
    → IsValid (write now file buf size off m).1
unfolding write
write-IsValid now file buf size off m v =
    ground (arith, v, put-IsValid now file (written (get file [] m).1 buf size off) m v)

set_attr-IsValid :
    (now file : ℕ) (fin : FileInfo) (junk : Attr) (m : Extents)
    → IsValid m
    → IsValid (set_attr now file fin junk m).1
unfolding set_attr
set_attr-IsValid now file fin junk m v = setattr-IsValid now file _ m v

createhelper-IsValid :
    (now rnd parent : ℕ) (name : List ℕ) (g : Garbage) (m : Extents)
    → IsValid m
    → IsValid (fuseserver_createhelper now rnd parent name g m).2
unfolding fuseserver_createhelper
createhelper-IsValid now rnd parent name g m v =
    ground (arith, create-IsValid now parent (file_id rnd) name m v)

mkdir-IsValid :
    (now rnd parent : ℕ) (name : List ℕ) (g : Garbage) (m : Extents)
    → IsValid m
    → IsValid (fuseserver_mkdir now rnd parent name g m).1
unfolding fuseserver_mkdir
mkdir-IsValid now rnd parent name g m v = ground (arith, create-IsValid now parent rnd name m v)

fuse_setattr-IsValid :
    (now ino st_size : ℕ) (sets_size : Bool) (g : Garbage) (m : Extents)
    → IsValid m
    → IsValid (fuseserver_setattr now ino st_size sets_size g m).1
unfolding fuseserver_setattr
fuse_setattr-IsValid now ino st_size sets_size g m v =
    let info : FileInfo = record (g.info) { size = st_size } in
    ground (arith, v, set_attr-IsValid now ino info g.a m v)

readdir-same :
    (dirent_size : ℕ → ℕ) (add_dirent : List ℕ → ℕ → ℕ → List ℕ) (ino size off : ℕ) (fresh : Mem)
    (m : Extents)
    → (fuseserver_readdir dirent_size add_dirent ino size off fresh m).1 ≡ m
unfolding fuseserver_readdir
readdir-same dirent_size add_dirent ino size off fresh m = ground arith

-- Every handler keeps the recorded sizes right.
handle-IsValid :
    (l : Library) (t : Moment) (r : Request) (m n : Extents) (sent : List Answer)
    → handle l t r m ≡ some (sent, n)
    → IsValid m
    → IsValid n
unfolding handle fuseserver_getattr fuseserver_read fuseserver_create fuseserver_mknod
    fuseserver_open fuseserver_write fuseserver_unlink fuseserver_statfs fuseserver_lookup
handle-IsValid l t (getattr ino) m n sent h v = ground arith
handle-IsValid l t statfs m n sent h v = ground arith
handle-IsValid l t (readdir ino size off) m n sent h v =
    ground (arith, readdir-same l.dirent_size l.add_dirent ino size off t.fresh m)
handle-IsValid l t (lookup parent name) m n sent h v = ground arith
handle-IsValid l t (Requests.create parent name) m n sent h v =
    ground (arith, createhelper-IsValid t.now t.rnd parent name t.g m v)
handle-IsValid l t (mknod parent name) m n sent h v =
    ground (arith, createhelper-IsValid t.now t.rnd parent name t.g m v)
handle-IsValid l t (open_file ino) m n sent h v = ground arith
handle-IsValid l t (read ino size off) m n sent h v = ground arith
handle-IsValid l t (Requests.write ino buf size off) m n sent h v =
    elim (Option-cases (c_string buf)) [
      | inl e ↦ ground (arith, e)
      | inr (s, e) ↦ ground (arith, e, write-IsValid t.now ino s size off m v)
    ]
handle-IsValid l t (Requests.setattr ino st_size sets_size) m n sent h v =
    ground (arith, fuse_setattr-IsValid t.now ino st_size sets_size t.g m v)
handle-IsValid l t (unlink parent name) m n sent h v = ground arith
handle-IsValid l t (mkdir parent name) m n sent h v =
    ground (arith, mkdir-IsValid t.now t.rnd parent name t.g m v)

-- If the recorded size of every extent is the length of its content, it still is after any sequence of
-- requests, whatever they reply.
pub session-IsValid :
    (l : Library) (rs : List (Moment × Request)) (m n : Extents) (sent : List Answer)
    → session l rs m ≡ some (sent, n)
    → IsValid m
    → IsValid n
unfolding session
session-IsValid l [] m n sent h v = ground (arith, h, v)
session-IsValid l ((t, r) ∷ rs) m n sent h v = elim (Option-cases (handle l t r m)) [
  | inl e ↦ ground (arith, h, e)
  | inr ((s, m'), e) ↦ elim (Option-cases (session l rs m')) [
    | inl f ↦ ground (arith, h, e, f)
    | inr ((more, n'), f) ↦
        let w = session-IsValid l rs m' n' more f (handle-IsValid l t r m m' s e v) in
        ground (arith, h, e, f, w)
  ]
]
