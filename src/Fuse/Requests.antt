-- ===== src/Fuse/Requests.antt =====
-- fuseserver_oper (fuse.cc): the requests and the handler of each.
use ds.Base.{ℕ, Bool, List, Option, some, [], ◌∷◌, ◌++◌, ◌>>=◌, Mem}
use ds.Extent.{Extents}
use ds.Fuse.{
  Answer, Garbage, fuseserver_getattr, fuseserver_statfs, fuseserver_readdir, fuseserver_lookup,
  fuseserver_create, fuseserver_mknod, fuseserver_open, fuseserver_read, fuseserver_write,
  fuseserver_setattr, fuseserver_unlink, fuseserver_mkdir,
}

-- What the handlers take from the libraries: the number that an istringstream reads, and the entries
-- of a directory as FUSE lays them out.
pub record Library : Type 0 where
  pub n2i : List ℕ → ℕ
  pub dirent_size : ℕ → ℕ
  pub add_dirent : List ℕ → ℕ → ℕ → List ℕ

-- What differs from call to call: the clock, random(), memory.
pub record Moment : Type 0 where
  pub now : ℕ
  pub rnd : ℕ
  pub g : Garbage
  pub fresh : Mem

pub data Request : Type 0 where
  getattr : ℕ → Request
  statfs : Request
  readdir : ℕ → ℕ → ℕ → Request
  lookup create mknod : ℕ → List ℕ → Request
  open_file : ℕ → Request
  read : ℕ → ℕ → ℕ → Request
  write : ℕ → List ℕ → ℕ → ℕ → Request
  setattr : ℕ → ℕ → Bool → Request
  unlink mkdir : ℕ → List ℕ → Request

unfoldable pub handle : Library → Moment → Request → Extents → Option (List Answer × Extents)
handle l t (getattr ino) m = some (fuseserver_getattr ino t.g m)
handle l t statfs m = some (fuseserver_statfs m)
handle l t (readdir ino size off) m =
    some (fuseserver_readdir l.dirent_size l.add_dirent ino size off t.fresh m)
handle l t (lookup parent name) m = some (fuseserver_lookup l.n2i parent name t.g m)
handle l t (create parent name) m = some (fuseserver_create t.now t.rnd parent name t.g m)
handle l t (mknod parent name) m = some (fuseserver_mknod t.now t.rnd parent name t.g m)
handle l t (open_file ino) m = some (fuseserver_open ino m)
handle l t (read ino size off) m = some (fuseserver_read ino size off m)
handle l t (write ino buf size off) m = fuseserver_write t.now ino buf size off m
handle l t (setattr ino st_size sets_size) m =
    some (fuseserver_setattr t.now ino st_size sets_size t.g m)
handle l t (unlink parent name) m = some (fuseserver_unlink parent name m)
handle l t (mkdir parent name) m = some (fuseserver_mkdir t.now t.rnd parent name t.g m)

-- fuse_session_loop: one request after the other, and all that was replied
unfoldable pub session :
    Library → List (Moment × Request) → Extents → Option (List Answer × Extents)
unfolding handle
session l [] m = some ([], m)
session l ((t, r) ∷ rs) m =
    handle l t r m >>= λ (sent, m'). session l rs m' >>= λ (more, n). some (sent ++ more, n)
