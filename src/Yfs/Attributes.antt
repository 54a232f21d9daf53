-- ===== src/Yfs/Attributes.antt =====
-- getfile, getdir and getDirContent (yfs_client.cc) by whether the extent is there.
use ds.Base.{ℕ, ◌≡◌, ◌≢◌, ◌∙◌, refl, List, [], none, some, find}
use ds.Extent.{Extents, ExtentInfo, Attr, getattr, get, put}
use ds.Extent
use ds.Extent.Laws.{get-put_ne}
use ds.Yfs.{ok, ioerr, no_attr, FileInfo, DirInfo, getfile, getdir}
use ds.Yfs.Directory.{parse_dir, get_dir_content}

-- What getfile and getdir take from the attributes.
abbrev pub file_info : Attr → FileInfo
file_info a = record { size = a.size; atime = a.atime; mtime = a.mtime; ctime = a.ctime }

abbrev pub dir_info : Attr → DirInfo
dir_info a = record { atime = a.atime; mtime = a.mtime; ctime = a.ctime }

module _ (inum : ℕ) (m : Extents) where
  getattr-none : find inum m ≡ none → getattr inum no_attr m ≡ (Extent.noent, no_attr)
  unfolding getattr
  getattr-none e = rw (e, getattr) refl

  getattr-some :
      (x : ExtentInfo) → find inum m ≡ some x → getattr inum no_attr m ≡ (Extent.ok, x.attr)
  unfolding getattr
  getattr-some x e = rw (e, getattr) refl

  pub get-none : find inum m ≡ none → get inum [] m ≡ (Extent.noent, [])
  unfolding get
  get-none e = rw (e, get) refl

  pub get-some : (x : ExtentInfo) → find inum m ≡ some x → get inum [] m ≡ (Extent.ok, x.content)
  unfolding get
  get-some x e = rw (e, get) refl

  pub getfile-none : (info : FileInfo) → find inum m ≡ none → getfile inum info m ≡ (ioerr, info)
  unfolding getfile
  getfile-none info e = rw (getattr-none e) refl

  pub getfile-some :
      (info : FileInfo) (x : ExtentInfo)
      → find inum m ≡ some x
      → getfile inum info m ≡ (ok, file_info x.attr)
  unfolding getfile
  getfile-some info x e = rw (getattr-some x e) refl

  pub getdir-none : (info : DirInfo) → find inum m ≡ none → getdir inum info m ≡ (ioerr, info)
  unfolding getdir
  getdir-none info e = rw (getattr-none e) refl

  pub getdir-some :
      (info : DirInfo) (x : ExtentInfo)
      → find inum m ≡ some x
      → getdir inum info m ≡ (ok, dir_info x.attr)
  unfolding getdir
  getdir-some info x e = rw (getattr-some x e) refl

  pub get_dir_content-none :
      (old : List (List ℕ × ℕ)) → find inum m ≡ none → get_dir_content inum old m ≡ (ioerr, old)
  unfolding get_dir_content
  get_dir_content-none old e = rw (get-none e) refl

  pub get_dir_content-some :
      (old : List (List ℕ × ℕ)) (x : ExtentInfo)
      → find inum m ≡ some x
      → get_dir_content inum old m ≡ (ok, parse_dir x.content old)
  unfolding get_dir_content
  get_dir_content-some old x e = rw (get-some x e) refl

pub getfile-getattr :
    (inum : ℕ) (a : Attr) (info : FileInfo) (m : Extents)
    → getattr inum no_attr m ≡ (Extent.ok, a)
    → getfile inum info m ≡ (ok, file_info a)
unfolding getfile
getfile-getattr inum a info m h = rw h refl

-- getattr fails where nothing is, and a put elsewhere does not change that.
pub getattr-put_none :
    (now id j : ℕ) (buf : List ℕ) (m : Extents)
    → id ≢ j
    → find j m ≡ none
    → getattr j no_attr (put now id buf m).1 ≡ (Extent.noent, no_attr)
getattr-put_none now id j buf m ne e =
    (get-put_ne now id j buf [] no_attr no_attr m ne).1 ∙ getattr-none j m e
