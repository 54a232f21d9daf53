-- ===== src/Fuse/Names.antt =====
-- Files and directories that are made, and how they are found again (fuse.cc).
use ds.Base.{
  ℕ, ◌+◌, ◌≤◌, ◌<◌, ◌≡◌, ◌≢◌, refl, ap, ◌∙◌, true, false, List, [], ◌∷◌, ◌++◌, none, arith, ◌==◌,
  length, find,
}
use ds.Extent.{Extents, maxextent, stamped, get, put}
use ds.Extent
use ds.Extent.Laws.{find-put_ne, get-put, get-put_ne}
use ds.Yfs.{ok, no_attr, FileInfo, filename, isfile, with_entry, link, create, getfile}
use ds.Yfs.Attributes.{file_info, getfile-getattr, getfile-none, getdir-none, get-none}
use ds.Yfs.Directory.{find_text, ilookup}
use ds.Yfs.Files.{create_lem, link_lem}
use ds.Yfs.Lookup.{IsPlain, ilookup-create, lookup-with_entry}
use ds.Fuse.{
  EntryParam, Garbage, enoent, enosys, reply_create, reply_entry, reply_err, file_stat, dir_stat,
  file_id, found, fuseserver_create, fuseserver_createhelper, fuseserver_lookup, fuseserver_mkdir,
  fuseserver_mknod,
}

isfile-file_id : (rnd : ℕ) → isfile (file_id rnd) ≡ true
isfile-file_id rnd = ground arith

isfile_pos : (inum : ℕ) → isfile inum ≡ true → (inum == 0) ≡ false
isfile_pos inum h = ground arith

-- The entry that createhelper fills in, and the one that lookup does.
abbrev pub created_entry : ℕ → ℕ → EntryParam → EntryParam
created_entry now id e = record e {
  ino = id;
  attr = file_stat (file_info (stamped now 0)) (record (e.attr) { st_ino = id });
}

abbrev pub found_entry : ℕ → ℕ → EntryParam → EntryParam
found_entry now id e = record e {
  ino = id;
  attr = file_stat (file_info (stamped now 0)) e.attr;
  attr_timeout = 0;
  entry_timeout = 0;
}

create-link :
    (now parent inum : ℕ) (name dir : List ℕ) (m : Extents)
    → get parent [] m ≡ (Extent.ok, dir)
    → isfile inum ≡ true
    → create now parent inum name m ≡ link now parent inum name dir (put now inum [] m).1
unfolding create
create-link now parent inum name dir m g f =
    let p = (get-put now inum [] [] no_attr m (omega arith)).0 in rw (g, f, p) refl

-- A file that was just made is empty, and all its times are the time of its making.
getfile-create :
    (now parent inum : ℕ) (name dir : List ℕ) (info : FileInfo) (m : Extents)
    → get parent [] m ≡ (Extent.ok, dir)
    → isfile inum ≡ true
    → parent ≢ inum
    → getfile inum info (create now parent inum name m).1 ≡ (ok, file_info (stamped now 0))
unfolding link
getfile-create now parent inum name dir info m g f ne =
    let m' = (put now inum [] m).1 in
    let a = (get-put now inum [] [] no_attr m (omega arith)).2 in
    let b = (get-put_ne now parent inum (with_entry dir name inum) [] no_attr no_attr m' ne).1 in
    rw (create-link now parent inum name dir m g f) (
      getfile-getattr inum (stamped now 0) info (put now parent (with_entry dir name inum) m').1
        (b ∙ a))

createhelper_lem :
    (now rnd parent : ℕ) (name dir : List ℕ) (g : Garbage) (m : Extents)
    → get parent [] m ≡ (Extent.ok, dir)
    → length (with_entry dir name (file_id rnd)) ≤ maxextent
    → parent ≢ file_id rnd
    → fuseserver_createhelper now rnd parent name g m
      ≡ (ok, created_entry now (file_id rnd) g.e, (create now parent (file_id rnd) name m).1)
unfolding fuseserver_createhelper
createhelper_lem now rnd parent name dir g m h b ne =
    let id = file_id rnd in
    let f = isfile-file_id rnd in
    let c =
      (create_lem now parent id (parent + id + 1) name dir [] m h f b ne (omega arith)
        (omega arith)).0 in
    rw (c, getfile-create now parent id name dir g.info m h f ne) refl

lookup-created :
    (n2i : List ℕ → ℕ) (now parent inum : ℕ) (name dir : List ℕ) (g : Garbage) (m : Extents)
    → n2i (filename inum) ≡ inum
    → get parent [] m ≡ (Extent.ok, dir)
    → isfile inum ≡ true
    → length (with_entry dir name inum) ≤ maxextent
    → parent ≢ inum
    → IsPlain name
    → find_text (name ++ b':' ∷ []) (dir ++ b':' ∷ []) ≡ none
    → fuseserver_lookup n2i parent name g (create now parent inum name m).1
      ≡ (reply_entry (found_entry now inum g.e) ∷ [], (create now parent inum name m).1)
unfolding fuseserver_lookup found
lookup-created n2i now parent inum name dir g m n h f b ne p t =
    rw
      (
        ilookup-create n2i now parent inum name dir m n h f b ne p t,
        isfile_pos inum f,
        f,
        getfile-create now parent inum name dir g.info m h f ne,
      )
      refl

-- In a directory that is there, and stays within the size limit, a create of a file replies one new
-- entry: its number is random() with bit 31 set, it is an empty file and all its times are now. A
-- mknod replies the same entry. If the name has no colon, and did not stand in front of a colon in the
-- text of the directory before, a later lookup of the name replies one entry, with the same number and
-- the same attributes but for st_ino, which lookup leaves unassigned. `n2i` is only asked to read
-- back the decimal digits of the number, which must not be the directory's own.
pub create_lookup :
    (n2i : List ℕ → ℕ) (now rnd parent : ℕ) (name dir : List ℕ) (g g' : Garbage) (m : Extents)
    → n2i (filename (file_id rnd)) ≡ file_id rnd
    → get parent [] m ≡ (Extent.ok, dir)
    → length (with_entry dir name (file_id rnd)) ≤ maxextent
    → parent ≢ file_id rnd
    → IsPlain name
    → find_text (name ++ b':' ∷ []) (dir ++ b':' ∷ []) ≡ none
    → ((fuseserver_create now rnd parent name g m).0
        ≡ reply_create (created_entry now (file_id rnd) g.e) ∷ [])
      × ((fuseserver_mknod now rnd parent name g m).0
          ≡ reply_entry (created_entry now (file_id rnd) g.e) ∷ [])
      × ((fuseserver_mknod now rnd parent name g m).1
          ≡ (fuseserver_create now rnd parent name g m).1)
      × ((fuseserver_lookup n2i parent name g' (fuseserver_create now rnd parent name g m).1).0
          ≡ reply_entry (found_entry now (file_id rnd) g'.e) ∷ [])
unfolding fuseserver_create fuseserver_mknod
create_lookup n2i now rnd parent name dir g g' m n h b ne p t =
    let c = createhelper_lem now rnd parent name dir g m h b ne in
    let l =
      lookup-created n2i now parent (file_id rnd) name dir g' m n h (isfile-file_id rnd) b ne p t in
    rw c (refl, refl, refl, ap (λ x. x.0) l)

create-directory :
    (now parent inum : ℕ) (name dir : List ℕ) (m : Extents)
    → get parent [] m ≡ (Extent.ok, dir)
    → isfile inum ≡ false
    → create now parent inum name m ≡ link now parent inum name dir m
unfolding create
create-directory now parent inum name dir m g f = rw (g, f) refl

stored_ne :
    (i j : ℕ) (dir : List ℕ) (m : Extents) → get i [] m ≡ (Extent.ok, dir) → find j m ≡ none → i ≢ j
stored_ne i j dir m g e p = let q = rw (p, get-none j m e) at g in absurd (ground (arith, q))

-- Where nothing is stored, nothing is after an entry was added to a directory.
find-link :
    (now parent inum j : ℕ) (name dir : List ℕ) (m : Extents)
    → get parent [] m ≡ (Extent.ok, dir)
    → find j m ≡ none
    → find j (link now parent inum name dir m).1 ≡ none
unfolding link
find-link now parent inum j name dir m g e =
    find-put_ne now parent j (with_entry dir name inum) m (stored_ne parent j dir m g e) ∙ e

lookup-directory :
    (n2i : List ℕ → ℕ) (parent inum : ℕ) (name dir : List ℕ) (g : Garbage) (m : Extents)
    → n2i (filename inum) ≡ inum
    → 0 < inum
    → isfile inum ≡ false
    → get parent [] m ≡ (Extent.ok, with_entry dir name inum)
    → find inum m ≡ none
    → IsPlain name
    → find_text (name ++ b':' ∷ []) (dir ++ b':' ∷ []) ≡ none
    → (fuseserver_lookup n2i parent name g m).0
      ≡ reply_err enoent
        ∷ reply_entry (record (g.e) {
          ino = inum;
          attr_timeout = 0;
          entry_timeout = 0;
          attr = dir_stat g.dir_info g.e.attr;
        })
        ∷ []
unfolding fuseserver_lookup found ilookup
lookup-directory n2i parent inum name dir g m n pos f h e p t =
    let z : (inum == 0) ≡ false = ground arith in
    let l : ilookup n2i parent name m ≡ inum = rw h (lookup-with_entry n2i dir name inum p t ∙ n) in
    rw (l, z, f, getdir-none inum m g.dir_info e) refl

-- A mkdir in a directory that is there and stays within the size limit, with a random number of a
-- directory under which nothing is stored, adds the new entry to the directory's text and yet replies
-- ENOSYS, since nothing is stored under the number. If the number is not zero and the name has no colon
-- and did not stand in front of a colon before, a later lookup of the name then replies twice: ENOENT,
-- and an entry with attributes that were never assigned.
pub mkdir_lem :
    (n2i : List ℕ → ℕ) (now rnd parent : ℕ) (name dir old : List ℕ) (g g' : Garbage) (m : Extents)
    → n2i (filename rnd) ≡ rnd
    → 0 < rnd
    → isfile rnd ≡ false
    → find rnd m ≡ none
    → get parent [] m ≡ (Extent.ok, dir)
    → length (with_entry dir name rnd) ≤ maxextent
    → IsPlain name
    → find_text (name ++ b':' ∷ []) (dir ++ b':' ∷ []) ≡ none
    → ((fuseserver_mkdir now rnd parent name g m).0 ≡ reply_err enosys ∷ [])
      × (get parent old (fuseserver_mkdir now rnd parent name g m).1
          ≡ (Extent.ok, with_entry dir name rnd))
      × ((fuseserver_lookup n2i parent name g' (fuseserver_mkdir now rnd parent name g m).1).0
          ≡ reply_err enoent
            ∷ reply_entry (record (g'.e) {
              ino = rnd;
              attr_timeout = 0;
              entry_timeout = 0;
              attr = dir_stat g'.dir_info g'.e.attr;
            })
            ∷ [])
unfolding fuseserver_mkdir
mkdir_lem n2i now rnd parent name dir old g g' m n pos f e h b p t =
    let m' = (link now parent rnd name dir m).1 in
    let (s, q, _) = link_lem now parent rnd rnd name dir old m b in
    let (_, q', _) = link_lem now parent rnd rnd name dir [] m b in
    let e' : find rnd m' ≡ none = find-link now parent rnd rnd name dir m h e in
    rw (create-directory now parent rnd name dir m h f, s, getfile-none rnd m' g.info e')
      (refl, q, lookup-directory n2i parent rnd name dir g' m' n pos f q' e' p t)
