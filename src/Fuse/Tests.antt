-- ===== src/Fuse/Tests.antt =====
-- Concrete runs of the FUSE handlers (fuse.cc).
use ds.Base.{
  ℕ, ◌+◌, ◌-◌, ◌*◌, ◌^◌, ◌≡◌, refl, List, [], ◌∷◌, ◌++◌, some, arith, find, length, length-append,
}
use ds.Extent.{Extents, stamped, get, extent_server}
use ds.Extent
use ds.Extent.Laws.{IsValid, extent_server-IsValid}
use ds.Yfs.{filename, no_attr, with_entry}
use ds.Yfs.Directory.{find_text, parse_dir}
use ds.Fuse.{
  Garbage, enoent, enosys, reply_buf, reply_create, reply_entry, reply_err, reply_open, reply_write,
  zero_stat, dir_stat, fuseserver_create, fuseserver_lookup, fuseserver_mkdir, fuseserver_mknod,
  fuseserver_open, fuseserver_read, fuseserver_write,
}
use ds.Fuse.Requests.{Library, Moment, create, open_file, handle, session}
use ds.Fuse.Replies.{replies_lem}
use ds.Fuse.Sizes.{session-IsValid}
use ds.Fuse.Names.{created_entry, found_entry, create_lookup, mkdir_lem}
use ds.Fuse.Bytes.{write_read}
use ds.Fuse.Pages.{pages, laid_out, readdir_pages}

abbrev garbage : Garbage
garbage = record {
  st = zero_stat;
  e = record { ino = 77; attr = zero_stat; attr_timeout = 1; entry_timeout = 1 };
  info = record { size = 5; atime = 6; mtime = 7; ctime = 8 };
  dir_info = record { atime = 6; mtime = 7; ctime = 8 };
  a = no_attr;
}

-- The number that decimal digits stand for.
abbrev read_number : List ℕ → ℕ → ℕ
read_number [] n = n
read_number (c ∷ s) n = read_number s (n * 10 + (c - 48))

-- An entry of three bytes and the name.
abbrev library : Library
library = record {
  n2i = λ s. read_number s 0;
  dirent_size = λ n. n + 3;
  add_dirent = λ name inum off. name ++ (inum ∷ (off ∷ (0 ∷ [])));
}

abbrev stored : List ℕ → Extents
stored content = (2, record { attr = stamped 8 (length content); content = content }) ∷ []

-- "ab"
abbrev name : List ℕ
name = 97 ∷ 98 ∷ []

-- "x:5"
abbrev dir : List ℕ
dir = 120 ∷ 58 ∷ 53 ∷ []

create_lookup_example :
    ((fuseserver_create 9 7 2 name garbage (stored dir)).0
      ≡ reply_create (created_entry 9 (2 ^ 31 + 7) garbage.e) ∷ [])
    × ((fuseserver_mknod 9 7 2 name garbage (stored dir)).0
        ≡ reply_entry (created_entry 9 (2 ^ 31 + 7) garbage.e) ∷ [])
    × ((fuseserver_mknod 9 7 2 name garbage (stored dir)).1
        ≡ (fuseserver_create 9 7 2 name garbage (stored dir)).1)
    × ((fuseserver_lookup library.n2i 2 name garbage
          (fuseserver_create 9 7 2 name garbage (stored dir)).1).0
        ≡ reply_entry (found_entry 9 (2 ^ 31 + 7) garbage.e) ∷ [])
unfolding get find filename find_text
create_lookup_example =
    create_lookup library.n2i 9 7 2 name dir garbage garbage (stored dir) refl refl (omega arith)
      (omega arith) (omega arith, (omega arith, tt)) refl

mkdir_lem_example :
    ((fuseserver_mkdir 9 7 2 name garbage (stored dir)).0 ≡ reply_err enosys ∷ [])
    × (get 2 [] (fuseserver_mkdir 9 7 2 name garbage (stored dir)).1
        ≡ (Extent.ok, with_entry dir name 7))
    × ((fuseserver_lookup library.n2i 2 name garbage
          (fuseserver_mkdir 9 7 2 name garbage (stored dir)).1).0
        ≡ reply_err enoent
          ∷ reply_entry (record (garbage.e) {
            ino = 7;
            attr_timeout = 0;
            entry_timeout = 0;
            attr = dir_stat garbage.dir_info zero_stat;
          })
          ∷ [])
unfolding get find filename find_text
mkdir_lem_example =
    mkdir_lem library.n2i 9 7 2 name dir [] garbage garbage (stored dir) refl (omega arith) refl
      refl refl (omega arith) (omega arith, (omega arith, tt)) refl

write_read_example :
    (n : Extents) × (fuseserver_write 9 2 (name ++ (0 ∷ 5 ∷ [])) 2 1 (stored dir)
      ≡ some (reply_write 2 ∷ [], n))
    × (fuseserver_read 2 2 1 n ≡ (reply_buf name ∷ [], n))
    × (get 3 [] n ≡ get 3 [] (stored dir))
unfolding get find
write_read_example =
    write_read 9 2 3 2 1 name (5 ∷ []) dir [] (stored dir) (omega arith, (omega arith, tt))
      (omega arith) refl (omega arith) (omega arith) (omega arith)

abbrev moment : Moment
moment = record { now = 9; rnd = 7; g = garbage; fresh = λ _. 1 }

replies_lem_example : length (reply_err enosys ∷ reply_open ∷ []) ≡ 2
unfolding handle fuseserver_open
replies_lem_example =
    replies_lem library moment (open_file 1) (stored dir) (stored dir)
      (reply_err enosys ∷ reply_open ∷ []) refl

abbrev entries : List ℕ
entries = laid_out library.dirent_size library.add_dirent (parse_dir dir [])

readdir_pages_example :
    pages library.dirent_size library.add_dirent (length entries) 2 2 0 moment.fresh (stored dir)
    ≡ entries
unfolding find
readdir_pages_example =
    readdir_pages library.dirent_size library.add_dirent
      (λ name inum off. omega (arith, length-append name (inum ∷ (off ∷ (0 ∷ []))))) 2 2
      moment.fresh (record { attr = stamped 8 3; content = dir }) (stored dir) refl refl
      (omega arith)

session-IsValid_example : IsValid (fuseserver_create 9 7 1 name garbage (extent_server 8)).1
unfolding session handle
session-IsValid_example =
    session-IsValid library ((moment, create 1 name) ∷ []) (extent_server 8)
      (fuseserver_create 9 7 1 name garbage (extent_server 8)).1
      ((fuseserver_create 9 7 1 name garbage (extent_server 8)).0 ++ []) refl
      (extent_server-IsValid 8)
