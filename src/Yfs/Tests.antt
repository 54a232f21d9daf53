-- ===== src/Yfs/Tests.antt =====
-- Concrete runs of the file operations (yfs_client.cc).
use ds.Base.{ℕ, ◌+◌, ◌*◌, ◌-◌, ◌^◌, ◌≡◌, refl, List, [], ◌∷◌, ◌++◌, arith, find, length}
use ds.Extent.{Extents, stamped, get, put}
use ds.Extent
use ds.Yfs.{ok, filename, with_entry, create, read, write, string_to_id}
use ds.Yfs.Files.{write_lem, write_behind_end}
use ds.Yfs.Directory.{ilookup, get_dir_content, find_text}
use ds.Yfs.Lookup.{ilookup-create, ilookup_suffix}
use ds.Yfs.Listing.{get_dir_content_lem}

abbrev stored : List ℕ → Extents
stored content = (2, record { attr = stamped 8 (length content); content = content }) ∷ []

abbrev old_text : List ℕ
old_text = 65 ∷ 66 ∷ 67 ∷ []

abbrev new_text : List ℕ
new_text = 97 ∷ 98 ∷ []

write_lem_example :
    ((write 9 2 new_text 2 1 (stored old_text)).0 ≡ ok)
    × (get 2 [] (write 9 2 new_text 2 1 (stored old_text)).1 ≡ (Extent.ok, 65 ∷ 97 ∷ 98 ∷ []))
    × (read 2 2 1 [] (write 9 2 new_text 2 1 (stored old_text)).1 ≡ (ok, new_text))
    × (get 3 [] (write 9 2 new_text 2 1 (stored old_text)).1 ≡ get 3 [] (stored old_text))
unfolding get find
write_lem_example =
    write_lem 9 2 3 1 2 new_text old_text [] (stored old_text) refl (omega arith) (omega arith)
      (omega arith) (omega arith)

write_behind_end_example :
    ((write 9 2 new_text 2 6 (stored old_text)).0 ≡ ok)
    × (get 2 [] (write 9 2 new_text 2 6 (stored old_text)).1 ≡ (Extent.ok, old_text ++ new_text))
    × (read 2 2 6 [] (write 9 2 new_text 2 6 (stored old_text)).1 ≡ (ok, []))
unfolding get find
write_behind_end_example =
    write_behind_end 9 2 6 2 2 new_text old_text [] (stored old_text) refl (omega arith)
      (omega arith)

-- The first file.
abbrev file : ℕ
file = 2 ^ 31 + 7

-- "ab"
abbrev name : List ℕ
name = 97 ∷ 98 ∷ []

-- "x:5"
abbrev dir : List ℕ
dir = 120 ∷ 58 ∷ 53 ∷ []

-- The number that decimal digits stand for.
abbrev read_number : List ℕ → ℕ → ℕ
read_number [] n = n
read_number (c ∷ s) n = read_number s (n * 10 + (c - 48))

ilookup-create_example :
    ilookup (λ s. read_number s 0) 2 name (create 9 2 file name (stored dir)).1 ≡ file
unfolding get find filename find_text
ilookup-create_example =
    ilookup-create (λ s. read_number s 0) 9 2 file name dir (stored dir) refl refl refl
      (omega arith) (omega arith) (omega arith, (omega arith, tt)) refl

ilookup_suffix_example :
    ilookup (λ s. read_number s 0) 2 (98 ∷ []) (stored (with_entry [] name file))
    ≡ read_number (filename file) 0
unfolding get find
ilookup_suffix_example =
    ilookup_suffix (λ s. read_number s 0) 2 file (97 ∷ []) (98 ∷ [])
      (stored (with_entry [] name file)) refl (omega arith, tt) (omega arith, tt)

get_dir_content_example :
    get_dir_content 2 [] (stored (with_entry [] name file)) ≡ (ok, (name, 21) ∷ [])
unfolding get find filename string_to_id
get_dir_content_example =
    get_dir_content_lem file 2 name (stored (with_entry [] name file)) refl
      (omega arith, (omega arith, tt))
