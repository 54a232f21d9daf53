-- ===== src/Yfs/Listing.antt =====
-- getDirContent (yfs_client.cc) on a directory with one entry.
use ds.Base.{
  ℕ, zero, suc, ◌+◌, ◌-◌, ◌<◌, ◌≤◌, ◌≡◌, refl, sym, ap, ◌∙◌, true, List, [], ◌∷◌, ◌++◌, none, some,
  arith, ltb, leb, append_assoc, length, length-append, take, take-append, drop, drop-append,
  Option-cases, Bool-cases, inl, inr,
}
use ds.Extent.{Extents, get}
use ds.Extent
use ds.Yfs.{ok, filename, with_entry, string_to_id}
use ds.Yfs.Directory.{find_colon, Scan, advance, scan, parse_dir, get_dir_content}
use ds.Yfs.Lookup.{IsPlain, filename-IsPlain, find_colon-plain, find_colon-none}

scan-found :
    (fuel i : ℕ) (content : List ℕ) (s : Scan)
    → ltb s.end (length content) ≡ true
    → find_colon (drop s.begin content) ≡ some i
    → scan (suc fuel) content s ≡ scan fuel content (advance content (s.begin + i) s)
unfolding scan
scan-found fuel i content s l f = rw (l, f, scan) refl

scan-none :
    (fuel : ℕ) (content : List ℕ) (s : Scan)
    → ltb s.end (length content) ≡ true
    → find_colon (drop s.begin content) ≡ none
    → scan (suc fuel) content s ≡ s
unfolding scan
scan-none fuel content s l f = rw (l, f, scan) refl

find_colon-within : (s : List ℕ) (i : ℕ) → find_colon s ≡ some i → i < length s
unfolding find_colon
find_colon-within [] i h = absurd (ground arith)
find_colon-within (c ∷ s) i h = elim (Option-cases (find_colon s)) [
  | inl e ↦ ground arith
  | inr (j, e) ↦ ground (arith, find_colon-within s j e)
]

length-drop : (n : ℕ) (s : List ℕ) → length (drop n s) ≡ length s - n
length-drop zero s = omega arith
length-drop (suc n) [] = omega arith
length-drop (suc n) (c ∷ s) = omega (arith, length-drop n s)

begin-advance : (content : List ℕ) (pos : ℕ) (s : Scan) → (advance content pos s).begin ≡ pos + 1
unfolding advance
begin-advance content pos s = ground arith

-- With fuel for what is left of the content, one more round changes nothing.
scan_more :
    (fuel : ℕ) (content : List ℕ) (s : Scan)
    → length content < fuel + s.begin
    → scan (suc fuel) content s ≡ scan fuel content s
unfolding scan
scan_more zero content s h = elim (Option-cases (find_colon (drop s.begin content))) [
  | inl e ↦ ground arith
  | inr (i, e) ↦ absurd (omega (arith, h, find_colon-within _ i e, length-drop s.begin content))
]
scan_more (suc fuel) content s h = elim (Option-cases (find_colon (drop s.begin content))) [
  | inl e ↦ ground arith
  | inr (i, e) ↦
      let s' = advance content (s.begin + i) s in
      let r = scan_more fuel content s' (omega (arith, h, begin-advance content (s.begin + i) s)) in
      elim (Bool-cases (ltb s.end (length content))) [
        | inl l ↦ scan-found (suc fuel) i content s l e ∙ r ∙ sym (scan-found fuel i content s l e)
        | inr l ↦ ground arith
      ]
]

-- The loop of getDirContent ends within one round for each byte of the content and one more: any
-- larger number of rounds leaves the same variables.
pub scan_enough :
    (n : ℕ) (content : List ℕ) (s : Scan)
    → suc (length content) ≤ n
    → scan n content s ≡ scan (suc (length content)) content s
scan_enough zero content s h = absurd (omega arith)
scan_enough (suc n) content s h = elim (Bool-cases (leb (suc (length content)) n)) [
  | inl e ↦
      let k : suc (length content) ≤ n = ground arith in
      scan_more n content s (omega arith) ∙ scan_enough n content s k
  | inr e ↦ let k : n ≡ length content = ground arith in ap (λ m. scan (suc m) content s) k
]

drop-behind : (s t : List ℕ) (c : ℕ) → drop (length s + 1) (s ++ (c ∷ t)) ≡ t
drop-behind s t c =
    ap (drop (length s + 1)) (sym (append_assoc s (c ∷ []) t))
    ∙ ap (λ n. drop n ((s ++ c ∷ []) ++ t)) (sym (length-append s (c ∷ [])))
    ∙ drop-append (s ++ c ∷ []) t

abbrev pub started : Scan
started = record { begin = 0; end = 0; cycle_time = 0; temp_name = []; dir_content = [] }

abbrev named : List ℕ → Scan
named name = record {
  begin = length name + 1;
  end = length name;
  cycle_time = 1;
  temp_name = name;
  dir_content = [];
}

advance-started : (name t : List ℕ) → advance (name ++ t) (0 + length name) started ≡ named name
unfolding advance
advance-started name t =
    let e : 0 + length name ≡ length name = omega arith in
    let e' : length name - 0 ≡ length name = omega arith in rw (e, e', take-append name t) refl

-- The rounds of the loop on a content with one colon.
scan-one :
    (n : ℕ) (name f : List ℕ)
    → IsPlain name
    → IsPlain f
    → scan (suc (suc n)) (name ++ (b':' ∷ f)) started ≡ named name
scan-one n name f p q =
    let content = name ++ (b':' ∷ f) in
    let l : length content ≡ length name + suc (length f) = length-append name (b':' ∷ f) in
    scan-found (suc n) (length name) content started (ground arith) (find_colon-plain name f p)
    ∙ ap (scan (suc n) content) (advance-started name (b':' ∷ f))
    ∙ scan-none n content (named name) (ground arith)
        (ap find_colon (drop-behind name f b':') ∙ find_colon-none f q)

parse_dir-one :
    (name f : List ℕ)
    → IsPlain name
    → IsPlain f
    → parse_dir (name ++ (b':' ∷ f)) [] ≡ (name, string_to_id 0 (take (length name) f)) ∷ []
unfolding parse_dir
parse_dir-one name f p q =
    let content = name ++ (b':' ∷ f) in
    let l : length content ≡ suc (length name + length f) =
      omega (arith, length-append name (b':' ∷ f)) in
    let t =
      ap (λ n. scan (suc n) content started) l ∙ scan-one (length name + length f) name f p q in
    let d = ap (λ u. string_to_id 0 (take (length name) u)) (drop-behind name f b':') in
    rw (find_colon-plain name f p, parse_dir, t) (ap (λ k. (name, k) ∷ []) d)

-- A directory with one entry, whose name has no colon, is listed as that entry, but with only as many
-- digits of the number as the name has bytes, since the last number is cut out with the place of the
-- last colon for a length.
pub get_dir_content_lem :
    (inum parent : ℕ) (name : List ℕ) (m : Extents)
    → get parent [] m ≡ (Extent.ok, with_entry [] name inum)
    → IsPlain name
    → get_dir_content parent [] m
      ≡ (ok, (name, string_to_id 0 (take (length name) (filename inum))) ∷ [])
unfolding get_dir_content
get_dir_content_lem inum parent name m g p =
    rw g (ap (λ l. (ok, l)) (parse_dir-one name (filename inum) p (filename-IsPlain inum)))
