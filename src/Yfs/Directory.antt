-- ===== src/Yfs/Directory.antt =====
-- How a directory is read: getDirContent and ilookup (yfs_client.cc).
use ds.Base.{
  ℕ, zero, suc, ◌+◌, ◌-◌, ◌%◌, Bool, true, false, List, [], ◌∷◌, ◌++◌, Option, none, some, ltb,
  ◌==◌, if◌then◌else◌, length, take, drop,
}
use ds.Extent.{Extents, get}
use ds.Yfs.{Status, ok, ioerr, is_ok, string_to_id}

-- std::string::find of ':' in what stands from an offset on, counted from there
unfoldable pub find_colon : List ℕ → Option ℕ
find_colon [] = none
find_colon (c ∷ s) =
    if c == b':' then some 0 else elim (find_colon s) [ none ↦ none | some i ↦ some (suc i) ]

-- The variables of the loop.
pub record Scan : Type 0 where
  pub begin : ℕ
  pub end : ℕ
  pub cycle_time : ℕ
  pub temp_name : List ℕ
  pub dir_content : List (List ℕ × ℕ)

-- One round that found a colon at `pos`.
unfoldable pub advance : List ℕ → ℕ → Scan → Scan
advance content pos s =
    let seg = take (pos - s.begin) (drop s.begin content) in
    if (s.cycle_time + 1) % 2 == 1
    then record s { begin = pos + 1; end = pos; cycle_time = s.cycle_time + 1; temp_name = seg }
    else record s {
      begin = pos + 1;
      end = pos;
      cycle_time = s.cycle_time + 1;
      dir_content = s.dir_content ++ (s.temp_name, string_to_id 0 seg) ∷ [];
    }

-- while(end < contentLength), with fuel for one round per byte and one more
unfoldable pub scan : ℕ → List ℕ → Scan → Scan
unfolding advance
scan zero content s = s
scan (suc fuel) content s = elim (ltb s.end (length content)) [
  | false ↦ s
  | true ↦ elim (find_colon (drop s.begin content)) [
    | none ↦ s
    | some i ↦ scan fuel content (advance content (s.begin + i) s)
  ]
]

-- getDirContent on a content: the last id is cut out by substr(begin, end), `end` bytes at most.
unfoldable pub parse_dir : List ℕ → List (List ℕ × ℕ) → List (List ℕ × ℕ)
unfolding scan
parse_dir content old = elim (find_colon content) [
  | none ↦ old
  | some _ ↦
      let s =
        scan (suc (length content)) content
          (record { begin = 0; end = 0; cycle_time = 0; temp_name = []; dir_content = old }) in
      s.dir_content ++ (s.temp_name, string_to_id 0 (take s.end (drop s.begin content))) ∷ []
]

unfoldable pub get_dir_content : ℕ → List (List ℕ × ℕ) → Extents → Status × List (List ℕ × ℕ)
get_dir_content inum old m =
    let (r, content) = get inum [] m in
    if is_ok r then (ok, parse_dir content old) else (ioerr, old)

-- Whether `s` begins with `p`.
abbrev pub begins : List ℕ → List ℕ → Bool
begins [] s = true
begins (c ∷ p) [] = false
begins (c ∷ p) (d ∷ s) = let rest = begins p s in if c == d then rest else false

-- std::string::find: the offset of the first occurrence
unfoldable pub find_text : List ℕ → List ℕ → Option ℕ
find_text p [] = if begins p [] then some 0 else none
find_text p (d ∷ s) =
    let rest = find_text p s in
    if begins p (d ∷ s) then some 0 else elim rest [ none ↦ none | some i ↦ some (suc i) ]

-- ilookup on a content: the text behind the first occurrence of name and colon, up to the next
-- colon. `n2i` is what operator>> of istringstream reads.
unfoldable pub lookup_in : (List ℕ → ℕ) → List ℕ → List ℕ → ℕ
lookup_in n2i content name =
    let content_cp = content ++ b':' ∷ [] in
    let name_cp = name ++ b':' ∷ [] in
    elim (find_text name_cp content_cp) [
      | none ↦ 0
      | some i ↦
          let behind = drop (i + length name_cp) content_cp in
          elim (find_colon behind) [ none ↦ n2i behind | some n ↦ n2i (take n behind) ]
    ]

unfoldable pub ilookup : (List ℕ → ℕ) → ℕ → List ℕ → Extents → ℕ
ilookup n2i parent name m =
    let (r, content) = get parent [] m in if is_ok r then lookup_in n2i content name else 0
