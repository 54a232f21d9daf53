-- ===== src/Yfs/Lookup.antt =====
-- What create and ilookup (yfs_client.cc) do together on the text of a directory.
use ds.Base.{
  ℕ, zero, suc, ◌+◌, ◌/◌, ◌≤◌, ◌<◌, ◌≡◌, ◌≢◌, refl, sym, List, [], ◌∷◌, ◌++◌, true, false, Option,
  none, some, arith, ◌∙◌, ap, append_assoc, if◌then◌else◌, ltb, ◌==◌, Bool-cases, Option-cases, inl,
  inr, All, length, length-append, take, drop, take-append, drop-append,
}
use ds.Extent.{Extents, maxextent, get, put}
use ds.Extent
use ds.Yfs.{digits, filename, isfile, with_entry, create}
use ds.Yfs.Files.{create_lem}
use ds.Yfs.Directory.{find_colon, begins, find_text, lookup_in, ilookup}

-- No colon.
abbrev pub IsPlain : List ℕ → Type 0
IsPlain = All (λ c. c ≢ b':')

All-append : (s t : List ℕ) → IsPlain s → IsPlain t → IsPlain (s ++ t)
All-append [] t p q = q
All-append (c ∷ s) t (h, p) q = (h, All-append s t p q)

digits-IsPlain : (fuel n : ℕ) → IsPlain (digits fuel n)
unfolding digits
digits-IsPlain zero n = tt
digits-IsPlain (suc fuel) n = elim (Bool-cases (ltb n 10)) [
  | inl e ↦ rw e (ground (arith, e), tt)
  | inr e ↦
      rw e (All-append (digits fuel (n / 10)) _ (digits-IsPlain fuel (n / 10)) (omega arith, tt))
]

pub filename-IsPlain : (inum : ℕ) → IsPlain (filename inum)
unfolding filename
filename-IsPlain inum = digits-IsPlain 20 inum

pub find_colon-plain : (s t : List ℕ) → IsPlain s → find_colon (s ++ (b':' ∷ t)) ≡ some (length s)
unfolding find_colon
find_colon-plain [] t p = refl
find_colon-plain (c ∷ s) t (h, p) =
    let r = find_colon-plain s t p in let e : (c == b':') ≡ false = ground arith in rw (e, r) refl

pub find_colon-none : (s : List ℕ) → IsPlain s → find_colon s ≡ none
unfolding find_colon
find_colon-none [] p = refl
find_colon-none (c ∷ s) (h, p) =
    let r = find_colon-none s p in let e : (c == b':') ≡ false = ground arith in rw (e, r) refl

begins_self : (p t : List ℕ) → begins p (p ++ t) ≡ true
begins_self [] t = refl
begins_self (c ∷ p) t = ground (arith, begins_self p t)

-- A pattern whose only colon is its last byte does not reach past a colon of the text.
begins_colon :
    (p s t : List ℕ)
    → IsPlain p
    → begins (p ++ b':' ∷ []) (s ++ (b':' ∷ t)) ≡ begins (p ++ b':' ∷ []) (s ++ b':' ∷ [])
begins_colon [] [] t q = refl
begins_colon [] (d ∷ s) t q = refl
begins_colon (c ∷ p) [] t (h, q) = ground arith
begins_colon (c ∷ p) (d ∷ s) t (h, q) = ap (λ r. if c == d then r else false) (begins_colon p s t q)

-- The offset by which an occurrence moves when `n` bytes are put in front.
abbrev shift : ℕ → Option ℕ → Option ℕ
shift n none = none
shift n (some i) = some (n + i)

find_text_behind :
    (p s t : List ℕ)
    → IsPlain p
    → find_text (p ++ b':' ∷ []) (s ++ b':' ∷ []) ≡ none
    → find_text (p ++ b':' ∷ []) (s ++ (b':' ∷ t))
      ≡ shift (suc (length s)) (find_text (p ++ b':' ∷ []) t)
unfolding find_text
find_text_behind [] [] t q h = absurd (ground arith)
find_text_behind (c ∷ p) [] t (k, q) h =
    let e : (c == b':') ≡ false = ground arith in
    elim (Option-cases (find_text (c ∷ (p ++ b':' ∷ [])) t)) [
      | inl f ↦ rw (e, f) refl
      | inr (i, f) ↦ rw (e, f) (ap some (omega arith))
    ]
find_text_behind p (d ∷ s) t q h =
    let b = begins_colon p (d ∷ s) t q in
    elim (Bool-cases (begins (p ++ b':' ∷ []) (d ∷ (s ++ b':' ∷ [])))) [
      | inl e ↦ let z = rw e at h in absurd (ground arith)
      | inr e ↦ elim (Option-cases (find_text (p ++ b':' ∷ []) (s ++ b':' ∷ []))) [
        | inl f ↦
            let r = find_text_behind p s t q f in
            elim (Option-cases (find_text (p ++ b':' ∷ []) t)) [
              | inl g ↦ rw (b, e, r, g) refl
              | inr (i, g) ↦ rw (b, e, r, g) (ap some (omega arith))
            ]
        | inr (i, f) ↦ let z = rw (e, f) at h in absurd (ground arith)
      ]
    ]

find_text_self : (p t : List ℕ) → find_text p (p ++ t) ≡ some 0
unfolding find_text
find_text_self [] [] = refl
find_text_self [] (d ∷ t) = refl
find_text_self (c ∷ p) t =
    let e : begins (c ∷ p) (c ∷ (p ++ t)) ≡ true = begins_self (c ∷ p) t in rw e refl

-- ilookup's cuts, where the first occurrence of name and colon stands behind `before`
lookup_at :
    (n2i : List ℕ → ℕ) (content name before id : List ℕ)
    → IsPlain id
    → content ++ b':' ∷ [] ≡ before ++ ((name ++ b':' ∷ []) ++ (id ++ b':' ∷ []))
    → find_text (name ++ b':' ∷ []) (content ++ b':' ∷ []) ≡ some (length before)
    → lookup_in n2i content name ≡ n2i id
unfolding lookup_in
lookup_at n2i content name before id p c f =
    let name_cp = name ++ b':' ∷ [] in
    let tail = id ++ b':' ∷ [] in
    let d : drop (length before + length name_cp) (content ++ b':' ∷ []) ≡ tail =
      ap (drop (length before + length name_cp)) (c ∙ sym (append_assoc before name_cp tail))
      ∙ ap (λ n. drop n ((before ++ name_cp) ++ tail)) (sym (length-append before name_cp))
      ∙ drop-append (before ++ name_cp) tail in
    rw (f, lookup_in, d, find_colon-plain id [] p)
      (ap (λ t. n2i (take (length id) t)) d ∙ ap n2i (take-append id (b':' ∷ [])))

-- An entry that create appends is found, if the name is plain and was not found before.
pub lookup-with_entry :
    (n2i : List ℕ → ℕ) (dir name : List ℕ) (inum : ℕ)
    → IsPlain name
    → find_text (name ++ b':' ∷ []) (dir ++ b':' ∷ []) ≡ none
    → lookup_in n2i (with_entry dir name inum) name ≡ n2i (filename inum)
lookup-with_entry n2i [] name inum p h =
    let f = filename inum in
    let c : (name ++ (b':' ∷ f)) ++ b':' ∷ [] ≡ (name ++ b':' ∷ []) ++ (f ++ b':' ∷ []) =
      append_assoc name (b':' ∷ f) (b':' ∷ [])
      ∙ sym (append_assoc name (b':' ∷ []) (f ++ b':' ∷ [])) in
    lookup_at n2i (name ++ (b':' ∷ f)) name [] f (filename-IsPlain inum) c
      (rw c (find_text_self (name ++ b':' ∷ []) (f ++ b':' ∷ [])))
lookup-with_entry n2i (a ∷ rest) name inum p h =
    let f = filename inum in
    let dir = a ∷ rest in
    let name_cp = name ++ b':' ∷ [] in
    let c1 : (name ++ (b':' ∷ f)) ++ b':' ∷ [] ≡ name_cp ++ (f ++ b':' ∷ []) =
      append_assoc name (b':' ∷ f) (b':' ∷ [])
      ∙ sym (append_assoc name (b':' ∷ []) (f ++ b':' ∷ [])) in
    let c2 : with_entry dir name inum ++ b':' ∷ [] ≡ dir ++ (b':' ∷ (name_cp ++ (f ++ b':' ∷ []))) =
      append_assoc dir (b':' ∷ (name ++ (b':' ∷ f))) (b':' ∷ []) ∙ ap (λ t. dir ++ (b':' ∷ t)) c1 in
    let t = name_cp ++ (f ++ b':' ∷ []) in
    let g : find_text name_cp (dir ++ (b':' ∷ t)) ≡ some (length (dir ++ b':' ∷ [])) =
      find_text_behind name dir t p h
      ∙ ap (shift (suc (length dir))) (find_text_self name_cp (f ++ b':' ∷ []))
      ∙ ap some (omega (arith, length-append dir (b':' ∷ []))) in
    lookup_at n2i (with_entry dir name inum) name (dir ++ b':' ∷ []) f (filename-IsPlain inum)
      (c2 ∙ sym (append_assoc dir (b':' ∷ []) t)) (ap (find_text name_cp) c2 ∙ g)

-- A file that create has put into a directory, within the size limit and under a number other than
-- the directory's, is what ilookup then finds under its name, if the name has no colon and its text
-- with a colon behind it was not in the directory before. `n2i` is only asked to read back the decimal
-- digits of the number.
pub ilookup-create :
    (n2i : List ℕ → ℕ) (now parent inum : ℕ) (name dir : List ℕ) (m : Extents)
    → n2i (filename inum) ≡ inum
    → get parent [] m ≡ (Extent.ok, dir)
    → isfile inum ≡ true
    → length (with_entry dir name inum) ≤ maxextent
    → parent ≢ inum
    → IsPlain name
    → find_text (name ++ b':' ∷ []) (dir ++ b':' ∷ []) ≡ none
    → ilookup n2i parent name (create now parent inum name m).1 ≡ inum
unfolding ilookup
ilookup-create n2i now parent inum name dir m n g f b ne p h =
    let j = suc (parent + inum) in
    let c = create_lem now parent inum j name dir [] m g f b ne (omega arith) (omega arith) in
    rw c.1 (lookup-with_entry n2i dir name inum p h ∙ n)

begins_long :
    (p s t : List ℕ) → IsPlain s → length p < length s → begins (p ++ b':' ∷ []) (s ++ t) ≡ false
begins_long p [] t h l = absurd (omega arith)
begins_long [] (d ∷ s) t (k, h) l = ground arith
begins_long (c ∷ p) (d ∷ s) t (k, h) l = ground (arith, begins_long p s t h (omega arith))

find_text_suffix :
    (p s t : List ℕ)
    → IsPlain p
    → IsPlain s
    → find_text (p ++ b':' ∷ []) (s ++ ((p ++ b':' ∷ []) ++ t)) ≡ some (length s)
unfolding find_text
find_text_suffix p [] t q h = find_text_self (p ++ b':' ∷ []) t
find_text_suffix p (d ∷ s) t q (k, h) =
    let r = find_text_suffix p s t q h in
    let a : s ++ ((p ++ b':' ∷ []) ++ t) ≡ (s ++ p) ++ (b':' ∷ t) =
      ap (s ++◌) (append_assoc p (b':' ∷ []) t) ∙ sym (append_assoc s p (b':' ∷ t)) in
    let b : begins (p ++ b':' ∷ []) (d ∷ (s ++ ((p ++ b':' ∷ []) ++ t))) ≡ false =
      ap (λ u. begins (p ++ b':' ∷ []) (d ∷ u)) a
      ∙ begins_long p (d ∷ (s ++ p)) (b':' ∷ t) (k, All-append s p h q)
          (omega (arith, length-append s p)) in
    rw (b, r) refl

-- ilookup also takes the end of a longer name for the name: in a directory whose only entry is
-- `front` and `name` together, both without a colon, looking `name` up gives the number of that entry.
pub ilookup_suffix :
    (n2i : List ℕ → ℕ) (parent inum : ℕ) (front name : List ℕ) (m : Extents)
    → get parent [] m ≡ (Extent.ok, with_entry [] (front ++ name) inum)
    → IsPlain front
    → IsPlain name
    → ilookup n2i parent name m ≡ n2i (filename inum)
unfolding ilookup
ilookup_suffix n2i parent inum front name m g p q =
    let f = filename inum in
    let c : ((front ++ name) ++ (b':' ∷ f)) ++ b':' ∷ []
        ≡ front ++ ((name ++ b':' ∷ []) ++ (f ++ b':' ∷ [])) =
      append_assoc (front ++ name) (b':' ∷ f) (b':' ∷ [])
      ∙ append_assoc front name (b':' ∷ (f ++ b':' ∷ []))
      ∙ ap (front ++◌) (sym (append_assoc name (b':' ∷ []) (f ++ b':' ∷ []))) in
    rw g (
      lookup_at n2i (with_entry [] (front ++ name) inum) name front f (filename-IsPlain inum) c
        (rw c (find_text_suffix name front (f ++ b':' ∷ []) q p)))
