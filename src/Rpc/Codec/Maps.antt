-- ===== src/Rpc/Codec/Maps.antt =====
-- What is written of a std::map is what is read back (operator<< and operator>> of rpc/marshall.h).
use ds.Base.{
  ℕ, ◌%◌, ◌^◌, ◌<◌, ◌≡◌, refl, subst, List, [], ◌∷◌, ◌++◌, some, arith, length, length-append,
  append_assoc, append-nil, All, Map, insert,
}
use ds.Rpc.Marshall.Writes.{Writes, Writes-bind, be32, put_u32-Writes}
use ds.Rpc.Unmarshall.{Unmarshall}
use ds.Rpc.Unmarshall.Reads.{Remains, advance, advance-Remains, get_u32-be32}
use ds.Rpc.Codec.{Codec, put_map, get_entries, get_map}
use ds.Rpc.Codec.Laws.{Lawful, pair-Lawful, encode_items, put_items-Writes}

-- The entries in the order of their keys, as a map has them: every key of `d` is below `k`, and those of
-- `d` ascend.
abbrev pub Below : {B : Type 0} → ℕ → Map B → Type 0
Below k [] = Unit
Below k (x ∷ d) = (x.0 < k) × Below k d

abbrev pub Above : {B : Type 0} → ℕ → Map B → Type 0
Above k [] = Unit
Above k (x ∷ d) = (k < x.0) × Above k d

abbrev pub Ascends : {B : Type 0} → Map B → Type 0
Ascends [] = Unit
Ascends (x ∷ d) = Above x.0 d × Ascends d

module _ {B : Type 0} where
  insert_last : (k : ℕ) (v : B) (d : Map B) → Below k d → insert k v d ≡ d ++ (k, v) ∷ []
  unfolding insert
  insert_last k v [] h = refl
  insert_last k v (x ∷ d) h = ground (arith, insert_last k v d h.1)

  -- All of the first map before all of the second.
  abbrev Precedes : Map B → Map B → Type 0
  Precedes d [] = Unit
  Precedes d (x ∷ e) = Below x.0 d × Precedes d e

  Below-append : (k j : ℕ) (v : B) (d : Map B) → Below k d → j < k → Below k (d ++ (j, v) ∷ [])
  Below-append k j v [] h l = (l, tt)
  Below-append k j v (x ∷ d) h l = (h.0, Below-append k j v d h.1 l)

  Precedes-append :
      (d e : Map B) (j : ℕ) (v : B) → Precedes d e → Above j e → Precedes (d ++ (j, v) ∷ []) e
  Precedes-append d [] j v h a = tt
  Precedes-append d (x ∷ e) j v h a =
      (Below-append x.0 j v d h.0 a.0, Precedes-append d e j v h.1 a.1)

  nil-Precedes : (e : Map B) → Precedes [] e
  nil-Precedes [] = tt
  nil-Precedes (x ∷ e) = (tt, nil-Precedes e)

module _ {B : Type 0} {ca : Codec ℕ} {cb : Codec B} {ea : ℕ → List ℕ} {eb : B → List ℕ}
    {ra : ℕ → Type 0} {rb : B → Type 0} (la : Lawful ca ea ra) (lb : Lawful cb eb rb) where
  -- The bytes of an entry, and of a map.
  abbrev pub encode_entry : ℕ × B → List ℕ
  encode_entry t = ea t.0 ++ eb t.1

  abbrev pub encode_map : Map B → List ℕ
  encode_map d = be32 (length d % 2 ^ 32) ++ encode_items (λ t. ea t.0 ++ eb t.1) d

  put_map-Writes : (d : Map B) → Writes (encode_map d) (put_map ca cb d)
  unfolding put_map
  put_map-Writes d = Writes-bind (put_u32-Writes _) (put_items-Writes (pair-Lawful la lb) d)

  get_entries_lem :
      (z : ℕ × B) (xs old : Map B) (u : Unmarshall) (l : List ℕ)
      → All (λ t. ra t.0 × rb t.1) xs
      → Precedes old xs
      → Ascends xs
      → u.sz < 2 ^ 31
      → Remains u (encode_items (λ t. ea t.0 ++ eb t.1) xs ++ l)
      → get_entries ca cb z (length xs) old u
        ≡ some (old ++ xs, advance u (length (encode_items (λ t. ea t.0 ++ eb t.1) xs)))
  unfolding get_entries
  get_entries_lem z [] old u l h p a f r = ground (arith, append-nil old)
  get_entries_lem z ((k, v) ∷ xs) old u l h p a f r =
      let e : ℕ × B → List ℕ = λ t. ea t.0 ++ eb t.1 in
      let law = pair-Lawful la lb in
      let r0 : Remains u (e (k, v) ++ (encode_items e xs ++ l)) =
        subst (Remains u) (append_assoc (e (k, v)) (encode_items e xs) l) r in
      let r1 = advance-Remains u (e (k, v)) (encode_items e xs ++ l) r0 in
      ground (
        arith,
        law.reads (k, v) z u (encode_items e xs ++ l) h.0 f r0,
        insert_last k v old p.0,
        get_entries_lem z xs (old ++ (k, v) ∷ []) (advance u (length (e (k, v)))) l h.1
            (Precedes-append old xs k v p.1 a.0) a.1 f r1,
        length-append (e (k, v)) (encode_items e xs),
        append_assoc old ((k, v) ∷ []) xs,
      )

  -- If the codecs of keys and values read back what they write, a map of fewer than 2^32 entries in
  -- range, with its keys in order, is written as its size and its entries, and reading that gives the
  -- map, whatever the variable held before, and leaves the reader behind it.
  pub map_lem :
      (z : ℕ × B) (d old : Map B) (u : Unmarshall) (l : List ℕ)
      → All (λ t. ra t.0 × rb t.1) d
      → Ascends d
      → length d < 2 ^ 32
      → u.sz < 2 ^ 31
      → Remains u (encode_map d ++ l)
      → Writes (encode_map d) (put_map ca cb d)
        × (get_map ca cb z old u ≡ some (d, advance u (length (encode_map d))))
  unfolding get_map
  map_lem z d old u l h a n f r =
      let k : ℕ = length d % 2 ^ 32 in
      let small : k ≡ length d = omega arith in
      let e : ℕ × B → List ℕ = λ t. ea t.0 ++ eb t.1 in
      let r1 = advance-Remains u (be32 k) (encode_items e d ++ l) r in
      (
        put_map-Writes d,
        ground (
          arith,
          get_u32-be32 u k (encode_items e d ++ l) (omega arith) r,
          get_entries_lem z d [] (advance u 4) l h (nil-Precedes d) a f r1,
        ),
      )
