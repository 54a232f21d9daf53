-- ===== src/Rpc/Codec/Laws.antt =====
-- What is written with a codec is what is read back with it.
use ds.Base.{
  ℕ, ◌/◌, ◌%◌, ◌^◌, ◌<◌, ◌≡◌, refl, sym, ap, List, [], ◌∷◌, ◌++◌, some, arith, length,
  length-append, append_assoc, append-nil, All,
}
use ds.Rpc.Marshall.{str}
use ds.Rpc.Marshall.Writes.{
  Writes, Writes-bind, be32, put_u8-Writes, put_u16-Writes, put_u32-Writes, put_u64-Writes,
  put_string-Writes,
}
use ds.Rpc.Unmarshall.{Unmarshall}
use ds.Rpc.Unmarshall.Reads.{
  Remains, advance, advance-Remains, get_u8_lem, get_u16_lem, get_u32-be32, get_u64_lem,
  get_string_lem,
}
use ds.Rpc.Codec.{
  Codec, u8, u16, u32, u64, string, pair, put_items, put_vector, get_items, get_vector,
}

pub record Lawful {A : Type 0} (c : Codec A) (encode : A → List ℕ) (InRange : A → Type 0)
    : Type 0 where
  pub writes : (x : A) → Writes (encode x) (c.put x)
  pub reads :
      (x old : A) (u : Unmarshall) (l : List ℕ)
      → InRange x
      → u.sz < 2 ^ 31
      → Remains u (encode x ++ l)
      → c.get old u ≡ some (x, advance u (length (encode x)))

abbrev pub encode_u64 : ℕ → List ℕ
encode_u64 x = be32 (x / 2 ^ 32 % 2 ^ 32) ++ be32 (x % 2 ^ 32)

abbrev pub encode_string : List ℕ → List ℕ
encode_string s = be32 (length s % 2 ^ 32) ++ s

pub u8-Lawful : Lawful u8 (λ x. (x % 2 ^ 8) ∷ []) (λ x. x < 2 ^ 8)
u8-Lawful = record {
  writes = put_u8-Writes;
  reads = λ x old u l h f r. ap some (get_u8_lem u x l h r);
}

pub u16-Lawful : Lawful u16 (λ x. (x / 2 ^ 8 % 256) ∷ (x % 256) ∷ []) (λ x. x < 2 ^ 16)
u16-Lawful = record {
  writes = put_u16-Writes;
  reads = λ x old u l h f r. ap some (get_u16_lem u x l h r);
}

pub u32-Lawful : Lawful u32 be32 (λ x. x < 2 ^ 32)
u32-Lawful = record {
  writes = put_u32-Writes;
  reads = λ x old u l h f r. ap some (get_u32-be32 u x l h r);
}

pub u64-Lawful : Lawful u64 encode_u64 (λ x. x < 2 ^ 64)
u64-Lawful = record {
  writes = put_u64-Writes;
  reads = λ x old u l h f r. ap some (get_u64_lem u x l h r);
}

pub string-Lawful : Lawful string encode_string (λ s. Unit)
string-Lawful = record {
  writes = put_string-Writes;
  reads = λ s old u l h f r. get_string_lem u old s l f r;
}

module _ {A B : Type 0} {ca : Codec A} {cb : Codec B} {ea : A → List ℕ} {eb : B → List ℕ}
    {ra : A → Type 0} {rb : B → Type 0} where
  pub pair-Lawful :
      Lawful ca ea ra
      → Lawful cb eb rb
      → Lawful (pair ca cb) (λ t. ea t.0 ++ eb t.1) (λ t. ra t.0 × rb t.1)
  pair-Lawful la lb = record {
    writes = λ t. Writes-bind (la.writes t.0) (lb.writes t.1);
    reads = λ t old u l h f r. both t old u l h f r;
  }
    where
      both :
          (t old : A × B) (u : Unmarshall) (l : List ℕ)
          → ra t.0 × rb t.1
          → u.sz < 2 ^ 31
          → Remains u ((ea t.0 ++ eb t.1) ++ l)
          → (pair ca cb).get old u ≡ some (t, advance u (length (ea t.0 ++ eb t.1)))
      both t old u l h f r =
          let r0 : Remains u (ea t.0 ++ (eb t.1 ++ l)) = rw (append_assoc) at r in
          let r1 = advance-Remains u (ea t.0) (eb t.1 ++ l) r0 in
          ground (
            arith,
            la.reads t.0 old.0 u (eb t.1 ++ l) h.0 f r0,
            lb.reads t.1 old.1 (advance u (length (ea t.0))) l h.1 f r1,
            length-append (ea t.0) (eb t.1),
          )

-- Lists of items, one after another.
abbrev pub encode_items : {A : Type 0} → (A → List ℕ) → List A → List ℕ
encode_items e [] = []
encode_items e (x ∷ xs) = e x ++ encode_items e xs

module _ {A : Type 0} {c : Codec A} {e : A → List ℕ} {ok : A → Type 0} (law : Lawful c e ok) where
  pub put_items-Writes : (xs : List A) → Writes (encode_items e xs) (put_items c xs)
  unfolding put_items
  put_items-Writes [] = record {
    run = λ m v h. record {
      after = m;
      done = refl;
      valid = v;
      view = sym (append-nil (str m));
      frame = λ j l. refl;
      grown = omega arith;
      moved = omega arith;
    };
  }
  put_items-Writes (x ∷ xs) = Writes-bind (law.writes x) (put_items-Writes xs)

  pub put_vector-Writes :
      (xs : List A) → Writes (be32 (length xs % 2 ^ 32) ++ encode_items e xs) (put_vector c xs)
  unfolding put_vector
  put_vector-Writes xs = Writes-bind (put_u32-Writes _) (put_items-Writes xs)

  get_items_lem :
      (z : A) (xs old : List A) (u : Unmarshall) (l : List ℕ)
      → All ok xs
      → u.sz < 2 ^ 31
      → Remains u (encode_items e xs ++ l)
      → get_items c z (length xs) old u ≡ some (old ++ xs, advance u (length (encode_items e xs)))
  unfolding get_items
  get_items_lem z [] old u l h f r = ground (arith, append-nil old)
  get_items_lem z (x ∷ xs) old u l h f r =
      let r0 : Remains u (e x ++ (encode_items e xs ++ l)) = rw append_assoc at r in
      let r1 = advance-Remains u (e x) (encode_items e xs ++ l) r0 in
      ground (
        arith,
        law.reads x z u (encode_items e xs ++ l) h.0 f r0,
        get_items_lem z xs (old ++ x ∷ []) (advance u (length (e x))) l h.1 f r1,
        length-append (e x) (encode_items e xs),
        append_assoc old (x ∷ []) xs,
      )

  -- If a codec reads back what it writes, reading a vector of fewer than 2^32 items in range, as
  -- put_vector writes it, gives those items behind what the variable held before, and leaves the
  -- reader behind them.
  pub get_vector_lem :
      (z : A) (xs old : List A) (u : Unmarshall) (l : List ℕ)
      → All ok xs
      → length xs < 2 ^ 32
      → u.sz < 2 ^ 31
      → Remains u (be32 (length xs % 2 ^ 32) ++ encode_items e xs ++ l)
      → get_vector c z old u
        ≡ some (old ++ xs, advance u (length (be32 (length xs % 2 ^ 32) ++ encode_items e xs)))
  unfolding get_vector
  get_vector_lem z xs old u l h n f r =
      let k : ℕ = length xs % 2 ^ 32 in
      let small : k ≡ length xs = omega arith in
      let r1 = advance-Remains u (be32 k) (encode_items e xs ++ l) r in
      ground (
        arith,
        get_u32-be32 u k (encode_items e xs ++ l) (omega arith) r,
        get_items_lem z xs old (advance u 4) l h f r1,
      )
