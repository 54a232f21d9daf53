-- ===== src/Base/Memory.antt =====
-- Raw memory as a function from offsets to bytes, and maps as functions from keys to options.
use Prim.Native.Nat.{ℕ, zero, suc, ◌+◌, ◌-◌, ◌≤◌, ◌<◌}
use mathlib.Core.Path.{◌≡◌, refl, ap, ◌∙◌}
use mathlib.Core.Bool.{◌&&◌}
use mathlib.Core.List.{List, [], ◌∷◌, ◌++◌}
use native.Mathlib.Nat.{add-zero, add-suc, zero-add}
use Prim.Native.Nat.add
use native.Mathlib.Omega.{arith}
use ds.Base.Tests.{ltb, leb, ◌==◌, if◌then◌else◌}
use ds.Base.Lists.{length, length-append, get_or}

-- Bytes that nothing has written yet have some value too.
abbrev pub Mem : Type 0
Mem = ℕ → ℕ

-- f[k] = v
abbrev pub update {ℓ} : {A : Type ℓ} → (ℕ → A) → ℕ → A → ℕ → A
update f k v j = if k == j then v else f j

-- memcpy(f + at, p, length p)
abbrev pub copy_at : Mem → ℕ → List ℕ → Mem
copy_at f at p j = if leb at j && ltb j (at + length p) then get_or p (j - at) 0 else f j

-- The `n` bytes from offset `i` on.
abbrev pub slice : Mem → ℕ → ℕ → List ℕ
slice f i zero = []
slice f i (suc n) = f i ∷ slice f (suc i) n

pub length-slice : (f : Mem) (i n : ℕ) → length (slice f i n) ≡ n
length-slice f i zero = refl
length-slice f i (suc n) = ap suc (length-slice f (suc i) n)

pub slice-add : (f : Mem) (i m n : ℕ) → slice f i (m + n) ≡ slice f i m ++ slice f (i + m) n
slice-add f i zero n = rw (add.zero n, add-zero i)
slice-add f i (suc m) n =
    rw (add.suc m n) (rw (slice-add f (suc i) m n) (rw (add-suc i m, add.suc i m)))

-- Two memories that agree on a range have the same slice there.
pub slice_congr :
    (f g : Mem) (i n : ℕ) → ((j : ℕ) → i ≤ j → j < i + n → f j ≡ g j) → slice f i n ≡ slice g i n
slice_congr f g i zero h = refl
slice_congr f g i (suc n) h = rw (
  h i (omega arith) (omega arith),
  slice_congr f g (suc i) n (λ j p q. h j (omega arith) (omega arith)),
)

pub slice-last : (f : Mem) (n : ℕ) → slice f 0 (suc n) ≡ slice f 0 n ++ f n ∷ []
slice-last f n =
    ap (slice f 0) {x = suc n} {y = n + 1} (omega arith) ∙ slice-add f 0 n 1 ∙ rw (zero-add n)

-- A range that holds the bytes of a list one by one is that list.
slice-eq :
    (g : Mem) (i : ℕ) (p : List ℕ)
    → ((j : ℕ) → j < length p → g (i + j) ≡ get_or p j 0)
    → slice g i (length p) ≡ p
slice-eq g i [] h = refl
slice-eq g i (x ∷ xs) h = rw (
  ← add-zero i,
  h 0 (omega arith),
  add-zero i,
  slice-eq g (suc i) xs (λ j l. ap g (omega arith) ∙ h (suc j) (omega arith)),
)

copy_at-inside :
    (f : Mem) (at : ℕ) (p : List ℕ) (j : ℕ) → j < length p → copy_at f at p (at + j) ≡ get_or p j 0
copy_at-inside f at p j l = let e : at + j - at ≡ j = omega arith in rw e (ground arith)

-- A copied block reads back, and what lies before it stays.
pub slice-copy_at :
    (f : Mem) (at : ℕ) (p : List ℕ) → slice (copy_at f at p) 0 (at + length p) ≡ slice f 0 at ++ p
slice-copy_at f at p = rw (slice-add (copy_at f at p) 0 at (length p)) (
    rw (
      slice_congr (copy_at f at p) f 0 at (λ j l m. ground arith),
      zero-add at,
      slice-eq (copy_at f at p) at p (copy_at-inside f at p),
    ))

pub slice-update : (f : Mem) (at x : ℕ) → slice (update f at x) 0 (suc at) ≡ slice f 0 at ++ x ∷ []
slice-update f at x =
    rw (slice-last (update f at x) at, slice_congr (update f at x) f 0 at (λ j l m. ground arith))
      (ground arith)

-- A slice that is a concatenation, taken apart.
pub slice-append_right :
    (f : Mem) (i : ℕ) (bs l : List ℕ)
    → slice f i (length (bs ++ l)) ≡ bs ++ l
    → slice f (i + length bs) (length l) ≡ l
slice-append_right f i [] l h = rw (add-zero i) h
slice-append_right f i (b ∷ bs) l h =
    rw (add-suc i (length bs), ← add.suc i (length bs))
      (slice-append_right f (suc i) bs l (tail_eq h))
  where
    tail_eq :
        f i ∷ slice f (suc i) (length (bs ++ l)) ≡ b ∷ bs ++ l
        → slice f (suc i) (length (bs ++ l)) ≡ bs ++ l
    tail_eq e = cc

pub slice-append_left :
    (f : Mem) (i : ℕ) (bs l : List ℕ)
    → slice f i (length (bs ++ l)) ≡ bs ++ l
    → slice f i (length bs) ≡ bs
slice-append_left f i [] l h = refl
slice-append_left f i (b ∷ bs) l h = cc (h, slice-append_left f (suc i) bs l (cc))

pub slice-append :
    (f : Mem) (i : ℕ) (bs l : List ℕ)
    → slice f i (length bs) ≡ bs
    → slice f (i + length bs) (length l) ≡ l
    → slice f i (length (bs ++ l)) ≡ bs ++ l
slice-append f i bs l h k =
    ap (slice f i) (length-append bs l) ∙ slice-add f i (length bs) (length l) ∙ rw (h, k)
