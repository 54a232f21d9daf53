-- ===== src/Rpc/Connection/Senders/Table.antt =====
-- A list as a table: the entry of a place, a changed entry, and the number of entries that a test picks.
use ds.Base.{
  ℕ, zero, suc, ◌+◌, ◌<◌, ◌≤◌, ◌≡◌, ◌≢◌, Bool, true, false, ltb, List, [], ◌∷◌, arith, ◌==◌, ◌&&◌,
  if◌then◌else◌, length, map, ap, refl, Bool-cases, inl, inr,
}

module _ {ℓ} {A : Type ℓ} where
  -- The entry, or `d` behind the end.
  unfoldable pub nth : A → ℕ → List A → A
  nth d i [] = d
  nth d zero (x ∷ xs) = x
  nth d (suc i) (x ∷ xs) = nth d i xs

  unfoldable pub set_at : ℕ → A → List A → List A
  set_at i y [] = []
  set_at zero y (x ∷ xs) = y ∷ xs
  set_at (suc i) y (x ∷ xs) = x ∷ set_at i y xs

  unfoldable pub count : (A → Bool) → List A → ℕ
  count f [] = 0
  count f (x ∷ xs) = (if f x then 1 else 0) + count f xs

  pub nth-set_at :
      (d : A) (i j : ℕ) (y : A) (xs : List A)
      → nth d j (set_at i y xs) ≡ (if (i == j) && ltb i (length xs) then y else nth d j xs)
  unfolding nth set_at
  nth-set_at d i j y [] = ground arith
  nth-set_at d zero zero y (x ∷ xs) = ground arith
  nth-set_at d zero (suc j) y (x ∷ xs) = ground arith
  nth-set_at d (suc i) zero y (x ∷ xs) = ground arith
  nth-set_at d (suc i) (suc j) y (x ∷ xs) = ground (arith, nth-set_at d i j y xs)

  pub nth-map :
      (d : A) (f : A → A) (i : ℕ) (xs : List A) → f d ≡ d → nth d i (map f xs) ≡ f (nth d i xs)
  unfolding nth
  nth-map d f i [] h = ground arith
  nth-map d f zero (x ∷ xs) h = ground arith
  nth-map d f (suc i) (x ∷ xs) h = nth-map d f i xs h

  pub count-set_at :
      (f : A → Bool) (d : A) (i : ℕ) (y : A) (xs : List A)
      → i < length xs
      → count f (set_at i y xs) + (if f (nth d i xs) then 1 else 0)
        ≡ count f xs + (if f y then 1 else 0)
  unfolding nth set_at count
  count-set_at f d i y [] h = absurd (ground arith)
  count-set_at f d zero y (x ∷ xs) h = ground arith
  count-set_at f d (suc i) y (x ∷ xs) h = ground (arith, count-set_at f d i y xs (ground arith))

  -- A test that picks no more afterwards than before.
  pub count-map :
      (f g : A → Bool) (h : A → A) (xs : List A)
      → ((x : A) → f (h x) ≡ g x)
      → count f (map h xs) ≡ count g xs
  unfolding count
  count-map f g h [] e = ground arith
  count-map f g h (x ∷ xs) e = ground (arith, e x, count-map f g h xs e)

  -- An entry that is picked counts.
  pub count-nth :
      (f : A → Bool) (d : A) (i : ℕ) (xs : List A)
      → f d ≡ false
      → f (nth d i xs) ≡ true
      → 0 < count f xs
  unfolding nth count
  count-nth f d i [] e h = absurd (ground arith)
  count-nth f d zero (x ∷ xs) e h = ground arith
  count-nth f d (suc i) (x ∷ xs) e h = ground (arith, count-nth f d i xs e h)

  -- Where one counts, there is one.
  pub count-found :
      (f : A → Bool) (d : A) (xs : List A) → 0 < count f xs → (i : ℕ) × (f (nth d i xs) ≡ true)
  unfolding nth count
  count-found f d [] h = absurd (ground arith)
  count-found f d (x ∷ xs) h = elim (Bool-cases (f x)) [
    | inl e ↦ (0, e)
    | inr e ↦ let (i, k) = count-found f d xs (ground arith) in (suc i, k)
  ]

  pub length-set_at : (i : ℕ) (y : A) (xs : List A) → length (set_at i y xs) ≡ length xs
  unfolding set_at
  length-set_at i y [] = refl
  length-set_at zero y (x ∷ xs) = refl
  length-set_at (suc i) y (x ∷ xs) = ground (arith, length-set_at i y xs)

  pub set_at_twice : (i : ℕ) (y z : A) (xs : List A) → set_at i y (set_at i z xs) ≡ set_at i y xs
  unfolding set_at
  set_at_twice i y z [] = refl
  set_at_twice zero y z (x ∷ xs) = refl
  set_at_twice (suc i) y z (x ∷ xs) = ap (x ∷◌) (set_at_twice i y z xs)

  -- A place behind the end has the entry `d`.
  pub nth_within :
      (d : A) (i : ℕ) (f : A → Bool) (xs : List A)
      → f d ≡ false
      → f (nth d i xs) ≡ true
      → i < length xs
  unfolding nth
  nth_within d i f [] e h = absurd (ground arith)
  nth_within d zero f (x ∷ xs) e h = ground arith
  nth_within d (suc i) f (x ∷ xs) e h = ground (arith, nth_within d i f xs e h)

  -- Two places that are picked are one, or count as two.
  pub count_two :
      (f : A → Bool) (d : A) (i j : ℕ) (xs : List A)
      → f d ≡ false
      → f (nth d i xs) ≡ true
      → f (nth d j xs) ≡ true
      → i ≢ j
      → 2 ≤ count f xs
  unfolding nth count
  count_two f d i j [] e h k n = absurd (ground arith)
  count_two f d zero zero (x ∷ xs) e h k n = absurd (n refl)
  count_two f d zero (suc j) (x ∷ xs) e h k n = ground (arith, count-nth f d j xs e k)
  count_two f d (suc i) zero (x ∷ xs) e h k n = ground (arith, count-nth f d i xs e h)
  count_two f d (suc i) (suc j) (x ∷ xs) e h k n =
      ground (arith, count_two f d i j xs e h k (ground arith))
