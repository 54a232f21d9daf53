-- ===== src/Yfs/Numbers.antt =====
-- The decimal digits of filename and what stringToid makes of them (yfs_client.cc).
use ds.Base.{
  ℕ, zero, suc, ◌+◌, ◌-◌, ◌*◌, ◌/◌, ◌%◌, ◌^◌, ◌<◌, ◌≡◌, refl, ◌∙◌, List, [], ◌∷◌, ◌++◌, arith, ltb,
  Bool-cases, inl, inr,
}
use ds.Yfs.{digits, filename, widen, string_to_id}

-- 10 to the number of digits
abbrev cap : ℕ → ℕ
cap zero = 1
cap (suc n) = cap n * 10

string_to_id-append :
    (ret c : ℕ) (s : List ℕ)
    → string_to_id ret (s ++ c ∷ []) ≡ (string_to_id ret s * 10 + widen c + (2 ^ 64 - 48)) % 2 ^ 64
unfolding string_to_id
string_to_id-append ret c [] = refl
string_to_id-append ret c (d ∷ s) =
    string_to_id-append ((ret * 10 + widen d + (2 ^ 64 - 48)) % 2 ^ 64) c s

string_to_id-digits : (fuel n : ℕ) → n < cap fuel → n < 2 ^ 64 → string_to_id 0 (digits fuel n) ≡ n
unfolding digits string_to_id
string_to_id-digits zero n h k = omega arith
string_to_id-digits (suc fuel) n h k =
    let ih = string_to_id-digits fuel (n / 10) (omega arith) (omega arith) in
    elim (Bool-cases (ltb n 10)) [
      | inl e ↦ rw e (ground arith)
      | inr e ↦ rw e (string_to_id-append 0 (48 + n % 10) (digits fuel (n / 10)) ∙ ground arith)
    ]

-- stringToid reads back the number whose decimal digits filename gives, for every number of 64 bits.
pub string_to_id-filename : (inum : ℕ) → inum < 2 ^ 64 → string_to_id 0 (filename inum) ≡ inum
unfolding filename
string_to_id-filename inum h = string_to_id-digits 20 inum (omega arith) h
