-- ===== src/Rpc/Unmarshall/Reads.antt =====
-- What each reader of class unmarshall takes from the bytes that remain.
use ds.Base.{
  ℕ, ◌≤◌, none, ◌+◌, ◌*◌, ◌/◌, ◌%◌, ◌^◌, ◌<◌, ◌≡◌, refl, ap, ◌∙◌, true, List, [], ◌∷◌, ◌++◌, some,
  arith, All, length, length-append, slice, slice-append_left, slice-append_right,
}
use ds.Rpc.Marshall.Writes.{be32}
use ds.Rpc.Unmarshall.{
  Unmarshall, char_to_uint, rawbyte, rawbytes, get_u8, get_u16, get_u32, get_u64, get_string,
  unpack,
}

-- The reader is in order, and `l` is what it has not read.
pub record Remains (u : Unmarshall) (l : List ℕ) : Type 0 where
  pub good : u.ok ≡ true
  pub size : u.ind + length l ≡ u.sz
  pub rest : slice u.buf u.ind (length l) ≡ l

-- `n` bytes further on.
abbrev pub advance : Unmarshall → ℕ → Unmarshall
advance u n = record u { ind = u.ind + n }

pub advance-Remains :
    (u : Unmarshall) (bs l : List ℕ) → Remains u (bs ++ l) → Remains (advance u (length bs)) l
advance-Remains u bs l r = record {
  good = r.good;
  size = omega (arith, r.size, length-append bs l);
  rest = slice-append_right u.buf u.ind bs l r.rest;
}

pub rawbyte_lem :
    (u : Unmarshall) (b : ℕ) (l : List ℕ)
    → Remains u (b ∷ l)
    → rawbyte u ≡ (char_to_uint b, advance u 1)
unfolding rawbyte
rawbyte_lem u b l r = ground arith

-- Masking with 0xff undoes the sign extension.
char_to_uint-mod : (b : ℕ) → b < 256 → char_to_uint b % 256 ≡ b
char_to_uint-mod b h = ground arith

-- Four bytes in network order.
pub unpack_lem :
    (u : Unmarshall) (a b c d : ℕ) (l : List ℕ)
    → All (λ x. x < 256) (a ∷ b ∷ c ∷ d ∷ [])
    → Remains u (a ∷ b ∷ c ∷ d ∷ l)
    → unpack u ≡ (a * 2 ^ 24 + b * 2 ^ 16 + c * 2 ^ 8 + d, advance u 4)
unfolding unpack
unpack_lem u a b c d l (p, (q, (s, (t, _)))) r =
    let r1 = advance-Remains u (a ∷ []) (b ∷ c ∷ d ∷ l) r in
    let r2 = advance-Remains (advance u 1) (b ∷ []) (c ∷ d ∷ l) r1 in
    let r3 = advance-Remains (advance (advance u 1) 1) (c ∷ []) (d ∷ l) r2 in
    rw
      (
        rawbyte_lem u a (b ∷ c ∷ d ∷ l) r,
        rawbyte_lem (advance u 1) b (c ∷ d ∷ l) r1,
        rawbyte_lem (advance (advance u 1) 1) c (d ∷ l) r2,
        rawbyte_lem (advance (advance (advance u 1) 1) 1) d l r3,
        char_to_uint-mod a p,
        char_to_uint-mod b q,
        char_to_uint-mod c s,
        char_to_uint-mod d t,
      )
      (ground arith)

-- A word that a writer put in network order is read back.
pub unpack-be32 :
    (u : Unmarshall) (x : ℕ) (l : List ℕ)
    → x < 2 ^ 32
    → Remains u (be32 x ++ l)
    → unpack u ≡ (x, advance u 4)
unpack-be32 u x l h r =
    unpack_lem u (x / 2 ^ 24 % 256) (x / 2 ^ 16 % 256) (x / 2 ^ 8 % 256) (x % 256) l (omega arith) r
    ∙ ap (λ (v : ℕ). (v, advance u 4)) (omega arith)

get_u32-unpack : (u : Unmarshall) → get_u32 u ≡ unpack u
unfolding get_u32 unpack
get_u32-unpack u = refl

pub get_u32-be32 :
    (u : Unmarshall) (x : ℕ) (l : List ℕ)
    → x < 2 ^ 32
    → Remains u (be32 x ++ l)
    → get_u32 u ≡ (x, advance u 4)
get_u32-be32 u x l h r = get_u32-unpack u ∙ unpack-be32 u x l h r

pub get_u8_lem :
    (u : Unmarshall) (x : ℕ) (l : List ℕ)
    → x < 2 ^ 8
    → Remains u ((x % 2 ^ 8) ∷ l)
    → get_u8 u ≡ (x, advance u 1)
unfolding get_u8
get_u8_lem u x l h r = rw (rawbyte_lem u (x % 2 ^ 8) l r) (ground arith)

pub get_u16_lem :
    (u : Unmarshall) (x : ℕ) (l : List ℕ)
    → x < 2 ^ 16
    → Remains u ((x / 2 ^ 8 % 256) ∷ (x % 256) ∷ l)
    → get_u16 u ≡ (x, advance u 2)
unfolding get_u16
get_u16_lem u x l h r =
    let r1 = advance-Remains u ((x / 2 ^ 8 % 256) ∷ []) ((x % 256) ∷ l) r in
    rw
      (
        rawbyte_lem u (x / 2 ^ 8 % 256) ((x % 256) ∷ l) r,
        rawbyte_lem (advance u 1) (x % 256) l r1,
        char_to_uint-mod (x / 2 ^ 8 % 256) (omega arith),
        char_to_uint-mod (x % 256) (omega arith),
      )
      (ground arith)

pub get_u64_lem :
    (u : Unmarshall) (x : ℕ) (l : List ℕ)
    → x < 2 ^ 64
    → Remains u (be32 (x / 2 ^ 32 % 2 ^ 32) ++ be32 (x % 2 ^ 32) ++ l)
    → get_u64 u ≡ (x, advance u 8)
unfolding get_u64
get_u64_lem u x l h r =
    let r1 = advance-Remains u (be32 (x / 2 ^ 32 % 2 ^ 32)) (be32 (x % 2 ^ 32) ++ l) r in
    rw
      (
        get_u32-be32 u (x / 2 ^ 32 % 2 ^ 32) (be32 (x % 2 ^ 32) ++ l) (omega arith) r,
        get_u32-be32 (advance u 4) (x % 2 ^ 32) l (omega arith) r1,
      )
      (ground arith)

pub rawbytes_lem :
    (u : Unmarshall) (old s l : List ℕ)
    → u.sz < 2 ^ 31
    → Remains u (s ++ l)
    → rawbytes old (length s) u ≡ some (s, advance u (length s))
unfolding rawbytes
rawbytes_lem u old s l fits r =
    ground (arith, r.size, length-append s l, slice-append_left u.buf u.ind s l r.rest)

pub get_string_lem :
    (u : Unmarshall) (old s l : List ℕ)
    → u.sz < 2 ^ 31
    → Remains u (be32 (length s % 2 ^ 32) ++ s ++ l)
    → get_string old u ≡ some (s, advance u (length (be32 (length s % 2 ^ 32) ++ s)))
unfolding get_string
get_string_lem u old s l fits r =
    let n : ℕ = length s % 2 ^ 32 in
    let small : n ≡ length s = omega (arith, r.size, length-append s l) in
    let r1 = advance-Remains u (be32 n) (s ++ l) r in
    ground
      (arith, get_u32-be32 u n (s ++ l) (omega arith) r, rawbytes_lem (advance u 4) old s l fits r1)

-- In a buffer below 2^31 bytes with the head inside it, when the length that is asked for makes the sum
-- with the head pass 2^32, the bound test of rawbytes passes although the bytes are not there, so that
-- it reads beyond the buffer.
pub rawbytes_wraps :
    (u : Unmarshall) (old : List ℕ) (n : ℕ)
    → u.sz < 2 ^ 31
    → u.ind ≤ u.sz
    → n < 2 ^ 32
    → 2 ^ 32 ≤ u.ind + n
    → rawbytes old n u ≡ none
unfolding rawbytes
rawbytes_wraps u old n f h k w = ground arith
