-- ===== src/Rpc/Codec.antt =====
-- The overloads of operator<< and operator>> as one interface: how a type is written and read.
-- `get` takes the old value of the variable that is read into. Several arguments in a row,
-- `m << a1; m << a2;`, are the pair of their codecs.
pub mod Laws
pub mod Maps
use ds.Base.{ℕ, zero, suc, ◌%◌, ◌^◌, List, [], ◌∷◌, ◌++◌, Option, some, ◌>>=◌, length, Map, insert}
use ds.Rpc.Marshall.{Marshall, put_u8, put_u16, put_u32, put_u64, put_string}
use ds.Rpc.Unmarshall.{Unmarshall, get_u8, get_u16, get_u32, get_u64, get_string}

pub record Codec (A : Type 0) : Type 0 where
  pub put : A → Marshall → Option Marshall
  pub get : A → Unmarshall → Option (A × Unmarshall)

-- unsigned char, and char
abbrev pub u8 : Codec ℕ
u8 = record { put = put_u8; get = λ _ u. some (get_u8 u) }

-- unsigned short, and short
abbrev pub u16 : Codec ℕ
u16 = record { put = put_u16; get = λ _ u. some (get_u16 u) }

-- unsigned int, and int
abbrev pub u32 : Codec ℕ
u32 = record { put = put_u32; get = λ _ u. some (get_u32 u) }

-- unsigned long long
abbrev pub u64 : Codec ℕ
u64 = record { put = put_u64; get = λ _ u. some (get_u64 u) }

-- std::string
abbrev pub string : Codec (List ℕ)
string = record { put = put_string; get = get_string }

-- m << a; m << b    and    u >> a; u >> b
abbrev pub pair : {A B : Type 0} → Codec A → Codec B → Codec (A × B)
pair ca cb = record {
  put = λ (a, b) m. ca.put a m >>= cb.put b;
  get = λ (a, b) u. ca.get a u >>= λ (x, v). cb.get b v >>= λ (y, w). some ((x, y), w);
}

module _ {A : Type 0} (c : Codec A) where
  -- for(unsigned i = 0; i < v.size(); i++) m << v[i];
  pub put_items : List A → Marshall → Option Marshall
  put_items [] m = some m
  put_items (x ∷ xs) m = c.put x m >>= put_items xs

  -- operator<< of std::vector
  pub put_vector : List A → Marshall → Option Marshall
  put_vector v m = put_u32 (length v % 2 ^ 32) m >>= put_items v

  -- The loop of operator>>: `z` is what each fresh element holds before it is read.
  pub get_items : A → ℕ → List A → Unmarshall → Option (List A × Unmarshall)
  get_items z zero v u = some (v, u)
  get_items z (suc n) v u = c.get z u >>= λ (x, u'). get_items z n (v ++ x ∷ []) u'

  -- operator>> of std::vector
  pub get_vector : A → List A → Unmarshall → Option (List A × Unmarshall)
  get_vector z v u = let (n, u') = get_u32 u in get_items z n v u'

-- std::map, here with numbers for keys
module _ {B : Type 0} (ca : Codec ℕ) (cb : Codec B) where
  -- operator<< of std::map: the loop writes key and value of each entry.
  unfoldable pub put_map : Map B → Marshall → Option Marshall
  put_map d m = put_u32 (length d % 2 ^ 32) m >>= put_items (pair ca cb) d

  -- The loop of operator>>: `z` is what a and b hold before they are read.
  unfoldable pub get_entries : ℕ × B → ℕ → Map B → Unmarshall → Option (Map B × Unmarshall)
  get_entries z zero d u = some (d, u)
  get_entries z (suc n) d u =
      (pair ca cb).get z u >>= λ ((a, b), u'). get_entries z n (insert a b d) u'

  -- operator>> of std::map: what d held is cleared.
  unfoldable pub get_map : ℕ × B → Map B → Unmarshall → Option (Map B × Unmarshall)
  unfolding get_entries
  get_map z d u = let (n, u') = get_u32 u in get_entries z n [] u'
