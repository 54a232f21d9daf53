-- ===== src/Rpc/Marshall/Writes.antt =====
-- What each writer of class marshall appends to the contents, with the growth of the buffer.
use ds.Base.{
  ℕ, suc, ◌+◌, ◌*◌, ◌/◌, ◌%◌, ◌^◌, ◌≤◌, ◌<◌, ◌≡◌, refl, ◌∙◌, List, [], ◌∷◌, ◌++◌, Option, none,
  some, arith, ltb, leb, ◌>>=◌, Bool-cases, inl, inr, leb→le, length, length-append, append_assoc,
  Mem, update, copy_at, slice-update, slice-copy_at,
}
use ds.Rpc.Marshall.{
  Marshall, store, copy, realloc, rawbyte, rawbytes, put_u8, put_u16, put_u32, put_u64, put_string,
  pack, str, int_max,
}

-- The contents stay below this size, so that no `int` overflows.
abbrev pub max_fill : ℕ
max_fill = 2 ^ 28

-- The allocated bytes.
abbrev pub memory : Marshall → Mem
memory m = elim m.buf [ none ↦ (λ _. 0) | some b ↦ b ]

-- The bytes are allocated, the head lies within them, and doubling the capacity cannot overflow.
pub record IsValid (m : Marshall) : Type 0 where
  pub mem : Mem
  pub allocated : m.buf ≡ some mem
  pub within : m.ind ≤ m.capa
  pub positive : 1 ≤ m.capa
  pub bounded : m.capa ≤ 2 * max_fill

-- The writer succeeds, appends `bs` to the contents, and leaves the buffer well formed.
pub record Appends (m : Marshall) (bs : List ℕ) (r : Option Marshall) : Type 0 where
  pub after : Marshall
  pub done : r ≡ some after
  pub valid : IsValid after
  pub view : str after ≡ str m ++ bs
  pub frame : (j : ℕ) → m.ind + length bs ≤ j → memory after j ≡ memory m j
  pub grown : m.capa ≤ after.capa
  pub moved : after.ind ≡ m.ind + length bs

-- The same contents with another capacity.
abbrev with_capa : Marshall → ℕ → Marshall
with_capa m c = record m { capa = c }

store-Appends :
    (m : Marshall) (b : Mem) (x c : ℕ)
    → m.buf ≡ some b
    → m.ind < c
    → m.capa ≤ c
    → c ≤ 2 * max_fill
    → Appends m (x ∷ []) (store x (with_capa m c))
unfolding store str
store-Appends m b x c e h grows k = record {
  after = record m { buf = some (update b m.ind x); ind = suc m.ind; capa = c };
  done = ground arith;
  valid = record {
    mem = update b m.ind x;
    allocated = refl;
    within = h;
    positive = omega arith;
    bounded = k;
  };
  view = rw (e, slice-update b m.ind x);
  frame = λ j l. rw e (ground arith);
  grown = grows;
  moved = omega arith;
}

realloc_lem :
    (m : Marshall) (b : Mem) (c : ℕ)
    → m.buf ≡ some b
    → c ≤ int_max
    → realloc c m ≡ some (with_capa m c)
unfolding realloc
realloc_lem m b c e h = ground arith

pub rawbyte-Appends :
    (m : Marshall) (x : ℕ) → IsValid m → m.ind < max_fill → Appends m (x ∷ []) (rawbyte x m)
unfolding rawbyte
rawbyte-Appends m x v h = elim (Bool-cases (leb m.capa m.ind)) [
  | inl full ↦
      rw (full, realloc_lem m v.mem (m.capa * 2) v.allocated (omega (arith, leb→le _ _ full)))
        (store-Appends m v.mem x (m.capa * 2) v.allocated (ground arith) (ground arith)
          (ground arith))
  | inr free ↦
      rw free
        (store-Appends m v.mem x m.capa v.allocated (ground arith) (ground arith) (ground arith))
]

copy-Appends :
    (m : Marshall) (b : Mem) (p : List ℕ) (c : ℕ)
    → m.buf ≡ some b
    → m.ind + length p ≤ c
    → 1 ≤ c
    → m.capa ≤ c
    → c ≤ 2 * max_fill
    → Appends m p (copy p (with_capa m c))
unfolding copy str
copy-Appends m b p c e h l grows k = record {
  after = record m { buf = some (copy_at b m.ind p); ind = m.ind + length p; capa = c };
  done = ground arith;
  valid = record {
    mem = copy_at b m.ind p;
    allocated = refl;
    within = h;
    positive = l;
    bounded = k;
  };
  view = rw (e, slice-copy_at b m.ind p);
  frame = λ j l. rw e (ground arith);
  grown = grows;
  moved = refl;
}

-- On a well-formed buffer with room for `p` below the limit, rawbytes succeeds, grows the buffer far
-- enough, and appends exactly `p` to the contents; the buffer stays well formed, so that no byte is
-- written outside it.
pub rawbytes-Appends :
    (m : Marshall) (p : List ℕ)
    → IsValid m
    → m.ind + length p ≤ max_fill
    → Appends m p (rawbytes p m)
unfolding rawbytes
rawbytes-Appends m p v h = elim (Bool-cases (ltb m.capa (m.ind + length p))) [
  | inl full ↦ rw full (elim (Bool-cases (ltb (length p) m.capa)) [
    | inl small ↦
        rw (small, realloc_lem m v.mem (2 * m.capa) v.allocated (ground arith))
          (copy-Appends m v.mem p (2 * m.capa) v.allocated (ground arith) (ground arith)
            (ground arith) (ground arith))
    | inr large ↦
        rw (large, realloc_lem m v.mem (m.capa + length p) v.allocated (ground arith))
          (copy-Appends m v.mem p (m.capa + length p) v.allocated (ground arith) (ground arith)
            (ground arith) (ground arith))
  ])
  | inr free ↦ rw free (
      copy-Appends m v.mem p m.capa v.allocated (ground arith) (ground arith) (ground arith)
        (ground arith))
]

-- A writer that appends `bs` to every well-formed buffer with room for it.
pub record Writes (bs : List ℕ) (op : Marshall → Option Marshall) : Type 0 where
  pub run : (m : Marshall) → IsValid m → m.ind + length bs ≤ max_fill → Appends m bs (op m)

pub byte-Writes : (x : ℕ) → Writes (x ∷ []) (rawbyte x)
byte-Writes x = record { run = λ m v h. rawbyte-Appends m x v (omega arith) }

pub rawbytes-Writes : (p : List ℕ) → Writes p (rawbytes p)
rawbytes-Writes p = record { run = λ m v h. rawbytes-Appends m p v h }

-- One writer after another.
pub Writes-bind :
    {bs cs : List ℕ} {f g : Marshall → Option Marshall}
    → Writes bs f
    → Writes cs g
    → Writes (bs ++ cs) (λ m. f m >>= g)
Writes-bind {bs} {cs} {f} {g} wf wg = record { run = both }
  where
    both :
        (m : Marshall)
        → IsValid m
        → m.ind + length (bs ++ cs) ≤ max_fill
        → Appends m (bs ++ cs) (f m >>= g)
    both m v h =
        let first = wf.run m v (omega (arith, length-append bs cs)) in
        let second =
          wg.run first.after first.valid (omega (arith, length-append bs cs, first.moved)) in
        record {
          after = second.after;
          done = rw first.done second.done;
          valid = second.valid;
          view = rw (second.view, first.view, append_assoc);
          frame = λ j l.
              second.frame j (omega (arith, length-append bs cs, first.moved))
              ∙ first.frame j (omega (arith, length-append bs cs));
          grown = omega (arith, first.grown, second.grown);
          moved = omega (arith, first.moved, second.moved, length-append bs cs);
        }

-- The four bytes of a word in network order.
abbrev pub be32 : ℕ → List ℕ
be32 x = (x / 2 ^ 24 % 256) ∷ (x / 2 ^ 16 % 256) ∷ (x / 2 ^ 8 % 256) ∷ (x % 256) ∷ []

pub pack-Writes : (x : ℕ) → Writes (be32 x) (pack x)
unfolding pack
pack-Writes x =
    Writes-bind (byte-Writes _)
      (Writes-bind (byte-Writes _) (Writes-bind (byte-Writes _) (byte-Writes _)))

pub put_u8-Writes : (x : ℕ) → Writes ((x % 2 ^ 8) ∷ []) (put_u8 x)
unfolding put_u8
put_u8-Writes x = byte-Writes _

pub put_u16-Writes : (x : ℕ) → Writes ((x / 2 ^ 8 % 256) ∷ (x % 256) ∷ []) (put_u16 x)
unfolding put_u16
put_u16-Writes x = Writes-bind (byte-Writes _) (byte-Writes _)

pub put_u32-Writes : (x : ℕ) → Writes (be32 x) (put_u32 x)
unfolding put_u32
put_u32-Writes x =
    Writes-bind (byte-Writes _)
      (Writes-bind (byte-Writes _) (Writes-bind (byte-Writes _) (byte-Writes _)))

pub put_u64-Writes : (x : ℕ) → Writes (be32 (x / 2 ^ 32 % 2 ^ 32) ++ be32 (x % 2 ^ 32)) (put_u64 x)
unfolding put_u64
put_u64-Writes x = Writes-bind (put_u32-Writes _) (put_u32-Writes _)

pub put_string-Writes : (s : List ℕ) → Writes (be32 (length s % 2 ^ 32) ++ s) (put_string s)
unfolding put_string
put_string-Writes s = Writes-bind (put_u32-Writes _) (rawbytes-Writes s)
