-- ===== src/Extent/Laws.antt =====
-- What a client of the extent server can rely on.
use ds.Base.{
  ℕ, ◌-◌, ◌≤◌, ◌≡◌, ◌≢◌, refl, List, some, arith, Option-cases, inl, inr, ◌∙◌, append-nil, find,
  insert, find-insert, length, length-append, length-take, length-replicate, take, take-length,
  replicate,
}
use ds.Extent.{
  ok, maxextent, Attr, ExtentInfo, Extents, stamped, extent_server, put, get, getattr, set_size,
  setattr, resize,
}

-- A put within the limit is what every later get of the extent returns, and its attributes have the
-- size of the content and the time of the put.
pub get-put :
    (now id : ℕ) (buf old : List ℕ) (a : Attr) (m : Extents)
    → length buf ≤ maxextent
    → ((put now id buf m).0 ≡ ok)
      × (get id old (put now id buf m).1 ≡ (ok, buf))
      × (getattr id a (put now id buf m).1 ≡ (ok, stamped now (length buf)))
unfolding put get getattr
get-put now id buf old a m h =
    let e : ExtentInfo = record { attr = stamped now (length buf); content = buf } in
    (ground arith, ground (arith, find-insert id id e m), ground (arith, find-insert id id e m))

pub find-put_ne :
    (now id j : ℕ) (buf : List ℕ) (m : Extents) → id ≢ j → find j (put now id buf m).1 ≡ find j m
unfolding put
find-put_ne now id j buf m h =
    ground (arith, find-insert id j (record { attr = stamped now (length buf); content = buf }) m)

find-setattr_ne :
    (now id j : ℕ) (a : Attr) (m : Extents) → id ≢ j → find j (setattr now id a m).1 ≡ find j m
unfolding setattr
find-setattr_ne now id j a m h = elim (Option-cases (find id m)) [
  | inl e ↦ rw (e, setattr)
  | inr (x, e) ↦ rw (e, setattr) (find-insert id j (set_size now a.size x) m ∙ ground arith)
]

-- Neither a put nor a setattr of one extent changes what get and getattr return for another one.
pub get-put_ne :
    (now id j : ℕ) (buf old : List ℕ) (a b : Attr) (m : Extents)
    → id ≢ j
    → (get j old (put now id buf m).1 ≡ get j old m)
      × (getattr j b (put now id buf m).1 ≡ getattr j b m)
      × (get j old (setattr now id a m).1 ≡ get j old m)
      × (getattr j b (setattr now id a m).1 ≡ getattr j b m)
unfolding get getattr
get-put_ne now id j buf old a b m h =
    let p = find-put_ne now id j buf m h in
    let q = find-setattr_ne now id j a m h in
    (rw (p, get), rw (p, getattr), rw (q, get), rw (q, getattr))

-- The recorded size of every extent is the length of its content.
abbrev pub IsValid : Extents → Type 0
IsValid m = (id : ℕ) (e : ExtentInfo) → find id m ≡ some e → e.attr.size ≡ length e.content

length-resize : (n : ℕ) (s : List ℕ) → length (resize n s) ≡ n
length-resize n s = omega (
  arith,
  length-append (take n s) (replicate (n - length s) 0),
  length-take n s,
  length-replicate {A = ℕ} (n - length s) 0,
)

resize_self : (s : List ℕ) → resize (length s) s ≡ s
resize_self s =
    let e : length s - length s ≡ 0 = omega arith in rw (e, take-length s) (append-nil s)

set_size-length :
    (now n : ℕ) (e : ExtentInfo)
    → e.attr.size ≡ length e.content
    → (set_size now n e).attr.size ≡ length (set_size now n e).content
unfolding set_size
set_size-length now n e v = ground (arith, length-resize n e.content)

content-set_size :
    (now n : ℕ) (e : ExtentInfo)
    → e.attr.size ≡ length e.content
    → (set_size now n e).content ≡ resize n e.content
unfolding set_size
content-set_size now n e v = ground (arith, resize_self e.content)

insert-IsValid :
    (id : ℕ) (e : ExtentInfo) (m : Extents)
    → e.attr.size ≡ length e.content
    → IsValid m
    → IsValid (insert id e m)
insert-IsValid id e m h v j f p = ground (arith, find-insert id j e m, v j f)

pub extent_server-IsValid : (now : ℕ) → IsValid (extent_server now)
unfolding extent_server find
extent_server-IsValid now id e p = ground arith

-- If the recorded size of every extent is the length of its content, it still is after a put,
-- whatever its status.
pub put-IsValid :
    (now id : ℕ) (buf : List ℕ) (m : Extents) → IsValid m → IsValid (put now id buf m).1
unfolding put
put-IsValid now id buf m v =
    let e : ExtentInfo = record { attr = stamped now (length buf); content = buf } in
    ground (arith, v, insert-IsValid id e m refl v)

-- If the recorded size of every extent is the length of its content, it still is after a setattr,
-- whatever its status.
pub setattr-IsValid :
    (now id : ℕ) (a : Attr) (m : Extents) → IsValid m → IsValid (setattr now id a m).1
unfolding setattr
setattr-IsValid now id a m v = elim (Option-cases (find id m)) [
  | inl e ↦ rw (e, setattr) v
  | inr (x, e) ↦
      rw (e, setattr)
        (insert-IsValid id (set_size now a.size x) m (set_size-length now a.size x (v id x e)) v)
]

-- For an extent that is there and whose recorded size is right, setattr succeeds and makes the content
-- exactly as long as asked: what was there is kept up to that length, and zeros fill the rest.
pub get-setattr :
    (now id : ℕ) (a : Attr) (e : ExtentInfo) (old : List ℕ) (m : Extents)
    → find id m ≡ some e
    → e.attr.size ≡ length e.content
    → ((setattr now id a m).0 ≡ ok)
      × (get id old (setattr now id a m).1 ≡ (ok, resize a.size e.content))
      × (length (resize a.size e.content) ≡ a.size)
unfolding setattr get
get-setattr now id a e old m k v = (
  rw (k, setattr),
  rw (k, setattr)
      (ground
        (arith, find-insert id id (set_size now a.size e) m, content-set_size now a.size e v)),
  length-resize a.size e.content,
)
