-- ===== src/Yfs/Files.antt =====
-- What reading, writing and creating promise: yfs_client::read, write and create against get.
use ds.Base.{
  ℕ, append_assoc, ◌+◌, ◌≤◌, ◌≡◌, ◌≢◌, refl, sym, List, [], ◌++◌, true, arith, ◌∙◌, ap, append-nil,
  leb, Bool-cases, inl, inr, length, length-append, length-take, take, drop, take-append,
  drop-append, take_all, drop_all,
}
use ds.Extent.{Extents, maxextent, get, put}
use ds.Extent
use ds.Extent.Laws.{get-put, get-put_ne}
use ds.Yfs.{ok, no_attr, isfile, with_entry, link, create, read, written, write}

-- The content after a write that starts inside the old content or at its end.
abbrev pub spliced : List ℕ → List ℕ → ℕ → ℕ → List ℕ
spliced content buf size off = take off content ++ (take size buf ++ drop (off + size) content)

pub written_lem :
    (content buf : List ℕ) (size off : ℕ)
    → off ≤ length content
    → written content buf size off ≡ spliced content buf size off
written_lem content buf size off h = elim (Bool-cases (leb (length content) off)) [
  | inl e ↦
      let p : length content ≤ off = ground (arith, e) in
      let q = take_all off content p in
      let r = drop_all (off + size) content (omega arith) in
      rw (e, q, r, append-nil (take size buf)) refl
  | inr e ↦ rw e (append_assoc (take off content) (take size buf) (drop (off + size) content))
]

-- The bytes at the place where they were written.
read-spliced :
    (content buf : List ℕ) (size off : ℕ)
    → off ≤ length content
    → size ≤ length buf
    → take size (drop off (spliced content buf size off)) ≡ take size buf
read-spliced content buf size off h k =
    let rest = drop (off + size) content in
    let l : length (take off content) ≡ off = omega (arith, length-take off content) in
    let m : length (take size buf) ≡ size = omega (arith, length-take size buf) in
    let d = drop-append (take off content) (take size buf ++ rest) in
    let t = take-append (take size buf) rest in
    ap (λ n. take size (drop n (spliced content buf size off))) (sym l)
    ∙ ap (take size) d
    ∙ ap (λ n. take n (take size buf ++ rest)) (sym m)
    ∙ t

-- A write whose result `s` is within the limit is a put of `s`.
pub write-put :
    (now file off size : ℕ) (buf content s : List ℕ) (m : Extents)
    → get file [] m ≡ (Extent.ok, content)
    → written content buf size off ≡ s
    → length s ≤ maxextent
    → write now file buf size off m ≡ (ok, (put now file s m).1)
unfolding write
write-put now file off size buf content s m g w b =
    let p : (put now file s m).0 ≡ Extent.ok = (get-put now file s [] no_attr m b).0 in
    rw (g, w, p) refl

read-content :
    (file size off : ℕ) (old content : List ℕ) (m : Extents)
    → get file [] m ≡ (Extent.ok, content)
    → read file size off old m ≡ (ok, take size (drop off content))
unfolding read
read-content file size off old content m g = elim (Bool-cases (leb (length content) off)) [
  | inl e ↦
      let r = drop_all off content (ground (arith, e)) in
      rw (g, e, r, take_all {A = ℕ} size [] (omega arith)) refl
  | inr e ↦ rw (g, e) refl
]

-- A write of bytes that the buffer has, which starts in the file or at its end and whose result is
-- within the size limit, succeeds and replaces exactly the bytes from `off` to `off + size`, as a
-- later get shows; a later read at the same place returns the bytes written, and every other extent
-- is as it was.
pub write_lem :
    (now file j off size : ℕ) (buf content old : List ℕ) (m : Extents)
    → get file [] m ≡ (Extent.ok, content)
    → off ≤ length content
    → size ≤ length buf
    → length (spliced content buf size off) ≤ maxextent
    → file ≢ j
    → ((write now file buf size off m).0 ≡ ok)
      × (get file old (write now file buf size off m).1 ≡ (Extent.ok, spliced content buf size off))
      × (read file size off old (write now file buf size off m).1 ≡ (ok, take size buf))
      × (get j old (write now file buf size off m).1 ≡ get j old m)
write_lem now file j off size buf content old m g h k b ne =
    let s = spliced content buf size off in
    let w = write-put now file off size buf content s m g (written_lem content buf size off h) b in
    let p' = (get-put now file s [] no_attr m b).1 in
    let r = read-content file size off old s (put now file s m).1 p' in
    rw w (
      refl,
      (get-put now file s old no_attr m b).1,
      r ∙ ap (λ l. (ok, l)) (read-spliced content buf size off h k),
      (get-put_ne now file j s old no_attr no_attr m ne).0,
    )

-- A write that starts at least its own length behind the end of the file, and whose result is within
-- the size limit, leaves no gap: the bytes go right behind the old content, so that a later read at
-- the place where they were written returns nothing.
pub write_behind_end :
    (now file off size n : ℕ) (buf content old : List ℕ) (m : Extents)
    → get file [] m ≡ (Extent.ok, content)
    → length content + size ≤ off
    → length (content ++ take size buf) ≤ maxextent
    → ((write now file buf size off m).0 ≡ ok)
      × (get file old (write now file buf size off m).1 ≡ (Extent.ok, content ++ take size buf))
      × (read file n off old (write now file buf size off m).1 ≡ (ok, []))
write_behind_end now file off size n buf content old m g h b =
    let s = content ++ take size buf in
    let e : leb (length content) off ≡ true = ground arith in
    let w = write-put now file off size buf content s m g (rw e refl) b in
    let l : length s ≤ off =
      omega (arith, length-append content (take size buf), length-take size buf) in
    let p' = (get-put now file s [] no_attr m b).1 in
    let r = read-content file n off old s (put now file s m).1 p' in
    rw w (
      refl,
      (get-put now file s old no_attr m b).1,
      r
          ∙ ap (λ l. (ok, take n l)) (drop_all off s l)
          ∙ ap (λ l. (ok, l)) (take_all {A = ℕ} n [] (omega arith)),
    )

pub link_lem :
    (now parent inum j : ℕ) (name dir old : List ℕ) (m : Extents)
    → length (with_entry dir name inum) ≤ maxextent
    → ((link now parent inum name dir m).0 ≡ ok)
      × (get parent old (link now parent inum name dir m).1 ≡ (Extent.ok, with_entry dir name inum))
      × (parent ≢ j → get j old (link now parent inum name dir m).1 ≡ get j old m)
unfolding link
link_lem now parent inum j name dir old m b =
    let s = with_entry dir name inum in
    let (p, q, _) = get-put now parent s old no_attr m b in
    (rw p refl, q, λ ne. (get-put_ne now parent j s old no_attr no_attr m ne).0)

-- Creating a file under a number other than the directory's, where the content of the directory stays
-- within the size limit, succeeds: the directory has the old content with the new entry behind it,
-- the file is there and empty, and every other extent is as it was.
pub create_lem :
    (now parent inum j : ℕ) (name dir old : List ℕ) (m : Extents)
    → get parent [] m ≡ (Extent.ok, dir)
    → isfile inum ≡ true
    → length (with_entry dir name inum) ≤ maxextent
    → parent ≢ inum
    → parent ≢ j
    → inum ≢ j
    → ((create now parent inum name m).0 ≡ ok)
      × (get parent old (create now parent inum name m).1 ≡ (Extent.ok, with_entry dir name inum))
      × (get inum old (create now parent inum name m).1 ≡ (Extent.ok, []))
      × (get j old (create now parent inum name m).1 ≡ get j old m)
unfolding create
create_lem now parent inum j name dir old m g f b ne nej nij =
    let (p, q, _) = get-put now inum [] old no_attr m (omega arith) in
    let m' = (put now inum [] m).1 in
    let l = link_lem now parent inum inum name dir old m' b in
    let l' = link_lem now parent inum j name dir old m' b in
    let e : create now parent inum name m ≡ link now parent inum name dir m' = rw (g, f, p) refl in
    rw e (l.0, l.1, l.2 ne ∙ q, l'.2 nej ∙ (get-put_ne now inum j [] old no_attr no_attr m nij).0)
