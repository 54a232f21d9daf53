-- ===== src/Fuse/Bytes.antt =====
-- Bytes that are written through FUSE and read again (fuse.cc).
use ds.Base.{
  ℕ, ◌+◌, ◌-◌, ◌≤◌, ◌<◌, ◌≡◌, ◌≢◌, refl, ap, ◌∙◌, List, [], ◌∷◌, ◌++◌, some, false, arith, ◌==◌,
  All, length, length-append, length-take, length-drop, take_all, take, drop,
}
use ds.Extent.{Extents, maxextent, get, put}
use ds.Extent
use ds.Extent.Laws.{get-put}
use ds.Yfs.{ok, no_attr, write, written}
use ds.Yfs.Files.{spliced, write_lem, write-put, written_lem}
use ds.Fuse.{reply_buf, reply_write, c_string, fuseserver_read, fuseserver_write}

-- No zero.
abbrev pub IsText : List ℕ → Type 0
IsText = All (λ c. c ≢ 0)

c_string_lem : (s rest : List ℕ) → IsText s → c_string (s ++ (0 ∷ rest)) ≡ some s
unfolding c_string
c_string_lem [] rest h = refl
c_string_lem (c ∷ s) rest (n, h) =
    let e : (c == 0) ≡ false = ground arith in rw (e, c_string_lem s rest h) refl

write-text :
    (now ino size off : ℕ) (s rest : List ℕ) (m n : Extents)
    → IsText s
    → write now ino s size off m ≡ (ok, n)
    → fuseserver_write now ino (s ++ (0 ∷ rest)) size off m ≡ some (reply_write size ∷ [], n)
unfolding fuseserver_write
write-text now ino size off s rest m n h w = rw (c_string_lem s rest h, w) refl

-- A write of bytes without a zero, which are followed by one, into a file that is there, at a place
-- in it or at its end, and within the size limit, replies the number of bytes asked for; a later read
-- at the same place replies exactly these bytes, and every other extent is as it was.
pub write_read :
    (now ino j size off : ℕ) (s rest content old : List ℕ) (m : Extents)
    → IsText s
    → size ≤ length s
    → get ino [] m ≡ (Extent.ok, content)
    → off ≤ length content
    → length (spliced content s size off) ≤ maxextent
    → ino ≢ j
    → (n : Extents) × (fuseserver_write now ino (s ++ (0 ∷ rest)) size off m
        ≡ some (reply_write size ∷ [], n))
      × (fuseserver_read ino size off n ≡ (reply_buf (take size s) ∷ [], n))
      × (get j old n ≡ get j old m)
unfolding fuseserver_read
write_read now ino j size off s rest content old m t l g h b ne =
    let (w, _, _, o) = write_lem now ino j off size s content old m g h l b ne in
    let (_, _, r, _) = write_lem now ino j off size s content [] m g h l b ne in
    let p =
      write-put now ino off size s content (spliced content s size off) m g
        (written_lem content s size off h) b in
    let n = (put now ino (spliced content s size off) m).1 in
    let r' = rw p at r in
    let o' = rw p at o in (n, write-text now ino size off s rest m n t p, rw r' refl, o')

-- A write of bytes of which one is zero replies the number of bytes asked for, but only the bytes before
-- the first zero are written, over all the bytes asked for: where these lie within the file, the
-- file becomes shorter by the bytes that were lost.
pub write_zero :
    (now ino size off : ℕ) (s rest content old : List ℕ) (m : Extents)
    → IsText s
    → length s < size
    → get ino [] m ≡ (Extent.ok, content)
    → off + size ≤ length content
    → length content ≤ maxextent
    → (n : Extents) × (fuseserver_write now ino (s ++ (0 ∷ rest)) size off m
        ≡ some (reply_write size ∷ [], n))
      × (get ino old n ≡ (Extent.ok, take off content ++ (s ++ drop (off + size) content)))
      × (length (get ino old n).1 + (size - length s) ≡ length content)
write_zero now ino size off s rest content old m t l g h b =
    let c = take off content ++ (s ++ drop (off + size) content) in
    let e : written content s size off ≡ c =
      written_lem content s size off (omega arith)
      ∙ ap (λ u. take off content ++ (u ++ drop (off + size) content))
          (take_all size s (omega arith)) in
    let d : length c + (size - length s) ≡ length content = omega (
      arith,
      length-append (take off content) (s ++ drop (off + size) content),
      length-append s (drop (off + size) content),
      length-take off content,
      length-drop (off + size) content,
    ) in
    let p = write-put now ino off size s content c m g e (omega arith) in
    let n = (put now ino c m).1 in
    let q = (get-put now ino c old no_attr m (omega arith)).1 in
    (n, write-text now ino size off s rest m n t p, q, rw q d)
