-- ===== src/Fuse/Pages.antt =====
-- A directory that is read in pages (fuse.cc).
use ds.Base.{
  ℕ, zero, suc, ◌+◌, ◌-◌, ◌≤◌, ◌<◌, ◌≡◌, refl, sym, ap, ◌∙◌, Bool-cases, inl, inr, ltb, List, [],
  ◌∷◌, ◌++◌, some, arith, zero-add, length, length-append, length-drop, length-take, length-slice,
  take, drop, take-append_at, drop-append_at, take_all, drop_all, drop-add, take-drop, true,
  copy_at, Mem, slice, slice-add, slice-copy_at, find,
}
use ds.Extent.{Extents, ExtentInfo}
use ds.Yfs.{isdir}
use ds.Yfs.Attributes.{get_dir_content-some}
use ds.Yfs.Directory.{parse_dir}
use ds.Fuse.{
  Answer, Dirbuf, reply_buf, c_str, dirbuf_add, fill_dirbuf, reply_buf_limited, fuseserver_readdir,
}

-- The bytes of a single reply.
abbrev pub page : List Answer × Extents → List ℕ
page (reply_buf l ∷ [], m) = l
page _ = []

-- A page and what follows it, unless it is empty.
abbrev pub followed : List ℕ → (ℕ → List ℕ) → List ℕ
followed [] more = []
followed (c ∷ l) more = (c ∷ l) ++ more (length (c ∷ l))

followed_lem :
    (l whole : List ℕ) (more : ℕ → List ℕ)
    → (0 < length l → l ++ more (length l) ≡ whole)
    → (length l ≡ 0 → [] ≡ whole)
    → followed l more ≡ whole
followed_lem [] whole more h k = k refl
followed_lem (c ∷ l) whole more h k = h (omega arith)

-- A part of a slice.
slice-part : (f : Mem) (n off k : ℕ) → off + k ≤ n → take k (drop off (slice f 0 n)) ≡ slice f off k
slice-part f n off k h =
    let r = n - off - k in
    let e : n ≡ off + (k + r) = omega arith in
    ap (λ i. take k (drop off (slice f 0 i))) e
    ∙ ap (λ l. take k (drop off l))
        (slice-add f 0 off (k + r) ∙ ap (λ i. slice f 0 off ++ slice f i (k + r)) (zero-add off))
    ∙ ap (take k) (drop-append_at off (slice f 0 off) (slice f off (k + r)) (length-slice f 0 off))
    ∙ ap (take k) (slice-add f off k r)
    ∙ take-append_at k (slice f off k) (slice f (off + k) r) (length-slice f off k)

-- At the end of the buffer and behind it nothing is left.
reply_buf_limited_lem :
    (f : Mem) (n off max : ℕ)
    → reply_buf_limited f n off max ≡ reply_buf (take max (drop off (slice f 0 n)))
unfolding reply_buf_limited
reply_buf_limited_lem f n off max =
    let left : length (drop off (slice f 0 n)) ≡ n - off =
      length-drop off (slice f 0 n) ∙ ap (λ i. i - off) (length-slice f 0 n) in
    elim (Bool-cases (ltb off n)) [
      | inl e ↦ elim (Bool-cases (ltb (n - off) max)) [
        | inl t ↦
            let whole = slice-part f n off (n - off) (ground (arith, e)) in
            let a = take_all (n - off) (drop off (slice f 0 n)) (omega (arith, left)) in
            let b = take_all max (drop off (slice f 0 n)) (ground (arith, left, t)) in
            rw (e, t) (ap reply_buf (sym whole ∙ a ∙ sym b))
        | inr t ↦ rw (e, t) (ap reply_buf (sym (slice-part f n off max (ground (arith, e, t)))))
      ]
      | inr e ↦
          let none_left = drop_all off (slice f 0 n) (ground (arith, length-slice f 0 n, e)) in
          rw (e, none_left) (ap reply_buf (sym (take_all max [] (omega arith))))
    ]

module _ (dirent_size : ℕ → ℕ) (add_dirent : List ℕ → ℕ → ℕ → List ℕ) where
  -- The entries behind each other, the last of the directory first, each with the offset of its end.
  abbrev pub laid_out : List (List ℕ × ℕ) → List ℕ
  laid_out [] = []
  laid_out ((name, inum) ∷ rest) =
      let before = laid_out rest in
      before ++ add_dirent (c_str name) inum (length before + dirent_size (length (c_str name)))

  -- The pages that follow each other from `off` on, until an empty one comes; at most `fuel` of them.
  abbrev pub pages : ℕ → ℕ → ℕ → ℕ → Mem → Extents → List ℕ
  pages zero ino size off fresh m = []
  pages (suc fuel) ino size off fresh m =
      followed (page (fuseserver_readdir dirent_size add_dirent ino size off fresh m))
        (λ n. pages fuel ino size (off + n) fresh m)

  module _
      (sizes : (name : List ℕ) (inum off : ℕ)
        → length (add_dirent name inum off) ≡ dirent_size (length name)) where
    slice-dirbuf_add :
        (b : Dirbuf) (before name : List ℕ) (inum : ℕ)
        → b.size ≡ length before
        → slice b.p 0 (length before) ≡ before
        → ((dirbuf_add dirent_size add_dirent b name inum).size
            ≡ length (before ++ add_dirent name inum (length before + dirent_size (length name))))
          × (slice (dirbuf_add dirent_size add_dirent b name inum).p 0 (
                length (before ++ add_dirent name inum (length before + dirent_size (length name))))
              ≡ before ++ add_dirent name inum (length before + dirent_size (length name)))
    unfolding dirbuf_add
    slice-dirbuf_add b before name inum n s =
        let entry = add_dirent name inum (length before + dirent_size (length name)) in
        let l = length-append before entry in
        rw n (
          omega (arith, l, sizes name inum (length before + dirent_size (length name))),
          ap (slice (copy_at b.p (length before) entry) 0) l
              ∙ slice-copy_at b.p (length before) entry
              ∙ ap (λ a. a ++ entry) s,
        )

    slice-fill_dirbuf :
        (content : List (List ℕ × ℕ)) (fresh : Mem)
        → ((fill_dirbuf dirent_size add_dirent content (record { p = fresh; size = 0 })).size
            ≡ length (laid_out content))
          × (slice
                (fill_dirbuf dirent_size add_dirent content (record { p = fresh; size = 0 })).p
                0
                (length (laid_out content))
              ≡ laid_out content)
    unfolding fill_dirbuf
    slice-fill_dirbuf [] fresh = (refl, refl)
    slice-fill_dirbuf ((name, inum) ∷ rest) fresh =
        let (n, s) = slice-fill_dirbuf rest fresh in
        slice-dirbuf_add (fill_dirbuf dirent_size add_dirent rest (record { p = fresh; size = 0 }))
          (laid_out rest) (c_str name) inum n s

    readdir_lem :
        (ino size off : ℕ) (fresh : Mem) (x : ExtentInfo) (m : Extents)
        → isdir ino ≡ true
        → find ino m ≡ some x
        → fuseserver_readdir dirent_size add_dirent ino size off fresh m
          ≡ (reply_buf (take size (drop off (laid_out (parse_dir x.content [])))) ∷ [], m)
    unfolding fuseserver_readdir
    readdir_lem ino size off fresh x m d e =
        let content = parse_dir x.content [] in
        let b = fill_dirbuf dirent_size add_dirent content (record { p = fresh; size = 0 }) in
        let (n, s) = slice-fill_dirbuf content fresh in
        rw (d, get_dir_content-some ino m [] x e)
          (ap (λ a. (a ∷ [], m))
            (reply_buf_limited_lem b.p b.size off size
              ∙ ap (λ l. reply_buf (take size (drop off l))) (ap (slice b.p 0) n ∙ s)))

    -- If fuse_add_dirent writes as many bytes as fuse_dirent_size says, then in pages of any positive size
    -- that follow each other from the start until an empty one comes, a directory that is there is
    -- read exactly: what getDirContent lists, the last entry first, each with the offset of its end. As
    -- many requests as there are bytes are enough.
    pub readdir_pages :
        (ino size : ℕ) (fresh : Mem) (x : ExtentInfo) (m : Extents)
        → isdir ino ≡ true
        → find ino m ≡ some x
        → 0 < size
        → pages (length (laid_out (parse_dir x.content []))) ino size 0 fresh m
          ≡ laid_out (parse_dir x.content [])
    readdir_pages ino size fresh x m d e pos =
        from (length whole) 0 (omega (arith, length-drop 0 whole))
      where
        whole : List ℕ
        whole = laid_out (parse_dir x.content [])

        from :
            (fuel off : ℕ)
            → length (drop off whole) ≤ fuel
            → pages fuel ino size off fresh m ≡ drop off whole
        from zero off h = sym (drop_all 0 (drop off whole) h)
        from (suc fuel) off h =
            let rest = drop off whole in
            let l = take size rest in
            rw (readdir_lem ino size off fresh x m d e) (
              followed_lem l rest (λ n. pages fuel ino size (off + n) fresh m)
                (λ p.
                  ap (l ++◌) (
                    from fuel (off + length l) (
                      omega
                        (arith, p, h, length-drop (off + length l) whole, length-drop off whole))
                    ∙ drop-add off (length l) whole)
                  ∙ take-drop size rest)
                (λ z. sym (drop_all 0 rest (omega (arith, length-take size rest)))))
