-- ===== src/Rpc/Client/Received.antt =====
-- The list of update_xid_rep as a set of received replies.
use ds.Base.{
  ℕ, ◌+◌, ◌^◌, ◌≤◌, ◌<◌, ◌≡◌, refl, sym, ap, ◌∙◌, Bool, false, ◌||◌, inl, inr, List, [], ◌∷◌, ◌++◌,
  arith, leb, ◌==◌, Bool-cases, All, append_assoc, append-nil,
}
use ds.Rpc.Client.Acks.{front, insert_xid, pop_before, compress, compress_all, update_xid_rep}

abbrev pub is_in : ℕ → List ℕ → Bool
is_in y [] = false
is_in y (a ∷ l) = a == y || is_in y l

-- All numbers up to the first, and those in the list.
abbrev pub received : List ℕ → ℕ → Bool
received w y = leb y (front w) || is_in y w

-- Every number is at most those behind it, and is an unsigned int.
abbrev pub IsSorted : List ℕ → Type 0
IsSorted [] = Unit
IsSorted (a ∷ l) = (a < 2 ^ 32) × All (λ b. a ≤ b) l × IsSorted l

All-insert_xid :
    (a xid : ℕ) (l : List ℕ) → a ≤ xid → All (λ b. a ≤ b) l → All (λ b. a ≤ b) (insert_xid xid l)
unfolding insert_xid
All-insert_xid a xid [] h s = (h, tt)
All-insert_xid a xid (b ∷ l) h s = ground (arith, All-insert_xid a xid l h s.1)

All-mono : (a b : ℕ) (l : List ℕ) → a ≤ b → All (λ c. b ≤ c) l → All (λ c. a ≤ c) l
All-mono a b [] h s = tt
All-mono a b (c ∷ l) h s = (omega (arith, s.0), All-mono a b l h s.1)

insert_xid-IsSorted :
    (xid : ℕ) (l : List ℕ) → xid < 2 ^ 32 → IsSorted l → IsSorted (insert_xid xid l)
unfolding insert_xid
insert_xid-IsSorted xid [] h s = (h, tt, tt)
insert_xid-IsSorted xid (a ∷ l) h s =
    ground (arith, insert_xid-IsSorted xid l h s.2, All-insert_xid a xid l, All-mono xid a l)

All-middle : (a x : ℕ) (bs l : List ℕ) → All (λ c. a ≤ c) (bs ++ x ∷ l) → a ≤ x
All-middle a x [] l s = s.0
All-middle a x (b ∷ bs) l s = All-middle a x bs l s.1

-- The first number may go when the second is at most one more.
pop_one : (b c y : ℕ) (l : List ℕ) → b ≤ c → c ≤ b + 1 → received (b ∷ c ∷ l) y ≡ received (c ∷ l) y
pop_one b c y l h k = ground arith

pop_before-received :
    (before : List ℕ) (x y : ℕ) (after : List ℕ)
    → IsSorted (before ++ x ∷ after)
    → (received (pop_before before x ++ x ∷ after) y ≡ received (before ++ x ∷ after) y)
      × IsSorted (pop_before before x ++ x ∷ after)
unfolding pop_before
pop_before-received [] x y after s = (refl, s)
pop_before-received (b ∷ []) x y after s = ground (arith, pop_one b x y after)
pop_before-received (b ∷ c ∷ bs) x y after s = ground (
  arith,
  pop_before-received (c ∷ bs) x y after s.2,
  pop_one b c y (bs ++ x ∷ after),
  All-middle c x bs after s.2.1,
)

compress-received :
    (before after : List ℕ) (y : ℕ)
    → IsSorted (before ++ after)
    → (received (compress before after) y ≡ received (before ++ after) y)
      × IsSorted (compress before after)
unfolding compress
compress-received before [] y s =
    (ap (λ w. received w y) (sym (append-nil before)), rw (append-nil before) at s)
compress-received before (x ∷ after) y s =
    let (same, s1) = pop_before-received before x y after s in
    let assoc = append_assoc (pop_before before x) (x ∷ []) after in
    let (rest, s2) = compress-received (pop_before before x ++ x ∷ []) after y (rw assoc s1) in
    (rest ∙ ap (λ w. received w y) assoc ∙ same, s2)

-- The number behind the first is not in the list.
abbrev pub IsGap : List ℕ → Type 0
IsGap w = is_in (front w + 1) w ≡ false

is_in-append : (y x : ℕ) (l : List ℕ) → is_in y (l ++ x ∷ []) ≡ (is_in y l || x == y)
is_in-append y x [] = ground arith
is_in-append y x (a ∷ l) = ground (arith, is_in-append y x l)

pop_before-IsGap :
    (before : List ℕ) (x : ℕ) (after : List ℕ)
    → IsSorted (before ++ x ∷ after)
    → IsGap before
    → IsGap (pop_before before x ++ x ∷ [])
unfolding pop_before
pop_before-IsGap [] x after s g = ground arith
pop_before-IsGap (b ∷ []) x after s g = ground arith
pop_before-IsGap (b ∷ c ∷ bs) x after s g = ground (
  arith,
  pop_before-IsGap (c ∷ bs) x after s.2,
  All-middle c x bs after s.2.1,
  All-middle b x bs after s.1.1,
  is_in-append (b + 1) x bs,
)

compress-IsGap :
    (before after : List ℕ)
    → IsSorted (before ++ after)
    → IsGap before
    → IsGap (compress before after)
unfolding compress
compress-IsGap before [] s g = g
compress-IsGap before (x ∷ after) s g =
    compress-IsGap (pop_before before x ++ x ∷ []) after
      (rw (append_assoc (pop_before before x) (x ∷ []) after)
        (pop_before-received before x 0 after s).1)
      (pop_before-IsGap before x after s g)

-- The list that the client keeps.
pub record IsWindow (w : List ℕ) : Type 0 where
  pub sorted : IsSorted w
  pub gap : IsGap w

compress_all-IsWindow : (w : List ℕ) → IsSorted w → IsWindow (compress_all w)
compress_all-IsWindow [] s = record { sorted = tt; gap = refl }
compress_all-IsWindow (a ∷ l) s = record {
  sorted = (compress-received (a ∷ []) l 0 s).1;
  gap = compress-IsGap (a ∷ []) l s (ground arith);
}

-- If the list is sorted and the number behind its first is missing, then this also holds after the
-- reply to any xid: the first number, which acknowledges all up to it, stops where a reply is missing.
pub update_xid_rep-IsWindow :
    (xid : ℕ) (w : List ℕ) → xid < 2 ^ 32 → IsWindow w → IsWindow (update_xid_rep xid w)
unfolding update_xid_rep
update_xid_rep-IsWindow xid w h v = elim (Bool-cases (leb xid (front w))) [
  | inl old ↦ rw old v
  | inr new ↦
      rw new (compress_all-IsWindow (insert_xid xid w) (insert_xid-IsSorted xid w h v.sorted))
]
