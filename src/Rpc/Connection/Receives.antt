-- ===== src/Rpc/Connection/Receives.antt =====
-- What read_cb makes of a stream in pieces (rpc/connection.cc).
use ds.Base.{
  ℕ, suc, ◌+◌, ◌^◌, ◌≤◌, ◌<◌, ◌≡◌, refl, sym, ap, subst, ◌∙◌, true, false, List, [], ◌∷◌, ◌++◌,
  none, some, arith, append-nil, append_assoc, length, length-append, Mem, copy_at, slice,
  slice-copy_at,
}
use ds.Rpc.Marshall.Writes.{be32}
use ds.Rpc.Connection.{
  charbuf, Connection, ReadResult, bytes, at_end, failed, ntohl, max_pdu, read_cb, receive,
}

-- The pieces in which `rest` is read, one for each event, with events that find nothing to read.
abbrev pub Pieces : List ℕ → List (ReadResult × ReadResult) → Type 0
Pieces rest [] = rest ≡ []
Pieces rest ((_, bytes l) ∷ rs) = (t : List ℕ) × (rest ≡ l ++ t) × (0 < length l) × Pieces t rs
Pieces rest ((_, failed true) ∷ rs) = (0 < length rest) × Pieces rest rs
Pieces rest ((_, failed false) ∷ rs) = ⊥
Pieces rest ((_, at_end _) ∷ rs) = ⊥

-- A connection that has read the first `k` bytes of a pdu.
abbrev reading : Connection → Mem → ℕ → ℕ → Connection
reading c b sz k = record c { dead = false; rpdu = record { buf = some b; sz = sz; solong = k } }

abbrev idle : Connection → Connection
idle c = record c { dead = false; rpdu = charbuf }

ntohl-be32 : (x : ℕ) → x < 2 ^ 32 → ntohl (be32 x) ≡ x
ntohl-be32 x h = omega arith

module _ (c : Connection) (first : ReadResult) (fresh : Mem) where
  read_cb-more :
      (b : Mem) (l : List ℕ) (sz k : ℕ)
      → k + length l < sz
      → read_cb first (bytes l) fresh true (reading c b sz k)
        ≡ some (reading c (copy_at b k l) sz (k + length l), none)
  unfolding read_cb
  read_cb-more b l sz k h = ground arith

  read_cb-last :
      (b : Mem) (l : List ℕ) (sz k : ℕ)
      → 0 < length l
      → k + length l ≡ sz
      → read_cb first (bytes l) fresh true (reading c b sz k)
        ≡ some (idle c, some (copy_at b k l, sz))
  unfolding read_cb
  read_cb-last b l sz k p h = ground arith

  read_cb-again :
      (b : Mem) (sz k : ℕ)
      → k < sz
      → read_cb first (failed true) fresh true (reading c b sz k) ≡ some (reading c b sz k, none)
  unfolding read_cb
  read_cb-again b sz k h = ground arith

-- The event that finds the size reads on as if the size had been read before.
read_cb-size :
    (c : Connection) (first second : ReadResult) (fresh : Mem) (sz : ℕ)
    → 4 < sz
    → sz ≤ max_pdu
    → read_cb (bytes (be32 sz)) second fresh true (idle c)
      ≡ read_cb first second fresh true (reading c (copy_at fresh 0 (be32 sz)) sz 4)
unfolding read_cb
read_cb-size c first second fresh sz h k = ground (arith, ntohl-be32 sz)

-- No more events come than the pdu needs.
receive-nil :
    (rs : List (ReadResult × ReadResult)) (fresh : Mem) (c : Connection)
    → Pieces [] rs
    → receive rs fresh c ≡ some (c, [])
unfolding receive
receive-nil [] fresh c h = refl
receive-nil ((first, bytes l) ∷ rs) fresh c (t, split, q, _) =
    absurd (omega (arith, ap length split, length-append l t))
receive-nil ((first, failed true) ∷ rs) fresh c (q, t) = absurd (omega arith)
receive-nil ((first, failed false) ∷ rs) fresh c h = absurd h
receive-nil ((first, at_end x) ∷ rs) fresh c h = absurd h

-- What is left of the pdu arrives.
receive_rest :
    (rs : List (ReadResult × ReadResult)) (c : Connection) (fresh b : Mem) (sz k : ℕ)
    (before rest : List ℕ)
    → 0 < length rest
    → k + length rest ≡ sz
    → slice b 0 k ≡ before
    → Pieces rest rs
    → (m : Mem) × (receive rs fresh (reading c b sz k) ≡ some (idle c, (m, sz) ∷ []))
      × (slice m 0 sz ≡ before ++ rest)
unfolding receive
receive_rest [] c fresh b sz k before rest p e s h = absurd (ground (arith, ap length h))
receive_rest ((first, bytes l) ∷ rs) c fresh b sz k before rest p e s ([], split, q, t) =
    let whole : rest ≡ l = split ∙ append-nil l in
    let n : k + length l ≡ sz = omega (arith, ap length whole) in
    (
      copy_at b k l,
      rw (read_cb-last c first fresh b l sz k q n, receive-nil rs fresh (idle c) t) refl,
      ap (slice (copy_at b k l) 0) (sym n)
          ∙ slice-copy_at b k l
          ∙ ap (λ a. a ++ l) s
          ∙ ap (before ++◌) (sym whole),
    )
receive_rest ((first, bytes l) ∷ rs) c fresh b sz k before rest p e s (x ∷ u, split, q, t) =
    let n = length-append l (x ∷ u) in
    let total : length rest ≡ length l + suc (length u) = ap length split ∙ n in
    let (m, r, w) =
      receive_rest rs c fresh (copy_at b k l) sz (k + length l) (before ++ l) (x ∷ u) (omega arith)
        (omega (arith, total)) (slice-copy_at b k l ∙ ap (λ a. a ++ l) s) t in
    (
      m,
      rw (read_cb-more c first fresh b l sz k (omega (arith, total)), r) refl,
      w ∙ append_assoc before l (x ∷ u) ∙ ap (before ++◌) (sym split),
    )
receive_rest ((first, failed true) ∷ rs) c fresh b sz k before rest p e s (q, t) =
    let (m, r, w) = receive_rest rs c fresh b sz k before rest p e s t in
    (m, rw (read_cb-again c first fresh b sz k (omega arith), r) refl, w)
receive_rest ((first, failed false) ∷ rs) c fresh b sz k before rest p e s h = absurd h
receive_rest ((first, at_end x) ∷ rs) c fresh b sz k before rest p e s h = absurd h

-- A pdu of more than four bytes and at most MAX_PDU, whose size is read at once and whose rest is read
-- in any pieces, one for each callback, makes read_cb give got_pdu one pdu, of that size and with
-- exactly the bytes read, when the last piece comes; then the connection is ready for the next pdu.
pub receive_lem :
    (rs : List (ReadResult × ReadResult)) (second : ReadResult) (c : Connection) (fresh : Mem)
    (body : List ℕ)
    → c.dead ≡ false
    → c.rpdu ≡ charbuf
    → 0 < length body
    → 4 + length body ≤ max_pdu
    → Pieces body ((bytes (be32 (4 + length body)), second) ∷ rs)
    → (m : Mem) × (receive ((bytes (be32 (4 + length body)), second) ∷ rs) fresh c
        ≡ some (c, (m, 4 + length body) ∷ []))
      × (slice m 0 (4 + length body) ≡ be32 (4 + length body) ++ body)
unfolding receive
receive_lem rs second c fresh body alive empty p k h =
    let sz = 4 + length body in
    let first = bytes (be32 sz) in
    let b = copy_at fresh 0 (be32 sz) in
    let (m, r, w) =
      receive_rest ((first, second) ∷ rs) c fresh b sz 4 (be32 sz) body p refl
        (slice-copy_at fresh 0 (be32 sz)) h in
    let e = read_cb-size c first second fresh sz (omega arith) k in
    let same : idle c ≡ c = rw (sym alive, sym empty) refl in
    (
      m,
      subst (λ d. receive ((first, second) ∷ rs) fresh d ≡ some (d, (m, sz) ∷ [])) same (rw e r),
      w,
    )
