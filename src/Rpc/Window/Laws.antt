-- ===== src/Rpc/Window/Laws.antt =====
-- What one request does to the list of its client.
use ds.Base.{
  ℕ, ◌≡◌, refl, true, List, [], ◌∷◌, ◌++◌, Option, none, some, arith, ltb, leb, ◌==◌, if◌then◌else◌,
}
use ds.Rpc.Window.{
  fresh, in_progress, done, forgotten, Reply, Checked, reply_t, visit, sweep, conclude, check, fill,
}

module _ {Buf : Type 0} where
  -- The entry of a request.
  abbrev pub entry : ℕ → List (Reply Buf) → Option (Reply Buf)
  entry xid [] = none
  entry xid (r ∷ l) = if r.xid == xid then some r else entry xid l

  -- The entries that an acknowledgement leaves, and the buffers of the others.
  abbrev pub unacked : ℕ → List (Reply Buf) → List (Reply Buf)
  unacked rep [] = []
  unacked rep (r ∷ l) = if ltb rep r.xid then r ∷ unacked rep l else unacked rep l

  abbrev pub acked_buffers : ℕ → List (Reply Buf) → List (Option Buf)
  acked_buffers rep [] = []
  acked_buffers rep (r ∷ l) =
      if ltb rep r.xid then acked_buffers rep l else r.buf ∷ acked_buffers rep l

  -- No two entries have one xid.
  abbrev pub IsDistinct : List (Reply Buf) → Type 0
  IsDistinct [] = Unit
  IsDistinct (r ∷ l) = (entry r.xid l ≡ none) × IsDistinct l

  sweep_lem :
      (xid rep : ℕ) (l : List (Reply Buf))
      → IsDistinct l
      → sweep xid rep l
        ≡ (unacked rep l, acked_buffers rep l, if ltb rep xid then entry xid l else none)
  unfolding sweep visit
  sweep_lem xid rep [] d = ground arith
  sweep_lem xid rep (r ∷ l) d = rw (sweep_lem xid rep l d.1) (ground arith)

  -- What a request may find: its entry counts only while the request does not acknowledge itself.
  abbrev pub expected : ℕ → ℕ → List (Reply Buf) → Option (Reply Buf) → Checked Buf
  expected xid rep l (some e) =
      if leb xid rep
      then record {
        state = forgotten;
        saved = none;
        list = unacked rep l;
        freed = acked_buffers rep l;
      }
      else if e.cb_present
      then record {
        state = done;
        saved = some (e.buf, e.sz);
        list = unacked rep l;
        freed = acked_buffers rep l;
      }
      else record {
        state = in_progress;
        saved = none;
        list = unacked rep l;
        freed = acked_buffers rep l;
      }
  expected xid rep l none =
      if leb xid rep
      then record {
        state = forgotten;
        saved = none;
        list = unacked rep l;
        freed = acked_buffers rep l;
      }
      else record {
        state = fresh;
        saved = none;
        list = unacked rep l ++ reply_t xid ∷ [];
        freed = acked_buffers rep l;
      }

  -- On a list that is not empty and has no xid twice, checkduplicate_and_update frees the buffers of
  -- exactly the acknowledged entries and keeps the others; it answers FORGOTTEN if the request
  -- acknowledges itself, DONE with the saved reply or INPROGRESS if the request has an entry, and
  -- otherwise NEW, and then adds an entry at the end.
  pub check-expected :
      (xid rep : ℕ) (r : Reply Buf) (l : List (Reply Buf))
      → IsDistinct (r ∷ l)
      → check xid rep (r ∷ l) ≡ expected xid rep (r ∷ l) (entry xid (r ∷ l))
  unfolding check conclude
  check-expected xid rep r l d = rw (sweep_lem xid rep (r ∷ l) d) (ground arith)

  -- How an entry and its absence survive an acknowledgement.
  pub entry-unacked :
      (xid rep : ℕ) (l : List (Reply Buf))
      → entry xid (unacked rep l) ≡ (if ltb rep xid then entry xid l else none)
  entry-unacked xid rep [] = ground arith
  entry-unacked xid rep (r ∷ l) = ground (arith, entry-unacked xid rep l)

  unacked-IsDistinct : (rep : ℕ) (l : List (Reply Buf)) → IsDistinct l → IsDistinct (unacked rep l)
  unacked-IsDistinct rep [] d = tt
  unacked-IsDistinct rep (r ∷ l) d =
      ground (arith, unacked-IsDistinct rep l d.1, entry-unacked r.xid rep l)

  pub entry-append :
      (xid : ℕ) (l : List (Reply Buf)) (r : Reply Buf)
      → entry xid (l ++ r ∷ [])
        ≡ elim (entry xid l) [ some e ↦ some e | none ↦ if r.xid == xid then some r else none ]
  entry-append xid [] r = refl
  entry-append xid (q ∷ l) r = ground (arith, entry-append xid l r)

  append-IsDistinct :
      (l : List (Reply Buf)) (r : Reply Buf)
      → IsDistinct l
      → entry r.xid l ≡ none
      → IsDistinct (l ++ r ∷ [])
  append-IsDistinct [] r d e = (refl, tt)
  append-IsDistinct (q ∷ l) r d e =
      ground (arith, append-IsDistinct l r d.1, entry-append q.xid l r)

  -- If no two entries of the list have one xid, this also holds after any request.
  pub check-IsDistinct :
      (xid rep : ℕ) (l : List (Reply Buf)) → IsDistinct l → IsDistinct (check xid rep l).list
  unfolding check
  check-IsDistinct xid rep [] d = (refl, tt)
  check-IsDistinct xid rep (r ∷ l) d =
      let k = unacked-IsDistinct rep (r ∷ l) d in
      rw (check-expected xid rep r l d) (
        ground (
          arith,
          k,
          append-IsDistinct (unacked rep (r ∷ l)) (reply_t xid) k,
          entry-unacked xid rep (r ∷ l),
        ))

  pub entry-fill :
      (x xid : ℕ) (b : Option Buf) (sz : ℕ) (l : List (Reply Buf))
      → entry x (fill xid b sz l) ≡ elim (entry x l) [
        | none ↦ none
        | some e ↦
            some (if x == xid then record { xid = xid; cb_present = true; buf = b; sz = sz } else e)
      ]
  unfolding fill
  entry-fill x xid b sz [] = refl
  entry-fill x xid b sz (r ∷ l) = ground (arith, entry-fill x xid b sz l)

  -- Nor does a reply change which xids the list has.
  pub fill-IsDistinct :
      (xid : ℕ) (b : Option Buf) (sz : ℕ) (l : List (Reply Buf))
      → IsDistinct l
      → IsDistinct (fill xid b sz l)
  unfolding fill
  fill-IsDistinct xid b sz [] d = tt
  fill-IsDistinct xid b sz (r ∷ l) d =
      ground (arith, fill-IsDistinct xid b sz l d.1, entry-fill r.xid xid b sz l)
