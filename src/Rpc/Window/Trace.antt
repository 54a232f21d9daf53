-- ===== src/Rpc/Window/Trace.antt =====
-- Sequences of requests and replies of one client: at most once, and where it fails.
use ds.Base.{
  ℕ, ◌+◌, ◌<◌, ◌≤◌, ◌≡◌, ◌≢◌, refl, Bool, true, false, ◌&&◌, ◌||◌, not, List, [], ◌∷◌, Option, none,
  some, arith, Bool-cases, ==_iff, inl, inr, ◌==◌, if◌then◌else◌, All,
}
use ds.Rpc.Window.{RpcState, fresh, done, Reply, reply_t, check, fill}
use ds.Rpc.Window.Laws.{
  entry, unacked, IsDistinct, check-expected, check-IsDistinct, entry-unacked, entry-append,
  entry-fill, fill-IsDistinct,
}

-- What the server's threads do to the list of a client, one after another under the mutex.
pub data Event (Buf : Type 0) : Type 0 where
  request : ℕ → ℕ → Event Buf
  reply : ℕ → Option Buf → ℕ → Event Buf

abbrev pub is_fresh : RpcState → Bool
is_fresh fresh = true
is_fresh _ = false

module _ {Buf : Type 0} where
  pub step : Event Buf → List (Reply Buf) → List (Reply Buf)
  step (request xid xid_rep) l = (check xid xid_rep l).list
  step (reply xid b sz) l = fill xid b sz l

  pub run : List (Event Buf) → List (Reply Buf) → List (Reply Buf)
  run [] l = l
  run (e ∷ es) l = run es (step e l)

  -- Whether the event runs the handler for the request `x`: the state is NEW.
  abbrev pub executes : ℕ → Event Buf → List (Reply Buf) → Bool
  executes x (request xid xid_rep) l = xid == x && is_fresh (check xid xid_rep l).state
  executes x (reply xid b sz) l = false

  -- How often the handler runs for the request `x`.
  pub executions : ℕ → List (Event Buf) → List (Reply Buf) → ℕ
  executions x [] l = 0
  executions x (e ∷ es) l = (if executes x e l then 1 else 0) + executions x es (step e l)

  -- The event does not acknowledge the request `x`.
  abbrev pub Unacknowledged : ℕ → Event Buf → Type 0
  Unacknowledged x (request xid xid_rep) = xid_rep < x
  Unacknowledged x (reply xid b sz) = Unit

  abbrev requests : ℕ → Event Buf → Bool
  requests x (request xid xid_rep) = xid == x
  requests x (reply xid b sz) = false

  -- The client sends the request `x` at least once.
  abbrev pub is_requested : ℕ → List (Event Buf) → Bool
  is_requested x [] = false
  is_requested x (e ∷ es) = requests x e || is_requested x es

  abbrev pub has_entry : ℕ → List (Reply Buf) → Bool
  has_entry x l = elim (entry x l) [ none ↦ false | some e ↦ true ]

  -- While `x` is not acknowledged its entry stays, and its first request makes one.
  entry-check :
      (x xid rep : ℕ) (l : List (Reply Buf))
      → IsDistinct l
      → rep < x
      → has_entry x (check xid rep l).list ≡ (has_entry x l || xid == x)
  unfolding check
  entry-check x xid rep [] d h = ground arith
  entry-check x xid rep (r ∷ l) d h = rw (check-expected xid rep r l d) (
      ground
        (arith, entry-unacked x rep (r ∷ l), entry-append x (unacked rep (r ∷ l)) (reply_t xid)))

  executes-check :
      (x rep : ℕ) (l : List (Reply Buf))
      → IsDistinct l
      → rep < x
      → is_fresh (check x rep l).state ≡ not (has_entry x l)
  unfolding check
  executes-check x rep [] d h = refl
  executes-check x rep (r ∷ l) d h = rw (check-expected x rep r l d) (ground arith)

  step-IsDistinct : (e : Event Buf) (l : List (Reply Buf)) → IsDistinct l → IsDistinct (step e l)
  unfolding step
  step-IsDistinct (request xid rep) l d = check-IsDistinct xid rep l d
  step-IsDistinct (reply xid b sz) l d = fill-IsDistinct xid b sz l d

  has_entry-step :
      (x : ℕ) (e : Event Buf) (l : List (Reply Buf))
      → IsDistinct l
      → Unacknowledged x e
      → has_entry x (step e l) ≡ (has_entry x l || requests x e)
  unfolding step
  has_entry-step x (request xid rep) l d h = entry-check x xid rep l d h
  has_entry-step x (reply xid b sz) l d h = ground (arith, entry-fill x xid b sz l)

  executes-step :
      (x : ℕ) (e : Event Buf) (l : List (Reply Buf))
      → IsDistinct l
      → Unacknowledged x e
      → executes x e l ≡ (requests x e && not (has_entry x l))
  executes-step x (request xid rep) l d h = elim (Bool-cases (xid == x)) [
    | inl e ↦ let p : xid ≡ x = (==_iff xid x).0 e in rw p (rw (executes-check x rep l d h))
    | inr e ↦ rw e
  ]
  executes-step x (reply xid b sz) l d h = refl

  -- At most once: on a list with no xid twice, and while no request acknowledges `x`, the handler runs
  -- for `x` exactly once if the client sends `x` and there was no entry for it, and otherwise never.
  pub executions_lem :
      (x : ℕ) (es : List (Event Buf)) (l : List (Reply Buf))
      → IsDistinct l
      → All (Unacknowledged x) es
      → executions x es l ≡ (if has_entry x l then 0 else if is_requested x es then 1 else 0)
  unfolding executions
  executions_lem x [] l d h = ground arith
  executions_lem x (e ∷ es) l d h = ground (
    arith,
    executions_lem x es (step e l) (step-IsDistinct e l d) h.1,
    executes-step x e l d h.0,
    has_entry-step x e l d h.0,
  )

  -- The event is no reply to `x`.
  abbrev pub IsOther : ℕ → Event Buf → Type 0
  IsOther x (request xid rep) = Unit
  IsOther x (reply xid b sz) = xid ≢ x

  entry-check-some :
      (x xid rep : ℕ) (l : List (Reply Buf)) (r : Reply Buf)
      → IsDistinct l
      → rep < x
      → entry x l ≡ some r
      → entry x (check xid rep l).list ≡ some r
  unfolding check
  entry-check-some x xid rep [] r d h k = cc
  entry-check-some x xid rep (q ∷ l) r d h k = rw (check-expected xid rep q l d) (
      ground
        (arith, entry-unacked x rep (q ∷ l), entry-append x (unacked rep (q ∷ l)) (reply_t xid)))

  entry-step :
      (x : ℕ) (e : Event Buf) (l : List (Reply Buf)) (r : Reply Buf)
      → IsDistinct l
      → Unacknowledged x e
      → IsOther x e
      → entry x l ≡ some r
      → entry x (step e l) ≡ some r
  unfolding step
  entry-step x (request xid rep) l r d h o k = entry-check-some x xid rep l r d h k
  entry-step x (reply xid b sz) l r d h o k = ground (arith, entry-fill x xid b sz l)

  entry-run :
      (x : ℕ) (es : List (Event Buf)) (l : List (Reply Buf)) (r : Reply Buf)
      → IsDistinct l
      → All (Unacknowledged x) es
      → All (IsOther x) es
      → entry x l ≡ some r
      → (entry x (run es l) ≡ some r) × IsDistinct (run es l)
  unfolding run
  entry-run x [] l r d h o k = (k, d)
  entry-run x (e ∷ es) l r d h o k =
      entry-run x es (step e l) r (step-IsDistinct e l d) h.1 o.1 (entry-step x e l r d h.0 o.0 k)

  check_done :
      (x rep : ℕ) (l : List (Reply Buf)) (r : Reply Buf)
      → IsDistinct l
      → rep < x
      → entry x l ≡ some r
      → r.cb_present ≡ true
      → ((check x rep l).state ≡ done) × ((check x rep l).saved ≡ some (r.buf, r.sz))
  unfolding check
  check_done x rep [] r d h k p = cc
  check_done x rep (q ∷ l) r d h k p = rw (check-expected x rep q l d) (ground arith)

  -- A duplicate gets the saved reply: once the reply to `x`, which has an entry in a list with no xid
  -- twice, is there, and whatever other requests and replies follow, as long as none acknowledges `x`
  -- or replies to it again, another request `x` is DONE and returns the pointer and the size of that reply.
  pub check-fill :
      (x rep sz : ℕ) (b : Option Buf) (es : List (Event Buf)) (l : List (Reply Buf))
      → IsDistinct l
      → has_entry x l ≡ true
      → All (Unacknowledged x) es
      → All (IsOther x) es
      → rep < x
      → let c = check x rep (run es (fill x b sz l)) in (c.state ≡ done) × (c.saved ≡ some (b, sz))
  check-fill x rep sz b es l d k h o p =
      let r : Reply Buf = record { xid = x; cb_present = true; buf = b; sz = sz } in
      let (e, d') =
        entry-run x es (fill x b sz l) r (fill-IsDistinct x b sz l d) h o
          (ground (arith, entry-fill x x b sz l)) in
      check_done x rep (run es (fill x b sz l)) r d' p e refl

  -- An acknowledged entry is gone.
  has_entry-check_acked :
      (x y rep : ℕ) (l : List (Reply Buf))
      → IsDistinct l
      → x ≤ rep
      → x < y
      → has_entry x (check y rep l).list ≡ false
  unfolding check
  has_entry-check_acked x y rep [] d p q = ground arith
  has_entry-check_acked x y rep (r ∷ l) d p q = rw (check-expected y rep r l d) (
      ground (arith, entry-unacked x rep (r ∷ l), entry-append x (unacked rep (r ∷ l)) (reply_t y)))

  -- More than once: on a list with no xid twice and no entry for `x`, when the client sends `x`, then a
  -- later request `y` that acknowledges `x`, a late copy of the request `x` runs the handler again.
  pub executions_after_ack :
      (x y rep : ℕ) (l : List (Reply Buf))
      → IsDistinct l
      → has_entry x l ≡ false
      → rep < x
      → x < y
      → executions x (request x rep ∷ request y x ∷ request x rep ∷ []) l ≡ 2
  unfolding executions step
  executions_after_ack x y rep l d k p q =
      let l1 = (check x rep l).list in
      let d1 = check-IsDistinct x rep l d in
      let l2 = (check y x l1).list in
      ground (
        arith,
        executes-check x rep l d p,
        executes-check x rep l2 (check-IsDistinct y x l1 d1) p,
        has_entry-check_acked x y x l1 d1 (omega arith) q,
      )
