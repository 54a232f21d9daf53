-- ===== src/Rpc/Server/References.antt =====
-- The references to connections that the server counts (rpc/rpc.cc).
use ds.Base.{
  ℕ, ◌+◌, ◌≤◌, ◌≡◌, sym, subst, true, false, List, [], ◌∷◌, ◌++◌, some, arith, ◌==◌, if◌then◌else◌,
  Option-cases, inl, inr,
}
use ds.Rpc.Server.{Server, incref, dispatch}
use ds.Rpc.Server.Jobs.{Job, Event, pdu, job, got_pdu, step, run}
use ds.Rpc.Server.Counting.{dispatch-Kept, uses, Sorted}

-- How many jobs are of the connection `d`.
abbrev pub pending : ℕ → List Job → ℕ
pending d [] = 0
pending d (j ∷ jobs) = (if j.conn == d then 1 else 0) + pending d jobs

pending-append :
    (d : ℕ) (jobs : List Job) (j : Job)
    → pending d (jobs ++ j ∷ []) ≡ pending d jobs + (if j.conn == d then 1 else 0)
pending-append d [] j = ground arith
pending-append d (x ∷ jobs) j = ground (arith, pending-append d jobs j)

module _ {App : Type 0} where
  -- Every connection has a reference for each job on it, for each entry of conns_, and `base` others.
  pub record IsCounted (base : ℕ → ℕ) (x : Server App × List Job) : Type 0 where
    pub enough : (d : ℕ) → base d + pending d x.1 + uses d x.0.conns ≤ x.0.refs d
    pub sorted : Sorted x.0.conns

  step-IsCounted :
      (base : ℕ → ℕ) (e : Event) (x y : Server App × List Job)
      → step e x ≡ some y
      → IsCounted base x
      → IsCounted base y
  unfolding step got_pdu
  step-IsCounted base (pdu true c b sz) (s, jobs) y e v =
      let j : Job = record { conn = c; buf = b; sz = sz } in
      let y0 : y.0 ≡ incref c s = ground arith in
      let y1 : y.1 ≡ jobs ++ j ∷ [] = ground arith in
      record {
        enough = λ d. ground (arith, y0, y1, v.enough d, pending-append d jobs j);
        sorted = subst (λ (z : Server App). Sorted z.conns) (sym y0) v.sorted;
      }
  step-IsCounted base (pdu false c b sz) (s, jobs) y e v =
      let y0 : y.0.conns ≡ s.conns = ground arith in
      record { enough = λ d. ground (arith, v.enough d); sorted = subst Sorted (sym y0) v.sorted }
  step-IsCounted base (job fresh_mem) (s, []) y e v =
      let y0 : y ≡ (s, []) = ground arith in subst (IsCounted base) (sym y0) v
  step-IsCounted base (job fresh_mem) (s, j ∷ jobs) y e v =
      elim (Option-cases (dispatch fresh_mem j.conn j.buf j.sz s)) [
        | inl n ↦ absurd (ground arith)
        | inr (t, n) ↦
            let k = dispatch-Kept fresh_mem j.conn j.buf j.sz s t n v.sorted in
            let y0 : y.0 ≡ t = ground arith in
            record {
              enough = λ d. ground (arith, k.refs d, v.enough d);
              sorted = subst (λ (z : Server App). Sorted z.conns) (sym y0) (k.sorted v.sorted);
            }
      ]

  run-IsCounted :
      (base : ℕ → ℕ) (es : List Event) (x y : Server App × List Job)
      → run es x ≡ some y
      → IsCounted base x
      → IsCounted base y
  unfolding run
  run-IsCounted base [] x y e v = let q : y ≡ x = ground arith in subst (IsCounted base) (sym q) v
  run-IsCounted base (a ∷ es) x y e v = elim (Option-cases (step a x)) [
    | inl n ↦ absurd (ground arith)
    | inr (z, n) ↦ run-IsCounted base es z y (ground arith) (step-IsCounted base a x z n v)
  ]

  -- From a server without clients on, whatever pdus come on whatever connections, taken or refused by
  -- the pool, and whatever dispatch makes of them, errors included: as long as nothing faults, every
  -- connection has at least the references that it had, one more for each job that waits on it, and one
  -- more for each client whose latest connection it is.
  pub references_lem :
      (es : List Event) (s t : Server App) (jobs : List Job)
      → s.conns ≡ []
      → run es (s, []) ≡ some (t, jobs)
      → (d : ℕ) → s.refs d + pending d jobs + uses d t.conns ≤ t.refs d
  references_lem es s t jobs n e =
      (run-IsCounted s.refs es (s, []) (t, jobs) e
        (record { enough = λ d. ground arith; sorted = subst Sorted (sym n) tt })).enough
