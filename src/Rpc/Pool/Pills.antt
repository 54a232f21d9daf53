-- ===== src/Rpc/Pool/Pills.antt =====
-- Jobs and pills in a queue, counted (rpc/thr_pool.cc).
use ds.Base.{
  ℕ, zero, suc, ◌+◌, ◌≡◌, refl, Bool, true, false, List, [], ◌∷◌, ◌++◌, some, arith, ◌==◌,
  if◌then◌else◌, length,
}
use ds.Rpc.Pool.{Job, poison, job, without, item}

-- How often a job is in a queue, and in a list of jobs.
abbrev pub count_in : ℕ → List Job → ℕ
count_in x [] = 0
count_in x (poison ∷ l) = count_in x l
count_in x (job j ∷ l) = let rest = count_in x l in if j == x then suc rest else rest

abbrev pub count : ℕ → List ℕ → ℕ
count x [] = 0
count x (j ∷ l) = let rest = count x l in if j == x then suc rest else rest

abbrev pub pills_in : List Job → ℕ
pills_in [] = 0
pills_in (poison ∷ l) = suc (pills_in l)
pills_in (job j ∷ l) = pills_in l

-- Only pills.
abbrev pub are_pills : List Job → Bool
are_pills [] = true
are_pills (poison ∷ l) = are_pills l
are_pills (job j ∷ l) = false

-- Jobs, and then pills.
abbrev pub are_sorted : List Job → Bool
are_sorted [] = true
are_sorted (poison ∷ l) = are_pills l
are_sorted (job j ∷ l) = are_sorted l

pub count_in-append :
    (x : ℕ) (l : List Job) (e : Job) → count_in x (l ++ e ∷ []) ≡ count_in x l + count_in x (e ∷ [])
count_in-append x [] e = omega arith
count_in-append x (poison ∷ l) e = count_in-append x l e
count_in-append x (job j ∷ l) e = ground (arith, count_in-append x l e)

pub pills_in-append :
    (l : List Job) (e : Job) → pills_in (l ++ e ∷ []) ≡ pills_in l + pills_in (e ∷ [])
pills_in-append [] e = omega arith
pills_in-append (poison ∷ l) e = ground (arith, pills_in-append l e)
pills_in-append (job j ∷ l) e = pills_in-append l e

pub are_pills-append : (l : List Job) → are_pills l ≡ true → are_pills (l ++ poison ∷ []) ≡ true
are_pills-append [] h = refl
are_pills-append (poison ∷ l) h = are_pills-append l h
are_pills-append (job j ∷ l) h = absurd (ground (arith, h))

pub are_sorted-pill : (l : List Job) → are_sorted l ≡ true → are_sorted (l ++ poison ∷ []) ≡ true
are_sorted-pill [] h = refl
are_sorted-pill (poison ∷ l) h = are_pills-append l h
are_sorted-pill (job j ∷ l) h = are_sorted-pill l h

pub are_sorted-job : (l : List Job) (j : ℕ) → pills_in l ≡ 0 → are_sorted (l ++ job j ∷ []) ≡ true
are_sorted-job [] j h = refl
are_sorted-job (poison ∷ l) j h = absurd (ground (arith, h))
are_sorted-job (job i ∷ l) j h = are_sorted-job l j h

pub are_sorted-pills : (l : List Job) → are_pills l ≡ true → are_sorted l ≡ true
are_sorted-pills [] h = refl
are_sorted-pills (poison ∷ l) h = h
are_sorted-pills (job j ∷ l) h = absurd (ground (arith, h))

pub count-without :
    (x i j : ℕ) (l : List ℕ) → item i l ≡ some j → count x (j ∷ without i l) ≡ count x l
count-without x i j [] h = absurd (ground (arith, h))
count-without x zero j (y ∷ l) h = ground (arith, h)
count-without x (suc i) j (y ∷ l) h = ground (arith, count-without x i j l h)

-- Only pills, and none of them.
pub no_jobs : (x : ℕ) (l : List Job) → are_pills l ≡ true → count_in x l ≡ 0
no_jobs x [] h = refl
no_jobs x (poison ∷ l) h = no_jobs x l h
no_jobs x (job j ∷ l) h = absurd (ground (arith, h))

pub count-nil : (x : ℕ) (l : List ℕ) → length l ≡ 0 → count x l ≡ 0
count-nil x [] h = refl
count-nil x (j ∷ l) h = absurd (omega arith)
