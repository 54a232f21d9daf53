-- ===== src/Rpc/Client/Retry/References.antt =====
-- The references that call1's loop holds (rpc/rpc.cc).
use ds.Base.{
  ℕ, ◌+◌, ◌-◌, ◌≤◌, ◌≡◌, refl, Bool, true, false, Option, none, some, arith, ◌==◌, if◌then◌else◌,
  update, Bool-cases, inl, inr,
}
use ds.Rpc.Client.Retry.{
  Waiting, Round, release, acquire, reconnect, adopt, get_refconn, transmit_once, begin_wait,
  after_wait, round, is_gone, with_one,
}

-- How many references to a connection a pointer stands for.
abbrev holds : Option ℕ → ℕ → ℕ
holds none c = 0
holds (some d) c = if d == c then 1 else 0

-- chan_ and ch each have a reference to their connection.
abbrev pub IsHeld : Waiting → Type 0
IsHeld w = (c : ℕ) → holds w.chan c + holds w.ch c ≤ w.refs c

release_lem :
    (p : Option ℕ) (refs : ℕ → ℕ) (rest : ℕ → ℕ)
    → ((c : ℕ) → holds p c + rest c ≤ refs c)
    → (refs' : ℕ → ℕ) × (release p refs ≡ some refs') × ((c : ℕ) → rest c ≤ refs' c)
unfolding release
release_lem none refs rest h = (refs, refl, λ c. omega (arith, h c))
release_lem (some d) refs rest h =
    let e : (refs d == 0) ≡ false = ground (arith, h d) in
    (update refs d (refs d - 1), rw e refl, λ c. ground (arith, h c))

acquire_lem :
    (p : Option ℕ) (refs rest : ℕ → ℕ)
    → ((c : ℕ) → rest c ≤ refs c)
    → (c : ℕ) → holds p c + rest c ≤ acquire p refs c
unfolding acquire
acquire_lem none refs rest h c = omega (arith, h c)
acquire_lem (some d) refs rest h c = ground (arith, h c)

reconnect_lem :
    (r : Round) (w : Waiting) → IsHeld w → (w' : Waiting) × (reconnect r w ≡ some w') × IsHeld w'
unfolding reconnect
reconnect_lem r w v = elim (Bool-cases (is_gone r.dead w.chan)) [
  | inl e ↦
      let (refs, f, g) = release_lem w.chan w.refs (holds w.ch) v in
      (
        record w { chan = r.connect; refs = acquire r.connect refs },
        rw (e, f) refl,
        acquire_lem r.connect refs (holds w.ch) g,
      )
  | inr e ↦ (w, rw e refl, v)
]

adopt_lem :
    (w : Waiting) (p : Option ℕ)
    → w.chan ≡ p
    → IsHeld w
    → (w' : Waiting) × (adopt w ≡ some w') × IsHeld w'
unfolding adopt
adopt_lem w none f v = (w, ground (arith, f), v)
adopt_lem w (some c) f v =
    let swapped : (d : ℕ) → holds w.ch d + holds (some c) d ≤ w.refs d =
      λ d. ground (arith, v d, f) in
    let (refs, g, h) = release_lem w.ch w.refs (holds (some c)) swapped in
    (
      record w { ch = some c; refs = acquire (some c) refs },
      ground (arith, f, g),
      λ d. ground (arith, f, acquire_lem (some c) refs (holds (some c)) h d),
    )

get_refconn_lem :
    (r : Round) (w : Waiting) → IsHeld w → (w' : Waiting) × (get_refconn r w ≡ some w') × IsHeld w'
unfolding get_refconn
get_refconn_lem r w v =
    let (m, e, k) = reconnect_lem r w v in
    let (w', f, v') = adopt_lem m m.chan refl k in (w', rw (e, f) refl, v')

transmit_once_lem :
    (r : Round) (w : Waiting)
    → IsHeld w
    → (w' : Waiting) × (transmit_once r w ≡ some w') × IsHeld w'
unfolding transmit_once
transmit_once_lem r w v = elim (Bool-cases w.transmit) [
  | inl e ↦
      let (w', f, v') = get_refconn_lem r w v in
      (record w' { transmit = false; sent = with_one w'.ch w'.sent }, ground (arith, e, f), v')
  | inr e ↦ (w, ground (arith, e), v)
]

begin_wait-IsHeld : (r : Round) (w : Waiting) → IsHeld w → IsHeld (begin_wait r w)
unfolding begin_wait
begin_wait-IsHeld r w v c = ground (arith, v c)

-- A round does not fail, and keeps the references.
pub round_lem :
    (retrans : Bool) (r : Round) (w : Waiting)
    → IsHeld w
    → (ended : Bool) × (w' : Waiting) × (round retrans r w ≡ some (ended, w')) × IsHeld w'
unfolding round after_wait
round_lem retrans r w v =
    let (w', e, v') = transmit_once_lem r w v in
    let b = begin_wait-IsHeld r w' v' in
    elim (Bool-cases (w'.finaldeadline.tv_sec == 0)) [
      | inl f ↦ (true, w', rw (e, f) refl, v')
      | inr f ↦ elim (Bool-cases r.replied) [
        | inl g ↦ (true, begin_wait r w', rw (e, f, g) refl, b)
        | inr g ↦ (false, after_wait retrans r (begin_wait r w'), rw (e, f, g) refl, b)
      ]
    ]
