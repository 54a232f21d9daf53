-- ===== src/Rpc/Pollmgr/Covered.antt =====
-- highfds_ of SelectAIO, and what wait_ready finds (rpc/pollmgr.cc).
use ds.Base.{
  ℕ, zero, suc, ◌+◌, ◌<◌, ◌≡◌, ◌≢◌, refl, ap, subst, ◌∙◌, Bool, true, false, ◌&&◌, ◌||◌, not, List,
  [], ◌∷◌, ◌++◌, Option, some, arith, ltb, ◌==◌, if◌then◌else◌, ◌>>=◌, update, Bool-cases,
  Option-cases, inl, inr,
}
use ds.Rpc.Pollmgr.{
  PollFlag, cb_none, cb_rdonly, cb_wronly, cb_rdwr, SelectAio, select_aio, watch_fd, unwatch_fd,
  lower, highest, wait_ready, collect,
}
use ds.Rpc.Pollmgr.Loop.{within}
use ds.Rpc.Pollmgr.Watched.{lacks}

-- The operations on the sets, one after the other, with what each unwatch_fd returns.
pub data Op : Type 0 where
  watch unwatch : ℕ → PollFlag → Op

unfoldable pub apply : List Op → SelectAio → Option (SelectAio × List Bool)
apply [] a = some (a, [])
apply (watch fd flag ∷ ops) a = apply ops (watch_fd fd flag a)
apply (unwatch fd flag ∷ ops) a =
    unwatch_fd fd flag a >>= λ (gone, b). apply ops b >>= λ (c, more). some (c, gone ∷ more)

-- Every descriptor in a set is at most highfds_, and the pipe is where it was.
record IsCovered (pipe_r : ℕ) (a : SelectAio) : Type 0 where
  pipe : a.pipe_r ≡ pipe_r
  covered : (fd : ℕ) → a.highfds < fd → (a.rfds fd || a.wfds fd) ≡ false

highest-covers :
    (n newh fd : ℕ) (a : SelectAio)
    → highest n newh a < fd
    → fd < n
    → (a.rfds fd || a.wfds fd) ≡ false
unfolding highest
highest-covers zero newh fd a h l = absurd (omega arith)
highest-covers (suc n) newh fd a h l = elim (Bool-cases (fd == n)) [
  | inl e ↦ let same : fd ≡ n = ground (arith, e) in rw same (ground (arith, h, same))
  | inr e ↦ elim (Bool-cases (a.rfds n || a.wfds n)) [
    | inl f ↦ absurd (ground (arith, h, f, l))
    | inr f ↦ highest-covers n newh fd a (ground (arith, h, f)) (ground (arith, e, l))
  ]
]

lower-IsCovered :
    (pipe_r fd : ℕ) (a : SelectAio) → IsCovered pipe_r a → IsCovered pipe_r (lower fd a)
unfolding lower
lower-IsCovered pipe_r fd a v = elim (Bool-cases (not (a.rfds fd) && not (a.wfds fd))) [
  | inl e ↦ elim (Bool-cases (fd == a.highfds)) [
    | inl f ↦
        rw (lower, e, f)
          (record {
            pipe = v.pipe;
            covered = λ j h. elim (Bool-cases (ltb a.highfds j)) [
              | inl g ↦ v.covered j (ground (arith, g))
              | inr g ↦ highest-covers (suc a.highfds) a.pipe_r j a h (ground (arith, g))
            ];
          })
    | inr f ↦ rw (lower, e, f) v
  ]
  | inr e ↦ rw (lower, e) v
]

watch_fd-IsCovered :
    (pipe_r fd : ℕ) (flag : PollFlag) (a : SelectAio)
    → IsCovered pipe_r a
    → IsCovered pipe_r (watch_fd fd flag a)
unfolding watch_fd
watch_fd-IsCovered pipe_r fd flag a v = record {
  pipe = ground (arith, v.pipe);
  covered = λ j h. ground (arith, h, v.covered j);
}

-- A smaller set is covered too.
clear-IsCovered :
    (pipe_r : ℕ) (a : SelectAio) (r w : ℕ → Bool)
    → IsCovered pipe_r a
    → ((fd : ℕ) → (a.rfds fd || a.wfds fd) ≡ false → (r fd || w fd) ≡ false)
    → IsCovered pipe_r (record a { rfds = r; wfds = w })
clear-IsCovered pipe_r a r w v h = record { pipe = v.pipe; covered = λ j l. h j (v.covered j l) }

piped-IsCovered :
    (pipe_r n : ℕ) (a : SelectAio) → IsCovered pipe_r a → IsCovered pipe_r (record a { piped = n })
piped-IsCovered pipe_r n a v = record { pipe = v.pipe; covered = v.covered }

unwatch_fd-IsCovered :
    (pipe_r fd : ℕ) (flag : PollFlag) (a b : SelectAio) (gone : Bool)
    → unwatch_fd fd flag a ≡ some (gone, b)
    → IsCovered pipe_r a
    → IsCovered pipe_r b
unfolding unwatch_fd
unwatch_fd-IsCovered pipe_r fd cb_none a b gone h v = absurd (ground arith)
unwatch_fd-IsCovered pipe_r fd cb_rdonly a b gone h v =
    let c : SelectAio = record a { rfds = update a.rfds fd false } in
    let e : lower fd c ≡ b = cc in
    let k = clear-IsCovered pipe_r a c.rfds c.wfds v (λ j l. ground (arith, l)) in
    subst (IsCovered pipe_r) e (lower-IsCovered pipe_r fd c k)
unwatch_fd-IsCovered pipe_r fd cb_wronly a b gone h v =
    let c : SelectAio = record a { wfds = update a.wfds fd false } in
    let e : lower fd c ≡ b = cc in
    let k = clear-IsCovered pipe_r a c.rfds c.wfds v (λ j l. ground (arith, l)) in
    subst (IsCovered pipe_r) e (lower-IsCovered pipe_r fd c k)
unwatch_fd-IsCovered pipe_r fd cb_rdwr a b gone h v =
    let c : SelectAio = record a { wfds = update a.wfds fd false; rfds = update a.rfds fd false } in
    let e : record (lower fd c) { piped = (lower fd c).piped + 1 } ≡ b = cc in
    let k = clear-IsCovered pipe_r a c.rfds c.wfds v (λ j l. ground (arith, l)) in
    subst (IsCovered pipe_r) e
      (piped-IsCovered pipe_r ((lower fd c).piped + 1) (lower fd c) (lower-IsCovered pipe_r fd c k))

select_aio-IsCovered : (pipe_r : ℕ) → IsCovered pipe_r (select_aio pipe_r)
unfolding select_aio
select_aio-IsCovered pipe_r = record { pipe = refl; covered = λ j l. ground (arith, l) }

apply-IsCovered :
    (pipe_r : ℕ) (ops : List Op) (a b : SelectAio) (gs : List Bool)
    → apply ops a ≡ some (b, gs)
    → IsCovered pipe_r a
    → IsCovered pipe_r b
unfolding apply
apply-IsCovered pipe_r [] a b gs h v = let e : a ≡ b = cc in subst (IsCovered pipe_r) e v
apply-IsCovered pipe_r (watch fd flag ∷ ops) a b gs h v =
    apply-IsCovered pipe_r ops (watch_fd fd flag a) b gs h (watch_fd-IsCovered pipe_r fd flag a v)
apply-IsCovered pipe_r (unwatch fd flag ∷ ops) a b gs h v =
    elim (Option-cases (unwatch_fd fd flag a)) [
      | inl e ↦ absurd (ground (arith, h, e))
      | inr ((gone, c), e) ↦ elim (Option-cases (apply ops c)) [
        | inl f ↦ absurd (ground (arith, h, e, f))
        | inr ((d, more), f) ↦
            let same : d ≡ b = ground (arith, h, e, f) in
            subst (IsCovered pipe_r) same (
              apply-IsCovered pipe_r ops c d more f
                (unwatch_fd-IsCovered pipe_r fd flag a c gone e v))
      ]
    ]

lacks-append_one : (fd n : ℕ) (l : List ℕ) → lacks fd (l ++ n ∷ []) ≡ (lacks fd l && not (n == fd))
unfolding lacks
lacks-append_one fd n [] = ground arith
lacks-append_one fd n (x ∷ l) = ground (arith, lacks-append_one fd n l)

-- A round of the loop for another descriptor than that of the pipe, and for any.
module _ (n pipe_r piped k left : ℕ) (r w : ℕ → Bool) (rs ws readable writable : List ℕ)
    (e : collect n pipe_r piped r w ≡ some (k, rs, ws))
    (h : collect (suc n) pipe_r piped r w ≡ some (left, readable, writable)) where
  collect-here :
      (n == pipe_r) ≡ false
      → (readable ≡ (if r n then rs ++ n ∷ [] else rs))
        × (writable ≡ (if w n then ws ++ n ∷ [] else ws))
  unfolding collect
  collect-here z = let h' = rw (collect, e, z) at h in (ground (arith, h'), ground (arith, h'))

  collect-other :
      (fd : ℕ)
      → (n == fd) ≡ false
      → (lacks fd readable ≡ lacks fd rs) × (lacks fd writable ≡ lacks fd ws)
  unfolding collect
  collect-other fd z =
      let h' = rw (collect, e) at h in
      (
        ground (arith, h', z, lacks-append_one fd n rs),
        ground (arith, h', z, lacks-append_one fd n ws),
      )

lacks-if :
    (fd : ℕ) (c : Bool) (l : List ℕ)
    → lacks fd (if c then l ++ fd ∷ [] else l) ≡ (lacks fd l && not c)
lacks-if fd true l = lacks-append_one fd fd l ∙ ground arith
lacks-if fd false l = ground arith

collect_lem :
    (n fd pipe_r piped left : ℕ) (r w : ℕ → Bool) (readable writable : List ℕ)
    → collect n pipe_r piped r w ≡ some (left, readable, writable)
    → (fd == pipe_r) ≡ false
    → (lacks fd readable ≡ not (ltb fd n && r fd)) × (lacks fd writable ≡ not (ltb fd n && w fd))
unfolding collect lacks
collect_lem zero fd pipe_r piped left r w readable writable h p = ground (arith, h)
collect_lem (suc n) fd pipe_r piped left r w readable writable h p =
    elim (Option-cases (collect n pipe_r piped r w)) [
      | inl e ↦ absurd (ground (arith, h, e))
      | inr ((k, rs, ws), e) ↦
          let (x, y) = collect_lem n fd pipe_r piped k r w rs ws e p in
          elim (Bool-cases (n == fd)) [
            | inl f ↦
                let same : n ≡ fd = ground (arith, f) in
                let (a, b) =
                  collect-here n pipe_r piped k left r w rs ws readable writable e h (rw same p) in
                let a' = rw same at a in
                let b' = rw same at b in
                (
                  ap (lacks fd) a' ∙ lacks-if fd (r fd) rs ∙ ground (arith, x, same),
                  ap (lacks fd) b' ∙ lacks-if fd (w fd) ws ∙ ground (arith, y, same),
                )
            | inr f ↦
                let (a, b) =
                  collect-other n pipe_r piped k left r w rs ws readable writable e h fd f in
                (a ∙ x ∙ ground (arith, f), b ∙ y ∙ ground (arith, f))
          ]
    ]

-- After any sequence of watch_fd and unwatch_fd, what wait_ready lists, if the byte that it expects is in
-- the pipe, is exactly what is watched and what select has left, for reading and for writing, and for
-- every descriptor but that of the pipe: highfds_ is never too low.
pub wait_ready_lem :
    (pipe_r fd : ℕ) (ops : List Op) (gs : List Bool) (a b : SelectAio) (rs ws : ℕ → Bool)
    (readable writable : List ℕ)
    → apply ops (select_aio pipe_r) ≡ some (a, gs)
    → wait_ready a.highfds (within a.rfds rs) (within a.wfds ws) a ≡ some (b, readable, writable)
    → fd ≢ pipe_r
    → (lacks fd readable ≡ not (a.rfds fd && rs fd))
      × (lacks fd writable ≡ not (a.wfds fd && ws fd))
unfolding wait_ready
wait_ready_lem pipe_r fd ops gs a b rs ws readable writable h k ne =
    let v = apply-IsCovered pipe_r ops (select_aio pipe_r) a gs h (select_aio-IsCovered pipe_r) in
    let r = within a.rfds rs in
    let w = within a.wfds ws in
    let z : (fd == a.pipe_r) ≡ false = ground (arith, v.pipe, ne) in
    elim (Option-cases (collect (suc a.highfds) a.pipe_r a.piped r w)) [
      | inl e ↦ absurd (ground (arith, k, e))
      | inr ((left, rd, wr), e) ↦
          let (x, y) = collect_lem (suc a.highfds) fd a.pipe_r a.piped left r w rd wr e z in
          ground (arith, k, e, x, y, v.covered fd)
    ]
