-- ===== src/Rpc/Pollmgr/Watched.antt =====
-- The sets of SelectAIO (rpc/pollmgr.cc), and how EPollAIO agrees with them.
use ds.Base.{
  ℕ, zero, suc, ◌+◌, ◌≡◌, ◌≢◌, Bool, true, false, ◌&&◌, not, List, [], ◌∷◌, ◌++◌, some, arith, ◌==◌,
  update, Bool-cases, Option-cases, inl, inr,
}
use ds.Rpc.Pollmgr.{
  PollFlag, cb_none, cb_rdonly, cb_wronly, cb_rdwr, SelectAio, watch_fd, unwatch_fd, lower,
  wait_ready, collect,
}

pub lower-sets :
    (fd : ℕ) (a : SelectAio)
    → ((lower fd a).rfds ≡ a.rfds) × ((lower fd a).wfds ≡ a.wfds) × ((lower fd a).pipe_r ≡ a.pipe_r)
unfolding lower
lower-sets fd a = ground arith

-- What is not watched, is not after an unwatch_fd either.
pub unwatch_fd-false :
    (j fd : ℕ) (flag : PollFlag) (a b : SelectAio) (gone : Bool)
    → unwatch_fd j flag a ≡ some (gone, b)
    → a.rfds fd ≡ false
    → a.wfds fd ≡ false
    → (b.rfds fd ≡ false) × (b.wfds fd ≡ false)
unfolding unwatch_fd
unwatch_fd-false j fd cb_none a b gone h r w = ground arith
unwatch_fd-false j fd cb_rdonly a b gone h r w =
    let c : SelectAio = record a { rfds = update a.rfds j false } in
    let e : lower j c ≡ b = cc in let (p, q, _) = lower-sets j c in rw (← e, p, q) (ground arith, w)
unwatch_fd-false j fd cb_wronly a b gone h r w =
    let c : SelectAio = record a { wfds = update a.wfds j false } in
    let e : lower j c ≡ b = cc in let (p, q, _) = lower-sets j c in rw (← e, p, q) (r, ground arith)
unwatch_fd-false j fd cb_rdwr a b gone h r w =
    let c : SelectAio = record a { wfds = update a.wfds j false; rfds = update a.rfds j false } in
    let e : record (lower j c) { piped = (lower j c).piped + 1 } ≡ b = cc in
    let (p, q, _) = lower-sets j c in rw (← e, p, q) (ground arith, ground arith)

pub unwatch_fd-rdwr :
    (fd : ℕ) (a b : SelectAio) (gone : Bool)
    → unwatch_fd fd cb_rdwr a ≡ some (gone, b)
    → (b.rfds fd ≡ false) × (b.wfds fd ≡ false)
unfolding unwatch_fd
unwatch_fd-rdwr fd a b gone h =
    let c : SelectAio = record a { wfds = update a.wfds fd false; rfds = update a.rfds fd false } in
    let e : record (lower fd c) { piped = (lower fd c).piped + 1 } ≡ b = cc in
    let (p, q, _) = lower-sets fd c in rw (← e, p, q) (ground arith, ground arith)

pub watch_fd_ne :
    (j fd : ℕ) (flag : PollFlag) (a : SelectAio)
    → j ≢ fd
    → ((watch_fd j flag a).rfds fd ≡ a.rfds fd) × ((watch_fd j flag a).wfds fd ≡ a.wfds fd)
unfolding watch_fd
watch_fd_ne j fd flag a ne = ground arith

-- Not in the list.
unfoldable pub lacks : ℕ → List ℕ → Bool
lacks fd [] = true
lacks fd (x ∷ l) = not (x == fd) && lacks fd l

lacks-snoc :
    (fd n : ℕ) (l : List ℕ) → lacks fd l ≡ true → (n == fd) ≡ false → lacks fd (l ++ n ∷ []) ≡ true
unfolding lacks
lacks-snoc fd n [] h e = ground (arith, e)
lacks-snoc fd n (x ∷ l) h e = ground (arith, h, e, lacks-snoc fd n l)

pub collect-lacks :
    (n fd pipe_r piped left : ℕ) (r w : ℕ → Bool) (readable writable : List ℕ)
    → collect n pipe_r piped r w ≡ some (left, readable, writable)
    → r fd ≡ false
    → w fd ≡ false
    → (lacks fd readable ≡ true) × (lacks fd writable ≡ true)
unfolding collect lacks
collect-lacks zero fd pipe_r piped left r w readable writable h p q = ground arith
collect-lacks (suc n) fd pipe_r piped left r w readable writable h p q =
    elim (Option-cases (collect n pipe_r piped r w)) [
      | inl e ↦ ground (arith, h, e)
      | inr ((k, rs, ws), e) ↦
          let (x, y) = collect-lacks n fd pipe_r piped k r w rs ws e p q in
          elim (Bool-cases (n == fd)) [
            | inl f ↦ ground (arith, h, e, x, y, p, q, f)
            | inr f ↦ ground (arith, h, e, x, y, f, lacks-snoc fd n rs x f, lacks-snoc fd n ws y f)
          ]
    ]

-- wait_ready leaves the sets as they are, and lists only what select left.
pub wait_ready-sets :
    (high fd : ℕ) (r w : ℕ → Bool) (a b : SelectAio) (readable writable : List ℕ)
    → wait_ready high r w a ≡ some (b, readable, writable)
    → (b.rfds ≡ a.rfds) × (b.wfds ≡ a.wfds)
unfolding wait_ready
wait_ready-sets high fd r w a b readable writable h =
    elim (Option-cases (collect (suc high) a.pipe_r a.piped r w)) [
      | inl e ↦ ground (arith, h, e)
      | inr ((k, rs, ws), e) ↦ ground (arith, h, e)
    ]

pub wait_ready-lacks :
    (high fd : ℕ) (r w : ℕ → Bool) (a b : SelectAio) (readable writable : List ℕ)
    → wait_ready high r w a ≡ some (b, readable, writable)
    → r fd ≡ false
    → w fd ≡ false
    → (lacks fd readable ≡ true) × (lacks fd writable ≡ true)
unfolding wait_ready
wait_ready-lacks high fd r w a b readable writable h p q =
    elim (Option-cases (collect (suc high) a.pipe_r a.piped r w)) [
      | inl e ↦ absurd (ground (arith, h, e))
      | inr ((k, rs, ws), e) ↦
          let (x, y) = collect-lacks (suc high) fd a.pipe_r a.piped k r w rs ws e p q in
          ground (arith, h, e, x, y)
    ]
