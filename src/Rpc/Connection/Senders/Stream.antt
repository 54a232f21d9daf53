-- ===== src/Rpc/Connection/Senders/Stream.antt =====
-- What one connection puts on the stream, operation by operation (rpc/connection.cc).
use ds.Base.{
  ℕ, ◌+◌, ◌-◌, ◌^◌, ◌<◌, ◌≡◌, refl, sym, ap, ◌∙◌, subst, Bool, true, false, List, [], ◌∷◌, ◌++◌,
  Option, none, some, arith, ◌==◌, if◌then◌else◌, Bool-cases, Option-cases, inl, inr, append-nil,
  append_assoc, Mem, slice,
}
use ds.Rpc.Connection.{
  Connection, ReadResult, WriteResult, going, is_null, send_start, is_sending, send_finish,
  write_cb, read_cb, write_step, writepdu,
}
use ds.Rpc.Connection.Sends.{framed}
use ds.Rpc.Connection.Senders.{fits}
use ds.Rpc.Connection.Senders.Writing.{
  pdus, IsUnderWay, IsStream, write_step-Written, Written-IsStream,
}

-- The first write of a new pdu.
pub send_start-IsStream :
    (w : WriteResult) (c c' : Connection) (sent : List (Mem × ℕ)) (b0 b : Mem) (sz0 sz k : ℕ)
    → IsStream c sent b0 sz0 k
    → sz < 2 ^ 31
    → fits w sz ≡ true
    → send_start w b sz c ≡ some (going c')
    → (j : ℕ) × IsStream c' sent b sz j
      × (is_null c.wpdu.buf ≡ true)
      × (c.dead ≡ false)
      × (is_null c'.wpdu.buf ≡ false)
unfolding send_start
send_start-IsStream w c c' sent b0 b sz0 sz k v small f r = elim (Bool-cases c.dead) [
  | inl d ↦ absurd (ground (arith, r))
  | inr d ↦ elim (Option-cases c.wpdu.buf) [
    | inr (p, n) ↦ absurd (ground (arith, r))
    | inl n ↦
        let c1 : Connection = record c { wpdu = record { buf = some b; sz = sz; solong = 0 } } in
        let r1 : write_step w c1 ≡ some c' = elim (Option-cases (write_step w c1)) [
          | inl e ↦ absurd (ground (arith, r))
          | inr (x, e) ↦ ground (arith, r)
        ] in
        let t =
          write_step-Written w c1 c' b b sz 0
            (record {
              goal = refl;
              begun = λ z. absurd (z refl);
              size = refl;
              done = refl;
              small = small;
            })
            refl (omega arith) (ground arith) r1 in
        let zero_ : k ≡ 0 = v.idle d n in
        (
          0 + t.more,
          Written-IsStream c1 c' sent b sz 0 t (ground (arith, v.stream)),
          ground arith,
          d,
          ground (arith, t.null),
        )
  ]
]

pdus-snoc :
    (l : List (Mem × ℕ)) (b : Mem) (sz : ℕ)
    → pdus (l ++ (b, sz) ∷ []) ≡ pdus l ++ slice (framed b sz) 0 sz
pdus-snoc [] b sz = append-nil _
pdus-snoc ((p, n) ∷ l) b sz =
    ap (slice (framed p n) 0 n ++◌) (pdus-snoc l b sz)
    ∙ sym (append_assoc (slice (framed p n) 0 n) (pdus l) (slice (framed b sz) 0 sz))

-- The end of a send: it returns true just when the pdu is whole.
pub send_finish-IsStream :
    (c : Connection) (sent : List (Mem × ℕ)) (b : Mem) (sz k : ℕ)
    → IsStream c sent b sz k
    → is_null c.wpdu.buf ≡ false
    → is_sending c ≡ false
    → (j : ℕ) × IsStream
        (send_finish c).1
        (if (send_finish c).0 then sent ++ (b, sz) ∷ [] else sent)
        b
        sz
        j
unfolding send_finish is_sending
send_finish-IsStream c sent b sz k v n e = elim (Bool-cases c.dead) [
  | inl d ↦ (
    k,
    record {
      within = v.within;
      stream = ground (arith, v.stream);
      idle = λ a _. absurd (ground arith);
      held = λ a p q. absurd (ground arith);
    },
  )
  | inr d ↦ elim (Option-cases c.wpdu.buf) [
    | inl m ↦ absurd (ground arith)
    | inr (p, m) ↦
        let u = v.held d p m in
        let whole : k ≡ sz = ground (arith, u.size, u.done, u.small, v.within) in
        (
          0,
          record {
            within = omega arith;
            stream = ground (
              arith,
              v.stream,
              u.size,
              u.done,
              pdus-snoc sent b sz,
              append-nil (pdus (sent ++ (b, sz) ∷ [])),
            );
            idle = λ a _. refl;
            held = λ a q r. absurd (ground arith);
          },
        )
  ]
]

-- Without a pdu, writepdu has nothing to do.
write_step_idle :
    (w : WriteResult) (c c' : Connection)
    → c.wpdu.buf ≡ none
    → write_step w c ≡ some c'
    → (c'.out ≡ c.out) × (c'.wpdu ≡ c.wpdu)
unfolding write_step writepdu
write_step_idle w c c' n r = (ground (arith, append-nil c.out, r), ground (arith, r))

pub write_cb-IsStream :
    (w : WriteResult) (c c' : Connection) (sent : List (Mem × ℕ)) (b : Mem) (sz k : ℕ)
    → IsStream c sent b sz k
    → fits w (c.wpdu.sz - c.wpdu.solong) ≡ true
    → write_cb w c ≡ some c'
    → (j : ℕ) × IsStream c' sent b sz j
      × (is_null c'.wpdu.buf ≡ is_null c.wpdu.buf)
      × (c.dead ≡ false)
unfolding write_cb
write_cb-IsStream w c c' sent b sz k v f r = elim (Bool-cases c.dead) [
  | inl d ↦ absurd (ground (arith, r))
  | inr d ↦ elim (Bool-cases (c.wpdu.sz == 0)) [
    | inl z ↦ (k, ground (arith, r, v), ground (arith, r), d)
    | inr z ↦ elim (Option-cases c.wpdu.buf) [
      | inl n ↦
          let (o, p) = write_step_idle w c c' n (ground (arith, r)) in
          (
            k,
            record {
              within = v.within;
              stream = o ∙ v.stream;
              idle = λ _ _. v.idle d n;
              held = λ a q e. absurd (ground (arith, n, p));
            },
            ground (arith, n, p),
            d,
          )
      | inr (p, n) ↦
          let u = v.held d p n in
          let t =
            write_step-Written w c c' p b sz k u n v.within (ground (arith, u.size, u.done))
              (ground (arith, r)) in
          (k + t.more, Written-IsStream c c' sent b sz k t v.stream, ground (arith, t.null), d)
    ]
  ]
]

pub read_cb-IsStream :
    (first second : ReadResult) (fresh : Mem) (consumed : Bool) (c c' : Connection)
    (pdu : Option (Mem × ℕ)) (sent : List (Mem × ℕ)) (b : Mem) (sz k : ℕ)
    → IsStream c sent b sz k
    → read_cb first second fresh consumed c ≡ some (c', pdu)
    → IsStream c' sent b sz k × (c'.wpdu ≡ c.wpdu) × (c.dead ≡ true → c'.dead ≡ true)
unfolding read_cb
read_cb-IsStream first second fresh consumed c c' pdu sent b sz k v r =
    let w : c'.wpdu ≡ c.wpdu = ground (arith, r) in
    let o : c'.out ≡ c.out = ground (arith, r) in
    let d : c'.dead ≡ false → c.dead ≡ false = λ h. ground (arith, r) in
    (
      record {
        within = v.within;
        stream = o ∙ v.stream;
        idle = λ a n. v.idle (d a) (rw w at n);
        held = λ a p q. subst (λ x. IsUnderWay x p b sz k) (sym w) (v.held (d a) p (rw w at q));
      },
      w,
      λ h. ground (arith, r),
    )
