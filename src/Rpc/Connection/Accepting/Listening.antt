-- ===== src/Rpc/Connection/Accepting/Listening.antt =====
-- The connections of a server, from accept to the destructor (class tcpsconn of rpc/connection.cc).
use ds.Base.{
  ℕ, ◌-◌, ◌<◌, ◌≡◌, refl, Bool, true, false, ◌||◌, List, [], ◌∷◌, none, some, arith, ◌==◌,
  if◌then◌else◌, Map, find, insert, find-insert, Bool-cases, inl, inr, All, map,
}
use ds.Rpc.Connection.{Connection, connection, closeconn, decref}
use ds.Rpc.Connection.Accepting.{
  is_garbage, collect, accepted, process_accept, Round, meanwhile, interrupted, failed, readable,
  Thread, listening, ended, accept_conn, close_all,
}

-- Some connection is dead and has no reference but the map's.
abbrev pub has_garbage : Map Connection → Bool
has_garbage [] = false
has_garbage ((fd, c) ∷ m) = is_garbage c || has_garbage m

collect_lem : (m : Map Connection) → collect m ≡ (if has_garbage m then none else some m)
unfolding collect
collect_lem [] = refl
collect_lem ((fd, c) ∷ m) = ground (arith, collect_lem m)

-- The descriptors that accept returned.
abbrev pub accepts : List Round → ℕ → Bool
accepts [] j = false
accepts ((interrupted, s, f) ∷ rounds) j = accepts rounds j
accepts ((failed, s, f) ∷ rounds) j = false
accepts ((readable true tcp, s, f) ∷ rounds) j = false
accepts ((readable false false, s, f) ∷ rounds) j = false
accepts ((readable false true, none, f) ∷ rounds) j = false
accepts ((readable false true, some fd, f) ∷ rounds) j = fd == j || accepts rounds j

abbrev pub conns_of : Thread → Map Connection
conns_of (listening m) = m
conns_of (ended m) = m

abbrev pub has : ℕ → Map Connection → Bool
has j m = elim (find j m) [ none ↦ false | some c ↦ true ]

has-meanwhile :
    (f : ℕ → Connection → Connection) (j : ℕ) (m : Map Connection) → has j (meanwhile f m) ≡ has j m
unfolding find
has-meanwhile f j [] = refl
has-meanwhile f j ((fd, c) ∷ m) = ground (arith, has-meanwhile f j m)

has-insert :
    (fd j : ℕ) (c : Connection) (m : Map Connection) → has j (insert fd c m) ≡ (fd == j || has j m)
has-insert fd j c m = ground (arith, find-insert fd j c m)

accept_conn-has :
    (rounds : List Round) (m : Map Connection) (t : Thread)
    → accept_conn rounds m ≡ some t
    → (j : ℕ) → has j (conns_of t) ≡ (accepts rounds j || has j m)
unfolding accept_conn process_accept
accept_conn-has [] m t e j = ground arith
accept_conn-has ((interrupted, s, f) ∷ rounds) m t e j =
    ground (arith, accept_conn-has rounds (meanwhile f m) t e j, has-meanwhile f j m)
accept_conn-has ((failed, s, f) ∷ rounds) m t e j = absurd (ground arith)
accept_conn-has ((readable true tcp, s, f) ∷ rounds) m t e j = ground (arith, has-meanwhile f j m)
accept_conn-has ((readable false false, s, f) ∷ rounds) m t e j = absurd (ground arith)
accept_conn-has ((readable false true, none, f) ∷ rounds) m t e j =
    ground (arith, has-meanwhile f j m)
accept_conn-has ((readable false true, some fd, f) ∷ rounds) m t e j =
    let m1 = meanwhile f m in
    elim (Bool-cases (has_garbage m1)) [
      | inl g ↦ absurd (ground (arith, collect_lem m1, g))
      | inr g ↦
          let c : collect m1 ≡ some m1 = ground (arith, collect_lem m1) in
          let r : accept_conn rounds (insert fd connection m1) ≡ some t = ground (arith, c) in
          ground (
            arith,
            accept_conn-has rounds (insert fd connection m1) t r j,
            has-insert fd j connection m1,
            has-meanwhile f j m,
          )
    ]

-- Every connection has the reference of the map.
abbrev pub Held : Map Connection → Type 0
Held m = All (λ (t : ℕ × Connection). 0 < t.1.refno) m

abbrev pub closed : ℕ × Connection → ℕ × Bool × Connection
closed (fd, c) = (fd, c.refno == 1, record c { dead = true; refno = c.refno - 1 })

close_all_lem : (m : Map Connection) → Held m → close_all m ≡ some (map closed m)
unfolding close_all closeconn decref
close_all_lem [] h = refl
close_all_lem ((fd, c) ∷ m) h = ground (arith, close_all_lem m h.1)

-- Where the thread of accept_conn has come without a fault, whatever other threads did to the
-- connections, the map has just the descriptors that it had before and those that accept returned; if
-- each connection then has the map's reference, the destructor closes each of them, gives that
-- reference up, and deletes those that had no other. A further connection is accepted without a
-- fault just when no connection in the map is dead with no reference but the map's: where there is
-- one, the loop that would free it uses the iterator that it erased.
pub tcpsconn_lem :
    (rounds : List Round) (m : Map Connection) (t : Thread) (fd : ℕ)
    → accept_conn rounds m ≡ some t
    → Held (conns_of t)
    → ((j : ℕ) → has j (conns_of t) ≡ (accepts rounds j || has j m))
      × (close_all (conns_of t) ≡ some (map closed (conns_of t)))
      × (process_accept (some fd) (conns_of t) ≡ (
          if has_garbage (conns_of t)
          then none
          else some (accepted (insert fd connection (conns_of t)))))
unfolding process_accept
tcpsconn_lem rounds m t fd e h = (
  accept_conn-has rounds m t e,
  close_all_lem (conns_of t) h,
  ground (arith, collect_lem (conns_of t)),
)
