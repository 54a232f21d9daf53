-- ===== src/Rpc/Connection/Accepting.antt =====
-- Class tcpsconn (rpc/connection.h, rpc/connection.cc): the connections that a server accepts, by their
-- descriptors, with the objects that the map points to. What select and accept return is an argument;
-- setting up the socket, the pipe and the thread is left out. `none` is a fault: a failed assertion, or
-- an iterator that is used after its element was erased.
pub mod Listening
use ds.Base.{
  ℕ, zero, suc, Bool, true, false, ◌&&◌, List, [], ◌∷◌, Option, none, some, ◌==◌, if◌then◌else◌,
  ◌>>=◌, Map, find, insert,
}
use ds.Rpc.Connection.{Connection, connection, closeconn, decref}

-- isdead() && ref() == 1
abbrev pub is_garbage : Connection → Bool
is_garbage c = c.dead && c.refno == 1

-- The loop of process_accept: behind conns_.erase(i) it increments i.
unfoldable pub collect : Map Connection → Option (Map Connection)
collect [] = some []
collect ((fd, c) ∷ m) =
    let rest = collect m in if is_garbage c then none else (rest >>= λ m'. some ((fd, c) ∷ m'))

-- Whether the thread goes on.
pub data Accepted : Type 0 where
  exited : Accepted
  accepted : Map Connection → Accepted

-- process_accept, with what accept returned: a descriptor, or a failure
unfoldable pub process_accept : Option ℕ → Map Connection → Option Accepted
unfolding collect
process_accept none m = some exited
process_accept (some fd) m = collect m >>= λ m'. some (accepted (insert fd connection m'))

-- What select returns: EINTR, another failure, or which of the pipe and the socket is readable.
pub data Selected : Type 0 where
  interrupted failed : Selected
  readable : Bool → Bool → Selected

-- How the thread of accept_conn stands behind some rounds.
pub data Thread : Type 0 where
  listening ended : Map Connection → Thread

-- What other threads do to the connections meanwhile, by descriptor.
abbrev pub meanwhile : (ℕ → Connection → Connection) → Map Connection → Map Connection
meanwhile f [] = []
meanwhile f ((fd, c) ∷ m) = (fd, f fd c) ∷ meanwhile f m

-- A round of the loop: what select returns, what accept would return, what happens before it.
abbrev pub Round : Type 0
Round = Selected × Option ℕ × (ℕ → Connection → Connection)

-- accept_conn, for the rounds of its loop
unfoldable pub accept_conn : List Round → Map Connection → Option Thread
unfolding process_accept
accept_conn [] m = some (listening m)
accept_conn ((interrupted, s, f) ∷ rounds) m = accept_conn rounds (meanwhile f m)
accept_conn ((failed, s, f) ∷ rounds) m = none
accept_conn ((readable true tcp, s, f) ∷ rounds) m = some (ended (meanwhile f m))
accept_conn ((readable false false, s, f) ∷ rounds) m = none
accept_conn ((readable false true, s, f) ∷ rounds) m = process_accept s (meanwhile f m) >>= λ r.
    elim r [ exited ↦ some (ended (meanwhile f m)) | accepted m' ↦ accept_conn rounds m' ]

-- ~tcpsconn: closeconn and decref of each connection, which one of them deletes.
unfoldable pub close_all : Map Connection → Option (List (ℕ × Bool × Connection))
unfolding closeconn decref
close_all [] = some []
close_all ((fd, c) ∷ m) = decref (closeconn c).1 >>= λ (deleted, c').
    close_all m >>= λ rest. some ((fd, deleted, c') ∷ rest)
