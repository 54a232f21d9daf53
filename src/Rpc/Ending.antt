-- ===== src/Rpc/Ending.antt =====
-- The destructors of rpcc and rpcs (rpc/rpc.cc). Freeing is left out, and so is the pool of rpcs, whose
-- destructor Pool has. `none` is a failed assertion.
use ds.Base.{
  if◌then◌else◌, false, ℕ, ◌-◌, ◌<◌, ◌≡◌, Bool, true, List, [], Option, none, some, arith, ◌==◌,
  ◌>>=◌, Map, Mem,
}
use ds.Rpc.Client.{Client, Caller}
use ds.Rpc.Connection.{Connection, closeconn, decref}
use ds.Rpc.Connection.Accepting.{close_all}
use ds.Rpc.Server.{Server}
use ds.Rpc.Window.{free_reply_window}

-- assert(calls_.size() == 0)
abbrev no_calls : Map Caller → Bool
no_calls [] = true
no_calls _ = false

-- ~rpcc, with the object that chan_ points to: that object, and whether it is deleted.
unfoldable pub rpcc_end : Option Connection → Client → Option (Option (Bool × Connection))
unfolding closeconn decref
rpcc_end none cl = if no_calls cl.calls then some none else none
rpcc_end (some c) cl =
    decref (closeconn c).1 >>= λ r. if no_calls cl.calls then some (some r) else none

-- ~rpcs, with the connections of its listener
unfoldable pub rpcs_end :
    {App : Type 0}
    → Map Connection
    → Server App
    → Option (List (ℕ × Bool × Connection) × List (Option Mem) × Server App)
unfolding close_all free_reply_window
rpcs_end conns s = close_all conns >>= λ closed.
    let (freed, w) = free_reply_window s.reply_window in
    some (closed, freed, record s { reply_window = w })

-- With no call under way and the client's reference in place, the client's connection is closed, and
-- deleted just when no other reference is left.
rpcc_end_lem :
    (c : Connection) (cl : Client)
    → cl.calls ≡ []
    → 0 < c.refno
    → rpcc_end (some c) cl
      ≡ some (some (c.refno == 1, record c { dead = true; refno = c.refno - 1 }))
unfolding rpcc_end closeconn decref
rpcc_end_lem c cl h n = ground arith
