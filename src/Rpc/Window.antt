-- ===== src/Rpc/Window.antt =====
-- The window of replies of class rpcs (rpc/rpc.h, rpc/rpc.cc): for each client the requests that it
-- has not acknowledged, with their replies. `Buf` is what a reply's pointer points to.
pub mod Laws
pub mod Trace
use ds.Base.{
  ℕ, ◌<◌, ◌≤◌, ◌≡◌, ◌≢◌, Bool, true, false, ◌&&◌, List, [], ◌∷◌, ◌++◌, Option, none, some, ltb, leb,
  ◌==◌, if◌then◌else◌, Map, insert, find_or,
}

-- rpcstate_t
pub data RpcState : Type 0 where
  fresh in_progress done forgotten : RpcState

-- reply_t
pub record Reply (Buf : Type 0) : Type 0 where
  pub xid : ℕ
  pub cb_present : Bool
  pub buf : Option Buf
  pub sz : ℕ

-- What checkduplicate_and_update leaves: the state, `*b` and `*sz` where they are set, the list of
-- the client, and the buffers that were freed.
pub record Checked (Buf : Type 0) : Type 0 where
  pub state : RpcState
  pub saved : Option (Option Buf × ℕ)
  pub list : List (Reply Buf)
  pub freed : List (Option Buf)

module _ {Buf : Type 0} where
  -- reply_t(xid)
  abbrev pub reply_t : ℕ → Reply Buf
  reply_t xid = record { xid = xid; cb_present = false; buf = none; sz = 0 }

  -- One round of the loop, after the rounds for the rest of the list: the entries kept, the buffers
  -- freed, and `it_xid`, the last entry that matches.
  unfoldable pub visit :
      ℕ
      → ℕ
      → Reply Buf
      → List (Reply Buf) × List (Option Buf) × Option (Reply Buf)
      → List (Reply Buf) × List (Option Buf) × Option (Reply Buf)
  visit xid xid_rep r (kept, freed, later) =
      let it_xid : Option (Reply Buf) = elim later [
        | some hit ↦ some hit
        | none ↦ if r.xid == xid && ltb xid_rep xid then some r else none
      ] in
      if leb r.xid xid_rep then (kept, r.buf ∷ freed, it_xid) else (r ∷ kept, freed, it_xid)

  unfoldable pub sweep :
      ℕ → ℕ → List (Reply Buf) → List (Reply Buf) × List (Option Buf) × Option (Reply Buf)
  unfolding visit
  sweep xid xid_rep [] = ([], [], none)
  sweep xid xid_rep (r ∷ l) = visit xid xid_rep r (sweep xid xid_rep l)

  -- After the loop.
  unfoldable pub conclude :
      ℕ → ℕ → List (Reply Buf) × List (Option Buf) × Option (Reply Buf) → Checked Buf
  conclude xid xid_rep (kept, freed, some hit) =
      if hit.cb_present
      then record { state = done; saved = some (hit.buf, hit.sz); list = kept; freed = freed }
      else record { state = in_progress; saved = none; list = kept; freed = freed }
  conclude xid xid_rep (kept, freed, none) =
      if leb xid xid_rep
      then record { state = forgotten; saved = none; list = kept; freed = freed }
      else record { state = fresh; saved = none; list = kept ++ reply_t xid ∷ []; freed = freed }

  -- checkduplicate_and_update on the list of one client.
  unfoldable pub check : ℕ → ℕ → List (Reply Buf) → Checked Buf
  unfolding sweep conclude
  check xid xid_rep [] = record { state = fresh; saved = none; list = reply_t xid ∷ []; freed = [] }
  check xid xid_rep (r ∷ l) = conclude xid xid_rep (sweep xid xid_rep (r ∷ l))

  -- add_reply on the list of one client: every entry with this xid gets the reply.
  unfoldable pub fill : ℕ → Option Buf → ℕ → List (Reply Buf) → List (Reply Buf)
  fill xid b sz [] = []
  fill xid b sz (r ∷ l) =
      (if r.xid == xid then record r { buf = b; sz = sz; cb_present = true } else r)
      ∷ fill xid b sz l

  -- checkduplicate_and_update
  unfoldable pub checkduplicate_and_update :
      ℕ → ℕ → ℕ → Map (List (Reply Buf)) → Checked Buf × Map (List (Reply Buf))
  checkduplicate_and_update clt_nonce xid xid_rep w =
      let c = check xid xid_rep (find_or [] clt_nonce w) in (c, insert clt_nonce c.list w)

  -- add_reply
  unfoldable pub add_reply :
      ℕ → ℕ → Option Buf → ℕ → Map (List (Reply Buf)) → Map (List (Reply Buf))
  add_reply clt_nonce xid b sz w = insert clt_nonce (fill xid b sz (find_or [] clt_nonce w)) w

  abbrev pub buffers : List (Reply Buf) → List (Option Buf)
  buffers [] = []
  buffers (r ∷ l) = r.buf ∷ buffers l

  -- free_reply_window: the buffers that it frees, and the empty map.
  unfoldable pub free_reply_window :
      Map (List (Reply Buf)) → List (Option Buf) × Map (List (Reply Buf))
  free_reply_window [] = ([], [])
  free_reply_window ((_, l) ∷ w) =
      let (freed, rest) = free_reply_window w in (buffers l ++ freed, rest)
