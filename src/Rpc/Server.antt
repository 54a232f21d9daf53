-- ===== src/Rpc/Server.antt =====
-- Class rpcs of rpc/rpc.h and rpc/rpc.cc: requests dispatched to registered handlers. `App` is the
-- state of the object whose methods are registered. A connection is a number, with its reference
-- count and whether it is dead (rpc/connection.cc); what is sent is recorded. One dispatch runs
-- here without others between its steps. `none` is a fault: a failed assertion or a NULL pointer.
pub mod Handler
pub mod Dispatch
pub mod Duplicates
pub mod Setup
pub mod Jobs
pub mod Counting
pub mod References
use ds.Base.{
  ℕ, zero, suc, ◌+◌, ◌-◌, ◌^◌, Bool, true, false, ◌&&◌, ◌||◌, not, List, [], ◌∷◌, ◌++◌, Option,
  none, some, ltb, leb, ◌==◌, if◌then◌else◌, ◌>>=◌, Mem, update, Map, find, insert, find_or,
}
use ds.Rpc.Marshall.{Marshall, ReqHeader, ReplyHeader, marshall, pack_reply_header, take_buf}
use ds.Rpc.Unmarshall.{Unmarshall, unmarshall, unpack_req_header}
use ds.Rpc.Window.{
  RpcState, fresh, in_progress, done, forgotten, Reply, Checked, checkduplicate_and_update,
  add_reply,
}

-- rpc_const: negative ints, as bit patterns
abbrev pub unmarshal_args_failure : ℕ
unmarshal_args_failure = 2 ^ 32 - 2

abbrev pub atmostonce_failure : ℕ
atmostonce_failure = 2 ^ 32 - 4

abbrev pub oldsrv_failure : ℕ
oldsrv_failure = 2 ^ 32 - 5

-- An int is negative.
abbrev pub is_negative : ℕ → Bool
is_negative x = leb (2 ^ 31) x

-- handler::fn: reads the arguments, changes the object, writes the result, and returns a status.
abbrev pub HandlerFn : Type 0 → Type 0
HandlerFn App = App → Unmarshall → Marshall → Option (App × ℕ × Marshall)

pub record Server (App : Type 0) : Type 0 where
  pub nonce : ℕ
  pub counting : ℕ
  pub curr_counts : ℕ
  pub counts : Map ℕ
  pub procs : Map (HandlerFn App)
  pub reply_window : Map (List (Reply Mem))
  pub conns : Map ℕ
  pub refs : ℕ → ℕ
  pub dead : ℕ → Bool
  pub sent : List (ℕ × Option Mem × ℕ)
  pub app : App

abbrev pub saved_buf : Option (Option Mem × ℕ) → Option Mem × ℕ
saved_buf none = (none, 0)
saved_buf (some r) = r

module _ {App : Type 0} where
  abbrev pub incref : ℕ → Server App → Server App
  incref c s = record s { refs = update s.refs c (suc (s.refs c)) }

  -- assert(refno_>=0)
  abbrev pub decref : ℕ → Server App → Option (Server App)
  decref c s =
      if s.refs c == 0 then none else some (record s { refs = update s.refs c (s.refs c - 1) })

  -- c->send(b, sz)
  abbrev pub send : ℕ → Option Mem → ℕ → Server App → Server App
  send c b sz s = record s { sent = s.sent ++ (c, b, sz) ∷ [] }

  -- reg1
  unfoldable pub reg1 : ℕ → HandlerFn App → Server App → Option (Server App)
  reg1 proc h s = elim (find proc s.procs) [
    | none ↦ some (record s { procs = insert proc h s.procs })
    | some _ ↦ none
  ]

  -- updatestat; what it logs is left out
  unfoldable pub updatestat : ℕ → Server App → Server App
  updatestat proc s = record s {
    counts = insert proc (find_or 0 proc s.counts + 1) s.counts;
    curr_counts = if s.curr_counts - 1 == 0 then s.counting else s.curr_counts - 1;
  }

  -- A reply with a header alone.
  unfoldable pub send_status : Mem → ℕ → ℕ → ℕ → Server App → Option (Server App)
  send_status fresh_mem c xid ret s = do
    rep ← pack_reply_header (record { xid = xid; ret = ret }) (marshall fresh_mem)
    some (send c rep.buf rep.ind s)

  -- "save the latest good connection to the client"
  unfoldable pub save_connection : ℕ → ℕ → Server App → Option (Server App)
  save_connection clt_nonce c s = elim (find clt_nonce s.conns) [
    | none ↦ some (record (incref c s) { conns = insert clt_nonce c s.conns })
    | some old ↦
        if old == c
        then some s
        else decref old s >>= λ s. some (record (incref c s) { conns = insert clt_nonce c s.conns })
  ]

  -- "get the latest connection to the client": a missing entry is NULL, whose incref is a fault.
  unfoldable pub latest_connection : ℕ → ℕ → Server App → Option (ℕ × Server App)
  latest_connection clt_nonce c s = elim (find clt_nonce s.conns) [
    | none ↦ if s.dead c then none else some (c, s)
    | some d ↦
        if s.dead c && not (c == d) then (decref c s >>= λ s. some (d, incref d s)) else some (c, s)
  ]

  -- case NEW behind the call of the handler, up to the break
  unfoldable pub deliver : ℕ → ReqHeader → App → ℕ → Marshall → Server App → Option (ℕ × Server App)
  unfolding latest_connection
  deliver c h app ret rep s =
      if is_negative ret && not (ret == unmarshal_args_failure) then none else do
        rep ← pack_reply_header (record { xid = h.xid; ret = ret }) rep
        let ((b1, sz1), rest) = take_buf rep
        let s = record s {
          app = app;
          reply_window =
              if ltb 0 h.clt_nonce
              then add_reply h.clt_nonce h.xid b1 sz1 s.reply_window
              else s.reply_window;
        }
        (c, s) ← latest_connection h.clt_nonce c s
        some (c, send c b1 sz1 s)

  -- if (counting_) updatestat(proc)
  abbrev pub counted : ℕ → Server App → Server App
  counted proc s = if s.counting == 0 then s else updatestat proc s

  -- case NEW, up to the break
  unfoldable pub execute :
      HandlerFn App → Mem → ℕ → ReqHeader → Unmarshall → Server App → Option (ℕ × Server App)
  execute f fresh_mem c h req s = f s.app req (marshall fresh_mem) >>= λ (app, ret, rep).
      deliver c h app ret rep (counted h.proc s)

  -- switch (stat), and the decref behind it
  unfoldable pub answer :
      HandlerFn App
      → Mem
      → ℕ
      → ReqHeader
      → Unmarshall
      → Checked Mem
      → Server App
      → Option (Server App)
  answer f fresh_mem c h req k s = elim k.state [
    | fresh ↦ execute f fresh_mem c h req s >>= λ (c, s). decref c s
    | in_progress ↦ decref c s
    | done ↦ let (b, sz) = saved_buf k.saved in decref c (send c b sz s)
    | forgotten ↦ send_status fresh_mem c h.xid atmostonce_failure s >>= decref c
  ]

  -- From "have i seen this client before?" on.
  unfoldable pub serve :
      HandlerFn App → Mem → ℕ → ReqHeader → Unmarshall → Server App → Option (Server App)
  unfolding save_connection answer
  serve f fresh_mem c h req s =
      if h.clt_nonce == 0 then (execute f fresh_mem c h req s >>= λ (c, s). decref c s) else do
        let w = insert h.clt_nonce (find_or [] h.clt_nonce s.reply_window) s.reply_window
        s ← save_connection h.clt_nonce c (record s { reply_window = w })
        let (k, w) = checkduplicate_and_update h.clt_nonce h.xid h.xid_rep s.reply_window
        answer f fresh_mem c h req k (record s { reply_window = w })

  -- dispatch behind unpack_req_header
  unfoldable pub route : Mem → ℕ → ReqHeader → Unmarshall → Server App → Option (Server App)
  unfolding serve send_status
  route fresh_mem c h req s =
      if not req.ok
      then decref c s
      else if not (h.srv_nonce == 0) && not (h.srv_nonce == s.nonce)
      then send_status fresh_mem c h.xid oldsrv_failure s
      else elim (find h.proc s.procs) [ none ↦ decref c s | some f ↦ serve f fresh_mem c h req s ]

  -- dispatch of the request in the `sz` bytes at `b` from connection `c`
  unfoldable pub dispatch : Mem → ℕ → Mem → ℕ → Server App → Option (Server App)
  dispatch fresh_mem c b sz s =
      let (h, req) = unpack_req_header (unmarshall b sz) in route fresh_mem c h req s

  -- rpcbind: the handler of procedure 1
  abbrev pub rpcbind : Server App → ℕ → ℕ × ℕ
  rpcbind s a = (0, s.nonce)
