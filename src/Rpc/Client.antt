-- ===== src/Rpc/Client.antt =====
-- Class rpcc of rpc/rpc.h and rpc/rpc.cc: what a call does before it is sent, when its reply comes,
-- and when the wait is over. Between these, the loop that sends and waits (Client/Retry) only reads
-- whether the reply has come.
pub mod Acks
pub mod Received
pub mod Retry
use ds.Base.{
  ℕ, ◌+◌, ◌-◌, ◌%◌, ◌^◌, Bool, true, false, ◌&&◌, ◌||◌, not, List, [], ◌∷◌, Option, none, some,
  ◌==◌, if◌then◌else◌, ◌>>=◌, Mem, Map, find, insert, erase,
}
use ds.Rpc.Marshall.{Marshall, ReqHeader, ReplyHeader, marshall, pack_req_header, take_buf}
use ds.Rpc.Unmarshall.{Unmarshall, unmarshall, blank, okdone, take_in, unpack_reply_header}
use ds.Rpc.Codec.{Codec}
use ds.Rpc.Server.{is_negative}
use Acks.{front, update_xid_rep}

-- rpc_const
abbrev pub bind_proc : ℕ
bind_proc = 1

abbrev pub timeout_failure : ℕ
timeout_failure = 2 ^ 32 - 1

abbrev pub unmarshal_reply_failure : ℕ
unmarshal_reply_failure = 2 ^ 32 - 3

abbrev pub bind_failure : ℕ
bind_failure = 2 ^ 32 - 6

-- rpcc::caller, less the mutex; `un` is the object that it points to.
pub record Caller : Type 0 where
  pub xid : ℕ
  pub un : Unmarshall
  pub intret : ℕ
  pub finished : Bool

pub record Client : Type 0 where
  pub clt_nonce : ℕ
  pub srv_nonce : ℕ
  pub bind_done : Bool
  pub xid : ℕ
  pub calls : Map Caller
  pub xid_rep_window : List ℕ

-- rpcc(d, retrans), with what random() returned
unfoldable pub rpcc : ℕ → Bool → Client
rpcc random retrans = record {
  clt_nonce = if retrans then random else 0;
  srv_nonce = 0;
  bind_done = false;
  xid = 1;
  calls = [];
  xid_rep_window = 0 ∷ [];
}

-- The outcome of the first part of call1.
pub data Begun : Type 0 where
  refused : ℕ → Begun
  sent : ReqHeader → Marshall → Client → Begun

-- caller(xxid, xun); `junk` is what the field `intret` happens to hold.
abbrev pub new_caller : ℕ → ℕ → Caller
new_caller junk xid = record { xid = xid; un = blank; intret = junk; finished = false }

-- The header that call1 makes.
abbrev pub request_header : ℕ → Client → ReqHeader
request_header proc cl = record {
  xid = cl.xid;
  proc = proc;
  clt_nonce = cl.clt_nonce;
  srv_nonce = cl.srv_nonce;
  xid_rep = front cl.xid_rep_window;
}

-- call1 up to the loop: a new xid, an entry for the caller, and the header of the request.
unfoldable pub begin_call : ℕ → ℕ → Marshall → Client → Option Begun
begin_call junk proc req cl =
    if (not (proc == bind_proc) && not cl.bind_done) || (proc == bind_proc && cl.bind_done)
    then some (refused bind_failure)
    else (pack_req_header (request_header proc cl) req >>= λ m. some (
        sent (request_header proc cl) m (record cl {
          xid = (cl.xid + 1) % 2 ^ 32;
          calls = insert cl.xid (new_caller junk cl.xid) cl.calls;
        })))

-- got_pdu behind unpack_reply_header
unfoldable pub take_reply : ReplyHeader → Unmarshall → Client → Client
take_reply h rep cl =
    if not rep.ok
    then cl
    else let cl' = record cl { xid_rep_window = update_xid_rep h.xid cl.xid_rep_window } in
      elim (find h.xid cl.calls) [
        | none ↦ cl'
        | some ca ↦ if ca.finished then cl' else record cl' {
          calls =
              insert h.xid
                (record ca { un = (take_in ca.un rep).0; intret = h.ret; finished = true })
                cl.calls;
        }
      ]

-- got_pdu
unfoldable pub got_pdu : Mem → ℕ → Client → Client
got_pdu b sz cl = let (h, rep) = unpack_reply_header (unmarshall b sz) in take_reply h rep cl

-- call1 behind the loop: the entry goes, and the status is that of the reply if there was one.
unfoldable pub end_call : ℕ → Client → (ℕ × Unmarshall) × Client
end_call xid cl =
    let cl' = record cl {
      calls = erase xid cl.calls;
      xid_rep_window = update_xid_rep xid cl.xid_rep_window;
    } in
    elim (find xid cl.calls) [
      | none ↦ ((timeout_failure, blank), cl')
      | some ca ↦ ((if ca.finished then ca.intret else timeout_failure, ca.un), cl')
    ]

-- The part of rpcc::call before call_m: the arguments in a fresh buffer.
unfoldable pub call_args : {A : Type 0} → Codec A → Mem → A → Option Marshall
call_args c fresh_mem a = c.put a (marshall fresh_mem)

-- call_m behind call1: the result `r`, with `r0` its old value.
unfoldable pub call_result : {R : Type 0} → Codec R → R → ℕ × Unmarshall → Option (ℕ × R)
call_result c r0 (intret, u) =
    if is_negative intret
    then some (intret, r0)
    else (c.get r0 u >>= λ (r, u).
        some (if okdone u then (intret, r) else (unmarshal_reply_failure, r)))

-- bind behind its call
unfoldable pub end_bind : ℕ → ℕ → Client → ℕ × Client
end_bind ret r cl =
    if ret == 0 then (ret, record cl { bind_done = true; srv_nonce = r }) else (ret, cl)
