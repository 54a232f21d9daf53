-- ===== src/Rpc/Runs.antt =====
-- Concrete runs of calls and of dispatch (rpc/rpc.h, rpc/rpc.cc), with a counter as the object.
use ds.Base.{
  ◌-◌, ℕ, ◌+◌, ◌^◌, ◌<◌, ◌≤◌, ◌≡◌, refl, inl, inr, insert, true, false, List, [], ◌∷◌, ◌++◌, none,
  some, arith, Mem, find, find_or,
}
use ds.Rpc.Marshall.{Marshall, ReqHeader}
use ds.Rpc.Marshall.Writes.{memory, be32}
use ds.Rpc.Unmarshall.{Unmarshall, rawbytes, unmarshall, unpack_req_header, unpack, rawbyte}
use ds.Rpc.Unmarshall.Reads.{rawbytes_wraps}
use ds.Rpc.Codec.{u32}
use ds.Rpc.Codec.Laws.{u32-Lawful}
use ds.Rpc.Message.{IsMessage, encode_req, encode_reply, ReqInRange}
use ds.Rpc.Message.Packing.{req-IsMessage}
use ds.Rpc.Window.{check, fill}
use ds.Rpc.Client.{rpcc, bind_proc, Client, sent, request_header}
use ds.Rpc.Server.{reg1, Server, dispatch, route, oldsrv_failure}
use ds.Rpc.Server.Handler.{Method, handler}
use ds.Rpc.Server.Dispatch.{Arrives, dispatch_plain}
use ds.Rpc.Server.Duplicates.{replies_of, dispatch_duplicate, dispatch_old_server, dispatch_new}
use ds.Rpc.Server.Jobs.{Event, pdu, job, got_pdu, step, run}
use ds.Rpc.Server.References.{references_lem}
use ds.Rpc.Bind.{Bindable, finish_bind, bind_lem}
use ds.Rpc.Server.Setup.{rpcs}
use ds.Rpc.Call.{Callable, start_call, finish_call, call_lem}

abbrev zeros : Mem
zeros = λ _. 0

-- Adds to a counter, and returns it.
abbrev add : Method ℕ ℕ ℕ
add app a r = (app + a, 0, app + a)

-- A server with one method, whose client 9 was connected before and has an answered request 1.
abbrev server : Server ℕ
server = record {
  nonce = 77;
  counting = 0;
  curr_counts = 0;
  counts = [];
  procs = (42, handler u32 u32 0 0 add) ∷ [];
  reply_window = (9, record { xid = 1; cb_present = true; buf = some zeros; sz = 28 } ∷ []) ∷ [];
  conns = (9, 3) ∷ [];
  refs = λ _. 2;
  dead = λ _. false;
  sent = [];
  app = 10;
}

abbrev client : Client
client = record {
  clt_nonce = 0;
  srv_nonce = 77;
  bind_done = true;
  xid = 1;
  calls = [];
  xid_rep_window = 0 ∷ [];
}

header-InRange :
    (xid srv_nonce clt_nonce : ℕ)
    → xid < 2 ^ 32
    → srv_nonce < 2 ^ 32
    → clt_nonce < 2 ^ 32
    → ReqInRange
        (record { xid = xid; proc = 42; clt_nonce = clt_nonce; srv_nonce = srv_nonce; xid_rep = 0 })
header-InRange xid srv_nonce clt_nonce h k l = record {
  xid = h;
  proc = omega arith;
  clt_nonce = l;
  srv_nonce = k;
  xid_rep = omega arith;
}

callable : Callable u32-Lawful u32-Lawful 0 0 add client server 42 3 5
unfolding find
callable = record {
  allowed = refl;
  is_new = inl refl;
  current = refl;
  range = header-InRange 1 77 0 (omega arith) (omega arith) (omega arith);
  registered = refl;
  args = omega arith;
  result = omega arith;
  args_room = omega arith;
  result_room = omega arith;
  status = omega arith;
  alive = refl;
  referenced = omega arith;
}

call_example :
    (m : Marshall) × (m' : Marshall) × (cl' : Client) × (t : Server ℕ) × (start_call u32 zeros 5 0
        42 client
      ≡ some (sent (request_header 42 client) m cl'))
    × (dispatch zeros 3 (memory m) m.ind server ≡ some t)
    × (t.app ≡ 15)
    × (t.sent ≡ (3, some (memory m'), m'.ind) ∷ [])
    × (finish_call u32 0 1 (memory m') m'.ind cl' ≡ some (0, 15))
call_example = call_lem u32-Lawful u32-Lawful 0 0 0 add client server zeros zeros 0 42 3 5 callable

-- The header of a request of client `clt_nonce`.
abbrev request_of : ℕ → ℕ → ℕ → ReqHeader
request_of xid srv_nonce clt_nonce = record {
  xid = xid;
  proc = 42;
  clt_nonce = clt_nonce;
  srv_nonce = srv_nonce;
  xid_rep = 0;
}

-- A message with a header and the argument 5.
abbrev Message : ReqHeader → Type 0
Message h = (m : Marshall) × IsMessage (memory m) m.ind (encode_req h) (be32 5) × (m.ind < 2 ^ 31)

abbrev message : (h : ReqHeader) → Message h
message h =
    let (m, _, _, size, msg) = req-IsMessage u32-Lawful zeros 5 h (omega arith) in
    (m, msg, omega arith)

abbrev body : (h : ReqHeader) → Mem
body h = memory (message h).0

abbrev body_size : (h : ReqHeader) → ℕ
body_size h = (message h).0.ind

arrives :
    (xid clt_nonce : ℕ)
    → xid < 2 ^ 32
    → clt_nonce < 2 ^ 32
    → Arrives u32-Lawful u32-Lawful 0 0 add server 3
        (request_of xid 77 clt_nonce)
        5
        (body (request_of xid 77 clt_nonce))
        (body_size (request_of xid 77 clt_nonce))
unfolding find
arrives xid clt_nonce h k =
    let h' = request_of xid 77 clt_nonce in
    record {
      range = header-InRange xid 77 clt_nonce h (omega arith) k;
      message = (message h').1;
      small = (message h').2;
      args = omega arith;
      current = refl;
      registered = refl;
      status = refl;
      room = omega arith;
      alive = refl;
      referenced = omega arith;
    }

dispatch_plain_example :
    (t : Server ℕ) × (m : Marshall) × (gap : List ℕ) × (dispatch zeros 3
        (body (request_of 1 77 0))
        (body_size (request_of 1 77 0))
        server
      ≡ some t)
    × (t.app ≡ 15)
    × (t.sent ≡ (3, some (memory m), m.ind) ∷ [])
    × IsMessage (memory m) m.ind (encode_reply (record { xid = 1; ret = 0 }) ++ gap) (be32 15)
    × (t.refs 3 + 1 ≡ 2)
    × (t.reply_window ≡ server.reply_window)
dispatch_plain_example =
    dispatch_plain u32-Lawful u32-Lawful 0 0 add server zeros 3 (request_of 1 77 0) 5
      (body (request_of 1 77 0)) (body_size (request_of 1 77 0))
      (arrives 1 0 (omega arith) (omega arith)) refl

dispatch_new_example :
    (t : Server ℕ) × (m : Marshall) × (gap : List ℕ) × (dispatch zeros 3
        (body (request_of 2 77 9))
        (body_size (request_of 2 77 9))
        server
      ≡ some t)
    × (t.app ≡ 15)
    × (t.sent ≡ (3, some (memory m), m.ind) ∷ [])
    × IsMessage (memory m) m.ind (encode_reply (record { xid = 2; ret = 0 }) ++ gap) (be32 15)
    × (t.refs 3 + 1 ≡ 2)
    × (replies_of 9 t.reply_window
        ≡ fill 2 (some (memory m)) m.ind (check 2 0 (replies_of 9 server.reply_window)).list)
unfolding find find_or check
dispatch_new_example =
    dispatch_new u32-Lawful u32-Lawful 0 0 add server zeros 3 (request_of 2 77 9) 5
      (body (request_of 2 77 9)) (body_size (request_of 2 77 9))
      (arrives 2 9 (omega arith) (omega arith)) (omega arith) refl refl

dispatch_duplicate_example :
    (t : Server ℕ) × (dispatch zeros 3
        (body (request_of 1 77 9))
        (body_size (request_of 1 77 9))
        server
      ≡ some t)
    × (t.app ≡ 10)
    × (t.sent ≡ (3, some zeros, 28) ∷ [])
    × (t.refs 3 + 1 ≡ 2)
unfolding find find_or check
dispatch_duplicate_example =
    dispatch_duplicate server zeros 3 (request_of 1 77 9) (be32 5) (body (request_of 1 77 9))
      (body_size (request_of 1 77 9)) (handler u32 u32 0 0 add) (some zeros) 28
      (header-InRange 1 77 9 (omega arith) (omega arith) (omega arith))
      (message (request_of 1 77 9)).1 refl refl (omega arith) refl (omega arith) refl refl

dispatch_old_server_example :
    (t : Server ℕ) × (m : Marshall) × (gap : List ℕ) × (dispatch zeros 3
        (body (request_of 1 76 9))
        (body_size (request_of 1 76 9))
        server
      ≡ some t)
    × (t.sent ≡ (3, some (memory m), m.ind) ∷ [])
    × IsMessage (memory m) m.ind (encode_reply (record { xid = 1; ret = oldsrv_failure }) ++ gap) []
    × (t.app ≡ 10)
    × (t.refs ≡ server.refs)
dispatch_old_server_example =
    dispatch_old_server server zeros 3 (request_of 1 76 9) (be32 5) (body (request_of 1 76 9))
      (body_size (request_of 1 76 9))
      (header-InRange 1 76 9 (omega arith) (omega arith) (omega arith))
      (message (request_of 1 76 9)).1 (omega arith) (omega arith)

-- A reader behind the four bytes that gave a length of -1
abbrev at_four : Unmarshall
at_four = record (unmarshall zeros 6) { ind = 4 }

rawbytes_wraps_example : rawbytes [] (2 ^ 32 - 1) at_four ≡ none
rawbytes_wraps_example =
    rawbytes_wraps at_four [] (2 ^ 32 - 1) (omega arith) (omega arith) (omega arith) (omega arith)

-- Two pdus on connection 3, which are no requests; the first is dispatched.
abbrev no_clients : Server ℕ
no_clients = record server { conns = [] }

abbrev two_pdus : List Event
two_pdus = pdu true 3 zeros 4 ∷ pdu true 3 zeros 9 ∷ pdu false 5 zeros 9 ∷ job zeros ∷ []

abbrev one_left : Server ℕ
one_left = elim (run two_pdus (no_clients, [])) [ none ↦ no_clients | some x ↦ x.0 ]

references_lem_example : 2 + 1 + 0 ≤ one_left.refs 3
unfolding run step got_pdu dispatch route unpack_req_header unpack rawbyte
references_lem_example =
    references_lem two_pdus no_clients one_left (record { conn = 3; buf = zeros; sz = 9 } ∷ []) refl
      refl 3

-- A fresh server and a fresh client, which asks for at-most-once.
abbrev fresh_server : Server ℕ
fresh_server = elim (rpcs 77 0 5 10) [ none ↦ server | some s ↦ s ]

abbrev fresh_client : Client
fresh_client = rpcc 9 true

bindable : Bindable fresh_client fresh_server 5 3
unfolding rpcs reg1 rpcc find insert check find_or
bindable = record {
  unbound = refl;
  nowhere = refl;
  is_new = inr (ground arith, inr refl, refl);
  range = record {
    xid = omega arith;
    proc = omega arith;
    clt_nonce = omega arith;
    srv_nonce = omega arith;
    xid_rep = omega arith;
  };
  nonce = omega arith;
  registered = refl;
  alive = refl;
  referenced = omega arith;
}

bind_lem_example :
    (m : Marshall) × (m' : Marshall) × (cl' : Client) × (t : Server ℕ) × (d : Client) × (start_call
        u32 zeros 0 6 bind_proc fresh_client
      ≡ some (sent (request_header bind_proc fresh_client) m cl'))
    × (dispatch zeros 3 (memory m) m.ind fresh_server ≡ some t)
    × (t.app ≡ 10)
    × (t.sent ≡ (3, some (memory m'), m'.ind) ∷ [])
    × (finish_bind 6 1 (memory m') m'.ind cl' ≡ some (0, d))
    × (d.bind_done ≡ true)
    × (d.srv_nonce ≡ 77)
unfolding rpcs reg1 rpcc find insert
bind_lem_example = bind_lem fresh_client fresh_server zeros zeros 5 6 3 bindable
