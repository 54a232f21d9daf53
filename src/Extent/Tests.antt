-- ===== src/Extent/Tests.antt =====
-- Concrete runs of the extent server (extent_server.cc).
use ds.Base.{
  inl, ℕ, ◌≡◌, refl, List, [], ◌∷◌, arith, Mem, none, some, true, false, inr, insert, find, find_or,
}
use ds.Extent.{ok, Extents, stamped, extent_server, put, get, getattr}
use ds.Extent.Laws.{get-put}
use ds.Rpc.Marshall.{Marshall}
use ds.Rpc.Marshall.Writes.{memory}
use ds.Rpc.Window.{check}
use ds.Rpc.Client.{Client, sent, request_header}
use ds.Rpc.Server.{Server, dispatch, reg1}
use ds.Rpc.Server.Setup.{rpcs}
use ds.Extent.Service.{Store, extent_smain, put_op, start_op, finish_op, put_proc}
use ds.Extent.Calls.{Ready}
use ds.Extent.Remote.{remote_lem}

abbrev zeros : Mem
zeros = λ _. 0

abbrev text : List ℕ
text = 65 ∷ 66 ∷ 67 ∷ []

abbrev stored : Extents
stored = (2, record { attr = stamped 8 3; content = text }) ∷ []

get-put_example :
    ((put 9 2 text (extent_server 7)).0 ≡ ok)
    × (get 2 [] (put 9 2 text (extent_server 7)).1 ≡ (ok, text))
    × (getattr 2 (stamped 0 0) (put 9 2 text (extent_server 7)).1 ≡ (ok, stamped 9 3))
get-put_example = get-put 9 2 text [] (stamped 0 0) (extent_server 7) (omega arith)

-- The server that main sets up, after a first call of client 9 on connection 3.
abbrev unset : Server Store
unset = record {
  nonce = 0;
  counting = 0;
  curr_counts = 0;
  counts = [];
  procs = [];
  reply_window = [];
  conns = [];
  refs = λ _. 1;
  dead = λ _. false;
  sent = [];
  app = record { now = 0; extents = [] };
}

abbrev main : Server Store
main = elim (extent_smain 77 5 7) [ none ↦ unset | some t ↦ t ]

abbrev server : Server Store
server = record main {
  conns = (9, 3) ∷ [];
  refs = λ _. 3;
  reply_window = (9, record { xid = 1; cb_present = true; buf = none; sz = 28 } ∷ []) ∷ [];
}

abbrev client : Client
client = record {
  clt_nonce = 9;
  srv_nonce = 77;
  bind_done = true;
  xid = 2;
  calls = [];
  xid_rep_window = 1 ∷ [];
}

ready : Ready client server 77 5 7 3 (put_op 2 text)
unfolding extent_smain rpcs reg1 insert find find_or check
ready = record {
  bound = refl;
  is_new = inr (ground arith, inl refl, refl);
  instance_ = refl;
  range = record {
    xid = omega arith;
    proc = omega arith;
    clt_nonce = omega arith;
    srv_nonce = omega arith;
    xid_rep = omega arith;
  };
  main = main;
  started = refl;
  procs = refl;
  int_ = omega arith;
  alive = refl;
  referenced = omega arith;
  args = (omega arith, omega arith);
  output = tt;
}

remote_lem_example :
    (m : Marshall) × (m' : Marshall) × (cl' : Client) × (t : Server Store) × (start_op
        (put_op 2 text)
        zeros
        6
        client
      ≡ some (sent (request_header put_proc client) m cl'))
    × (dispatch zeros 3 (memory m) m.ind server ≡ some t)
    × (t.app.extents ≡ (put 7 2 text server.app.extents).1)
    × (t.sent ≡ (3, some (memory m'), m'.ind) ∷ [])
    × (finish_op (put_op 2 text) tt 6 2 (memory m') m'.ind cl' ≡ some (0, tt))
unfolding put extent_smain find
remote_lem_example = remote_lem (put_op 2 text) tt client server zeros zeros 77 5 6 7 3 ready
