-- ===== src/Lock/Tests.antt =====
-- A concrete run of the lock server (lock_server.cc).
use ds.Base.{ℕ, true, false, List, [], ◌∷◌, Option, none, some, Mem}
use ds.Rpc.Marshall.{Marshall}
use ds.Rpc.Client.{Client, sent}
use ds.Rpc.Server.{Server}
use ds.Lock.Service.{LockServer, lock_server, lock_smain}

abbrev zeros : Mem
zeros = λ _. 0

-- Thread 1 is granted the lock, and thread 2 comes to wait for it.
abbrev two_threads : List (ℕ × Option ℕ)
two_threads =
    (1, none)
    ∷ (2, none)
    ∷ (1, none)
    ∷ (2, none)
    ∷ (1, none)
    ∷ (1, none)
    ∷ (2, none)
    ∷ (2, none)
    ∷ []

-- The server that main sets up, after a first call of client 9 on connection 3.
abbrev unset : Server LockServer
unset = record {
  nonce = 0;
  counting = 0;
  curr_counts = 0;
  counts = [];
  procs = [];
  reply_window = [];
  conns = [];
  refs = λ _. 1;
  dead = λ _. false;
  sent = [];
  app = lock_server;
}

abbrev main : Server LockServer
main = elim (lock_smain 77 5) [ none ↦ unset | some t ↦ t ]

abbrev server : Server LockServer
server = record main {
  conns = (9, 3) ∷ [];
  refs = λ _. 3;
  reply_window = (9, record { xid = 1; cb_present = true; buf = none; sz = 28 } ∷ []) ∷ [];
}

abbrev client : Client
client = record {
  clt_nonce = 9;
  srv_nonce = 77;
  bind_done = true;
  xid = 2;
  calls = [];
  xid_rep_window = 1 ∷ [];
}

-- Thread 1 takes lock 4 while thread 2 takes lock 9.
abbrev two_locks : List (ℕ × ℕ × Option ℕ)
two_locks =
    (4, 1, none)
    ∷ (9, 2, none)
    ∷ (4, 1, none)
    ∷ (9, 2, none)
    ∷ (9, 2, none)
    ∷ (4, 1, none)
    ∷ (9, 2, none)
    ∷ (4, 1, none)
    ∷ []
