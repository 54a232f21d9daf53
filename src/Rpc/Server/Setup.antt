-- ===== src/Rpc/Server/Setup.antt =====
-- The constructor of rpcs (rpc/rpc.cc) and the templates rpcs::reg (rpc/rpc.h). Threads, the listener
-- and the lossy test are left out. A local variable of a handler holds `0` or `[]` at first, where the
-- source leaves it open, as `junk` or by its constructor.
use ds.Base.{ℕ, [], false, Option}
use ds.Rpc.Codec.{Codec, u32}
use ds.Rpc.Client.{bind_proc}
use ds.Rpc.Server.{Server, reg1}
use ds.Rpc.Server.Handler.{Method, handler}

-- rpcbind, as a method
abbrev pub rpcbind_method : {App : Type 0} → ℕ → Method App ℕ ℕ
rpcbind_method nonce app a r = (app, 0, nonce)

-- reg: the method as a handler, under its number
abbrev pub reg :
    {App A R : Type 0}
    → Codec A
    → Codec R
    → A
    → R
    → ℕ
    → Method App A R
    → Server App
    → Option (Server App)
reg ca cr a0 r0 proc meth s = reg1 proc (handler ca cr a0 r0 meth) s

-- rpcs(p1, count), with what random() returned; a connection starts with one reference.
unfoldable pub rpcs : {App : Type 0} → ℕ → ℕ → ℕ → App → Option (Server App)
unfolding reg1
rpcs random count junk app = reg u32 u32 junk junk bind_proc (rpcbind_method random) (record {
  nonce = random;
  counting = count;
  curr_counts = count;
  counts = [];
  procs = [];
  reply_window = [];
  conns = [];
  refs = λ _. 1;
  dead = λ _. false;
  sent = [];
  app = app;
})
