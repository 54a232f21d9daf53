-- ===== src/Lock/Service.antt =====
-- The map of locks of lock_server (lock_server.cc), its operations as methods of the RPC library
-- (lock_smain.cc), and lock_client (lock_client.cc). A method is what has happened when it returns:
-- acquire waits first, as Lock has it, until the lock is free. `junk` is what an int holds that is not
-- assigned. `none` is a failed assertion.
use ds.Base.{
  ℕ, Bool, true, false, [], Option, none, some, ◌==◌, if◌then◌else◌, ◌>>=◌, Mem, Map, insert,
  find_or,
}
use ds.Rpc.Codec.{Codec, u32, u64, pair}
use ds.Rpc.Client.{Client, Begun}
use ds.Rpc.Call.{start_call, finish_call}
use ds.Rpc.Server.{Server}
use ds.Rpc.Server.Handler.{Method}
use ds.Rpc.Server.Setup.{reg, rpcs}

-- lock_server: isLocked of each lock that was asked for.
pub record LockServer : Type 0 where
  pub nacquire : ℕ
  pub locks : Map Bool

-- lock_server()
abbrev pub lock_server : LockServer
lock_server = record { nacquire = 0; locks = [] }

-- ~lock_server
abbrev pub lock_server_end : LockServer → LockServer
lock_server_end s = record s { locks = [] }

-- rpc_numbers
abbrev pub acquire_proc : ℕ
acquire_proc = 0x7001

abbrev pub release_proc : ℕ
release_proc = 0x7002

abbrev pub stat_proc : ℕ
stat_proc = 0x7004

-- Whether acquire goes on behind its while; a lock that is not there is made, and free.
unfoldable pub is_free : ℕ → LockServer → Bool
unfolding find_or
is_free lid s = if find_or false lid s.locks then false else true

unfoldable pub acquire : Method LockServer (ℕ × ℕ) ℕ
acquire s (clt, lid) r = (record s { locks = insert lid true s.locks }, 0, r)

unfoldable pub release : Method LockServer (ℕ × ℕ) ℕ
release s (clt, lid) r = (record s { locks = insert lid false s.locks }, 0, r)

unfoldable pub stat : Method LockServer (ℕ × ℕ) ℕ
stat s (clt, lid) r = (s, 0, s.nacquire)

-- int clt, lockid_t lid
abbrev pub lock_codec : Codec (ℕ × ℕ)
lock_codec = pair u32 u64

-- main of lock_smain.cc up to its loop
unfoldable pub lock_smain : ℕ → ℕ → Option (Server LockServer)
unfolding rpcs
lock_smain random junk = do
  s ← rpcs random 0 junk lock_server
  s ← reg lock_codec u32 (junk, junk) junk stat_proc stat s
  s ← reg lock_codec u32 (junk, junk) junk acquire_proc acquire s
  reg lock_codec u32 (junk, junk) junk release_proc release s

-- The operations of lock_client.
pub data LockOp : Type 0 where
  acquire_op release_op stat_op : LockOp

abbrev pub proc_of : LockOp → ℕ
proc_of acquire_op = acquire_proc
proc_of release_op = release_proc
proc_of stat_op = stat_proc

abbrev pub method_of : LockOp → Method LockServer (ℕ × ℕ) ℕ
method_of acquire_op = acquire
method_of release_op = release
method_of stat_op = stat

-- Each operation calls its procedure with cl->id(), which is clt_nonce_, and the lock.
unfoldable pub start_lock : LockOp → ℕ → Mem → ℕ → Client → Option Begun
start_lock o lid mem junk cl = start_call lock_codec mem (cl.clt_nonce, lid) junk (proc_of o) cl

-- assert(ret == OK); return r;
unfoldable pub finish_lock : ℕ → ℕ → Mem → ℕ → Client → Option ℕ
finish_lock junk xid b n cl =
    finish_call u32 junk xid b n cl >>= λ (ret, r). if ret == 0 then some r else none
