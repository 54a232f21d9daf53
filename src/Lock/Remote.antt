-- ===== src/Lock/Remote.antt =====
-- A remote call of lock_client (lock_client.cc, lock_server.cc).
use ds.Base.{ℕ, ◌^◌, ◌<◌, Bool, true, false, ◌++◌, ◌==◌, if◌then◌else◌}
use ds.Rpc.Marshall.{Marshall}
use ds.Rpc.Marshall.Writes.{be32}
use ds.Rpc.Codec.Laws.{Lawful, u32-Lawful, u64-Lawful, pair-Lawful, encode_u64}
use ds.Rpc.Client.{Client}
use ds.Rpc.Server.{Server}
use ds.Lock.Service.{LockServer, LockOp, acquire_op, release_op, stat_op, lock_codec, is_free}

pub lock-Lawful :
    Lawful lock_codec (λ t. be32 t.0 ++ encode_u64 t.1) (λ t. (t.0 < 2 ^ 32) × (t.1 < 2 ^ 64))
lock-Lawful = pair-Lawful u32-Lawful u64-Lawful

-- Which locks are free behind the operation, and what lock_client returns.
abbrev pub frees : LockOp → ℕ → LockServer → ℕ → Bool
frees acquire_op lid s j = if lid == j then false else is_free j s
frees release_op lid s j = if lid == j then true else is_free j s
frees stat_op lid s j = is_free j s

abbrev pub returned : LockOp → ℕ → LockServer → ℕ
returned acquire_op junk s = junk
returned release_op junk s = junk
returned stat_op junk s = s.nacquire
