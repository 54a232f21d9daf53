-- ===== src/Rpc/Client/Retry/Deadline.antt =====
-- How long call1's loop waits, and that it ends (rpc/rpc.cc).
use ds.Base.{ℕ, zero, suc, ◌*◌, ◌≡◌, Bool, true, List, some}
use ds.Rpc.Timespec.{Timespec}
use ds.Rpc.Client.Retry.{Waiting, Round, loop}

-- `n` times twice as much
abbrev doubled : ℕ → ℕ → ℕ
doubled zero c = c
doubled (suc n) c = doubled n (c * 2)

-- The loop ends.
abbrev Ends : Bool → List Round → Waiting → Type 0
Ends retrans rs w = (w' : Waiting) × (loop retrans rs w ≡ some (true, w'))
