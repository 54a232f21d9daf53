-- ===== src/Rpc/Client/Retry/Tests.antt =====
-- A concrete run of the loop of rpcc::call1 (rpc/rpc.cc).
use ds.Base.{true, false, List, [], ◌∷◌, some}
use ds.Rpc.Timespec.{Timespec}
use ds.Rpc.Client.Retry.{Round}

abbrev start : Timespec
start = record { tv_sec = 100; tv_nsec = 0 }

-- A round in which the reply comes.
abbrev answered : Round
answered = record {
  dead = λ _. false;
  connect = some 1;
  now = start;
  replied = true;
  dead_after = λ _. false;
}

abbrev rounds : List Round
rounds = answered ∷ answered ∷ answered ∷ answered ∷ answered ∷ answered ∷ answered ∷ answered ∷ []
