-- ===== src/Rpc/Client/Retry.antt =====
-- The loop of rpcc::call1, which sends and waits, and get_refconn (rpc/rpc.cc). A connection is a
-- number, `refs` its reference count, and every round is given what the clock, the connections and the
-- wait on the condition variable do. Timeouts are in milliseconds; an int is its bit pattern. `none`
-- is the failed assertion of connection::decref.
pub mod Waits
pub mod Deadline
pub mod References
pub mod Once
mod Tests
use ds.Base.{
  ℕ, ◌+◌, ◌-◌, ◌*◌, ◌%◌, ◌^◌, Bool, true, false, ◌&&◌, not, List, [], ◌∷◌, Option, none, some, ◌==◌,
  if◌then◌else◌, ◌>>=◌, update,
}
use ds.Rpc.Timespec.{Timespec, cmp_timespec, add_timespec}

abbrev pub to_max : ℕ
to_max = 120000

abbrev pub to_min : ℕ
to_min = 1000

-- The variables of the loop, chan_, and what has been sent and waited for.
pub record Waiting : Type 0 where
  pub curr_to : ℕ
  pub finaldeadline : Timespec
  pub transmit : Bool
  pub ch : Option ℕ
  pub chan : Option ℕ
  pub refs : ℕ → ℕ
  pub sent : List ℕ
  pub waits : List Timespec

-- What happens in a round: which connections are dead before and after the wait, what connect_to_dst
-- returns, the time, and whether the reply comes before the wait's end.
pub record Round : Type 0 where
  pub dead : ℕ → Bool
  pub connect : Option ℕ
  pub now : Timespec
  pub replied : Bool
  pub dead_after : ℕ → Bool

-- decref on a pointer that may be NULL
unfoldable pub release : Option ℕ → (ℕ → ℕ) → Option (ℕ → ℕ)
release none refs = some refs
release (some c) refs = if refs c == 0 then none else some (update refs c (refs c - 1))

-- What holds a new reference: a new connection, whose count was 0, or an incref.
unfoldable pub acquire : Option ℕ → (ℕ → ℕ) → ℕ → ℕ
acquire none refs = refs
acquire (some c) refs = update refs c (refs c + 1)

-- !c || c->isdead()
abbrev pub is_gone : (ℕ → Bool) → Option ℕ → Bool
is_gone dead none = true
is_gone dead (some c) = dead c

-- The two parts of get_refconn.
unfoldable pub reconnect : Round → Waiting → Option Waiting
unfolding release acquire
reconnect r w =
    if is_gone r.dead w.chan
    then (release w.chan w.refs >>= λ refs.
        some (record w { chan = r.connect; refs = acquire r.connect refs }))
    else some w

unfoldable pub adopt : Waiting → Option Waiting
unfolding release acquire
adopt w = elim w.chan [
  | none ↦ some w
  | some c ↦
      release w.ch w.refs >>= λ refs. some (record w { ch = some c; refs = acquire (some c) refs })
]

unfoldable pub get_refconn : Round → Waiting → Option Waiting
unfolding reconnect adopt
get_refconn r w = reconnect r w >>= adopt

abbrev pub with_one : Option ℕ → List ℕ → List ℕ
with_one none l = l
with_one (some c) l = c ∷ l

-- The part of a round that sends.
unfoldable pub transmit_once : Round → Waiting → Option Waiting
unfolding get_refconn
transmit_once r w =
    if w.transmit
    then (get_refconn r w >>= λ w'.
        some (record w' { transmit = false; sent = with_one w'.ch w'.sent }))
    else some w

-- The part that sets the deadlines: whether nextdeadline is finaldeadline, and the wait.
unfoldable pub begin_wait : Round → Waiting → Waiting
begin_wait r w =
    let next = add_timespec r.now w.curr_to in
    if cmp_timespec next w.finaldeadline == 1
    then record w {
      finaldeadline = record (w.finaldeadline) { tv_sec = 0 };
      waits = w.finaldeadline ∷ w.waits;
    }
    else record w { waits = next ∷ w.waits }

-- The part behind the wait.
unfoldable pub after_wait : Bool → Round → Waiting → Waiting
after_wait retrans r w = record w {
  transmit = if retrans && is_gone r.dead_after w.ch then true else w.transmit;
  curr_to = w.curr_to * 2 % 2 ^ 32;
}

-- A round, and whether it breaks.
unfoldable pub round : Bool → Round → Waiting → Option (Bool × Waiting)
unfolding transmit_once begin_wait after_wait
round retrans r w = transmit_once r w >>= λ w'. some (
    if w'.finaldeadline.tv_sec == 0
    then (true, w')
    else if r.replied
    then (true, begin_wait r w')
    else (false, after_wait retrans r (begin_wait r w')))

unfoldable pub loop : Bool → List Round → Waiting → Option (Bool × Waiting)
unfolding round
loop retrans [] w = some (false, w)
loop retrans (r ∷ rs) w =
    round retrans r w >>= λ (ended, w'). if ended then some (true, w') else loop retrans rs w'

-- The variables before the loop.
unfoldable pub begin_loop : Timespec → ℕ → Option ℕ → (ℕ → ℕ) → Waiting
begin_loop now to chan refs = record {
  curr_to = to_min;
  finaldeadline = add_timespec now to;
  transmit = true;
  ch = none;
  chan = chan;
  refs = refs;
  sent = [];
  waits = [];
}
