-- ===== src/Rpc/Connection.antt =====
-- Class connection (rpc/connection.h, rpc/connection.cc): pdus over a stream of bytes. What read and
-- write of the system return is an argument, and `out` is what write has taken so far. An int is its
-- bit pattern. `none` is a fault: a failed assertion or bytes written outside an allocation. A
-- callback runs under the mutex; the waits of send are the points between its parts. The lossy test,
-- which only shuts the socket down, shows in what later reads and writes return.
pub mod Sends
pub mod Receives
pub mod Transport
pub mod Senders
pub mod Accepting
mod Tests
use ds.Base.{
  ℕ, ◌+◌, ◌-◌, ◌*◌, ◌^◌, Bool, true, false, ◌&&◌, ◌||◌, not, List, [], ◌∷◌, ◌++◌, Option, none,
  some, ltb, leb, ◌==◌, if◌then◌else◌, ◌>>=◌, length, Mem, copy_at, slice,
}
use ds.Rpc.Marshall.Writes.{be32}
use ds.Rpc.Server.{is_negative}

-- MAX_PDU
abbrev pub max_pdu : ℕ
max_pdu = 10 * 2 ^ 20

-- charbuf
pub record Charbuf : Type 0 where
  pub buf : Option Mem
  pub sz : ℕ
  pub solong : ℕ

abbrev pub charbuf : Charbuf
charbuf = record { buf = none; sz = 0; solong = 0 }

pub record Connection : Type 0 where
  pub dead : Bool
  pub wpdu : Charbuf
  pub rpdu : Charbuf
  pub refno : ℕ
  pub out : List ℕ

-- The constructor.
abbrev pub connection : Connection
connection = record { dead = false; wpdu = charbuf; rpdu = charbuf; refno = 1; out = [] }

-- What read returns: bytes, the end of the stream, or an error; of the last two, whether errno is
-- EAGAIN behind it.
pub data ReadResult : Type 0 where
  bytes : List ℕ → ReadResult
  at_end failed : Bool → ReadResult

-- What write returns: a number of bytes, EAGAIN, or another error.
pub data WriteResult : Type 0 where
  wrote : ℕ → WriteResult
  again broken : WriteResult

-- ntohl of the four bytes
abbrev pub ntohl : List ℕ → ℕ
ntohl (a ∷ b ∷ c ∷ d ∷ []) = a * 2 ^ 24 + b * 2 ^ 16 + c * 2 ^ 8 + d
ntohl _ = 0

-- The part of readpdu for the size; `fresh` is what malloc's bytes hold. A negative size asks malloc
-- for less than four bytes, or for more than there is.
unfoldable pub read_size : ReadResult → Mem → Charbuf → Option (Bool × Charbuf)
read_size (bytes l) fresh p =
    let sz = ntohl l in
    if not (length l == 4)
    then some (false, p)
    else if not (is_negative sz) && ltb max_pdu sz
    then some (false, p)
    else elim p.buf [
      | some _ ↦ none
      | none ↦
          if is_negative sz
          then none
          else some (true, record { buf = some (copy_at fresh 0 l); sz = sz; solong = 4 })
    ]
read_size (at_end _) fresh p = some (false, p)
read_size (failed errno_again) fresh p = if errno_again then none else some (false, p)

-- The part for the rest; the allocation has sz + 4 bytes.
unfoldable pub read_body : ReadResult → Charbuf → Option (Bool × Charbuf)
read_body (bytes l) p = elim p.buf [
  | none ↦ none
  | some b ↦
      if ltb (p.sz + 4) (p.solong + length l)
      then none
      else some (true, record p { buf = some (copy_at b p.solong l); solong = p.solong + length l })
]
read_body (at_end errno_again) p = some (if errno_again then (true, p) else (false, charbuf))
read_body (failed errno_again) p = some (if errno_again then (true, p) else (false, charbuf))

-- readpdu: at most two reads
unfoldable pub readpdu : ReadResult → ReadResult → Mem → Charbuf → Option (Bool × Charbuf)
unfolding read_size read_body
readpdu first second fresh p =
    if p.sz == 0
    then (read_size first fresh p >>= λ (succ, p').
        if succ then read_body second p' else some (false, p'))
    else read_body second p

-- Whether got_pdu gets the pdu, and what it gets.
unfoldable pub complete : Charbuf → Option (Mem × ℕ)
complete p = elim p.buf [ none ↦ none | some b ↦ if p.sz == p.solong then some (b, p.sz) else none ]

abbrev pub is_null : Option Mem → Bool
is_null none = true
is_null (some _) = false

-- read_cb, with what got_pdu answers, and the pdu that it was given
unfoldable pub read_cb :
    ReadResult → ReadResult → Mem → Bool → Connection → Option (Connection × Option (Mem × ℕ))
unfolding readpdu complete
read_cb first second fresh consumed c =
    if c.dead
    then some (c, none)
    else ((if is_null c.rpdu.buf || ltb c.rpdu.solong c.rpdu.sz
          then readpdu first second fresh c.rpdu
          else some (true, c.rpdu))
        >>= λ (succ, p). some (elim (complete p) [
          | none ↦ (record c { rpdu = p; dead = not succ }, none)
          | some pdu ↦
              (record c { rpdu = if consumed then charbuf else p; dead = not succ }, some pdu)
        ]))

-- The callbacks for a list of readable events, when got_pdu takes every pdu: what it is given
unfoldable pub receive :
    List (ReadResult × ReadResult) → Mem → Connection → Option (Connection × List (Mem × ℕ))
receive [] fresh c = some (c, [])
receive ((first, second) ∷ rs) fresh c = read_cb first second fresh true c >>= λ (c', pdu).
    receive rs fresh c' >>= λ (d, pdus). some (d, elim pdu [ none ↦ pdus | some p ↦ p ∷ pdus ])

-- writepdu, and the bytes that write took
unfoldable pub writepdu : WriteResult → Charbuf → Option (Bool × Charbuf × List ℕ)
writepdu w p =
    if is_negative p.solong
    then none
    else if p.solong == p.sz
    then some (true, p, [])
    else elim p.buf [
      | none ↦ none
      | some b ↦
          let b' = if p.solong == 0 then copy_at b 0 (be32 p.sz) else b in
          elim w [
            | wrote n ↦
                some (true, record p { buf = some b'; solong = p.solong + n }, slice b' p.solong n)
            | again ↦ some (true, record p { buf = some b' }, [])
            | broken ↦ some (false, record { buf = some b'; sz = 0; solong = 2 ^ 32 - 1 }, [])
          ]
    ]

-- The connection behind a call of writepdu.
unfoldable pub write_step : WriteResult → Connection → Option Connection
unfolding writepdu
write_step w c = writepdu w c.wpdu >>= λ (succ, p, taken).
    some (record c { wpdu = p; dead = not succ; out = c.out ++ taken })

-- send up to the wait for its end: the connection is dead, another pdu is being sent, or the wait
-- begins, which may be over at once.
pub data Started : Type 0 where
  refused busy : Started
  going : Connection → Started

unfoldable pub send_start : WriteResult → Mem → ℕ → Connection → Option Started
unfolding write_step
send_start w b sz c = if c.dead then some refused else elim c.wpdu.buf [
  | some _ ↦ some busy
  | none ↦ write_step w (record c { wpdu = record { buf = some b; sz = sz; solong = 0 } }) >>= λ c'.
      some (going c')
]

-- The condition under which send goes on waiting.
unfoldable pub is_sending : Connection → Bool
is_sending c = not c.dead && (not (is_negative c.wpdu.solong) && ltb c.wpdu.solong c.wpdu.sz)

-- send behind the wait
unfoldable pub send_finish : Connection → Bool × Connection
send_finish c = (not c.dead && c.wpdu.solong == c.wpdu.sz, record c { wpdu = charbuf })

-- write_cb
unfoldable pub write_cb : WriteResult → Connection → Option Connection
unfolding write_step
write_cb w c = if c.dead then none else if c.wpdu.sz == 0 then some c else write_step w c

-- The callbacks that come while send waits.
unfoldable pub pump : List WriteResult → Connection → Option Connection
pump [] c = some c
pump (w ∷ ws) c = write_cb w c >>= pump ws

-- send as a whole, with what its own write returned and those of the callbacks: it may still wait.
pub data Outcome : Type 0 where
  blocked : Outcome
  returned : Bool → Connection → Outcome

unfoldable pub send : WriteResult → List WriteResult → Mem → ℕ → Connection → Option Outcome
unfolding send_start is_sending send_finish pump
send w ws b sz c = send_start w b sz c >>= λ r. elim r [
  | refused ↦ some (returned false c)
  | busy ↦ some blocked
  | going c' ↦ pump ws c' >>= λ d.
      some (if is_sending d then blocked else returned (send_finish d).0 (send_finish d).1)
]

unfoldable pub incref : Connection → Connection
incref c = record c { refno = c.refno + 1 }

-- decref, and whether the object is deleted
unfoldable pub decref : Connection → Option (Bool × Connection)
decref c =
    if c.refno == 0 then none else some (c.refno == 1 && c.dead, record c { refno = c.refno - 1 })

-- closeconn, and whether it removes the descriptor from the poll manager
unfoldable pub closeconn : Connection → Bool × Connection
closeconn c = (not c.dead, record c { dead = true })
