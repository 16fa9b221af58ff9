-- ===== src/Redisx/Client.antt =====
-- internal/redisx/client.go: `Client`, its connection and `Do`. A Go string is its bytes here. The
-- network is the environment: what it does next is a function of the log of all that happened,
-- the latest first.
pub mod Handshake
pub mod Sync
use chroma_flow.Base.{
  ℕ, zero, suc, Bool, true, false, Option, none, some, List, [], ◌∷◌, ◌++◌, length, ◌||◌, ◌&&◌, not,
  eqb, ltb, if◌then◌else◌, ℤ, pos, negsuc,
}
use chroma_flow.Queue.Types.{Error}
use chroma_flow.Redisx.Decimal.{itoa}
use chroma_flow.Redisx.New.{Client}
use chroma_flow.Redisx.Resp.{RespError, Value, Read, got, write_command, read_resp}
use chroma_flow.Redisx.Resp

-- What happens on the network: a dial, a command that is written whole, one that fails, the reply
-- that is read or its failure, and the end of the connection.
pub data Event : Type 0 where
  dialed : Event
  dial_failed : Error → Event
  sent : List (List ℕ) → Event
  send_failed : List (List ℕ) → Error → Event
  replied : Value → Event
  reply_failed : RespError → Event
  reply_panicked : Event
  closed : Event

-- The environment: whether a dial or the write of some bytes fails, and the bytes that the
-- connection delivers to the next read, up to its end.
pub record Network : Type 0 where
  pub dial : List Event → Option Error
  pub write : List ℕ → List Event → Option Error
  pub deliver : List Event → List ℕ

pub data DoError : Type 0 where
  transport : Error → DoError
  protocol : RespError → DoError
  -- the call panics
  panicked : DoError

pub data Reply : Type 0 where
  value : Value → Reply
  fails : DoError → Reply

-- The client and the log.
pub record Wire : Type 0 where
  pub client : Client
  pub log : List Event

unfoldable pub note : Event → Wire → Wire
note e w = record w { log = e ∷ w.log }

-- `closeLocked`.
unfoldable pub close_locked : Wire → Wire
unfolding note
close_locked w =
    if w.client.connected
    then note closed (record w { client = record w.client { connected = false } })
    else w

abbrev pub auth_command : List ℕ → List (List ℕ)
auth_command password = (b'A' ∷ b'U' ∷ b'T' ∷ b'H' ∷ []) ∷ password ∷ []

abbrev pub select_command : ℕ → List (List ℕ)
select_command db = (b'S' ∷ b'E' ∷ b'L' ∷ b'E' ∷ b'C' ∷ b'T' ∷ []) ∷ itoa db ∷ []

module _ (net : Network) where
  -- `readRESP` on the bytes that are there; a failure closes the connection, and a panic does not.
  unfoldable pub after_read : Read Value → Wire → Reply × Wire
  unfolding note close_locked
  after_read (got v rest) w = (value v, note (replied v) w)
  after_read (Resp.failed e) w = (fails (protocol e), close_locked (note (reply_failed e) w))
  after_read Resp.panics w = (fails panicked, note reply_panicked w)

  unfoldable pub read_reply : Wire → Reply × Wire
  unfolding after_read
  read_reply w = let bs = net.deliver w.log in after_read (read_resp (suc (length bs)) bs) w

  -- After `writeCommand`; a failure closes the connection.
  unfoldable pub after_write : List (List ℕ) → Option Error → Wire → Reply × Wire
  unfolding read_reply note close_locked
  after_write args none w = read_reply (note (sent args) w)
  after_write args (some e) w = (fails (transport e), close_locked (note (send_failed args e) w))

  -- A command and its reply.
  unfoldable pub exchange : List (List ℕ) → Wire → Reply × Wire
  unfolding after_write
  exchange args w = after_write args (net.write (write_command args) w.log) w

  -- The handshake goes on where the reply is no error.
  unfoldable pub and_then : Reply × Wire → (Wire → Option DoError × Wire) → Option DoError × Wire
  and_then (value v, w) next = next w
  and_then (fails e, w) next = (some e, w)

  -- "AUTH" and the password, where there is one.
  unfoldable pub auth : List ℕ → Wire → Option DoError × Wire
  unfolding exchange and_then
  auth [] w = (none, w)
  auth (c ∷ cs) w = and_then (exchange (auth_command (c ∷ cs)) w) (λ w'. (none, w'))

  -- "SELECT" and the number of the database, where it is above 0.
  unfoldable pub select : ℤ → Wire → Option DoError × Wire
  unfolding exchange and_then
  select (pos (suc n)) w = and_then (exchange (select_command (suc n)) w) (λ w'. (none, w'))
  select (pos zero) w = (none, w)
  select (negsuc n) w = (none, w)

  unfoldable pub after_auth : Option DoError × Wire → Option DoError × Wire
  unfolding select
  after_auth (none, w) = select w.client.db w
  after_auth (some e, w) = (some e, w)

  after_dial : Option Error → Wire → Option DoError × Wire
  unfolding note auth after_auth
  after_dial (some e) w = (some (transport e), note (dial_failed e) w)
  after_dial none w =
      let w' = note dialed (record w { client = record w.client { connected = true } }) in
      after_auth (auth w'.client.password w')

  -- `ensureConn`.
  unfoldable pub ensure_conn : Wire → Option DoError × Wire
  unfolding after_dial
  ensure_conn w = if w.client.connected then (none, w) else after_dial (net.dial w.log) w

  after_ensure : List (List ℕ) → Option DoError × Wire → Reply × Wire
  unfolding exchange
  after_ensure args (none, w) = exchange args w
  after_ensure args (some e, w) = (fails e, w)

  -- `Do`.
  unfoldable pub do_command : List (List ℕ) → Wire → Reply × Wire
  unfolding ensure_conn after_ensure
  do_command args w = after_ensure args (ensure_conn w)

-- A call of the client: `Do`, or `Close`, of which the error of the connection is left out.
pub data Call : Type 0 where
  does : List (List ℕ) → Call
  closes : Call

unfoldable pub call : Network → Call → Wire → Wire
unfolding do_command close_locked
call net (does args) w = (do_command net args w).1
call net closes w = close_locked w

unfoldable pub run : Network → List Call → Wire → Wire
unfolding call
run net [] w = w
run net (c ∷ cs) w = run net cs (call net c w)
