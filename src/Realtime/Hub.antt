-- ===== src/Realtime/Hub.antt =====
-- internal/realtime/hub.go: the clients of the websocket hub and the messages that wait for them.
-- A client is a number, as its pointer. Its channel `send` holds 8 messages; a receiver that
-- waits takes a message as soon as it is in the channel, so a handed-over message is one that is
-- sent and then taken.
pub mod Laws
pub mod Stuck
pub mod Fifo
use chroma_flow.Base.{
  ℕ, ◌≡◌, ◌↔◌, Bool, true, false, Option, none, some, List, [], ◌∷◌, ◌++◌, length, ltb, eqb,
  if◌then◌else◌, map, arith,
}
use chroma_flow.Base.Dict
use chroma_flow.Base.Dict.{Dict, Eq}
use chroma_flow.Queue.Types.{JobSnapshot}

pub eqb_iff : (a b : ℕ) → (eqb a b ≡ true) ↔ (a ≡ b)
eqb_iff a b = ground arith

instance abbrev pub ℕ-eq : Eq ℕ
ℕ-eq = record { beq = eqb; beq_iff = eqb_iff }

-- `serving` says whether `ServeJobs` has sent the first message and receives from the channel;
-- `written` are the frames that were written to the connection, oldest first.
pub record Client : Type 0 where
  pub send : List (List ℕ)
  pub serving : Bool
  pub written : List (List ℕ)

pub record Hub : Type 0 where
  pub clients : Dict ℕ Client

unfoldable pub new_hub : Hub
new_hub = record { clients = [] }

-- `make(chan []byte, 8)`.
abbrev pub send_size : ℕ
send_size = 8

abbrev pub has_room : Client → Bool
has_room c = ltb (length c.send) send_size

-- The `select` of `BroadcastJobs`: a client whose channel is full misses the message.
unfoldable pub offer : List ℕ → Client → Client
offer message c = if has_room c then record c { send = c.send ++ message ∷ [] } else c

unfoldable pub offer_all : List ℕ → Dict ℕ Client → Dict ℕ Client
unfolding offer
offer_all message [] = []
offer_all message ((c, client) ∷ cs) = (c, offer message client) ∷ offer_all message cs

-- `BroadcastJobs`, of the message as `json.Marshal` returns it.
unfoldable pub broadcast_jobs : Option (List ℕ) → Hub → Hub
unfolding offer_all
broadcast_jobs none h = h
broadcast_jobs (some message) h = record h { clients = offer_all message h.clients }

unfoldable pub add : ℕ → Hub → Hub
add c h = record h {
  clients = Dict.put c (record { send = []; serving = false; written = [] }) h.clients;
}

unfoldable pub remove : ℕ → Hub → Hub
remove c h = record h { clients = Dict.del c h.clients }

-- `c.send <- initial`, where the snapshot was encoded: it waits while the channel is full.
unfoldable pub greeted : Option (List ℕ) → Client → Client
greeted none client = record client { serving = true }
greeted (some initial) client =
    if has_room client
    then record client { send = client.send ++ initial ∷ []; serving = true }
    else client

-- The `select` of `ServeJobs` takes a message, and writes it; a write that fails ends the call.
unfoldable pub taken : Bool → List (List ℕ) → Client → Option Client
taken wrote [] client = some client
taken false (message ∷ rest) client = none
taken true (message ∷ rest) client =
    some (record client { send = rest; written = client.written ++ message ∷ [] })

-- One step of a goroutine of the hub. A call that has not sent its first message yet neither
-- receives nor notices that its connection is closed.
pub data Step : Type 0 where
  joins : ℕ → Step
  broadcasts : Option (List ℕ) → Step
  greets : ℕ → Option (List ℕ) → Step
  takes : ℕ → Bool → Step
  leaves : ℕ → Step

stored : ℕ → Option Client → Hub → Hub
unfolding remove
stored c none h = remove c h
stored c (some client) h = record h { clients = Dict.put c client h.clients }

greet : ℕ → Option (List ℕ) → Option Client → Hub → Hub
unfolding greeted
greet c initial none h = h
greet c initial (some client) h =
    if client.serving
    then h
    else record h { clients = Dict.put c (greeted initial client) h.clients }

take : ℕ → Bool → Option Client → Hub → Hub
unfolding stored taken
take c wrote none h = h
take c wrote (some client) h =
    if client.serving then stored c (taken wrote client.send client) h else h

leave : ℕ → Option Client → Hub → Hub
unfolding remove
leave c none h = h
leave c (some client) h = if client.serving then remove c h else h

unfoldable pub step : Step → Hub → Hub
unfolding add broadcast_jobs greet take leave
step (joins c) h = add c h
step (broadcasts message) h = broadcast_jobs message h
step (greets c initial) h = greet c initial (Dict.get c h.clients) h
step (takes c wrote) h = take c wrote (Dict.get c h.clients) h
step (leaves c) h = leave c (Dict.get c h.clients) h

unfoldable pub run : List Step → Hub → Hub
unfolding step
run [] h = h
run (s ∷ ss) h = run ss (step s h)
