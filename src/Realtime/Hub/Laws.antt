-- ===== src/Realtime/Hub/Laws.antt =====
-- internal/realtime/hub.go: what becomes of each client of the hub.
use chroma_flow.Base.{
  ℕ, ◌≤◌, ◌≡◌, refl, Bool, false, Option, none, some, List, [], ◌∷◌, length, length-append, eqb,
  if◌then◌else◌, arith,
}
use mathlib.Core.Option
use chroma_flow.Base.Dict
use chroma_flow.Base.Dict.{Dict, get-put, get-del}
use chroma_flow.Realtime.Hub.{
  ℕ-eq, Client, Hub, new_hub, send_size, offer, offer_all, broadcast_jobs, add, remove, greeted,
  taken, Step, joins, broadcasts, greets, takes, leaves, stored, greet, take, leave, step, run,
}

abbrev pub client_of : ℕ → Hub → Option Client
client_of c h = Dict.get c h.clients

get-offer_all :
    (message : List ℕ) (c : ℕ) (cs : Dict ℕ Client)
    → Dict.get c (offer_all message cs) ≡ Option.map (offer message) (Dict.get c cs)
unfolding offer_all Dict.get
get-offer_all message c [] = refl
get-offer_all message c ((d, client) ∷ cs) = ground (arith, get-offer_all message c cs)

-- A client that has just been added.
abbrev pub fresh_client : Client
fresh_client = record { send = []; serving = false; written = [] }

-- What a step makes of the client under a number.
abbrev pub Seen : Type 0
Seen = Option Client

abbrev pub greeted_if_waiting : Option (List ℕ) → Client → Client
greeted_if_waiting initial client = if client.serving then client else greeted initial client

abbrev pub taken_by : Bool → Seen → Seen
taken_by wrote none = none
taken_by wrote (some client) =
    if client.serving then taken wrote client.send client else some client

abbrev pub left_by : Seen → Seen
left_by none = none
left_by (some client) = if client.serving then none else some client

abbrev pub after : ℕ → Step → Seen → Seen
after c (joins d) o = if eqb d c then some fresh_client else o
after c (broadcasts none) o = o
after c (broadcasts (some message)) o = Option.map (offer message) o
after c (greets d initial) o = if eqb d c then Option.map (greeted_if_waiting initial) o else o
after c (takes d wrote) o = if eqb d c then taken_by wrote o else o
after c (leaves d) o = if eqb d c then left_by o else o

stored-after :
    (c d : ℕ) (o : Seen) (h : Hub)
    → client_of c (stored d o h) ≡ (if eqb d c then o else client_of c h)
unfolding stored remove
stored-after c d none h = get-del d c h.clients
stored-after c d (some client) h = get-put d c client h.clients

greet-after :
    (c d : ℕ) (initial : Option (List ℕ)) (o : Seen) (h : Hub)
    → client_of d h ≡ o
    → client_of c (greet d initial o h)
      ≡ (if eqb d c then Option.map (greeted_if_waiting initial) (client_of c h) else client_of c h)
unfolding greet
greet-after c d initial none h e = ground arith
greet-after c d initial (some client) h e =
    ground (arith, get-put d c (greeted initial client) h.clients)

take-after :
    (c d : ℕ) (wrote : Bool) (o : Seen) (h : Hub)
    → client_of d h ≡ o
    → client_of c (take d wrote o h)
      ≡ (if eqb d c then taken_by wrote (client_of c h) else client_of c h)
unfolding take
take-after c d wrote none h e = ground arith
take-after c d wrote (some client) h e =
    ground (arith, stored-after c d (taken wrote client.send client) h)

leave-after :
    (c d : ℕ) (o : Seen) (h : Hub)
    → client_of d h ≡ o
    → client_of c (leave d o h) ≡ (if eqb d c then left_by (client_of c h) else client_of c h)
unfolding leave remove
leave-after c d none h e = ground arith
leave-after c d (some client) h e = ground (arith, get-del d c h.clients)

-- A step changes the client under a number as that client's own steps say, whatever the others.
pub client_of-step :
    (c : ℕ) (s : Step) (h : Hub) → client_of c (step s h) ≡ after c s (client_of c h)
unfolding step
client_of-step c (joins d) h = unfold add in get-put d c fresh_client h.clients
client_of-step c (broadcasts none) h = unfold broadcast_jobs in refl
client_of-step c (broadcasts (some message)) h =
    unfold broadcast_jobs in get-offer_all message c h.clients
client_of-step c (greets d initial) h = greet-after c d initial (client_of d h) h refl
client_of-step c (takes d wrote) h = take-after c d wrote (client_of d h) h refl
client_of-step c (leaves d) h = leave-after c d (client_of d h) h refl

-- A channel never holds more than it has room for.
abbrev pub HasBounded : Seen → Type 0
HasBounded none = Unit
HasBounded (some client) = length client.send ≤ send_size

after-HasBounded : (c : ℕ) (s : Step) (o : Seen) → HasBounded o → HasBounded (after c s o)
unfolding offer greeted taken
after-HasBounded c (joins d) o h = ground arith
after-HasBounded c (broadcasts none) o h = h
after-HasBounded c (broadcasts (some m)) none h = tt
after-HasBounded c (broadcasts (some m)) (some client) h =
    ground (arith, length-append client.send (m ∷ []))
after-HasBounded c (greets d none) none h = ground arith
after-HasBounded c (greets d none) (some client) h = ground arith
after-HasBounded c (greets d (some m)) none h = ground arith
after-HasBounded c (greets d (some m)) (some client) h =
    ground (arith, length-append client.send (m ∷ []))
after-HasBounded c (takes d wrote) none h = ground arith
after-HasBounded c (takes d wrote) (some client) h = ground arith
after-HasBounded c (leaves d) none h = ground arith
after-HasBounded c (leaves d) (some client) h = ground arith

run-HasBounded :
    (c : ℕ) (ss : List Step) (h : Hub)
    → HasBounded (client_of c h)
    → HasBounded (client_of c (run ss h))
unfolding run
run-HasBounded c [] h b = b
run-HasBounded c (s ∷ ss) h b =
    run-HasBounded c ss (step s h)
      (rw (client_of-step c s h) (after-HasBounded c s (client_of c h) b))

-- Whatever broadcasts and clients do to a new hub, and in whatever order, no client's channel
-- ever holds more than 8 messages.
pub hub_stays_bounded : (c : ℕ) (ss : List Step) → HasBounded (client_of c (run ss new_hub))
hub_stays_bounded c ss = run-HasBounded c ss new_hub (unfold new_hub Dict.get in tt)
