-- ===== src/Realtime/Hub/Fifo.antt =====
-- internal/realtime/hub.go: the order in which a client's messages are written.
use chroma_flow.Base.{
  ℕ, ◌≡◌, ◌≢◌, refl, Bool, true, false, none, some, List, [], ◌∷◌, ◌++◌, eqb, if◌then◌else◌, arith,
  All, ap, ◌∙◌, sym,
}
use mathlib.Core.List.{append_assoc, append-nil}
use chroma_flow.Realtime.Hub.{
  Client, Hub, has_room, offer, greeted, taken, Step, joins, broadcasts, greets, takes, leaves,
  step, run,
}
use chroma_flow.Realtime.Hub.Laws.{client_of, Seen, after, client_of-step}

-- The messages that were put into a client's channel: those written, and those that wait.
abbrev pub messages_of : Client → List (List ℕ)
messages_of client = client.written ++ client.send

abbrev pub if_room : List ℕ → Client → List (List ℕ)
if_room message client = if has_room client then message ∷ [] else []

-- The message, if any, that a step puts into the channel of the client under a number.
abbrev pub admitted : ℕ → Step → Client → List (List ℕ)
admitted c (broadcasts (some message)) client = if_room message client
admitted c (greets d (some initial)) client =
    if eqb d c then (if client.serving then [] else if_room initial client) else []
admitted c _ client = []

-- The messages of a client that is still there are the old ones and then these.
abbrev pub HasGrown : Client → List (List ℕ) → Seen → Type 0
HasGrown client new none = Unit
HasGrown client new (some client') = messages_of client' ≡ messages_of client ++ new

-- Steps other than a new client under the number.
abbrev pub IsOld : ℕ → Step → Type 0
IsOld c (joins d) = c ≢ d
IsOld c _ = Unit

taken-HasGrown :
    (wrote : Bool) (send : List (List ℕ)) (client : Client)
    → client.send ≡ send
    → HasGrown client [] (taken wrote send client)
unfolding taken
taken-HasGrown wrote [] client e = sym (append-nil (messages_of client))
taken-HasGrown false (m ∷ rest) client e = tt
taken-HasGrown true (m ∷ rest) client e =
    append_assoc client.written (m ∷ []) rest
    ∙ sym (ap (λ send. client.written ++ send) e)
    ∙ sym (append-nil (messages_of client))

HasGrown-if :
    (own serves : Bool) (client : Client) (o : Seen)
    → HasGrown client [] o
    → HasGrown client [] (if own then (if serves then o else some client) else some client)
HasGrown-if true true client o h = h
HasGrown-if true false client o h = sym (append-nil (messages_of client))
HasGrown-if false serves client o h = sym (append-nil (messages_of client))

after-HasGrown :
    (c : ℕ) (s : Step) (client : Client)
    → IsOld c s
    → HasGrown client (admitted c s client) (after c s (some client))
unfolding offer greeted taken
after-HasGrown c (joins d) client old = ground (arith, append-nil (messages_of client))
after-HasGrown c (broadcasts none) client old = sym (append-nil (messages_of client))
after-HasGrown c (broadcasts (some m)) client old =
    ground
      (arith, append-nil (messages_of client), append_assoc client.written client.send (m ∷ []))
after-HasGrown c (greets d none) client old = ground (arith, append-nil (messages_of client))
after-HasGrown c (greets d (some m)) client old =
    ground
      (arith, append-nil (messages_of client), append_assoc client.written client.send (m ∷ []))
after-HasGrown c (leaves d) client old = ground (arith, append-nil (messages_of client))
after-HasGrown c (takes d wrote) client old =
    HasGrown-if (eqb d c) client.serving client (taken wrote client.send client)
      (taken-HasGrown wrote client.send client refl)

-- What a sequence of steps puts into the channel of the client, as long as it is there.
abbrev pub admitted_all : ℕ → List Step → Seen → List (List ℕ)
admitted_all c [] o = []
admitted_all c (s ∷ ss) none = []
admitted_all c (s ∷ ss) (some client) =
    admitted c s client ++ admitted_all c ss (after c s (some client))

after-none : (c : ℕ) (s : Step) → IsOld c s → after c s none ≡ none
after-none c (joins d) old = ground arith
after-none c (broadcasts none) old = refl
after-none c (broadcasts (some m)) old = refl
after-none c (greets d initial) old = ground arith
after-none c (takes d wrote) old = ground arith
after-none c (leaves d) old = ground arith

-- The steps of one client.
abbrev after_all : ℕ → List Step → Seen → Seen
after_all c [] o = o
after_all c (s ∷ ss) o = after_all c ss (after c s o)

client_of-run :
    (c : ℕ) (ss : List Step) (h : Hub) → client_of c (run ss h) ≡ after_all c ss (client_of c h)
unfolding run
client_of-run c [] h = refl
client_of-run c (s ∷ ss) h =
    client_of-run c ss (step s h) ∙ ap (after_all c ss) (client_of-step c s h)

after_all-none : (c : ℕ) (ss : List Step) → All (IsOld c) ss → after_all c ss none ≡ none
after_all-none c [] old = refl
after_all-none c (s ∷ ss) (here, later) =
    ap (after_all c ss) (after-none c s here) ∙ after_all-none c ss later

HasGrown-trans :
    (client : Client) (first rest : List (List ℕ)) (middle : Client) (o : Seen)
    → messages_of middle ≡ messages_of client ++ first
    → HasGrown middle rest o
    → HasGrown client (first ++ rest) o
HasGrown-trans client first rest middle none e h = tt
HasGrown-trans client first rest middle (some last) e h =
    h ∙ ap (λ ms. ms ++ rest) e ∙ append_assoc (messages_of client) first rest

after_all-HasGrown :
    (c : ℕ) (ss : List Step) (client : Client)
    → All (IsOld c) ss
    → HasGrown client (admitted_all c ss (some client)) (after_all c ss (some client))
after_all-HasGrown c [] client old = sym (append-nil (messages_of client))
after_all-HasGrown c (s ∷ ss) client (here, later) =
    go_on (after c s (some client)) (after-HasGrown c s client here)
      (λ next. after_all-HasGrown c ss next later)
  where
    go_on :
        (o : Seen)
        → HasGrown client (admitted c s client) o
        → ((next : Client)
            → HasGrown next (admitted_all c ss (some next)) (after_all c ss (some next)))
        → HasGrown client (admitted c s client ++ admitted_all c ss o) (after_all c ss o)
    go_on none grown rest = rw (after_all-none c ss later) tt
    go_on (some next) grown rest =
        HasGrown-trans client (admitted c s client) (admitted_all c ss (some next)) next
          (after_all c ss (some next)) grown (rest next)

-- As long as a client is registered, whatever is broadcast and whatever the clients do: what was
-- written to it, followed by what waits in its channel, grows by exactly the messages for which
-- its channel had room, in their order; so no message is written twice or out of order, and only
-- those that found the channel full are missed.
pub hub_is_fifo :
    (c : ℕ) (ss : List Step) (h : Hub) {client : Client}
    → All (IsOld c) ss
    → client_of c h ≡ some client
    → HasGrown client (admitted_all c ss (some client)) (client_of c (run ss h))
hub_is_fifo c ss h {client} old e =
    rw (client_of-run c ss h) (rw e (after_all-HasGrown c ss client old))
