-- ===== src/Redisx/Client/Sync.antt =====
-- internal/redisx/client.go: what stands in the log while the client is connected.
use chroma_flow.Base.{
  ℕ, ◌≡◌, refl, Bool, true, false, Option, none, some, List, [], ◌∷◌, ◌++◌, if◌then◌else◌, ap, ◌∙◌,
  sym,
}
use mathlib.Core.Option
use mathlib.Core.Path.{subst}
use chroma_flow.Queue.Types.{Error}
use chroma_flow.Redisx.New.{Client}
use chroma_flow.Redisx.Client.{
  Event, dialed, sent, replied, closed, Network, DoError, Reply, value, fails, Wire, note,
  close_locked, exchange, auth, after_auth, after_dial, ensure_conn, after_ensure, do_command, Call,
  does, closes, call, run,
}
use chroma_flow.Redisx.Client.Handshake.{
  exchanges, handshake_of, HasHandshake, IsSynced, Exchanged, IsReadable, exchange-Exchanged,
  IsOpen, Advanced, auth-Advanced, after_auth-Advanced,
}

-- The last part of the log: where a `Do` returned a value, its command and that value.
abbrev pub Answered : List (List ℕ) → Reply × Wire → Type 0
Answered args (value v, w) =
    (w.client.connected ≡ true)
    × ((log : List Event) × (w.log ≡ replied v ∷ sent args ∷ log) × HasHandshake w.client log)
Answered args (fails e, w) = w.client.connected ≡ false

HasHandshake-open :
    (c : Client) (later : List (List (List ℕ))) (w : Wire)
    → IsOpen c (later ++ handshake_of c) w
    → HasHandshake w.client w.log
HasHandshake-open c later w h =
    (later, h.commands_of ∙ ap (λ (k : Client). some (later ++ handshake_of k)) (sym h.client))

Answered-exchange :
    (c : Client) (later : List (List (List ℕ))) (args : List (List ℕ)) (w : Wire) (r : Reply × Wire)
    → IsOpen c (later ++ handshake_of c) w
    → Exchanged args w r
    → Answered args r
Answered-exchange c later args w (value v, w') h e =
    rw e (ap (λ (k : Client). k.connected) h.client, (w.log, refl, HasHandshake-open c later w h))
Answered-exchange c later args w (fails e, w') h d = ap (λ (k : Client). k.connected) d

-- A client that is ready for a command, on a connection that has its handshake; or that is not.
abbrev Ready : Option DoError × Wire → Type 0
Ready (none, w) = (w.client.connected ≡ true) × HasHandshake w.client w.log
Ready (some e, w) = w.client.connected ≡ false

Ready-Advanced : (c : Client) (r : Option DoError × Wire) → Advanced c (handshake_of c) r → Ready r
Ready-Advanced c (none, w) h =
    (ap (λ (k : Client). k.connected) h.client, HasHandshake-open c [] w h)
Ready-Advanced c (some e, w) h = ap (λ (k : Client). k.connected) h

after_dial-Ready :
    (net : Network) (readable : IsReadable net) (e : Option Error) (w : Wire)
    → w.client.connected ≡ false
    → Ready (after_dial net e w)
unfolding after_dial note
after_dial-Ready net readable (some e) w down = down
after_dial-Ready net readable none w down =
    let c = w.client in
    let w' : Wire = record { client = record c { connected = true }; log = dialed ∷ w.log } in
    let open_now : IsOpen c [] w' = record { client = refl; commands_of = refl } in
    Ready-Advanced c (after_auth net (auth net c.password w')) (
      after_auth-Advanced net readable c (auth net c.password w')
        (auth-Advanced net readable c c.password w' open_now))

synced_open : (w : Wire) → w.client.connected ≡ true → IsSynced w → HasHandshake w.client w.log
synced_open w e h = subst (λ (b : Bool). if b then HasHandshake w.client w.log else Unit {0}) e h

up_client : (w : Wire) → w.client.connected ≡ true → w.client ≡ record w.client { connected = true }
up_client w e = ap (λ (b : Bool). record w.client { connected = b }) e

ensure_conn-Ready :
    (net : Network) (readable : IsReadable net) (w : Wire) → IsSynced w → Ready (ensure_conn net w)
unfolding ensure_conn
ensure_conn-Ready net readable w h = go w.client.connected refl
  where
    go :
        (b : Bool)
        → w.client.connected ≡ b
        → Ready (if b then (none, w) else after_dial net (net.dial w.log) w)
    go true e = (e, synced_open w e h)
    go false e = after_dial-Ready net readable (net.dial w.log) w e

after_ensure-Answered :
    (net : Network) (readable : IsReadable net) (args : List (List ℕ)) (r : Option DoError × Wire)
    → Ready r
    → Answered args (after_ensure net args r)
unfolding after_ensure
after_ensure-Answered net readable args (none, w) (up, (later, e)) =
    Answered-exchange w.client later args w (exchange net args w)
      (record { client = up_client w up; commands_of = e })
      (exchange-Exchanged net args w readable up)
after_ensure-Answered net readable args (some e, w) down = down

do_command-Answered :
    (net : Network) (readable : IsReadable net) (args : List (List ℕ)) (w : Wire)
    → IsSynced w
    → Answered args (do_command net args w)
unfolding do_command
do_command-Answered net readable args w h =
    after_ensure-Answered net readable args (ensure_conn net w) (ensure_conn-Ready net readable w h)

IsSynced-Answered : (args : List (List ℕ)) (r : Reply × Wire) → Answered args r → IsSynced r.1
IsSynced-Answered args (value v, w) (up, (log, e, (later, x))) =
    rw up (args ∷ later, ap exchanges e ∙ ap (Option.map (λ cs. args ∷ cs)) x)
IsSynced-Answered args (fails e, w) down = rw down tt

call-IsSynced :
    (net : Network) (readable : IsReadable net) (c : Call) (w : Wire)
    → IsSynced w
    → IsSynced (call net c w)
unfolding call
call-IsSynced net readable (does args) w h =
    IsSynced-Answered args (do_command net args w) (do_command-Answered net readable args w h)
call-IsSynced net readable closes w h = unfold close_locked note in go w.client.connected refl
  where
    go :
        (b : Bool)
        → w.client.connected ≡ b
        → IsSynced (
            if b
            then note closed (record w { client = record w.client { connected = false } })
            else w)
    go true e = tt
    go false e = h

run-IsSynced :
    (net : Network) (readable : IsReadable net) (calls : List Call) (w : Wire)
    → IsSynced w
    → IsSynced (run net calls w)
unfolding run
run-IsSynced net readable [] w h = h
run-IsSynced net readable (c ∷ cs) w h =
    run-IsSynced net readable cs (call net c w) (call-IsSynced net readable c w h)

-- Over a network that never delivers a reply at whose length `make` panics, and whatever else it
-- does, after any calls of a client that began with no connection: `Do`
-- returns a value only as the reply that was read right after its command was written, on a
-- connection on which the password and the database, where there are any, were sent first, and on
-- which every command before had its own reply; and where `Do` returns an error, the client has no
-- connection any more.
pub run-do_command-Answered :
    (net : Network) (readable : IsReadable net) (calls : List Call) (args : List (List ℕ))
    (w : Wire)
    → w.client.connected ≡ false
    → Answered args (do_command net args (run net calls w))
run-do_command-Answered net readable calls args w down =
    do_command-Answered net readable args (run net calls w)
      (run-IsSynced net readable calls w (rw down tt))
