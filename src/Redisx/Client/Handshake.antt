-- ===== src/Redisx/Client/Handshake.antt =====
-- internal/redisx/client.go: the commands of a connection, and its handshake.
use chroma_flow.Base.{
  ℕ, zero, suc, ◌≡◌, ◌≢◌, refl, true, false, Option, none, some, List, [], ◌∷◌, ◌++◌, if◌then◌else◌,
  ℤ, pos, negsuc, length, ap, ◌∙◌,
}
use mathlib.Core.Option
use mathlib.Core.Path.{subst}
use chroma_flow.Redisx.Resp.{Value, Read, got}
use chroma_flow.Queue.Types.{Error}
use chroma_flow.Redisx.Resp
use chroma_flow.Redisx.New.{Client}
use chroma_flow.Redisx.Client.{
  Event, dialed, sent, send_failed, replied, reply_failed, Network, DoError, Reply, value, fails,
  Wire, note, close_locked, auth_command, select_command, after_read, read_reply, after_write,
  exchange, and_then, auth, select, after_auth,
}

-- The commands of the last dial's connection, the latest first, where the log since that dial holds
-- nothing but commands, each with its reply right after it.
abbrev pub exchanges : List Event → Option (List (List (List ℕ)))
exchanges (dialed ∷ log) = some []
exchanges (replied v ∷ sent args ∷ log) = Option.map (λ cs. args ∷ cs) (exchanges log)
exchanges _ = none

-- The handshake of a connection, the latest command first.
abbrev pub auth_part : List ℕ → List (List (List ℕ))
auth_part [] = []
auth_part (c ∷ cs) = auth_command (c ∷ cs) ∷ []

abbrev pub select_part : ℤ → List (List (List ℕ))
select_part (pos (suc n)) = select_command (suc n) ∷ []
select_part (pos zero) = []
select_part (negsuc n) = []

abbrev pub handshake_of : Client → List (List (List ℕ))
handshake_of c = select_part c.db ++ auth_part c.password

-- The connection's commands are its handshake, and then others.
abbrev pub HasHandshake : Client → List Event → Type 0
HasHandshake c log =
    (later : List (List (List ℕ))) × (exchanges log ≡ some (later ++ handshake_of c))

abbrev pub IsSynced : Wire → Type 0
IsSynced w = if w.client.connected then HasHandshake w.client w.log else Unit {0}

-- What an exchange does to a client that is connected.
abbrev pub Exchanged : List (List ℕ) → Wire → Reply × Wire → Type 0
Exchanged args w (value v, w') = w' ≡ record w { log = replied v ∷ sent args ∷ w.log }
Exchanged args w (fails e, w') = w'.client ≡ record w.client { connected = false }

closed_client :
    (w : Wire)
    → w.client.connected ≡ true
    → (close_locked w).client ≡ record w.client { connected = false }
unfolding close_locked note
closed_client w h = rw h refl

-- The network never delivers a reply at whose length `make` panics.
abbrev pub IsReadable : Network → Type 0
IsReadable net =
    (log : List Event)
    → let bs = net.deliver log in Resp.read_resp (suc (length bs)) bs ≢ Resp.panics

after_read-Exchanged :
    (net : Network) (args : List (List ℕ)) (w : Wire) (r : Read Value)
    → r ≢ Resp.panics
    → w.client.connected ≡ true
    → Exchanged args w (after_read net r (note (sent args) w))
unfolding after_read note
after_read-Exchanged net args w (got v rest) ne h = refl
after_read-Exchanged net args w Resp.panics ne h = absurd (ne refl)
after_read-Exchanged net args w (Resp.failed e) ne h =
    closed_client (note (reply_failed e) (note (sent args) w)) h

after_write-Exchanged :
    (net : Network) (args : List (List ℕ)) (w : Wire) (e : Option Error)
    → IsReadable net
    → w.client.connected ≡ true
    → Exchanged args w (after_write net args e w)
unfolding after_write read_reply note
after_write-Exchanged net args w none readable h =
    let bs = net.deliver (sent args ∷ w.log) in
    after_read-Exchanged net args w (Resp.read_resp (suc (length bs)) bs)
      (readable (sent args ∷ w.log)) h
after_write-Exchanged net args w (some e) readable h = closed_client (note (send_failed args e) w) h

pub exchange-Exchanged :
    (net : Network) (args : List (List ℕ)) (w : Wire)
    → IsReadable net
    → w.client.connected ≡ true
    → Exchanged args w (exchange net args w)
unfolding exchange
exchange-Exchanged net args w readable h =
    after_write-Exchanged net args w (net.write (Resp.write_command args) w.log) readable h

-- A connection whose commands, since its dial, are these.
pub record IsOpen (c : Client) (commands : List (List (List ℕ))) (w : Wire) : Type 0 where
  pub client : w.client ≡ record c { connected = true }
  pub commands_of : exchanges w.log ≡ some commands

abbrev pub IsDown : Client → Wire → Type 0
IsDown c w = w.client ≡ record c { connected = false }

-- A step of the handshake, which adds these commands.
abbrev pub Advanced : Client → List (List (List ℕ)) → Option DoError × Wire → Type 0
Advanced c commands (none, w) = IsOpen c commands w
Advanced c commands (some e, w) = IsDown c w

IsOpen-Exchanged :
    (c : Client) (commands : List (List (List ℕ))) (args : List (List ℕ)) (w w' : Wire) (v : Value)
    → IsOpen c commands w
    → w' ≡ record w { log = replied v ∷ sent args ∷ w.log }
    → IsOpen c (args ∷ commands) w'
IsOpen-Exchanged c commands args w w' v h e =
    rw e (record { client = h.client; commands_of = rw h.commands_of })

IsDown-Exchanged :
    (c : Client) (commands : List (List (List ℕ))) (w w' : Wire)
    → IsOpen c commands w
    → w'.client ≡ record w.client { connected = false }
    → IsDown c w'
IsDown-Exchanged c commands w w' h e =
    e ∙ ap (λ (k : Client). record k { connected = false }) h.client

and_then-Advanced :
    (c : Client) (commands : List (List (List ℕ))) (args : List (List ℕ)) (w : Wire) (net : Network)
    (r : Reply × Wire)
    → IsOpen c commands w
    → Exchanged args w r
    → Advanced c (args ∷ commands) (and_then net r (λ w'. (none, w')))
unfolding and_then
and_then-Advanced c commands args w net (value v, w') h e =
    IsOpen-Exchanged c commands args w w' v h e
and_then-Advanced c commands args w net (fails e, w') h d = IsDown-Exchanged c commands w w' h d

module _ (net : Network) (readable : IsReadable net) (c : Client) where
  pub auth-Advanced :
      (password : List ℕ) (w : Wire)
      → IsOpen c [] w
      → Advanced c (auth_part password) (auth net password w)
  unfolding auth
  auth-Advanced [] w h = h
  auth-Advanced (b ∷ bs) w h =
      let args = auth_command (b ∷ bs) in
      and_then-Advanced c [] args w net (exchange net args w) h
        (exchange-Exchanged net args w readable (ap (λ (k : Client). k.connected) h.client))

  select-Advanced :
      (db : ℤ) (commands : List (List (List ℕ))) (w : Wire)
      → IsOpen c commands w
      → Advanced c (select_part db ++ commands) (select net db w)
  unfolding select
  select-Advanced (pos (suc n)) commands w h =
      let args = select_command (suc n) in
      and_then-Advanced c commands args w net (exchange net args w) h
        (exchange-Exchanged net args w readable (ap (λ (k : Client). k.connected) h.client))
  select-Advanced (pos zero) commands w h = h
  select-Advanced (negsuc n) commands w h = h

  pub after_auth-Advanced :
      (r : Option DoError × Wire)
      → Advanced c (auth_part c.password) r
      → Advanced c (handshake_of c) (after_auth net r)
  unfolding after_auth
  after_auth-Advanced (none, w) h =
      let same : w.client.db ≡ c.db = ap (λ (k : Client). k.db) h.client in
      subst
        (λ (db : ℤ). Advanced c (select_part db ++ auth_part c.password) (select net w.client.db w))
        same (select-Advanced w.client.db (auth_part c.password) w h)
  after_auth-Advanced (some e, w) h = h
