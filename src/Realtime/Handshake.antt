-- ===== src/Realtime/Handshake.antt =====
-- internal/realtime/hub.go: `accept` and `headerContains`. The hash of `websocketAcceptKey`, SHA-1
-- and then base64, is a parameter; `header` is `r.Header.Get`.
use Prim.Native.Char.{Char, code}
use Prim.Native.String.{String}
use mathlib.Core.List.{List, [], ◌∷◌}
use chroma_flow.Base.{
  ℕ, ◌+◌, ◌≡◌, ◌≢◌, ◌↔◌, Bool, true, false, not, ◌&&◌, cat, ◌==◌, eq_iff, if◌then◌else◌, eqb, leb,
  trim_space, Option, none, some, arith,
}
use chroma_flow.Queue.Types.{Error, text}

-- The folding that `strings.EqualFold` compares by, of characters that fold to ASCII: the Kelvin
-- sign folds to k and the long s to s.
abbrev folded : ℕ → ℕ
folded c =
    if leb 65 c && leb c 90
    then c + 32
    else if eqb c 0x212a
    then 107
    else if eqb c 0x17f
    then 115
    else c

-- `strings.EqualFold`, where one of the texts is ASCII.
unfoldable pub equal_fold : String → String → Bool
equal_fold String.[] String.[] = true
equal_fold String.[] (String.◌∷◌ d t) = false
equal_fold (String.◌∷◌ c s) String.[] = false
equal_fold (String.◌∷◌ c s) (String.◌∷◌ d t) =
    eqb (folded (code c)) (folded (code d)) && equal_fold s t

is_comma : Char → Bool
is_comma c = eqb (code c) 44

-- A character before the first part.
onto_first : Char → List String → List String
onto_first c [] = String.◌∷◌ c String.[] ∷ []
onto_first c (part ∷ parts) = String.◌∷◌ c part ∷ parts

-- `strings.Split(header, ",")`.
unfoldable pub split_commas : String → List String
unfolding is_comma onto_first
split_commas String.[] = String.[] ∷ []
split_commas (String.◌∷◌ c s) =
    let parts = split_commas s in if is_comma c then String.[] ∷ parts else onto_first c parts

unfoldable pub any_equal : List String → String → Bool
unfolding equal_fold
any_equal [] value = false
any_equal (part ∷ parts) value =
    let rest = any_equal parts value in if equal_fold (trim_space part) value then true else rest

-- `headerContains`.
unfoldable pub header_contains : String → String → Bool
unfolding split_commas any_equal
header_contains header value = any_equal (split_commas header) value

-- What the connection does: whether the writer can be hijacked, and the errors of `Hijack`, of
-- the write of the response and of its flush.
pub record Connection : Type 0 where
  pub can_hijack : Bool
  pub hijack_error : Option Error
  pub write_error : Option Error
  pub flush_error : Option Error

-- The result of `accept`, and whether it closed the connection.
pub data Accepted : Type 0 where
  upgraded : (response : String) → Accepted
  refused : Error → Accepted
  closed : Error → Accepted

module _ (websocket_accept_key : String → String) where
  abbrev pub response_of : String → String
  response_of key =
      cat
        "HTTP/1.1 101 Switching Protocols\r\nUpgrade: websocket\r\nConnection: Upgrade\r\nSec-WebSocket-Accept: "
        (cat (websocket_accept_key key) "\r\n\r\n")

  write_response : String → (write_error flush_error : Option Error) → Accepted
  write_response key (some e) flush_error = closed e
  write_response key none (some e) = closed e
  write_response key none none = upgraded (response_of key)

  hijacked : String → Option Error → Connection → Accepted
  unfolding write_response
  hijacked key (some e) conn = refused e
  hijacked key none conn = write_response key conn.write_error conn.flush_error

  -- `accept`.
  unfoldable pub accept : (String → String) → Connection → Accepted
  unfolding equal_fold header_contains hijacked
  accept header conn =
      if not (equal_fold (header "Upgrade") "websocket")
      then refused (text "missing websocket upgrade header")
      else if not (header_contains (header "Connection") "upgrade")
      then refused (text "missing websocket connection header")
      else let key = header "Sec-WebSocket-Key" in
        if key == ""
        then refused (text "missing websocket key")
        else if not conn.can_hijack
        then refused (text "websocket hijacking is not supported")
        else hijacked key conn.hijack_error conn

  -- What a request and its connection must be for the upgrade.
  pub record IsUpgradable (header : String → String) (conn : Connection) : Type 0 where
    pub upgrade : equal_fold (header "Upgrade") "websocket" ≡ true
    pub connection : header_contains (header "Connection") "upgrade" ≡ true
    pub key : header "Sec-WebSocket-Key" ≢ ""
    pub can_hijack : conn.can_hijack ≡ true
    pub hijacks : conn.hijack_error ≡ none
    pub writes : conn.write_error ≡ none
    pub flushes : conn.flush_error ≡ none

  -- `accept` sends the 101 response, with the key's hash, exactly where the request has the two
  -- headers and a key, and the connection can be hijacked, written to and flushed.
  pub accept-upgraded_iff :
      (header : String → String) (conn : Connection)
      → (accept header conn ≡ upgraded (response_of (header "Sec-WebSocket-Key")))
        ↔ IsUpgradable header conn
  unfolding accept hijacked write_response
  accept-upgraded_iff header conn = (
    λ h. record {
      upgrade = ground arith;
      connection = ground arith;
      key = ground (arith, eq_iff (header "Sec-WebSocket-Key") "");
      can_hijack = ground arith;
      hijacks = ground arith;
      writes = ground arith;
      flushes = ground arith;
    },
    λ h. ground (
      arith,
      h.upgrade,
      h.connection,
      h.key,
      eq_iff (header "Sec-WebSocket-Key") "",
      h.can_hijack,
      h.hijacks,
      h.writes,
      h.flushes,
    ),
  )

  -- The only response that `accept` sends is the one with the key's hash.
  pub accept-response :
      (header : String → String) (conn : Connection) {response : String}
      → accept header conn ≡ upgraded response
      → response ≡ response_of (header "Sec-WebSocket-Key")
  unfolding accept hijacked write_response
  accept-response header conn e = ground (arith, e)
