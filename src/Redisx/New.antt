-- ===== src/Redisx/New.antt =====
-- internal/redisx/client.go: `New`. A Go string is its bytes here, and `url.Parse` is a parameter.
use chroma_flow.Base.{
  ℕ, Bool, true, false, Option, none, some, List, [], ◌∷◌, ◌++◌, ◌||◌, ◌&&◌, not, eqb,
  if◌then◌else◌, ℤ, pos,
}
use chroma_flow.Redisx.Decimal.{atoi, fine, out_of_range, malformed}

-- The parts of a `url.URL` that `New` reads; `user` is the user name and the password, which is
-- empty where none is set.
pub record RedisUrl : Type 0 where
  pub scheme : List ℕ
  pub host : List ℕ
  pub user : Option (List ℕ × List ℕ)
  pub path : List ℕ

pub record Client : Type 0 where
  pub addr : List ℕ
  pub password : List ℕ
  pub db : ℤ
  pub use_tls : Bool
  -- whether `conn` is not nil
  pub connected : Bool

pub data NewError : Type 0 where
  bad_url : NewError
  unsupported_scheme : List ℕ → NewError

pub data NewResult : Type 0 where
  made : Client → NewResult
  refused : NewError → NewResult

unfoldable pub same_bytes : List ℕ → List ℕ → Bool
same_bytes [] [] = true
same_bytes [] (d ∷ ds) = false
same_bytes (c ∷ cs) [] = false
same_bytes (c ∷ cs) (d ∷ ds) = eqb c d && same_bytes cs ds

-- `strings.Contains(addr, ":")`.
has_colon : List ℕ → Bool
has_colon [] = false
has_colon (c ∷ cs) = eqb c b':' || has_colon cs

-- `strings.Trim(path, "/")`.
trim_left : List ℕ → List ℕ
trim_left [] = []
trim_left (c ∷ cs) = if eqb c b'/' then trim_left cs else c ∷ cs

before : ℕ → List ℕ → List ℕ
before c [] = if eqb c b'/' then [] else c ∷ []
before c (d ∷ ds) = c ∷ d ∷ ds

trim_right : List ℕ → List ℕ
unfolding before
trim_right [] = []
trim_right (c ∷ cs) = before c (trim_right cs)

-- `db, _ = strconv.Atoi(path)`.
atoi_or_zero : List ℕ → ℤ
atoi_or_zero path = elim (atoi path) [ fine n ↦ n | out_of_range n ↦ n | malformed ↦ pos 0 ]

db_of : List ℕ → ℤ
unfolding atoi_or_zero
db_of [] = pos 0
db_of (c ∷ cs) = atoi_or_zero (c ∷ cs)

-- The password, or the user name where it is empty.
password_of : Option (List ℕ × List ℕ) → List ℕ
password_of none = []
password_of (some (name, [])) = name
password_of (some (name, c ∷ cs)) = c ∷ cs

-- "redis", "rediss", ":6379" and "redis://localhost:6379/0".
abbrev redis_scheme : List ℕ
redis_scheme = b'r' ∷ b'e' ∷ b'd' ∷ b'i' ∷ b's' ∷ []

abbrev rediss_scheme : List ℕ
rediss_scheme = redis_scheme ++ b's' ∷ []

abbrev default_port : List ℕ
default_port = b':' ∷ b'6' ∷ b'3' ∷ b'7' ∷ b'9' ∷ []

abbrev default_url : List ℕ
default_url =
    redis_scheme
    ++ (b':' ∷ b'/' ∷ b'/' ∷ b'l' ∷ b'o' ∷ b'c' ∷ b'a' ∷ b'l' ∷ b'h' ∷ b'o' ∷ b's' ∷ b't' ∷ [])
    ++ default_port
    ++ (b'/' ∷ b'0' ∷ [])

client_of_url : RedisUrl → NewResult
unfolding same_bytes has_colon password_of db_of trim_left trim_right
client_of_url u =
    if not (same_bytes u.scheme redis_scheme) && not (same_bytes u.scheme rediss_scheme)
    then refused (unsupported_scheme u.scheme)
    else made (record {
      addr = if has_colon u.host then u.host else u.host ++ default_port;
      password = password_of u.user;
      db = db_of (trim_right (trim_left u.path));
      use_tls = same_bytes u.scheme rediss_scheme;
      connected = false;
    })

url_or_default : List ℕ → List ℕ
url_or_default [] = default_url
url_or_default (c ∷ cs) = c ∷ cs

-- `New`.
unfoldable pub new_client : (parse : List ℕ → Option RedisUrl) → List ℕ → NewResult
unfolding url_or_default client_of_url
new_client parse raw_url = elim (parse (url_or_default raw_url)) [
  | none ↦ refused bad_url
  | some u ↦ client_of_url u
]
