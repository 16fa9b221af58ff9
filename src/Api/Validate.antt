-- ===== src/Api/Validate.antt =====
-- internal/api/handler.go: `validateURL`, over the parser `url.ParseRequestURI` of net/url.
use chroma_flow.Base.{
  String, ◌≡◌, refl, ◌≢◌, ◌⊎◌, ◌↔◌, not, Option, none, some, ◌&&◌, ◌==◌, eq_iff, if◌then◌else◌,
  arith,
}

-- The parts of `url.URL` that the code reads.
pub record Url : Type 0 where
  pub scheme : String
  pub host : String

validate_parsed : Option Url → Option String
validate_parsed none = some "URL must be absolute and valid"
validate_parsed (some parsed) =
    if parsed.host == ""
    then some "URL must include a host"
    else if not (parsed.scheme == "http") && not (parsed.scheme == "https")
    then some "URL scheme must be http or https"
    else none

module _ (parse_request_uri : String → Option Url) where
  -- The text of the error, or `none` for a nil error.
  unfoldable pub validate_url : String → Option String
  unfolding validate_parsed
  validate_url raw_url =
      if raw_url == "" then some "URL is required" else validate_parsed (parse_request_uri raw_url)

  -- What the API accepts as a URL.
  pub record IsWebUrl (raw_url : String) : Type 0 where
    pub url : Url
    pub parsed : parse_request_uri raw_url ≡ some url
    pub has_host : url.host ≢ ""
    pub web : (url.scheme ≡ "http") ⊎ (url.scheme ≡ "https")

  validate_parsed-none :
      (raw_url : String) (p : Option Url)
      → parse_request_uri raw_url ≡ p
      → validate_parsed p ≡ none
      → IsWebUrl raw_url
  unfolding validate_parsed
  validate_parsed-none raw_url none e h = absurd (cc)
  validate_parsed-none raw_url (some u) e h = record {
    url = u;
    parsed = e;
    has_host = ground (arith, eq_iff u.host "");
    web = ground (arith, eq_iff u.scheme "http", eq_iff u.scheme "https");
  }

  -- `validateURL` accepts exactly the texts that are not empty and parse to a URL with a host and
  -- the scheme http or https.
  pub validate_url_iff :
      (raw_url : String) → (validate_url raw_url ≡ none) ↔ ((raw_url ≢ "") × IsWebUrl raw_url)
  unfolding validate_url
  validate_url_iff raw_url = (
    λ h. (
      ground (arith, eq_iff raw_url ""),
      validate_parsed-none raw_url (parse_request_uri raw_url) refl (ground arith),
    ),
    λ h.
        let w = h.1 in
        ground (
          arith,
          eq_iff raw_url "",
          w.parsed,
          eq_iff w.url.host "",
          eq_iff w.url.scheme "http",
          eq_iff w.url.scheme "https",
        ),
  )
