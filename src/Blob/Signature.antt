-- ===== src/Blob/Signature.antt =====
-- internal/blob/s3.go: the requests of the S3 store and their signature. The HTTP client is a
-- parameter, a function on the states of the server, and so are `url.Parse` of the URL of a request,
-- `url.PathEscape`, the hash functions and the formats of the date. A reply's body is what
-- `io.ReadAll` reads of it, with its error; `text_of` makes a string of bytes.
use chroma_flow.Base.{ℕ, String, cat, Option, none, some, List, []}
use chroma_flow.Base.Dict
use chroma_flow.Base.Dict.{Dict, String-eq}
use chroma_flow.Queue.Types.{Error, Result}

pub record S3Store : Type 0 where
  pub endpoint : String
  pub access_key_id : String
  pub secret_access_key : String
  pub bucket : String
  pub region : String
  pub scheme : String

pub record Target : Type 0 where
  pub host : String
  pub escaped_path : String

pub record Request : Type 0 where
  pub method : String
  pub target : Target
  pub header : Dict String String
  pub body : Option (List ℕ)

pub record Response : Type 0 where
  pub status : ℕ
  pub read : List ℕ
  pub read_error : Option Error

-- `crypto/sha256`, `crypto/hmac` and `encoding/hex`: the hash of some bytes and of a text in hex, a
-- text as a key, the MAC of a text under a key, and a MAC in hex.
pub record Hashes (K : Type 0) : Type 0 where
  pub sha256_bytes : List ℕ → String
  pub sha256_text : String → String
  pub key_of_text : String → K
  pub hmac : K → String → K
  pub hex : K → String

-- What a request takes from outside: `url.Parse`, `url.PathEscape`, the clock, and the layouts
-- `20060102` and `150405` of a time.
pub record Net (H : Type 0) : Type 0 where
  pub parse : String → Result Target
  pub path_escape : String → String
  pub send : Request → H → Result Response × H
  pub clock : H → ℕ
  pub date : ℕ → String
  pub time : ℕ → String
  pub text_of : List ℕ → String

-- The lines that are hashed: method, path, query, headers, names of the headers, hash of the body.
abbrev pub canonical_request : String → String → String → String → String → String
canonical_request method path host hash date = cat method (
    cat "\n" (
      cat path (
        cat "\n\nhost:" (
          cat host (
            cat "\nx-amz-content-sha256:" (
              cat hash (
                cat "\nx-amz-date:"
                  (cat date (cat "\n\nhost;x-amz-content-sha256;x-amz-date\n" hash)))))))))

abbrev pub credential_scope : String → String → String
credential_scope stamp region = cat stamp (cat "/" (cat region "/s3/aws4_request"))

abbrev pub string_to_sign : String → String → String → String
string_to_sign date scope hash =
    cat "AWS4-HMAC-SHA256\n" (cat date (cat "\n" (cat scope (cat "\n" hash))))

-- `awsSigningKey`.
abbrev pub aws_signing_key : {K : Type 0} → Hashes K → String → String → String → String → K
aws_signing_key h secret date region service =
    h.hmac (h.hmac (h.hmac (h.hmac (h.key_of_text (cat "AWS4" secret)) date) region) service)
      "aws4_request"

abbrev pub authorization : String → String → String → String
authorization id scope signature = cat "AWS4-HMAC-SHA256 Credential=" (
    cat id (
      cat "/" (
        cat scope
          (cat ", SignedHeaders=host;x-amz-content-sha256;x-amz-date, Signature=" signature))))

abbrev pub payload_of : Option (List ℕ) → List ℕ
payload_of none = []
payload_of (some d) = d

module _ {H K : Type 0} (net : Net H) (hashes : Hashes K) (s3 : S3Store) where
  -- The layout `20060102T150405Z`.
  abbrev pub amz_date : ℕ → String
  amz_date now = cat (net.date now) (cat "T" (cat (net.time now) "Z"))

  -- `sign`.
  unfoldable pub sign : ℕ → Request → Request
  sign now req =
      let date = amz_date now in
      let stamp = net.date now in
      let hash = hashes.sha256_bytes (payload_of req.body) in
      let header =
        Dict.put "X-Amz-Content-Sha256" hash
          (Dict.put "X-Amz-Date" date (Dict.put "Host" req.target.host req.header)) in
      let canonical =
        canonical_request req.method req.target.escaped_path req.target.host hash date in
      let scope = credential_scope stamp s3.region in
      let signed = string_to_sign date scope (hashes.sha256_text canonical) in
      let key = aws_signing_key hashes s3.secret_access_key stamp s3.region "s3" in
      let signature = hashes.hex (hashes.hmac key signed) in
      record req {
        header = Dict.put "Authorization" (authorization s3.access_key_id scope signature) header;
      }
