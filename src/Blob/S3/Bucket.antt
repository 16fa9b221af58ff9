-- ===== src/Blob/S3/Bucket.antt =====
-- internal/blob/s3.go: the store over a bucket that answers the requests that are signed for it.
use chroma_flow.Base.{
  ℕ, String, cat, map, ◌≡◌, Option, none, some, List, [], ◌∷◌, ◌==◌, if◌then◌else◌,
}
use chroma_flow.Base.Dict
use chroma_flow.Base.Dict.{Dict, String-eq}
use chroma_flow.Queue.Types.{Error, Result, ok, err}
use chroma_flow.Blob.S3.Paths.{between, parts_of}
use chroma_flow.Blob.S3.{put, get}
use chroma_flow.Blob.Signature.{S3Store, Target, Request, Response, Hashes, Net, payload_of, sign}

-- Texts that are written one after another.
abbrev pub written : List String → String
written [] = ""
written (t ∷ []) = t
written (t ∷ u ∷ us) = cat t (written (u ∷ us))

-- Texts that are hashed into a key one after another.
abbrev pub hashed_into : {K : Type 0} → Hashes K → K → List String → K
hashed_into hashes k [] = k
hashed_into hashes k (t ∷ ts) = hashed_into hashes (hashes.hmac k t) ts

-- Signature Version 4 of AWS, as a bucket checks it: the method, path and headers of the request and
-- the hash of its body, hashed under the secret of the access key, the day, the region and the
-- service, are the signature in the last header.
pub record IsSigned {K : Type 0} (hashes : Hashes K) (s3 : S3Store) (req : Request) : Type 0 where
  pub day : String
  pub date : String
  pub body_hash : String
  pub body : hashes.sha256_bytes (payload_of req.body) ≡ body_hash
  pub host : Dict.get "Host" req.header ≡ some req.target.host
  pub hash : Dict.get "X-Amz-Content-Sha256" req.header ≡ some body_hash
  pub dated : Dict.get "X-Amz-Date" req.header ≡ some date
  pub signature :
      Dict.get "Authorization" req.header
      ≡ some (
          let scope = written (day ∷ "/" ∷ s3.region ∷ "/s3/aws4_request" ∷ []) in
          let canonical = written (
            req.method ∷ "\n" ∷ req.target.escaped_path ∷ "\n\nhost:" ∷ req.target.host
            ∷ "\nx-amz-content-sha256:" ∷ body_hash ∷ "\nx-amz-date:" ∷ date
            ∷ "\n\nhost;x-amz-content-sha256;x-amz-date\n" ∷ body_hash ∷ []) in
          let signed = written (
            "AWS4-HMAC-SHA256\n"
            ∷ date
            ∷ "\n"
            ∷ scope
            ∷ "\n"
            ∷ hashes.sha256_text canonical
            ∷ []) in
          let secret = hashes.key_of_text (cat "AWS4" s3.secret_access_key) in
          written (
            "AWS4-HMAC-SHA256 Credential="
            ∷ s3.access_key_id
            ∷ "/"
            ∷ scope
            ∷ ", SignedHeaders=host;x-amz-content-sha256;x-amz-date, Signature="
            ∷ hashes.hex
                (hashed_into hashes secret (day ∷ s3.region ∷ "s3" ∷ "aws4_request" ∷ signed ∷ []))
            ∷ []))

-- The target of a request for an object of the bucket, by its path in the bucket.
abbrev pub addressed : S3Store → String → Target
addressed s3 path = record {
  host = s3.endpoint;
  escaped_path = written ("/" ∷ s3.bucket ∷ "/" ∷ path ∷ []);
}

-- A bucket that answers: the objects by their keys, which it reads from the paths by undoing the
-- escapes; `url.PathEscape` leaves the slashes between escaped parts to it as they are.
pub record Bucket {H K : Type 0} (net : Net H) (hashes : Hashes K) (s3 : S3Store) : Type 0 where
  pub objects : H → String → Option (List ℕ)
  pub unescape : String → String
  pub unescapes :
      (parts : List String) → unescape (between "/" (map net.path_escape parts)) ≡ between "/" parts
  pub puts :
      (req : Request) (path : String) (h : H) {bytes : List ℕ}
      → IsSigned hashes s3 req
      → req.target ≡ addressed s3 path
      → req.method ≡ "PUT"
      → req.body ≡ some bytes
      → let (r, h') = net.send req h in
        (reply : Response) × (r ≡ ok reply)
        × (reply.status ≡ 200)
        × ((key : String)
            → objects h' key ≡ (if unescape path == key then some bytes else objects h key))
  pub gets :
      (req : Request) (path : String) (h : H) {bytes : List ℕ}
      → IsSigned hashes s3 req
      → req.target ≡ addressed s3 path
      → req.method ≡ "GET"
      → objects h (unescape path) ≡ some bytes
      → net.send req h ≡ (ok (record { status = 200; read = bytes; read_error = none }), h)
  pub misses :
      (req : Request) (path : String) (h : H)
      → IsSigned hashes s3 req
      → req.target ≡ addressed s3 path
      → req.method ≡ "GET"
      → objects h (unescape path) ≡ none
      → (reply : Response) × (net.send req h ≡ (ok reply, h)) × (reply.status ≡ 404)
  pub deletes :
      (req : Request) (path : String) (h : H)
      → IsSigned hashes s3 req
      → req.target ≡ addressed s3 path
      → req.method ≡ "DELETE"
      → let (r, h') = net.send req h in
        (reply : Response) × (r ≡ ok reply)
        × (reply.status ≡ 204)
        × ((key : String) → objects h' key ≡ (if unescape path == key then none else objects h key))

-- `url.Parse` of the URL of a path in the bucket, whose parts `url.PathEscape` has escaped.
abbrev pub Parses : {H : Type 0} → Net H → S3Store → Type 0
Parses net s3 =
    (parts : List String)
    → let path = between "/" (map net.path_escape parts) in
      net.parse (written (s3.scheme ∷ "://" ∷ s3.endpoint ∷ "/" ∷ s3.bucket ∷ "/" ∷ path ∷ []))
      ≡ ok (addressed s3 path)

module _ {H K : Type 0} (net : Net H) (hashes : Hashes K) (s3 : S3Store)
    (bucket : Bucket net hashes s3) (urls : Parses net s3) where
  -- The path of a key in the bucket, escaped.
  abbrev path_of : String → String
  path_of key = between "/" (map net.path_escape (parts_of key))

  abbrev request : ℕ → String → String → Option (List ℕ) → Request
  request now method key body =
      sign net hashes s3 now
        (record { method = method; target = addressed s3 (path_of key); header = []; body = body })

  -- The object that is kept for a key.
  abbrev pub object : H → String → Option (List ℕ)
  object h key = bucket.objects h key

  abbrev pub put_of : String → List ℕ → H → Request
  put_of key bytes h =
      let req = request (net.clock h) "PUT" key (some bytes) in
      record req { header = Dict.put "Content-Type" "application/pdf" req.header }

  -- What `Get` answers for an object.
  abbrev pub Answers : Option (List ℕ) → Result (List ℕ) → Type 0
  Answers none r = (e : Error) × (r ≡ err e)
  Answers (some bytes) r = r ≡ ok bytes
