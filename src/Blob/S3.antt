-- ===== src/Blob/S3.antt =====
-- internal/blob/s3.go: the blob store in an S3 bucket, over the requests of Blob/Signature.
pub mod Paths
pub mod Bucket
pub mod Creation
use Prim.Native.Char.{code}
use chroma_flow.Base.{
  ℕ, String, cat, Bool, true, false, Option, none, some, List, [], ◌∷◌, take, eqb, ◌==◌,
  if◌then◌else◌, ◌||◌, not, ◌&&◌, trim_space,
}
use chroma_flow.Base.Dict
use chroma_flow.Base.Dict.{Dict, String-eq}
use chroma_flow.Queue.Types.{Error, text, wrap, Result, ok, err}
use chroma_flow.Redisx.Strconv.{itoa}
use chroma_flow.Blob.Store.{BlobStore}
use chroma_flow.Blob.Signature.{S3Store, Target, Request, Response, Hashes, Net, sign}

pub record S3Config : Type 0 where
  pub endpoint : String
  pub access_key_id : String
  pub secret_access_key : String
  pub bucket : String
  pub region : String
  pub use_ssl : Bool

-- `strings.TrimLeft(key, "/")`.
pub trim_slashes : String → String
trim_slashes String.[] = String.[]
trim_slashes (String.◌∷◌ c s) = if eqb (code c) b'/' then trim_slashes s else String.◌∷◌ c s

-- `strings.Split(key, "/")`: the part before the first slash, and the others.
split_slashes : String → String × List String
split_slashes String.[] = (String.[], [])
split_slashes (String.◌∷◌ c s) =
    let (part, parts) = split_slashes s in
    if eqb (code c) b'/' then (String.[], part ∷ parts) else (String.◌∷◌ c part, parts)

joined : (String → String) → List String → String
joined escape [] = ""
joined escape (p ∷ ps) = cat "/" (cat (escape p) (joined escape ps))

-- `pathEscapeObject`.
unfoldable pub path_escape_object : (String → String) → String → String
unfolding split_slashes joined
path_escape_object escape key =
    let (part, parts) = split_slashes key in cat (escape part) (joined escape parts)

abbrev pub bucket_url : S3Store → String
bucket_url s = cat s.scheme (cat "://" (cat s.endpoint (cat "/" s.bucket)))

unfoldable pub object_url : (String → String) → S3Store → String → String
unfolding trim_slashes
object_url escape s key =
    cat (bucket_url s) (cat "/" (path_escape_object escape (trim_slashes key)))

module _ {H K : Type 0} (net : Net H) (hashes : Hashes K) (s3 : S3Store) where
  unfoldable pub request_to : ℕ → String → Option (List ℕ) → Result Target → Result Request
  request_to now method body (err e) = err e
  request_to now method body (ok target) = ok (
      sign net hashes s3 now
        (record { method = method; target = target; header = []; body = body }))

  -- `newRequest`.
  unfoldable pub new_request : ℕ → String → String → Option (List ℕ) → Result Request
  unfolding request_to
  new_request now method key body =
      request_to now method body (net.parse (object_url net.path_escape s3 key))

  -- The error for a status, with what is read of the body.
  unfoldable pub status_error : String → Response → Error
  status_error what r = text (
      cat what (
        cat ": status "
          (cat (itoa r.status) (cat ": " (trim_space (net.text_of (take 4096 r.read)))))))

  unfoldable pub checked : ℕ → Response → Option Error
  unfolding status_error
  checked expected r =
      if eqb r.status expected || eqb r.status 200 || eqb r.status 204
      then none
      else some (status_error "object request" r)

  answer_error : ℕ → Result Response → Option Error
  unfolding checked
  answer_error expected (err e) = some (wrap "object request" e)
  answer_error expected (ok r) = checked expected r

  -- `doNoBody`.
  unfoldable pub do_no_body : ℕ → Request → H → Option Error × H
  unfolding answer_error
  do_no_body expected req h = let (r, h') = net.send req h in (answer_error expected r, h')

  put_request : Result Request → H → Option Error × H
  put_request (err e) h = (some e, h)
  put_request (ok req) h =
      do_no_body 200 (record req { header = Dict.put "Content-Type" "application/pdf" req.header })
        h

  -- `Put`.
  unfoldable pub put : String → List ℕ → H → Option Error × H
  unfolding put_request
  put key bytes h = put_request (new_request (net.clock h) "PUT" key (some bytes)) h

  object_read : Response → Result (List ℕ)
  unfolding status_error
  object_read r =
      if eqb r.status 200
      then (elim r.read_error [ none ↦ ok r.read | some e ↦ err (wrap "read object" e) ])
      else err (status_error "get object" r)

  object_of : Result Response → Result (List ℕ)
  unfolding object_read
  object_of (err e) = err (wrap "get object" e)
  object_of (ok r) = object_read r

  get_request : Result Request → H → Result (List ℕ) × H
  unfolding object_of
  get_request (err e) h = (err e, h)
  get_request (ok req) h = let (r, h') = net.send req h in (object_of r, h')

  -- `Get`.
  unfoldable pub get : String → H → Result (List ℕ) × H
  unfolding get_request
  get key h = get_request (new_request (net.clock h) "GET" key none) h

  delete_request : Result Request → H → Option Error × H
  delete_request (err e) h = (some e, h)
  delete_request (ok req) h = do_no_body 204 req h

  -- `Delete`.
  unfoldable pub delete : String → H → Option Error × H
  unfolding delete_request
  delete key h = delete_request (new_request (net.clock h) "DELETE" key none) h

  unfoldable pub s3_blobs : BlobStore H
  s3_blobs = record { put = put; get = get; delete = delete }

  -- What the creation of the bucket came to.
  unfoldable pub created : Result Response → Option Error
  unfolding status_error
  created (err e) = some (wrap "create bucket" e)
  created (ok r) = if eqb r.status 200 then none else some (status_error "create bucket" r)

  unfoldable pub create_bucket : Result Request → H → Option Error × H
  unfolding created
  create_bucket (err e) h = (some e, h)
  create_bucket (ok req) h = let (r, h') = net.send req h in (created r, h')

  -- After the `HEAD` request: a bucket that is missing is created.
  unfoldable pub after_head : Result Response → H → Option Error × H
  unfolding create_bucket request_to
  after_head (err e) h = (some (wrap "check bucket" e), h)
  after_head (ok r) h =
      let made =
        create_bucket (request_to (net.clock h) "PUT" none (net.parse (bucket_url s3))) h in
      if eqb r.status 200
      then (none, h)
      else if eqb r.status 404
      then made
      else (some (text (cat "check bucket: status " (itoa r.status))), h)

  unfoldable pub head_bucket : Result Request → H → Option Error × H
  unfolding after_head
  head_bucket (err e) h = (some e, h)
  head_bucket (ok req) h = let (r, h') = net.send req h in after_head r h'

  -- `ensureBucket`.
  unfoldable pub ensure_bucket : H → Option Error × H
  unfolding head_bucket request_to
  ensure_bucket h = head_bucket (request_to (net.clock h) "HEAD" none (net.parse (bucket_url s3))) h

-- What follows a prefix, where the text has it.
without_prefix : String → String → Option String
without_prefix String.[] s = some s
without_prefix (String.◌∷◌ p ps) String.[] = none
without_prefix (String.◌∷◌ p ps) (String.◌∷◌ c s) =
    let rest = without_prefix ps s in if eqb (code p) (code c) then rest else none

-- `strings.TrimPrefix`, the prefix first.
trim_prefix : String → String → String
unfolding without_prefix
trim_prefix p s = elim (without_prefix p s) [ none ↦ s | some rest ↦ rest ]

-- The store that `NewS3Store` makes of a configuration.
unfoldable pub store_of : S3Config → S3Store
unfolding trim_prefix
store_of cfg = record {
  endpoint = trim_prefix "http://" (trim_prefix "https://" cfg.endpoint);
  access_key_id = cfg.access_key_id;
  secret_access_key = cfg.secret_access_key;
  bucket = cfg.bucket;
  region = if cfg.region == "" then "us-east-1" else cfg.region;
  scheme = if cfg.use_ssl then "https" else "http";
}

-- `NewS3Store`.
unfoldable pub new_s3_store : {H K : Type 0} → Net H → Hashes K → S3Config → H → Result S3Store × H
new_s3_store net hashes cfg h =
    let s = store_of cfg in
    let (e, h') = ensure_bucket net hashes s h in (elim e [ none ↦ ok s | some x ↦ err x ], h')
