-- ===== src/Examples/Bucket.antt =====
-- internal/blob/s3.go at small inputs, over a bucket in a few lines.
use text.Mathlib.TextLemmas.{nil-append, cons-append}
use chroma_flow.Base.{
  ℕ, zero, suc, String, cat, map, ap, ◌∙◌, ◌≡◌, refl, ◌↔◌, ◌⊎◌, Option, none, some, List, [], ◌∷◌,
  ◌==◌, if◌then◌else◌,
}
use chroma_flow.Queue.Types.{ok}
use chroma_flow.Blob.S3.{bucket_url, ensure_bucket}
use chroma_flow.Blob.Signature.{S3Store, Target, Response, Hashes, Net, payload_of}
use chroma_flow.Blob.S3.Paths.{between}
use chroma_flow.Blob.S3.Bucket.{Bucket}
use chroma_flow.Blob.S3.Creation.{HasStatus, head_reply, put_reply, ensure_bucket_iff}

abbrev pub Objects : Type 0
Objects = String → Option (List ℕ)

-- A text without so many of its first characters.
abbrev pub without : ℕ → String → String
without zero t = t
without (suc n) String.[] = String.[]
without (suc n) (String.◌∷◌ c t) = without n t

size : String → ℕ
size String.[] = 0
size (String.◌∷◌ c t) = suc (size t)

without-cat : (t u : String) → without (size t) (cat t u) ≡ u
unfolding size
without-cat String.[] u = nil-append u
without-cat (String.◌∷◌ c t) u = ap (without (suc (size t))) (cons-append c t u) ∙ without-cat t u

-- The key in a path that begins with `/pdfs/`.
abbrev pub key_in : String → String
key_in path = without 1 (without 4 (without 1 path))

key_in-path : (path : String) → key_in (cat "/" (cat "pdfs" (cat "/" path))) ≡ path
unfolding size
key_in-path path =
    ap (λ t. without 1 (without 4 t)) (without-cat "/" (cat "pdfs" (cat "/" path)))
    ∙ ap (λ t. without 1 t) (without-cat "pdfs" (cat "/" path))
    ∙ without-cat "/" path

-- The target of a URL that begins with `http://localhost:9000`.
abbrev pub target : String → Target
target url = record {
  host = "localhost:9000";
  escaped_path = without 14 (without 3 (without 4 url));
}

abbrev pub reply : ℕ → List ℕ → Response
reply status bytes = record { status = status; read = bytes; read_error = none }

abbrev pub write : String → Option (List ℕ) → Objects → Objects
write key o s = λ k. if key == k then o else s k

abbrev pub reply_for : Option (List ℕ) → Response
reply_for none = reply 404 []
reply_for (some bytes) = reply 200 bytes

abbrev pub net : Net Objects
net = record {
  parse = λ url. ok (target url);
  path_escape = λ s. s;
  send = λ req s.
      let key = key_in req.target.escaped_path in
      if req.method == "PUT"
      then (ok (reply 200 []), write key (some (payload_of req.body)) s)
      else if req.method == "DELETE"
      then (ok (reply 204 []), write key none s)
      else (ok (reply_for (s key)), s);
  clock = λ s. 5;
  date = λ t. "20260102";
  time = λ t. "030405";
  text_of = λ bytes. "";
}

abbrev pub hashes : Hashes String
hashes = record {
  sha256_bytes = λ bytes. "h";
  sha256_text = λ t. t;
  key_of_text = λ t. t;
  hmac = λ k t. t;
  hex = λ k. k;
}

abbrev s3 : S3Store
s3 = record {
  endpoint = "localhost:9000";
  access_key_id = "id";
  secret_access_key = "secret";
  bucket = "pdfs";
  region = "us-east-1";
  scheme = "http";
}

map-same : (ts : List String) → map (λ t. t) ts ≡ ts
map-same [] = refl
map-same (t ∷ ts) = ap (λ us. t ∷ us) (map-same ts)

bucket : Bucket net hashes s3
bucket = record {
  objects = λ s key. s key;
  unescape = λ t. t;
  unescapes = λ parts. ap (between "/") (map-same parts);
  puts = λ req path s signed e method body.
      (reply 200 [], rw method refl, refl, λ key. rw (method, body, e, key_in-path path) refl);
  gets = λ req path s signed e method stored. rw (method, e, key_in-path path, stored) refl;
  misses = λ req path s signed e method missing.
      (reply 404 [], rw (method, e, key_in-path path, missing) refl, refl);
  deletes = λ req path s signed e method.
      (reply 204 [], rw method refl, refl, λ key. rw (method, e, key_in-path path) refl);
}

abbrev no_objects : Objects
no_objects key = none

ensure_bucket_iff_example : ((ensure_bucket net hashes s3 no_objects).0 ≡ none) ↔ (
    HasStatus 200 (head_reply net hashes s3 (target (bucket_url s3)) refl no_objects).0
    ⊎ (HasStatus 404 (head_reply net hashes s3 (target (bucket_url s3)) refl no_objects).0
        × HasStatus 200 (put_reply net hashes s3 (target (bucket_url s3)) refl no_objects).0))
ensure_bucket_iff_example = ensure_bucket_iff net hashes s3 (target (bucket_url s3)) refl no_objects
