-- ===== src/Blob/S3/Creation.antt =====
-- internal/blob/s3.go: when `NewS3Store` has a bucket.
use chroma_flow.Base.{ℕ, String, ◌≡◌, ◌↔◌, ◌⊎◌, Bool, true, false, none, [], eqb, arith}
use chroma_flow.Queue.Types.{Result, ok, err}
use chroma_flow.Blob.S3.{
  bucket_url, ensure_bucket, created, create_bucket, after_head, head_bucket, request_to,
}
use chroma_flow.Blob.Signature.{S3Store, Target, Request, Response, Hashes, Net, sign}

-- There is a reply, with that status.
abbrev pub has_status : ℕ → Result Response → Bool
has_status n (err e) = false
has_status n (ok reply) = eqb reply.status n

abbrev pub HasStatus : ℕ → Result Response → Type 0
HasStatus n r = has_status n r ≡ true

module _ {H K : Type 0} (net : Net H) (hashes : Hashes K) (s3 : S3Store) (target : Target)
    (parses : net.parse (bucket_url s3) ≡ ok target) where
  -- A request for the bucket, signed at the time of a state.
  abbrev pub for_bucket : String → H → Request
  for_bucket method h =
      sign net hashes s3 (net.clock h)
        (record { method = method; target = target; header = []; body = none })

  -- The reply to `HEAD`, and the reply to the `PUT` after it.
  abbrev pub head_reply : H → Result Response × H
  head_reply h = net.send (for_bucket "HEAD" h) h

  abbrev pub put_reply : H → Result Response × H
  put_reply h = let h₁ = (head_reply h).1 in net.send (for_bucket "PUT" h₁) h₁

  created_iff : (r : Result Response) → (created net hashes s3 r ≡ none) ↔ HasStatus 200 r
  unfolding created
  created_iff (err e) = ground arith
  created_iff (ok reply) = ground arith

  after_head_iff :
      (r : Result Response) (h : H)
      → ((after_head net hashes s3 r h).0 ≡ none)
        ↔ (HasStatus 200 r ⊎ (HasStatus 404 r × HasStatus 200 (net.send (for_bucket "PUT" h) h).0))
  unfolding after_head create_bucket request_to
  after_head_iff (err e) h = ground arith
  after_head_iff (ok reply) h =
      rw parses (ground (arith, created_iff (net.send (for_bucket "PUT" h) h).0))

  -- Where `url.Parse` takes the URL of the bucket: `ensureBucket` succeeds just where the bucket is
  -- there, as `HEAD` answers with status 200, or is missing, as it answers with status 404, and the
  -- `PUT` that creates it is answered with status 200.
  pub ensure_bucket_iff :
      (h : H)
      → ((ensure_bucket net hashes s3 h).0 ≡ none) ↔ (
          HasStatus 200 (head_reply h).0
          ⊎ (HasStatus 404 (head_reply h).0 × HasStatus 200 (put_reply h).0))
  unfolding ensure_bucket head_bucket request_to
  ensure_bucket_iff h = let (r, h₁) = head_reply h in rw parses (after_head_iff r h₁)
