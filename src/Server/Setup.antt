-- ===== src/Server/Setup.antt =====
-- cmd/server/main.go: with which error the server refuses its configuration.
use chroma_flow.Base.{
  ℕ, String, ◌≡◌, refl, ◌∙◌, ◌⊎◌, inl, inr, Bool, ◌||◌, Option, List, ◌==◌, if◌then◌else◌,
  Bool-cases, ℤ, pos, negsuc, subst,
}
use chroma_flow.Queue.Types.{Result, ok, err}
use chroma_flow.Blob.Signature.{S3Store, Hashes, Net}
use chroma_flow.Queue.Redis.{new_redis_queue}
use chroma_flow.Queue.Redis as Redis_queue
use chroma_flow.Storage.Redis as Redis_storage
use chroma_flow.Storage.Redis.{new_redis_storage}
use chroma_flow.Redisx.New.{RedisUrl}
use chroma_flow.Server.{
  Config, unsupported, Built, built, failed, QueueBackend, StorageBackend, BlobBackend, Named,
  memory, external, unknown, named, sized_queue, queue_made, storage_made, queue_named, build_queue,
  storage_named, build_storage, s3_made, blobs_named, build_blob_store, blobs_built, storage_built,
  queue_built, set_up,
}

-- A refusal of a name.
abbrev Refuses {ℓ} : {A : Type ℓ} → Built A → String → String → Type ℓ
Refuses r variable value = r ≡ failed (unsupported variable value)

sized_queue-names :
    (n : ℤ) {variable value : String} → sized_queue n ≡ failed (unsupported variable value) → ⊥
unfolding sized_queue
sized_queue-names (pos n) h = cc
sized_queue-names (negsuc n) h = cc

queue_made-names :
    (m : Redis_queue.Made) {variable value : String}
    → queue_made m ≡ failed (unsupported variable value)
    → ⊥
unfolding queue_made
queue_made-names (Redis_queue.made_queue q) h = cc
queue_made-names (Redis_queue.refused_url e) h = cc

storage_made-names :
    (m : Redis_storage.Made) {variable value : String}
    → storage_made m ≡ failed (unsupported variable value)
    → ⊥
unfolding storage_made
storage_made-names (Redis_storage.made_storage s) h = cc
storage_made-names (Redis_storage.refused_url e) h = cc

module _ (to_lower : String → String) (parse_url : List ℕ → Option RedisUrl) (cfg : Config) where
  -- The name is not one of the memory backend, nor one of these.
  abbrev pub IsUnknown : (String → Bool) → String → Type 0
  IsUnknown is_external value = named is_external (to_lower value) ≡ unknown

  abbrev pub is_redis : String → Bool
  is_redis t = t == "redis"

  abbrev pub is_s3 : String → Bool
  is_s3 t = t == "s3" || t == "minio"

  queue_named-names :
      (n : Named) {variable value : String}
      → queue_named to_lower parse_url cfg n ≡ failed (unsupported variable value)
      → (n ≡ unknown) × (variable ≡ "QUEUE_BACKEND") × (value ≡ cfg.queue_backend)
  unfolding queue_named
  queue_named-names memory h = absurd (sized_queue-names cfg.queue_size h)
  queue_named-names external h = absurd (queue_made-names _ h)
  queue_named-names unknown h = (refl, cc, cc)

  queue_named-known :
      (n : Named) {q : QueueBackend}
      → queue_named to_lower parse_url cfg n ≡ built q
      → n ≡ unknown
      → ⊥
  unfolding queue_named
  queue_named-known memory h e = cc
  queue_named-known external h e = cc
  queue_named-known unknown h e = cc

  storage_named-names :
      (n : Named) {variable value : String}
      → storage_named to_lower parse_url cfg n ≡ failed (unsupported variable value)
      → (n ≡ unknown) × (variable ≡ "STORAGE_BACKEND") × (value ≡ cfg.storage_backend)
  unfolding storage_named
  storage_named-names memory h = cc
  storage_named-names external h = absurd (storage_made-names _ h)
  storage_named-names unknown h = (refl, cc, cc)

  build_queue-names :
      {variable value : String}
      → build_queue to_lower parse_url cfg ≡ failed (unsupported variable value)
      → (variable ≡ "QUEUE_BACKEND") × (value ≡ cfg.queue_backend) × IsUnknown is_redis value
  unfolding build_queue
  build_queue-names {variable} {value} h =
      let (e, f, g) = queue_named-names (named is_redis (to_lower cfg.queue_backend)) h in
      (f, g, rw g e)

  -- Once a queue was built, its name is known, so an unknown name is that of the storage itself.
  build_storage-names :
      {q : QueueBackend} {variable value : String}
      → build_queue to_lower parse_url cfg ≡ built q
      → build_storage to_lower parse_url cfg ≡ failed (unsupported variable value)
      → (variable ≡ "STORAGE_BACKEND") × (value ≡ cfg.storage_backend) × IsUnknown is_redis value
  unfolding build_queue build_storage
  build_storage-names {q} {variable} {value} k h =
      let (e, f, g) = storage_named-names _ h in
      elim (Bool-cases (cfg.storage_backend == "")) [
        | inl empty ↦ absurd (
            queue_named-known (named is_redis (to_lower cfg.queue_backend)) k (
              subst
                (λ b.
                  named is_redis (to_lower (if b then cfg.queue_backend else cfg.storage_backend))
                  ≡ unknown)
                empty e))
        | inr given ↦ (
          f,
          g,
          rw g (
              subst
                (λ b.
                  named is_redis (to_lower (if b then cfg.queue_backend else cfg.storage_backend))
                  ≡ unknown)
                given e),
        )
      ]

  module _ {H K : Type 0} (net : Net H) (hashes : Hashes K) where
    s3_made-names :
        (r : Result S3Store) (h : H) {variable value : String}
        → (s3_made to_lower parse_url net hashes (r, h)).0 ≡ failed (unsupported variable value)
        → ⊥
    unfolding s3_made
    s3_made-names (ok s) h e = cc
    s3_made-names (err x) h e = cc

    blobs_named-names :
        (n : Named) (h : H) {variable value : String}
        → (blobs_named to_lower parse_url net hashes cfg n h).0
          ≡ failed (unsupported variable value)
        → (n ≡ unknown) × (variable ≡ "BLOB_BACKEND") × (value ≡ cfg.blob_backend)
    unfolding blobs_named
    blobs_named-names memory h e = cc
    blobs_named-names external h e = absurd (s3_made-names _ _ e)
    blobs_named-names unknown h e = (refl, cc, cc)

    build_blob_store-names :
        (h : H) {variable value : String}
        → (build_blob_store to_lower parse_url net hashes cfg h).0
          ≡ failed (unsupported variable value)
        → (variable ≡ "BLOB_BACKEND") × (value ≡ cfg.blob_backend) × IsUnknown is_s3 value
    unfolding build_blob_store
    build_blob_store-names h e =
        let (x, f, g) = blobs_named-names (named is_s3 (to_lower cfg.blob_backend)) h e in
        (f, g, rw g x)

    -- What a refusal says: the variable, its value, and that the value names no backend.
    abbrev pub SaysWhy : String → String → Type 0
    SaysWhy variable value =
        ((variable ≡ "QUEUE_BACKEND") × (value ≡ cfg.queue_backend) × IsUnknown is_redis value)
        ⊎ (((variable ≡ "STORAGE_BACKEND")
              × (value ≡ cfg.storage_backend)
              × IsUnknown is_redis value)
            ⊎ ((variable ≡ "BLOB_BACKEND") × (value ≡ cfg.blob_backend) × IsUnknown is_s3 value))

    blobs_built-names :
        (q : QueueBackend) (s : StorageBackend) (r : Built BlobBackend) (h : H)
        {variable value : String}
        → (blobs_built to_lower parse_url net hashes q s (r, h)).0
          ≡ failed (unsupported variable value)
        → r ≡ failed (unsupported variable value)
    unfolding blobs_built
    blobs_built-names q s (built b) h e = cc
    blobs_built-names q s (failed x) h e = cc

    storage_built-names :
        (q : QueueBackend) (r : Built StorageBackend) (h : H) {variable value : String}
        → build_queue to_lower parse_url cfg ≡ built q
        → build_storage to_lower parse_url cfg ≡ r
        → (storage_built to_lower parse_url net hashes cfg h q r).0
          ≡ failed (unsupported variable value)
        → SaysWhy variable value
    unfolding storage_built
    storage_built-names q (failed x) h k l e = inr (inl (build_storage-names k (l ∙ cc)))
    storage_built-names q (built s) h k l e =
        inr (inr (build_blob_store-names h (blobs_built-names q s _ _ e)))

    queue_built-names :
        (r : Built QueueBackend) (h : H) {variable value : String}
        → build_queue to_lower parse_url cfg ≡ r
        → (queue_built to_lower parse_url net hashes cfg h r).0
          ≡ failed (unsupported variable value)
        → SaysWhy variable value
    unfolding queue_built
    queue_built-names (failed x) h k e = inl (build_queue-names (k ∙ cc))
    queue_built-names (built q) h k e = storage_built-names q _ h k refl e

    -- Where main exits because a backend is unsupported, the error names the variable and its
    -- value, and that value names no backend: also for the storage, which takes the queue's name
    -- where it has none of its own.
    pub set_up-names_value :
        (h : H) {variable value : String}
        → (set_up to_lower parse_url net hashes cfg h).0 ≡ failed (unsupported variable value)
        → SaysWhy variable value
    unfolding set_up
    set_up-names_value h e = queue_built-names _ h refl e
