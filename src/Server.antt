-- ===== src/Server.antt =====
-- internal/config/config.go and cmd/server/main.go: the configuration, and what the server builds of
-- it. `env.Parse`, `strings.ToLower`, the URL parser and the client of the bucket are parameters. A
-- text of the environment is as it is given; that of the Redis URL is in bytes.
pub mod Shutdown
pub mod Setup
use chroma_flow.Base.{
  ℕ, ◌+◌, ◌-◌, ◌*◌, eqb, String, cat, Bool, true, false, ◌||◌, Option, none, some, List, ◌==◌,
  if◌then◌else◌, ℤ, pos, negsuc,
}
use chroma_flow.Queue.Types.{Error, Result, ok, err}
use chroma_flow.Queue.Memory.{MemoryQueue, new_memory_queue}
use chroma_flow.Queue.Redis.{RedisQueue, new_redis_queue}
use chroma_flow.Queue.Redis as Redis_queue
use chroma_flow.Storage.Memory.{MemoryStorage, new_memory_storage}
use chroma_flow.Storage.Redis.{RedisStorage, new_redis_storage}
use chroma_flow.Storage.Redis as Redis_storage
use chroma_flow.Blob.Memory.{MemoryStore, new_memory_store}
use chroma_flow.Blob.Signature.{S3Store, Hashes, Net}
use chroma_flow.Blob.S3.{S3Config, new_s3_store}
use chroma_flow.Redisx.New.{RedisUrl, NewError}

pub record Config : Type 0 where
  pub port : ℤ
  pub num_workers : ℤ
  pub queue_size : ℤ
  pub page_timeout : ℤ
  pub result_ttl : ℤ
  pub chrome_ws_url : String
  pub log_level : String
  pub queue_backend : String
  pub storage_backend : String
  pub redis_url : List ℕ
  pub redis_key_prefix : String
  pub redis_visibility_timeout : ℤ
  pub blob_backend : String
  pub s3 : S3Config
  pub require_idempotency_key : Bool
  pub webhook_url : String
  pub webhook_timeout : ℤ
  pub render_max_retries : ℤ
  pub render_retry_backoff_ms : ℤ

workers_or_auto : ℕ → ℤ → ℤ
workers_or_auto cpus (pos n) = if eqb n 0 then pos (cpus * 2) else pos n
workers_or_auto cpus (negsuc n) = negsuc n

-- `Load`, of what `env.Parse` makes of the environment; `none` is `os.Exit(1)`.
unfoldable pub load : ℕ → Result Config → Option Config
unfolding workers_or_auto
load cpus (err e) = none
load cpus (ok cfg) = some (record cfg { num_workers = workers_or_auto cpus cfg.num_workers })

-- A number of units, in smaller ones: `time.Duration(n) * time.Second` and the like.
abbrev pub times : ℕ → ℤ → ℤ
times k (pos n) = pos (n * k)
times k (negsuc n) = negsuc ((n + 1) * k - 1)

-- What the callback of `SetQueueStats` returns, of what `Len` and `Cap` return.
unfoldable pub queue_stats : Result ℕ → ℤ → ℕ × ℤ
queue_stats (ok depth) cap = (depth, cap)
queue_stats (err e) cap = (0, cap)

-- Why a backend could not be built: `fmt.Errorf("unsupported … %q", …)` with the name of the
-- variable and its value, an error of a constructor, or the panic of `make` for a negative size.
pub data BuildError : Type 0 where
  unsupported : String → String → BuildError
  bad_redis : NewError → BuildError
  bad_bucket : Error → BuildError
  bad_size : BuildError

pub data Built {ℓ} (A : Type ℓ) : Type ℓ where
  built : A → Built A
  failed : BuildError → Built A

pub data QueueBackend : Type 0 where
  memory_queue : MemoryQueue → QueueBackend
  redis_queue : RedisQueue → QueueBackend

pub data StorageBackend : Type 0 where
  memory_storage : MemoryStorage → StorageBackend
  redis_storage : RedisStorage → StorageBackend

pub data BlobBackend : Type 0 where
  memory_blobs : MemoryStore → BlobBackend
  s3_blobs : S3Store → BlobBackend

-- The cases of the `switch`es.
pub data Named : Type 0 where
  memory external unknown : Named

unfoldable pub named : (external_names : String → Bool) → String → Named
named is_external name =
    if name == "" || name == "memory"
    then memory
    else if is_external name
    then external
    else unknown

sized_queue : ℤ → Built QueueBackend
sized_queue (pos n) = built (memory_queue (new_memory_queue n))
sized_queue (negsuc n) = failed bad_size

queue_made : Redis_queue.Made → Built QueueBackend
queue_made (Redis_queue.made_queue q) = built (redis_queue q)
queue_made (Redis_queue.refused_url e) = failed (bad_redis e)

storage_made : Redis_storage.Made → Built StorageBackend
storage_made (Redis_storage.made_storage s) = built (redis_storage s)
storage_made (Redis_storage.refused_url e) = failed (bad_redis e)

module _ (to_lower : String → String) (parse_url : List ℕ → Option RedisUrl) where
  queue_named : Config → Named → Built QueueBackend
  unfolding sized_queue queue_made
  queue_named cfg memory = sized_queue cfg.queue_size
  queue_named cfg external = queue_made (
      new_redis_queue parse_url cfg.redis_url cfg.redis_key_prefix cfg.queue_size
        (times 1000000000 cfg.redis_visibility_timeout))
  queue_named cfg unknown = failed (unsupported "QUEUE_BACKEND" cfg.queue_backend)

  -- `buildQueue`.
  unfoldable pub build_queue : Config → Built QueueBackend
  unfolding queue_named named
  build_queue cfg = queue_named cfg (named (λ t. t == "redis") (to_lower cfg.queue_backend))

  storage_named : Config → Named → Built StorageBackend
  unfolding storage_made
  storage_named cfg memory = built (memory_storage new_memory_storage)
  storage_named cfg external =
      storage_made (new_redis_storage parse_url cfg.redis_url cfg.redis_key_prefix)
  storage_named cfg unknown = failed (unsupported "STORAGE_BACKEND" cfg.storage_backend)

  -- `buildStorage`.
  unfoldable pub build_storage : Config → Built StorageBackend
  unfolding storage_named named
  build_storage cfg =
      let backend = if cfg.storage_backend == "" then cfg.queue_backend else cfg.storage_backend in
      storage_named cfg (named (λ t. t == "redis") (to_lower backend))

  module _ {H K : Type 0} (net : Net H) (hashes : Hashes K) where
    s3_made : Result S3Store × H → Built BlobBackend × H
    s3_made (ok s, h) = (built (s3_blobs s), h)
    s3_made (err e, h) = (failed (bad_bucket e), h)

    blobs_named : Config → Named → H → Built BlobBackend × H
    unfolding s3_made
    blobs_named cfg memory h = (built (memory_blobs new_memory_store), h)
    blobs_named cfg external h = s3_made (new_s3_store net hashes cfg.s3 h)
    blobs_named cfg unknown h = (failed (unsupported "BLOB_BACKEND" cfg.blob_backend), h)

    -- `buildBlobStore`.
    unfoldable pub build_blob_store : Config → H → Built BlobBackend × H
    unfolding blobs_named named
    build_blob_store cfg h =
        blobs_named cfg (named (λ t. t == "s3" || t == "minio") (to_lower cfg.blob_backend)) h

    blobs_built :
        QueueBackend
        → StorageBackend
        → Built BlobBackend × H
        → Built (QueueBackend × StorageBackend × BlobBackend) × H
    blobs_built q s (built b, h) = (built (q, s, b), h)
    blobs_built q s (failed e, h) = (failed e, h)

    storage_built :
        Config
        → H
        → QueueBackend
        → Built StorageBackend
        → Built (QueueBackend × StorageBackend × BlobBackend) × H
    unfolding blobs_built
    storage_built cfg h q (failed e) = (failed e, h)
    storage_built cfg h q (built s) = blobs_built q s (build_blob_store cfg h)

    queue_built :
        Config → H → Built QueueBackend → Built (QueueBackend × StorageBackend × BlobBackend) × H
    unfolding storage_built
    queue_built cfg h (failed e) = (failed e, h)
    queue_built cfg h (built q) = storage_built cfg h q (build_storage cfg)

    -- The backends that main builds, or the error with which it exits.
    unfoldable pub set_up : Config → H → Built (QueueBackend × StorageBackend × BlobBackend) × H
    unfolding queue_built
    set_up cfg h = queue_built cfg h (build_queue cfg)
