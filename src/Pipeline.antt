-- ===== src/Pipeline.antt =====
-- internal/api/handler.go, internal/queue/memory.go, internal/worker/worker.go and the stores
-- together: one job, from the request that submits it to the download of its PDF. The states of a
-- handler and of a worker are two views of what they share.
pub mod Delivery
use chroma_flow.Base.{ℕ, String, List, []}
use chroma_flow.Queue.Types.{Job}
use chroma_flow.Queue.Memory.{MemoryQueue}
use chroma_flow.Storage.Store.{Store, StoreLaws}
use chroma_flow.Blob.Store.{BlobStore}
use chroma_flow.Queue.Types.{Result, ok, err}
use chroma_flow.Base.{◌≡◌, none}
use chroma_flow.Api.Writer.{fresh}
use chroma_flow.Api.World.{World}
use chroma_flow.Worker.Pool.{Shared}
use chroma_flow.Worker.Process.{Point, Run}

-- What a worker shares with the handlers, when it has posted no webhook yet.
abbrev pub shared_of : {S Q B : Type 0} → World S Q B → Shared S B
shared_of w = record {
  storage = w.storage;
  blobs = w.blobs;
  metrics = w.metrics;
  cancels = w.cancels;
  canceled = w.canceled;
  posts = [];
}

-- What a later request meets: the queue, and what the workers left.
abbrev pub world_of : {S Q B : Type 0} → Q → Shared S B → World S Q B
world_of q s = record {
  storage = s.storage;
  queue = q;
  blobs = s.blobs;
  metrics = s.metrics;
  cancels = s.cancels;
  canceled = s.canceled;
  writer = fresh;
}

-- The call of `processJob` with a job.
abbrev pub run_of : Job → Run → Run
run_of job run = record run { job = job }

-- What the other goroutines do leaves the stored result of this job alone, and the blob of this key.
pub record Undisturbed {S B : Type 0} {store : Store S} (laws : StoreLaws store)
    (blobs : BlobStore B) (id key : String) (others : Point → Shared S B → Shared S B)
    : Type 0 where
  pub job_kept :
      (p : Point) (s : Shared S B) → laws.view (others p s).storage id ≡ laws.view s.storage id
  pub blob_kept :
      (p : Point) (s : Shared S B)
      → (blobs.get key (others p s).blobs).0 ≡ (blobs.get key s.blobs).0

-- The blob store takes a blob for this key, and returns it.
pub record Stores {B : Type 0} (blobs : BlobStore B) (key : String) (bytes : List ℕ) : Type 0 where
  pub puts : (b : B) → (blobs.put key bytes b).0 ≡ none
  pub gets : (b : B) → (blobs.get key (blobs.put key bytes b).1).0 ≡ ok bytes
