-- ===== src/Worker/Loop.antt =====
-- internal/worker/worker.go: the loop of one worker. What each `Pop` returns, and what the call of
-- `processJob` for a popped job meets, is a list of rounds; the end of the list is a `Pop` that
-- still waits. The second of sleep after a failed `Pop` changes nothing.
pub mod Balance
use chroma_flow.Base.{◌≡◌, refl, Bool, true, false, List, [], ◌∷◌}
use mathlib.Core.Option
use chroma_flow.Queue.Types.{Result, ok, err}
use chroma_flow.Queue.Backend.{Backend}
use chroma_flow.Storage.Store.{Store}
use chroma_flow.Blob.Store.{BlobStore}
use chroma_flow.Observability.Metrics.{worker_started, worker_stopped}
use chroma_flow.Worker.Pool.{Shared}
use chroma_flow.Worker.Process.{Point, Run, process_job}

-- A round: what `Pop` returns, and whether the pool's context is done after it.
pub record Round : Type 0 where
  pub popped : Result Run
  pub ctx_done : Bool

-- The states of a worker: what is shared, the queue, and whether the worker has returned.
pub record WorkerState (S Q B : Type 0) : Type 0 where
  pub shared : Shared S B
  pub queue : Q
  pub stopped : Bool

-- The jobs that are popped before the worker returns, and whether it returns.
abbrev pub jobs_of : List Round → List Run × Bool
jobs_of [] = ([], false)
jobs_of (r ∷ rs) =
    let (jobs, ends) = jobs_of rs in
    elim r.popped [
      | ok run ↦ (run ∷ jobs, ends)
      | err e ↦ elim r.ctx_done [ true ↦ ([], true) | false ↦ (jobs, ends) ]
    ]

module _ {S Q B : Type 0} (store : Store S) (backend : Backend Q) (blobs : BlobStore B)
    (others : Point → Shared S B → Shared S B) where
  -- A job is processed and then acknowledged, whatever its processing came to.
  unfoldable pub handle : Run → WorkerState S Q B → WorkerState S Q B
  handle run w = record w {
    shared = process_job store blobs others run w.shared;
    queue = (backend.ack run.job w.queue).1;
  }

  -- `WorkerStopped`, deferred.
  unfoldable pub stop : WorkerState S Q B → WorkerState S Q B
  unfolding worker_stopped
  stop w = record w {
    shared = record w.shared { metrics = Option.map worker_stopped w.shared.metrics };
    stopped = true;
  }

  -- What follows a `Pop`; `go_on` is the rest of the loop.
  after_pop :
      Result Run
      → Bool
      → (WorkerState S Q B → WorkerState S Q B)
      → WorkerState S Q B
      → WorkerState S Q B
  unfolding handle stop
  after_pop (ok run) ctx_done go_on w = go_on (handle run w)
  after_pop (err e) true go_on w = stop w
  after_pop (err e) false go_on w = go_on w

  unfoldable pub loop : List Round → WorkerState S Q B → WorkerState S Q B
  unfolding after_pop
  loop [] w = w
  loop (r ∷ rs) w = after_pop r.popped r.ctx_done (loop rs) w

  -- `WorkerStarted`, where metrics are kept.
  unfoldable pub started : WorkerState S Q B → WorkerState S Q B
  unfolding worker_started
  started w = record w {
    shared = record w.shared { metrics = Option.map worker_started w.shared.metrics };
  }

  -- `worker`.
  unfoldable pub worker : List Round → WorkerState S Q B → WorkerState S Q B
  unfolding loop started
  worker rounds w = loop rounds (started w)
