-- ===== src/Worker/Loop/Balance.antt =====
-- internal/worker/worker.go: what a worker has done to the jobs, the queue and the metrics.
use mathlib.Core.Option
use chroma_flow.Base.{
  ℕ, ◌+◌, ◌≡◌, refl, ap, ◌∙◌, Bool, true, false, ◌||◌, Option, none, some, List, [], ◌∷◌,
  if◌then◌else◌, arith,
}
use chroma_flow.Queue.Types.{Result, ok, err}
use chroma_flow.Queue.Backend.{Backend}
use chroma_flow.Storage.Store.{Store}
use chroma_flow.Blob.Store.{BlobStore}
use chroma_flow.Observability.Metrics.{Metrics, worker_started, worker_stopped, u64}
use chroma_flow.Worker.Pool.{Shared}
use chroma_flow.Worker.Process.{Point, Run, process_job}
use chroma_flow.Worker.Process.Gauge.{gauge, KeepsGauge, gauge-process_job}
use chroma_flow.Worker.Loop.{
  Round, WorkerState, jobs_of, handle, stop, started, after_pop, loop, worker,
}

-- The queue after the jobs were acknowledged, each once and in their order.
abbrev pub acknowledged : {Q : Type 0} → Backend Q → List Run → Q → Q
acknowledged backend [] q = q
acknowledged backend (run ∷ runs) q = acknowledged backend runs (backend.ack run.job q).1

-- What a worker that is added to the active ones, or taken off, makes of their number.
abbrev pub one_more : Option ℕ → Option ℕ
one_more = Option.map (λ n. u64 (n + 1))

gauge_lem :
    (o : Option Metrics)
    → Option.map u64 (Option.map (λ (m : Metrics). m.active_workers) o)
      ≡ Option.map (λ (m : Metrics). u64 m.active_workers) o
gauge_lem none = refl
gauge_lem (some m) = refl

map-worker_started :
    (o : Option Metrics)
    → Option.map (λ (m : Metrics). u64 m.active_workers) (Option.map worker_started o)
      ≡ one_more (Option.map (λ (m : Metrics). u64 m.active_workers) o)
unfolding worker_started
map-worker_started none = refl
map-worker_started (some m) = ap some (omega arith)

map-worker_stopped :
    (o : Option Metrics) (n : Option ℕ)
    → Option.map (λ (m : Metrics). u64 m.active_workers) o ≡ one_more (Option.map u64 n)
    → Option.map (λ (m : Metrics). u64 m.active_workers) (Option.map worker_stopped o)
      ≡ Option.map u64 n
unfolding worker_stopped
map-worker_stopped none none h = refl
map-worker_stopped none (some n) h = absurd (cc h)
map-worker_stopped (some m) none h = absurd (cc h)
map-worker_stopped (some m) (some n) h = ground arith

-- A worker that has begun.
abbrev pub begun : {S B : Type 0} → Shared S B → Shared S B
begun w = record w { metrics = Option.map worker_started w.metrics }

module _ {S B : Type 0} (store : Store S) (blobs : BlobStore B)
    (others : Point → Shared S B → Shared S B) where
  -- What is shared once the jobs were processed, one after another.
  abbrev pub processed : List Run → Shared S B → Shared S B
  processed [] w = w
  processed (run ∷ runs) w = processed runs (process_job store blobs others run w)

module _ {S Q B : Type 0} (store : Store S) (backend : Backend Q) (blobs : BlobStore B)
    (others : Point → Shared S B → Shared S B) where
  -- What a worker must have done from a state of its loop on.
  record IsDone (jobs : List Run) (ends : Bool) (v w : WorkerState S Q B) : Type 0 where
    pub acks : w.queue ≡ acknowledged backend jobs v.queue
    pub ends_so : w.stopped ≡ (ends || v.stopped)
    pub stored : w.shared.storage ≡ (processed store blobs others jobs v.shared).storage
    pub kept : w.shared.blobs ≡ (processed store blobs others jobs v.shared).blobs
    pub posted : w.shared.posts ≡ (processed store blobs others jobs v.shared).posts

  after_pop-IsDone :
      (popped : Result Run) (ctx_done : Bool) (rs : List Round) (v : WorkerState S Q B)
      → ((u : WorkerState S Q B)
          → IsDone (jobs_of rs).0 (jobs_of rs).1 u (loop store backend blobs others rs u))
      → let all = jobs_of (record { popped = popped; ctx_done = ctx_done } ∷ rs) in
        IsDone all.0 all.1 v (
          after_pop store backend blobs others popped ctx_done
            (loop store backend blobs others rs)
            v)
  unfolding after_pop handle stop
  after_pop-IsDone (ok run) ctx_done rs v rest =
      let d = rest (handle store backend blobs others run v) in
      record {
        acks = d.acks;
        ends_so = d.ends_so;
        stored = d.stored;
        kept = d.kept;
        posted = d.posted;
      }
  after_pop-IsDone (err e) true rs v rest = record {
    acks = refl;
    ends_so = refl;
    stored = refl;
    kept = refl;
    posted = refl;
  }
  after_pop-IsDone (err e) false rs v rest = rest v

  loop-IsDone :
      (rs : List Round) (v : WorkerState S Q B)
      → IsDone (jobs_of rs).0 (jobs_of rs).1 v (loop store backend blobs others rs v)
  unfolding loop
  loop-IsDone [] v = record {
    acks = refl;
    ends_so = refl;
    stored = refl;
    kept = refl;
    posted = refl;
  }
  loop-IsDone (r ∷ rs) v = after_pop-IsDone r.popped r.ctx_done rs v (loop-IsDone rs)

  module _ (keeps : KeepsGauge others) (n : Option ℕ) where
    abbrev Counts : Bool → WorkerState S Q B → Type 0
    Counts ends w =
        gauge w.shared ≡ (if ends then Option.map u64 n else one_more (Option.map u64 n))

    after_pop-Counts :
        (popped : Result Run) (ctx_done : Bool) (rs : List Round) (v : WorkerState S Q B)
        → ((u : WorkerState S Q B)
            → Counts false u
            → Counts (jobs_of rs).1 (loop store backend blobs others rs u))
        → Counts false v
        → Counts (jobs_of (record { popped = popped; ctx_done = ctx_done } ∷ rs)).1 (
            after_pop store backend blobs others popped ctx_done
              (loop store backend blobs others rs)
              v)
    unfolding after_pop handle stop
    after_pop-Counts (ok run) ctx_done rs v rest h =
        rest (handle store backend blobs others run v)
          (gauge-process_job store blobs others run keeps v.shared ∙ h)
    after_pop-Counts (err e) true rs v rest h = map-worker_stopped v.shared.metrics n h
    after_pop-Counts (err e) false rs v rest h = rest v h

    loop-Counts :
        (rs : List Round) (v : WorkerState S Q B)
        → Counts false v
        → Counts (jobs_of rs).1 (loop store backend blobs others rs v)
    unfolding loop
    loop-Counts [] v h = h
    loop-Counts (r ∷ rs) v h = after_pop-Counts r.popped r.ctx_done rs v (loop-Counts rs) h

  -- A worker, among goroutines that leave the number of active workers alone: the queue has the
  -- acknowledgement of each job that it popped, once and in their order, and of no other; the
  -- storage, the blob store and the webhooks are as after `processJob` of these jobs in that order;
  -- it has returned where a `Pop` failed with the pool's context done; and the number of active
  -- workers is then what it was before, and one more as long as the worker runs.
  pub worker_balances :
      (rounds : List Round) (w : WorkerState S Q B)
      → KeepsGauge others
      → let (jobs, ends) = jobs_of rounds in
        let w' = worker store backend blobs others rounds w in
        (w'.queue ≡ acknowledged backend jobs w.queue)
        × (w'.shared.storage ≡ (processed store blobs others jobs (begun w.shared)).storage)
        × (w'.shared.blobs ≡ (processed store blobs others jobs (begun w.shared)).blobs)
        × (w'.shared.posts ≡ (processed store blobs others jobs (begun w.shared)).posts)
        × (w'.stopped ≡ (ends || w.stopped))
        × (gauge w'.shared ≡ (if ends then gauge w.shared else one_more (gauge w.shared)))
  unfolding worker started
  worker_balances rounds w keeps =
      let v = started store backend blobs others w in
      let d = loop-IsDone rounds v in
      let n = Option.map (λ (m : Metrics). m.active_workers) w.shared.metrics in
      let count =
        loop-Counts keeps n rounds v
          (rw (gauge_lem w.shared.metrics) (map-worker_started w.shared.metrics)) in
      (d.acks, d.stored, d.kept, d.posted, d.ends_so, rw (gauge_lem w.shared.metrics) at count)
