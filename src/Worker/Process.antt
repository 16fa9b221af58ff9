-- ===== src/Worker/Process.antt =====
-- internal/worker/worker.go: `processJob` and `notify`. The calls of the storage and of the blob
-- store are atomic, and what the other goroutines do between two of them is `others p`, a change
-- of the shared states at the point `p` of the code.
pub mod Steps
pub mod Outcomes
pub mod Gauge
pub mod Races
use chroma_flow.Base.{
  ℕ, String, cat, Bool, true, false, Option, none, some, List, [], ◌∷◌, length, ◌&&◌, ◌==◌,
  if◌then◌else◌,
}
use chroma_flow.Cancellation
use chroma_flow.Queue.Types.{
  Error, message, is_context_canceled, Result, ok, err, JobStatus, processing, completed, failed,
  canceled, status_text, is_canceled, is_completed, is_failed, Job, JobResult,
}
use chroma_flow.Storage.Store.{Store, or_else}
use chroma_flow.Blob.Store.{BlobStore}
use chroma_flow.Webhook
use chroma_flow.Webhook.{Post, Event}
use chroma_flow.Worker.Retry.{Attempt, generate_with_retries}
use chroma_flow.Worker.Pool.{Shared, finished, sent}

-- Where other goroutines run: between the first `Get` and the `Set` to processing; while the page
-- is rendered; between the `Get` after that and the next call; between `Put` and the last `Set`.
pub data Point : Type 0 where
  before_processing rendering before_outcome before_completed : Point

-- What one call of `processJob` meets.
pub record Run : Type 0 where
  pub job : Job
  pub max_retries : ℕ
  -- the attempts to render
  pub attempts : ℕ → Attempt
  -- whether the pool's context is done when the rendering has failed
  pub shutdown : Bool
  pub duration : ℕ
  -- when the storage reads the clock, in the first `Set` and in the last
  pub started_at : ℕ
  pub ended_at : ℕ
  -- the context that the job is rendered in
  pub ctx : ℕ
  -- the notifier's HTTP client, or no notifier
  pub notifier : Option (Post → Result ℕ)

-- `&queue.JobResult{URL: …, Status: …, …}` with the fields of the job.
abbrev pub result_of : Job → JobStatus → JobResult
result_of job status = record {
  url = job.url;
  status = status;
  pdf = [];
  pdf_key = "";
  pdf_size = 0;
  error = "";
  idempotency_key = job.idempotency_key;
  callback_url = job.callback_url;
  request_id = job.request_id;
  created_at = 0;
  updated_at = 0;
}

abbrev pub failed_result : Job → String → JobResult
failed_result job error = record (result_of job failed) { error = error }

abbrev pub pdf_key_of : Job → String
pdf_key_of job = cat "pdf/" (cat job.id ".pdf")

abbrev pub completed_result : Job → List ℕ → JobResult
completed_result job pdf = record (result_of job completed) {
  pdf_key = pdf_key_of job;
  pdf_size = length pdf;
}

-- The text that is stored for a failed rendering.
unfoldable pub status_error : Bool → Error → String
status_error shutdown e =
    if is_context_canceled e && shutdown then "job interrupted by shutdown" else message e

abbrev pub event_of : Job → JobResult → Event
event_of job r = record {
  job_id = job.id;
  url = r.url;
  status = r.status;
  error = r.error;
  pdf_key = r.pdf_key;
  pdf_size = r.pdf_size;
  request_id = r.request_id;
}

-- `notify`: what is posted.
unfoldable pub notified : Option (Post → Result ℕ) → Job → JobResult → Option Post
unfolding Webhook.notify
notified none job r = none
notified (some exchange) job r =
    let callback_url = or_else r.callback_url job.callback_url in
    if callback_url == ""
    then none
    else (if is_completed r.status
        then (Webhook.notify exchange callback_url (event_of job r)).0
        else if is_failed r.status
        then (Webhook.notify exchange callback_url (event_of job r)).0
        else none)

-- `err == nil && current.Status == queue.StatusCanceled`: the canceled result.
abbrev pub if_canceled : Result JobResult → Option JobResult
if_canceled (err e) = none
if_canceled (ok r) = if is_canceled r.status then some r else none

module _ {S B : Type 0} (store : Store S) (blobs : BlobStore B)
    (others : Point → Shared S B → Shared S B) (run : Run) where
  notify : JobResult → Shared S B → Shared S B
  unfolding notified sent
  notify r w = sent (notified run.notifier run.job r) w

  -- `_ = p.storage.Set(…)` and then `p.notify(…)`, which sees the result as `Set` left it.
  unfoldable pub conclude : JobResult → Shared S B → Shared S B
  unfolding notify
  conclude r w =
      let (r', _, s) = store.set run.ended_at run.job.id r w.storage in
      notify r' (record w { storage = s })

  -- The job was canceled while it was rendered.
  unfoldable pub discard : JobResult → Shared S B → Shared S B
  unfolding notify finished
  discard current w = notify current (finished (status_text canceled) run.duration 0 w)

  unfoldable pub fail : String → Shared S B → Shared S B
  unfolding conclude finished
  fail error w =
      conclude (failed_result run.job error) (finished (status_text failed) run.duration 0 w)

  complete : List ℕ → Shared S B → Shared S B
  unfolding notify finished
  complete pdf w =
      let (r', _, s) = store.set run.ended_at run.job.id (completed_result run.job pdf) w.storage in
      notify r'
        (finished (status_text completed) run.duration (length pdf) (record w { storage = s }))

  -- After `p.blobStore.Put`.
  unfoldable pub after_put : List ℕ → Option Error → Shared S B → Shared S B
  unfolding complete fail
  after_put pdf none w = complete pdf (others before_completed w)
  after_put pdf (some e) w = fail (message e) (others before_completed w)

  -- After the rendering and the `Get` that follows it.
  unfoldable pub after_render : Result (List ℕ) → Option JobResult → Shared S B → Shared S B
  unfolding after_put discard fail status_error
  after_render result (some current) w = discard current w
  after_render (err e) none w = fail (status_error run.shutdown e) (others before_outcome w)
  after_render (ok pdf) none w =
      let w' = others before_outcome w in
      let (e, b) = blobs.put (pdf_key_of run.job) pdf w'.blobs in
      after_put pdf e (record w' { blobs = b })

  -- The deferred calls: the context is canceled, and then the job unregistered.
  unfoldable pub released : Shared S B → Shared S B
  unfolding Cancellation.unregister
  released w = record w {
    canceled = run.ctx ∷ w.canceled;
    cancels = Cancellation.unregister run.job.id w.cancels;
  }

  -- The `Set` to processing and the registration of the job's context.
  unfoldable pub marked : Shared S B → Shared S B
  unfolding Cancellation.register
  marked w =
      let (_, _, s) =
        store.set run.started_at run.job.id (result_of run.job processing) w.storage in
      record w { storage = s; cancels = Cancellation.register run.job.id run.ctx w.cancels }

  -- What the renderer returns.
  unfoldable pub rendered : Result (List ℕ)
  unfolding generate_with_retries
  rendered = (generate_with_retries run.max_retries run.attempts).result

  -- The `Get` after the rendering, and what follows.
  unfoldable pub settle : Shared S B → Shared S B
  unfolding after_render rendered
  settle w =
      let (current, s) = store.get run.job.id w.storage in
      after_render rendered (if_canceled current) (record w { storage = s })

  unfoldable pub process : Shared S B → Shared S B
  unfolding marked settle released
  process w = released (settle (others rendering (marked w)))

  -- After the first `Get`.
  unfoldable pub picked : Option JobResult → Shared S B → Shared S B
  unfolding process
  picked (some r) w = w
  picked none w = process (others before_processing w)

  -- `processJob`.
  unfoldable pub process_job : Shared S B → Shared S B
  unfolding picked
  process_job w =
      let (current, s) = store.get run.job.id w.storage in
      picked (if_canceled current) (record w { storage = s })
