-- ===== src/Pipeline/Delivery.antt =====
-- A submitted job whose rendering succeeds is delivered.
use chroma_flow.Base.{
  ℕ, suc, String, cat, ◌≡◌, refl, sym, ap, ◌∙◌, subst, true, false, Option, none, some, List, [],
  arith, if◌then◌else◌, eq_refl,
}
use chroma_flow.Queue.Types.{Job, JobResult, processing, is_canceled, is_completed, Result, ok}
use chroma_flow.Queue.Memory.{MemoryQueue, memory_backend, push, pop, Popped, got}
use chroma_flow.Storage.Store.{Store, StoreLaws, NeverFails, IsNamed, filled}
use chroma_flow.Blob.Store.{BlobStore}
use chroma_flow.Api.Writer.{Payload, submit_response, bytes, fresh}
use chroma_flow.Api.World.{World}
use chroma_flow.Api.Submit.{Call, Draw, Submission, valid, job_of, pending_result, submit_checked}
use chroma_flow.Api.Submit.Branches.{Responds}
use chroma_flow.Api.Submit.Accepted.{IsFree, submit_accepts}
use chroma_flow.Api.Jobs.{get_job}
use chroma_flow.Api.Jobs.Reads.{expected, get_job-Responds}
use chroma_flow.Worker.Pool.{Shared}
use chroma_flow.Worker.Retry.{generate_with_retries}
use chroma_flow.Worker.Process.{
  Point, before_processing, rendering, before_outcome, before_completed, Run, result_of,
  completed_result, pdf_key_of, marked, rendered, process_job,
}
use chroma_flow.Worker.Process.Steps.{
  canceled_view, end_result, put_error, before_last_set, when_rendered,
}
use chroma_flow.Worker.Process.Outcomes.{process_job-ends}
use chroma_flow.Pipeline.{shared_of, world_of, run_of, Undisturbed, Stores}

filled-status :
    (now : ℕ) (o : Option JobResult) (r : JobResult) → (filled now o r).status ≡ r.status
filled-status now none r = refl
filled-status now (some old) r = refl

filled-pdf_key :
    (now : ℕ) (o : Option JobResult) (r : JobResult) → (filled now o r).pdf_key ≡ r.pdf_key
filled-pdf_key now none r = refl
filled-pdf_key now (some old) r = refl

module _ {S : Type 0} {store : Store S} (laws : StoreLaws store) where
  -- The status that is stored of a result with a status of the source.
  stored-status :
      (now : ℕ) (o : Option JobResult) (r : JobResult)
      → IsNamed r.status
      → (laws.kept (filled now o r)).status ≡ r.status
  stored-status now o r named =
      laws.kept-status (filled now o r) (subst IsNamed (sym (filled-status now o r)) named)
      ∙ filled-status now o r

live-of_status :
    (r : JobResult) (o : Option JobResult)
    → o ≡ some r
    → is_canceled r.status ≡ false
    → canceled_view o ≡ none
live-of_status r o e h = rw e (rw h)

-- A worker that renders a job which is not canceled, and which nobody else touches.
module _ {S B : Type 0} (store : Store S) (laws : StoreLaws store) (reliable : NeverFails store)
    (blobs : BlobStore B) (others : Point → Shared S B → Shared S B) (run : Run) (pdf : List ℕ)
    (stores : Stores blobs (pdf_key_of run.job) pdf)
    (alone : Undisturbed laws blobs run.job.id (pdf_key_of run.job) others)
    (renders : (generate_with_retries run.max_retries run.attempts).result ≡ ok pdf)
    (w : Shared S B) (live : canceled_view (laws.view w.storage run.job.id) ≡ none) where
  -- The job is stored as processing when its rendering is over.
  processing_live :
      canceled_view (laws.view (when_rendered store blobs others run w).storage run.job.id) ≡ none
  unfolding marked
  processing_live =
      let w₀ = others before_processing w in
      let r = result_of run.job processing in
      let s = (store.set run.started_at run.job.id r w₀.storage).2 in
      live-of_status (laws.kept (filled run.started_at (laws.view w₀.storage run.job.id) r)) _
        (alone.job_kept rendering (marked store blobs others run w₀)
          ∙ laws.view-set run.started_at run.job.id r w₀.storage run.job.id
              (reliable run.started_at run.job.id r w₀.storage)
          ∙ ap
              (λ b.
                if b
                then some (laws.kept (filled run.started_at (laws.view w₀.storage run.job.id) r))
                else laws.view w₀.storage run.job.id)
              (eq_refl run.job.id))
        (ap is_canceled (stored-status laws run.started_at (laws.view w₀.storage run.job.id) r tt))

  abbrev finished_world : Shared S B
  finished_world = process_job store blobs others run w

  -- The result that is stored in the end, beside what stood there.
  process_job-delivers :
      (o : Option JobResult) × (laws.view finished_world.storage run.job.id
        ≡ some (laws.kept (filled run.ended_at o (completed_result run.job pdf))))
      × ((blobs.get (pdf_key_of run.job) finished_world.blobs).0 ≡ ok pdf)
  unfolding rendered
  process_job-delivers =
      let w₁ = when_rendered store blobs others run w in
      let w₂ = others before_outcome w₁ in
      let put = blobs.put (pdf_key_of run.job) pdf w₂.blobs in
      let last = before_last_set blobs others run (ok pdf) w₁ in
      let ends =
        subst
          (λ (r : Result (List ℕ)).
            (laws.view finished_world.storage run.job.id
              ≡ some (
                  laws.kept (
                    filled run.ended_at
                      (laws.view (before_last_set blobs others run r w₁).storage run.job.id)
                      (end_result run r (put_error blobs others run r w₁)))))
            × (finished_world.blobs ≡ (before_last_set blobs others run r w₁).blobs))
          renders (process_job-ends store laws blobs others run w reliable live processing_live) in
      (
        laws.view last.storage run.job.id,
        ends.0
            ∙ ap
                (λ e. some (
                  laws.kept (
                    filled run.ended_at (laws.view last.storage run.job.id)
                      (end_result run (ok pdf) e))))
                (stores.puts w₂.blobs),
        ap (λ b. (blobs.get (pdf_key_of run.job) b).0) ends.1
            ∙ alone.blob_kept before_completed (record w₂ { blobs = put.1 })
            ∙ stores.gets w₂.blobs,
      )

-- What a client is told of a completed job whose PDF the blob store returns.
expected-completed :
    (laws_view : Option JobResult) (r : JobResult) (blob : String → Result (List ℕ))
    (request_id id : String) {pdf : List ℕ}
    → laws_view ≡ some r
    → is_completed r.status ≡ true
    → blob r.pdf_key ≡ ok pdf
    → expected laws_view blob request_id id ≡ (200, bytes pdf)
expected-completed o r blob request_id id e h k = rw e (rw h (rw k))

-- The states after the submission, after the worker's `Pop`, when the worker is done with the job,
-- and after a request for the job.
module _ {S B : Type 0} (store : Store S) (c : Call) (d : Draw) (sub : Submission)
    (w : World S MemoryQueue B) where
  abbrev pub submitted : World S MemoryQueue B
  submitted = submit_checked store memory_backend c d (valid sub) w

  abbrev pub popped : Popped × MemoryQueue
  popped = pop none false submitted.queue

module _ {S B : Type 0} (store : Store S) (blobs : BlobStore B)
    (others : Point → Shared S B → Shared S B) (c : Call) (d : Draw) (sub : Submission) (run : Run)
    (w : World S MemoryQueue B) where
  abbrev pub processed : Shared S B
  processed =
      process_job store blobs others (run_of (job_of sub d) run)
        (shared_of (submitted store c d sub w))

  abbrev pub answered : World S MemoryQueue B
  answered =
      get_job store blobs sub.request_id d.uuid (world_of (popped store c d sub w).1 processed)

popped-job :
    (job : Job) (n : ℕ) {q : MemoryQueue}
    → q ≡ record { jobs = []; size = suc n; receivers = 0 }
    → ((push job q).0 ≡ none) × ((pop none false (push job q).1).0 ≡ got job)
unfolding push pop
popped-job job n e = rw e (ground arith, ground arith)

module _ {S B : Type 0} (store : Store S) (laws : StoreLaws store) (reliable : NeverFails store)
    (blobs : BlobStore B) (others : Point → Shared S B → Shared S B) (c : Call) (d : Draw)
    (sub : Submission) (run : Run) (pdf : List ℕ) (w : World S MemoryQueue B) where
  abbrev job : Job
  job = job_of sub d

  submitted_live :
      laws.view (submitted store c d sub w).storage d.uuid
        ≡ some (laws.kept (filled d.stored_at (laws.view w.storage d.uuid) (pending_result sub d)))
      → canceled_view (laws.view (submitted store c d sub w).storage d.uuid) ≡ none
  submitted_live e = live-of_status _ _ e (
      ap is_canceled
        (stored-status laws d.stored_at (laws.view w.storage d.uuid) (pending_result sub d) tt))

  -- A valid request whose idempotency key nobody holds, where the storage's `Set` does not fail and
  -- the memory queue is empty and has room: it is answered with status 202 and the job id; a worker's
  -- next `Pop` returns its job; and where the rendering succeeds, the blob store takes and returns
  -- the PDF, and no other goroutine touches this job or its blob meanwhile, a request for the job
  -- after `processJob` is answered with status 200 and the bytes of the PDF.
  pub submitted_is_delivered :
      (n : ℕ)
      → w.writer ≡ fresh
      → w.queue ≡ record { jobs = []; size = suc n; receivers = 0 }
      → IsFree store laws sub.idempotency_key w.storage
      → Stores blobs (pdf_key_of job) pdf
      → Undisturbed laws blobs d.uuid (pdf_key_of job) others
      → (generate_with_retries run.max_retries run.attempts).result ≡ ok pdf
      → Responds 202 (submit_response d.uuid (cat "/pdf/" d.uuid) false) (submitted store c d sub w)
        × ((popped store c d sub w).0 ≡ got job)
        × Responds 200 (bytes pdf) (answered store blobs others c d sub run w)
  submitted_is_delivered n h empty free stores alone renders =
      let accepted =
        submit_accepts store laws memory_backend c d sub w free h
          (reliable d.stored_at d.uuid (pending_result sub d) _) (popped-job job n empty).0 in
      let stored =
        accepted.1 d.uuid
        ∙ ap
            (λ b.
              if b
              then some (
                  laws.kept
                    (filled d.stored_at (laws.view w.storage d.uuid) (pending_result sub d)))
              else laws.view w.storage d.uuid)
            (eq_refl d.uuid) in
      let (o, result, blob) =
        process_job-delivers store laws reliable blobs others (run_of job run) pdf stores alone
          renders (shared_of (submitted store c d sub w)) (submitted_live stored) in
      let r = laws.kept (filled run.ended_at o (completed_result job pdf)) in
      let key : r.pdf_key ≡ pdf_key_of job =
        laws.kept-pdf_key _ ∙ filled-pdf_key run.ended_at o (completed_result job pdf) in
      (
        accepted.0,
        ap (λ q. (pop none false q).0) accepted.3 ∙ (popped-job job n empty).1,
        subst (λ (e : ℕ × Payload). Responds e.0 e.1 (answered store blobs others c d sub run w))
            (expected-completed _ r
              (λ k. (blobs.get k (processed store blobs others c d sub run w).blobs).0)
              sub.request_id d.uuid result
              (ap is_completed (stored-status laws run.ended_at o (completed_result job pdf) tt))
              (ap (λ k. (blobs.get k (processed store blobs others c d sub run w).blobs).0) key
                ∙ blob))
            (get_job-Responds store laws blobs sub.request_id d.uuid
              (world_of (popped store c d sub w).1 (processed store blobs others c d sub run w))
              refl).0,
      )
