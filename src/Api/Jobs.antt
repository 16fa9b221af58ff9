-- ===== src/Api/Jobs.antt =====
-- internal/api/handler.go: `GetJob`, `CancelJob`, `Healthz` and `Readyz`.
pub mod Reads
pub mod Cancels
use chroma_flow.Base.{
  ℕ, String, cat, Bool, true, false, Option, none, some, List, [], ◌∷◌, if◌then◌else◌,
}
use chroma_flow.Cancellation
use chroma_flow.Queue.Types.{Result, ok, err, JobResult, is_completed}
use chroma_flow.Storage.Store.{Store}
use chroma_flow.Blob.Store.{BlobStore}
use chroma_flow.Api.Writer.{
  Writer, job_response, bytes, status_response, set_header, write_header, write,
}
use chroma_flow.Api.World.{World, write_error}

abbrev as_attachment : String → Writer → Writer
as_attachment id wr =
    set_header "Content-Disposition" (cat "attachment; filename=" (cat id ".pdf"))
      (set_header "Content-Type" "application/pdf" wr)

abbrev pub with_canceled : Option ℕ → List ℕ → List ℕ
with_canceled none canceled = canceled
with_canceled (some ctx) canceled = ctx ∷ canceled

module _ {S Q B : Type 0} where
  on_writer : (Writer → Writer) → World S Q B → World S Q B
  on_writer f w = record w { writer = f w.writer }

  -- The status of a job as JSON.
  unfoldable pub report : String → JobResult → World S Q B → World S Q B
  unfolding on_writer set_header write write_header
  report id result w =
      on_writer
        (λ wr.
          write (job_response id result.url result.status result.error)
            (set_header "Content-Type" "application/json" wr))
        w

  -- After `h.blobs.Get`.
  unfoldable pub send_pdf : String → Result (List ℕ) → World S Q B → World S Q B
  unfolding on_writer write write_header write_error
  send_pdf request_id (err e) w = write_error request_id 500 "pdf_not_found" "PDF not found" w
  send_pdf request_id (ok pdf) w = on_writer (write (bytes pdf)) w

  -- `h.cancels.Cancel`.
  unfoldable pub cancel_context : String → World S Q B → World S Q B
  unfolding Cancellation.cancel
  cancel_context id w = record w {
    canceled = with_canceled (Cancellation.cancel id w.cancels).0 w.canceled;
  }

  unfoldable pub show_canceled : String → String → Result JobResult → World S Q B → World S Q B
  unfolding report write_error
  show_canceled request_id id (err e) w =
      write_error request_id 404 "job_not_found" "Job not found" w
  show_canceled request_id id (ok result) w = report id result w

  answer : String → World S Q B → World S Q B
  unfolding on_writer set_header write write_header
  answer status w =
      on_writer
        (λ wr.
          write (status_response status)
            (write_header 200 (set_header "Content-Type" "application/json" wr)))
        w

  unfoldable pub healthz : World S Q B → World S Q B
  unfolding answer
  healthz w = answer "ok" w

  unfoldable pub readyz : World S Q B → World S Q B
  unfolding answer
  readyz w = answer "ready" w

module _ {S Q B : Type 0} (store : Store S) where
  -- `CancelJob`: the context is canceled after the storage was told, found or not.
  unfoldable pub cancel_job : ℕ → String → String → World S Q B → World S Q B
  unfolding show_canceled cancel_context
  cancel_job now request_id id w =
      let (r, s) = store.cancel now id w.storage in
      show_canceled request_id id r (cancel_context id (record w { storage = s }))

module _ {S Q B : Type 0} (store : Store S) (blobs : BlobStore B) where
  -- After `h.storage.Get`.
  unfoldable pub show_job : String → String → Result JobResult → World S Q B → World S Q B
  unfolding on_writer send_pdf report set_header write_error
  show_job request_id id (err e) w = write_error request_id 404 "job_not_found" "Job not found" w
  show_job request_id id (ok result) w =
      if is_completed result.status
      then (let (pdf, b) = blobs.get result.pdf_key w.blobs in
          send_pdf request_id pdf (record (on_writer (as_attachment id) w) { blobs = b }))
      else report id result w

  -- `GetJob`, of a request with an id in its context.
  unfoldable pub get_job : String → String → World S Q B → World S Q B
  unfolding show_job
  get_job request_id id w =
      let (r, s) = store.get id w.storage in show_job request_id id r (record w { storage = s })
