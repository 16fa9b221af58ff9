-- ===== src/Api/Jobs/Cancels.antt =====
-- internal/api/handler.go: what `CancelJob` does.
use chroma_flow.Base.{
  ℕ, String, ◌≡◌, Option, none, some, ◌==◌, if◌then◌else◌, arith, ap, ◌∙◌, refl, inl, inr,
  Bool-cases, subst,
}
use chroma_flow.Cancellation
use chroma_flow.Queue.Types.{JobResult, is_terminal}
use chroma_flow.Storage.Store.{Store, StoreLaws, canceled_result, canceled_with, as_canceled, found}
use chroma_flow.Api.Writer.{Payload, job_response, error_response, fresh}
use chroma_flow.Api.World.{World}
use chroma_flow.Api.Submit.Branches.{Responds}
use chroma_flow.Api.Jobs.{cancel_job, show_canceled, with_canceled, cancel_context}

-- What a client is told, of what is stored after the call.
abbrev pub canceled_answer : Option JobResult → String → String → ℕ × Payload
canceled_answer none request_id id =
    (404, error_response "job_not_found" "Job not found" request_id)
canceled_answer (some r) request_id id = (200, job_response id r.url r.status r.error)

show_canceled-found :
    {S Q B : Type 0} (o : Option JobResult) (request_id id : String) (w : World S Q B)
    → w.writer ≡ fresh
    → let w' = show_canceled request_id id (found o) w in
      Responds (canceled_answer o request_id id).0 (canceled_answer o request_id id).1 w'
      × (w'.storage ≡ w.storage)
      × (w'.queue ≡ w.queue)
      × (w'.canceled ≡ w.canceled)
unfolding show_canceled
show_canceled-found none request_id id w h = ground arith
show_canceled-found (some r) request_id id w h = ground arith

-- What is told of a job that is canceled is what the cancellation makes of it.
canceled_answer-told :
    {S : Type 0} {store : Store S} (laws : StoreLaws store) (now : ℕ) (o : Option JobResult)
    (request_id id : String)
    → canceled_answer (canceled_with (laws.told now) o) request_id id
      ≡ canceled_answer (canceled_with as_canceled o) request_id id
canceled_answer-told laws now none request_id id = refl
canceled_answer-told laws now (some r) request_id id = elim (Bool-cases (is_terminal r.status)) [
  | inl ended ↦ rw ended
  | inr live ↦
      let (url, status, error) = laws.told_lem now r in rw live (rw url (rw status (rw error refl)))
]

module _ {S Q B : Type 0} (store : Store S) (laws : StoreLaws store) (now : ℕ)
    (request_id id : String) (w : World S Q B) where
  -- `CancelJob` answers with status 404 where nothing is stored for the job, with what is stored
  -- if the job has completed, failed or been canceled, and otherwise with the job as canceled.
  -- What is stored is then as it was in the first two cases, and the job as canceled, as the
  -- storage keeps it, in the third; no other job changes, and neither does the queue. In any case
  -- the context that the registry has for the job is canceled.
  pub cancel_job-Responds :
      w.writer ≡ fresh
      → let w' = cancel_job store now request_id id w in
        let after = canceled_result laws.kept now (laws.view w.storage id) in
        let (status, payload) =
          canceled_answer (canceled_with as_canceled (laws.view w.storage id)) request_id id in
        Responds status payload w'
        × ((j : String)
            → laws.view w'.storage j ≡ (if id == j then after else laws.view w.storage j))
        × (w'.queue ≡ w.queue)
        × (w'.canceled ≡ with_canceled (Cancellation.cancel id w.cancels).0 w.canceled)
  unfolding cancel_job
  cancel_job-Responds h =
      let o = laws.view w.storage id in
      let w₁ : World S Q B =
        cancel_context id (record w { storage = (store.cancel now id w.storage).1 }) in
      let (answered, stored, queued, told) =
        show_canceled-found (canceled_with (laws.told now) o) request_id id w₁
          (unfold cancel_context in h) in
      rw (laws.result-cancel now id w.storage) (
        subst
            (λ a.
              Responds a.0 a.1
                (show_canceled request_id id (found (canceled_with (laws.told now) o)) w₁))
            (canceled_answer-told laws now o request_id id) answered,
        (λ j. ap (λ s. laws.view s j) stored ∙ laws.view-cancel now id w.storage j),
        queued,
        told,
      )
