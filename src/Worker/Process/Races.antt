-- ===== src/Worker/Process/Races.antt =====
-- internal/worker/worker.go: cancellations that the worker does not see.
use chroma_flow.Base.{
  ℕ, String, ◌≡◌, refl, ◌⊎◌, inl, inr, false, Option, none, some, List, arith, ap, ◌∙◌, eq_refl,
  if◌then◌else◌, sym, subst,
}
use chroma_flow.Queue.Types.{
  Error, Result, ok, err, processing, completed, failed, canceled, is_terminal, is_canceled,
  JobResult, JobStatus,
}
use chroma_flow.Storage.Store.{Store, StoreLaws, NeverFails, filled, canceled_with, found, IsNamed}
use chroma_flow.Blob.Store.{BlobStore}
use chroma_flow.Worker.Pool.{Shared}
use chroma_flow.Worker.Process.{
  Point, before_processing, Run, marked, rendered, process_job, result_of,
}
use chroma_flow.Worker.Process.Steps.{
  when_rendered, put_error, before_last_set, end_result, canceled_view,
}
use chroma_flow.Worker.Process.Outcomes.{process_job-ends}

-- A handler's `Cancel` of the job between the worker's first `Get` and its `Set` to processing,
-- and nothing else.
pub cancels_before_processing :
    {S B : Type 0} (store : Store S) (now : ℕ) (id : String) → Point → Shared S B → Shared S B
cancels_before_processing store now id before_processing w = record w {
  storage = (store.cancel now id w.storage).1;
}
cancels_before_processing store now id _ w = w

-- How a job ended that the worker did not see canceled.
abbrev pub HasEnded : Option JobResult → Type 0
HasEnded o = (r : JobResult) × (o ≡ some r) × ((r.status ≡ completed) ⊎ (r.status ≡ failed))

status-filled :
    (now : ℕ) (old : Option JobResult) (r : JobResult) → (filled now old r).status ≡ r.status
status-filled now none r = refl
status-filled now (some old) r = refl

-- A storage keeps the statuses of the source.
kept-status :
    {S : Type 0} (store : Store S) (laws : StoreLaws store) (status : JobStatus) (now : ℕ)
    (old : Option JobResult) (r : JobResult)
    → IsNamed status
    → r.status ≡ status
    → (laws.kept (filled now old r)).status ≡ status
kept-status store laws status now old r named e =
    let same = status-filled now old r ∙ e in
    laws.kept-status (filled now old r) (subst IsNamed (sym same) named) ∙ same

end_result-status :
    (run : Run) (r : Result (List ℕ)) (e : Option Error)
    → ((end_result run r e).status ≡ completed) ⊎ ((end_result run r e).status ≡ failed)
end_result-status run (err e) p = inr refl
end_result-status run (ok pdf) (some e) = inr refl
end_result-status run (ok pdf) none = inl refl

module _ {S B : Type 0} (store : Store S) (laws : StoreLaws store) (reliable : NeverFails store)
    (blobs : BlobStore B) (run : Run) (w : Shared S B) where
  -- The result that the worker's `Set` to processing leaves is no canceled one.
  marked-live :
      (others : Point → Shared S B → Shared S B) (v : Shared S B)
      → canceled_view (laws.view (marked store blobs others run v).storage run.job.id) ≡ none
  unfolding marked
  marked-live others v =
      let r = result_of run.job processing in
      let old = laws.view v.storage run.job.id in
      let stored : laws.view (store.set run.started_at run.job.id r v.storage).2 run.job.id
          ≡ some (laws.kept (filled run.started_at old r)) =
        laws.view-set run.started_at run.job.id r v.storage run.job.id
          (reliable run.started_at run.job.id r v.storage)
        ∙ ap (λ b. if b then some (laws.kept (filled run.started_at old r)) else old)
            (eq_refl run.job.id) in
      ap canceled_view stored
      ∙ ap (λ t. if is_canceled t then some (laws.kept (filled run.started_at old r)) else none)
          (kept-status store laws processing run.started_at old r tt refl)

  -- Over a storage whose `Set` never fails: a client cancels a stored job that has not ended, between the worker's first `Get` and its
  -- `Set` to processing. The client is told that the job is canceled; the worker renders it all the
  -- same, and the job ends completed or failed.
  pub cancel_is_lost :
      (now : ℕ) {r : JobResult}
      → laws.view w.storage run.job.id ≡ some r
      → is_terminal r.status ≡ false
      → let others = cancels_before_processing store now run.job.id in
        ((told : JobResult) × ((store.cancel now run.job.id w.storage).0 ≡ ok told)
          × (told.status ≡ canceled))
        × HasEnded (laws.view (process_job store blobs others run w).storage run.job.id)
  unfolding cancels_before_processing
  cancel_is_lost now {r} stored live =
      let others : Point → Shared S B → Shared S B =
        cancels_before_processing store now run.job.id in
      let w₁ = when_rendered store blobs others run w in
      let pdf = rendered store blobs others run in
      let end = end_result run pdf (put_error blobs others run pdf w₁) in
      let old = laws.view (before_last_set blobs others run pdf w₁).storage run.job.id in
      let (e, _) =
        process_job-ends store laws blobs others run w reliable
          (ap canceled_view stored ∙ ground arith)
          (marked-live others (others before_processing w)) in
      (
        (
          laws.told now r,
          laws.result-cancel now run.job.id w.storage
              ∙ ap (λ o. found (canceled_with (laws.told now) o)) stored
              ∙ ground arith,
          (laws.told_lem now r).1,
        ),
        (
          laws.kept (filled run.ended_at old end),
          e,
          elim (end_result-status run pdf (put_error blobs others run pdf w₁)) [
            | inl c ↦ inl (kept-status store laws completed run.ended_at old end tt c)
            | inr f ↦ inr (kept-status store laws failed run.ended_at old end tt f)
          ],
        ),
      )
