-- ===== src/Worker/Process/Steps.antt =====
-- internal/worker/worker.go: what the parts of `processJob` store, over the laws of the storage.
use chroma_flow.Base.{
  ℕ, String, ◌≡◌, refl, Option, none, some, List, eq_refl, if◌then◌else◌, ap, ◌∙◌,
}
use chroma_flow.Queue.Types.{Error, message, Result, ok, err, is_canceled, JobResult}
use chroma_flow.Storage.Store.{Store, StoreLaws, NeverFails, found, filled}
use chroma_flow.Blob.Store.{BlobStore}
use chroma_flow.Worker.Pool.{Shared}
use chroma_flow.Worker.Process.{
  Point, before_processing, rendering, before_outcome, before_completed, Run, failed_result,
  completed_result, pdf_key_of, status_error, if_canceled, conclude, fail, complete, after_put,
  after_render, marked,
}

-- The result with which a job ends, for what the renderer returned and the error of `Put`.
abbrev pub end_result : Run → Result (List ℕ) → Option Error → JobResult
end_result run (err e) put_error = failed_result run.job (status_error run.shutdown e)
end_result run (ok pdf) (some e) = failed_result run.job (message e)
end_result run (ok pdf) none = completed_result run.job pdf

-- A canceled result that is stored for a job.
abbrev pub canceled_view : Option JobResult → Option JobResult
canceled_view none = none
canceled_view (some r) = if is_canceled r.status then some r else none

if_canceled-found : (o : Option JobResult) → if_canceled (found o) ≡ canceled_view o
if_canceled-found none = refl
if_canceled-found (some r) = refl

module _ {S : Type 0} (store : Store S) (laws : StoreLaws store) (id : String) (s : S) where
  pub if_canceled-get : if_canceled (store.get id s).0 ≡ canceled_view (laws.view s id)
  if_canceled-get =
      ap (λ g. if_canceled g.0) (laws.get_lem id s) ∙ if_canceled-found (laws.view s id)

  pub storage-get : (store.get id s).1 ≡ s
  storage-get = ap (λ g. g.1) (laws.get_lem id s)

module _ {S B : Type 0} (blobs : BlobStore B) (others : Point → Shared S B → Shared S B)
    (run : Run) where
  -- The error of `Put`, for what the renderer returned, in the states after the second `Get`.
  abbrev pub put_error : Result (List ℕ) → Shared S B → Option Error
  put_error (err e) w = none
  put_error (ok pdf) w = (blobs.put (pdf_key_of run.job) pdf (others before_outcome w).blobs).0

  -- The states before the last `Set`, with the PDF in the blob store where there is one.
  abbrev pub before_last_set : Result (List ℕ) → Shared S B → Shared S B
  before_last_set (err e) w = others before_outcome w
  before_last_set (ok pdf) w =
      let w' = others before_outcome w in
      others before_completed
        (record w' { blobs = (blobs.put (pdf_key_of run.job) pdf w'.blobs).1 })

module _ {S B : Type 0} (store : Store S) (laws : StoreLaws store) (reliable : NeverFails store)
    (blobs : BlobStore B) (others : Point → Shared S B → Shared S B) (run : Run) where
  abbrev pub job_view : Shared S B → Option JobResult
  job_view w = laws.view w.storage run.job.id

  stored_own :
      (now : ℕ) (r : JobResult) (s : S)
      → laws.view (store.set now run.job.id r s).2 run.job.id
        ≡ some (laws.kept (filled now (laws.view s run.job.id) r))
  stored_own now r s =
      laws.view-set now run.job.id r s run.job.id (reliable now run.job.id r s)
      ∙ ap
          (λ b.
            if b
            then some (laws.kept (filled now (laws.view s run.job.id) r))
            else laws.view s run.job.id)
          (eq_refl run.job.id)

  view-conclude :
      (r : JobResult) (w : Shared S B)
      → job_view (conclude store blobs others run r w)
        ≡ some (laws.kept (filled run.ended_at (job_view w) r))
  unfolding conclude
  view-conclude r w = stored_own run.ended_at r w.storage

  view-fail :
      (error : String) (w : Shared S B)
      → job_view (fail store blobs others run error w)
        ≡ some (laws.kept (filled run.ended_at (job_view w) (failed_result run.job error)))
  unfolding fail
  view-fail error w = stored_own run.ended_at (failed_result run.job error) w.storage

  view-complete :
      (pdf : List ℕ) (w : Shared S B)
      → job_view (complete store blobs others run pdf w)
        ≡ some (laws.kept (filled run.ended_at (job_view w) (completed_result run.job pdf)))
  unfolding complete
  view-complete pdf w = stored_own run.ended_at (completed_result run.job pdf) w.storage

  view-after_put :
      (pdf : List ℕ) (e : Option Error) (w : Shared S B)
      → job_view (after_put store blobs others run pdf e w)
        ≡ some (
            laws.kept (
              filled run.ended_at
                (job_view (others before_completed w))
                (end_result run (ok pdf) e)))
  unfolding after_put
  view-after_put pdf none w = view-complete pdf (others before_completed w)
  view-after_put pdf (some e) w = view-fail (message e) (others before_completed w)

  -- A job that was not canceled when its rendering was over ends with the result of the rendering,
  -- whatever stands there by then: that only lends it what the new result leaves empty.
  pub view-after_render :
      (r : Result (List ℕ)) (w : Shared S B)
      → job_view (after_render store blobs others run r none w)
        ≡ some (
            laws.kept (
              filled run.ended_at
                (job_view (before_last_set blobs others run r w))
                (end_result run r (put_error blobs others run r w))))
  unfolding after_render
  view-after_render (err e) w = view-fail (status_error run.shutdown e) (others before_outcome w)
  view-after_render (ok pdf) w =
      let w' = others before_outcome w in
      let put = blobs.put (pdf_key_of run.job) pdf w'.blobs in
      view-after_put pdf put.0 (record w' { blobs = put.1 })

  blobs-after_put :
      (pdf : List ℕ) (e : Option Error) (w : Shared S B)
      → (after_put store blobs others run pdf e w).blobs ≡ (others before_completed w).blobs
  unfolding after_put complete fail conclude
  blobs-after_put pdf none w = refl
  blobs-after_put pdf (some e) w = refl

  pub blobs-after_render :
      (r : Result (List ℕ)) (w : Shared S B)
      → (after_render store blobs others run r none w).blobs
        ≡ (before_last_set blobs others run r w).blobs
  unfolding after_render fail conclude
  blobs-after_render (err e) w = refl
  blobs-after_render (ok pdf) w =
      let w' = others before_outcome w in
      let put = blobs.put (pdf_key_of run.job) pdf w'.blobs in
      blobs-after_put pdf put.0 (record w' { blobs = put.1 })

-- The states when the rendering is over.
abbrev pub when_rendered :
    {S B : Type 0} (store : Store S) (blobs : BlobStore B)
    (others : Point → Shared S B → Shared S B) (run : Run)
    → Shared S B
    → Shared S B
when_rendered store blobs others run w =
    others rendering (marked store blobs others run (others before_processing w))
