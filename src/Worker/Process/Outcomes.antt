-- ===== src/Worker/Process/Outcomes.antt =====
-- internal/worker/worker.go: how `processJob` ends.
use chroma_flow.Base.{ℕ, ◌≡◌, refl, false, Option, none, some, List, ◌∷◌, arith, ap}
use chroma_flow.Cancellation
use chroma_flow.Cancellation.{cancel-unregister_self}
use chroma_flow.Queue.Types.{JobResult}
use chroma_flow.Storage.Store.{Store, StoreLaws, NeverFails, filled}
use chroma_flow.Blob.Store.{BlobStore}
use chroma_flow.Worker.Pool.{Shared, with_post}
use chroma_flow.Worker.Process.{
  Point, before_processing, Run, discard, after_render, released, rendered, settle, process, picked,
  process_job, notified,
}
use chroma_flow.Worker.Process.Steps.{
  end_result, canceled_view, view-after_render, if_canceled-get, storage-get, when_rendered,
  put_error, before_last_set, blobs-after_render,
}

-- No canceled result posts a webhook.
notified-canceled :
    (run : Run) (o : Option JobResult) {r : JobResult}
    → canceled_view o ≡ some r
    → notified run.notifier run.job r ≡ none
unfolding notified
notified-canceled run o e = ground arith

module _ {S B : Type 0} (store : Store S) (laws : StoreLaws store) (blobs : BlobStore B)
    (others : Point → Shared S B → Shared S B) (run : Run) (w : Shared S B) where
  got_none :
      canceled_view (laws.view w.storage run.job.id) ≡ none
      → process_job store blobs others run w
        ≡ process store blobs others run (others before_processing w)
  unfolding process_job picked
  got_none e =
      rw (if_canceled-get store laws run.job.id w.storage)
        (rw e (rw (storage-get store laws run.job.id w.storage)))

  settle-canceled :
      {r : JobResult}
      → canceled_view (laws.view w.storage run.job.id) ≡ some r
      → settle store blobs others run w ≡ discard store blobs others run r w
  unfolding settle after_render
  settle-canceled e =
      rw (if_canceled-get store laws run.job.id w.storage)
        (rw e (rw (storage-get store laws run.job.id w.storage)))

  settle-live :
      canceled_view (laws.view w.storage run.job.id) ≡ none
      → settle store blobs others run w
        ≡ after_render store blobs others run (rendered store blobs others run) none w
  unfolding settle
  settle-live e =
      rw (if_canceled-get store laws run.job.id w.storage)
        (rw e (rw (storage-get store laws run.job.id w.storage)))

  -- A job that is canceled before a worker picks it up is skipped: nothing changes.
  pub process_job-skips :
      {r : JobResult}
      → canceled_view (laws.view w.storage run.job.id) ≡ some r
      → process_job store blobs others run w ≡ w
  unfolding process_job picked
  process_job-skips e =
      rw (if_canceled-get store laws run.job.id w.storage)
        (rw e (rw (storage-get store laws run.job.id w.storage)))

module _ {S B : Type 0} (store : Store S) (laws : StoreLaws store) (blobs : BlobStore B)
    (others : Point → Shared S B → Shared S B) (run : Run) (w : Shared S B) where
  -- A job that is canceled while it is rendered stays as the cancellation left it: the storage,
  -- the blobs and the webhooks that were posted are those from when the rendering was over,
  -- whatever the renderer returned.
  pub process_job-discards :
      {r : JobResult}
      → canceled_view (laws.view w.storage run.job.id) ≡ none
      → canceled_view (laws.view (when_rendered store blobs others run w).storage run.job.id)
        ≡ some r
      → let w₁ = when_rendered store blobs others run w in
        let w' = process_job store blobs others run w in
        (w'.storage ≡ w₁.storage) × (w'.blobs ≡ w₁.blobs) × (w'.posts ≡ w₁.posts)
  process_job-discards {r} live gone =
      let w₁ = when_rendered store blobs others run w in
      rw (got_none store laws blobs others run w live) (
        unfold process released in
        rw (settle-canceled store laws blobs others run w₁ gone) (
          unfold discard in
          (
            refl,
            refl,
            ap (λ post. with_post post w₁.posts)
                (notified-canceled run (laws.view w₁.storage run.job.id) gone),
          )))

  -- Over a storage whose `Set` never fails: a job that was not canceled when the worker picked it
  -- up, and is not when the rendering is over, ends with the result of the rendering, as the
  -- storage keeps it: completed with the key and the size of the PDF, or failed with the text of the error of the renderer or of the blob store's `Put`, whatever
  -- other goroutines do to it from then on. The result that stands there before the last `Set`
  -- only lends its creation time and, where the job's own are empty, its keys; and the blob store
  -- is left as it is then, with what `Put` made of it.
  pub process_job-ends :
      NeverFails store
      → canceled_view (laws.view w.storage run.job.id) ≡ none
      → canceled_view (laws.view (when_rendered store blobs others run w).storage run.job.id) ≡ none
      → let w₁ = when_rendered store blobs others run w in
        let pdf = rendered store blobs others run in
        let last = before_last_set blobs others run pdf w₁ in
        let w' = process_job store blobs others run w in
        (laws.view w'.storage run.job.id
          ≡ some (
              laws.kept (
                filled run.ended_at
                  (laws.view last.storage run.job.id)
                  (end_result run pdf (put_error blobs others run pdf w₁)))))
        × (w'.blobs ≡ last.blobs)
  process_job-ends reliable live live' =
      let w₁ = when_rendered store blobs others run w in
      let pdf = rendered store blobs others run in
      rw (got_none store laws blobs others run w live) (
        unfold process released in
        rw (settle-live store laws blobs others run w₁ live') (
          view-after_render store laws reliable blobs others run pdf w₁,
          blobs-after_render store laws reliable blobs others run pdf w₁,
        ))

  -- When a worker has processed a job that was not canceled before, the job's context is
  -- canceled, and the registry has no context for the job any more.
  pub process_job-releases :
      canceled_view (laws.view w.storage run.job.id) ≡ none
      → let w' = process_job store blobs others run w in
        (Cancellation.cancel run.job.id w'.cancels ≡ (none, false))
        × ((rest : List ℕ) × (w'.canceled ≡ run.ctx ∷ rest))
  process_job-releases live =
      let w₁ = settle store blobs others run (when_rendered store blobs others run w) in
      rw (got_none store laws blobs others run w live) (
        unfold process released in
        (cancel-unregister_self run.job.id w₁.cancels, (w₁.canceled, refl)))
