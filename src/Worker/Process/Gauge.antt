-- ===== src/Worker/Process/Gauge.antt =====
-- internal/worker/worker.go: `processJob` leaves the number of active workers alone.
use mathlib.Core.Option
use chroma_flow.Base.{ℕ, String, ◌≡◌, refl, ◌∙◌, Option, none, some, List}
use chroma_flow.Queue.Types.{Error, message, JobResult, Result, ok, err}
use chroma_flow.Storage.Store.{Store}
use chroma_flow.Blob.Store.{BlobStore}
use chroma_flow.Observability.Metrics.{Metrics, render_finished, u64}
use chroma_flow.Worker.Pool.{Shared, finished, sent}
use chroma_flow.Worker.Process.{
  Point, before_processing, rendering, before_outcome, before_completed, Run, pdf_key_of,
  status_error, if_canceled, notify, conclude, discard, fail, complete, after_put, after_render,
  released, marked, rendered, settle, process, picked, process_job,
}

-- The number of active workers, where metrics are kept.
abbrev pub gauge : {S B : Type 0} → Shared S B → Option ℕ
gauge w = Option.map (λ (m : Metrics). u64 m.active_workers) w.metrics

-- The other goroutines leave it alone.
abbrev pub KeepsGauge : {S B : Type 0} → (Point → Shared S B → Shared S B) → Type 0
KeepsGauge {S} {B} others = (p : Point) (w : Shared S B) → gauge (others p w) ≡ gauge w

map-render_finished :
    (status : String) (duration bytes : ℕ) (o : Option Metrics)
    → Option.map
        (λ (m : Metrics). u64 m.active_workers)
        (Option.map (render_finished status duration bytes) o)
      ≡ Option.map (λ (m : Metrics). u64 m.active_workers) o
unfolding render_finished
map-render_finished status duration bytes none = refl
map-render_finished status duration bytes (some m) = refl

module _ {S B : Type 0} (store : Store S) (blobs : BlobStore B)
    (others : Point → Shared S B → Shared S B) (run : Run) (keeps : KeepsGauge others) where
  gauge-finished :
      (status : String) (duration bytes : ℕ) (w : Shared S B)
      → gauge (finished status duration bytes w) ≡ gauge w
  unfolding finished
  gauge-finished status duration bytes w = map-render_finished status duration bytes w.metrics

  gauge-fail :
      (error : String) (w : Shared S B) → gauge (fail store blobs others run error w) ≡ gauge w
  unfolding fail conclude notify sent
  gauge-fail error w = gauge-finished _ _ _ w

  gauge-after_put :
      (pdf : List ℕ) (e : Option Error) (w : Shared S B)
      → gauge (after_put store blobs others run pdf e w) ≡ gauge w
  unfolding after_put complete notify sent
  gauge-after_put pdf none w =
      gauge-finished _ _ _ (others before_completed w) ∙ keeps before_completed w
  gauge-after_put pdf (some e) w =
      gauge-fail (message e) (others before_completed w) ∙ keeps before_completed w

  gauge-after_render :
      (result : Result (List ℕ)) (o : Option JobResult) (w : Shared S B)
      → gauge (after_render store blobs others run result o w) ≡ gauge w
  unfolding after_render discard notify sent
  gauge-after_render result (some current) w = gauge-finished _ _ _ w
  gauge-after_render (err e) none w =
      gauge-fail (status_error run.shutdown e) (others before_outcome w) ∙ keeps before_outcome w
  gauge-after_render (ok pdf) none w =
      let w' = others before_outcome w in
      let (e, b) = blobs.put (pdf_key_of run.job) pdf w'.blobs in
      gauge-after_put pdf e (record w' { blobs = b }) ∙ keeps before_outcome w

  gauge-process : (w : Shared S B) → gauge (process store blobs others run w) ≡ gauge w
  unfolding process released settle marked
  gauge-process w =
      let w₁ = marked store blobs others run w in
      let w₂ = others rendering w₁ in
      let (current, s) = store.get run.job.id w₂.storage in
      gauge-after_render (rendered store blobs others run) (if_canceled current)
        (record w₂ { storage = s })
      ∙ keeps rendering w₁

  gauge-picked :
      (o : Option JobResult) (w : Shared S B) → gauge (picked store blobs others run o w) ≡ gauge w
  unfolding picked
  gauge-picked (some r) w = refl
  gauge-picked none w = gauge-process (others before_processing w) ∙ keeps before_processing w

  -- Where the other goroutines leave the number of active workers alone, so does `processJob`.
  pub gauge-process_job : (w : Shared S B) → gauge (process_job store blobs others run w) ≡ gauge w
  unfolding process_job
  gauge-process_job w =
      let (current, s) = store.get run.job.id w.storage in
      gauge-picked (if_canceled current) (record w { storage = s })
