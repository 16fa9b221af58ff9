-- ===== src/Observability/Exposition.antt =====
-- internal/observability/metrics.go: `WritePrometheus`, the text of the metrics. `none` is a panic,
-- an index out of range. `float` is `float64`, and `quote` what fmt's `%q` makes
-- of a text. The callbacks of
-- `SetQueueStats` and `SetStorageStats` enter by what they return when they are called.
pub mod Buckets
pub mod Total
pub mod Views
pub mod Interleavings
use mathlib.Core.Option
use chroma_flow.Base.{ℕ, ℤ, String, cat, Option, none, some, List, [], ◌∷◌, if◌then◌else◌}
use chroma_flow.Base.Dict
use chroma_flow.Base.Dict.{Dict, Eq, String-eq}
use chroma_flow.Base.Order.{Order, String-order, sort_keys, keys}
use chroma_flow.Queue.Types.{is_zero}
use chroma_flow.Queue.Redis.{unix_text}
use chroma_flow.Redisx.Strconv.{itoa}
use chroma_flow.Storage.Memory.{StorageStats}
use chroma_flow.Observability.Metrics.{
  Metrics, HttpLabel, HttpLabel-eq, count_at, addends, render_buckets, http_buckets,
}
use chroma_flow.Observability.Format.{
  concat, write_help, Float, format_bound, format_sum, int64_text, int_text,
}
use chroma_flow.Observability.Labels.{HttpLabel-order}

infixl 5 ◌>>=◌
abbrev pub ◌>>=◌ {ℓ κ} : {A : Type ℓ} {B : Type κ} → Option A → (A → Option B) → Option B
none >>= f = none
some a >>= f = f a

-- What the callbacks return; `none` where none was set.
pub record Callbacks : Type 0 where
  pub queue_stats : Option (ℕ × ℤ)
  pub storage_stats : Option StorageStats

-- The copies of a map that are taken under the lock.
module _ {ℓ κ} {K : Type ℓ} {V : Type κ} ⦃e : Eq K⦄ where
  unfoldable pub clone : Dict K V → Dict K V
  clone [] = []
  clone ((k, v) ∷ m) = Dict.put k v (clone m)

  -- The keys of a map, sorted.
  unfoldable pub sorted_keys : ⦃o : Order K⦄ → Dict K V → List K
  sorted_keys m = sort_keys (keys m)

-- `counts[i]`, of a slice that is nil where the key is missing.
abbrev pub or_nil : Option (List ℕ) → List ℕ
or_nil none = []
or_nil (some counts) = counts

-- A loop that writes some lines for each item.
unfoldable pub write_each {ℓ} : {A : Type ℓ} → (A → Option String) → List A → Option String
write_each write [] = some ""
write_each write (a ∷ as') = do text ← write a; rest ← write_each write as'; some (cat text rest)

-- One line of a metric; `labels` is what stands between the braces.
abbrev pub sample : String → String → String → String
sample name labels value = concat (name ∷ "{" ∷ labels ∷ "} " ∷ value ∷ "\n" ∷ [])

abbrev pub plain : String → String → String
plain name value = concat (name ∷ " " ∷ value ∷ "\n" ∷ [])

module _ (quote : String → String) where
  abbrev pub label : String → String → String
  label name value = cat name (cat "=" (quote value))

  abbrev pub http_labels : HttpLabel → String
  http_labels l =
      concat (label "method" l.method ∷ "," ∷ label "path" l.path ∷ "," ∷ label "code" l.code ∷ [])

  -- The lines of a counter with one label.
  unfoldable pub write_counts : String → String → Dict String ℕ → Option String
  unfolding write_each sorted_keys
  write_counts name by m =
      write_each (λ k. some (sample name (label by k) (itoa (count_at k m)))) (sorted_keys m)

  unfoldable pub write_requests : Dict HttpLabel ℕ → Option String
  unfolding write_each sorted_keys
  write_requests requests =
      write_each
        (λ l.
          some
            (sample "chromaflow_http_requests_total" (http_labels l) (itoa (count_at l requests))))
        (sorted_keys requests)

  unfoldable pub write_queue : Option (ℕ × ℤ) → String
  unfolding write_help
  write_queue none = ""
  write_queue (some (depth, capacity)) = concat (
      write_help "chromaflow_queue_depth" "Current queue depth." "gauge"
      ∷ plain "chromaflow_queue_depth" (itoa depth)
      ∷ write_help "chromaflow_queue_capacity" "Configured queue capacity." "gauge"
      ∷ plain "chromaflow_queue_capacity" (int_text capacity)
      ∷ [])

  unfoldable pub write_oldest : ℕ → String
  unfolding write_help
  write_oldest oldest_job_at =
      let name : String = "chromaflow_storage_oldest_job_timestamp_seconds" in
      if is_zero oldest_job_at
      then ""
      else cat (write_help name "Unix timestamp for oldest job tracked in memory." "gauge")
          (plain name (unix_text oldest_job_at))

  unfoldable pub write_storage : Option StorageStats → Option String
  unfolding write_help write_counts write_oldest
  write_storage none = some ""
  write_storage (some stats) = do
    by_status ← write_counts "chromaflow_jobs_in_storage" "status" stats.by_status
    some (
        concat (
          write_help "chromaflow_jobs_in_storage" "Current jobs tracked by status." "gauge"
          ∷ by_status
          ∷ write_help "chromaflow_storage_jobs_total" "Current total jobs tracked." "gauge"
          ∷ plain "chromaflow_storage_jobs_total" (itoa stats.total)
          ∷ write_help "chromaflow_storage_pdf_bytes"
              "Current completed PDF bytes tracked in storage metadata." "gauge"
          ∷ plain "chromaflow_storage_pdf_bytes" (itoa stats.pdf_bytes)
          ∷ write_oldest stats.oldest_job_at
          ∷ []))

  module _ {F : Type 0} (float : Float F) where
    -- The loop over the buckets of one key.
    unfoldable pub write_buckets : String → String → List ℕ → List ℕ → Option String
    write_buckets name labels [] counts = some ""
    write_buckets name labels (upper ∷ uppers) [] = none
    write_buckets name labels (upper ∷ uppers) (n ∷ counts) = do
      rest ← write_buckets name labels uppers counts
      some (
          cat
            (sample (cat name "_bucket")
              (concat (labels ∷ "," ∷ label "le" (format_bound float upper) ∷ [])) (itoa n))
            rest)

    -- The lines of one key of a histogram.
    unfoldable pub write_histogram : String → String → List ℕ → List ℕ → ℕ → List ℕ → Option String
    unfolding write_buckets
    write_histogram name labels uppers counts count sum = do
      buckets ← write_buckets name labels uppers counts
      some (
          concat (
            buckets
            ∷ sample (cat name "_bucket") (cat labels ",le=\"+Inf\"") (itoa count)
            ∷ sample (cat name "_sum") labels (format_sum float sum)
            ∷ sample (cat name "_count") labels (itoa count)
            ∷ []))

    unfoldable pub write_renders :
        Dict String ℕ → Dict String (List ℕ) → Dict String (List ℕ) → Option String
    unfolding write_each sorted_keys write_histogram
    write_renders counts sums buckets =
        write_each
          (λ status.
            write_histogram "chromaflow_pdf_render_duration_seconds" (label "status" status)
              render_buckets (or_nil (Dict.get status buckets)) (count_at status counts)
              (addends (Dict.get status sums)))
          (sorted_keys counts)

    unfoldable pub write_durations :
        Dict HttpLabel ℕ → Dict HttpLabel (List ℕ) → Dict HttpLabel (List ℕ) → Option String
    unfolding write_each sorted_keys write_histogram
    write_durations counts sums buckets =
        write_each
          (λ l.
            write_histogram "chromaflow_http_request_duration_seconds" (http_labels l) http_buckets
              (or_nil (Dict.get l buckets)) (count_at l counts) (addends (Dict.get l sums)))
          (sorted_keys counts)

    -- `WritePrometheus`.
    unfoldable pub write_prometheus : Callbacks → Metrics → Option String
    unfolding clone write_help write_counts write_renders write_requests write_durations write_queue
        write_storage
    write_prometheus callbacks m = do
      rejected ← write_counts "chromaflow_jobs_rejected_total" "reason" (clone m.jobs_rejected)
      ended ← write_counts "chromaflow_jobs_finished_total" "status" (clone m.jobs_finished)
      renders ←
          write_renders (clone m.render_count) (clone m.render_sum) (clone m.render_bucket_counts)
      stored ← write_storage callbacks.storage_stats
      requests ← write_requests (clone m.http_requests)
      durations ←
          write_durations (clone m.http_count) (clone m.http_sum) (clone m.http_bucket_counts)
      some (
          concat (
            write_help "chromaflow_jobs_submitted_total" "Total PDF jobs accepted by ChromaFlow."
              "counter"
            ∷ plain "chromaflow_jobs_submitted_total" (itoa m.jobs_submitted)
            ∷ write_help "chromaflow_jobs_rejected_total"
                "Total PDF jobs rejected before enqueueing." "counter"
            ∷ rejected
            ∷ write_help "chromaflow_jobs_finished_total"
                "Total PDF render jobs finished by terminal status." "counter"
            ∷ ended
            ∷ write_help "chromaflow_pdf_render_duration_seconds"
                "PDF render duration by terminal status." "histogram"
            ∷ renders
            ∷ write_help "chromaflow_pdf_bytes_total" "Total completed PDF bytes generated."
                "counter"
            ∷ plain "chromaflow_pdf_bytes_total" (itoa m.pdf_bytes)
            ∷ write_help "chromaflow_active_workers" "Currently running worker goroutines." "gauge"
            ∷ plain "chromaflow_active_workers" (int64_text m.active_workers)
            ∷ write_queue callbacks.queue_stats
            ∷ stored
            ∷ write_help "chromaflow_http_requests_total"
                "Total HTTP requests by method, route, and status code." "counter"
            ∷ requests
            ∷ write_help "chromaflow_http_request_duration_seconds"
                "HTTP request duration by method, route, and status code." "histogram"
            ∷ durations
            ∷ []))
