-- ===== src/Observability/Exposition/Total.antt =====
-- internal/observability/metrics.go: `WritePrometheus` does not panic.
use chroma_flow.Base.{
  ℕ, String, ◌≡◌, refl, sym, ap, ◌∙◌, true, Option, none, some, List, [], ◌∷◌, length, All, arith,
}
use chroma_flow.Base.Dict
use chroma_flow.Base.Dict.{Dict, Eq, String-eq, get-put}
use chroma_flow.Base.Order.{Order, String-order, has, has-sort_keys, has-keys, keys, is_some}
use chroma_flow.Storage.Memory.{StorageStats}
use chroma_flow.Observability.Metrics.{
  Metrics, HttpLabel-eq, render_buckets, http_buckets, count_at, addends,
}
use chroma_flow.Observability.Format.{Float}
use chroma_flow.Observability.Labels.{HttpLabel-order}
use chroma_flow.Observability.Calls.{Call, after_calls}
use chroma_flow.Observability.Exposition.{
  ◌>>=◌, Callbacks, clone, sorted_keys, or_nil, write_each, label, http_labels, write_buckets,
  write_histogram, write_counts, write_renders, write_requests, write_durations, write_storage,
  write_prometheus,
}
use chroma_flow.Observability.Exposition.Views.{get-clone}
use chroma_flow.Observability.Exposition.Buckets.{
  Fits-some, AllFit, IsWellFormed, after_calls-IsWellFormed,
}

-- A result that is not a panic.
abbrev Writes : Option String → Type 0
Writes r = is_some r ≡ true

bind-Writes :
    (r : Option String) (f : String → Option String)
    → Writes r
    → ((text : String) → Writes (f text))
    → Writes (r >>= f)
bind-Writes none f h k = cc
bind-Writes (some text) f h k = k text

Writes-some : (r : Option String) → Writes r → (text : String) × (r ≡ some text)
Writes-some none h = absurd (cc h)
Writes-some (some text) h = (text, refl)

module _ {ℓ} {A : Type ℓ} where
  write_each-Writes :
      (f : A → Option String) (as' : List A)
      → All (λ a. Writes (f a)) as'
      → Writes (write_each f as')
  unfolding write_each
  write_each-Writes f [] h = refl
  write_each-Writes f (a ∷ as') h =
      bind-Writes (f a) _ h.0
        (λ text. bind-Writes (write_each f as') _ (write_each-Writes f as' h.1) (λ rest. refl))

  All-of_has {κ} :
      ⦃e : Eq A⦄ (P : A → Type κ) (as' : List A) → ((a : A) → has a as' ≡ true → P a) → All P as'
  All-of_has P [] h = tt
  All-of_has ⦃e⦄ P (a ∷ as') h =
      (h a (ground (arith, e.beq_iff a a)), All-of_has P as' (λ b k. h b (ground arith)))

module _ (quote : String → String) {F : Type 0} (float : Float F) where
  write_buckets-Writes :
      (name labels : String) (uppers counts : List ℕ)
      → length counts ≡ length uppers
      → Writes (write_buckets quote float name labels uppers counts)
  unfolding write_buckets
  write_buckets-Writes name labels [] counts h = refl
  write_buckets-Writes name labels (u ∷ us) [] h = absurd (omega arith)
  write_buckets-Writes name labels (u ∷ us) (n ∷ counts) h =
      bind-Writes (write_buckets quote float name labels us counts) _
        (write_buckets-Writes name labels us counts (omega arith)) (λ rest. refl)

  write_histogram-Writes :
      (name labels : String) (uppers counts : List ℕ) (count : ℕ) (sum : List ℕ)
      → length counts ≡ length uppers
      → Writes (write_histogram quote float name labels uppers counts count sum)
  unfolding write_histogram
  write_histogram-Writes name labels uppers counts count sum h =
      bind-Writes (write_buckets quote float name labels uppers counts) _
        (write_buckets-Writes name labels uppers counts h) (λ buckets. refl)

module _ {ℓ} {K : Type ℓ} ⦃e : Eq K⦄ where
  -- The loop over the keys of a histogram finds the buckets of each.
  write_each-AllFit :
      ⦃o : Order K⦄ (f : K → Option String) (uppers : List ℕ) (counts : Dict K ℕ)
      (buckets : Dict K (List ℕ))
      → AllFit uppers counts buckets
      → ((k : K) → length (or_nil (Dict.get k (clone buckets))) ≡ length uppers → Writes (f k))
      → Writes (write_each f (sorted_keys (clone counts)))
  unfolding sorted_keys
  write_each-AllFit f uppers counts buckets h writes = write_each-Writes f _ (
      All-of_has (λ k. Writes (f k)) _
        (λ k stands. writes k (
          rw (get-clone k buckets) (
            Fits-some uppers (Dict.get k counts) (Dict.get k buckets) (h k) (
              ap is_some (sym (get-clone k counts))
              ∙ sym (has-keys k (clone counts))
              ∙ sym (has-sort_keys k (keys (clone counts)))
              ∙ stands)))))

module _ (quote : String → String) where
  write_each-some {ℓ} :
      {A : Type ℓ} (f : A → String) (as' : List A) → Writes (write_each (λ a. some (f a)) as')
  unfolding write_each
  write_each-some f [] = refl
  write_each-some f (a ∷ as') =
      bind-Writes (write_each (λ b. some (f b)) as') _ (write_each-some f as') (λ rest. refl)

  write_counts-Writes :
      (name by : String) (m : Dict String ℕ) → Writes (write_counts quote name by m)
  unfolding write_counts
  write_counts-Writes name by m = write_each-some _ (sorted_keys m)

  write_storage-Writes : (stats : Option StorageStats) → Writes (write_storage quote stats)
  unfolding write_storage
  write_storage-Writes none = refl
  write_storage-Writes (some stats) =
      bind-Writes _ _ (write_counts-Writes "chromaflow_jobs_in_storage" "status" stats.by_status)
        (λ text. refl)

  module _ {F : Type 0} (float : Float F) where
    write_renders-Writes :
        (m : Metrics)
        → IsWellFormed m
        → Writes (
            write_renders quote float
              (clone m.render_count)
              (clone m.render_sum)
              (clone m.render_bucket_counts))
    unfolding write_renders
    write_renders-Writes m w =
        write_each-AllFit _ render_buckets m.render_count m.render_bucket_counts w.renders
          (λ k fits.
            write_histogram-Writes quote float "chromaflow_pdf_render_duration_seconds"
              (label quote "status" k) render_buckets _ (count_at k (clone m.render_count))
              (addends (Dict.get k (clone m.render_sum))) fits)

    write_durations-Writes :
        (m : Metrics)
        → IsWellFormed m
        → Writes (
            write_durations quote float
              (clone m.http_count)
              (clone m.http_sum)
              (clone m.http_bucket_counts))
    unfolding write_durations
    write_durations-Writes m w =
        write_each-AllFit _ http_buckets m.http_count m.http_bucket_counts w.requests (λ k fits.
          write_histogram-Writes quote float "chromaflow_http_request_duration_seconds"
            (http_labels quote k) http_buckets _ (count_at k (clone m.http_count))
            (addends (Dict.get k (clone m.http_sum))) fits)

    write_prometheus-Writes :
        (callbacks : Callbacks) (m : Metrics)
        → IsWellFormed m
        → Writes (write_prometheus quote float callbacks m)
    unfolding write_prometheus write_requests
    write_prometheus-Writes callbacks m w =
        bind-Writes _ _ (write_counts-Writes _ _ (clone m.jobs_rejected)) λ rejected.
          bind-Writes _ _ (write_counts-Writes _ _ (clone m.jobs_finished)) λ ended.
            bind-Writes _ _ (write_renders-Writes m w) λ renders.
              bind-Writes _ _ (write_storage-Writes callbacks.storage_stats) λ stored.
                bind-Writes _ _ (write_each-some _ (sorted_keys (clone m.http_requests)))
                  λ requests. bind-Writes _ _ (write_durations-Writes m w) λ durations. refl

    -- After any calls of the metrics, `WritePrometheus` writes a text: no index into the buckets of a
    -- status or of a label is out of range.
    pub write_prometheus_never_panics :
        (callbacks : Callbacks) (cs : List Call)
        → (text : String) × (write_prometheus quote float callbacks (after_calls cs) ≡ some text)
    write_prometheus_never_panics callbacks cs =
        Writes-some (write_prometheus quote float callbacks (after_calls cs))
          (write_prometheus-Writes callbacks (after_calls cs) (after_calls-IsWellFormed cs))
