-- ===== src/Observability/Exposition/Views.antt =====
-- internal/observability/metrics.go: `WritePrometheus` shows the maps, and not the order in which Go
-- happens to range over them.
use chroma_flow.Base.{ℕ, String, ◌≡◌, refl, sym, ap, ◌∙◌, some, List, [], ◌∷◌, arith}
use chroma_flow.Base.Dict
use chroma_flow.Base.Dict.{Dict, Eq, String-eq, get-put}
use chroma_flow.Base.Order.{Order, String-order, IsMap, put-IsMap, SameMap, sort_keys-SameMap}
use chroma_flow.Observability.Metrics.{
  Metrics, HttpLabel, HttpLabel-eq, count_or_zero, addends, render_buckets, http_buckets,
}
use chroma_flow.Redisx.Strconv.{itoa}
use chroma_flow.Observability.Format.{Float}
use chroma_flow.Observability.Labels.{HttpLabel-order}
use chroma_flow.Observability.View.{view}
use chroma_flow.Observability.Exposition.{
  Callbacks, clone, sorted_keys, or_nil, write_each, sample, label, http_labels, write_histogram,
  write_counts, write_renders, write_requests, write_durations, write_prometheus,
}

module _ {ℓ κ} {K : Type ℓ} {V : Type κ} ⦃e : Eq K⦄ where
  pub get-clone : (k : K) (m : Dict K V) → Dict.get k (clone m) ≡ Dict.get k m
  unfolding clone Dict.get
  get-clone k [] = refl
  get-clone k ((j, v) ∷ m) = ground (arith, get-put j k v (clone m), get-clone k m)

  pub clone-IsMap : (m : Dict K V) → IsMap (clone m)
  unfolding clone
  clone-IsMap [] = tt
  clone-IsMap ((k, v) ∷ m) = put-IsMap k v (clone m) (clone-IsMap m)

  clone-SameMap : (m n : Dict K V) → SameMap m n → SameMap (clone m) (clone n)
  clone-SameMap m n h k = get-clone k m ∙ h k ∙ sym (get-clone k n)

  sorted_keys-clone :
      ⦃o : Order K⦄ (m n : Dict K V) → SameMap m n → sorted_keys (clone m) ≡ sorted_keys (clone n)
  unfolding sorted_keys
  sorted_keys-clone m n h =
      sort_keys-SameMap (clone m) (clone n) (clone-IsMap m) (clone-IsMap n) (clone-SameMap m n h)

module _ {ℓ} {K : Type ℓ} ⦃e : Eq K⦄ where
  -- The same durations in the same order were added to the sums of a key.
  abbrev pub SameSum : K → Dict K (List ℕ) → Dict K (List ℕ) → Type 0
  SameSum k m n = addends (Dict.get k m) ≡ addends (Dict.get k n)

  clone-SameSum : (k : K) (m n : Dict K (List ℕ)) → SameSum k m n → SameSum k (clone m) (clone n)
  clone-SameSum k m n h = ap addends (get-clone k m) ∙ h ∙ sym (ap addends (get-clone k n))

module _ (quote : String → String) where
  write_counts-SameMap :
      (name by : String) (m n : Dict String ℕ)
      → SameMap m n
      → write_counts quote name by (clone m) ≡ write_counts quote name by (clone n)
  unfolding write_counts
  write_counts-SameMap name by m n h = λ i.
      write_each
        (λ k.
          some (sample name (label quote by k) (itoa (count_or_zero (clone-SameMap m n h k i)))))
        (sorted_keys-clone m n h i)

  write_requests-SameMap :
      (m n : Dict HttpLabel ℕ)
      → SameMap m n
      → write_requests quote (clone m) ≡ write_requests quote (clone n)
  unfolding write_requests
  write_requests-SameMap m n h = λ i.
      write_each
        (λ l. some (
          sample "chromaflow_http_requests_total" (http_labels quote l)
            (itoa (count_or_zero (clone-SameMap m n h l i)))))
        (sorted_keys-clone m n h i)

  module _ {F : Type 0} (float : Float F) where
    write_renders-SameMap :
        (a b : Dict String ℕ) (c d s t : Dict String (List ℕ))
        → SameMap a b
        → ((k : String) → SameSum k c d)
        → SameMap s t
        → write_renders quote float (clone a) (clone c) (clone s)
          ≡ write_renders quote float (clone b) (clone d) (clone t)
    unfolding write_renders
    write_renders-SameMap a b c d s t h j k = λ i.
        write_each
          (λ status.
            write_histogram quote float "chromaflow_pdf_render_duration_seconds"
              (label quote "status" status) render_buckets (or_nil (clone-SameMap s t k status i))
              (count_or_zero (clone-SameMap a b h status i))
              (clone-SameSum status c d (j status) i))
          (sorted_keys-clone a b h i)

    write_durations-SameMap :
        (a b : Dict HttpLabel ℕ) (c d s t : Dict HttpLabel (List ℕ))
        → SameMap a b
        → ((k : HttpLabel) → SameSum k c d)
        → SameMap s t
        → write_durations quote float (clone a) (clone c) (clone s)
          ≡ write_durations quote float (clone b) (clone d) (clone t)
    unfolding write_durations
    write_durations-SameMap a b c d s t h j k = λ i.
        write_each
          (λ l.
            write_histogram quote float "chromaflow_http_request_duration_seconds"
              (http_labels quote l) http_buckets (or_nil (clone-SameMap s t k l i))
              (count_or_zero (clone-SameMap a b h l i)) (clone-SameSum l c d (j l) i))
          (sorted_keys-clone a b h i)

    -- The text is a function of what the maps hold for each key: metrics with the same view and the
    -- same sums have the same text, in whatever order Go ranges over their maps.
    pub write_prometheus-view :
        (callbacks : Callbacks) (m n : Metrics)
        → view m ≡ view n
        → ((k : String) → SameSum k m.render_sum n.render_sum)
        → ((l : HttpLabel) → SameSum l m.http_sum n.http_sum)
        → write_prometheus quote float callbacks m ≡ write_prometheus quote float callbacks n
    unfolding write_prometheus
    write_prometheus-view callbacks m n same renders requests = rw (
      write_counts-SameMap "chromaflow_jobs_rejected_total" "reason" m.jobs_rejected n.jobs_rejected
          (λ k. ap (λ v. v.jobs_rejected k) same),
      write_counts-SameMap "chromaflow_jobs_finished_total" "status" m.jobs_finished n.jobs_finished
          (λ k. ap (λ v. v.jobs_finished k) same),
      write_renders-SameMap m.render_count n.render_count m.render_sum n.render_sum
          m.render_bucket_counts n.render_bucket_counts (λ k. ap (λ v. v.render_count k) same)
          renders (λ k. ap (λ v. v.render_bucket_counts k) same),
      write_requests-SameMap m.http_requests n.http_requests
          (λ k. ap (λ v. v.http_requests k) same),
      write_durations-SameMap m.http_count n.http_count m.http_sum n.http_sum m.http_bucket_counts
          n.http_bucket_counts (λ k. ap (λ v. v.http_count k) same) requests
          (λ k. ap (λ v. v.http_bucket_counts k) same),
      ap (λ v. v.jobs_submitted) same,
      ap (λ v. v.pdf_bytes) same,
      ap (λ v. v.active_workers) same,
    )
