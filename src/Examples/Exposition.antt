-- ===== src/Examples/Exposition.antt =====
-- internal/observability/metrics.go: the text of the metrics after a few calls.
use mathlib.Core.List.Perm
use chroma_flow.Base.{
  ℕ, String, cat, ◌≡◌, refl, none, some, List, [], ◌∷◌, pos, ◌==◌, eq_iff, Bool-cases, inl, inr,
  subst,
}
use chroma_flow.Base.Dict.{Dict, String-eq}
use chroma_flow.Base.Order.{String-order, sort_keys, text_before}
use chroma_flow.Base.Dict
use chroma_flow.Redisx.Decimal
use chroma_flow.Redisx.Strconv.{itoa}
use chroma_flow.Observability.Metrics.{HttpLabel}
use chroma_flow.Observability.Calls.{Call, submitted, rejected, rendered, after_calls}
use chroma_flow.Observability.Format.{Float, sum_of, escape_help}
use chroma_flow.Observability.Exposition.{
  Callbacks, write_counts, write_histogram, write_prometheus,
}
use chroma_flow.Observability.Exposition.Total.{write_prometheus_never_panics}
use chroma_flow.Observability.Exposition.Interleavings.{
  renders_of, requests_of, write_prometheus-perm,
}

-- `%q` of a text that has nothing to escape.
abbrev quote : String → String
quote t = cat "\"" (cat t "\"")

-- A float as the text of how it was computed, which tells every order of additions apart.
abbrev float : Float String
float = record {
  zero_value = "0";
  plus = λ a b. cat a (cat "+" b);
  seconds = itoa;
  format = λ t. t;
}

abbrev callbacks : Callbacks
callbacks = record { queue_stats = some (2, pos 100); storage_stats = none }

abbrev rejections : Dict String ℕ
rejections = ("queue_full", 2) ∷ ("invalid_url", 1) ∷ []

sorted_lines :
    write_counts quote "rejected" "reason" rejections
    ≡ some "rejected{reason=\"invalid_url\"} 1\nrejected{reason=\"queue_full\"} 2\n"
unfolding write_counts sort_keys text_before itoa Decimal.itoa Dict.get
sorted_lines = refl

histogram_lines :
    write_histogram quote float "took" "status=\"failed\""
      (1000000000 ∷ 2500000000 ∷ [])
      (0 ∷ 1 ∷ [])
      3
      (9070000000 ∷ 5 ∷ [])
    ≡ some
        "took_bucket{status=\"failed\",le=\"1000000000\"} 0\ntook_bucket{status=\"failed\",le=\"2500000000\"} 1\ntook_bucket{status=\"failed\",le=\"+Inf\"} 3\ntook_sum{status=\"failed\"} 0+5+9070000000\ntook_count{status=\"failed\"} 3\n"
unfolding write_histogram sum_of itoa Decimal.itoa
histogram_lines = refl

missing_buckets : write_histogram quote float "took" "" (1000000000 ∷ []) [] 3 (9 ∷ []) ≡ none
unfolding write_histogram
missing_buckets = refl

escaped : escape_help "a\\b\nc" ≡ "a\\\\b\\nc"
unfolding escape_help
escaped = refl

abbrev calls : List Call
calls = rendered "failed" 9070000000 0 ∷ rejected "queue_full" ∷ submitted ∷ []

write_prometheus_never_panics_example :
    (text : String) × (write_prometheus quote float callbacks (after_calls calls) ≡ some text)
write_prometheus_never_panics_example = write_prometheus_never_panics quote float callbacks calls

abbrev failed_first : List Call
failed_first = rendered "failed" 9070000000 0 ∷ rendered "completed" 2500000000 10 ∷ submitted ∷ []

abbrev completed_first : List Call
completed_first =
    rendered "completed" 2500000000 10 ∷ rendered "failed" 9070000000 0 ∷ submitted ∷ []

same_renders :
    (status : String) → renders_of status failed_first ≡ renders_of status completed_first
unfolding renders_of
same_renders status = elim (Bool-cases ("failed" == status)) [
  | inl e ↦
      subst (λ t. renders_of t failed_first ≡ renders_of t completed_first)
        ((eq_iff "failed" status).0 e) refl
  | inr e ↦ rw e refl
]

same_requests : (l : HttpLabel) → requests_of l failed_first ≡ requests_of l completed_first
unfolding requests_of
same_requests l = refl

write_prometheus-perm_example :
    write_prometheus quote float callbacks (after_calls failed_first)
    ≡ write_prometheus quote float callbacks (after_calls completed_first)
write_prometheus-perm_example =
    write_prometheus-perm float quote callbacks failed_first completed_first
      (Perm.swap (rendered "completed" 2500000000 10) (rendered "failed" 9070000000 0)
        (submitted ∷ []))
      same_renders same_requests
