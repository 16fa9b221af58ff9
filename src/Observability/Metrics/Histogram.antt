-- ===== src/Observability/Metrics/Histogram.antt =====
-- internal/observability/metrics.go: the render metrics count what was rendered.
use chroma_flow.Base.{
  ℕ, ◌+◌, ◌^◌, ◌<◌, String, ◌≡◌, refl, List, [], ◌∷◌, map, ◌==◌, eq_iff, if◌then◌else◌, leb, arith,
  ap, ◌∙◌,
}
use chroma_flow.Base.Dict
use chroma_flow.Base.Dict.{Dict, String-eq, get-put}
use chroma_flow.Observability.Metrics.{
  Metrics, new_metrics, u64, count_at, bump, observe, observe_at, counts_or_fresh, render_buckets,
  render_finished,
}

-- One call of `RenderFinished`.
pub record Render : Type 0 where
  pub status : String
  pub duration : ℕ
  pub bytes : ℕ

pub finish : Render → Metrics → Metrics
finish r m = render_finished r.status r.duration r.bytes m

-- The renders of a process, the latest first.
pub finish_all : List Render → Metrics
finish_all [] = new_metrics
finish_all (r ∷ rs) = finish r (finish_all rs)

-- How many renders ended with a status, and how many of these within a bound.
abbrev pub renders_of : String → List Render → ℕ
renders_of status [] = 0
renders_of status (r ∷ rs) = (if r.status == status then 1 else 0) + renders_of status rs

abbrev pub renders_within : String → ℕ → List Render → ℕ
renders_within status upper [] = 0
renders_within status upper (r ∷ rs) =
    (if r.status == status then (if leb r.duration upper then 1 else 0) else 0)
    + renders_within status upper rs

abbrev pub bytes_of : List Render → ℕ
bytes_of [] = 0
bytes_of (r ∷ rs) = r.bytes + bytes_of rs

get-bump :
    (k j : String) (m : Dict String ℕ)
    → count_at j (bump k m) ≡ (if k == j then u64 (count_at j m + 1) else count_at j m)
unfolding bump
get-bump k j m = ground (arith, get-put k j (u64 (count_at k m + 1)) m, eq_iff k j)

render_count-finish :
    (r : Render) (m : Metrics) → (finish r m).render_count ≡ bump r.status m.render_count
unfolding finish render_finished
render_count-finish r m = refl

render_buckets-finish :
    (r : Render) (m : Metrics)
    → (finish r m).render_bucket_counts
      ≡ observe_at render_buckets r.status r.duration m.render_bucket_counts
unfolding finish render_finished
render_buckets-finish r m = refl

pdf_bytes-finish :
    (r : Render) (m : Metrics) → u64 (finish r m).pdf_bytes ≡ u64 (m.pdf_bytes + r.bytes)
unfolding finish render_finished
pdf_bytes-finish r m = ground arith

pdf_bytes-lt : (rs : List Render) → (finish_all rs).pdf_bytes < 2 ^ 64
unfolding finish_all finish render_finished new_metrics
pdf_bytes-lt [] = omega arith
pdf_bytes-lt (r ∷ rs) = ground (arith, pdf_bytes-lt rs)

pdf_bytes-finish_all : (rs : List Render) → (finish_all rs).pdf_bytes ≡ u64 (bytes_of rs)
unfolding finish_all
pdf_bytes-finish_all [] = unfold new_metrics in refl
pdf_bytes-finish_all (r ∷ rs) =
    omega
      (arith, pdf_bytes-finish r (finish_all rs), pdf_bytes-lt (r ∷ rs), pdf_bytes-finish_all rs)

render_count-finish_all :
    (status : String) (rs : List Render)
    → count_at status (finish_all rs).render_count ≡ u64 (renders_of status rs)
unfolding finish_all
render_count-finish_all status [] = unfold new_metrics Dict.get in refl
render_count-finish_all status (r ∷ rs) = ground (
  arith,
  render_count-finish r (finish_all rs),
  get-bump r.status status (finish_all rs).render_count,
  render_count-finish_all status rs,
)

-- The bucket counts of a status, all 0 where there are none yet.
abbrev pub buckets_at : List ℕ → String → Dict String (List ℕ) → List ℕ
buckets_at uppers status m = counts_or_fresh uppers (Dict.get status m)

buckets-observe_at :
    (uppers : List ℕ) (k j : String) (d : ℕ) (m : Dict String (List ℕ))
    → buckets_at uppers j (observe_at uppers k d m)
      ≡ (if k == j then observe uppers d (buckets_at uppers j m) else buckets_at uppers j m)
unfolding observe_at
buckets-observe_at uppers k j d m =
    ground (arith, get-put k j (observe uppers d (buckets_at uppers k m)) m, eq_iff k j)

-- What the buckets should hold.
abbrev pub expected_buckets : List ℕ → String → List Render → List ℕ
expected_buckets uppers status rs = map (λ u. u64 (renders_within status u rs)) uppers

observe-expected :
    (uppers : List ℕ) (status : String) (r : Render) (rs : List Render)
    → (if r.status == status
        then observe uppers r.duration (expected_buckets uppers status rs)
        else expected_buckets uppers status rs)
      ≡ expected_buckets uppers status (r ∷ rs)
unfolding observe
observe-expected [] status r rs = ground arith
observe-expected (u ∷ us) status r rs = ground (arith, observe-expected us status r rs)

buckets-finish_all :
    (status : String) (rs : List Render)
    → buckets_at render_buckets status (finish_all rs).render_bucket_counts
      ≡ expected_buckets render_buckets status rs
unfolding finish_all
buckets-finish_all status [] = unfold new_metrics Dict.get in refl
buckets-finish_all status (r ∷ rs) =
    let m = finish_all rs in
    ap (buckets_at render_buckets status) (render_buckets-finish r m)
    ∙ buckets-observe_at render_buckets r.status status r.duration m.render_bucket_counts
    ∙ ap (λ counts. if r.status == status then observe render_buckets r.duration counts else counts)
        (buckets-finish_all status rs)
    ∙ observe-expected render_buckets status r rs

-- After any renders, the metrics of each status are those of the renders that ended with it:
-- their number, for each bucket the number of those whose duration is within its bound, and the
-- total of the PDF bytes of all renders, each modulo 2 ^ 64.
pub render_metrics_count :
    (status : String) (rs : List Render)
    → let m = finish_all rs in
      (count_at status m.render_count ≡ u64 (renders_of status rs))
      × (buckets_at render_buckets status m.render_bucket_counts
          ≡ expected_buckets render_buckets status rs)
      × (m.pdf_bytes ≡ u64 (bytes_of rs))
render_metrics_count status rs =
    (render_count-finish_all status rs, buckets-finish_all status rs, pdf_bytes-finish_all rs)
