-- ===== src/Observability/Metrics.antt =====
-- internal/observability/metrics.go: the counters and histograms. A `uint64` wraps at 2 ^ 64 and
-- an `int64` is its bit pattern. A duration is its number of nanoseconds, and a bucket's upper
-- bound is scaled alike, so `seconds <= upper` is the same test. A `float64` sum of
-- seconds is kept as the durations that were added to it, the latest first: they and their order
-- determine it, with its rounding (`sum_of` in Observability/Format).
pub mod Histogram
use chroma_flow.Base.{
  ℕ, ◌+◌, ◌*◌, ◌-◌, ◌%◌, ◌^◌, String, ◌≡◌, ◌↔◌, refl, Bool, true, false, ◌&&◌, Option, none, some,
  List, [], ◌∷◌, map, ◌==◌, eq_iff, if◌then◌else◌, ltb, leb, arith,
}
use chroma_flow.Base.Dict
use chroma_flow.Base.Dict.{Dict, Eq, String-eq}
use chroma_flow.Redisx.Strconv.{itoa}

abbrev pub u64 : ℕ → ℕ
u64 n = n % 2 ^ 64

-- Nanoseconds of so many milliseconds.
abbrev ms : ℕ → ℕ
ms n = n * 1000000

abbrev pub render_buckets : List ℕ
render_buckets =
    ms 1000 ∷ ms 2500 ∷ ms 5000 ∷ ms 10000 ∷ ms 15000 ∷ ms 30000 ∷ ms 60000 ∷ ms 120000 ∷ []

abbrev pub http_buckets : List ℕ
http_buckets =
    ms 5
    ∷ ms 10
    ∷ ms 25
    ∷ ms 50
    ∷ ms 100
    ∷ ms 250
    ∷ ms 500
    ∷ ms 1000
    ∷ ms 2500
    ∷ ms 5000
    ∷ ms 10000
    ∷ []

pub record HttpLabel : Type 0 where
  pub method : String
  pub path : String
  pub code : String

abbrev pub label_beq : HttpLabel → HttpLabel → Bool
label_beq a b = a.method == b.method && a.path == b.path && a.code == b.code

pub label_beq_iff : (a b : HttpLabel) → (label_beq a b ≡ true) ↔ (a ≡ b)
label_beq_iff a b =
    ground (arith, eq_iff a.method b.method, eq_iff a.path b.path, eq_iff a.code b.code)

instance abbrev pub HttpLabel-eq : Eq HttpLabel
HttpLabel-eq = record { beq = label_beq; beq_iff = label_beq_iff }

pub record Metrics : Type 0 where
  pub jobs_submitted : ℕ
  pub jobs_rejected : Dict String ℕ
  pub jobs_finished : Dict String ℕ
  pub render_count : Dict String ℕ
  pub render_sum : Dict String (List ℕ)
  pub render_bucket_counts : Dict String (List ℕ)
  pub pdf_bytes : ℕ
  pub active_workers : ℕ
  pub http_requests : Dict HttpLabel ℕ
  pub http_count : Dict HttpLabel ℕ
  pub http_sum : Dict HttpLabel (List ℕ)
  pub http_bucket_counts : Dict HttpLabel (List ℕ)

unfoldable pub new_metrics : Metrics
new_metrics = record {
  jobs_submitted = 0;
  jobs_rejected = [];
  jobs_finished = [];
  render_count = [];
  render_sum = [];
  render_bucket_counts = [];
  pdf_bytes = 0;
  active_workers = 0;
  http_requests = [];
  http_count = [];
  http_sum = [];
  http_bucket_counts = [];
}

-- A missing key reads as 0.
abbrev pub count_or_zero : Option ℕ → ℕ
count_or_zero none = 0
count_or_zero (some n) = n

-- The durations of a sum; a missing key reads as 0, to which nothing was added.
abbrev pub addends : Option (List ℕ) → List ℕ
addends none = []
addends (some ds) = ds

module _ {ℓ} {K : Type ℓ} ⦃e : Eq K⦄ where
  abbrev pub count_at : K → Dict K ℕ → ℕ
  count_at k m = count_or_zero (Dict.get k m)

  -- `m[k]++`.
  unfoldable pub bump : K → Dict K ℕ → Dict K ℕ
  bump k m = Dict.put k (u64 (count_at k m + 1)) m

  -- `m[k] += d.Seconds()`.
  unfoldable pub add_to : K → ℕ → Dict K (List ℕ) → Dict K (List ℕ)
  add_to k d m = Dict.put k (d ∷ addends (Dict.get k m)) m

-- The loop over the buckets: each whose upper bound is not passed is counted up.
unfoldable pub observe : List ℕ → ℕ → List ℕ → List ℕ
observe (upper ∷ uppers) d (n ∷ counts) =
    (if leb d upper then u64 (n + 1) else n) ∷ observe uppers d counts
observe [] d counts = counts
observe uppers d [] = []

-- `make([]uint64, n)` where the key has no buckets yet.
abbrev pub counts_or_fresh : List ℕ → Option (List ℕ) → List ℕ
counts_or_fresh uppers none = map (λ u. 0) uppers
counts_or_fresh uppers (some counts) = counts

unfoldable pub observe_at {ℓ} :
    {K : Type ℓ} ⦃e : Eq K⦄ → List ℕ → K → ℕ → Dict K (List ℕ) → Dict K (List ℕ)
unfolding observe
observe_at uppers k d m = Dict.put k (observe uppers d (counts_or_fresh uppers (Dict.get k m))) m

unfoldable pub job_submitted : Metrics → Metrics
job_submitted m = record m { jobs_submitted = u64 (m.jobs_submitted + 1) }

unfoldable pub job_rejected : String → Metrics → Metrics
unfolding bump
job_rejected reason m = record m { jobs_rejected = bump reason m.jobs_rejected }

unfoldable pub worker_started : Metrics → Metrics
worker_started m = record m { active_workers = u64 (m.active_workers + 1) }

unfoldable pub worker_stopped : Metrics → Metrics
worker_stopped m = record m { active_workers = u64 (m.active_workers + (2 ^ 64 - 1)) }

unfoldable pub render_finished : String → ℕ → ℕ → Metrics → Metrics
unfolding bump add_to observe_at
render_finished status duration bytes m = record m {
  jobs_finished = bump status m.jobs_finished;
  render_count = bump status m.render_count;
  render_sum = add_to status duration m.render_sum;
  render_bucket_counts = observe_at render_buckets status duration m.render_bucket_counts;
  pdf_bytes = if ltb 0 bytes then u64 (m.pdf_bytes + bytes) else m.pdf_bytes;
}

unfoldable pub record_http : String → String → ℕ → ℕ → Metrics → Metrics
unfolding bump add_to observe_at
record_http method path code duration m =
    let label : HttpLabel = record { method = method; path = path; code = itoa code } in
    record m {
      http_requests = bump label m.http_requests;
      http_count = bump label m.http_count;
      http_sum = add_to label duration m.http_sum;
      http_bucket_counts = observe_at http_buckets label duration m.http_bucket_counts;
    }
