-- ===== src/Observability/View.antt =====
-- internal/observability/metrics.go: the metrics as what their maps but the sums hold for each key,
-- and what the calls do to that.
use chroma_flow.Base.{
  ℕ, ◌+◌, ◌-◌, ◌^◌, String, ◌≡◌, refl, sym, ap, ◌∙◌, Option, some, List, [], ◌∷◌, arith,
  if◌then◌else◌, ltb,
}
use chroma_flow.Base.Dict
use chroma_flow.Base.Dict.{Dict, Eq, String-eq, get-put}
use chroma_flow.Redisx.Strconv.{itoa}
use chroma_flow.Observability.Metrics.{
  Metrics, new_metrics, HttpLabel, HttpLabel-eq, u64, bump, add_to, observe, observe_at,
  counts_or_fresh, count_or_zero, render_buckets, http_buckets,
}
use chroma_flow.Observability.Calls.{
  Call, submitted, started, stopped, rejected, rendered, recorded, call, after_calls,
}

pub record View : Type 0 where
  pub jobs_submitted : ℕ
  pub jobs_rejected : String → Option ℕ
  pub jobs_finished : String → Option ℕ
  pub render_count : String → Option ℕ
  pub render_bucket_counts : String → Option (List ℕ)
  pub pdf_bytes : ℕ
  pub active_workers : ℕ
  pub http_requests : HttpLabel → Option ℕ
  pub http_count : HttpLabel → Option ℕ
  pub http_bucket_counts : HttpLabel → Option (List ℕ)

abbrev pub view : Metrics → View
view m = record {
  jobs_submitted = m.jobs_submitted;
  jobs_rejected = λ k. Dict.get k m.jobs_rejected;
  jobs_finished = λ k. Dict.get k m.jobs_finished;
  render_count = λ k. Dict.get k m.render_count;
  render_bucket_counts = λ k. Dict.get k m.render_bucket_counts;
  pdf_bytes = m.pdf_bytes;
  active_workers = m.active_workers;
  http_requests = λ k. Dict.get k m.http_requests;
  http_count = λ k. Dict.get k m.http_count;
  http_bucket_counts = λ k. Dict.get k m.http_bucket_counts;
}

module _ {ℓ κ} {K : Type ℓ} {V : Type κ} ⦃e : Eq K⦄ where
  -- What a map holds once one entry was replaced.
  abbrev alter : K → (Option V → V) → (K → Option V) → K → Option V
  alter k f m j = if e.beq k j then some (f (m k)) else m j

  get-alter :
      (k : K) (f : Option V → V) (m : Dict K V) (j : K)
      → Dict.get j (Dict.put k (f (Dict.get k m)) m) ≡ alter k f (λ i. Dict.get i m) j
  get-alter k f m j = get-put k j (f (Dict.get k m)) m

  alter-swap :
      (k l : K) (f g : Option V → V) (m : K → Option V)
      → ((o : Option V) → f (some (g o)) ≡ g (some (f o)))
      → (j : K) → alter k f (alter l g m) j ≡ alter l g (alter k f m) j
  alter-swap k l f g m swap j =
      ground (arith, e.beq_iff k l, e.beq_iff l k, e.beq_iff k j, e.beq_iff l j, swap (m k))

abbrev counted : Option ℕ → ℕ
counted o = u64 (count_or_zero o + 1)

abbrev observed : List ℕ → ℕ → Option (List ℕ) → List ℕ
observed uppers d o = observe uppers d (counts_or_fresh uppers o)

abbrev label_of : String → String → ℕ → HttpLabel
label_of method path code = record { method = method; path = path; code = itoa code }

-- A call, on what the maps hold.
unfoldable pub call_view : Call → View → View
call_view submitted v = record v { jobs_submitted = u64 (v.jobs_submitted + 1) }
call_view started v = record v { active_workers = u64 (v.active_workers + 1) }
call_view stopped v = record v { active_workers = u64 (v.active_workers + (2 ^ 64 - 1)) }
call_view (rejected reason) v = record v { jobs_rejected = alter reason counted v.jobs_rejected }
call_view (rendered status duration bytes) v = record v {
  jobs_finished = alter status counted v.jobs_finished;
  render_count = alter status counted v.render_count;
  render_bucket_counts = alter status (observed render_buckets duration) v.render_bucket_counts;
  pdf_bytes = if ltb 0 bytes then u64 (v.pdf_bytes + bytes) else v.pdf_bytes;
}
call_view (recorded method path code duration) v =
    let l = label_of method path code in
    record v {
      http_requests = alter l counted v.http_requests;
      http_count = alter l counted v.http_count;
      http_bucket_counts = alter l (observed http_buckets duration) v.http_bucket_counts;
    }

-- The maps implement it.
pub view-call : (c : Call) (m : Metrics) → view (call c m) ≡ call_view c (view m)
unfolding call call_view bump add_to observe_at
view-call submitted m = refl
view-call started m = refl
view-call stopped m = refl
view-call (rejected reason) m =
    λ i. record (view m) { jobs_rejected = λ k. get-alter reason counted m.jobs_rejected k i }
view-call (rendered status duration bytes) m = λ i. record (view m) {
  jobs_finished = λ k. get-alter status counted m.jobs_finished k i;
  render_count = λ k. get-alter status counted m.render_count k i;
  render_bucket_counts =
      λ k. get-alter status (observed render_buckets duration) m.render_bucket_counts k i;
  pdf_bytes = if ltb 0 bytes then u64 (m.pdf_bytes + bytes) else m.pdf_bytes;
}
view-call (recorded method path code duration) m =
    let l = label_of method path code in
    λ i. record (view m) {
      http_requests = λ k. get-alter l counted m.http_requests k i;
      http_count = λ k. get-alter l counted m.http_count k i;
      http_bucket_counts =
          λ k. get-alter l (observed http_buckets duration) m.http_bucket_counts k i;
    }

observe_swap :
    (uppers counts : List ℕ) (c d : ℕ)
    → observe uppers c (observe uppers d counts) ≡ observe uppers d (observe uppers c counts)
unfolding observe
observe_swap [] counts c d = refl
observe_swap (u ∷ us) [] c d = refl
observe_swap (u ∷ us) (n ∷ counts) c d = ground (arith, observe_swap us counts c d)

counted_swap : (o : Option ℕ) → counted (some (counted o)) ≡ counted (some (counted o))
counted_swap o = refl

bytes_swap :
    (a b n : ℕ)
    → (if ltb 0 a
        then u64 ((if ltb 0 b then u64 (n + b) else n) + a)
        else if ltb 0 b
        then u64 (n + b)
        else n)
      ≡ (if ltb 0 b
          then u64 ((if ltb 0 a then u64 (n + a) else n) + b)
          else if ltb 0 a
          then u64 (n + a)
          else n)
bytes_swap a b n = ground arith

workers_swap : (n : ℕ) → u64 (u64 (n + (2 ^ 64 - 1)) + 1) ≡ u64 (u64 (n + 1) + (2 ^ 64 - 1))
workers_swap n = omega arith

-- Two calls leave the same in either order.
pub call_view-swap :
    (c d : Call) (v : View) → call_view c (call_view d v) ≡ call_view d (call_view c v)
unfolding call_view
call_view-swap submitted submitted v = refl
call_view-swap started stopped v =
    λ i. record v { active_workers = workers_swap v.active_workers i }
call_view-swap stopped started v =
    λ i. record v { active_workers = sym (workers_swap v.active_workers) i }
call_view-swap (rejected a) (rejected b) v = λ i. record v {
  jobs_rejected = λ k. alter-swap a b counted counted v.jobs_rejected (λ o. refl) k i;
}
call_view-swap (rendered s c a) (rendered t d b) v = λ i. record v {
  jobs_finished = λ k. alter-swap s t counted counted v.jobs_finished (λ o. refl) k i;
  render_count = λ k. alter-swap s t counted counted v.render_count (λ o. refl) k i;
  render_bucket_counts = λ k.
      alter-swap s t (observed render_buckets c) (observed render_buckets d) v.render_bucket_counts
        (λ o. observe_swap render_buckets (counts_or_fresh render_buckets o) c d) k i;
  pdf_bytes = bytes_swap a b v.pdf_bytes i;
}
call_view-swap (recorded method path code c) (recorded method' path' code' d) v =
    let l = label_of method path code in
    let l' = label_of method' path' code' in
    λ i. record v {
      http_requests = λ k. alter-swap l l' counted counted v.http_requests (λ o. refl) k i;
      http_count = λ k. alter-swap l l' counted counted v.http_count (λ o. refl) k i;
      http_bucket_counts = λ k.
          alter-swap l l' (observed http_buckets c) (observed http_buckets d) v.http_bucket_counts
            (λ o. observe_swap http_buckets (counts_or_fresh http_buckets o) c d) k i;
    }
call_view-swap c d v = refl

unfoldable pub after_calls_view : List Call → View → View
after_calls_view [] v = v
after_calls_view (c ∷ cs) v = call_view c (after_calls_view cs v)

pub view-after_calls :
    (cs : List Call) → view (after_calls cs) ≡ after_calls_view cs (view new_metrics)
unfolding after_calls after_calls_view
view-after_calls [] = refl
view-after_calls (c ∷ cs) = view-call c (after_calls cs) ∙ ap (call_view c) (view-after_calls cs)
