-- ===== src/Observability/Exposition/Buckets.antt =====
-- internal/observability/metrics.go: both histograms have the buckets of each key that they count.
use chroma_flow.Base.{
  ℕ, ◌≡◌, refl, true, Option, none, some, List, [], ◌∷◌, length, arith, map, Bool-cases, inl, inr,
}
use chroma_flow.Base.Dict
use chroma_flow.Base.Dict.{Dict, Eq, String-eq, get-put}
use chroma_flow.Base.Order.{is_some}
use chroma_flow.Observability.Metrics.{
  Metrics, new_metrics, HttpLabel-eq, bump, observe, observe_at, counts_or_fresh, render_buckets,
  http_buckets,
}
use chroma_flow.Observability.Calls.{
  Call, submitted, started, stopped, rejected, rendered, recorded, call, after_calls,
}
use chroma_flow.Observability.Exposition.{or_nil}

-- What is stored of the count and of the buckets of one key: neither, or both, one number for each
-- bucket.
abbrev pub Fits : List ℕ → Option ℕ → Option (List ℕ) → Type 0
Fits uppers none none = Unit
Fits uppers none (some counts) = ⊥
Fits uppers (some n) none = ⊥
Fits uppers (some n) (some counts) = length counts ≡ length uppers

length-observe :
    (uppers counts : List ℕ) (d : ℕ)
    → length counts ≡ length uppers
    → length (observe uppers d counts) ≡ length uppers
unfolding observe
length-observe [] counts d h = h
length-observe (u ∷ us) [] d h = absurd (omega arith)
length-observe (u ∷ us) (n ∷ counts) d h = omega (arith, length-observe us counts d)

length-map {ℓ} : {A : Type ℓ} (f : A → ℕ) (xs : List A) → length (map f xs) ≡ length xs
length-map f [] = refl
length-map f (x ∷ xs) = omega (arith, length-map f xs)

Fits-lengths :
    (uppers : List ℕ) (n : Option ℕ) (counts : Option (List ℕ))
    → Fits uppers n counts
    → length (counts_or_fresh uppers counts) ≡ length uppers
Fits-lengths uppers none none h = length-map (λ u. 0) uppers
Fits-lengths uppers none (some counts) h = elim h [ ]
Fits-lengths uppers (some n) none h = elim h [ ]
Fits-lengths uppers (some n) (some counts) h = h

pub Fits-some :
    (uppers : List ℕ) (n : Option ℕ) (counts : Option (List ℕ))
    → Fits uppers n counts
    → is_some n ≡ true
    → length (or_nil counts) ≡ length uppers
Fits-some uppers none counts h k = cc
Fits-some uppers (some n) none h k = elim h [ ]
Fits-some uppers (some n) (some counts) h k = h

module _ {ℓ} {K : Type ℓ} ⦃e : Eq K⦄ where
  abbrev pub AllFit : List ℕ → Dict K ℕ → Dict K (List ℕ) → Type ℓ
  AllFit uppers counts buckets = (k : K) → Fits uppers (Dict.get k counts) (Dict.get k buckets)

  AllFit-nil : (uppers : List ℕ) → AllFit uppers [] []
  unfolding Dict.get
  AllFit-nil uppers k = tt

  -- One observation counts its key up and observes its buckets.
  AllFit-observe :
      (uppers : List ℕ) (j : K) (d : ℕ) (counts : Dict K ℕ) (buckets : Dict K (List ℕ))
      → AllFit uppers counts buckets
      → AllFit uppers (bump j counts) (observe_at uppers j d buckets)
  unfolding bump observe_at
  AllFit-observe uppers j d counts buckets h k =
      let fresh = counts_or_fresh uppers (Dict.get j buckets) in
      rw (get-put j k _ counts) (
        rw (get-put j k (observe uppers d fresh) buckets) (elim (Bool-cases (e.beq j k)) [
          | inl b ↦ rw b (length-observe uppers fresh d (Fits-lengths uppers _ _ (h j)))
          | inr b ↦ rw b (h k)
        ]))

-- The metrics are well formed: both histograms have the buckets of each key that they count.
pub record IsWellFormed (m : Metrics) : Type 0 where
  pub renders : AllFit render_buckets m.render_count m.render_bucket_counts
  pub requests : AllFit http_buckets m.http_count m.http_bucket_counts

call-IsWellFormed : (c : Call) (m : Metrics) → IsWellFormed m → IsWellFormed (call c m)
unfolding call
call-IsWellFormed submitted m w = record { renders = w.renders; requests = w.requests }
call-IsWellFormed started m w = record { renders = w.renders; requests = w.requests }
call-IsWellFormed stopped m w = record { renders = w.renders; requests = w.requests }
call-IsWellFormed (rejected reason) m w = record { renders = w.renders; requests = w.requests }
call-IsWellFormed (rendered status duration bytes) m w = record {
  renders =
      AllFit-observe render_buckets status duration m.render_count m.render_bucket_counts w.renders;
  requests = w.requests;
}
call-IsWellFormed (recorded method path code duration) m w = record {
  renders = w.renders;
  requests = AllFit-observe http_buckets _ duration m.http_count m.http_bucket_counts w.requests;
}

pub after_calls-IsWellFormed : (cs : List Call) → IsWellFormed (after_calls cs)
unfolding after_calls
after_calls-IsWellFormed [] =
    unfold new_metrics in
    record { renders = AllFit-nil render_buckets; requests = AllFit-nil http_buckets }
after_calls-IsWellFormed (c ∷ cs) =
    call-IsWellFormed c (after_calls cs) (after_calls-IsWellFormed cs)
