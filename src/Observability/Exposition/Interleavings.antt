-- ===== src/Observability/Exposition/Interleavings.antt =====
-- internal/observability/metrics.go: goroutines call the metrics in whatever order the lock happens
-- to give them, and `WritePrometheus` shows that only in the rounding of its sums.
use mathlib.Core.Logic.{∥∥₁_elim}
use mathlib.Core.List.{Perm, Permᴰ}
use text.Mathlib.TextEquality.{IsScalar-prop}
use chroma_flow.Base.{
  ℕ, String, ◌≡◌, refl, sym, ◌∙◌, Option, List, [], ◌∷◌, ◌==◌, if◌then◌else◌, arith,
}
use chroma_flow.Base.Dict
use chroma_flow.Base.Dict.{Dict, Eq, String-eq, get-put}
use chroma_flow.Redisx.Strconv.{itoa}
use chroma_flow.Observability.Format.{Float}
use chroma_flow.Observability.Metrics.{
  new_metrics, HttpLabel, HttpLabel-eq, label_beq, add_to, addends,
}
use chroma_flow.Observability.Calls.{
  Call, submitted, started, stopped, rejected, rendered, recorded, call, after_calls,
}
use chroma_flow.Observability.View.{
  View, view, call_view, call_view-swap, after_calls_view, view-after_calls,
}
use chroma_flow.Observability.Exposition.{Callbacks, write_prometheus}
use chroma_flow.Observability.Exposition.Views.{write_prometheus-view}

after_calls_view-Permᴰ :
    (v : View) {cs ds : List Call} → Permᴰ cs ds → after_calls_view cs v ≡ after_calls_view ds v
unfolding after_calls_view
after_calls_view-Permᴰ v Permᴰ.nil = refl
after_calls_view-Permᴰ v (Permᴰ.cons e p) = λ i. call_view (e i) (after_calls_view-Permᴰ v p i)
after_calls_view-Permᴰ v (Permᴰ.swap {a = a} {b = b} {l = l} e f) =
    call_view-swap a b (after_calls_view l v) ∙ λ i.
    call_view (f i) (call_view (e i) (after_calls_view l v))
after_calls_view-Permᴰ v (Permᴰ.trans p q) = after_calls_view-Permᴰ v p ∙ after_calls_view-Permᴰ v q

text_set : IsSet (Option String)
text_set = hlevel (IsScalar-prop)

-- The durations of the renders with a status, and of the requests with a label, the latest first.
unfoldable pub renders_of : String → List Call → List ℕ
renders_of status [] = []
renders_of status (rendered t duration bytes ∷ cs) =
    let rest = renders_of status cs in if t == status then duration ∷ rest else rest
renders_of status (_ ∷ cs) = renders_of status cs

unfoldable pub requests_of : HttpLabel → List Call → List ℕ
requests_of l [] = []
requests_of l (recorded method path code duration ∷ cs) =
    let rest = requests_of l cs in
    if label_beq (record { method = method; path = path; code = itoa code }) l
    then duration ∷ rest
    else rest
requests_of l (_ ∷ cs) = requests_of l cs

addends-add_to {ℓ} :
    {K : Type ℓ} ⦃e : Eq K⦄ (j k : K) (d : ℕ) (m : Dict K (List ℕ)) (ds : List ℕ)
    → addends (Dict.get k m) ≡ ds
    → addends (Dict.get k (add_to j d m)) ≡ (if e.beq j k then d ∷ ds else ds)
unfolding add_to
addends-add_to ⦃e⦄ j k d m ds h =
    ground (arith, get-put j k (d ∷ addends (Dict.get j m)) m, e.beq_iff j k)

addends-render_sum :
    (status : String) (cs : List Call)
    → addends (Dict.get status (after_calls cs).render_sum) ≡ renders_of status cs
unfolding after_calls call renders_of
addends-render_sum status [] = unfold new_metrics Dict.get in refl
addends-render_sum status (submitted ∷ cs) = addends-render_sum status cs
addends-render_sum status (started ∷ cs) = addends-render_sum status cs
addends-render_sum status (stopped ∷ cs) = addends-render_sum status cs
addends-render_sum status (rejected reason ∷ cs) = addends-render_sum status cs
addends-render_sum status (rendered t duration bytes ∷ cs) =
    addends-add_to t status duration (after_calls cs).render_sum (renders_of status cs)
      (addends-render_sum status cs)
addends-render_sum status (recorded method path code duration ∷ cs) = addends-render_sum status cs

addends-http_sum :
    (l : HttpLabel) (cs : List Call)
    → addends (Dict.get l (after_calls cs).http_sum) ≡ requests_of l cs
unfolding after_calls call requests_of
addends-http_sum l [] = unfold new_metrics Dict.get in refl
addends-http_sum l (submitted ∷ cs) = addends-http_sum l cs
addends-http_sum l (started ∷ cs) = addends-http_sum l cs
addends-http_sum l (stopped ∷ cs) = addends-http_sum l cs
addends-http_sum l (rejected reason ∷ cs) = addends-http_sum l cs
addends-http_sum l (rendered t duration bytes ∷ cs) = addends-http_sum l cs
addends-http_sum l (recorded method path code duration ∷ cs) =
    addends-add_to _ l duration (after_calls cs).http_sum (requests_of l cs) (addends-http_sum l cs)

-- Whatever the arithmetic of floats, the text of the metrics depends on the order of the calls only
-- through the order in which durations are added to one sum: two sequences with the same calls, each
-- as often, in which the renders of each status and the requests of each label have their durations
-- in the same order, leave metrics of which `WritePrometheus` writes the same text.
pub write_prometheus-perm :
    {F : Type 0} (float : Float F) (quote : String → String) (callbacks : Callbacks)
    → (cs ds : List Call) → Perm cs ds
    → ((status : String) → renders_of status cs ≡ renders_of status ds)
    → ((l : HttpLabel) → requests_of l cs ≡ requests_of l ds)
    → write_prometheus quote float callbacks (after_calls cs)
      ≡ write_prometheus quote float callbacks (after_calls ds)
write_prometheus-perm float quote callbacks cs ds p renders requests =
    ∥∥₁_elim p (text_set _ _) (λ d.
      write_prometheus-view quote float callbacks (after_calls cs) (after_calls ds)
        (view-after_calls cs
          ∙ after_calls_view-Permᴰ (view new_metrics) d
          ∙ sym (view-after_calls ds))
        (λ k. addends-render_sum k cs ∙ renders k ∙ sym (addends-render_sum k ds))
        (λ l. addends-http_sum l cs ∙ requests l ∙ sym (addends-http_sum l ds)))
