-- ===== src/Worker/Retry/Browser.antt =====
-- internal/worker/worker.go and internal/pdf/generator.go: the attempts of `generateWithRetries` are
-- calls of `GeneratePDF` on the generator that the workers share.
use chroma_flow.Base.{
  ℕ, zero, suc, ◌+◌, ◌-◌, ◌≤◌, String, ◌≡◌, ◌≢◌, refl, ap, ◌∙◌, Bool, Option, none, some, List,
  arith,
}
use chroma_flow.Queue.Types.{Error, wrap, Result, ok, err}
use chroma_flow.Pdf.{Rod, Generator, generate_pdf}
use chroma_flow.Pdf.Laws.{Resource}
use chroma_flow.Pdf.Processes.{Step, take_steps}
use chroma_flow.Pdf.Stale.{StaysOpen, generate_pdf-stale}
use chroma_flow.Worker.Retry.Laws.{Ends, returned, interrupted, generate_with_retries-IsRun}
use chroma_flow.Worker.Retry.{Attempt, settled, run_attempts, generate_with_retries}

run_attempts-fails :
    (left n : ℕ) (env : ℕ → Attempt) (x : Error)
    → ((i : ℕ) → n ≤ i → (env i).rendered ≡ err x)
    → ((i : ℕ) → (env i).ctx_err ≡ none)
    → ((i : ℕ) → (env i).woken ≡ none)
    → run_attempts left n env ≡ record { result = err x; attempts = n + left }
unfolding run_attempts settled
run_attempts-fails zero n env x fails live waits = rw (fails n (omega arith)) (ground arith)
run_attempts-fails (suc left) n env x fails live waits = rw (fails n (omega arith)) (
    rw (live n) (
      rw (waits n) (
        run_attempts-fails left (suc n) env x (λ i h. fails i (omega arith)) live waits
        ∙ ground arith)))

Ends-err :
    (a : Attempt) (r : Result (List ℕ)) (x : Error)
    → Ends a r
    → a.rendered ≡ err x
    → (pdf : List ℕ) → r ≢ ok pdf
Ends-err a r x (returned p) fails pdf q = cc
Ends-err a r x (interrupted w p) fails pdf q = cc

module _ {W Context Browser Stream : Type 0} (rod : Rod W Context Browser Stream)
    (holds : W → Resource → Bool) (ctx : Context) (url : String)
    (between : ℕ → List (Step W Context Browser holds)) where
  -- The attempt after `n` others: first what the other goroutines and the machine do meanwhile.
  abbrev pub attempt : ℕ → Generator Browser × W → Result (List ℕ) × Generator Browser × W
  attempt n s = let (g, w) = take_steps rod holds (between n) s in generate_pdf rod ctx url g w

  -- The generator and the machine after `n` attempts.
  pub after_attempts : ℕ → Generator Browser × W → Generator Browser × W
  after_attempts zero s = s
  after_attempts (suc n) s = let (r, g, w) = attempt n (after_attempts n s) in (g, w)

  -- What the attempts meet, counted from 1; `ends n` is what the context says after the n-th one and
  -- during the wait for the next.
  abbrev pub attempts_on :
      (ends : ℕ → Option Error × Option Error) → Generator Browser × W → ℕ → Attempt
  attempts_on ends s n = record {
    rendered = (attempt (n - 1) (after_attempts (n - 1) s)).0;
    ctx_err = (ends n).0;
    woken = (ends n).1;
  }

  module _ (b : Browser) (e : Error) (Lost : W → Type 0)
      (refuses : (w : W) (limited : Context) → Lost w → (rod.open_page limited b url w).0 ≡ err e)
      (stays_lost : (w : W) (limited : Context) → Lost w → Lost (rod.open_page limited b url w).1)
      (g : Generator Browser) (connected : g.browser_inst ≡ some b)
      (meanwhile_lost : (n : ℕ) (w : W) → Lost w → Lost (take_steps rod holds (between n) (g, w)).1)
      (stays_open : (n : ℕ) → StaysOpen (between n)) where
    attempt-Lost :
        (n : ℕ) (w : W)
        → Lost w
        → (w' : W) × Lost w' × (attempt n (g, w) ≡ (err (wrap "open page" e), g, w'))
    attempt-Lost n w lost =
        let limited = rod.with_timeout g.timeout ctx in
        let w' = (take_steps rod holds (between n) (g, w)).1 in
        let still = meanwhile_lost n w lost in
        (
          (rod.open_page limited b url w').1,
          stays_lost w' limited still,
          generate_pdf-stale rod holds (between n) ctx url g w b e (stays_open n) connected
              (refuses w' limited still),
        )

    after_attempts-Lost :
        (n : ℕ) (w : W) → Lost w → (w' : W) × Lost w' × (after_attempts n (g, w) ≡ (g, w'))
    unfolding after_attempts
    after_attempts-Lost zero w lost = (w, lost, refl)
    after_attempts-Lost (suc n) w lost =
        let (w', lost', p) = after_attempts-Lost n w lost in
        let (w'', lost'', q) = attempt-Lost n w' lost' in
        (w'', lost'', ap (λ s. let (r, g', v) = attempt n s in (g', v)) p ∙ ap (λ t. (t.1, t.2)) q)

    rendered-Lost :
        (n : ℕ) (w : W)
        → Lost w
        → (attempt n (after_attempts n (g, w))).0 ≡ err (wrap "open page" e)
    rendered-Lost n w lost =
        let (w', lost', p) = after_attempts-Lost n w lost in
        let (w'', lost'', q) = attempt-Lost n w' lost' in
        ap (λ s. (attempt n s).0) p ∙ ap (λ t. t.0) q

    -- Where the browser `b` was connected and is lost for good, no retry helps: whatever the other
    -- goroutines do between the attempts, as long as none of it is `Close`, and whatever the
    -- contexts say, `generateWithRetries` returns no PDF; and where no context ends, it makes all
    -- its attempts on `b` and returns the error of opening a page.
    pub retries_are_lost :
        (retries : ℕ) (w : W)
        → Lost w
        → ((ends : ℕ → Option Error × Option Error) (pdf : List ℕ)
            → (generate_with_retries retries (attempts_on ends (g, w))).result ≢ ok pdf)
          × (generate_with_retries retries (attempts_on (λ n. (none, none)) (g, w))
              ≡ record { result = err (wrap "open page" e); attempts = 1 + retries })
    unfolding generate_with_retries
    retries_are_lost retries w lost = (
      λ ends pdf.
          let run = generate_with_retries-IsRun retries (attempts_on ends (g, w)) in
          Ends-err _ _ (wrap "open page" e) run.ends (rendered-Lost _ w lost) pdf,
      run_attempts-fails retries 1 (attempts_on (λ n. (none, none)) (g, w)) (wrap "open page" e)
          (λ i h. rendered-Lost (i - 1) w lost) (λ i. refl) (λ i. refl),
    )
