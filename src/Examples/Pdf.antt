-- ===== src/Examples/Pdf.antt =====
-- internal/pdf/generator.go on a machine that runs one browser with one page at most.
use chroma_flow.Base.{
  ℕ, ◌≡◌, ◌≢◌, refl, ap, ◌⊎◌, inl, inr, Bool, true, false, Option, none, some, List, [], ◌∷◌, eqb,
  arith, pos,
}
use chroma_flow.Queue.Types.{Error, text, wrap, Result, ok, err}
use chroma_flow.Pdf.{Rod, Generator, kills, new_generator, generate_pdf, close, ensure_browser}
use chroma_flow.Pdf.Laws.{Resource, process, page, IsOpened, Leaves, RodLaws}
use chroma_flow.Pdf.Processes.{Step, ensures, renders, take_steps, no_process_is_left}
use chroma_flow.Worker.Retry.{generate_with_retries}
use chroma_flow.Worker.Retry.Browser.{attempts_on, retries_are_lost}

-- The process and the page, where there are any.
abbrev pub Machine : Type 0
Machine = Option ℕ × Option ℕ

abbrev pub is_at : Option ℕ → ℕ → Bool
is_at none n = false
is_at (some m) n = eqb m n

abbrev pub holds : Machine → Resource → Bool
holds (x, q) (process n) = is_at x n
holds (x, q) (page n) = is_at q n

abbrev pub opened : Machine → Result ℕ × Machine
opened (none, q) = (err (text "closed"), (none, q))
opened (some p, q) = (ok 1, (some p, some 1))

abbrev pub rod : Rod Machine ℕ (Unit {0}) (Unit {0})
rod = record {
  with_timeout = λ timeout ctx. timeout;
  chrome_bin = "";
  look_path = λ w. "/usr/bin/chromium";
  launch = λ ctx path w. (ok ("ws://127.0.0.1:9222", 7), (some 7, w.1));
  kill = λ p w. (none, w.1);
  connect = λ ctx url w. (ok tt, w);
  close_browser = λ b w. (w.0, none);
  open_page = λ ctx b url w. opened w;
  wait_load = λ ctx q w. (none, w);
  print_pdf = λ ctx q w. (ok tt, w);
  read_all = λ s w. (ok (37 ∷ 80 ∷ []), w);
  close_stream = λ s w. w;
  close_page = λ ctx q w. (w.0, none);
}

opened-Leaves :
    (w : Machine) (r : Resource)
    → holds (opened w).1 r ≡ true
    → IsOpened (opened w).0 r ⊎ (holds w r ≡ true)
opened-Leaves (none, q) (process n) h = inr h
opened-Leaves (none, q) (page n) h = inr h
opened-Leaves (some p, q) (process n) h = inr h
opened-Leaves (some p, q) (page n) h = inl (ap page (ground arith))

page_closed :
    (w : Machine) (q : ℕ) (r : Resource)
    → holds (w.0, none) r ≡ true
    → (r ≢ page q) × (holds w r ≡ true)
page_closed w q (process n) h = (λ e. cc, h)
page_closed w q (page n) h = absurd (cc h)

killed :
    (w : Machine) (p : ℕ) (r : Resource)
    → holds (none, w.1) r ≡ true
    → (r ≢ process p) × (holds w r ≡ true)
killed w p (process n) h = absurd (cc h)
killed w p (page n) h = (λ e. cc, h)

launched :
    (w : Machine) (r : Resource)
    → holds (some 7, w.1) r ≡ true
    → (r ≡ process 7) ⊎ (holds w r ≡ true)
launched w (process n) h = inl (ap process (ground arith))
launched w (page n) h = inr h

pub rod-RodLaws : RodLaws rod holds
rod-RodLaws = record {
  launch_lem = λ ctx path w r h. launched w r h;
  kill_lem = λ p w r h. killed w p r h;
  connect_lem = λ ctx url w r h. h;
  close_browser_lem = λ b w r h. (page_closed w 0 r h).1;
  open_page_lem = λ ctx b url w r h. opened-Leaves w r h;
  wait_load_lem = λ ctx q w r h. h;
  print_pdf_lem = λ ctx q w r h. h;
  read_all_lem = λ s w r h. h;
  close_stream_lem = λ s w r h. h;
  close_page_lem = λ ctx q w r h. page_closed w q r h;
}

-- The machine when its browser crashed.
abbrev pub crashed : Machine → Machine
crashed w = (none, none)

pub crashed-Leaves : (w : Machine) → Leaves holds w (crashed w)
crashed-Leaves w (process n) h = absurd (cc h)
crashed-Leaves w (page n) h = absurd (cc h)

abbrev pub steps : List (Step Machine ℕ (Unit {0}) holds)
steps = renders 0 tt "https://example.com" ∷ ensures 0 ∷ []

no_process_is_left_example :
    let (g, w) = take_steps rod holds steps (new_generator (pos 0) "", (none, none)) in
    ((p : ℕ) → holds w (process p) ≡ true → g.cleanup ≡ some (kills p))
    × ((p : ℕ) → holds (close rod g w).1 (process p) ≡ false)
no_process_is_left_example =
    no_process_is_left rod holds rod-RodLaws (pos 0) "" (none, none) steps (λ p. refl)

abbrev generator : Generator (Unit {0})
generator = record {
  timeout = 30000000000;
  chrome_ws_url = "";
  browser_inst = some tt;
  cleanup = some (kills 7);
}

launches_browser :
    ensure_browser rod 0 (new_generator (pos 0) "") (none, none)
    ≡ (ok tt, generator, (some 7, none))
unfolding ensure_browser new_generator
launches_browser = refl

renders_pdf :
    generate_pdf rod 0 "https://example.com" generator (some 7, none)
    ≡ (ok (37 ∷ 80 ∷ []), generator, (some 7, none))
unfolding generate_pdf
renders_pdf = refl

-- Between the attempts another worker asks for the browser.
abbrev others : ℕ → List (Step Machine ℕ (Unit {0}) holds)
others n = ensures 0 ∷ []

-- No process runs.
abbrev Crashed : Machine → Type 0
Crashed w = w.0 ≡ none

opened-Crashed :
    (w : Machine) → Crashed w → ((opened w).0 ≡ err (text "closed")) × ((opened w).1.0 ≡ none)
opened-Crashed (none, q) h = (refl, refl)
opened-Crashed (some p, q) h = absurd (cc h)

others-Crashed :
    (n : ℕ) (w : Machine) → Crashed w → Crashed (take_steps rod holds (others n) (generator, w)).1
unfolding take_steps ensure_browser
others-Crashed n w h = h

retries_are_lost_example :
    ((ends : ℕ → Option Error × Option Error) (pdf : List ℕ)
      → (generate_with_retries 2 (
          attempts_on rod holds 0 "https://example.com" others ends
            (generator, (none, none)))).result
        ≢ ok pdf)
    × (generate_with_retries 2 (
          attempts_on rod holds 0 "https://example.com" others
            (λ n. (none, none))
            (generator, (none, none)))
        ≡ record { result = err (wrap "open page" (text "closed")); attempts = 3 })
retries_are_lost_example =
    retries_are_lost rod holds 0 "https://example.com" others tt (text "closed") Crashed
      (λ w limited h. (opened-Crashed w h).0) (λ w limited h. (opened-Crashed w h).1) generator refl
      others-Crashed (λ n. tt) 2 (none, none) refl
