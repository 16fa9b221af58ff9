-- ===== src/Pdf/Stale.antt =====
-- internal/pdf/generator.go: a browser that was connected is used until `Close`, whatever became of
-- it.
use chroma_flow.Base.{ℕ, String, ◌≡◌, refl, ap, ◌∙◌, Bool, some, List, [], ◌∷◌}
use chroma_flow.Queue.Types.{Error, wrap, Result, ok, err}
use chroma_flow.Pdf.{
  Rod, Generator, ensured, ensure_browser, page_rendered, render, rendered_by, generate_pdf,
}
use chroma_flow.Pdf.Laws.{Resource}
use chroma_flow.Pdf.Processes.{Step, ensures, renders, closes, elapses, take_steps}

-- No step is a `Close`.
abbrev pub StaysOpen :
    {W Context Browser : Type 0} {holds : W → Resource → Bool}
    → List (Step W Context Browser holds)
    → Type 0
StaysOpen [] = Unit
StaysOpen (closes ∷ cs) = ⊥
StaysOpen (ensures ctx ∷ cs) = StaysOpen cs
StaysOpen (renders ctx b url ∷ cs) = StaysOpen cs
StaysOpen (elapses f harmless ∷ cs) = StaysOpen cs

module _ {W Context Browser Stream : Type 0} (rod : Rod W Context Browser Stream)
    (holds : W → Resource → Bool) where
  -- With a browser, `ensureBrowser` changes nothing.
  ensure_browser-connected :
      (ctx : Context) (g : Generator Browser) (w : W) {b : Browser}
      → g.browser_inst ≡ some b
      → ensure_browser rod ctx g w ≡ (ok b, g, w)
  unfolding ensure_browser ensured
  ensure_browser-connected ctx g w e = ap (λ x. ensured rod ctx x g w) e

  steps-keep_browser :
      (cs : List (Step W Context Browser holds)) (g : Generator Browser) (w : W) {b : Browser}
      → StaysOpen cs
      → g.browser_inst ≡ some b
      → (take_steps rod holds cs (g, w)).0 ≡ g
  unfolding take_steps
  steps-keep_browser [] g w s e = refl
  steps-keep_browser (closes ∷ cs) g w s e = elim s [ ]
  steps-keep_browser (renders ctx b url ∷ cs) g w s e = steps-keep_browser cs g w s e
  steps-keep_browser (elapses f harmless ∷ cs) g w s e = steps-keep_browser cs g w s e
  steps-keep_browser (ensures ctx ∷ cs) g w s e =
      let (g', w') = take_steps rod holds cs (g, w) in
      let kept : g' ≡ g = steps-keep_browser cs g w s e in
      ap (λ t. t.1) (ensure_browser-connected ctx g' w' (ap (λ h. h.browser_inst) kept ∙ e)) ∙ kept

  -- Once a browser is connected, after any steps but `Close` the generator is the same, and
  -- `GeneratePDF` renders with that browser. So where it can open no page any more, because it ended
  -- or its connection broke, every later call fails with that error, and no browser is launched.
  pub generate_pdf-stale :
      (cs : List (Step W Context Browser holds)) (ctx : Context) (url : String)
      (g : Generator Browser) (w : W) (b : Browser) (e : Error)
      → StaysOpen cs
      → g.browser_inst ≡ some b
      → (rod.open_page (rod.with_timeout g.timeout ctx) b url (take_steps rod holds cs (g, w)).1).0
        ≡ err e
      → let (g', w') = take_steps rod holds cs (g, w) in
        generate_pdf rod ctx url g' w'
        ≡ (err (wrap "open page" e), g, (rod.open_page (rod.with_timeout g.timeout ctx) b url w').1)
  unfolding generate_pdf rendered_by render page_rendered
  generate_pdf-stale cs ctx url g w b e s connected dead =
      let w' = (take_steps rod holds cs (g, w)).1 in
      let limited = rod.with_timeout g.timeout ctx in
      ap (λ g'. generate_pdf rod ctx url g' w') (steps-keep_browser cs g w s connected)
      ∙ ap (rendered_by rod limited url) (ensure_browser-connected limited g w' connected)
      ∙ ap
          (λ opened.
            rendered_by_page
              (page_rendered rod limited (opened, (rod.open_page limited b url w').1)))
          dead
    where
      rendered_by_page : Result (List ℕ) × W → Result (List ℕ) × Generator Browser × W
      rendered_by_page (x, w'') = (x, g, w'')
