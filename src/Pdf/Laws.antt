-- ===== src/Pdf/Laws.antt =====
-- internal/pdf/generator.go: what is left running. The laws of rod say what its calls may leave
-- behind, processes and pages; both may also end by themselves at any time.
use chroma_flow.Base.{ℕ, String, ◌≡◌, ◌≢◌, ◌⊎◌, inl, inr, Bool, true, Option, none, some}
use chroma_flow.Queue.Types.{Error, Result, ok, err}
use chroma_flow.Pdf.{Rod, stream_read, loaded, page_rendered, render}

pub data Resource : Type 0 where
  process page : ℕ → Resource

-- What a call that returned this has made.
abbrev pub IsLaunched : Result (String × ℕ) → Resource → Type 0
IsLaunched (ok (url, p)) r = r ≡ process p
IsLaunched (err e) r = ⊥

abbrev pub IsOpened : Result ℕ → Resource → Type 0
IsOpened (ok q) r = r ≡ page q
IsOpened (err e) r = ⊥

-- Nothing is left that was not there before.
abbrev pub Leaves : {W : Type 0} → (W → Resource → Bool) → W → W → Type 0
Leaves holds w w' = (r : Resource) → holds w' r ≡ true → holds w r ≡ true

module _ {W Context Browser Stream : Type 0} where
  -- `holds w r`: the resource exists. A launch that fails leaves no process, and a page that could
  -- not be opened is not there.
  pub record RodLaws (rod : Rod W Context Browser Stream) (holds : W → Resource → Bool)
      : Type 0 where
    pub launch_lem :
        (ctx : Context) (path : String) (w : W) (r : Resource)
        → holds (rod.launch ctx path w).1 r ≡ true
        → IsLaunched (rod.launch ctx path w).0 r ⊎ (holds w r ≡ true)
    pub kill_lem :
        (p : ℕ) (w : W) (r : Resource)
        → holds (rod.kill p w) r ≡ true
        → (r ≢ process p) × (holds w r ≡ true)
    pub connect_lem :
        (ctx : Context) (url : String) (w : W) → Leaves holds w (rod.connect ctx url w).1
    pub close_browser_lem : (b : Browser) (w : W) → Leaves holds w (rod.close_browser b w)
    pub open_page_lem :
        (ctx : Context) (b : Browser) (url : String) (w : W) (r : Resource)
        → holds (rod.open_page ctx b url w).1 r ≡ true
        → IsOpened (rod.open_page ctx b url w).0 r ⊎ (holds w r ≡ true)
    pub wait_load_lem : (ctx : Context) (q : ℕ) (w : W) → Leaves holds w (rod.wait_load ctx q w).1
    pub print_pdf_lem : (ctx : Context) (q : ℕ) (w : W) → Leaves holds w (rod.print_pdf ctx q w).1
    pub read_all_lem : (s : Stream) (w : W) → Leaves holds w (rod.read_all s w).1
    pub close_stream_lem : (s : Stream) (w : W) → Leaves holds w (rod.close_stream s w)
    pub close_page_lem :
        (ctx : Context) (q : ℕ) (w : W) (r : Resource)
        → holds (rod.close_page ctx q w) r ≡ true
        → (r ≢ page q) × (holds w r ≡ true)

module _ {W Context Browser Stream : Type 0} (rod : Rod W Context Browser Stream)
    (holds : W → Resource → Bool) (laws : RodLaws rod holds) where
  stream_read-Leaves : (x : Result Stream) (w : W) → Leaves holds w (stream_read rod (x, w)).1
  unfolding stream_read
  stream_read-Leaves (err e) w r h = h
  stream_read-Leaves (ok s) w r h =
      laws.read_all_lem s w r (laws.close_stream_lem s (rod.read_all s w).1 r h)

  loaded-Leaves :
      (ctx : Context) (q : ℕ) (x : Option Error) (w : W)
      → Leaves holds w (loaded rod ctx q (x, w)).1
  unfolding loaded
  loaded-Leaves ctx q (some e) w r h = h
  loaded-Leaves ctx q none w r h =
      laws.print_pdf_lem ctx q w r
        (stream_read-Leaves (rod.print_pdf ctx q w).0 (rod.print_pdf ctx q w).1 r h)

  -- The rendering with a page that was opened on the machine `w₀`.
  page_rendered-Leaves :
      (ctx : Context) (w₀ : W) (x : Result ℕ) (w : W)
      → ((r : Resource) → holds w r ≡ true → IsOpened x r ⊎ (holds w₀ r ≡ true))
      → Leaves holds w₀ (page_rendered rod ctx (x, w)).1
  unfolding page_rendered
  page_rendered-Leaves ctx w₀ (err e) w opened r h = elim (opened r h) [
    | inl n ↦ absurd n
    | inr o ↦ o
  ]
  page_rendered-Leaves ctx w₀ (ok q) w opened r h =
      let (waited, w₁) = rod.wait_load ctx q w in
      let (other, before) = laws.close_page_lem ctx q (loaded rod ctx q (waited, w₁)).1 r h in
      elim (opened r (laws.wait_load_lem ctx q w r (loaded-Leaves ctx q waited w₁ r before))) [
        | inl n ↦ absurd (other n)
        | inr o ↦ o
      ]

  -- On every path, a rendering leaves no process and no page that was not there before: the page
  -- that it opened is closed, also where the loading, the printing or the reading fails.
  pub render-Leaves :
      (ctx : Context) (b : Browser) (url : String) (w : W)
      → Leaves holds w (render rod ctx b url w).1
  unfolding render
  render-Leaves ctx b url w =
      page_rendered-Leaves ctx w (rod.open_page ctx b url w).0 (rod.open_page ctx b url w).1
        (laws.open_page_lem ctx b url w)
