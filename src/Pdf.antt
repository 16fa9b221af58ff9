-- ===== src/Pdf.antt =====
-- internal/pdf/generator.go: the generator and its browser. The package rod, which launches and
-- drives the browser, is a parameter: a function on `W`, the state of the machine. A process and a
-- page are known by a number.
pub mod Laws
pub mod Processes
pub mod Stale
use chroma_flow.Base.{
  ℕ, ◌*◌, String, Bool, Option, none, some, List, ◌==◌, if◌then◌else◌, ℤ, pos, negsuc, leb,
}
use chroma_flow.Queue.Types.{Error, wrap, Result, ok, err}

-- The calls of rod, of its launcher, and of `os.Getenv` and `io.ReadAll`. A page and a stream are
-- bound to the context with which they were made.
pub record Rod (W Context Browser Stream : Type 0) : Type 0 where
  pub with_timeout : ℕ → Context → Context
  pub chrome_bin : String
  pub look_path : W → String
  pub launch : Context → String → W → Result (String × ℕ) × W
  pub kill : ℕ → W → W
  pub connect : Context → String → W → Result Browser × W
  pub close_browser : Browser → W → W
  pub open_page : Context → Browser → String → W → Result ℕ × W
  pub wait_load : Context → ℕ → W → Option Error × W
  pub print_pdf : Context → ℕ → W → Result Stream × W
  pub read_all : Stream → W → Result (List ℕ) × W
  pub close_stream : Stream → W → W
  pub close_page : Context → ℕ → W → W

-- The cleanup functions: `func() {}`, and `l.Kill` of the process that was launched.
pub data Cleanup : Type 0 where
  nothing : Cleanup
  kills : ℕ → Cleanup

pub record Generator (Browser : Type 0) : Type 0 where
  pub timeout : ℕ
  pub chrome_ws_url : String
  pub browser_inst : Option Browser
  pub cleanup : Option Cleanup

-- `NewGenerator`; the timeout in nanoseconds, of seconds with a default of 30.
unfoldable pub timeout_of : ℤ → ℕ
timeout_of (pos n) = (if leb n 0 then 30 else n) * 1000000000
timeout_of (negsuc n) = 30 * 1000000000

unfoldable pub new_generator : {Browser : Type 0} → ℤ → String → Generator Browser
unfolding timeout_of
new_generator timeout_sec chrome_ws_url = record {
  timeout = timeout_of timeout_sec;
  chrome_ws_url = chrome_ws_url;
  browser_inst = none;
  cleanup = none;
}

module _ {W Context Browser Stream : Type 0} (rod : Rod W Context Browser Stream) where
  unfoldable pub clean : Cleanup → W → W
  clean nothing w = w
  clean (kills p) w = rod.kill p w

  pub launched : Result (String × ℕ) × W → Result (String × Cleanup) × W
  launched (ok (url, p), w) = (ok (url, kills p), w)
  launched (err e, w) = (err (wrap "launch browser" e), w)

  unfoldable pub chrome_path : W → String
  chrome_path w =
      let found = if rod.chrome_bin == "" then rod.look_path w else rod.chrome_bin in
      if found == "" then "/usr/bin/chromium-browser" else found

  -- `browserControlURL`. The cleanup that it returns beside an error does nothing.
  unfoldable pub browser_control_url :
      Context → Generator Browser → W → Result (String × Cleanup) × W
  unfolding launched chrome_path
  browser_control_url ctx g w =
      if g.chrome_ws_url == ""
      then launched (rod.launch ctx (chrome_path w) w)
      else (ok (g.chrome_ws_url, nothing), w)

  -- `ensureBrowser` once the browser was asked to connect.
  unfoldable pub connected :
      Cleanup → Generator Browser → Result Browser × W → Result Browser × Generator Browser × W
  unfolding clean
  connected cleanup g (ok b, w) =
      (ok b, record g { browser_inst = some b; cleanup = some cleanup }, w)
  connected cleanup g (err e, w) = (err (wrap "connect browser" e), g, clean cleanup w)

  unfoldable pub controlled :
      Context
      → Generator Browser
      → Result (String × Cleanup) × W
      → Result Browser × Generator Browser × W
  unfolding connected
  controlled ctx g (ok (url, cleanup), w) = connected cleanup g (rod.connect ctx url w)
  controlled ctx g (err e, w) = (err e, g, w)

  unfoldable pub ensured :
      Context → Option Browser → Generator Browser → W → Result Browser × Generator Browser × W
  unfolding controlled browser_control_url
  ensured ctx (some b) g w = (ok b, g, w)
  ensured ctx none g w = controlled ctx g (browser_control_url ctx g w)

  -- `ensureBrowser`, which holds the mutex.
  unfoldable pub ensure_browser :
      Context → Generator Browser → W → Result Browser × Generator Browser × W
  unfolding ensured
  ensure_browser ctx g w = ensured ctx g.browser_inst g w

  -- What follows `page.PDF`; a stream that was read is closed.
  unfoldable pub stream_read : Result Stream × W → Result (List ℕ) × W
  stream_read (err e, w) = (err (wrap "print pdf" e), w)
  stream_read (ok stream, w) =
      let (bytes, w') = rod.read_all stream w in
      (
        elim bytes [ ok pdf ↦ ok pdf | err e ↦ err (wrap "read pdf stream" e) ],
        rod.close_stream stream w',
      )

  unfoldable pub loaded : Context → ℕ → Option Error × W → Result (List ℕ) × W
  unfolding stream_read
  loaded ctx page (some e, w) = (err (wrap "wait for page load" e), w)
  loaded ctx page (none, w) = stream_read (rod.print_pdf ctx page w)

  -- The rendering once the page was asked for: a page that was opened is closed.
  unfoldable pub page_rendered : Context → Result ℕ × W → Result (List ℕ) × W
  unfolding loaded
  page_rendered ctx (err e, w) = (err (wrap "open page" e), w)
  page_rendered ctx (ok page, w) =
      let (result, w') = loaded ctx page (rod.wait_load ctx page w) in
      (result, rod.close_page ctx page w')

  unfoldable pub render : Context → Browser → String → W → Result (List ℕ) × W
  unfolding page_rendered
  render ctx b url w = page_rendered ctx (rod.open_page ctx b url w)

  unfoldable pub rendered_by :
      Context
      → String
      → Result Browser × Generator Browser × W
      → Result (List ℕ) × Generator Browser × W
  unfolding render
  rendered_by ctx url (err e, g, w) = (err e, g, w)
  rendered_by ctx url (ok b, g, w) = let (result, w') = render ctx b url w in (result, g, w')

  -- `GeneratePDF`.
  unfoldable pub generate_pdf :
      Context → String → Generator Browser → W → Result (List ℕ) × Generator Browser × W
  unfolding ensure_browser rendered_by
  generate_pdf ctx url g w =
      let limited = rod.with_timeout g.timeout ctx in
      rendered_by limited url (ensure_browser limited g w)

  pub browser_closed : Option Browser → W → W
  browser_closed none w = w
  browser_closed (some b) w = rod.close_browser b w

  pub cleaned : Option Cleanup → W → W
  unfolding clean
  cleaned none w = w
  cleaned (some c) w = clean c w

  -- `Close`.
  unfoldable pub close : Generator Browser → W → Generator Browser × W
  unfolding browser_closed cleaned
  close g w = (
    record g { browser_inst = none; cleanup = none },
    cleaned g.cleanup (browser_closed g.browser_inst w),
  )
