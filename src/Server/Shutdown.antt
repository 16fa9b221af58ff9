-- ===== src/Server/Shutdown.antt =====
-- cmd/server/main.go: the end of main, after the signal. The deferred calls run where main returns,
-- and not where it calls `os.Exit`.
use chroma_flow.Base.{
  ℕ, String, ◌≡◌, refl, ap, subst, Bool, true, false, Option, none, some, List, [], ◌∷◌, ◌++◌, ℤ,
}
use chroma_flow.Queue.Types.{Error}
use chroma_flow.Pdf.{Rod, Generator, new_generator, close}
use chroma_flow.Pdf.Laws.{Resource, process, RodLaws}
use chroma_flow.Pdf.Processes.{Step, take_step, take_steps, no_process_is_left}

-- How main ended, and whether it canceled the context of the workers.
pub record Ended : Type 0 where
  pub exit_code : ℕ
  pub canceled : Bool

module _ {W Context Browser Stream : Type 0} (rod : Rod W Context Browser Stream) where
  -- `server_err` is what `server.Shutdown` returns. `meanwhile` is what the workers make of the
  -- generator and the machine between `cancel()` and the return of `pool.Wait`, whose error is only
  -- logged.
  unfoldable pub shut_down :
      (server_err : Option Error)
      → (meanwhile : Generator Browser × W → Generator Browser × W) → Generator Browser × W
      → Ended × Generator Browser × W
  shut_down (some e) meanwhile (g, w) = (record { exit_code = 1; canceled = false }, g, w)
  shut_down none meanwhile s =
      let (g, w) = meanwhile s in
      let (g', w') = close rod g w in (record { exit_code = 0; canceled = true }, g', w')

module _ {W Context Browser Stream : Type 0} (rod : Rod W Context Browser Stream)
    (holds : W → Resource → Bool) (laws : RodLaws rod holds) where
  steps-append :
      (more cs : List (Step W Context Browser holds)) (s : Generator Browser × W)
      → take_steps rod holds (more ++ cs) s ≡ take_steps rod holds more (take_steps rod holds cs s)
  unfolding take_steps
  steps-append [] cs s = refl
  steps-append (c ∷ more) cs s = ap (take_step rod holds c) (steps-append more cs s)

  -- From a new generator on a machine where no process runs, after any steps `cs`: where
  -- `server.Shutdown` returns no error, no process is left when main ends, whatever steps the workers
  -- take until `pool.Wait` returns.
  pub shut_down-leaves_none :
      (timeout : ℤ) (url : String) (w : W) (cs more : List (Step W Context Browser holds))
      → ((p : ℕ) → holds w (process p) ≡ false)
      → let s = take_steps rod holds cs (new_generator timeout url, w) in
        let (ended, g, w') = shut_down rod none (take_steps rod holds more) s in
        (p : ℕ) → holds w' (process p) ≡ false
  unfolding shut_down
  shut_down-leaves_none timeout url w cs more quiet =
      subst (λ t. (p : ℕ) → holds (close rod t.0 t.1).1 (process p) ≡ false)
        (steps-append more cs (new_generator timeout url, w))
        (no_process_is_left rod holds laws timeout url w (more ++ cs) quiet).1
