-- ===== src/Pdf/Processes.antt =====
-- internal/pdf/generator.go: the processes of the browser, over any sequence of the steps that the
-- workers, the shutdown and the machine take. `ensureBrowser` and `Close` hold the mutex.
use chroma_flow.Base.{
  ℕ, String, ◌≡◌, refl, ap, ◌⊎◌, inl, inr, Bool, true, false, Option, none, some, List, [], ◌∷◌,
  Bool-cases, ◌==◌, ℤ, subst,
}
use chroma_flow.Queue.Types.{Result, ok, err}
use chroma_flow.Pdf.{
  Rod, Cleanup, nothing, kills, Generator, new_generator, clean, browser_control_url, connected,
  controlled, ensured, ensure_browser, render, close, launched, chrome_path, cleaned,
  browser_closed,
}
use chroma_flow.Pdf.Laws.{Resource, process, IsLaunched, Leaves, RodLaws, render-Leaves}

-- The steps: `ensureBrowser`, a rendering, `Close`, and what else happens on the machine, where
-- processes and pages may end.
pub data Step (W Context Browser : Type 0) (holds : W → Resource → Bool) : Type 0 where
  ensures : Context → Step W Context Browser holds
  renders : Context → Browser → String → Step W Context Browser holds
  closes : Step W Context Browser holds
  elapses : (f : W → W) → ((w : W) → Leaves holds w (f w)) → Step W Context Browser holds

module _ {W Context Browser Stream : Type 0} (rod : Rod W Context Browser Stream)
    (holds : W → Resource → Bool) where
  abbrev pub take_step :
      Step W Context Browser holds → Generator Browser × W → Generator Browser × W
  take_step (ensures ctx) (g, w) = let (b, g', w') = ensure_browser rod ctx g w in (g', w')
  take_step (renders ctx b url) (g, w) = (g, (render rod ctx b url w).1)
  take_step closes (g, w) = close rod g w
  take_step (elapses f harmless) (g, w) = (g, f w)

  -- The steps, the latest first.
  unfoldable pub take_steps :
      List (Step W Context Browser holds) → Generator Browser × W → Generator Browser × W
  take_steps [] s = s
  take_steps (c ∷ cs) s = take_step c (take_steps cs s)

module _ {W Context Browser Stream : Type 0} (rod : Rod W Context Browser Stream)
    (holds : W → Resource → Bool) (laws : RodLaws rod holds) where
  -- The only process that may run is the one that the cleanup kills.
  abbrev KilledBy : Option Cleanup → W → Type 0
  KilledBy cleanup w = (p : ℕ) → holds w (process p) ≡ true → cleanup ≡ some (kills p)

  -- Without a browser there is nothing to clean up.
  abbrev Idle : Option Browser → Option Cleanup → Type 0
  Idle none cleanup = cleanup ≡ none
  Idle (some b) cleanup = Unit

  pub record IsOwned (g : Generator Browser) (w : W) : Type 0 where
    pub killed : KilledBy g.cleanup w
    pub idle : Idle g.browser_inst g.cleanup

  KilledBy-Leaves :
      (cleanup : Option Cleanup) (w w' : W)
      → Leaves holds w w'
      → KilledBy cleanup w
      → KilledBy cleanup w'
  KilledBy-Leaves cleanup w w' l k p h = k p (l (process p) h)

  -- After the cleanup of the only process none runs.
  KilledBy-clean : (c : Cleanup) (w : W) → KilledBy (some c) w → KilledBy none (clean rod c w)
  unfolding clean
  KilledBy-clean nothing w k p h = absurd (cc (k p h))
  KilledBy-clean (kills q) w k p h =
      let (other, before) = laws.kill_lem q w (process p) h in
      absurd (other (kills_same (k p before)))
    where
      kills_same : {p q : ℕ} → some (kills q) ≡ some (kills p) → process p ≡ process q
      kills_same e = cc

  connected-IsOwned :
      (c : Cleanup) (g : Generator Browser) (x : Result Browser) (w : W)
      → g.browser_inst ≡ none
      → g.cleanup ≡ none
      → KilledBy (some c) w
      → let (b, g', w') = connected rod c g (x, w) in IsOwned g' w'
  unfolding connected
  connected-IsOwned c g (ok b) w i e k = record { killed = k; idle = tt }
  connected-IsOwned c g (err x) w i e k = record {
    killed = rw e (KilledBy-clean c w k);
    idle = rw i e;
  }

  controlled-IsOwned :
      (ctx : Context) (g : Generator Browser) (x : Result (String × Cleanup)) (w : W)
      → g.browser_inst ≡ none
      → g.cleanup ≡ none
      → KilledBy (elim x [ ok (url, c) ↦ some c | err e ↦ none ]) w
      → let (b, g', w') = controlled rod ctx g (x, w) in IsOwned g' w'
  unfolding controlled
  controlled-IsOwned ctx g (ok (url, c)) w i e k =
      connected-IsOwned c g (rod.connect ctx url w).0 (rod.connect ctx url w).1 i e
        (KilledBy-Leaves (some c) w (rod.connect ctx url w).1 (laws.connect_lem ctx url w) k)
  controlled-IsOwned ctx g (err x) w i e k = record { killed = rw e k; idle = rw i e }

  launched-KilledBy :
      (x : Result (String × ℕ)) (w w' : W)
      → KilledBy none w
      → ((r : Resource) → holds w' r ≡ true → IsLaunched x r ⊎ (holds w r ≡ true))
      → let (y, w'') = launched rod (x, w') in
        KilledBy (elim y [ ok (url, c) ↦ some c | err e ↦ none ]) w''
  unfolding launched
  launched-KilledBy (ok (url, q)) w w' k l p h = elim (l (process p) h) [
    | inl new ↦ ap some (ap kills (process_same new))
    | inr old ↦ absurd (cc (k p old))
  ]
    where
      process_same : {p q : ℕ} → process p ≡ process q → q ≡ p
      process_same e = cc
  launched-KilledBy (err e) w w' k l p h = elim (l (process p) h) [
    | inl new ↦ absurd new
    | inr old ↦ k p old
  ]

  control_url-KilledBy :
      (ctx : Context) (g : Generator Browser) (w : W)
      → KilledBy none w
      → let (y, w') = browser_control_url rod ctx g w in
        KilledBy (elim y [ ok (url, c) ↦ some c | err e ↦ none ]) w'
  unfolding browser_control_url
  control_url-KilledBy ctx g w k = elim (Bool-cases (g.chrome_ws_url == "")) [
    | inl b ↦ rw b (
        launched-KilledBy (rod.launch ctx (chrome_path rod w) w).0 w
          (rod.launch ctx (chrome_path rod w) w).1 k (laws.launch_lem ctx (chrome_path rod w) w))
    | inr b ↦ rw b (λ p h. absurd (cc (k p h)))
  ]

  ensured-IsOwned :
      (ctx : Context) (x : Option Browser) (g : Generator Browser) (w : W)
      → g.browser_inst ≡ x
      → IsOwned g w
      → let (b, g', w') = ensured rod ctx x g w in IsOwned g' w'
  unfolding ensured
  ensured-IsOwned ctx (some b) g w e o = o
  ensured-IsOwned ctx none g w e o =
      let clear : g.cleanup ≡ none = subst (λ x. Idle x g.cleanup) e o.idle in
      let (y, w') = browser_control_url rod ctx g w in
      controlled-IsOwned ctx g y w' e clear
        (control_url-KilledBy ctx g w (subst (λ c. KilledBy c w) clear o.killed))

  cleaned-KilledBy : (c : Option Cleanup) (w : W) → KilledBy c w → KilledBy none (cleaned rod c w)
  unfolding cleaned
  cleaned-KilledBy none w k = k
  cleaned-KilledBy (some c) w k = KilledBy-clean c w k

  browser_closed-Leaves : (b : Option Browser) (w : W) → Leaves holds w (browser_closed rod b w)
  unfolding browser_closed
  browser_closed-Leaves none w r h = h
  browser_closed-Leaves (some b) w r h = laws.close_browser_lem b w r h

  closed-KilledBy : (g : Generator Browser) (w : W) → IsOwned g w → KilledBy none (close rod g w).1
  unfolding close
  closed-KilledBy g w o =
      cleaned-KilledBy g.cleanup (browser_closed rod g.browser_inst w)
        (KilledBy-Leaves g.cleanup w _ (browser_closed-Leaves g.browser_inst w) o.killed)

  step-IsOwned :
      (c : Step W Context Browser holds) (g : Generator Browser) (w : W)
      → IsOwned g w
      → let (g', w') = take_step rod holds c (g, w) in IsOwned g' w'
  unfolding ensure_browser close
  step-IsOwned (ensures ctx) g w o = ensured-IsOwned ctx g.browser_inst g w refl o
  step-IsOwned (renders ctx b url) g w o = record {
    killed = KilledBy-Leaves g.cleanup w _ (render-Leaves rod holds laws ctx b url w) o.killed;
    idle = o.idle;
  }
  step-IsOwned closes g w o = record { killed = closed-KilledBy g w o; idle = refl }
  step-IsOwned (elapses f harmless) g w o = record {
    killed = KilledBy-Leaves g.cleanup w (f w) (harmless w) o.killed;
    idle = o.idle;
  }

  steps-IsOwned :
      (cs : List (Step W Context Browser holds)) (g : Generator Browser) (w : W)
      → IsOwned g w
      → let (g', w') = take_steps rod holds cs (g, w) in IsOwned g' w'
  unfolding take_steps
  steps-IsOwned [] g w o = o
  steps-IsOwned (c ∷ cs) g w o =
      let (g', w') = take_steps rod holds cs (g, w) in step-IsOwned c g' w' (steps-IsOwned cs g w o)

  -- From a new generator on a machine where no process runs, after any steps, at most one process
  -- runs, the one that the generator's cleanup kills; and `Close` leaves none.
  pub no_process_is_left :
      (timeout : ℤ) (url : String) (w : W) (cs : List (Step W Context Browser holds))
      → ((p : ℕ) → holds w (process p) ≡ false)
      → let (g, w') = take_steps rod holds cs (new_generator timeout url, w) in
        ((p : ℕ) → holds w' (process p) ≡ true → g.cleanup ≡ some (kills p))
        × ((p : ℕ) → holds (close rod g w').1 (process p) ≡ false)
  unfolding new_generator
  no_process_is_left timeout url w cs quiet =
      let start = new_generator timeout url in
      let (g, w') = take_steps rod holds cs (start, w) in
      let owned : IsOwned g w' =
        steps-IsOwned cs start w (record { killed = λ p h. absurd (cc (quiet p)); idle = refl }) in
      (
        owned.killed,
        λ p. elim (Bool-cases (holds (close rod g w').1 (process p))) [
          | inl runs ↦ absurd (cc (closed-KilledBy g w' owned p runs))
          | inr gone ↦ gone
        ],
      )
