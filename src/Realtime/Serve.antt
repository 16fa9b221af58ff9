-- ===== src/Realtime/Serve.antt =====
-- internal/realtime/hub.go: `ServeJobs` from the request to its first message. What its loop does
-- after that are the steps `takes` and `leaves` of Realtime/Hub; `waitForClose` reads until the
-- connection is closed, and then `leaves` can be taken.
use chroma_flow.Base.{ℕ, ◌≡◌, ◌≢◌, refl, String, cat, Option, List, [], ◌∷◌, ◌++◌, ap, ◌∙◌}
use chroma_flow.Queue.Types.{message}
use chroma_flow.Realtime.Hub.{Hub, add, Step, joins, greets, step, run}
use chroma_flow.Realtime.Handshake.{
  Connection, Accepted, upgraded, refused, closed, accept, response_of, IsUpgradable,
  accept-response, accept-upgraded_iff,
}

-- What the request is answered. `http.Error` writes nothing once the connection is hijacked.
pub data Reply : Type 0 where
  switching : (response : String) → Reply
  http_error : (status : ℕ) (body : String) → Reply
  unanswered : Reply

-- Up to `h.add(c)`.
unfoldable pub opened : ℕ → Accepted → Hub → Reply × Hub
opened c (refused e) h = (http_error 400 (cat (message e) "\n"), h)
opened c (closed e) h = (unanswered, h)
opened c (upgraded response) h = (switching response, add c h)

-- The send of the first message, after what other goroutines do.
unfoldable pub began : ℕ → List Step → Option (List ℕ) → Reply × Hub → Reply × Hub
began c others initial (http_error status body, h) = (http_error status body, h)
began c others initial (unanswered, h) = (unanswered, h)
began c others initial (switching response, h) =
    (switching response, step (greets c initial) (run others h))

run-append : (ss ts : List Step) (h : Hub) → run (ss ++ ts) h ≡ run ts (run ss h)
unfolding run
run-append [] ts h = refl
run-append (s ∷ ss) ts h = run-append ss ts (step s h)

module _ (websocket_accept_key : String → String) where
  -- `ServeJobs`, where `initial` is the encoded snapshot.
  unfoldable pub serve_jobs :
      (String → String) → Connection → ℕ → List Step → Option (List ℕ) → Hub → Reply × Hub
  unfolding opened began
  serve_jobs header conn c others initial h =
      began c others initial (opened c (accept websocket_accept_key header conn) h)

  -- A request that can be upgraded is answered 101, and its client is registered before what others
  -- do, and greeted after it.
  pub serve_jobs-upgrades :
      (header : String → String) (conn : Connection) (c : ℕ) (others : List Step)
      → (initial : Option (List ℕ)) (h : Hub) → IsUpgradable websocket_accept_key header conn
      → serve_jobs header conn c others initial h ≡ (
        switching (response_of websocket_accept_key (header "Sec-WebSocket-Key")),
        run ((joins c ∷ others) ++ greets c initial ∷ []) h,
      )
  unfolding serve_jobs opened began run step
  serve_jobs-upgrades header conn c others initial h u =
      rw ((accept-upgraded_iff websocket_accept_key header conn).1 u)
        (rw (run-append (joins c ∷ others) (greets c initial ∷ []) h) refl)

  began-refused :
      (c : ℕ) (others : List Step) (initial : Option (List ℕ)) (h : Hub) (a : Accepted)
      → ((response : String) → a ≢ upgraded response)
      → (began c others initial (opened c a h)).1 ≡ h
  unfolding opened began
  began-refused c others initial h (upgraded response) never = absurd (never response refl)
  began-refused c others initial h (refused e) never = refl
  began-refused c others initial h (closed e) never = refl

  -- A request that cannot be upgraded leaves the hub as it is.
  pub serve_jobs-refuses :
      (header : String → String) (conn : Connection) (c : ℕ) (others : List Step)
      → (initial : Option (List ℕ)) (h : Hub) → ¬ IsUpgradable websocket_accept_key header conn
      → (serve_jobs header conn c others initial h).1 ≡ h
  unfolding serve_jobs
  serve_jobs-refuses header conn c others initial h impossible =
      began-refused c others initial h (accept websocket_accept_key header conn) (λ response e.
        impossible (
          (accept-upgraded_iff websocket_accept_key header conn).0
            (e ∙ ap upgraded (accept-response websocket_accept_key header conn e))))
