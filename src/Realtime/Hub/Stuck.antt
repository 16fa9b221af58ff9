-- ===== src/Realtime/Hub/Stuck.antt =====
-- internal/realtime/hub.go: `ServeJobs` before its first message is sent.
use chroma_flow.Base.{
  ℕ, ◌≤◌, ◌≡◌, ◌≢◌, refl, false, none, some, List, [], ◌∷◌, ◌++◌, length, length-append, map, arith,
  All, ap, ◌∙◌, sym,
}
use mathlib.Core.List.{append_assoc, append-nil}
use chroma_flow.Realtime.Hub.{
  Client, Hub, send_size, offer, greeted, Step, joins, broadcasts, greets, takes, leaves, step, run,
}
use chroma_flow.Realtime.Hub.Laws.{client_of, after, client_of-step}

-- Steps other than a new client under the number, which a pointer excludes, and other than going
-- on without a first message.
abbrev pub IsOther : ℕ → Step → Type 0
IsOther c (joins d) = c ≢ d
IsOther c (greets d none) = c ≢ d
IsOther c _ = Unit

-- The client of a call that waits to send its first message into a full channel.
abbrev pub waiting : List (List ℕ) → Client
waiting messages = record { send = messages; serving = false; written = [] }

after-waiting :
    (c : ℕ) (s : Step) (messages : List (List ℕ))
    → length messages ≡ send_size
    → IsOther c s
    → after c s (some (waiting messages)) ≡ some (waiting messages)
unfolding offer greeted
after-waiting c (joins d) ms full other = ground arith
after-waiting c (broadcasts none) ms full other = refl
after-waiting c (broadcasts (some m)) ms full other = ground arith
after-waiting c (greets d none) ms full other = ground arith
after-waiting c (greets d (some m)) ms full other = ground arith
after-waiting c (takes d wrote) ms full other = ground arith
after-waiting c (leaves d) ms full other = ground arith

run-waiting :
    (c : ℕ) (ss : List Step) (messages : List (List ℕ)) (h : Hub)
    → length messages ≡ send_size
    → All (IsOther c) ss
    → client_of c h ≡ some (waiting messages)
    → client_of c (run ss h) ≡ some (waiting messages)
unfolding run
run-waiting c [] ms h full others e = e
run-waiting c (s ∷ ss) ms h full (other, others) e =
    run-waiting c ss ms (step s h) full others
      (client_of-step c s h ∙ ap (after c s) e ∙ after-waiting c s ms full other)

-- The broadcasts of a list of messages.
abbrev pub broadcasts_of : List (List ℕ) → List Step
broadcasts_of messages = map (λ m. broadcasts (some m)) messages

offered :
    (c : ℕ) (m : List ℕ) (ms sent : List (List ℕ))
    → length (sent ++ m ∷ ms) ≤ send_size
    → after c (broadcasts (some m)) (some (waiting sent)) ≡ some (waiting (sent ++ m ∷ []))
unfolding offer
offered c m ms sent room = ground (arith, length-append sent (m ∷ ms))

run-broadcasts :
    (c : ℕ) (messages sent : List (List ℕ)) (h : Hub)
    → length (sent ++ messages) ≤ send_size
    → client_of c h ≡ some (waiting sent)
    → client_of c (run (broadcasts_of messages) h) ≡ some (waiting (sent ++ messages))
unfolding run
run-broadcasts c [] sent h room e = e ∙ ap (λ ms. some (waiting ms)) (sym (append-nil sent))
run-broadcasts c (m ∷ ms) sent h room e =
    let shift = append_assoc sent (m ∷ []) ms in
    let fits : length ((sent ++ m ∷ []) ++ ms) ≤ send_size = rw shift room in
    let next : client_of c (step (broadcasts (some m)) h) ≡ some (waiting (sent ++ m ∷ [])) =
      client_of-step c (broadcasts (some m)) h
      ∙ ap (after c (broadcasts (some m))) e
      ∙ offered c m ms sent room in
    run-broadcasts c ms (sent ++ m ∷ []) (step (broadcasts (some m)) h) fits next
    ∙ ap (λ xs. some (waiting xs)) shift

-- Where 8 messages are broadcast between a call's registration of its client and the send of its
-- first message, that send never happens: whatever broadcasts follow, whatever other clients do,
-- and even when the connection is closed, the call stays where it is, has written no frame, and
-- its client stays registered with those 8 messages.
pub serve_jobs_is_stuck :
    (c : ℕ) (messages : List (List ℕ)) (ss : List Step) (h : Hub)
    → length messages ≡ 8
    → All (IsOther c) ss
    → client_of c (run ss (run (broadcasts_of messages) (step (joins c) h)))
      ≡ some (waiting messages)
serve_jobs_is_stuck c ms ss h full others =
    let joined : client_of c (step (joins c) h) ≡ some (waiting []) =
      client_of-step c (joins c) h ∙ ground arith in
    run-waiting c ss ms (run (broadcasts_of ms) (step (joins c) h)) full others
      (run-broadcasts c ms [] (step (joins c) h) (omega arith) joined)
