-- ===== src/Examples/Queue.antt =====
-- internal/queue/redis.go at small inputs, over a server in a few lines.
use chroma_flow.Base.{
  ℕ, ◌+◌, ◌≤◌, String, ◌≡◌, eq_iff, refl, ap, sym, subst, leb, ◌-◌, ◌∙◌, Option, none, some, List,
  [], ◌∷◌, ◌++◌, ◌==◌, true, false, if◌then◌else◌, arith, All, length, take, pos, negsuc,
}
use chroma_flow.Base.Dict
use chroma_flow.Base.Dict.{Dict, String-eq}
use chroma_flow.Queue.Types.{ok, err, text}
use chroma_flow.Redisx.New.{Client}
use chroma_flow.Redisx.Answer.{Answer, nothing, integer, strings, Do, int_of}
use chroma_flow.Redisx.Strconv.{atoi_or_zero, atoi-itoa_text}
use chroma_flow.Queue.Redis.{
  RedisQueue, Round, unix_text, second_of, push, requeue_expired, len, push_unchecked, put_text,
}
use chroma_flow.Queue.Redis.Server.{QueueServer, IsDue, IsTime}
use chroma_flow.Queue.Redis.Held.{Holds}
use chroma_flow.Queue.Redis.History.{Call, pushes, pops, acks, run, Spares, accepted_is_held}
use chroma_flow.Queue.Redis.Redelivery.{IsBack, requeue_expired-IsBack}
use chroma_flow.Queue.Redis.Bounds.{capacity_bounds, HasDates}
use chroma_flow.Examples.Leases.{past, past-IsDue}
use chroma_flow.Examples.Codec.{codec, codec-IsFaithful}
use chroma_flow.Examples.Data.{job}

-- The list, what was pushed last first, and the leases.
record Keys : Type 0 where
  list : List String
  set : Dict String ℕ

-- The second that a text means.
abbrev second_in : String → ℕ
second_in t = elim (atoi_or_zero t) [ pos n ↦ n + 62135596800 | negsuc n ↦ 0 ]

abbrev first : List String → String
first [] = ""
first (x ∷ xs) = x

abbrev second : List String → String
second [] = ""
second (x ∷ xs) = first xs

last_of : List String → Option String
last_of [] = none
last_of (x ∷ xs) = let rest = last_of xs in elim rest [ none ↦ some x | some y ↦ some y ]

init_of : List String → List String
init_of [] = []
init_of (x ∷ []) = []
init_of (x ∷ y ∷ ys) = x ∷ init_of (y ∷ ys)

abbrev answer_of : String → Option String → Answer
answer_of key none = nothing
answer_of key (some x) = strings (key ∷ x ∷ [])

execute : Do Keys
unfolding last_of init_of
execute [] s = (err (text "no command"), s)
execute (c ∷ []) s = (err (text "no key"), s)
execute (c ∷ key ∷ args) s =
    if c == "LLEN"
    then (ok (integer (pos (length s.list))), s)
    else if c == "ZCARD"
    then (ok (integer (pos (length s.set))), s)
    else if c == "LPUSH"
    then (ok (integer (pos 1)), record s { list = first args ∷ s.list })
    else if c == "BRPOP"
    then (ok (answer_of key (last_of s.list)), record s { list = init_of s.list })
    else if c == "ZADD"
    then (
      ok (integer (pos 1)),
      record s { set = Dict.put (second args) (second_in (first args)) s.set },
    )
    else if c == "ZREM"
    then (ok (integer (pos 1)), record s { set = Dict.del (first args) s.set })
    else (ok (strings (take 25 (past (second_in (second args)) s.set))), s)

last_of-append : (xs : List String) (x : String) → last_of (xs ++ x ∷ []) ≡ some x
unfolding last_of
last_of-append [] x = refl
last_of-append (y ∷ ys) x = rw (last_of-append ys x) refl

init_of-append : (xs : List String) (x : String) → init_of (xs ++ x ∷ []) ≡ xs
unfolding init_of
init_of-append [] x = refl
init_of-append (y ∷ []) x = refl
init_of-append (y ∷ z ∷ zs) x = ap (λ l. y ∷ l) (init_of-append (z ∷ zs) x)

second_in-unix_text : (t : ℕ) → IsTime t → second_in (unix_text t) ≡ second_of t
unfolding unix_text
second_in-unix_text t timely =
    let n = second_of t in
    let late : leb 62135596800 n ≡ true = ground arith in
    rw late (
      ap (λ z. elim z as (λ _. ℕ) [ pos m ↦ m + 62135596800 | negsuc m ↦ 0 ])
        (atoi-itoa_text (n - 62135596800) (omega arith))
      ∙ omega arith)

abbrev client : Client
client = record { addr = []; password = []; db = pos 0; use_tls = false; connected = true }

abbrev queue : RedisQueue
queue = record {
  client = client;
  queue_key = "p:queue";
  processing_key = "p:processing";
  capacity = pos 2;
  visibility_timeout = 300000000000;
}

server : QueueServer execute queue.queue_key queue.processing_key
unfolding execute
server = record {
  queued = λ s. s.list;
  leased = λ s. s.set;
  llen = λ s. refl;
  zcard = λ s. refl;
  lpush = λ x s. (integer (pos 1), refl, refl, refl);
  brpop_empty = λ s e.
      ap (λ l. (ok (answer_of "p:queue" (last_of l)), record { list = init_of l; set = s.set })) e
      ∙ ap (λ l. (ok nothing, record { list = l; set = s.set })) (sym e);
  brpop = λ s xs x e. (
    ap (λ l. ok (answer_of "p:queue" (last_of l))) e
        ∙ ap (λ o. ok (answer_of "p:queue" o)) (last_of-append xs x),
    ap init_of e ∙ init_of-append xs x,
    refl,
  );
  zadd = λ t x s timely.
      (integer (pos 1), refl, refl, ap (λ n. Dict.put x n s.set) (second_in-unix_text t timely));
  zrem = λ x s. (integer (pos 1), refl, refl, refl);
  zrangebyscore = λ now s timely. (
    take 25 (past (second_in (unix_text now)) s.set),
    refl,
    subst (λ n. IsDue (second_of now) (take 25 (past n s.set)) s.set)
        (sym (second_in-unix_text now timely)) (past-IsDue (second_of now) s.set),
  );
}

abbrev empty : Keys
empty = record { list = []; set = [] }

-- 2026, in nanoseconds since Go's zero time.
abbrev year_2026 : ℕ
year_2026 = 63900000000000000000

abbrev round : Round
round = record { ctx_err = none; now = year_2026; leased_at = year_2026; uuid = "u2" }

abbrev calls : List Call
calls =
    pops (round ∷ [])
    ∷ pushes "u3" (record job { id = "b" })
    ∷ acks (record job { queue_message_id = ".b;" })
    ∷ pops (round ∷ [])
    ∷ []

job_is_accepted : (push execute codec queue "u1" job empty).0 ≡ none
unfolding push execute len int_of push_unchecked put_text codec
job_is_accepted = refl

other_is_acked : Spares codec queue "a" (acks (record job { queue_message_id = ".b;" }))
unfolding codec
other_is_acked j e same =
    let b : ◌≡◌ {A = String} "b" "a" = ap (λ r. elim r [ ok x ↦ x.id | err _ ↦ "" ]) e ∙ same in
    absurd (ground (arith, eq_iff "b" "a"))

calls_spare : All (Spares codec queue "a") calls
calls_spare = (
  (((omega arith, omega arith), (omega arith, omega arith)), tt),
  (tt, (other_is_acked, ((((omega arith, omega arith), (omega arith, omega arith)), tt), tt))),
)

accepted_is_held_example :
    Holds execute codec queue server "a"
      (run execute codec queue calls (push execute codec queue "u1" job empty).1)
accepted_is_held_example =
    accepted_is_held execute codec queue server codec-IsFaithful "u1" job calls empty
      job_is_accepted calls_spare

calls_have_dates : All (HasDates execute codec queue server codec-IsFaithful) calls
calls_have_dates = (
  (((omega arith, omega arith), (omega arith, omega arith)), tt),
  (tt, (tt, ((((omega arith, omega arith), (omega arith, omega arith)), tt), tt))),
)

capacity_bounds_example :
    let s' = run execute codec queue calls empty in
    length (server.queued s') + length (server.leased s') ≤ 2
unfolding server
capacity_bounds_example =
    capacity_bounds execute codec queue server codec-IsFaithful 2 calls empty refl (omega arith)
      calls_have_dates (omega arith)

-- A lease that has ended.
abbrev leased_job : Keys
leased_job = record { list = []; set = ("?", 63800000000) ∷ [] }

requeue_expired-IsBack_example :
    let (e, s') = requeue_expired execute codec queue year_2026 leased_job in
    (items : List String) × IsDue (second_of year_2026) items (server.leased leased_job)
    × (e ≡ none)
    × All (IsBack execute codec queue server codec-IsFaithful s') items
requeue_expired-IsBack_example =
    requeue_expired-IsBack execute codec queue server codec-IsFaithful year_2026 leased_job
      (omega arith, omega arith)
