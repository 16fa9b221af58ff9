-- ===== src/Queue/Redis/Server.antt =====
-- What a Redis server that answers promises of the commands that internal/queue/redis.go sends, as
-- its documentation has it, on the two keys of the queue. Times are seconds since Go's zero time.
use chroma_flow.Base.{
  ℕ, ◌≤◌, ◌<◌, String, ◌≡◌, Bool, true, false, Option, none, some, List, [], ◌∷◌, ◌++◌, length,
  ◌==◌, ◌||◌, All, pos,
}
use chroma_flow.Base.Dict
use chroma_flow.Base.Dict.{Dict, String-eq}
use chroma_flow.Queue.Types.{ok}
use chroma_flow.Redisx.Answer.{Answer, nothing, integer, strings, Do}
use chroma_flow.Queue.Redis.{unix_text, second_of}

abbrev pub is_among : String → List String → Bool
is_among x [] = false
is_among x (y ∷ ys) = (y == x) || is_among x ys

abbrev pub IsDistinct : List String → Type 0
IsDistinct [] = Unit
IsDistinct (x ∷ xs) = (is_among x xs ≡ false) × IsDistinct xs

-- The lease of an item ends by `second`.
abbrev pub IsPast : ℕ → Option ℕ → Type 0
IsPast second none = ⊥
IsPast second (some t) = t ≤ second

-- The items whose leases end by a time, 25 at most: where there are fewer, all of them.
pub record IsDue (second : ℕ) (items : List String) (leased : Dict String ℕ) : Type 0 where
  pub distinct : IsDistinct items
  pub few : length items ≤ 25
  pub due : All (λ x. IsPast second (Dict.get x leased)) items
  pub complete :
      length items < 25 → (x : String) → IsPast second (Dict.get x leased) → is_among x items ≡ true

-- From 1970 to the end of the year 9999, which is as far as the JSON of a time goes.
abbrev pub IsTime : ℕ → Type 0
IsTime t = (62135596800000000000 ≤ t) × (t < 315537897600000000000)

pub record QueueServer {R : Type 0} (execute : Do R) (queue_key processing_key : String)
    : Type 0 where
  -- the list, with what was pushed last first, and the second in which each lease ends
  pub queued : R → List String
  pub leased : R → Dict String ℕ
  pub llen :
      (s : R) → execute ("LLEN" ∷ queue_key ∷ []) s ≡ (ok (integer (pos (length (queued s)))), s)
  pub zcard :
      (s : R)
      → execute ("ZCARD" ∷ processing_key ∷ []) s ≡ (ok (integer (pos (length (leased s)))), s)
  pub lpush :
      (x : String) (s : R)
      → let (v, s') = execute ("LPUSH" ∷ queue_key ∷ x ∷ []) s in
        (a : Answer) × (v ≡ ok a) × (queued s' ≡ x ∷ queued s) × (leased s' ≡ leased s)
  pub brpop_empty :
      (s : R) → queued s ≡ [] → execute ("BRPOP" ∷ queue_key ∷ "5" ∷ []) s ≡ (ok nothing, s)
  pub brpop :
      (s : R) (xs : List String) (x : String)
      → queued s ≡ xs ++ x ∷ []
      → let (v, s') = execute ("BRPOP" ∷ queue_key ∷ "5" ∷ []) s in
        (v ≡ ok (strings (queue_key ∷ x ∷ []))) × (queued s' ≡ xs) × (leased s' ≡ leased s)
  pub zadd :
      (t : ℕ) (x : String) (s : R)
      → IsTime t
      → let (v, s') = execute ("ZADD" ∷ processing_key ∷ unix_text t ∷ x ∷ []) s in
        (a : Answer) × (v ≡ ok a)
        × (queued s' ≡ queued s)
        × (leased s' ≡ Dict.put x (second_of t) (leased s))
  pub zrem :
      (x : String) (s : R)
      → let (v, s') = execute ("ZREM" ∷ processing_key ∷ x ∷ []) s in
        (a : Answer) × (v ≡ ok a) × (queued s' ≡ queued s) × (leased s' ≡ Dict.del x (leased s))
  pub zrangebyscore :
      (now : ℕ) (s : R)
      → IsTime now
      → (items : List String) × (execute
            ("ZRANGEBYSCORE" ∷ processing_key ∷ "-inf" ∷ unix_text now ∷ "LIMIT" ∷ "0" ∷ "25" ∷ [])
            s
          ≡ (ok (strings items), s))
        × IsDue (second_of now) items (leased s)
