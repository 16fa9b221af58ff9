-- ===== src/Queue/Redis.antt =====
-- internal/queue/redis.go: the queue in Redis, a list of the jobs that wait and a sorted set of
-- those that a worker has leased, by the second in which the lease ends. `Do` is a parameter, a
-- function on the states of the server, and so are `json.Marshal` and `json.Unmarshal` of a job. A
-- length is what the server counts: a reply below 0, which no server sends, reads as 0.
pub mod Server
pub mod Held
pub mod Popping
pub mod History
pub mod Redelivery
pub mod Bounds
use chroma_flow.Base.{
  ℕ, ◌+◌, ◌-◌, ◌*◌, ◌/◌, String, cat, Bool, true, false, Option, none, some, List, [], ◌∷◌, leb,
  ltb, ◌==◌, if◌then◌else◌, ℤ, pos, negsuc,
}
use chroma_flow.Queue.Types.{Error, wrap, queue_full, Result, ok, err, Job}
use chroma_flow.Redisx.New.{Client, NewError, NewResult, made, refused, RedisUrl, new_client}
use chroma_flow.Redisx.Strconv.{itoa}
use chroma_flow.Redisx.Answer.{
  Answer, nothing, string, integer, strings, Do, string_of, int_of, array_of,
}

pub record RedisQueue : Type 0 where
  pub client : Client
  pub queue_key : String
  pub processing_key : String
  pub capacity : ℤ
  pub visibility_timeout : ℕ

pub data Made : Type 0 where
  made_queue : RedisQueue → Made
  refused_url : NewError → Made

-- Five minutes where the timeout is not positive.
timeout_of : ℤ → ℕ
timeout_of (pos n) = if ltb 0 n then n else 300000000000
timeout_of (negsuc n) = 300000000000

queue_of : String → ℤ → ℤ → NewResult → Made
unfolding timeout_of
queue_of prefix capacity timeout (refused e) = refused_url e
queue_of prefix capacity timeout (made client) =
    let p = if prefix == "" then "chromaflow" else prefix in
    made_queue (record {
      client = client;
      queue_key = cat p ":queue";
      processing_key = cat p ":processing";
      capacity = capacity;
      visibility_timeout = timeout_of timeout;
    })

-- `NewRedisQueue`.
unfoldable pub new_redis_queue : (List ℕ → Option RedisUrl) → List ℕ → String → ℤ → ℤ → Made
unfolding queue_of
new_redis_queue parse_url raw_url prefix capacity timeout =
    queue_of prefix capacity timeout (new_client parse_url raw_url)

-- `json.Marshal` and `json.Unmarshal`.
pub record Codec : Type 0 where
  pub marshal : Job → Result String
  pub unmarshal : String → Result Job

-- The seconds since Go's zero time, and `strconv.FormatInt(t.Unix(), 10)`: `Unix` counts from 1970.
abbrev pub second_of : ℕ → ℕ
second_of t = t / 1000000000

unfoldable pub unix_text : ℕ → String
unix_text t =
    let s = second_of t in
    if leb 62135596800 s then itoa (s - 62135596800) else cat "-" (itoa (62135596800 - s))

abbrev pub count_of : Answer → ℕ
count_of v = elim (int_of v) [ pos n ↦ n | negsuc n ↦ 0 ]

abbrev pub error_of {ℓ} : {A : Type ℓ} → Result A → Option Error
error_of (ok a) = none
error_of (err e) = some e

-- `job.QueueMessageID`, or a new one where it is empty.
abbrev pub identified : String → Job → Job
identified uuid job = record job {
  queue_message_id = if job.queue_message_id == "" then uuid else job.queue_message_id;
}

abbrev pub leased_until : ℕ → Job → Job
leased_until t job = record job { lease_until = t }

-- What a round of the loop of `Pop` comes to.
pub data Popped : Type 0 where
  returns : Result Job → Popped
  goes_on : Popped

-- A round of the loop of `Pop`: what `ctx.Err()` says, when the round begins, when it leases a job,
-- and the id it draws.
pub record Round : Type 0 where
  pub ctx_err : Option Error
  pub now : ℕ
  pub leased_at : ℕ
  pub uuid : String

module _ {R : Type 0} (execute : Do R) (codec : Codec) (q : RedisQueue) where
  len_queued : Result Answer → R → Result ℕ × R
  len_queued (err e) s = (err e, s)
  len_queued (ok queued) s =
      let (v, s') = execute ("ZCARD" ∷ q.processing_key ∷ []) s in
      (elim v [ err e ↦ err e | ok processing ↦ ok (count_of queued + count_of processing) ], s')

  -- `Len`.
  unfoldable pub len : R → Result ℕ × R
  unfolding len_queued
  len s = let (v, s₁) = execute ("LLEN" ∷ q.queue_key ∷ []) s in len_queued v s₁

  -- The `LPUSH` of some text.
  unfoldable pub put_text : Result String → R → Option Error × R
  put_text (err e) s = (some e, s)
  put_text (ok json) s =
      let (v, s') = execute ("LPUSH" ∷ q.queue_key ∷ json ∷ []) s in (error_of v, s')

  -- `Push`, after the test of the capacity.
  unfoldable pub push_unchecked : String → Job → R → Option Error × R
  push_unchecked uuid job s = put_text (codec.marshal (leased_until 0 (identified uuid job))) s

  push_counted : ℕ → String → Job → Result ℕ → R → Option Error × R
  push_counted limit uuid job (err e) s = (some e, s)
  push_counted limit uuid job (ok depth) s =
      let pushed = push_unchecked uuid job s in
      if leb limit depth then (some queue_full, s) else pushed

  unfoldable pub push_within : ℤ → String → Job → R → Option Error × R
  unfolding push_counted
  push_within (negsuc n) uuid job s = push_unchecked uuid job s
  push_within (pos limit) uuid job s =
      let unlimited = push_unchecked uuid job s in
      let (depth, s₁) = len s in
      let counted = push_counted limit uuid job depth s₁ in
      if ltb 0 limit then counted else unlimited

  -- `Push`; `uuid` is what `uuid.NewString` would draw.
  unfoldable pub push : String → Job → R → Option Error × R
  unfolding push_within
  push uuid job s = push_within q.capacity uuid job s

  -- One expired item, once it is unmarshaled and, as `json`, marshaled with no lease: the error
  -- with which the loop ends, if it does.
  requeue_removed : String → Result Answer → R → Option Error × R
  requeue_removed json (err e) s = (some e, s)
  requeue_removed json (ok v) s = put_text (ok json) s

  requeue_marshaled : String → Result String → R → Option Error × R
  unfolding requeue_removed
  requeue_marshaled payload (err e) s = (some e, s)
  requeue_marshaled payload (ok json) s =
      let (v, s') = execute ("ZREM" ∷ q.processing_key ∷ payload ∷ []) s in
      requeue_removed json v s'

  unfoldable pub requeue_item : String → Result Job → R → Option Error × R
  unfolding requeue_marshaled
  requeue_item payload (err e) s = (none, (execute ("ZREM" ∷ q.processing_key ∷ payload ∷ []) s).1)
  requeue_item payload (ok job) s = requeue_marshaled payload (codec.marshal (leased_until 0 job)) s

  -- The loop of `requeueExpired`.
  unfoldable pub requeue_items : List String → R → Option Error × R
  requeue_items [] s = (none, s)
  requeue_items (payload ∷ rest) s =
      let (e, s₁) = requeue_item payload (codec.unmarshal payload) s in
      elim e [ some x ↦ (some x, s₁) | none ↦ requeue_items rest s₁ ]

  requeue_read : Result Answer → R → Option Error × R
  requeue_read (err e) s = (some (wrap "read expired processing jobs" e), s)
  requeue_read (ok v) s = requeue_items (array_of v) s

  -- `requeueExpired`.
  unfoldable pub requeue_expired : ℕ → R → Option Error × R
  unfolding requeue_read
  requeue_expired now s =
      let (v, s₁) =
        execute
          ("ZRANGEBYSCORE" ∷ q.processing_key ∷ "-inf" ∷ unix_text now ∷ "LIMIT" ∷ "0" ∷ "25" ∷ [])
          s in
      requeue_read v s₁

  -- `Pop`, after the `ZADD` of the leased job; a failure puts the payload back.
  pop_leased : String → String → Job → Result Answer → R → Popped × R
  pop_leased payload leased job (ok v) s =
      (returns (ok (record job { queue_message_id = leased })), s)
  pop_leased payload leased job (err e) s =
      (returns (err e), (execute ("LPUSH" ∷ q.queue_key ∷ payload ∷ []) s).1)

  pop_marshaled : String → Job → Result String → R → Popped × R
  unfolding pop_leased
  pop_marshaled payload job (err e) s = (returns (err e), s)
  pop_marshaled payload job (ok leased) s =
      let (v, s') =
        execute ("ZADD" ∷ q.processing_key ∷ unix_text job.lease_until ∷ leased ∷ []) s in
      pop_leased payload leased job v s'

  unfoldable pub pop_payload : Round → String → Result Job → R → Popped × R
  unfolding pop_marshaled
  pop_payload r payload (err e) s = (returns (err e), s)
  pop_payload r payload (ok job) s =
      let leased = leased_until (r.leased_at + q.visibility_timeout) (identified r.uuid job) in
      pop_marshaled payload leased (codec.marshal leased) s

  -- The reply of `BRPOP`: nil where nothing came in five seconds, or the key and the payload.
  pop_items : Round → List String → R → Popped × R
  pop_items r (key ∷ payload ∷ rest) s = pop_payload r payload (codec.unmarshal payload) s
  pop_items r _ s = (goes_on, s)

  pop_reply : Round → Result Answer → R → Popped × R
  unfolding pop_items
  pop_reply r (err e) s = (returns (err e), s)
  pop_reply r (ok v) s = pop_items r (array_of v) s

  -- A round, after `requeueExpired`.
  unfoldable pub pop_requeued : Round → Option Error → R → Popped × R
  unfolding pop_reply
  pop_requeued r (some e) s = (returns (err e), s)
  pop_requeued r none s =
      let (v, s') = execute ("BRPOP" ∷ q.queue_key ∷ "5" ∷ []) s in pop_reply r v s'

  pop_live : Round → Option Error → R → Popped × R
  pop_live r (some e) s = (returns (err e), s)
  pop_live r none s = let (e, s') = requeue_expired r.now s in pop_requeued r e s'

  -- A round of the loop.
  unfoldable pub pop_round : Round → R → Popped × R
  unfolding pop_live
  pop_round r s = pop_live r r.ctx_err s

  after_round : Popped → (R → Option (Result Job) × R) → R → Option (Result Job) × R
  after_round (returns result) go_on s = (some result, s)
  after_round goes_on go_on s = go_on s

  -- `Pop`, over the rounds that its loop has time for; none where it still waits.
  unfoldable pub pop : List Round → R → Option (Result Job) × R
  unfolding after_round
  pop [] s = (none, s)
  pop (r ∷ rs) s = let (popped, s') = pop_round r s in after_round popped (pop rs) s'

  -- `Ack`.
  unfoldable pub ack : Job → R → Option Error × R
  ack job s =
      let (v, s') = execute ("ZREM" ∷ q.processing_key ∷ job.queue_message_id ∷ []) s in
      if job.queue_message_id == "" then (none, s) else (error_of v, s')

-- `Cap`.
abbrev pub cap : RedisQueue → ℤ
cap q = q.capacity
