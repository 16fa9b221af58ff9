-- ===== src/Queue/Redis/History.antt =====
-- internal/queue/redis.go: the queue over any sequence of calls, over a Redis server that answers,
-- with no call during another.
use chroma_flow.Base.{
  ℕ, ◌+◌, String, ◌≡◌, ◌≢◌, refl, ◌∙◌, Bool, true, false, none, some, List, [], ◌∷◌, ◌==◌,
  if◌then◌else◌, Bool-cases, inl, inr, arith, All, ℤ, pos, negsuc, leb, ltb, length,
}
use chroma_flow.Queue.Types.{queue_full, ok, Job}
use chroma_flow.Redisx.Answer.{Do, int_of}
use chroma_flow.Queue.Redis.{
  RedisQueue, Codec, Round, identified, leased_until, len, put_text, push_unchecked, push_within,
  push, pop, ack,
}
use chroma_flow.Queue.Redis.Server.{QueueServer, IsTime}
use chroma_flow.Queue.Redis.Held.{
  IsFaithful, Holds, keeps, differs, has-removed, pushed-Holds, Holds-lpushed, lpushed,
}
use chroma_flow.Queue.Redis.Popping.{Holds-pop}

pub data Call : Type 0 where
  pushes : String → Job → Call
  pops : List Round → Call
  acks : Job → Call

module _ {R : Type 0} (execute : Do R) (codec : Codec) (q : RedisQueue) where
  unfoldable pub step : Call → R → R
  step (pushes uuid job) s = (push execute codec q uuid job s).1
  step (pops rounds) s = (pop execute codec q rounds s).1
  step (acks job) s = (ack execute codec q job s).1

  unfoldable pub run : List Call → R → R
  unfolding step
  run [] s = s
  run (c ∷ cs) s = run cs (step c s)

-- The call acknowledges no message of the job; the clock and the leases are within the years that
-- `IsTime` allows.
abbrev pub Spares : Codec → RedisQueue → String → Call → Type 0
Spares codec q id (pushes uuid job) = Unit
Spares codec q id (pops rounds) =
    All (λ r. IsTime r.now × IsTime (r.leased_at + q.visibility_timeout)) rounds
Spares codec q id (acks message) =
    (job : Job) → codec.unmarshal message.queue_message_id ≡ ok job → job.id ≢ id

-- The capacity is positive, and that many jobs are there.
abbrev pub is_full : ℤ → ℕ → Bool
is_full (pos limit) depth = if ltb 0 limit then leb limit depth else false
is_full (negsuc n) depth = false

module _ {R : Type 0} (execute : Do R) (codec : Codec) (q : RedisQueue)
    (server : QueueServer execute q.queue_key q.processing_key) where
  len_lem :
      (s : R)
      → len execute codec q s ≡ (ok (length (server.queued s) + length (server.leased s)), s)
  unfolding len int_of
  len_lem s = rw (server.llen s) (rw (server.zcard s) refl)

  -- What `Push` does to the list, unless the queue is full.
  pub push_unchecked_lem :
      IsFaithful codec
      → (uuid : String) (job : Job) (s : R)
      → (json : String) × (codec.unmarshal json ≡ ok (leased_until 0 (identified uuid job)))
        × (push_unchecked execute codec q uuid job s
            ≡ (none, lpushed execute codec q server json s))
  unfolding push_unchecked put_text
  push_unchecked_lem faithful uuid job s =
      let (json, e, back) = faithful (leased_until 0 (identified uuid job)) (omega arith) in
      let (_, l, _, _) = server.lpush json s in (json, back, rw e (rw l refl))

  abbrev pub depth : R → ℕ
  depth s = length (server.queued s) + length (server.leased s)

  push_within_lem :
      (capacity : ℤ) (uuid : String) (job : Job) (s : R)
      → push_within execute codec q capacity uuid job s ≡ (
          if is_full capacity (depth s)
          then (some queue_full, s)
          else push_unchecked execute codec q uuid job s)
  unfolding push_within
  push_within_lem (negsuc n) uuid job s = refl
  push_within_lem (pos limit) uuid job s =
      rw (len_lem s) (elim (Bool-cases (ltb 0 limit)) [ inl e ↦ rw e refl | inr e ↦ rw e refl ])

  pub push_lem :
      (uuid : String) (job : Job) (s : R)
      → push execute codec q uuid job s ≡ (
          if is_full q.capacity (depth s)
          then (some queue_full, s)
          else push_unchecked execute codec q uuid job s)
  unfolding push
  push_lem uuid job s = push_within_lem q.capacity uuid job s

  pub push_full :
      (uuid : String) (job : Job) (s : R)
      → is_full q.capacity (depth s) ≡ true
      → (push execute codec q uuid job s).0 ≡ some queue_full
  push_full uuid job s full = rw (push_lem uuid job s) (rw full refl)

  module _ (faithful : IsFaithful codec) where
    Holds-step :
        (c : Call) {id : String} {s : R}
        → Spares codec q id c
        → Holds execute codec q server id s
        → Holds execute codec q server id (step execute codec q c s)
    unfolding step ack
    Holds-step (pushes uuid job) {id} {s} spared h =
        let (json, _, e) = push_unchecked_lem faithful uuid job s in
        rw (step, push_lem uuid job s)
          (elim (Bool-cases (is_full q.capacity (depth s))) [
            | inl full ↦ rw full h
            | inr room ↦ rw room (rw e (Holds-lpushed execute codec q server json h))
          ])
    Holds-step (pops rounds) spared h = Holds-pop execute codec q server faithful rounds spared h
    Holds-step (acks message) {id} {s} spared h =
        let m = message.queue_message_id in
        elim (Bool-cases (m == "")) [
          | inl none_given ↦ rw (step, ack, none_given) h
          | inr given ↦
              rw (step, ack, given)
                (keeps execute codec q server h (
                  has-removed execute codec q server h.payload m s (
                    differs execute codec q server m h.payload
                      (λ same. spared h.job (same ∙ h.decodes) h.same_id))
                  ∙ h.here))
        ]

    Holds-run :
        (calls : List Call) {id : String} {s : R}
        → All (Spares codec q id) calls
        → Holds execute codec q server id s
        → Holds execute codec q server id (run execute codec q calls s)
    unfolding run
    Holds-run [] spared h = h
    Holds-run (c ∷ cs) (here, later) h = Holds-run cs later (Holds-step c here h)

    -- Over a server that answers every command, a job that `Push` accepts is held from then on,
    -- waiting in the list or leased by a worker, through any calls that run one after another, each
    -- to its end, of which none acknowledges a message of the job, at times from 1970 to the year
    -- 9999. Nothing is said of a call that is cut off between two of its commands.
    pub accepted_is_held :
        (uuid : String) (job : Job) (calls : List Call) (s : R)
        → (push execute codec q uuid job s).0 ≡ none
        → All (Spares codec q job.id) calls
        → Holds execute codec q server job.id
            (run execute codec q calls (push execute codec q uuid job s).1)
    accepted_is_held uuid job calls s accepted spared =
        let (json, back, e) = push_unchecked_lem faithful uuid job s in
        Holds-run calls spared (elim (Bool-cases (is_full q.capacity (depth s))) [
          | inl full ↦ absurd (let refused = push_full uuid job s full in cc)
          | inr room ↦ rw (push_lem uuid job s) (
              rw room (
                rw e (
                  pushed-Holds execute codec q server json (leased_until 0 (identified uuid job)) s
                    back refl)))
        ])
