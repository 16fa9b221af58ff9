-- ===== src/Queue/Redis/Bounds.antt =====
-- internal/queue/redis.go: the capacity bounds the jobs that wait and those that are leased, over
-- a Redis server that answers, with no call during another.
use chroma_flow.Base.{
  ℕ, suc, ◌+◌, ◌≤◌, ◌<◌, String, ◌≡◌, ap, ◌∙◌, sym, subst, false, none, List, [], ◌∷◌, ◌++◌, ◌==◌,
  eq_iff, Bool-cases, Option-cases, inl, inr, arith, All, length, length-append, pos,
}
use chroma_flow.Base.Dict
use chroma_flow.Base.Dict.{Dict, String-eq, get-del}
use chroma_flow.Queue.Types.{Result, ok, err, Job}
use chroma_flow.Redisx.Answer.{Do}
use chroma_flow.Queue.Redis.{
  RedisQueue, Codec, Round, identified, leased_until, requeue_items, requeue_expired, pop_payload,
  pop_requeued, pop_round, pop, ack, second_of,
}
use chroma_flow.Queue.Redis.Server.{QueueServer, IsPast, IsDistinct, is_among, IsTime}
use chroma_flow.Queue.Redis.Held.{IsFaithful}
use chroma_flow.Queue.Redis.Popping.{last-cases, Popped-cases, popped}
use chroma_flow.Queue.Redis.History.{
  Call, pushes, pops, acks, step, run, push_lem, push_unchecked_lem, is_full,
}
use chroma_flow.Queue.Redis.Redelivery.{
  length-del_le, length-del, depth, after_item, requeue_items-cons, Requeued-after_item,
  requeue_expired-IsBack,
}

length-put_le : (k : String) (v : ℕ) (m : Dict String ℕ) → length (Dict.put k v m) ≤ suc (length m)
unfolding Dict.put
length-put_le k v [] = omega arith
length-put_le k v ((j, w) ∷ m) = ground (arith, length-put_le k v m)

-- Items other than the one that is deleted keep their leases.
All-del :
    (y : String) (n : ℕ) (xs : List String) (m : Dict String ℕ)
    → is_among y xs ≡ false
    → All (λ x. IsPast n (Dict.get x m)) xs
    → All (λ x. IsPast n (Dict.get x (Dict.del y m))) xs
All-del y n [] m d a = tt
All-del y n (x ∷ xs) m d (here, later) = (
  subst (IsPast n) (sym (get-del y x m ∙ ground (arith, d, eq_iff x y, eq_iff y x))) here,
  All-del y n xs m (ground (arith, d)) later,
)

room_below : (limit depth : ℕ) → 0 < limit → is_full (pos limit) depth ≡ false → depth < limit
room_below limit depth h room = ground arith

module _ {R : Type 0} (execute : Do R) (codec : Codec) (q : RedisQueue)
    (server : QueueServer execute q.queue_key q.processing_key) (faithful : IsFaithful codec) where
  abbrev size : R → ℕ
  size s = length (server.queued s) + length (server.leased s)

  size-requeue_items :
      (n : ℕ) (items : List String) (s : R)
      → IsDistinct items
      → All (λ x. IsPast n (Dict.get x (server.leased s))) items
      → size (requeue_items execute codec q items s).1 ≤ size s
  unfolding requeue_items
  size-requeue_items n [] s d a = omega arith
  size-requeue_items n (x ∷ xs) s (alone, d) (here, later) =
      let s₁ = after_item execute codec q server faithful x s in
      let c = Requeued-after_item execute codec q server faithful x s in
      let rest = size-requeue_items n xs s₁ d (
        subst (λ m. All (λ y. IsPast n (Dict.get y m)) xs) (sym c.leases)
          (All-del x n xs (server.leased s) alone later)) in
      let shorter = length-del x n (server.leased s) here in
      let leases = ap length c.leases in
      let few = c.few in
      subst (λ w. size w.1 ≤ size s)
        (sym (requeue_items-cons execute codec q server faithful x xs s))
        (omega (arith, rest, shorter, leases, few))

  size-requeue_expired :
      (now : ℕ) (s : R) → IsTime now → size (requeue_expired execute codec q now s).1 ≤ size s
  unfolding requeue_expired
  size-requeue_expired now s timely =
      let (items, e, due) = server.zrangebyscore now s timely in
      rw e (size-requeue_items (second_of now) items s due.distinct due.due)

  size-pop_payload :
      (r : Round) (x : String) (xs : List String) (d : Result Job) (s : R)
      → IsTime (r.leased_at + q.visibility_timeout)
      → server.queued s ≡ xs ++ x ∷ []
      → size (pop_payload execute codec q r x d (popped execute codec q server faithful s)).1
        ≤ size s
  unfolding pop_payload
  size-pop_payload r x xs (err e) s dated at_end =
      let (_, l, z) = server.brpop s xs x at_end in
      let before = ap length at_end ∙ length-append xs (x ∷ []) in
      rw l (rw z (omega (arith, before)))
  size-pop_payload r x xs (ok job) s dated at_end =
      let until = r.leased_at + q.visibility_timeout in
      let s₁ = popped execute codec q server faithful s in
      let (_, l, z) = server.brpop s xs x at_end in
      let (leased, e, _) = faithful (leased_until until (identified r.uuid job)) dated.1 in
      let (_, v, l', z') = server.zadd until leased s₁ dated in
      let before = ap length at_end ∙ length-append xs (x ∷ []) in
      let longer = length-put_le leased (second_of until) (server.leased s₁) in
      rw e
        (rw v (omega (arith, before, longer, ap length l, ap length z, ap length l', ap length z')))

  size-pop_requeued :
      (r : Round) (s : R)
      → IsTime (r.leased_at + q.visibility_timeout)
      → size (pop_requeued execute codec q r none s).1 ≤ size s
  unfolding pop_requeued
  size-pop_requeued r s dated = elim (last-cases (server.queued s)) [
    | inl e ↦ rw (server.brpop_empty s e) (omega arith)
    | inr (xs, x, e) ↦
        let (v, _, _) = server.brpop s xs x e in
        rw v (size-pop_payload r x xs (codec.unmarshal x) s dated e)
  ]

  size-pop_round :
      (r : Round) (s : R)
      → IsTime r.now
      → IsTime (r.leased_at + q.visibility_timeout)
      → size (pop_round execute codec q r s).1 ≤ size s
  unfolding pop_round pop_requeued pop_payload
  size-pop_round r s timely dated = elim (Option-cases r.ctx_err) [
    | inl e ↦
        let s₁ = (requeue_expired execute codec q r.now s).1 in
        let fine = (requeue_expired-IsBack execute codec q server faithful r.now s timely).2 in
        let requeued = size-requeue_expired r.now s timely in
        let popping = size-pop_requeued r s₁ dated in
        rw e (rw fine (omega (arith, requeued, popping)))
    | inr (x, e) ↦ rw e (omega arith)
  ]

  size-pop :
      (rounds : List Round) (s : R)
      → All (λ r. IsTime r.now × IsTime (r.leased_at + q.visibility_timeout)) rounds
      → size (pop execute codec q rounds s).1 ≤ size s
  unfolding pop
  size-pop [] s dated = omega arith
  size-pop (r ∷ rs) s ((timely, here), later) =
      let (p, s₁) = pop_round execute codec q r s in
      let first = size-pop_round r s timely here in
      elim (Popped-cases p) [
        | inl (result, e) ↦ rw e first
        | inr e ↦ let rest = size-pop rs s₁ later in rw e (omega (arith, first, rest))
      ]

  -- The clock and the leases of a call are within the years that `IsTime` allows.
  abbrev pub HasDates : Call → Type 0
  HasDates (pushes uuid job) = Unit
  HasDates (pops rounds) =
      All (λ r. IsTime r.now × IsTime (r.leased_at + q.visibility_timeout)) rounds
  HasDates (acks job) = Unit

  size-step :
      (limit : ℕ) (c : Call) (s : R)
      → q.capacity ≡ pos limit
      → 0 < limit
      → HasDates c
      → size s ≤ limit
      → size (step execute codec q c s) ≤ limit
  unfolding step ack
  size-step limit (pushes uuid job) s e positive dated h =
      let (json, _, put) = push_unchecked_lem execute codec q server faithful uuid job s in
      rw (step, push_lem execute codec q server uuid job s)
        (elim (Bool-cases (is_full q.capacity (size s))) [
          | inl full ↦ rw full h
          | inr room ↦
              let below =
                room_below limit (size s) positive (ap (λ c. is_full c (size s)) (sym e) ∙ room) in
              let (_, _, l, z) = server.lpush json s in
              rw room (rw put (omega (arith, below, ap length l, ap length z)))
        ])
  size-step limit (pops rounds) s e positive dated h =
      let popping = size-pop rounds s dated in omega (arith, popping, h)
  size-step limit (acks job) s e positive dated h = elim (Bool-cases (job.queue_message_id == "")) [
    | inl b ↦ rw (step, ack, b) h
    | inr b ↦
        let (_, _, l, z) = server.zrem job.queue_message_id s in
        let shorter = length-del_le job.queue_message_id (server.leased s) in
        rw (step, ack, b) (omega (arith, h, shorter, ap length l, ap length z))
  ]

  -- With a positive capacity, the jobs that wait and those that are leased never come to be more
  -- than the capacity, whatever calls follow one another at times from 1970 to the year 9999.
  pub capacity_bounds :
      (limit : ℕ) (calls : List Call) (s : R)
      → q.capacity ≡ pos limit
      → 0 < limit
      → All HasDates calls
      → length (server.queued s) + length (server.leased s) ≤ limit
      → let s' = run execute codec q calls s in
        length (server.queued s') + length (server.leased s') ≤ limit
  unfolding run
  capacity_bounds limit [] s e positive dated h = h
  capacity_bounds limit (c ∷ cs) s e positive (here, later) h =
      capacity_bounds limit cs (step execute codec q c s) e positive later
        (size-step limit c s e positive here h)
