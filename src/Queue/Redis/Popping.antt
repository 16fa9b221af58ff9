-- ===== src/Queue/Redis/Popping.antt =====
-- internal/queue/redis.go: a `Pop` loses no job, over a Redis server that answers.
use chroma_flow.Base.{
  ℕ, ◌+◌, String, ◌≡◌, refl, ap, ◌∙◌, false, none, List, [], ◌∷◌, ◌++◌, ◌==◌, eq_iff, eq_refl, ◌||◌,
  Bool-cases, Option-cases, inl, inr, arith, ◌⊎◌, All,
}
use chroma_flow.Base.Dict.{String-eq, get-put}
use chroma_flow.Queue.Types.{Result, ok, err, Job}
use chroma_flow.Redisx.Answer.{Do}
use chroma_flow.Queue.Redis.{
  RedisQueue, Codec, Round, Popped, returns, goes_on, identified, leased_until, pop_payload,
  pop_requeued, pop_round, pop, second_of, unix_text,
}
use chroma_flow.Queue.Redis.Server.{QueueServer, is_among, IsTime}
use chroma_flow.Queue.Redis.Held.{
  IsFaithful, is_among-append, has, Holds, keeps, differs, id_of_payload, Holds-requeue_expired,
}

-- A list is empty or has a last item.
pub last-cases :
    (xs : List String) → (xs ≡ []) ⊎ ((ys : List String) × (y : String) × (xs ≡ ys ++ y ∷ []))
last-cases [] = inl refl
last-cases (x ∷ xs) = elim (last-cases xs) [
  | inl e ↦ inr ([], x, ap (λ l. x ∷ l) e)
  | inr (ys, y, e) ↦ inr (x ∷ ys, y, ap (λ l. x ∷ l) e)
]

pub Popped-cases : (p : Popped) → ((r : Result Job) × (p ≡ returns r)) ⊎ (p ≡ goes_on)
Popped-cases (returns r) = inl (r, refl)
Popped-cases goes_on = inr refl

module _ {R : Type 0} (execute : Do R) (codec : Codec) (q : RedisQueue)
    (server : QueueServer execute q.queue_key q.processing_key) (faithful : IsFaithful codec) where
  -- The server after `BRPOP` and `ZADD`.
  abbrev pub popped : R → R
  popped s = (execute ("BRPOP" ∷ q.queue_key ∷ "5" ∷ []) s).1

  abbrev pub added : ℕ → String → R → R
  added t x s = (execute ("ZADD" ∷ q.processing_key ∷ unix_text t ∷ x ∷ []) s).1

  has-popped :
      (p x : String) (xs : List String) (s : R)
      → server.queued s ≡ xs ++ x ∷ []
      → (x == p) ≡ false
      → has execute codec q server p (popped s) ≡ has execute codec q server p s
  has-popped p x xs s e d =
      let (_, l, z) = server.brpop s xs x e in
      rw l (rw z (ground (arith, ap (is_among p) e, is_among-append p x xs, d)))

  has-added :
      (p x : String) (t : ℕ) (s : R)
      → IsTime t
      → has execute codec q server p (added t x s) ≡ ((x == p) || has execute codec q server p s)
  has-added p x t s timely =
      let (_, _, l, z) = server.zadd t x s timely in
      rw l (rw z (ground (arith, get-put x p (second_of t) (server.leased s), eq_iff x p)))

  -- A round of `Pop` that has a payload, which `BRPOP` took.
  Holds-pop_payload :
      (r : Round) (x : String) (xs : List String) (d : Result Job) {id : String} {s : R}
      → IsTime (r.leased_at + q.visibility_timeout)
      → server.queued s ≡ xs ++ x ∷ []
      → codec.unmarshal x ≡ d
      → Holds execute codec q server id s
      → Holds execute codec q server id (pop_payload execute codec q r x d (popped s)).1
  unfolding pop_payload
  Holds-pop_payload r x xs (err e) {id} {s} dated at_end bad h = keeps execute codec q server h (
      has-popped h.payload x xs s at_end
        (differs execute codec q server x h.payload (λ same. let good = h.decodes in absurd (cc)))
      ∙ h.here)
  Holds-pop_payload r x xs (ok job) {id} {s} dated at_end good h =
      let until = r.leased_at + q.visibility_timeout in
      let (leased, e, back) = faithful (leased_until until (identified r.uuid job)) dated.1 in
      let (_, z, _, _) = server.zadd until leased (popped s) dated in
      rw e (
        rw z (elim (Bool-cases (x == h.payload)) [
          | inl same ↦ record {
            payload = leased;
            job = leased_until until (identified r.uuid job);
            decodes = back;
            same_id = id_of_payload execute codec q server x job h good same;
            here = has-added leased leased until (popped s) dated ∙ ground (arith, eq_refl leased);
          }
          | inr other ↦ keeps execute codec q server h (
              has-added h.payload leased until (popped s) dated
              ∙ ap (λ b. leased == h.payload || b) (has-popped h.payload x xs s at_end other)
              ∙ ground (arith, h.here))
        ]))

  Holds-pop_requeued :
      (r : Round) {id : String} {s : R}
      → IsTime (r.leased_at + q.visibility_timeout)
      → Holds execute codec q server id s
      → Holds execute codec q server id (pop_requeued execute codec q r none s).1
  unfolding pop_requeued
  Holds-pop_requeued r {id} {s} dated h = elim (last-cases (server.queued s)) [
    | inl e ↦ rw (server.brpop_empty s e) h
    | inr (xs, x, e) ↦
        let (v, _, _) = server.brpop s xs x e in
        rw v (Holds-pop_payload r x xs (codec.unmarshal x) dated e refl h)
  ]

  Holds-pop_round :
      (r : Round) {id : String} {s : R}
      → IsTime r.now
      → IsTime (r.leased_at + q.visibility_timeout)
      → Holds execute codec q server id s
      → Holds execute codec q server id (pop_round execute codec q r s).1
  unfolding pop_round pop_requeued pop_payload
  Holds-pop_round r {id} {s} timely dated h = elim (Option-cases r.ctx_err) [
    | inl e ↦
        let (fine, h') = Holds-requeue_expired execute codec q server faithful r.now timely h in
        rw e (rw fine (Holds-pop_requeued r dated h'))
    | inr (x, e) ↦ rw e h
  ]

  -- The clock of the rounds, and the ends of the leases that they give.
  abbrev pub AreDated : List Round → Type 0
  AreDated rounds = All (λ r. IsTime r.now × IsTime (r.leased_at + q.visibility_timeout)) rounds

  pub Holds-pop :
      (rounds : List Round) {id : String} {s : R}
      → AreDated rounds
      → Holds execute codec q server id s
      → Holds execute codec q server id (pop execute codec q rounds s).1
  unfolding pop
  Holds-pop [] dated h = h
  Holds-pop (r ∷ rs) {id} {s} ((timely, here), later) h =
      elim (Popped-cases (pop_round execute codec q r s).0) [
        | inl (result, e) ↦ rw e (Holds-pop_round r timely here h)
        | inr e ↦ rw e (Holds-pop rs later (Holds-pop_round r timely here h))
      ]
