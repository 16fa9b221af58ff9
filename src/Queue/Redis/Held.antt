-- ===== src/Queue/Redis/Held.antt =====
-- internal/queue/redis.go: no call but `Ack` loses a job, over a Redis server that answers.
use chroma_flow.Base.{
  ℕ, ◌<◌, String, ◌≡◌, ◌≢◌, refl, sym, ap, ◌∙◌, Bool, true, false, Option, none, some, List, [],
  ◌∷◌, ◌++◌, ◌==◌, eq_iff, eq_refl, ◌||◌, Bool-cases, inl, inr, arith, ◌⊎◌,
}
use chroma_flow.Base.Dict
use chroma_flow.Base.Dict.{Dict, String-eq, get-put, get-del}
use chroma_flow.Queue.Types.{Error, Result, ok, err, Job}
use chroma_flow.Redisx.Answer.{Do}
use chroma_flow.Queue.Redis.{
  RedisQueue, Codec, leased_until, put_text, requeue_item, requeue_items, requeue_expired,
}
use chroma_flow.Queue.Redis.Server.{QueueServer, is_among, IsTime}

abbrev pub is_some {ℓ} : {A : Type ℓ} → Option A → Bool
is_some none = false
is_some (some a) = true

-- Up to the end of the year 9999, which is as far as the JSON of a time goes.
abbrev pub IsDated : ℕ → Type 0
IsDated t = t < 315537897600000000000

-- `encoding/json` reads back what it wrote.
abbrev pub IsFaithful : Codec → Type 0
IsFaithful codec =
    (job : Job)
    → IsDated job.lease_until
    → (t : String) × (codec.marshal job ≡ ok t) × (codec.unmarshal t ≡ ok job)

pub is_among-append :
    (p x : String) (xs : List String) → is_among p (xs ++ x ∷ []) ≡ (is_among p xs || x == p)
is_among-append p x [] = ground arith
is_among-append p x (y ∷ ys) = ground (arith, is_among-append p x ys)

pub Result-cases {ℓ} :
    {A : Type ℓ} (r : Result A) → ((a : A) × (r ≡ ok a)) ⊎ ((e : Error) × (r ≡ err e))
Result-cases (ok a) = inl (a, refl)
Result-cases (err e) = inr (e, refl)

pub ok-inj : {A : Type 0} {a b : A} → ok a ≡ ok b → a ≡ b
ok-inj {A} {a} {b} e = ap (λ r. elim r [ ok x ↦ x | err _ ↦ a ]) e

module _ {R : Type 0} (execute : Do R) (codec : Codec) (q : RedisQueue)
    (server : QueueServer execute q.queue_key q.processing_key) where
  -- The payload waits in the list or is leased.
  abbrev pub has : String → R → Bool
  has p s = is_among p (server.queued s) || is_some (Dict.get p (server.leased s))

  -- Some payload of the job waits or is leased.
  pub record Holds (id : String) (s : R) : Type 0 where
    pub payload : String
    pub job : Job
    pub decodes : codec.unmarshal payload ≡ ok job
    pub same_id : job.id ≡ id
    pub here : has payload s ≡ true

  -- The server after a command.
  abbrev pub lpushed : String → R → R
  lpushed x s = (execute ("LPUSH" ∷ q.queue_key ∷ x ∷ []) s).1

  abbrev pub removed : String → R → R
  removed x s = (execute ("ZREM" ∷ q.processing_key ∷ x ∷ []) s).1

  pub has-lpushed : (p x : String) (s : R) → has p (lpushed x s) ≡ ((x == p) || has p s)
  has-lpushed p x s = let (_, _, l, z) = server.lpush x s in rw l (rw z (ground arith))

  pub has-removed : (p x : String) (s : R) → (x == p) ≡ false → has p (removed x s) ≡ has p s
  has-removed p x s d =
      let (_, _, l, z) = server.zrem x s in
      rw l (rw z (ground (arith, get-del x p (server.leased s), d)))

  -- A held job stays held where its payload stays, or where another payload of it comes.
  pub keeps : {id : String} {s s' : R} (h : Holds id s) → has h.payload s' ≡ true → Holds id s'
  keeps h e = record {
    payload = h.payload;
    job = h.job;
    decodes = h.decodes;
    same_id = h.same_id;
    here = e;
  }

  pub Holds-lpushed : {id : String} (x : String) {s : R} → Holds id s → Holds id (lpushed x s)
  Holds-lpushed x {s} h = keeps h (has-lpushed h.payload x s ∙ ground (arith, h.here))

  pub pushed-Holds :
      (x : String) (job : Job) (s : R) {id : String}
      → codec.unmarshal x ≡ ok job
      → job.id ≡ id
      → Holds id (lpushed x s)
  pushed-Holds x job s e i = record {
    payload = x;
    job = job;
    decodes = e;
    same_id = i;
    here = has-lpushed x x s ∙ ground (arith, eq_refl x);
  }

  pub id_of_payload :
      (x : String) (job : Job) {id : String} {s : R} (h : Holds id s)
      → codec.unmarshal x ≡ ok job
      → (x == h.payload) ≡ true
      → job.id ≡ id
  id_of_payload x job h e same =
      ap (λ j. j.id) (ok-inj (sym e ∙ ap codec.unmarshal ((eq_iff x h.payload).0 same) ∙ h.decodes))
      ∙ h.same_id

  -- A payload that decodes otherwise is another one.
  pub differs : (x p : String) → codec.unmarshal x ≢ codec.unmarshal p → (x == p) ≡ false
  differs x p d = elim (Bool-cases (x == p)) [
    | inl e ↦ absurd (d (ap codec.unmarshal ((eq_iff x p).0 e)))
    | inr e ↦ e
  ]

  module _ (faithful : IsFaithful codec) where
    pub requeue_item-ok :
        (payload : String) (job : Job) (s : R)
        → (json : String) × (codec.unmarshal json ≡ ok (leased_until 0 job))
          × (requeue_item execute codec q payload (ok job) s
              ≡ (none, lpushed json (removed payload s)))
    unfolding requeue_item put_text
    requeue_item-ok payload job s =
        let (json, e, back) = faithful (leased_until 0 job) (omega arith) in
        let (_, z, _, _) = server.zrem payload s in
        let (_, l, _, _) = server.lpush json (removed payload s) in
        (json, back, rw e (rw z (rw l refl)))

    Holds-requeue_item :
        (payload : String) (r : Result Job) {id : String} {s : R}
        → codec.unmarshal payload ≡ r
        → Holds id s
        → let (e, s') = requeue_item execute codec q payload r s in (e ≡ none) × Holds id s'
    unfolding requeue_item
    Holds-requeue_item payload (err e) {id} {s} bad h = (
      refl,
      keeps h (
          has-removed h.payload payload s
            (differs payload h.payload (λ same. let d = h.decodes in absurd (cc)))
          ∙ h.here),
    )
    Holds-requeue_item payload (ok job) {id} {s} good h =
        let (json, back, e) = requeue_item-ok payload job s in
        rw e (
          refl,
          elim (Bool-cases (payload == h.payload)) [
            | inl same ↦
                pushed-Holds json (leased_until 0 job) (removed payload s) back
                  (id_of_payload payload job h good same)
            | inr other ↦
                Holds-lpushed json (keeps h (has-removed h.payload payload s other ∙ h.here))
          ],
        )

    Holds-requeue_items :
        (items : List String) {id : String} {s : R}
        → Holds id s
        → let (e, s') = requeue_items execute codec q items s in (e ≡ none) × Holds id s'
    unfolding requeue_items
    Holds-requeue_items [] h = (refl, h)
    Holds-requeue_items (x ∷ xs) {id} {s} h =
        let (fine, h') = Holds-requeue_item x (codec.unmarshal x) refl h in
        rw (requeue_items, fine) (Holds-requeue_items xs h')

    pub Holds-requeue_expired :
        (now : ℕ) {id : String} {s : R}
        → IsTime now
        → Holds id s
        → let (e, s') = requeue_expired execute codec q now s in (e ≡ none) × Holds id s'
    unfolding requeue_expired
    Holds-requeue_expired now {id} {s} timely h =
        let (items, e, _) = server.zrangebyscore now s timely in rw e (Holds-requeue_items items h)
