-- ===== src/Queue/Redis/Redelivery.antt =====
-- internal/queue/redis.go: `requeueExpired` gives back the jobs whose leases have ended, over a
-- Redis server that answers.
use chroma_flow.Base.{
  ℕ, suc, ◌+◌, ◌≤◌, String, ◌≡◌, refl, sym, subst, ap, ◌∙◌, true, none, some, List, [], ◌∷◌, ◌==◌,
  eq_refl, Bool-cases, inl, inr, arith, All, length, if◌then◌else◌,
}
use chroma_flow.Base.Dict
use chroma_flow.Base.Dict.{Dict, String-eq, get-del}
use chroma_flow.Queue.Types.{Result, ok, err, Job}
use chroma_flow.Redisx.Answer.{Do}
use chroma_flow.Queue.Redis.{
  RedisQueue, Codec, leased_until, requeue_item, requeue_items, requeue_expired, second_of,
}
use chroma_flow.Queue.Redis.Server.{QueueServer, IsDue, IsPast, is_among, IsTime}
use chroma_flow.Queue.Redis.Held.{IsFaithful, ok-inj, removed, requeue_item-ok}

pub length-del_le : (x : String) (m : Dict String ℕ) → length (Dict.del x m) ≤ length m
unfolding Dict.del
length-del_le x [] = omega arith
length-del_le x ((k, v) ∷ m) = ground (arith, length-del_le x m)

pub length-del :
    (x : String) (n : ℕ) (m : Dict String ℕ)
    → IsPast n (Dict.get x m)
    → suc (length (Dict.del x m)) ≤ length m
unfolding Dict.del Dict.get
length-del x n [] h = absurd h
length-del x n ((k, v) ∷ m) h = elim (Bool-cases (k == x)) [
  | inl e ↦ rw e (omega (arith, length-del_le x m))
  | inr e ↦ rw e (
      omega
        (arith, length-del x n m (subst (λ b. IsPast n (if b then some v else Dict.get x m)) e h)))
]

module _ {R : Type 0} (execute : Do R) (codec : Codec) (q : RedisQueue)
    (server : QueueServer execute q.queue_key q.processing_key) (faithful : IsFaithful codec) where
  abbrev pub depth : R → ℕ
  depth s = length (server.queued s) + length (server.leased s)

  -- What a round of the loop of `requeueExpired` changes.
  pub record Requeued (payload : String) (s s' : R) : Type 0 where
    pub leases : server.leased s' ≡ Dict.del payload (server.leased s)
    pub stay :
        (p : String) → is_among p (server.queued s) ≡ true → is_among p (server.queued s') ≡ true
    pub few : length (server.queued s') ≤ suc (length (server.queued s))
    pub back :
        (job : Job)
        → codec.unmarshal payload ≡ ok job
        → (json : String) × (codec.unmarshal json ≡ ok (leased_until 0 job))
          × (is_among json (server.queued s') ≡ true)

  Requeued-item :
      (payload : String) (r : Result Job) (s : R)
      → codec.unmarshal payload ≡ r
      → let (e, s') = requeue_item execute codec q payload r s in (e ≡ none) × Requeued payload s s'
  unfolding requeue_item
  Requeued-item payload (err e) s bad =
      let (_, _, l, z) = server.zrem payload s in
      (
        refl,
        record {
          leases = z;
          stay = λ p h. ap (is_among p) l ∙ h;
          few = rw l (omega arith);
          back = λ job good. absurd (cc);
        },
      )
  Requeued-item payload (ok job) s good =
      let (json, back, e) = requeue_item-ok execute codec q server faithful payload job s in
      let (_, _, l, z) = server.zrem payload s in
      let (_, _, l', z') = server.lpush json (removed execute codec q server payload s) in
      rw e (
        refl,
        record {
          leases = z' ∙ z;
          stay = λ p h. ap (is_among p) l' ∙ ground (arith, ap (is_among p) l, h);
          few = rw l' (rw l (omega arith));
          back = λ job' good'. (
            json,
            back ∙ ap (λ j. ok (leased_until 0 j)) (ok-inj (sym good ∙ good')),
            ap (is_among json) l' ∙ ground (arith, eq_refl json),
          );
        },
      )

  -- An item that the loop gave back: its lease is gone and, where it decodes, its job waits.
  abbrev pub IsBack : R → String → Type 0
  IsBack s x =
      (Dict.get x (server.leased s) ≡ none)
      × ((job : Job)
          → codec.unmarshal x ≡ ok job
          → (json : String) × (codec.unmarshal json ≡ ok (leased_until 0 job))
            × (is_among json (server.queued s) ≡ true))

  IsBack-item : (x : String) {s s' : R} → Requeued x s s' → IsBack s' x
  IsBack-item x {s} {s'} c =
      (ap (Dict.get x) c.leases ∙ get-del x x (server.leased s) ∙ ground (arith, eq_refl x), c.back)

  IsBack-later : (x y : String) {s s' : R} → Requeued y s s' → IsBack s x → IsBack s' x
  IsBack-later x y {s} {s'} c (gone, back) = (
    ap (Dict.get x) c.leases ∙ get-del y x (server.leased s) ∙ ground (arith, gone),
    λ job good. let (json, decodes, waits) = back job good in (json, decodes, c.stay json waits),
  )

  pub after_item : String → R → R
  after_item x s = (requeue_item execute codec q x (codec.unmarshal x) s).1

  pub requeue_items-cons :
      (x : String) (xs : List String) (s : R)
      → requeue_items execute codec q (x ∷ xs) s ≡ requeue_items execute codec q xs (after_item x s)
  unfolding requeue_items after_item
  requeue_items-cons x xs s =
      let (fine, _) = Requeued-item x (codec.unmarshal x) s refl in rw (requeue_items, fine) refl

  pub Requeued-after_item : (x : String) (s : R) → Requeued x s (after_item x s)
  unfolding after_item
  Requeued-after_item x s = let (_, c) = Requeued-item x (codec.unmarshal x) s refl in c

  IsBack-items :
      (x : String) (items : List String) (s : R)
      → IsBack s x
      → IsBack (requeue_items execute codec q items s).1 x
  unfolding requeue_items
  IsBack-items x [] s h = h
  IsBack-items x (y ∷ ys) s h =
      subst (λ w. IsBack w.1 x) (sym (requeue_items-cons y ys s))
        (IsBack-items x ys (after_item y s) (IsBack-later x y (Requeued-after_item y s) h))

  requeue_items-IsBack :
      (items : List String) (s : R)
      → let (e, s') = requeue_items execute codec q items s in (e ≡ none) × All (IsBack s') items
  unfolding requeue_items
  requeue_items-IsBack [] s = (refl, tt)
  requeue_items-IsBack (x ∷ xs) s =
      let s₁ = after_item x s in
      let (e, all) = requeue_items-IsBack xs s₁ in
      subst (λ w. (w.0 ≡ none) × All (IsBack w.1) (x ∷ xs)) (sym (requeue_items-cons x xs s))
        (e, (IsBack-items x xs s₁ (IsBack-item x (Requeued-after_item x s)), all))

  -- At a time from 1970 to the year 9999, `requeueExpired` gives back the leased items whose leases have ended, all of them where they
  -- are fewer than 25 and 25 of them otherwise: each is leased no more and, where it decodes, waits
  -- in the list again, as the same job with no lease.
  pub requeue_expired-IsBack :
      (now : ℕ) (s : R)
      → IsTime now
      → let (e, s') = requeue_expired execute codec q now s in
        (items : List String) × IsDue (second_of now) items (server.leased s)
        × (e ≡ none)
        × All (IsBack s') items
  unfolding requeue_expired
  requeue_expired-IsBack now s timely =
      let (items, e, due) = server.zrangebyscore now s timely in
      let (fine, all) = requeue_items-IsBack items s in rw e (items, due, fine, all)
