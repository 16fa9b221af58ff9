-- ===== src/Storage/Redis/Laws.antt =====
-- internal/storage/redis.go: what each method stores, reserves and answers over a Redis server
-- that answers.
use chroma_flow.Base.{
  ℕ, String, ◌≡◌, refl, ap, ◌∙◌, inl, inr, true, false, Option, none, some, ◌∷◌, ◌==◌, eq_iff,
  if◌then◌else◌, Bool-cases, arith,
}
use chroma_flow.Base.Dict.{String-eq}
use chroma_flow.Queue.Types.{Result, JobResult}
use chroma_flow.Redisx.Answer.{Answer, Do}
use chroma_flow.Redisx.Server.{Kind, hash, plain, sequence, StorageServer, Writes, put_all}
use chroma_flow.Storage.Store.{found, filled}
use chroma_flow.Storage.Fields.{Formats, encoded}
use chroma_flow.Storage.Redis.{
  RedisStorage, job_key, order_key, key_of, flat, without_error, get, pushed, set,
}
use chroma_flow.Storage.Redis.Hash.{result_of, kept, of_items-Lists, result_of-put_all, job_key-eq}

-- The keys of a prefix have the kinds that the commands of the storage want.
pub record IsLaidOut {R : Type 0} {execute : Do R} (server : StorageServer execute)
    (prefix : String) : Type 0 where
  pub jobs : (id : String) → server.kind (job_key prefix id) ≡ hash
  pub order : server.kind (order_key prefix) ≡ sequence
  pub keys : (key : String) → server.kind (key_of prefix key) ≡ plain

same_kind : (f : String → Kind) (a b : String) → (a == b) ≡ true → f a ≡ f b
same_kind f a b e = ap f ((eq_iff a b).0 e)

pub found-without_error : (o : Option JobResult) → without_error (found o) ≡ o
found-without_error none = refl
found-without_error (some r) = refl

module _ {R : Type 0} (execute : Do R) (formats : Formats) (server : StorageServer execute)
    (rs : RedisStorage) (laid : IsLaidOut server rs.prefix) where
  abbrev pub view : R → String → Option JobResult
  view s id = result_of formats (server.at s (job_key rs.prefix id)).fields

  abbrev pub holder : R → String → Option String
  holder s key = (server.at s (key_of rs.prefix key)).value

  pub job≠key : (id key : String) → (job_key rs.prefix id == key_of rs.prefix key) ≡ false
  job≠key id key = ground (
    arith,
    same_kind server.kind (job_key rs.prefix id) (key_of rs.prefix key),
    laid.jobs id,
    laid.keys key,
  )

  pub order≠job : (id : String) → (order_key rs.prefix == job_key rs.prefix id) ≡ false
  order≠job id = ground (
    arith,
    same_kind server.kind (order_key rs.prefix) (job_key rs.prefix id),
    laid.jobs id,
    laid.order,
  )

  pub order≠key : (key : String) → (order_key rs.prefix == key_of rs.prefix key) ≡ false
  order≠key key = ground (
    arith,
    same_kind server.kind (order_key rs.prefix) (key_of rs.prefix key),
    laid.order,
    laid.keys key,
  )

  pub key≠job : (key id : String) → (key_of rs.prefix key == job_key rs.prefix id) ≡ false
  key≠job key id = ground (
    arith,
    same_kind server.kind (key_of rs.prefix key) (job_key rs.prefix id),
    laid.jobs id,
    laid.keys key,
  )

  pub get_lem : (id : String) (s : R) → get execute formats rs.prefix id s ≡ (found (view s id), s)
  unfolding get
  get_lem id s =
      let (ps, e, listed) = server.hgetall (job_key rs.prefix id) s (laid.jobs id) in
      rw e (
        ap (λ r. (r, s))
          (of_items-Lists formats ps (server.at s (job_key rs.prefix id)).fields listed))

  -- The server after the `LPUSH` and the `HSET` of `Set`.
  abbrev pub after_push : String → R → R
  after_push id s = pushed execute formats rs id (view s id) s

  abbrev pub hset : ℕ → String → JobResult → R → Result Answer × R
  hset now id r s =
      execute ("HSET" ∷ job_key rs.prefix id ∷ flat (encoded formats (filled now (view s id) r)))
        (after_push id s)

  at-pushed :
      (id : String) (o : Option JobResult) (s : R) (k : String)
      → (order_key rs.prefix == k) ≡ false
      → server.at (pushed execute formats rs id o s) k ≡ server.at s k
  unfolding pushed
  at-pushed id (some r) s k h = refl
  at-pushed id none s k h =
      (server.lpush (order_key rs.prefix) id s laid.order).writes k ∙ ground arith

  hset-encoded :
      (id : String) (r : JobResult) (s : R)
      → let key = job_key rs.prefix id in
        Writes execute server.at
          ("HSET" ∷ key ∷ flat (encoded formats r))
          s
          key
          (record (server.at s key) {
            fields = put_all (encoded formats r) (server.at s key).fields;
          })
  unfolding encoded
  hset-encoded id r s = server.hset (job_key rs.prefix id) "url" r.url _ s (laid.jobs id)

  module _ (now : ℕ) (id : String) (r : JobResult) (s : R) where
    pub set_lem : set execute formats rs now id r s ≡ (r, none, (hset now id r s).1, rs.on_set)
    unfolding set
    set_lem =
        let w = hset-encoded id (filled now (view s id) r) (after_push id s) in
        rw (get_lem id s) (rw (found-without_error (view s id)) (rw w.answers refl))

    at-hset :
        (k : String)
        → let key = job_key rs.prefix id in
          let old = server.at (after_push id s) key in
          server.at (hset now id r s).1 k ≡ (
            if key == k
            then record old {
              fields = put_all (encoded formats (filled now (view s id) r)) old.fields;
            }
            else server.at (after_push id s) k)
    at-hset = (hset-encoded id (filled now (view s id) r) (after_push id s)).writes

    pub view-hset :
        (j : String)
        → view (hset now id r s).1 j
          ≡ (if id == j then some (kept formats (filled now (view s id) r)) else view s j)
    view-hset j = rw (at-hset (job_key rs.prefix j)) (
        rw (job_key-eq rs.prefix id j) (elim (Bool-cases (id == j)) [
          | inl e ↦ rw e (result_of-put_all formats (filled now (view s id) r) _)
          | inr e ↦ rw e (rw (at-pushed id (view s id) s (job_key rs.prefix j) (order≠job j)) refl)
        ]))

    pub holder-hset : (key : String) → holder (hset now id r s).1 key ≡ holder s key
    holder-hset key =
        let k = key_of rs.prefix key in
        ap (λ c. c.value) (at-hset k)
        ∙ ground (arith, job≠key id key)
        ∙ ap (λ c. c.value) (at-pushed id (view s id) s k (order≠key key))
