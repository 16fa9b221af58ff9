-- ===== src/Storage/Redis/Deletions.antt =====
-- internal/storage/redis.go: what `Delete` and `Cancel` leave and answer, over a server that
-- answers.
use chroma_flow.Base.{
  ℕ, String, ◌≡◌, refl, sym, ap, ◌∙◌, inl, inr, Bool, true, false, Option, none, some, [], ◌∷◌,
  ◌==◌, eq_iff, if◌then◌else◌, Bool-cases, arith,
}
use chroma_flow.Queue.Types.{ok, err, JobResult, is_terminal}
use chroma_flow.Redisx.Answer.{Do}
use chroma_flow.Redisx.Server.{no_content, StorageServer, without}
use chroma_flow.Storage.Store.{found, filled, as_canceled, canceled_with, canceled_result}
use chroma_flow.Storage.Fields.{Formats}
use chroma_flow.Storage.Redis.{
  RedisStorage, job_key, order_key, key_of, unreserved, delete, cancel_found, cancel,
}
use chroma_flow.Storage.Redis.Hash.{result_of, kept, job_key-eq, key_of-eq}
use chroma_flow.Storage.Redis.Laws.{
  IsLaidOut, view, holder, get_lem, found-without_error, order≠job, order≠key, job≠key, key≠job,
  hset, set_lem, view-hset, holder-hset,
}

module _ {R : Type 0} (execute : Do R) (formats : Formats) (server : StorageServer execute)
    (rs : RedisStorage) (laid : IsLaidOut server rs.prefix) where
  abbrev seen : R → String → Option JobResult
  seen = view execute formats server rs laid

  -- The server after the `DEL` of the job and the `LREM`.
  abbrev pub after_del : String → R → R
  after_del id s = (execute ("DEL" ∷ job_key rs.prefix id ∷ []) s).1

  abbrev pub after_lrem : String → R → R
  after_lrem id s = (execute ("LREM" ∷ order_key rs.prefix ∷ "0" ∷ id ∷ []) (after_del id s)).1

  abbrev pub after_delete : String → R → R
  after_delete id s = unreserved execute formats rs (seen s id) (after_lrem id s)

  at-after_lrem :
      (id : String) (s : R) (k : String)
      → (order_key rs.prefix == k) ≡ false
      → server.at (after_lrem id s) k
        ≡ (if job_key rs.prefix id == k then no_content else server.at s k)
  at-after_lrem id s k h =
      (server.lrem (order_key rs.prefix) id (after_del id s) laid.order).writes k
      ∙ ap
          (λ b.
            if b
            then (let c = server.at (after_del id s) (order_key rs.prefix) in
                record c { items = without id c.items })
            else server.at (after_del id s) k)
          h
      ∙ (server.del (job_key rs.prefix id) s).writes k

  at-unreserved :
      (o : Option JobResult) (s : R) (k : String)
      → server.at (unreserved execute formats rs o s) k ≡ (elim o [
        | none ↦ server.at s k
        | some r ↦
            if r.idempotency_key == ""
            then server.at s k
            else if key_of rs.prefix r.idempotency_key == k
            then no_content
            else server.at s k
      ])
  unfolding unreserved
  at-unreserved none s k = refl
  at-unreserved (some r) s k = elim (Bool-cases (r.idempotency_key == "")) [
    | inl e ↦ rw e refl
    | inr e ↦ rw e ((server.del (key_of rs.prefix r.idempotency_key) s).writes k)
  ]

  module _ (id : String) (s : R) where
    pub delete_lem : delete execute formats rs id s ≡ (none, after_delete id s, rs.on_set)
    unfolding delete
    delete_lem = rw (get_lem execute formats server rs laid id s) (
        rw (found-without_error (seen s id))
          (rw (server.del (job_key rs.prefix id) s).answers refl))

    pub view-after_delete :
        (j : String) → seen (after_delete id s) j ≡ (if id == j then none else seen s j)
    view-after_delete j =
        ap (λ c. result_of formats c.fields)
          (unreserved_job (seen s id) (job_key rs.prefix j)
              (λ key. key≠job execute formats server rs laid key j)
            ∙ at-after_lrem id s (job_key rs.prefix j) (order≠job execute formats server rs laid j))
        ∙ ap
            (λ b.
              result_of formats
                (if b then no_content else server.at s (job_key rs.prefix j)).fields)
            (job_key-eq rs.prefix id j)
        ∙ elim (Bool-cases (id == j)) [
          | inl e ↦ rw e (unfold result_of in refl)
          | inr e ↦ rw e refl
        ]
      where
        unreserved_job :
            (o : Option JobResult) (k : String)
            → ((key : String) → (key_of rs.prefix key == k) ≡ false)
            → server.at (unreserved execute formats rs o (after_lrem id s)) k
              ≡ server.at (after_lrem id s) k
        unreserved_job none k h = at-unreserved none (after_lrem id s) k
        unreserved_job (some r) k h =
            at-unreserved (some r) (after_lrem id s) k ∙ ground (arith, h r.idempotency_key)

    pub holder-after_delete :
        (key : String) {r : JobResult}
        → seen s id ≡ some r
        → holder execute formats server rs laid (after_delete id s) key ≡ (
            if r.idempotency_key == ""
            then holder execute formats server rs laid s key
            else if r.idempotency_key == key
            then none
            else holder execute formats server rs laid s key)
    holder-after_delete key {r} e =
        let k = key_of rs.prefix key in
        ap (λ o. (server.at (unreserved execute formats rs o (after_lrem id s)) k).value) e
        ∙ ap (λ c. c.value) (at-unreserved (some r) (after_lrem id s) k)
        ∙ ground (
          arith,
          at-after_lrem id s k (order≠key execute formats server rs laid key),
          job≠key execute formats server rs laid id key,
          key_of-eq rs.prefix r.idempotency_key key,
        )

  module _ (now : ℕ) (id : String) (s : R) where
    -- What `Cancel` leaves.
    abbrev pub after_cancel : Option JobResult → R
    after_cancel none = s
    after_cancel (some r) =
        if is_terminal r.status
        then s
        else (hset execute formats server rs laid now id (as_canceled r) s).1

    abbrev pub calls : Option JobResult → Bool
    calls none = false
    calls (some r) = if is_terminal r.status then false else rs.on_set

    cancel_found_lem :
        (o : Option JobResult)
        → cancel_found execute formats rs now id (found o) s
          ≡ (found (canceled_with as_canceled o), after_cancel o, calls o)
    unfolding cancel_found
    cancel_found_lem none = refl
    cancel_found_lem (some r) =
        ap
          (λ w.
            if is_terminal r.status
            then (ok r, s, false)
            else (elim w.1 [ none ↦ ok w.0 | some x ↦ err x ], w.2, w.3))
          (set_lem execute formats server rs laid now id (as_canceled r) s)
        ∙ elim (Bool-cases (is_terminal r.status)) [ inl e ↦ rw e refl | inr e ↦ rw e refl ]

    pub cancel_lem :
        let o = seen s id in
        cancel execute formats rs now id s
        ≡ (found (canceled_with as_canceled o), after_cancel o, calls o)
    unfolding cancel
    cancel_lem = rw (get_lem execute formats server rs laid id s) (cancel_found_lem (seen s id))

    pub view-after_cancel :
        (j : String)
        → let o = seen s id in
          seen (after_cancel o) j
          ≡ (if id == j then canceled_result (kept formats) now o else seen s j)
    view-after_cancel j = of_result (seen s id) refl
      where
        same : (id == j) ≡ true → seen s j ≡ seen s id
        same e = ap (seen s) (sym ((eq_iff id j).0 e))

        unchanged :
            (o : Option JobResult) → seen s id ≡ o → seen s j ≡ (if id == j then o else seen s j)
        unchanged o e = elim (Bool-cases (id == j)) [
          | inl b ↦ rw b (same b ∙ e)
          | inr b ↦ rw b refl
        ]

        of_result :
            (o : Option JobResult)
            → seen s id ≡ o
            → seen (after_cancel o) j
              ≡ (if id == j then canceled_result (kept formats) now o else seen s j)
        of_result none e = unchanged none e
        of_result (some r) e = elim (Bool-cases (is_terminal r.status)) [
          | inl b ↦ rw b (unchanged (some r) e)
          | inr b ↦ rw b (
              view-hset execute formats server rs laid now id (as_canceled r) s j
              ∙ ap
                  (λ o.
                    if id == j
                    then some (kept formats (filled now o (as_canceled r)))
                    else seen s j)
                  e)
        ]

    pub holder-after_cancel :
        (o : Option JobResult) (key : String)
        → holder execute formats server rs laid (after_cancel o) key
          ≡ holder execute formats server rs laid s key
    holder-after_cancel none key = refl
    holder-after_cancel (some r) key = elim (Bool-cases (is_terminal r.status)) [
      | inl b ↦ rw b refl
      | inr b ↦ rw b (holder-hset execute formats server rs laid now id (as_canceled r) s key)
    ]
