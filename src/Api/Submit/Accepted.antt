-- ===== src/Api/Submit/Accepted.antt =====
-- internal/api/handler.go: `SubmitJob` of a valid request whose idempotency key nobody holds.
use chroma_flow.Base.{
  String, cat, ◌≡◌, refl, ◌⊎◌, inl, inr, true, false, Option, none, some, ◌==◌, eq_iff, eq_refl,
  Bool-cases, ap, ◌∙◌, if◌then◌else◌, arith,
}
use chroma_flow.Queue.Types.{Error, is_queue_full, ok}
use chroma_flow.Queue.Backend.{Backend}
use chroma_flow.Storage.Store.{Store, StoreLaws, filled}
use chroma_flow.Api.Writer.{submit_response, error_response, fresh}
use chroma_flow.Api.World.{World}
use chroma_flow.Api.Submit.{
  Call, Draw, Submission, valid, job_of, pending_result, initialized, reserved, submit_checked,
}
use chroma_flow.Api.Submit.Branches.{Responds}

module _ {S : Type 0} (store : Store S) where
  -- The storage after the reservation, and after the initialization of the job's metadata.
  abbrev pub after_reserve : Submission → Draw → S → S
  after_reserve sub d s = (store.reserve_idempotency_key sub.idempotency_key d.uuid s).1

  abbrev pub after_set : Submission → Draw → S → S
  after_set sub d s =
      (store.set d.stored_at d.uuid (pending_result sub d) (after_reserve sub d s)).2

  abbrev pub set_error : Submission → Draw → S → Option Error
  set_error sub d s =
      (store.set d.stored_at d.uuid (pending_result sub d) (after_reserve sub d s)).1

module _ {S : Type 0} (store : Store S) (laws : StoreLaws store) where
  -- Nobody holds the key, or there is none.
  abbrev pub IsFree : String → S → Type 0
  IsFree key s = (key ≡ "") ⊎ (laws.holder s key ≡ none)

  reserve-free :
      (key id : String) (s : S)
      → IsFree key s
      → (x : String) × ((store.reserve_idempotency_key key id s).0 ≡ ok (x, true))
  reserve-free key id s (inl e) = ("", ground (arith, laws.result-reserve key id s, eq_iff key ""))
  reserve-free key id s (inr e) =
      (if key == "" then "" else id, ground (arith, laws.result-reserve key id s))

  module _ (d : Draw) (sub : Submission) (s : S) where
    pub view-after_set :
        set_error store sub d s ≡ none
        → (j : String)
        → laws.view (after_set store sub d s) j ≡ (
            if d.uuid == j
            then some (laws.kept (filled d.stored_at (laws.view s d.uuid) (pending_result sub d)))
            else laws.view s j)
    view-after_set e j =
        rw
          (laws.view-set d.stored_at d.uuid (pending_result sub d) (after_reserve store sub d s) j
            e)
          (rw (laws.view-reserve sub.idempotency_key d.uuid s d.uuid)
            (rw (laws.view-reserve sub.idempotency_key d.uuid s j)))

    pub holder-after_set :
        IsFree sub.idempotency_key s
        → (key : String)
        → laws.holder (after_set store sub d s) key ≡ (
            if sub.idempotency_key == ""
            then laws.holder s key
            else if sub.idempotency_key == key
            then some d.uuid
            else laws.holder s key)
    holder-after_set free key =
        rw
          (laws.holder-set d.stored_at d.uuid (pending_result sub d) (after_reserve store sub d s)
            key)
          (rw (laws.holder-reserve sub.idempotency_key d.uuid s key)
            (ground (arith, eq_iff sub.idempotency_key "")))

module _ {S Q B : Type 0} (store : Store S) (laws : StoreLaws store) (backend : Backend Q)
    (c : Call) (d : Draw) (sub : Submission) (w : World S Q B)
    (free : IsFree store laws sub.idempotency_key w.storage) where
  -- The call goes on to initialize the job's metadata.
  pub submit_checked-free :
      submit_checked store backend c d (valid sub) w
      ≡ initialized store backend sub d
          (set_error store sub d w.storage)
          (record w { storage = after_set store sub d w.storage })
  unfolding submit_checked reserved
  submit_checked-free = rw (reserve-free store laws sub.idempotency_key d.uuid w.storage free).1

  -- A valid request whose key nobody holds, where the storage takes the metadata and the queue
  -- the job, is answered with status 202 and the new job id. The storage then has the pending
  -- result for that id, as the storage keeps it, and as before for every other; the key, if there is one, is held by the
  -- new job, and every other key as before; and the queue is what its `Push` made of it.
  pub submit_accepts :
      w.writer ≡ fresh
      → set_error store sub d w.storage ≡ none
      → (backend.push (job_of sub d) w.queue).0 ≡ none
      → let w' = submit_checked store backend c d (valid sub) w in
        Responds 202 (submit_response d.uuid (cat "/pdf/" d.uuid) false) w'
        × ((j : String)
            → laws.view w'.storage j ≡ (
                if d.uuid == j
                then some (
                    laws.kept
                      (filled d.stored_at (laws.view w.storage d.uuid) (pending_result sub d)))
                else laws.view w.storage j))
        × ((key : String)
            → laws.holder w'.storage key ≡ (
                if sub.idempotency_key == ""
                then laws.holder w.storage key
                else if sub.idempotency_key == key
                then some d.uuid
                else laws.holder w.storage key))
        × (w'.queue ≡ (backend.push (job_of sub d) w.queue).1)
  submit_accepts h set_ok push_ok = rw submit_checked-free (
      rw set_ok (
        unfold initialized in
        rw push_ok (
          ground arith,
          view-after_set store laws d sub w.storage set_ok,
          holder-after_set store laws d sub w.storage free,
          refl,
        )))

  deleted_view :
      (j : String)
      → laws.view w.storage d.uuid ≡ none
      → set_error store sub d w.storage ≡ none
      → laws.view (store.delete d.uuid (after_set store sub d w.storage)).1 j
        ≡ laws.view w.storage j
  deleted_view j new set_ok = ground (
    arith,
    laws.view-delete d.uuid (after_set store sub d w.storage) j,
    view-after_set store laws d sub w.storage set_ok j,
    eq_iff d.uuid j,
  )

  deleted_holder :
      (key : String)
      → laws.view w.storage d.uuid ≡ none
      → set_error store sub d w.storage ≡ none
      → laws.holder (store.delete d.uuid (after_set store sub d w.storage)).1 key
        ≡ laws.holder w.storage key
  deleted_holder key new set_ok =
      let old = laws.view w.storage d.uuid in
      let stored =
        view-after_set store laws d sub w.storage set_ok d.uuid
        ∙ ap
            (λ b.
              if b then some (laws.kept (filled d.stored_at old (pending_result sub d))) else old)
            (eq_refl d.uuid) in
      ground (
        arith,
        laws.holder-delete d.uuid (after_set store sub d w.storage) key
            (stored ∙ ap (λ o. some (laws.kept (filled d.stored_at o (pending_result sub d)))) new),
        holder-after_set store laws d sub w.storage free key,
        eq_iff sub.idempotency_key key,
        eq_iff sub.idempotency_key "",
        laws.kept-idempotency_key (filled d.stored_at none (pending_result sub d)),
      )

  -- A valid request whose key nobody holds, with a job id that is not in use, and which the queue
  -- refuses: it is answered with status 503 where the queue is full and with 500 otherwise, and
  -- every job's stored result and every key's holder are as they were before the request.
  pub submit-push_error :
      {e : Error}
      → w.writer ≡ fresh
      → laws.view w.storage d.uuid ≡ none
      → set_error store sub d w.storage ≡ none
      → (backend.push (job_of sub d) w.queue).0 ≡ some e
      → let w' = submit_checked store backend c d (valid sub) w in
        (if is_queue_full e
          then Responds 503 (error_response "queue_full" "Queue is full" sub.request_id) w'
          else Responds 500
              (error_response "enqueue_error" "Failed to queue job" sub.request_id)
              w')
        × ((j : String) → laws.view w'.storage j ≡ laws.view w.storage j)
        × ((key : String) → laws.holder w'.storage key ≡ laws.holder w.storage key)
  submit-push_error {e} h new set_ok push_fails = rw submit_checked-free (
      rw set_ok (
        unfold initialized in
        rw push_fails (elim (Bool-cases (is_queue_full e)) [
          | inl full ↦
              rw full (
                ground arith,
                (λ j. deleted_view j new set_ok),
                λ key. deleted_holder key new set_ok,
              )
          | inr other ↦
              rw other (
                ground arith,
                (λ j. deleted_view j new set_ok),
                λ key. deleted_holder key new set_ok,
              )
        ])))
