-- ===== src/Api/Submit/Replay.antt =====
-- internal/api/handler.go: idempotency keys over two submissions, and what a failed `Set` leaves.
use chroma_flow.Base.{
  String, cat, ◌≡◌, refl, ◌≢◌, inr, true, false, none, some, eq_iff, arith, ◌∙◌, ap, sym,
}
use chroma_flow.Queue.Types.{Error, ok}
use chroma_flow.Queue.Backend.{Backend}
use chroma_flow.Storage.Store.{Store, StoreLaws}
use chroma_flow.Api.Writer.{submit_response, error_response, fresh}
use chroma_flow.Api.World.{World}
use chroma_flow.Api.Submit.{
  Call, Draw, Submission, valid, job_of, pending_result, initialized, reserved, submit_checked,
}
use chroma_flow.Api.Submit.Branches.{Responds}
use chroma_flow.Api.Submit.Accepted.{
  set_error, after_reserve, submit_checked-free, submit_accepts, holder-after_set,
}

reserve-held :
    {S : Type 0} (store : Store S) (laws : StoreLaws store) (key id held : String) (s : S)
    → key ≢ ""
    → laws.holder s key ≡ some held
    → (store.reserve_idempotency_key key id s).0 ≡ ok (held, false)
reserve-held store laws key id held s ne h =
    ground (arith, laws.result-reserve key id s, eq_iff key "")

module _ {S Q B : Type 0} (store : Store S) (laws : StoreLaws store) (backend : Backend Q) where
  -- A valid request whose key a job holds is answered with status 202, that job's id and the
  -- mark `idempotent`; every stored result, every key's holder and the queue stay as they were.
  pub submit_replays :
      (c : Call) (d : Draw) (sub : Submission) (w : World S Q B) (held : String)
      → w.writer ≡ fresh
      → sub.idempotency_key ≢ ""
      → laws.holder w.storage sub.idempotency_key ≡ some held
      → let w' = submit_checked store backend c d (valid sub) w in
        Responds 202 (submit_response held (cat "/pdf/" held) true) w'
        × ((j : String) → laws.view w'.storage j ≡ laws.view w.storage j)
        × ((key : String) → laws.holder w'.storage key ≡ laws.holder w.storage key)
        × (w'.queue ≡ w.queue)
  unfolding submit_checked reserved
  submit_replays c d sub w held h ne taken =
      rw (reserve-held store laws sub.idempotency_key d.uuid held w.storage ne taken) (
        ground arith,
        laws.view-reserve sub.idempotency_key d.uuid w.storage,
        (λ key. ground (
          arith,
          laws.holder-reserve sub.idempotency_key d.uuid w.storage key,
          eq_iff sub.idempotency_key key,
        )),
        refl,
      )

  -- Two valid requests, one after the other, with one key that nobody held: where the storage
  -- takes the metadata and the queue the job, the second is answered with the first one's job id,
  -- stores nothing and queues nothing, whatever its other fields are.
  pub submit_twice :
      (c c' : Call) (d d' : Draw) (sub sub' : Submission) (w : World S Q B)
      → w.writer ≡ fresh
      → sub.idempotency_key ≢ ""
      → sub'.idempotency_key ≡ sub.idempotency_key
      → laws.holder w.storage sub.idempotency_key ≡ none
      → set_error store sub d w.storage ≡ none
      → (backend.push (job_of sub d) w.queue).0 ≡ none
      → let w₁ = record (submit_checked store backend c d (valid sub) w) { writer = fresh } in
        let w₂ = submit_checked store backend c' d' (valid sub') w₁ in
        Responds 202 (submit_response d.uuid (cat "/pdf/" d.uuid) true) w₂
        × ((j : String) → laws.view w₂.storage j ≡ laws.view w₁.storage j)
        × (w₂.queue ≡ (backend.push (job_of sub d) w.queue).1)
  submit_twice c c' d d' sub sub' w h ne same free set_ok push_ok =
      let first = submit_accepts store laws backend c d sub w (inr free) h set_ok push_ok in
      let w₁ : World S Q B = record (submit_checked store backend c d (valid sub) w) {
        writer = fresh;
      } in
      let second =
        submit_replays c' d' sub' w₁ d.uuid refl (λ e. ne (sym same ∙ e))
          (ap (laws.holder w₁.storage) same
            ∙ first.2 sub.idempotency_key
            ∙ ground (
              arith,
              eq_iff sub.idempotency_key "",
              eq_iff sub.idempotency_key sub.idempotency_key,
            )) in
      (second.0, second.1, second.3 ∙ first.3)

  -- Where the storage fails to take the metadata of a job whose key nobody held, the request is
  -- answered with status 500, no result is stored for any job, and yet the key stays held by the
  -- job that was never created: nothing releases it.
  pub submit-set_error :
      (c : Call) (d : Draw) (sub : Submission) (w : World S Q B) {e : Error}
      → w.writer ≡ fresh
      → sub.idempotency_key ≢ ""
      → laws.holder w.storage sub.idempotency_key ≡ none
      → set_error store sub d w.storage ≡ some e
      → let w' = submit_checked store backend c d (valid sub) w in
        Responds 500
          (error_response "storage_error" "Failed to initialize job metadata" sub.request_id)
          w'
        × ((j : String) → laws.view w'.storage j ≡ laws.view w.storage j)
        × (laws.holder w'.storage sub.idempotency_key ≡ some d.uuid)
  submit-set_error c d sub w {e} h ne free fails =
      rw (submit_checked-free store laws backend c d sub w (inr free)) (
        rw fails (
          unfold initialized in
          (
            ground arith,
            (λ j.
                laws.view-set_error d.stored_at d.uuid (pending_result sub d)
                  (after_reserve store sub d w.storage) j fails
                ∙ laws.view-reserve sub.idempotency_key d.uuid w.storage j),
            ground (
              arith,
              holder-after_set store laws d sub w.storage (inr free) sub.idempotency_key,
              eq_iff sub.idempotency_key "",
              eq_iff sub.idempotency_key sub.idempotency_key,
            ),
          )))
