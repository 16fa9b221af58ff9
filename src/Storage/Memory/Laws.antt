-- ===== src/Storage/Memory/Laws.antt =====
-- internal/storage/memory.go: what each method stores, reserves and answers.
use chroma_flow.Base.{
  ℕ, String, ◌≡◌, refl, true, false, Option, none, some, ◌==◌, eq_iff, if◌then◌else◌, arith,
  Option-cases, inl, inr,
}
use chroma_flow.Base.Dict
use chroma_flow.Base.Dict.{String-eq, get-put, get-del}
use chroma_flow.Queue.Types.{JobResult}
use chroma_flow.Storage.Store.{
  found, filled, as_canceled, canceled_result, canceled_with, reserved, held_by,
}
use chroma_flow.Storage.Memory.{
  MemoryStorage, set, delete, cancel_found, cancel, reserve_idempotency_key,
}

abbrev pub view : MemoryStorage → String → Option JobResult
view s id = Dict.get id s.results

abbrev pub holder : MemoryStorage → String → Option String
holder s key = Dict.get key s.idempotency

module _ (now : ℕ) (id : String) (r : JobResult) (s : MemoryStorage) where
  pub result-set : (set now id r s).0 ≡ filled now (view s id) r
  unfolding set
  result-set = refl

  pub view-set :
      (j : String)
      → view (set now id r s).1 j ≡ (if id == j then some (filled now (view s id) r) else view s j)
  unfolding set
  view-set j = get-put id j (filled now (view s id) r) s.results

  pub idempotency-set : (set now id r s).1.idempotency ≡ s.idempotency
  unfolding set
  idempotency-set = refl

module _ (id : String) (s : MemoryStorage) where
  pub view-delete : (j : String) → view (delete id s).0 j ≡ (if id == j then none else view s j)
  unfolding delete
  view-delete j = ground (arith, get-del id j s.results, eq_iff id j)

  pub holder-delete :
      (key : String) {r : JobResult}
      → view s id ≡ some r
      → holder (delete id s).0 key ≡ (
          if r.idempotency_key == ""
          then holder s key
          else if r.idempotency_key == key
          then none
          else holder s key)
  unfolding delete
  holder-delete key {r} e = ground (arith, get-del r.idempotency_key key s.idempotency)

  -- A job that is not stored is not deleted.
  pub delete_missing : view s id ≡ none → delete id s ≡ (s, false)
  unfolding delete
  delete_missing e = rw e

module _ (now : ℕ) (id : String) (s : MemoryStorage) where
  pub result-cancel :
      (cancel now id s).0
      ≡ found (canceled_with (λ r. filled now (some r) (as_canceled r)) (view s id))
  unfolding cancel
  result-cancel = elim (Option-cases (view s id)) [
    | inl e ↦ rw (e, cancel_found)
    | inr (r, e) ↦ ground (arith, result-set now id (as_canceled r) s)
  ]

  pub view-cancel :
      (j : String)
      → view (cancel now id s).1 j
        ≡ (if id == j then canceled_result (λ r. r) now (view s id) else view s j)
  unfolding cancel
  view-cancel j = elim (Option-cases (view s id)) [
    | inl e ↦ ground (arith, eq_iff id j)
    | inr (r, e) ↦ ground (arith, view-set now id (as_canceled r) s j, eq_iff id j)
  ]

module _ (key id : String) (s : MemoryStorage) where
  pub result-reserve :
      (reserve_idempotency_key key id s).0
      ≡ (if key == "" then ("", true) else reserved id (holder s key))
  unfolding reserve_idempotency_key
  result-reserve = ground arith

  pub results-reserve : (reserve_idempotency_key key id s).1.results ≡ s.results
  unfolding reserve_idempotency_key
  results-reserve = ground arith

  pub holder-reserve :
      (k : String)
      → holder (reserve_idempotency_key key id s).1 k ≡ (
          if key == ""
          then holder s k
          else if key == k
          then some (held_by id (holder s key))
          else holder s k)
  unfolding reserve_idempotency_key
  holder-reserve k = ground (arith, get-put key k id s.idempotency, eq_iff key k)
