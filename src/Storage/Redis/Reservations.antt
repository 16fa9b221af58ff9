-- ===== src/Storage/Redis/Reservations.antt =====
-- internal/storage/redis.go: what `ReserveIdempotencyKey` answers and leaves, over a server that
-- answers and with no other client between its two commands.
use chroma_flow.Base.{
  String, ◌≡◌, refl, ap, ◌∙◌, inl, inr, true, false, Option, none, some, [], ◌∷◌, ◌==◌, eq_iff,
  if◌then◌else◌, Bool-cases, Option-cases, arith,
}
use chroma_flow.Queue.Types.{ok, JobResult}
use chroma_flow.Redisx.Answer.{Do}
use chroma_flow.Redisx.Server.{StorageServer}
use chroma_flow.Storage.Store.{reserved, held_by}
use chroma_flow.Storage.Fields.{Formats}
use chroma_flow.Storage.Redis.{RedisStorage, job_key, key_of, reserve_idempotency_key}
use chroma_flow.Storage.Redis.Hash.{result_of, key_of-eq}
use chroma_flow.Storage.Redis.Laws.{IsLaidOut, view, holder, key≠job}

module _ {R : Type 0} (execute : Do R) (formats : Formats) (server : StorageServer execute)
    (rs : RedisStorage) (laid : IsLaidOut server rs.prefix) (key id : String) (s : R) where
  abbrev seen : R → String → Option JobResult
  seen = view execute formats server rs laid

  abbrev held : R → String → Option String
  held = holder execute formats server rs laid

  -- The server after the `SET` with `NX`.
  abbrev pub asked : R
  asked = (execute ("SET" ∷ key_of rs.prefix key ∷ id ∷ "NX" ∷ []) s).1

  reserve-no_key :
      (key == "") ≡ true → reserve_idempotency_key execute formats rs key id s ≡ (ok ("", true), s)
  unfolding reserve_idempotency_key
  reserve-no_key e = rw e refl

  reserve-held :
      {h : String}
      → (key == "") ≡ false
      → held s key ≡ some h
      → reserve_idempotency_key execute formats rs key id s ≡ (ok (h, false), s)
  unfolding reserve_idempotency_key
  reserve-held e held_now = rw e (
      rw (server.set_held (key_of rs.prefix key) id s (laid.keys key) held_now)
        (rw (server.get_held (key_of rs.prefix key) s (laid.keys key) held_now) refl))

  reserve-free :
      (key == "") ≡ false
      → held s key ≡ none
      → reserve_idempotency_key execute formats rs key id s ≡ (ok (id, true), asked)
  unfolding reserve_idempotency_key
  reserve-free e free =
      rw e (rw (server.set_free_answer (key_of rs.prefix key) id s (laid.keys key) free) refl)

  pub result-reserve :
      (reserve_idempotency_key execute formats rs key id s).0
      ≡ ok (if key == "" then ("", true) else reserved id (held s key))
  result-reserve = elim (Bool-cases (key == "")) [
    | inl e ↦ rw e (ap (λ w. w.0) (reserve-no_key e))
    | inr e ↦ rw e (elim (Option-cases (held s key)) [
      | inl free ↦ ap (λ w. w.0) (reserve-free e free) ∙ ground (arith, free)
      | inr (h, now) ↦ ap (λ w. w.0) (reserve-held e now) ∙ ground (arith, now)
    ])
  ]

  pub view-reserve :
      (j : String) → seen (reserve_idempotency_key execute formats rs key id s).1 j ≡ seen s j
  view-reserve j = elim (Bool-cases (key == "")) [
    | inl e ↦ ap (λ w. seen w.1 j) (reserve-no_key e)
    | inr e ↦ elim (Option-cases (held s key)) [
      | inl free ↦
          let k = job_key rs.prefix j in
          let same : server.at asked k ≡ server.at s k =
            (server.set_free (key_of rs.prefix key) id s (laid.keys key) free).writes k
            ∙ ground (arith, key≠job execute formats server rs laid key j) in
          ap (λ w. seen w.1 j) (reserve-free e free) ∙ ap (λ c. result_of formats c.fields) same
      | inr (h, now) ↦ ap (λ w. seen w.1 j) (reserve-held e now)
    ]
  ]

  pub holder-reserve :
      (k : String)
      → held (reserve_idempotency_key execute formats rs key id s).1 k ≡ (
          if key == ""
          then held s k
          else if key == k
          then some (held_by id (held s key))
          else held s k)
  holder-reserve k = elim (Bool-cases (key == "")) [
    | inl e ↦ rw e (ap (λ w. held w.1 k) (reserve-no_key e))
    | inr e ↦ rw e (elim (Option-cases (held s key)) [
      | inl free ↦
          ap (λ w. held w.1 k) (reserve-free e free)
          ∙ ap (λ c. c.value)
              ((server.set_free (key_of rs.prefix key) id s (laid.keys key) free).writes
                (key_of rs.prefix k))
          ∙ ground (arith, key_of-eq rs.prefix key k, free)
      | inr (h, now) ↦ ap (λ w. held w.1 k) (reserve-held e now) ∙ ground (arith, now, eq_iff key k)
    ])
  ]
