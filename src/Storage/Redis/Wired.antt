-- ===== src/Storage/Redis/Wired.antt =====
-- The Redis storage as a `storage.Store`, with the callback that cmd/server/main.go registers: it
-- passes what `List` returns to a watcher, there the websocket hub. The laws of the interface.
use chroma_flow.Base.{
  ℕ, String, ◌≡◌, refl, ap, ◌∙◌, Bool, true, false, Option, some, List, [], ◌<◌, ◌^◌,
}
use chroma_flow.Queue.Types.{Error, JobResult, JobSnapshot}
use chroma_flow.Redisx.Answer.{Do}
use chroma_flow.Redisx.Server.{StorageServer}
use chroma_flow.Storage.Store.{Store, as_canceled, StoreLaws, NeverFails, IsNamed}
use chroma_flow.Storage.Fields.{Formats}
use chroma_flow.Storage.Redis.{
  RedisStorage, set, delete, get, cancel, reserve_idempotency_key, list, key_of, job_key,
}
use chroma_flow.Storage.Redis.Hash.{
  kept, kept_lem, result_of, kept-status, kept-idempotency_key, kept-pdf_key,
}
use chroma_flow.Storage.Redis.Laws.{
  IsLaidOut, view, holder, get_lem, set_lem, view-hset, holder-hset,
}
use chroma_flow.Storage.Redis.Deletions.{
  delete_lem, view-after_delete, holder-after_delete, cancel_lem, view-after_cancel,
}
use chroma_flow.Storage.Redis.Reservations.{result-reserve, view-reserve, holder-reserve}
use chroma_flow.Storage.Redis.Reads.{list_lem}

module _ {R H : Type 0} (execute : Do R) (formats : Formats) (rs : RedisStorage)
    (on_change : List JobSnapshot → H → H) where
  -- The callback after a call that says whether it called it.
  unfoldable pub notified : Bool → R → H → R × H
  notified true s h = let (jobs, s') = list execute formats rs s in (s', on_change jobs h)
  notified false s h = (s, h)

  unfoldable pub wired : Store (R × H)
  unfolding notified
  wired = record {
    set = λ now id r w.
        let (told, e, s, called) = set execute formats rs now id r w.0 in
        (told, e, notified called s w.1);
    delete =
        λ id w. let (e, s, called) = delete execute formats rs id w.0 in (e, notified called s w.1);
    get = λ id w. let (r, s) = get execute formats rs.prefix id w.0 in (r, (s, w.1));
    cancel = λ now id w.
        let (r, s, called) = cancel execute formats rs now id w.0 in (r, notified called s w.1);
    reserve_idempotency_key = λ key id w.
        let (r, s) = reserve_idempotency_key execute formats rs key id w.0 in (r, (s, w.1));
    list = λ w. let (jobs, s) = list execute formats rs w.0 in (jobs, (s, w.1));
  }

module _ {R H : Type 0} (execute : Do R) (formats : Formats) (rs : RedisStorage)
    (on_change : List JobSnapshot → H → H) (server : StorageServer execute)
    (laid : IsLaidOut server rs.prefix) where
  abbrev store : Store (R × H)
  store = wired execute formats rs on_change

  abbrev seen : R → String → Option JobResult
  seen = view execute formats server rs laid

  abbrev held : R → String → Option String
  held = holder execute formats server rs laid

  storage-notified :
      (b : Bool) (s : R) (h : H) → (notified execute formats rs on_change b s h).0 ≡ s
  unfolding notified
  storage-notified true s h = ap (λ w. w.1) (list_lem execute formats server rs laid s)
  storage-notified false s h = refl

  pub wired-NeverFails : NeverFails store
  unfolding wired
  wired-NeverFails now id r w = ap (λ v. v.1) (set_lem execute formats server rs laid now id r w.0)

  pub storage-set :
      (now : ℕ) (id : String) (r : JobResult) (w : R × H)
      → (store.set now id r w).2.0 ≡ (set execute formats rs now id r w.0).2
  unfolding wired
  storage-set now id r w = storage-notified _ _ _

  pub never :
      (now : ℕ) (id : String) (r : JobResult) (w : R × H) {e : Error}
      → (store.set now id r w).1 ≡ some e
      → ⊥
  never now id r w h = let fine = wired-NeverFails now id r w in absurd (cc)

  pub storage-delete :
      (id : String) (w : R × H) → (store.delete id w).1.0 ≡ (delete execute formats rs id w.0).1
  unfolding wired
  storage-delete id w = storage-notified _ _ _

  pub storage-cancel :
      (now : ℕ) (id : String) (w : R × H)
      → (store.cancel now id w).1.0 ≡ (cancel execute formats rs now id w.0).1
  unfolding wired
  storage-cancel now id w = storage-notified _ _ _

  -- The laws, of the fields of the job's hash and the value of the key.
  unfoldable pub wired_laws : StoreLaws store
  unfolding wired
  wired_laws = record {
    view = λ w id. seen w.0 id;
    holder = λ w key. held w.0 key;
    kept = kept formats;
    told = λ now r. as_canceled r;
    kept-status = kept-status formats;
    kept-idempotency_key = kept-idempotency_key formats;
    kept-pdf_key = kept-pdf_key formats;
    told_lem = λ now r. (refl, refl, refl);
    get_lem = λ id w. ap (λ g. (g.0, (g.1, w.1))) (get_lem execute formats server rs laid id w.0);
    view-set = λ now id r w j _.
        ap (λ s. seen s j)
          (storage-set now id r w
            ∙ ap (λ v. v.2) (set_lem execute formats server rs laid now id r w.0))
        ∙ view-hset execute formats server rs laid now id r w.0 j;
    view-set_error = λ now id r w j h. absurd (never now id r w h);
    holder-set = λ now id r w key.
        ap (λ s. held s key)
          (storage-set now id r w
            ∙ ap (λ v. v.2) (set_lem execute formats server rs laid now id r w.0))
        ∙ holder-hset execute formats server rs laid now id r w.0 key;
    view-delete = λ id w j.
        ap (λ s. seen s j)
          (storage-delete id w ∙ ap (λ v. v.1) (delete_lem execute formats server rs laid id w.0))
        ∙ view-after_delete execute formats server rs laid id w.0 j;
    holder-delete = λ id w key h.
        ap (λ s. held s key)
          (storage-delete id w ∙ ap (λ v. v.1) (delete_lem execute formats server rs laid id w.0))
        ∙ holder-after_delete execute formats server rs laid id w.0 key h;
    result-cancel =
        λ now id w. ap (λ v. v.0) (cancel_lem execute formats server rs laid now id w.0);
    view-cancel = λ now id w j.
        ap (λ s. seen s j)
          (storage-cancel now id w
            ∙ ap (λ v. v.1) (cancel_lem execute formats server rs laid now id w.0))
        ∙ view-after_cancel execute formats server rs laid now id w.0 j;
    result-reserve = λ key id w. result-reserve execute formats server rs laid key id w.0;
    view-reserve = λ key id w j. view-reserve execute formats server rs laid key id w.0 j;
    holder-reserve = λ key id w k. holder-reserve execute formats server rs laid key id w.0 k;
  }

  -- Over a Redis server that answers, and with no other client between the commands of one call,
  -- the Redis storage keeps every law of the interface, whatever the callback does to the watcher:
  -- the stored result of a job is what the fields of its hash hold, the holder of a key is the
  -- text under its key, and of a result the hash keeps all but the PDF itself, with the times as
  -- their texts read back. Its `Set` then never fails.
  pub redis-IsStore :
      (laws : StoreLaws store) × ((w : R × H) (id : String)
        → laws.view w id ≡ result_of formats (server.at w.0 (job_key rs.prefix id)).fields)
      × ((w : R × H) (key : String)
          → laws.holder w key ≡ (server.at w.0 (key_of rs.prefix key)).value)
      × ((r : JobResult)
          → r.pdf_size < 2 ^ 63
          → IsNamed r.status
          → laws.kept r ≡ record r {
            pdf = [];
            created_at = formats.parse (formats.format r.created_at);
            updated_at = formats.parse (formats.format r.updated_at);
          })
      × NeverFails store
  unfolding wired_laws
  redis-IsStore = (wired_laws, (λ w id. refl), (λ w key. refl), kept_lem formats, wired-NeverFails)
