-- ===== src/Storage/Memory/Wired.antt =====
-- The memory storage as a `storage.Store`, with the callback that cmd/server/main.go registers:
-- it passes what `List` returns to a watcher, there the websocket hub. The laws of the interface.
use chroma_flow.Base.{String, ◌≡◌, refl, Bool, true, false, none, some, List}
use chroma_flow.Base.Dict
use chroma_flow.Base.Dict.{String-eq, get-put, get-del}
use chroma_flow.Queue.Types.{ok, JobResult, JobSnapshot}
use chroma_flow.Storage.Store.{Store, filled, as_canceled, StoreLaws, NeverFails}
use chroma_flow.Storage.Memory.{
  MemoryStorage, set, delete, get, cancel, reserve_idempotency_key, list,
}
use chroma_flow.Storage.Memory.Laws.{
  view, holder, view-set, idempotency-set, view-delete, holder-delete, result-cancel, view-cancel,
  result-reserve, results-reserve, holder-reserve,
}

module _ {H : Type 0} (on_change : List JobSnapshot → H → H) where
  -- The callback after a call that says whether it called it.
  unfoldable pub notified : Bool → MemoryStorage → H → MemoryStorage × H
  notified true s h = (s, on_change (list s) h)
  notified false s h = (s, h)

  unfoldable pub wired : Store (MemoryStorage × H)
  unfolding set delete get cancel reserve_idempotency_key notified
  wired = record {
    set = λ now id r w.
        let (stored, s, called) = set now id r w.0 in (stored, none, notified called s w.1);
    delete = λ id w. let (s, called) = delete id w.0 in (none, notified called s w.1);
    get = λ id w. (get id w.0, w);
    cancel = λ now id w. let (r, s, called) = cancel now id w.0 in (r, notified called s w.1);
    reserve_idempotency_key =
        λ key id w. let (r, s) = reserve_idempotency_key key id w.0 in (ok r, (s, w.1));
    list = λ w. (list w.0, w);
  }

  pub storage-notified : (b : Bool) (s : MemoryStorage) (h : H) → (notified b s h).0 ≡ s
  unfolding notified
  storage-notified true s h = refl
  storage-notified false s h = refl

  pub wired-NeverFails : NeverFails wired
  unfolding wired
  wired-NeverFails now id r w = refl

  -- The laws, of the entries of the two maps.
  unfoldable pub wired_laws : StoreLaws wired
  unfolding wired get
  wired_laws = record {
    view = λ w id. view w.0 id;
    holder = λ w key. holder w.0 key;
    kept = λ r. r;
    told = λ now r. filled now (some r) (as_canceled r);
    kept-status = λ r h. refl;
    kept-idempotency_key = λ r. refl;
    kept-pdf_key = λ r. refl;
    told_lem = λ now r. (refl, refl, refl);
    get_lem = λ id w. refl;
    view-set = λ now id r w j _.
        rw (storage-notified (set now id r w.0).2 (set now id r w.0).1 w.1)
          (view-set now id r w.0 j);
    view-set_error = λ now id r w j h. absurd (cc);
    holder-set = λ now id r w key.
        rw (storage-notified (set now id r w.0).2 (set now id r w.0).1 w.1)
          (rw (idempotency-set now id r w.0) refl);
    view-delete = λ id w j.
        rw (storage-notified (delete id w.0).1 (delete id w.0).0 w.1) (view-delete id w.0 j);
    holder-delete = λ id w key h.
        rw (storage-notified (delete id w.0).1 (delete id w.0).0 w.1) (holder-delete id w.0 key h);
    result-cancel = λ now id w. result-cancel now id w.0;
    view-cancel = λ now id w j.
        rw (storage-notified (cancel now id w.0).2 (cancel now id w.0).1 w.1)
          (view-cancel now id w.0 j);
    result-reserve = λ key id w. rw (result-reserve key id w.0);
    view-reserve = λ key id w j. rw (results-reserve key id w.0);
    holder-reserve = λ key id w k. holder-reserve key id w.0 k;
  }

  -- The memory storage keeps every law of the interface, whatever the callback does to the watcher,
  -- with the stored result of a job being its entry in `results`, kept whole, and the holder of a key
  -- the key's entry in `idempotency`; and its `Set` never fails.
  pub wired-IsStore :
      (laws : StoreLaws wired) × ((w : MemoryStorage × H) (id : String)
        → laws.view w id ≡ Dict.get id w.0.results)
      × ((r : JobResult) → laws.kept r ≡ r)
      × ((w : MemoryStorage × H) (key : String) → laws.holder w key ≡ Dict.get key w.0.idempotency)
      × NeverFails wired
  unfolding wired_laws
  wired-IsStore = (wired_laws, (λ w id. refl), (λ r. refl), (λ w key. refl), wired-NeverFails)
