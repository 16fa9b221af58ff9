-- ===== src/Storage/Memory/Races.antt =====
-- internal/storage/memory.go: `Cancel` beside other goroutines, which may run between its `Get`
-- and its `Set`.
use chroma_flow.Base.{ℕ, String, ◌≡◌, refl, Bool, false, some, eq_refl, if◌then◌else◌, ap, ◌∙◌}
use chroma_flow.Queue.Types.{Result, ok, JobResult, canceled, is_terminal}
use chroma_flow.Storage.Store.{filled, as_canceled}
use chroma_flow.Storage.Memory.{MemoryStorage, set, get, cancel_found}
use chroma_flow.Storage.Memory.Laws.{view, view-set}

-- `Cancel`, with what other goroutines do after its `Get`.
unfoldable pub cancel_beside :
    (MemoryStorage → MemoryStorage)
    → ℕ
    → String
    → MemoryStorage
    → Result JobResult × MemoryStorage × Bool
unfolding get cancel_found
cancel_beside others now id s = cancel_found now id (get id s) (others s)

-- A job that has not ended when `Cancel` reads it, and that others then change, also to completed,
-- is stored as canceled, with the key and the size of the PDF as they were when `Cancel` read it;
-- and the caller is told so.
pub cancel_beside-overwrites :
    (others : MemoryStorage → MemoryStorage) (now : ℕ) (id : String) (s : MemoryStorage)
    {r later : JobResult}
    → view s id ≡ some r
    → is_terminal r.status ≡ false
    → view (others s) id ≡ some later
    → let (told, s', _) = cancel_beside others now id s in
      (end : JobResult) × (view s' id ≡ some end)
      × (told ≡ ok end)
      × (end.status ≡ canceled)
      × (end.pdf_key ≡ r.pdf_key)
      × (end.pdf_size ≡ r.pdf_size)
unfolding cancel_beside get cancel_found
cancel_beside-overwrites others now id s {r} {later} before live after =
    let stored = view-set now id (as_canceled r) (others s) id in
    (
      filled now (some later) (as_canceled r),
      rw (before, live)
          (stored
            ∙ ap
                (λ b.
                  if b
                  then some (filled now (view (others s) id) (as_canceled r))
                  else view (others s) id)
                (eq_refl id)
            ∙ ap (λ o. some (filled now o (as_canceled r))) after),
      rw (before, live) (unfold set in rw after),
      refl,
      refl,
      refl,
    )
