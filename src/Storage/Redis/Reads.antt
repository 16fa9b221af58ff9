-- ===== src/Storage/Redis/Reads.antt =====
-- internal/storage/redis.go: `List` and `Stats` over a server that answers: they read, and change
-- nothing.
use chroma_flow.Base.{String, ◌≡◌, refl, List, [], ◌∷◌, take, if◌then◌else◌, Bool-cases, inl, inr}
use chroma_flow.Queue.Types.{JobSnapshot}
use chroma_flow.Redisx.Answer.{Do}
use chroma_flow.Redisx.Server.{StorageServer}
use chroma_flow.Storage.Store.{found}
use chroma_flow.Storage.Sort.{sort_stable}
use chroma_flow.Storage.Fields.{Formats}
use chroma_flow.Storage.Redis.{RedisStorage, order_key, listed, is_seen, snapshots, list}
use chroma_flow.Storage.Redis.Laws.{IsLaidOut, view, get_lem}

-- The items in their order, each at its first place only, after those of `seen`.
abbrev pub distinct : List String → List String → List String
distinct seen [] = []
distinct seen (x ∷ xs) = if is_seen x seen then distinct seen xs else x ∷ distinct (x ∷ seen) xs

module _ {R : Type 0} (execute : Do R) (formats : Formats) (server : StorageServer execute)
    (rs : RedisStorage) (laid : IsLaidOut server rs.prefix) where
  -- The jobs of some ids that are stored.
  abbrev pub stored : R → List String → List JobSnapshot
  stored s [] = []
  stored s (id ∷ ids) = listed id (found (view execute formats server rs laid s id)) (stored s ids)

  snapshots_lem :
      (seen ids : List String) (s : R)
      → snapshots execute formats rs.prefix seen ids s ≡ (stored s (distinct seen ids), s)
  unfolding snapshots
  snapshots_lem seen [] s = refl
  snapshots_lem seen (id ∷ ids) s = elim (Bool-cases (is_seen id seen)) [
    | inl e ↦ rw e (snapshots_lem seen ids s)
    | inr e ↦ rw e (
        rw (get_lem execute formats server rs laid id s)
          (rw (snapshots_lem (id ∷ seen) ids s) refl))
  ]

  -- `List` is the stored jobs among the first 200 entries of the order list, each once, sorted.
  pub list_lem :
      (s : R)
      → list execute formats rs s ≡ (
        sort_stable (stored s (distinct [] (take 200 (server.at s (order_key rs.prefix)).items))),
        s,
      )
  unfolding list
  list_lem s =
      rw (server.lrange (order_key rs.prefix) s laid.order)
        (rw (snapshots_lem [] (take 200 (server.at s (order_key rs.prefix)).items) s) refl)
