-- ===== src/Blob/Memory.antt =====
-- internal/blob/memory.go: the in-memory blob store. `Put` and `Get` copy the bytes, so the
-- store shares no slice with its callers and holds values.
use chroma_flow.Base.{ℕ, String, ◌≡◌, Option, none, some, List, [], ◌==◌, if◌then◌else◌, arith}
use chroma_flow.Base.Dict
use chroma_flow.Base.Dict.{Dict, String-eq, get-put, get-del}
use chroma_flow.Queue.Types.{Error, text, Result, ok, err}
use chroma_flow.Blob.Store.{BlobStore}

pub record MemoryStore : Type 0 where
  pub blobs : Dict String (List ℕ)

unfoldable pub new_memory_store : MemoryStore
new_memory_store = record { blobs = [] }

unfoldable pub put : String → List ℕ → MemoryStore → Option Error × MemoryStore
put key bytes s = (none, record s { blobs = Dict.put key bytes s.blobs })

abbrev stored_bytes : Option (List ℕ) → Result (List ℕ)
stored_bytes none = err (text "object not found")
stored_bytes (some bytes) = ok bytes

unfoldable pub get : String → MemoryStore → Result (List ℕ) × MemoryStore
get key s = (stored_bytes (Dict.get key s.blobs), s)

unfoldable pub delete : String → MemoryStore → Option Error × MemoryStore
delete key s = (none, record s { blobs = Dict.del key s.blobs })

-- `MemoryStore` as a `blob.Store`.
unfoldable pub memory_blobs : BlobStore MemoryStore
unfolding put get delete
memory_blobs = record { put = put; get = get; delete = delete }

-- After `Put` of one key a `Get` of any key returns the new bytes for that key and what it
-- returned before for any other; after `Delete` it reports that key missing, and no other changes.
pub get-put-delete :
    (key k : String) (bytes : List ℕ) (s : MemoryStore)
    → ((get k (put key bytes s).1).0 ≡ (if key == k then ok bytes else (get k s).0))
      × ((get k (delete key s).1).0
          ≡ (if key == k then err (text "object not found") else (get k s).0))
unfolding get put delete
get-put-delete key k bytes s =
    (ground (arith, get-put key k bytes s.blobs), ground (arith, get-del key k s.blobs))
