-- ===== src/Blob/Store.antt =====
-- internal/blob/blob.go: the interface `Store`, over the states of an implementation.
use chroma_flow.Base.{ℕ, String, Option, List}
use chroma_flow.Queue.Types.{Error, Result}

pub record BlobStore (B : Type 0) : Type 0 where
  pub put : String → List ℕ → B → Option Error × B
  pub get : String → B → Result (List ℕ) × B
  pub delete : String → B → Option Error × B
