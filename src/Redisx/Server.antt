-- ===== src/Redisx/Server.antt =====
-- What a Redis server that answers promises of the commands that internal/storage/redis.go and
-- internal/queue/redis.go send, as its documentation has it. A key has a kind, which is the type
-- of what is kept under it: a command on a key of another kind is an error, of which no law speaks.
use chroma_flow.Base.{
  String, ◌≡◌, Bool, true, false, Option, none, some, List, [], ◌∷◌, ◌==◌, take, if◌then◌else◌,
}
use chroma_flow.Base.Dict
use chroma_flow.Base.Dict.{Dict, String-eq}
use chroma_flow.Queue.Types.{ok}
use chroma_flow.Redisx.Answer.{Answer, nothing, string, strings, Do}

pub data Kind : Type 0 where
  hash plain sequence : Kind

-- What the server keeps under a key: the fields of a hash, a text or the items of a list. A key
-- that does not exist has none of them.
pub record Content : Type 0 where
  pub fields : Dict String String
  pub value : Option String
  pub items : List String

abbrev pub no_content : Content
no_content = record { fields = []; value = none; items = [] }

-- The fields of `m`, and those of `old` beside them.
unfoldable pub put_all : Dict String String → Dict String String → Dict String String
put_all [] old = old
put_all ((k, v) ∷ m) old = put_all m (Dict.put k v old)

-- Every field occurs once.
abbrev pub IsMap : Dict String String → Type 0
IsMap [] = Unit
IsMap ((k, v) ∷ m) = (Dict.get k m ≡ none) × IsMap m

abbrev pub is_empty : Dict String String → Bool
is_empty [] = true
is_empty (x ∷ m) = false

-- The fields of `m` in some order.
pub record Lists (ps m : Dict String String) : Type 0 where
  pub unique : IsMap ps
  pub same : (k : String) → Dict.get k ps ≡ Dict.get k m
  pub empty : is_empty ps ≡ is_empty m

-- The fields and values, one after the other.
abbrev pub flat : Dict String String → List String
flat [] = []
flat ((k, v) ∷ m) = k ∷ v ∷ flat m

-- The list without the items that are `x`.
unfoldable pub without : String → List String → List String
without x [] = []
without x (y ∷ ys) = let rest = without x ys in if y == x then rest else y ∷ rest

module _ {R : Type 0} (execute : Do R) (at : R → String → Content) where
  -- The command does not fail, and changes nothing but one key.
  pub record Writes (command : List String) (s : R) (key : String) (c : Content) : Type 0 where
    pub answer : Answer
    pub answers : (execute command s).0 ≡ ok answer
    pub writes : (k : String) → at (execute command s).1 k ≡ (if key == k then c else at s k)

-- The commands of the storage. `SET` is the one with `NX`, `LREM` the one with the count 0.
pub record StorageServer {R : Type 0} (execute : Do R) : Type 0 where
  pub kind : String → Kind
  pub at : R → String → Content
  pub hgetall :
      (key : String) (s : R)
      → kind key ≡ hash
      → (ps : Dict String String) × (execute ("HGETALL" ∷ key ∷ []) s ≡ (ok (strings (flat ps)), s))
        × Lists ps (at s key).fields
  pub hset :
      (key k v : String) (m : Dict String String) (s : R)
      → kind key ≡ hash
      → Writes execute at
          ("HSET" ∷ key ∷ flat ((k, v) ∷ m))
          s
          key
          (record (at s key) { fields = put_all ((k, v) ∷ m) (at s key).fields })
  pub del : (key : String) (s : R) → Writes execute at ("DEL" ∷ key ∷ []) s key no_content
  pub lpush :
      (key x : String) (s : R)
      → kind key ≡ sequence
      → Writes execute at
          ("LPUSH" ∷ key ∷ x ∷ [])
          s
          key
          (record (at s key) { items = x ∷ (at s key).items })
  pub lrem :
      (key x : String) (s : R)
      → kind key ≡ sequence
      → Writes execute at
          ("LREM" ∷ key ∷ "0" ∷ x ∷ [])
          s
          key
          (record (at s key) { items = without x (at s key).items })
  pub lrange :
      (key : String) (s : R)
      → kind key ≡ sequence
      → execute ("LRANGE" ∷ key ∷ "0" ∷ "199" ∷ []) s
        ≡ (ok (strings (take 200 (at s key).items)), s)
  pub set_held :
      (key x : String) (s : R) {held : String}
      → kind key ≡ plain
      → (at s key).value ≡ some held
      → execute ("SET" ∷ key ∷ x ∷ "NX" ∷ []) s ≡ (ok nothing, s)
  pub set_free :
      (key x : String) (s : R)
      → kind key ≡ plain
      → (at s key).value ≡ none
      → Writes execute at ("SET" ∷ key ∷ x ∷ "NX" ∷ []) s key (record (at s key) { value = some x })
  pub set_free_answer :
      (key x : String) (s : R)
      → kind key ≡ plain
      → (at s key).value ≡ none
      → (execute ("SET" ∷ key ∷ x ∷ "NX" ∷ []) s).0 ≡ ok (string "OK")
  pub get_held :
      (key : String) (s : R) {held : String}
      → kind key ≡ plain
      → (at s key).value ≡ some held
      → execute ("GET" ∷ key ∷ []) s ≡ (ok (string held), s)
