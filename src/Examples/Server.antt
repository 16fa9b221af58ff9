-- ===== src/Examples/Server.antt =====
-- A Redis server in a few lines: the state is what it keeps under each key.
use Prim.Native.Char.{code}
use chroma_flow.Base.{
  String, ◌≡◌, refl, ap, ◌∙◌, Option, none, some, List, [], ◌∷◌, ◌==◌, eqb, take, eq_iff,
  if◌then◌else◌, arith, pos, Bool-cases, inl, inr,
}
use chroma_flow.Base.Dict
use chroma_flow.Base.Dict.{Dict, String-eq, get-del}
use chroma_flow.Queue.Types.{Result, ok, err, text}
use chroma_flow.Redisx.Answer.{Answer, nothing, string, integer, strings, Do}
use chroma_flow.Redisx.Server.{
  Kind, hash, plain, sequence, Content, no_content, put_all, IsMap, Lists, flat, without,
  StorageServer,
}

abbrev pub Keyspace : Type 0
Keyspace = String → Content

abbrev pub write : String → Content → Keyspace → Keyspace
write key c s = λ k. if key == k then c else s k

-- The fields, each once.
unfoldable pub unique : Dict String String → Dict String String
unique [] = []
unique ((k, v) ∷ m) = (k, v) ∷ Dict.del k (unique m)

abbrev pub pairs : List String → Dict String String
pairs [] = []
pairs (k ∷ []) = []
pairs (k ∷ v ∷ rest) = (k, v) ∷ pairs rest

abbrev pub first : List String → String
first [] = ""
first (x ∷ xs) = x

abbrev pub second : List String → String
second [] = ""
second (x ∷ xs) = first xs

abbrev pub reply_of : Option String → Answer
reply_of none = nothing
reply_of (some v) = string v

abbrev pub set_new : String → String → Content → Keyspace → Result Answer × Keyspace
set_new key x c s = elim c.value [
  | none ↦ (ok (string "OK"), write key (record c { value = some x }) s)
  | some v ↦ (ok nothing, s)
]

unfoldable pub execute : Do Keyspace
unfolding unique
execute [] s = (err (text "no command"), s)
execute (c ∷ []) s = (err (text "no key"), s)
execute (c ∷ key ∷ args) s =
    if c == "HGETALL"
    then (ok (strings (flat (unique (s key).fields))), s)
    else if c == "HSET"
    then (
      ok (integer (pos 0)),
      write key (record (s key) { fields = put_all (pairs args) (s key).fields }) s,
    )
    else if c == "DEL"
    then (ok (integer (pos 1)), write key no_content s)
    else if c == "LPUSH"
    then (ok (integer (pos 1)), write key (record (s key) { items = first args ∷ (s key).items }) s)
    else if c == "LREM"
    then (
      ok (integer (pos 1)),
      write key (record (s key) { items = without (second args) (s key).items }) s,
    )
    else if c == "LRANGE"
    then (ok (strings (take 200 (s key).items)), s)
    else if c == "SET"
    then set_new key (first args) (s key) s
    else if c == "GET"
    then (ok (reply_of (s key).value), s)
    else (err (text "unknown command"), s)

-- The kind of a key, by its character after "p:job" or "p:ide".
unfoldable pub kind_of : String → Kind
kind_of
      (String.◌∷◌ _ (String.◌∷◌ _ (String.◌∷◌ _ (String.◌∷◌ _ (String.◌∷◌ _ (String.◌∷◌ c s)))))) =
    if eqb (code c) b's' then sequence else if eqb (code c) b'm' then plain else hash
kind_of _ = hash

IsMap-del : (k : String) (m : Dict String String) → IsMap m → IsMap (Dict.del k m)
unfolding Dict.del
IsMap-del k [] h = tt
IsMap-del k ((j, v) ∷ m) (new, h) = elim (Bool-cases (j == k)) [
  | inl e ↦ rw e (IsMap-del k m h)
  | inr e ↦ rw e (get-del k j m ∙ ground (arith, new), IsMap-del k m h)
]

IsMap-unique : (m : Dict String String) → IsMap (unique m)
unfolding unique
IsMap-unique [] = tt
IsMap-unique ((k, v) ∷ m) =
    (get-del k k (unique m) ∙ ground (arith, eq_iff k k), IsMap-del k (unique m) (IsMap-unique m))

get-unique : (j : String) (m : Dict String String) → Dict.get j (unique m) ≡ Dict.get j m
unfolding unique Dict.get
get-unique j [] = refl
get-unique j ((k, v) ∷ m) = ground (arith, get-del k j (unique m), get-unique j m)

pub unique-Lists : (m : Dict String String) → Lists (unique m) m
unfolding unique
unique-Lists [] = record { unique = tt; same = λ k. refl; empty = refl }
unique-Lists ((k, v) ∷ m) = record {
  unique = IsMap-unique ((k, v) ∷ m);
  same = λ j. get-unique j ((k, v) ∷ m);
  empty = refl;
}

pub pairs-flat : (m : Dict String String) → pairs (flat m) ≡ m
pairs-flat [] = refl
pairs-flat ((k, v) ∷ m) = ap (λ n. (k, v) ∷ n) (pairs-flat m)

unfoldable pub server : StorageServer execute
unfolding execute
server = record {
  kind = kind_of;
  at = λ s k. s k;
  hgetall = λ key s h. (unique (s key).fields, refl, unique-Lists (s key).fields);
  hset = λ key k v m s h. record {
    answer = integer (pos 0);
    answers = refl;
    writes = λ j.
        ap
          (λ n.
            if key == j
            then record (s key) { fields = put_all ((k, v) ∷ n) (s key).fields }
            else s j)
          (pairs-flat m);
  };
  del = λ key s. record { answer = integer (pos 1); answers = refl; writes = λ j. refl };
  lpush = λ key x s h. record { answer = integer (pos 1); answers = refl; writes = λ j. refl };
  lrem = λ key x s h. record { answer = integer (pos 1); answers = refl; writes = λ j. refl };
  lrange = λ key s h. refl;
  set_held = λ key x s h e. rw e refl;
  set_free =
      λ key x s h e. record { answer = string "OK"; answers = rw e refl; writes = λ j. rw e refl };
  set_free_answer = λ key x s h e. rw e refl;
  get_held = λ key s h e. rw e refl;
}
