-- ===== src/Storage/Redis/Hash.antt =====
-- internal/storage/redis.go: the fields that `Set` writes and `Get` reads, and the keys.
use text.Mathlib.TextLemmas.{append_cancel_left}
use chroma_flow.Base.{
  ◌<◌, ◌^◌, String, cat, ◌≡◌, refl, sym, ap, ◌∙◌, false, Option, none, some, [], ◌∷◌, ◌==◌, eq_iff,
  if◌then◌else◌, arith,
}
use chroma_flow.Base.Dict
use chroma_flow.Base.Dict.{Dict, String-eq, get-put}
use chroma_flow.Queue.Types.{
  ok, JobStatus, pending, processing, completed, failed, canceled, other, status_text, JobResult,
}
use chroma_flow.Redisx.Strconv.{atoi-itoa_text}
use chroma_flow.Redisx.Server.{put_all, IsMap, is_empty, Lists, flat}
use chroma_flow.Storage.Store.{IsNamed, found}
use chroma_flow.Storage.Fields.{Formats, status_of, gathered, decoded, encoded, of_items, size_of}
use chroma_flow.Storage.Redis.{job_key, key_of}

pub gathered-flat : (m acc : Dict String String) → gathered (flat m) acc ≡ put_all m acc
unfolding gathered put_all
gathered-flat [] acc = refl
gathered-flat ((k, v) ∷ m) acc = gathered-flat m (Dict.put k v acc)

abbrev pub first_of : Option String → Option String → Option String
first_of none o = o
first_of (some v) o = some v

pub get-put_all :
    (k : String) (m old : Dict String String)
    → IsMap m
    → Dict.get k (put_all m old) ≡ first_of (Dict.get k m) (Dict.get k old)
unfolding put_all Dict.get
get-put_all k [] old h = refl
get-put_all k ((j, v) ∷ m) old (new, h) =
    ground (arith, get-put_all k m (Dict.put j v old) h, get-put j k v old, eq_iff j k)

is_empty-put : (k v : String) (m : Dict String String) → is_empty (Dict.put k v m) ≡ false
unfolding Dict.put
is_empty-put k v [] = refl
is_empty-put k v ((j, w) ∷ m) = ground arith

pub is_empty-put_all :
    (k v : String) (m old : Dict String String) → is_empty (put_all ((k, v) ∷ m) old) ≡ false
unfolding put_all
is_empty-put_all k v [] old = is_empty-put k v old
is_empty-put_all k v ((j, w) ∷ m) old = is_empty-put_all j w m (Dict.put k v old)

-- The result that the fields of a hash hold.
unfoldable pub result_of : Formats → Dict String String → Option JobResult
unfolding decoded
result_of formats m = if is_empty m then none else some (decoded formats (λ k. Dict.get k m))

-- What a hash keeps of a result.
unfoldable pub kept : Formats → JobResult → JobResult
unfolding decoded encoded
kept formats r = decoded formats (λ k. Dict.get k (encoded formats r))

first_of-none : (o : Option String) → first_of o none ≡ o
first_of-none none = refl
first_of-none (some v) = refl

abbrev tail_of : Dict String String → Dict String String
tail_of [] = []
tail_of (x ∷ m) = m

module _ (formats : Formats) where
  decoded-cong :
      (m m' : String → Option String)
      → ((k : String) → m k ≡ m' k)
      → decoded formats m ≡ decoded formats m'
  decoded-cong m m' e = λ i. decoded formats (λ k. e k i)

  encoded-IsMap : (r : JobResult) → IsMap (encoded formats r)
  unfolding Dict.get encoded
  encoded-IsMap r =
      (refl, (refl, (refl, (refl, (refl, (refl, (refl, (refl, (refl, (refl, tt))))))))))

  result_of-some :
      (m : Dict String String)
      → is_empty m ≡ false
      → result_of formats m ≡ some (decoded formats (λ k. Dict.get k m))
  unfolding result_of
  result_of-some m e = ap (λ b. if b then none else some (decoded formats (λ k. Dict.get k m))) e

  -- `Get` of what a reply lists.
  pub of_items-Lists :
      (ps m : Dict String String)
      → Lists ps m
      → of_items formats (flat ps) ≡ found (result_of formats m)
  unfolding of_items result_of Dict.get
  of_items-Lists [] m h =
      ap (λ b. found (if b then none else some (decoded formats (λ k. Dict.get k m)))) h.empty
  of_items-Lists ((k, v) ∷ ps) m h =
      let all : Dict String String = (k, v) ∷ ps in
      let read : (j : String) → Dict.get j (gathered (flat all) []) ≡ Dict.get j m = λ j.
        ap (Dict.get j) (gathered-flat all [])
        ∙ get-put_all j all [] h.unique
        ∙ first_of-none (Dict.get j all)
        ∙ h.same j in
      ap ok (decoded-cong (λ j. Dict.get j (gathered (flat all) [])) (λ j. Dict.get j m) read)
      ∙ ap found (sym (result_of-some m (sym h.empty)))

  -- `Get` of what `Set` writes, whatever stood there.
  pub result_of-put_all :
      (r : JobResult) (old : Dict String String)
      → result_of formats (put_all (encoded formats r) old) ≡ some (kept formats r)
  unfolding kept decoded encoded Dict.get
  result_of-put_all r old =
      let new = encoded formats r in
      result_of-some (put_all new old) (is_empty-put_all "url" r.url (tail_of new) old)
      ∙ ap some (
          decoded-cong (λ k. Dict.get k (put_all new old))
            (λ k. first_of (Dict.get k new) (Dict.get k old))
            (λ k. get-put_all k new old (encoded-IsMap r)))

status_of-text : (s : JobStatus) → IsNamed s → status_of (status_text s) ≡ s
unfolding status_of status_text
status_of-text pending h = refl
status_of-text processing h = refl
status_of-text completed h = refl
status_of-text failed h = refl
status_of-text canceled h = refl
status_of-text (other t) h = absurd h

pub kept-status :
    (formats : Formats) (r : JobResult) → IsNamed r.status → (kept formats r).status ≡ r.status
unfolding kept decoded Dict.get
kept-status formats r h = status_of-text r.status h

pub kept-idempotency_key :
    (formats : Formats) (r : JobResult) → (kept formats r).idempotency_key ≡ r.idempotency_key
unfolding kept decoded Dict.get
kept-idempotency_key formats r = refl

pub kept-pdf_key : (formats : Formats) (r : JobResult) → (kept formats r).pdf_key ≡ r.pdf_key
unfolding kept decoded Dict.get
kept-pdf_key formats r = refl

pub kept_lem :
    (formats : Formats) (r : JobResult)
    → r.pdf_size < 2 ^ 63
    → IsNamed r.status
    → kept formats r ≡ record r {
      pdf = [];
      created_at = formats.parse (formats.format r.created_at);
      updated_at = formats.parse (formats.format r.updated_at);
    }
unfolding kept decoded Dict.get
kept_lem formats r small named = λ i. record r {
  status = status_of-text r.status named i;
  pdf = [];
  pdf_size = size_of (atoi-itoa_text r.pdf_size small i);
  created_at = formats.parse (formats.format r.created_at);
  updated_at = formats.parse (formats.format r.updated_at);
}

cat-eq : (p i j : String) → (cat p i == cat p j) ≡ (i == j)
cat-eq p i j = ground (arith, eq_iff (cat p i) (cat p j), eq_iff i j, append_cancel_left p i j)

pub job_key-eq : (prefix i j : String) → (job_key prefix i == job_key prefix j) ≡ (i == j)
job_key-eq prefix = cat-eq (cat prefix ":job:")

pub key_of-eq : (prefix i j : String) → (key_of prefix i == key_of prefix j) ≡ (i == j)
key_of-eq prefix = cat-eq (cat prefix ":idempotency:")
