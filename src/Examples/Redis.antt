-- ===== src/Examples/Redis.antt =====
-- internal/storage/redis.go and internal/redisx/client.go at small inputs.
use package.text.Mathlib.TextLemmas.{cons-append, append_assoc}
use Prim.Native.Char.{Char}
use mathlib.Core.List.{Perm}
use chroma_flow.Base.{
  ℕ, ◌≤◌, ◌<◌, ◌^◌, String, cat, ◌≡◌, refl, ap, ◌∙◌, pos, true, false, [], length, take,
}
use chroma_flow.Base.Dict
use chroma_flow.Base.Dict.{String-eq}
use chroma_flow.Queue.Types.{pending, JobResult}
use chroma_flow.Redisx.New.{Client}
use chroma_flow.Redisx.Server.{no_content}
use chroma_flow.Storage.Store.{StoreLaws, NeverFails, IsNamed}
use chroma_flow.Storage.Sort.{created_at_time, IsLatestFirst}
use chroma_flow.Storage.Memory.{count_of}
use chroma_flow.Storage.Fields.{Formats}
use chroma_flow.Storage.Redis.{RedisStorage, job_key, order_key, key_of, set, list, stats}
use chroma_flow.Storage.Redis.Hash.{result_of}
use chroma_flow.Storage.Redis.Laws.{IsLaidOut}
use chroma_flow.Storage.Redis.Reads.{distinct, stored}
use chroma_flow.Storage.Redis.Wired.{wired, redis-IsStore}
use chroma_flow.Storage.Redis.Listing.{with_status, list_and_stats}
use chroma_flow.Examples.Data.{counted, job_result}
use chroma_flow.Examples.Server.{Keyspace, execute, server, kind_of}

abbrev client : Client
client = record { addr = []; password = []; db = pos 0; use_tls = false; connected = true }

abbrev storage : RedisStorage
storage = record { client = client; prefix = "p"; on_set = true }

-- Every time is the zero time.
abbrev formats : Formats
formats = record { format = λ t. "0001-01-01T00:00:00Z"; parse = λ s. 0 }

-- Six characters before the others.
six :
    (a b c d e f : Char) (s : String)
    → let t : String → String = λ u.
      String.◌∷◌ a (String.◌∷◌ b (String.◌∷◌ c (String.◌∷◌ d (String.◌∷◌ e (String.◌∷◌ f u))))) in
      cat (t String.[]) s ≡ t (cat String.[] s)
six a b c d e f s = simp cons-append

laid : IsLaidOut server storage.prefix
unfolding server kind_of
laid = record {
  jobs = λ id. ap kind_of (six "p" ":" "j" "o" "b" ":" id);
  order = refl;
  keys = λ key.
      ap kind_of
        (append_assoc "p:idem" "potency:" key ∙ six "p" ":" "i" "d" "e" "m" (cat "potency:" key));
}

redis-IsStore_example :
    (laws : StoreLaws (wired execute formats storage counted)) × ((w : Keyspace × ℕ) (id : String)
      → laws.view w id ≡ result_of formats (server.at w.0 (job_key "p" id)).fields)
    × ((w : Keyspace × ℕ) (key : String)
        → laws.holder w key ≡ (server.at w.0 (key_of "p" key)).value)
    × ((r : JobResult)
        → r.pdf_size < 2 ^ 63
        → IsNamed r.status
        → laws.kept r ≡ record r {
          pdf = [];
          created_at = formats.parse (formats.format r.created_at);
          updated_at = formats.parse (formats.format r.updated_at);
        })
    × NeverFails (wired execute formats storage counted)
redis-IsStore_example = redis-IsStore execute formats storage counted server laid

abbrev one_job : Keyspace
one_job = (set execute formats storage 5 "a" (job_result pending) (λ k. no_content)).2

list_and_stats_example :
    let newest = take 200 (server.at one_job (order_key "p")).items in
    let (jobs, s₁) = list execute formats storage one_job in
    let (st, s₂) = stats execute formats storage one_job in
    IsLatestFirst jobs
    × Perm jobs (stored execute formats server storage laid one_job (distinct [] newest))
    × ((t : ℕ)
        → created_at_time t jobs
          ≡ created_at_time t
              (stored execute formats server storage laid one_job (distinct [] newest)))
    × (length jobs ≤ 200)
    × (st.total ≡ length jobs)
    × ((t : String) → count_of (Dict.get t st.by_status) ≡ with_status t jobs)
    × (s₁ ≡ one_job)
    × (s₂ ≡ one_job)
list_and_stats_example = list_and_stats execute formats server storage laid one_job
