-- ===== src/Storage/Memory/Order.antt =====
-- internal/storage/memory.go: `order` names each stored job once, and nothing else.
use chroma_flow.Base.{
  ℕ, String, ◌≡◌, refl, Bool, true, false, Option, none, some, List, [], ◌∷◌, ◌++◌, ◌||◌, ◌==◌,
  eq_iff, Bool-cases, Option-cases, inl, inr, if◌then◌else◌, arith,
}
use chroma_flow.Base.Dict
use chroma_flow.Base.Dict.{Dict, String-eq, get-put, get-del}
use chroma_flow.Queue.Types.{JobResult, Result, ok, err, is_terminal}
use chroma_flow.Storage.Store.{filled, as_canceled}
use chroma_flow.Storage.Memory.{
  MemoryStorage, new_memory_storage, set_on_change, ordered, set, remove_first, delete,
  cancel_found, cancel, get, reserve_idempotency_key,
}

abbrev pub contains : String → List String → Bool
contains id [] = false
contains id (x ∷ xs) = x == id || contains id xs

abbrev pub IsNodup : List String → Type 0
IsNodup [] = Unit
IsNodup (x ∷ xs) = (contains x xs ≡ false) × IsNodup xs

abbrev pub is_some {ℓ} : {A : Type ℓ} → Option A → Bool
is_some none = false
is_some (some a) = true

-- The order list has no repetition, and names exactly the stored jobs.
pub record IsOrdered (s : MemoryStorage) : Type 0 where
  pub nodup : IsNodup s.order
  pub names : (id : String) → contains id s.order ≡ is_some (Dict.get id s.results)

contains-snoc :
    (id j : String) (xs : List String) → contains j (xs ++ id ∷ []) ≡ (contains j xs || id == j)
contains-snoc id j [] = ground arith
contains-snoc id j (x ∷ xs) = ground (arith, contains-snoc id j xs)

IsNodup-snoc :
    (id : String) (xs : List String) → contains id xs ≡ false → IsNodup xs → IsNodup (xs ++ id ∷ [])
IsNodup-snoc id [] h n = ground arith
IsNodup-snoc id (x ∷ xs) h n = (
  ground (arith, contains-snoc id x xs, eq_iff id x, eq_iff x id),
  IsNodup-snoc id xs (ground arith) n.1,
)

contains-remove_first :
    (id j : String) (xs : List String)
    → IsNodup xs
    → contains j (remove_first id xs) ≡ (if id == j then false else contains j xs)
unfolding remove_first
contains-remove_first id j [] n = ground arith
contains-remove_first id j (x ∷ xs) n =
    ground (arith, contains-remove_first id j xs n.1, eq_iff id j, eq_iff x id, eq_iff x j)

IsNodup-remove_first : (id : String) (xs : List String) → IsNodup xs → IsNodup (remove_first id xs)
unfolding remove_first
IsNodup-remove_first id [] n = tt
IsNodup-remove_first id (x ∷ xs) n = elim (Bool-cases (x == id)) [
  | inl e ↦ rw e n.1
  | inr e ↦ rw e (
    ground (arith, contains-remove_first id x xs n.1, n.0, eq_iff id x),
    IsNodup-remove_first id xs n.1,
  )
]

new_memory_storage-IsOrdered : IsOrdered new_memory_storage
unfolding new_memory_storage Dict.get
new_memory_storage-IsOrdered = record { nodup = tt; names = λ id. refl }

set_on_change-IsOrdered :
    (b : Bool) {s : MemoryStorage} → IsOrdered s → IsOrdered (set_on_change b s)
unfolding set_on_change
set_on_change-IsOrdered b h = record { nodup = h.nodup; names = h.names }

ordered-IsNodup :
    (id : String) (old : Option JobResult) (order : List String)
    → contains id order ≡ is_some old
    → IsNodup order
    → IsNodup (ordered id old order)
unfolding ordered
ordered-IsNodup id none order h n = IsNodup-snoc id order h n
ordered-IsNodup id (some old) order h n = n

contains-ordered :
    (id j : String) (old : Option JobResult) (order : List String)
    → contains id order ≡ is_some old
    → contains j (ordered id old order) ≡ (if id == j then true else contains j order)
unfolding ordered
contains-ordered id j none order h = ground (arith, contains-snoc id j order)
contains-ordered id j (some old) order h = ground (arith, eq_iff id j)

set-IsOrdered :
    (now : ℕ) (id : String) (r : JobResult) {s : MemoryStorage}
    → IsOrdered s
    → IsOrdered (set now id r s).1
unfolding set
set-IsOrdered now id r {s} h =
    let old = Dict.get id s.results in
    record {
      nodup = ordered-IsNodup id old s.order (h.names id) h.nodup;
      names = λ j. ground (
        arith,
        contains-ordered id j old s.order (h.names id),
        get-put id j (filled now old r) s.results,
        h.names j,
      );
    }

delete-IsOrdered : (id : String) {s : MemoryStorage} → IsOrdered s → IsOrdered (delete id s).0
unfolding delete
delete-IsOrdered id {s} h = elim (Option-cases (Dict.get id s.results)) [
  | inl e ↦ rw e h
  | inr (r, e) ↦ rw e (record {
    nodup = IsNodup-remove_first id s.order h.nodup;
    names = λ j.
        ground
          (arith, contains-remove_first id j s.order h.nodup, get-del id j s.results, h.names j);
  })
]

cancel_found-IsOrdered :
    (now : ℕ) (id : String) (r : Result JobResult) {s : MemoryStorage}
    → IsOrdered s
    → IsOrdered (cancel_found now id r s).1
unfolding cancel_found
cancel_found-IsOrdered now id (err e) h = h
cancel_found-IsOrdered now id (ok r) h = elim (Bool-cases (is_terminal r.status)) [
  | inl e ↦ rw e h
  | inr e ↦ rw e (set-IsOrdered now id (as_canceled r) h)
]

cancel-IsOrdered :
    (now : ℕ) (id : String) {s : MemoryStorage} → IsOrdered s → IsOrdered (cancel now id s).1
unfolding cancel
cancel-IsOrdered now id {s} h = cancel_found-IsOrdered now id (get id s) h

reserve-IsOrdered :
    (key id : String) {s : MemoryStorage}
    → IsOrdered s
    → IsOrdered (reserve_idempotency_key key id s).1
unfolding reserve_idempotency_key
reserve-IsOrdered key id {s} h = ground arith

-- A call of a method that may write.
pub data Call : Type 0 where
  sets : ℕ → String → JobResult → Call
  deletes : String → Call
  cancels : ℕ → String → Call
  reserves : String → String → Call
  registers : Bool → Call

pub apply : Call → MemoryStorage → MemoryStorage
apply (sets now id r) s = (set now id r s).1
apply (deletes id) s = (delete id s).0
apply (cancels now id) s = (cancel now id s).1
apply (reserves key id) s = (reserve_idempotency_key key id s).1
apply (registers b) s = set_on_change b s

apply-IsOrdered : (c : Call) {s : MemoryStorage} → IsOrdered s → IsOrdered (apply c s)
unfolding apply
apply-IsOrdered (sets now id r) h = set-IsOrdered now id r h
apply-IsOrdered (deletes id) h = delete-IsOrdered id h
apply-IsOrdered (cancels now id) h = cancel-IsOrdered now id h
apply-IsOrdered (reserves key id) h = reserve-IsOrdered key id h
apply-IsOrdered (registers b) h = set_on_change-IsOrdered b h

pub apply_all : List Call → MemoryStorage → MemoryStorage
apply_all [] s = s
apply_all (c ∷ cs) s = apply_all cs (apply c s)

apply_all-IsOrdered :
    (cs : List Call) {s : MemoryStorage} → IsOrdered s → IsOrdered (apply_all cs s)
unfolding apply_all
apply_all-IsOrdered [] h = h
apply_all-IsOrdered (c ∷ cs) h = apply_all-IsOrdered cs (apply-IsOrdered c h)

-- After any calls on a new storage, the order list holds every stored job exactly once and
-- nothing else.
pub storage_stays-IsOrdered : (cs : List Call) → IsOrdered (apply_all cs new_memory_storage)
storage_stays-IsOrdered cs = apply_all-IsOrdered cs new_memory_storage-IsOrdered
