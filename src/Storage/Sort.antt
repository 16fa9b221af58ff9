-- ===== src/Storage/Sort.antt =====
-- `sort.SliceStable` by creation time, latest first, as both storages list their jobs.
use mathlib.Core.List.{Perm}
use mathlib.Core.List.Perm
use chroma_flow.Base.{
  ℕ, suc, length, ◌≤◌, ◌≡◌, refl, inl, inr, Bool, List, [], ◌∷◌, All, ltb, eqb, Bool-cases, arith,
  if◌then◌else◌,
}
use chroma_flow.Queue.Types.{JobSnapshot}

-- `a.After(b)`.
abbrev pub after : ℕ → ℕ → Bool
after a b = ltb b a

-- `x` stood before all of the sorted list: it comes before what was created at the same time.
insert : JobSnapshot → List JobSnapshot → List JobSnapshot
insert x [] = x ∷ []
insert x (y ∷ ys) =
    let rest = insert x ys in if after y.created_at x.created_at then y ∷ rest else x ∷ y ∷ ys

unfoldable pub sort_stable : List JobSnapshot → List JobSnapshot
unfolding insert
sort_stable [] = []
sort_stable (x ∷ xs) = insert x (sort_stable xs)

-- Every job was created no later than those before it.
abbrev pub IsLatestFirst : List JobSnapshot → Type 0
IsLatestFirst [] = Unit
IsLatestFirst (x ∷ xs) = All (λ y. y.created_at ≤ x.created_at) xs × IsLatestFirst xs

-- The jobs created at one time, in their order.
abbrev pub created_at_time : ℕ → List JobSnapshot → List JobSnapshot
created_at_time t [] = []
created_at_time t (x ∷ xs) =
    let rest = created_at_time t xs in if eqb x.created_at t then x ∷ rest else rest

All-weaken :
    (s t : ℕ) (xs : List JobSnapshot)
    → s ≤ t
    → All (λ y. y.created_at ≤ s) xs
    → All (λ y. y.created_at ≤ t) xs
All-weaken s t [] h a = tt
All-weaken s t (x ∷ xs) h a = (omega arith, All-weaken s t xs h a.1)

All-insert_of {ℓ} :
    (P : JobSnapshot → Type ℓ) (x : JobSnapshot) (ys : List JobSnapshot)
    → P x
    → All P ys
    → All P (insert x ys)
unfolding insert
All-insert_of P x [] h a = (h, tt)
All-insert_of P x (y ∷ ys) h a = elim (Bool-cases (after y.created_at x.created_at)) [
  | inl e ↦ rw e (a.0, All-insert_of P x ys h a.1)
  | inr e ↦ rw e (h, a)
]

insert-IsLatestFirst :
    (x : JobSnapshot) (ys : List JobSnapshot) → IsLatestFirst ys → IsLatestFirst (insert x ys)
unfolding insert
insert-IsLatestFirst x [] h = (tt, tt)
insert-IsLatestFirst x (y ∷ ys) h = elim (Bool-cases (after y.created_at x.created_at)) [
  | inl e ↦ rw e (
    All-insert_of (λ z. z.created_at ≤ y.created_at) x ys (ground arith) h.0,
    insert-IsLatestFirst x ys h.1,
  )
  | inr e ↦ rw e ((ground arith, All-weaken y.created_at x.created_at ys (ground arith) h.0), h)
]

pub sort_stable-IsLatestFirst : (xs : List JobSnapshot) → IsLatestFirst (sort_stable xs)
unfolding sort_stable
sort_stable-IsLatestFirst [] = tt
sort_stable-IsLatestFirst (x ∷ xs) =
    insert-IsLatestFirst x (sort_stable xs) (sort_stable-IsLatestFirst xs)

insert-perm : (x : JobSnapshot) (ys : List JobSnapshot) → Perm (insert x ys) (x ∷ ys)
unfolding insert
insert-perm x [] = Perm.refl _
insert-perm x (y ∷ ys) = elim (Bool-cases (after y.created_at x.created_at)) [
  | inl e ↦ rw e (Perm.trans (Perm.cons y (insert-perm x ys)) (Perm.swap x y ys))
  | inr e ↦ rw e (Perm.refl _)
]

pub sort_stable-perm : (xs : List JobSnapshot) → Perm (sort_stable xs) xs
unfolding sort_stable
sort_stable-perm [] = Perm.refl _
sort_stable-perm (x ∷ xs) =
    Perm.trans (insert-perm x (sort_stable xs)) (Perm.cons x (sort_stable-perm xs))

pub All-sort_stable {ℓ} :
    (P : JobSnapshot → Type ℓ) (xs : List JobSnapshot) → All P xs → All P (sort_stable xs)
unfolding sort_stable
All-sort_stable P [] a = tt
All-sort_stable P (x ∷ xs) a = All-insert_of P x (sort_stable xs) a.0 (All-sort_stable P xs a.1)

length-insert : (x : JobSnapshot) (ys : List JobSnapshot) → length (insert x ys) ≡ suc (length ys)
unfolding insert
length-insert x [] = refl
length-insert x (y ∷ ys) = ground (arith, length-insert x ys)

pub length-sort_stable : (xs : List JobSnapshot) → length (sort_stable xs) ≡ length xs
unfolding sort_stable
length-sort_stable [] = refl
length-sort_stable (x ∷ xs) = omega (arith, length-insert x (sort_stable xs), length-sort_stable xs)

created_at_time-insert :
    (t : ℕ) (x : JobSnapshot) (ys : List JobSnapshot)
    → created_at_time t (insert x ys) ≡ created_at_time t (x ∷ ys)
unfolding insert
created_at_time-insert t x [] = refl
created_at_time-insert t x (y ∷ ys) = ground (arith, created_at_time-insert t x ys)

pub created_at_time-sort_stable :
    (t : ℕ) (xs : List JobSnapshot) → created_at_time t (sort_stable xs) ≡ created_at_time t xs
unfolding sort_stable
created_at_time-sort_stable t [] = refl
created_at_time-sort_stable t (x ∷ xs) =
    ground (arith, created_at_time-insert t x (sort_stable xs), created_at_time-sort_stable t xs)
