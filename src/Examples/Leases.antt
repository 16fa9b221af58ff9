-- ===== src/Examples/Leases.antt =====
-- The leases of a Redis server in a few lines: those that end by some second.
use chroma_flow.Base.{
  ℕ, zero, suc, ◌≤◌, ◌<◌, String, ◌≡◌, refl, sym, ap, ◌∙◌, Bool, true, false, Option, none, some,
  List, [], ◌∷◌, ◌==◌, leb, eq_iff, eq_refl, if◌then◌else◌, arith, All, length, take, Bool-cases,
  inl, inr,
}
use chroma_flow.Base.Dict
use chroma_flow.Base.Dict.{Dict, String-eq, get-del}
use chroma_flow.Queue.Redis.Server.{IsDue, IsPast, IsDistinct, is_among}
use chroma_flow.Redisx.Server.{without}

abbrev is_past : ℕ → Option ℕ → Bool
is_past n none = false
is_past n (some t) = leb t n

IsPast-is_past : (n : ℕ) (o : Option ℕ) → is_past n o ≡ true → IsPast n o
IsPast-is_past n none h = absurd (cc)
IsPast-is_past n (some t) h = ground arith

is_past-IsPast : (n : ℕ) (o : Option ℕ) → IsPast n o → is_past n o ≡ true
is_past-IsPast n none h = absurd h
is_past-IsPast n (some t) h = ground arith

-- The items whose leases end by a second, each once.
pub past : ℕ → Dict String ℕ → List String
past n [] = []
past n ((k, t) ∷ m) = let rest = without k (past n m) in if leb t n then k ∷ rest else rest

is_among-without :
    (x y : String) (xs : List String)
    → is_among x (without y xs) ≡ (if y == x then false else is_among x xs)
unfolding without
is_among-without x y [] = ground arith
is_among-without x y (z ∷ zs) =
    ground (arith, is_among-without x y zs, eq_iff z y, eq_iff z x, eq_iff y x)

is_among-past :
    (n : ℕ) (x : String) (m : Dict String ℕ) → is_among x (past n m) ≡ is_past n (Dict.get x m)
unfolding past Dict.get
is_among-past n x [] = refl
is_among-past n x ((k, t) ∷ m) =
    ground (arith, is_among-without x k (past n m), is_among-past n x m)

IsDistinct-without : (y : String) (xs : List String) → IsDistinct xs → IsDistinct (without y xs)
unfolding without
IsDistinct-without y [] d = tt
IsDistinct-without y (x ∷ xs) (new, d) = elim (Bool-cases (x == y)) [
  | inl e ↦ rw e (IsDistinct-without y xs d)
  | inr e ↦ rw e (is_among-without x y xs ∙ ground (arith, new), IsDistinct-without y xs d)
]

IsDistinct-past : (n : ℕ) (m : Dict String ℕ) → IsDistinct (past n m)
unfolding past
IsDistinct-past n [] = tt
IsDistinct-past n ((k, t) ∷ m) =
    let d = IsDistinct-without k (past n m) (IsDistinct-past n m) in
    elim (Bool-cases (leb t n)) [
      | inl e ↦ rw e (is_among-without k k (past n m) ∙ ground (arith, eq_refl k), d)
      | inr e ↦ rw e d
    ]

is_among-take :
    (x : String) (n : ℕ) (xs : List String) → is_among x (take n xs) ≡ true → is_among x xs ≡ true
is_among-take x zero xs h = absurd (cc)
is_among-take x (suc n) [] h = absurd (cc)
is_among-take x (suc n) (y ∷ ys) h = ground (arith, is_among-take x n ys)

IsDistinct-take : (n : ℕ) (xs : List String) → IsDistinct xs → IsDistinct (take n xs)
IsDistinct-take zero xs d = tt
IsDistinct-take (suc n) [] d = tt
IsDistinct-take (suc n) (x ∷ xs) (new, d) = (
  elim (Bool-cases (is_among x (take n xs))) [
    | inl e ↦ absurd (let found = is_among-take x n xs e in cc)
    | inr e ↦ e
  ],
  IsDistinct-take n xs d,
)

length-take_le : (n : ℕ) (xs : List String) → length (take n xs) ≤ n
length-take_le zero xs = omega arith
length-take_le (suc n) [] = omega arith
length-take_le (suc n) (x ∷ xs) = omega (arith, length-take_le n xs)

take-short : (n : ℕ) (xs : List String) → length (take n xs) < n → take n xs ≡ xs
take-short zero xs h = absurd (omega arith)
take-short (suc n) [] h = refl
take-short (suc n) (x ∷ xs) h = ap (λ l. x ∷ l) (take-short n xs (omega (arith, h)))

All-is_among {ℓ} :
    {P : String → Type ℓ} (xs : List String)
    → ((x : String) → is_among x xs ≡ true → P x)
    → All P xs
All-is_among [] h = tt
All-is_among (x ∷ xs) h =
    (h x (ground (arith, eq_refl x)), All-is_among xs (λ y e. h y (ground (arith, e))))

pub past-IsDue : (n : ℕ) (m : Dict String ℕ) → IsDue n (take 25 (past n m)) m
past-IsDue n m = record {
  distinct = IsDistinct-take 25 (past n m) (IsDistinct-past n m);
  few = length-take_le 25 (past n m);
  due = All-is_among (take 25 (past n m)) (λ x e.
      IsPast-is_past n (Dict.get x m)
        (sym (is_among-past n x m) ∙ is_among-take x 25 (past n m) e));
  complete = λ short x h.
      ap (is_among x) (take-short 25 (past n m) short)
      ∙ is_among-past n x m
      ∙ is_past-IsPast n (Dict.get x m) h;
}
