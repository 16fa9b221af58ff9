-- ===== src/Base/Order.antt =====
-- Strict total orders, the order of Go's texts, and `sort.Strings` and `sort.Slice` on the keys of a
-- map, which are all different: whatever the algorithm, its result is this one.
use Prim.Native.Char.{code}
use Prim.Native.String.{String}
use mathlib.Core.Path.{◌≡◌, refl, sym, ap, ap₂, ◌∙◌}
use mathlib.Core.Logic.{inl, inr}
use mathlib.Core.Bool.{Bool, true, false, ◌&&◌, ◌||◌}
use mathlib.Core.Option.{Option, none, some}
use mathlib.Core.List.{List, [], ◌∷◌}
use native.Mathlib.Omega.{arith}
use text.Mathlib.TextEquality.{Char-path}
use chroma_flow.Base.Tests.{ltb, eqb, if◌then◌else◌, Bool-cases}
use chroma_flow.Base.Lists.{All}
use chroma_flow.Base.Dict
use chroma_flow.Base.Dict.{Dict, Eq}

pub record Order {ℓ} (A : Type ℓ) : Type ℓ where
  pub before : A → A → Bool
  pub before_irrefl : (a : A) → before a a ≡ false
  pub before_trans : (a b c : A) → before a b ≡ true → before b c ≡ true → before a c ≡ true
  pub before_total : (a b : A) → before a b ≡ false → before b a ≡ false → a ≡ b

-- `s < t`: by the bytes, which is by the numbers of the characters.
unfoldable pub text_before : String → String → Bool
text_before String.[] String.[] = false
text_before String.[] (String.◌∷◌ d t) = true
text_before (String.◌∷◌ c s) String.[] = false
text_before (String.◌∷◌ c s) (String.◌∷◌ d t) =
    ltb (code c) (code d) || (eqb (code c) (code d) && text_before s t)

pub text_before_irrefl : (s : String) → text_before s s ≡ false
unfolding text_before
text_before_irrefl String.[] = refl
text_before_irrefl (String.◌∷◌ c s) = ground (arith, text_before_irrefl s)

pub text_before_trans :
    (s t u : String) → text_before s t ≡ true → text_before t u ≡ true → text_before s u ≡ true
unfolding text_before
text_before_trans String.[] String.[] u h k = cc
text_before_trans s (String.◌∷◌ d t) String.[] h k = cc
text_before_trans (String.◌∷◌ c s) String.[] u h k = cc
text_before_trans String.[] (String.◌∷◌ d t) (String.◌∷◌ e u) h k = refl
text_before_trans (String.◌∷◌ c s) (String.◌∷◌ d t) (String.◌∷◌ e u) h k =
    ground (arith, text_before_trans s t u)

pub text_before_total : (s t : String) → text_before s t ≡ false → text_before t s ≡ false → s ≡ t
unfolding text_before
text_before_total String.[] String.[] h k = refl
text_before_total String.[] (String.◌∷◌ d t) h k = cc
text_before_total (String.◌∷◌ c s) String.[] h k = cc
text_before_total (String.◌∷◌ c s) (String.◌∷◌ d t) h k =
    ap₂ String.◌∷◌ (Char-path c d (ground arith))
      (text_before_total s t (ground arith) (ground arith))

instance abbrev pub String-order : Order String
String-order = record {
  before = text_before;
  before_irrefl = text_before_irrefl;
  before_trans = text_before_trans;
  before_total = text_before_total;
}

module _ {ℓ} {A : Type ℓ} ⦃o : Order A⦄ where
  insert_key : A → List A → List A
  insert_key x [] = x ∷ []
  insert_key x (y ∷ ys) =
      let rest = insert_key x ys in if o.before y x then y ∷ rest else x ∷ y ∷ ys

  unfoldable pub sort_keys : List A → List A
  unfolding insert_key
  sort_keys [] = []
  sort_keys (x ∷ xs) = insert_key x (sort_keys xs)

  -- Each item comes before all after it.
  abbrev pub IsIncreasing : List A → Type ℓ
  IsIncreasing [] = Unit
  IsIncreasing (x ∷ xs) = All (λ y. o.before x y ≡ true) xs × IsIncreasing xs

module _ {ℓ} {A : Type ℓ} ⦃e : Eq A⦄ where
  abbrev pub has : A → List A → Bool
  has a [] = false
  has a (x ∷ xs) = e.beq x a || has a xs

  -- No item stands twice.
  abbrev pub IsDistinct : List A → Type 0
  IsDistinct [] = Unit
  IsDistinct (x ∷ xs) = (has x xs ≡ false) × IsDistinct xs

module _ {ℓ} {A : Type ℓ} ⦃e : Eq A⦄ ⦃o : Order A⦄ where
  has-insert_key : (a x : A) (ys : List A) → has a (insert_key x ys) ≡ has a (x ∷ ys)
  unfolding insert_key
  has-insert_key a x [] = refl
  has-insert_key a x (y ∷ ys) = ground (arith, has-insert_key a x ys)

  pub has-sort_keys : (a : A) (xs : List A) → has a (sort_keys xs) ≡ has a xs
  unfolding sort_keys
  has-sort_keys a [] = refl
  has-sort_keys a (x ∷ xs) = ground (arith, has-insert_key a x (sort_keys xs), has-sort_keys a xs)

  All-insert_key {κ} :
      (P : A → Type κ) (x : A) (ys : List A) → P x → All P ys → All P (insert_key x ys)
  unfolding insert_key
  All-insert_key P x [] h a = (h, tt)
  All-insert_key P x (y ∷ ys) h a = elim (Bool-cases (o.before y x)) [
    | inl b ↦ rw b (a.0, All-insert_key P x ys h a.1)
    | inr b ↦ rw b (h, a)
  ]

  All-before :
      (x y : A) (ys : List A)
      → o.before x y ≡ true
      → All (λ z. o.before y z ≡ true) ys
      → All (λ z. o.before x z ≡ true) ys
  All-before x y [] b a = tt
  All-before x y (z ∷ zs) b a = (o.before_trans x y z b a.0, All-before x y zs b a.1)

  insert_key-IsIncreasing :
      (x : A) (ys : List A) → has x ys ≡ false → IsIncreasing ys → IsIncreasing (insert_key x ys)
  unfolding insert_key
  insert_key-IsIncreasing x [] h a = (tt, tt)
  insert_key-IsIncreasing x (y ∷ ys) h a = elim (Bool-cases (o.before y x)) [
    | inl b ↦ rw b (
      All-insert_key (λ z. o.before y z ≡ true) x ys b a.0,
      insert_key-IsIncreasing x ys (ground arith) a.1,
    )
    | inr b ↦
        let c : o.before x y ≡ true =
          ground (arith, o.before_total x y, o.before_total y x, e.beq_iff y x) in
        rw b ((c, All-before x y ys c a.0), a)
  ]

  -- The result is in strictly increasing order.
  pub sort_keys-IsIncreasing : (xs : List A) → IsDistinct xs → IsIncreasing (sort_keys xs)
  unfolding sort_keys
  sort_keys-IsIncreasing [] d = tt
  sort_keys-IsIncreasing (x ∷ xs) d =
      insert_key-IsIncreasing x (sort_keys xs) (has-sort_keys x xs ∙ d.0)
        (sort_keys-IsIncreasing xs d.1)

  has-of_All_before : (x : A) (ys : List A) → All (λ z. o.before x z ≡ true) ys → has x ys ≡ false
  has-of_All_before x [] a = refl
  has-of_All_before x (y ∷ ys) a =
      ground (arith, e.beq_iff y x, o.before_irrefl x, has-of_All_before x ys a.1)

  -- An item of an increasing list is its head or after it.
  has-later :
      (x y : A) (ys : List A)
      → All (λ z. o.before y z ≡ true) ys
      → has x (y ∷ ys) ≡ true
      → o.before x y ≡ false
  has-later x y [] a h = ground (arith, e.beq_iff y x, o.before_irrefl x)
  has-later x y (z ∷ zs) a h = elim (Bool-cases (e.beq z x)) [
    | inl q ↦ ground (arith, e.beq_iff z x, o.before_irrefl x, o.before_trans x y x)
    | inr q ↦ has-later x y zs a.1 (ground arith)
  ]

  -- An increasing list is determined by what it has.
  pub increasing_unique :
      (xs ys : List A)
      → IsIncreasing xs
      → IsIncreasing ys
      → ((a : A) → has a xs ≡ has a ys)
      → xs ≡ ys
  increasing_unique [] [] p q h = refl
  increasing_unique [] (y ∷ ys) p q h = ground (arith, h y, e.beq_iff y y)
  increasing_unique (x ∷ xs) [] p q h = ground (arith, h x, e.beq_iff x x)
  increasing_unique (x ∷ xs) (y ∷ ys) p q h =
      let same : x ≡ y =
        o.before_total x y (has-later x y ys q.0 (ground (arith, h x, e.beq_iff x x)))
          (has-later y x xs p.0 (ground (arith, h y, e.beq_iff y y))) in
      ap₂ ◌∷◌ same (
        increasing_unique xs ys p.1 q.1 (λ a. elim (Bool-cases (e.beq x a)) [
          | inl b ↦
              ground (arith, e.beq_iff x a, has-of_All_before x xs p.0, has-of_All_before y ys q.0)
          | inr b ↦ ground (arith, e.beq_iff x a, e.beq_iff y a, h a)
        ]))

abbrev pub is_some {ℓ} : {A : Type ℓ} → Option A → Bool
is_some none = false
is_some (some a) = true

-- The keys of a map, in the order in which they happen to stand there.
module _ {ℓ κ} {K : Type ℓ} {V : Type κ} ⦃e : Eq K⦄ where
  abbrev pub keys : Dict K V → List K
  keys [] = []
  keys ((k, v) ∷ m) = k ∷ keys m

  pub has-keys : (k : K) (m : Dict K V) → has k (keys m) ≡ is_some (Dict.get k m)
  unfolding Dict.get
  has-keys k [] = refl
  has-keys k ((j, v) ∷ m) = ground (arith, has-keys k m)

  -- The map has one entry for each key.
  abbrev pub IsMap : Dict K V → Type 0
  IsMap m = IsDistinct (keys m)

  has-keys-put :
      (k j : K) (v : V) (m : Dict K V)
      → has j (keys (Dict.put k v m)) ≡ (e.beq k j || has j (keys m))
  unfolding Dict.put
  has-keys-put k j v [] = refl
  has-keys-put k j v ((i, w) ∷ m) =
      ground (arith, has-keys-put k j v m, e.beq_iff i k, e.beq_iff i j, e.beq_iff k j)

  pub put-IsMap : (k : K) (v : V) (m : Dict K V) → IsMap m → IsMap (Dict.put k v m)
  unfolding Dict.put
  put-IsMap k v [] d = (refl, tt)
  put-IsMap k v ((i, w) ∷ m) d = elim (Bool-cases (e.beq i k)) [
    | inl b ↦ rw b d
    | inr b ↦
        rw b
          (ground (arith, has-keys-put k i v m, e.beq_iff i k, e.beq_iff k i), put-IsMap k v m d.1)
  ]

  -- The entries of two maps are the same.
  abbrev pub SameMap : Dict K V → Dict K V → Type (ℓ ⊔ κ)
  SameMap m n = (k : K) → Dict.get k m ≡ Dict.get k n

module _ {ℓ κ} {K : Type ℓ} {V : Type κ} ⦃e : Eq K⦄ ⦃o : Order K⦄ where
  -- The sorted keys do not depend on the order in which a map yields its entries.
  pub sort_keys-SameMap :
      (m n : Dict K V) → IsMap m → IsMap n → SameMap m n → sort_keys (keys m) ≡ sort_keys (keys n)
  sort_keys-SameMap m n p q h =
      increasing_unique (sort_keys (keys m)) (sort_keys (keys n))
        (sort_keys-IsIncreasing (keys m) p) (sort_keys-IsIncreasing (keys n) q)
        (λ k.
          has-sort_keys k (keys m)
          ∙ has-keys k m
          ∙ ap is_some (h k)
          ∙ sym (has-keys k n)
          ∙ sym (has-sort_keys k (keys n)))
