-- ===== src/Redisx/Resp/Fuel.antt =====
-- internal/redisx/client.go: `readRESP` terminates. Fuel beyond the number of bytes is never used up.
use native.Mathlib.Nat.{le_refl}
use chroma_flow.Base.{
  ℕ, zero, suc, ◌+◌, ◌*◌, ◌≤◌, ◌<◌, ◌≢◌, Bool, true, false, Option, none, some, List, [], ◌∷◌,
  length, drop, ltb, eqb, if◌then◌else◌, arith, Bool-cases, inl, inr, negsuc, pos,
}
use chroma_flow.Redisx.Decimal.{atoi, Parsed, fine, out_of_range, malformed}
use chroma_flow.Redisx.Resp.{
  out_of_fuel, Value, Values, Read, got, failed, panics, max_alloc, with_byte, until_newline,
  strip_cr, read_bulk, with_value, and_more, read_items, as_array, read_integer, read_string,
  read_array, read_line, after_line, read_resp,
}

-- What is read leaves at most `n` bytes, and the fuel has not run out.
abbrev pub Fits : {A : Type 0} → ℕ → Read A → Type 0
Fits n (got v rest) = length rest ≤ n
Fits n (failed e) = e ≢ out_of_fuel
Fits n panics = Unit

-- A reader that is given at most `n` bytes.
abbrev IsReader : {A : Type 0} → ℕ → (List ℕ → Read A) → Type 0
IsReader n read = (bs : List ℕ) → length bs ≤ n → Fits (length bs) (read bs)

length-drop-le : (k : ℕ) (bs : List ℕ) → length (drop k bs) ≤ length bs
length-drop-le zero bs = omega arith
length-drop-le (suc k) [] = omega arith
length-drop-le (suc k) (b ∷ bs) = omega (arith, length-drop-le k bs)

read_bulk-Fits : (n : ℕ) (bs : List ℕ) → Fits (length bs) (read_bulk n bs)
unfolding read_bulk
read_bulk-Fits n bs = elim (Bool-cases (ltb max_alloc (n + 2))) [
  | inl huge ↦ rw huge tt
  | inr fits ↦ rw fits (elim (Bool-cases (ltb (length bs) (n + 2))) [
    | inl short ↦ rw short (λ e. cc)
    | inr full ↦ rw full (length-drop-le (n + 2) bs)
  ])
]

with_value-Fits : (n : ℕ) (v : Value) (r : Read Values) → Fits n r → Fits n (with_value v r)
unfolding with_value
with_value-Fits n v (got vs rest) h = h
with_value-Fits n v (failed e) h = h
with_value-Fits n v panics h = tt

Fits-mono : {A : Type 0} (m n : ℕ) (r : Read A) → m ≤ n → Fits m r → Fits n r
Fits-mono m n (got v rest) h f = omega arith
Fits-mono m n (failed e) h f = f
Fits-mono m n panics h f = tt

read_items-Fits :
    (limit : ℕ) (read : List ℕ → Read Value)
    → IsReader limit read
    → (n : ℕ) → IsReader limit (read_items read n)
unfolding read_items
read_items-Fits limit read h zero bs le = omega arith
read_items-Fits limit read h (suc n) bs le = go (read bs) (h bs le) (read_items-Fits limit read h n)
  where
    go :
        (r : Read Value)
        → Fits (length bs) r
        → IsReader limit (read_items read n)
        → Fits (length bs) (and_more (read_items read n) r)
    go (got v rest) f rec =
        with_value-Fits (length bs) v (read_items read n rest)
          (Fits-mono (length rest) (length bs) (read_items read n rest) f (rec rest (omega arith)))
    go (failed e) f rec = f
    go panics f rec = tt

as_array-Fits : (n : ℕ) (r : Read Values) → Fits n r → Fits n (as_array r)
unfolding as_array
as_array-Fits n (got vs rest) h = h
as_array-Fits n (failed e) h = h
as_array-Fits n panics h = tt

read_integer-Fits :
    (line : List ℕ) (p : Parsed) (bs : List ℕ) → Fits (length bs) (read_integer line p bs)
unfolding read_integer
read_integer-Fits line (fine n) bs = omega arith
read_integer-Fits line (out_of_range n) bs = λ e. cc
read_integer-Fits line malformed bs = λ e. cc

read_string-Fits :
    (line : List ℕ) (p : Parsed) (bs : List ℕ) → Fits (length bs) (read_string line p bs)
unfolding read_string
read_string-Fits line (fine (negsuc n)) bs = omega arith
read_string-Fits line (fine (pos n)) bs = read_bulk-Fits n bs
read_string-Fits line (out_of_range n) bs = λ e. cc
read_string-Fits line malformed bs = λ e. cc

read_array-Fits :
    (limit : ℕ) (read : List ℕ → Read Value) (line : List ℕ) (p : Parsed)
    → IsReader limit read
    → IsReader limit (read_array read line p)
unfolding read_array
read_array-Fits limit read line (fine (negsuc n)) h bs le = omega arith
read_array-Fits limit read line (fine (pos n)) h bs le =
    elim (Bool-cases (ltb max_alloc (16 * n))) [
      | inl huge ↦ rw huge tt
      | inr fits ↦
          rw fits (
            as_array-Fits (length bs) (read_items read n bs) (read_items-Fits limit read h n bs le))
    ]
read_array-Fits limit read line (out_of_range n) h bs le = λ e. cc
read_array-Fits limit read line malformed h bs le = λ e. cc

Fits-if : (n : ℕ) (b : Bool) (x y : Read Value) → Fits n x → Fits n y → Fits n (if b then x else y)
Fits-if n true x y fx fy = fx
Fits-if n false x y fx fy = fy

read_line-Fits :
    (limit : ℕ) (read : List ℕ → Read Value) (prefix : ℕ) (line : List ℕ)
    → IsReader limit read
    → IsReader limit (read_line read prefix line)
unfolding read_line
read_line-Fits limit read prefix line h bs le =
    let n = length bs in
    let p = atoi line in
    Fits-if n (eqb prefix b'+') _ _ (le_refl n) (
      Fits-if n (eqb prefix b'-') _ _ (λ e. cc)
        (Fits-if n (eqb prefix b':') _ _ (read_integer-Fits line p bs) (
          Fits-if n (eqb prefix b'$') _ _ (read_string-Fits line p bs) (
            Fits-if n (eqb prefix b'*') _ _ (read_array-Fits limit read line p h bs le)
              (λ e. cc)))))

-- A line that is found leaves fewer bytes.
abbrev Leaves : ℕ → Option (List ℕ × List ℕ) → Type 0
Leaves n none = Unit
Leaves n (some (line, rest)) = length rest < n

Leaves-with_byte :
    (c n : ℕ) (o : Option (List ℕ × List ℕ)) → Leaves n o → Leaves (suc n) (with_byte c o)
unfolding with_byte
Leaves-with_byte c n none h = tt
Leaves-with_byte c n (some (line, rest)) h = omega arith

Leaves-until_newline : (bs : List ℕ) → Leaves (length bs) (until_newline bs)
unfolding until_newline
Leaves-until_newline [] = tt
Leaves-until_newline (c ∷ cs) =
    pick (eqb c 10) (Leaves-with_byte c (length cs) (until_newline cs) (Leaves-until_newline cs))
  where
    pick :
        (b : Bool)
        → Leaves (suc (length cs)) (with_byte c (until_newline cs))
        → Leaves (suc (length cs)) (if b then some ([], cs) else with_byte c (until_newline cs))
    pick true h = omega arith
    pick false h = h

after_line-Fits :
    (limit n : ℕ) (read : List ℕ → Read Value) (prefix : ℕ) (o : Option (List ℕ × List ℕ))
    → n ≤ limit
    → IsReader limit read
    → Leaves n o
    → Fits (suc n) (after_line read prefix o)
unfolding after_line
after_line-Fits limit n read prefix none le h l = λ e. cc
after_line-Fits limit n read prefix (some (line, rest)) le h l =
    Fits-mono (length rest) (suc n) (read_line read prefix (strip_cr line) rest) (omega arith)
      (read_line-Fits limit read prefix (strip_cr line) h rest (omega arith))

read_resp-IsReader : (fuel : ℕ) → IsReader fuel (read_resp (suc fuel))
unfolding read_resp
read_resp-IsReader fuel [] le = λ e. cc
read_resp-IsReader zero (prefix ∷ bs) le = absurd (omega arith)
read_resp-IsReader (suc fuel) (prefix ∷ bs) le =
    after_line-Fits fuel (length bs) (read_resp (suc fuel)) prefix (until_newline bs) (omega arith)
      (read_resp-IsReader fuel) (Leaves-until_newline bs)

-- Whatever bytes the connection delivers, with more fuel than bytes `readRESP` never runs out of
-- it: it returns a value, leaving no more bytes than there were, or one of the source's errors, or
-- `make` panics.
pub read_resp-terminates :
    (fuel : ℕ) (bs : List ℕ) → length bs < fuel → Fits (length bs) (read_resp fuel bs)
read_resp-terminates zero bs h = absurd (omega arith)
read_resp-terminates (suc fuel) bs h = read_resp-IsReader fuel bs (omega arith)
