-- ===== src/Redisx/Decimal.antt =====
-- The decimal texts that internal/redisx/client.go writes with `%d` and reads with `strconv.Atoi`
-- and `strconv.ParseInt`.
use chroma_flow.Base.{
  ℕ, zero, suc, ◌+◌, ◌-◌, ◌*◌, ◌/◌, ◌%◌, ◌^◌, ◌≤◌, ◌<◌, ◌≡◌, ◌≢◌, refl, Bool, true, false, List, [],
  ◌∷◌, ◌&&◌, ltb, leb, eqb, if◌then◌else◌, arith, All, ℤ, pos, negsuc, Bool-cases, inl, inr, ◌∙◌,
}

-- The digits of `n` before `acc`, on fuel: one round divides `n` by ten.
digits : ℕ → ℕ → List ℕ → List ℕ
digits zero n acc = acc
digits (suc fuel) n acc =
    let rest = digits fuel (n / 10) ((b'0' + n % 10) ∷ acc) in
    if ltb n 10 then (b'0' + n) ∷ acc else rest

-- `%d` of a number that is not negative.
unfoldable pub itoa : ℕ → List ℕ
unfolding digits
itoa n = digits (suc n) n []

pub is_digit : ℕ → Bool
is_digit c = leb b'0' c && leb c b'9'

-- What `strconv` makes of a text: an integer, the nearest int64 of one that is out of range, or
-- nothing. Both of the latter are errors.
pub data Parsed : Type 0 where
  fine : ℤ → Parsed
  out_of_range : ℤ → Parsed
  malformed : Parsed

-- What `strconv.ParseUint` makes of the digits.
pub data Scanned : Type 0 where
  value : ℕ → Scanned
  too_big : Scanned
  no_number : Scanned

-- The digits after those of `acc`; the loop ends where 64 bits are exceeded.
unfoldable pub scan : ℕ → List ℕ → Scanned
unfolding is_digit
scan acc [] = value acc
scan acc (c ∷ cs) =
    let n = acc * 10 + (c - b'0') in
    let rest = scan n cs in
    if is_digit c then (if leb (2 ^ 64) n then too_big else rest) else no_number

magnitude : List ℕ → Scanned
unfolding scan
magnitude [] = no_number
magnitude (c ∷ cs) = scan 0 (c ∷ cs)

-- The integer of a sign, true for a minus, and a magnitude.
signed : Bool → Scanned → Parsed
signed b no_number = malformed
signed true too_big = out_of_range (negsuc (2 ^ 63 - 1))
signed false too_big = out_of_range (pos (2 ^ 63 - 1))
signed true (value n) =
    if leb n (2 ^ 63)
    then fine (if eqb n 0 then pos 0 else negsuc (n - 1))
    else out_of_range (negsuc (2 ^ 63 - 1))
signed false (value n) = if ltb n (2 ^ 63) then fine (pos n) else out_of_range (pos (2 ^ 63 - 1))

-- `strconv.Atoi`, and `strconv.ParseInt` with base 10 and 64 bits.
unfoldable pub atoi : List ℕ → Parsed
unfolding magnitude signed
atoi [] = malformed
atoi (c ∷ cs) =
    if eqb c b'-'
    then signed true (magnitude cs)
    else if eqb c b'+'
    then signed false (magnitude cs)
    else signed false (magnitude (c ∷ cs))

scan-digits :
    (fuel n : ℕ) (acc : List ℕ) → n < fuel → n < 2 ^ 63 → scan 0 (digits fuel n acc) ≡ scan n acc
unfolding digits scan
scan-digits zero n acc h m = absurd (omega arith)
scan-digits (suc fuel) n acc h m = elim (Bool-cases (ltb n 10)) [
  | inl small ↦ rw small (ground arith)
  | inr big ↦ rw big (
      scan-digits fuel (n / 10) ((b'0' + n % 10) ∷ acc) (ground arith) (omega arith) ∙ ground arith)
]

-- Every byte is a digit.
abbrev pub IsDigits : List ℕ → Type 0
IsDigits = All (λ c. (b'0' ≤ c) × (c ≤ b'9'))

IsDigits-digits :
    (fuel n : ℕ) (acc : List ℕ) → n < fuel → IsDigits acc → IsDigits (digits fuel n acc)
unfolding digits
IsDigits-digits zero n acc h a = a
IsDigits-digits (suc fuel) n acc h a = elim (Bool-cases (ltb n 10)) [
  | inl small ↦ rw small ((omega arith, ground arith), a)
  | inr big ↦ rw big (
      IsDigits-digits fuel (n / 10) ((b'0' + n % 10) ∷ acc) (ground arith)
        ((omega arith, omega arith), a))
]

pub IsDigits-itoa : (n : ℕ) → IsDigits (itoa n)
unfolding itoa
IsDigits-itoa n = IsDigits-digits (suc n) n [] (omega arith) tt

digits-cons :
    (fuel n : ℕ) (acc : List ℕ) → (c : ℕ) × (cs : List ℕ) × (digits (suc fuel) n acc ≡ c ∷ cs)
unfolding digits
digits-cons zero n acc = elim (Bool-cases (ltb n 10)) [
  | inl small ↦ (b'0' + n, acc, rw small)
  | inr big ↦ (b'0' + n % 10, acc, rw big)
]
digits-cons (suc fuel) n acc = elim (Bool-cases (ltb n 10)) [
  | inl small ↦ (b'0' + n, acc, rw small)
  | inr big ↦
      let (c, cs, e) = digits-cons fuel (n / 10) ((b'0' + n % 10) ∷ acc) in (c, cs, rw big e)
]

atoi-unsigned :
    (xs : List ℕ) (n : ℕ)
    → IsDigits xs
    → scan 0 xs ≡ value n
    → n < 2 ^ 63
    → xs ≢ []
    → atoi xs ≡ fine (pos n)
unfolding atoi
atoi-unsigned [] n d s h ne = absurd (ne refl)
atoi-unsigned (c ∷ cs) n d s h ne = rw s (ground arith)

-- A number that fits an int64 reads back as it was printed.
pub atoi-itoa : (n : ℕ) → n < 2 ^ 63 → atoi (itoa n) ≡ fine (pos n)
unfolding itoa
atoi-itoa n h =
    let (c, cs, e) = digits-cons n n [] in
    atoi-unsigned (digits (suc n) n []) n (IsDigits-digits (suc n) n [] (omega arith) tt)
      (scan-digits (suc n) n [] (omega arith) h ∙ (unfold scan in refl)) h (λ empty. cc)
