-- ===== src/Redisx/Resp/Lines.antt =====
-- internal/redisx/client.go: reading back one line and one bulk string.
use native.Mathlib.Nat.{zero-add, suc-add}
use chroma_flow.Base.{
  ℕ, ◌+◌, ◌≤◌, ◌≡◌, refl, false, some, List, [], ◌∷◌, ◌++◌, length, take, drop, ltb, arith, ap,
  length-append,
}
use chroma_flow.Redisx.Decimal.{IsDigits}
use chroma_flow.Redisx.Resp.{str, got, crlf, strip_cr, until_newline, max_alloc, read_bulk}

-- A line of digits ends where its CRLF stands.
pub until_newline-digits :
    (xs rest : List ℕ)
    → IsDigits xs
    → until_newline (xs ++ (crlf ++ rest)) ≡ some (xs ++ 13 ∷ [], rest)
unfolding until_newline
until_newline-digits [] rest d = refl
until_newline-digits (x ∷ xs) rest d = rw (until_newline-digits xs rest d.1) (ground arith)

pub strip_cr-snoc : (xs : List ℕ) → strip_cr (xs ++ 13 ∷ []) ≡ xs
unfolding strip_cr
strip_cr-snoc [] = refl
strip_cr-snoc (x ∷ []) = refl
strip_cr-snoc (x ∷ y ∷ xs) = ap (λ zs. x ∷ zs) (strip_cr-snoc (y ∷ xs))

take-length : (xs ys : List ℕ) → take (length xs) (xs ++ ys) ≡ xs
take-length [] [] = refl
take-length [] (y ∷ ys) = refl
take-length (x ∷ xs) ys = ap (λ zs. x ∷ zs) (take-length xs ys)

drop-length : (xs ys : List ℕ) (k : ℕ) → drop (length xs + k) (xs ++ ys) ≡ drop k ys
drop-length [] ys k = rw zero-add
drop-length (x ∷ xs) ys k = rw suc-add (drop-length xs ys k)

-- A bulk string, its CRLF included, is read whole.
pub read_bulk-append :
    (arg rest : List ℕ)
    → length arg + 2 ≤ max_alloc
    → read_bulk (length arg) (arg ++ (crlf ++ rest)) ≡ got (str arg) rest
unfolding read_bulk
read_bulk-append arg rest h =
    let fits : ltb max_alloc (length arg + 2) ≡ false = ground arith in
    rw fits (
      rw (not_short arg rest)
        (rw (take-length arg (crlf ++ rest), drop-length arg (crlf ++ rest) 2)))
  where
    not_short : (arg rest : List ℕ) → ltb (length (arg ++ (crlf ++ rest))) (length arg + 2) ≡ false
    not_short arg rest = ground (arith, length-append arg (crlf ++ rest))
