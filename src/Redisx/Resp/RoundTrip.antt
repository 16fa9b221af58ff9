-- ===== src/Redisx/Resp/RoundTrip.antt =====
-- internal/redisx/client.go: `readRESP` reads back what `writeCommand` writes.
use mathlib.Core.List.{append_assoc}
use chroma_flow.Base.{
  ℕ, suc, ◌+◌, ◌*◌, ◌≤◌, ◌≡◌, refl, false, ltb, arith, List, [], ◌∷◌, ◌++◌, length, All, ap, ◌∙◌,
}
use chroma_flow.Redisx.Decimal.{itoa, IsDigits-itoa, atoi-itoa}
use chroma_flow.Redisx.Resp.{
  str, arr, Values, nil, cons, got, crlf, max_alloc, write_args, write_command, read_line,
  read_items, read_resp,
}
use chroma_flow.Redisx.Resp.Lines.{until_newline-digits, strip_cr-snoc, read_bulk-append}

-- The arguments as the items of an array reply.
abbrev pub strs : List (List ℕ) → Values
strs [] = nil
strs (arg ∷ args) = cons (str arg) (strs args)

-- Every argument is small enough for `make`.
abbrev pub IsSendable : List (List ℕ) → Type 0
IsSendable args = All (λ arg. length arg + 2 ≤ max_alloc) args

-- A line with a number, after its prefix.
read_resp-header :
    (fuel prefix n : ℕ) (rest : List ℕ)
    → read_resp (suc fuel) (prefix ∷ (itoa n ++ (crlf ++ rest)))
      ≡ read_line (read_resp fuel) prefix (itoa n) rest
unfolding read_resp
read_resp-header fuel prefix n rest =
    rw (until_newline-digits (itoa n) rest (IsDigits-itoa n)) (rw (strip_cr-snoc (itoa n)))

read_resp-bulk :
    (fuel : ℕ) (arg rest : List ℕ)
    → length arg + 2 ≤ max_alloc
    → read_resp (suc fuel) (b'$' ∷ (itoa (length arg) ++ (crlf ++ (arg ++ (crlf ++ rest)))))
      ≡ got (str arg) rest
read_resp-bulk fuel arg rest h =
    read_resp-header fuel b'$' (length arg) (arg ++ (crlf ++ rest))
    ∙ (unfold read_line in rw (atoi-itoa (length arg) (omega arith)) (read_bulk-append arg rest h))

-- The first argument, and what is read of the others.
write_args-cons :
    (arg : List ℕ) (args : List (List ℕ)) (rest : List ℕ)
    → write_args (arg ∷ args) ++ rest
      ≡ b'$' ∷ (itoa (length arg) ++ (crlf ++ (arg ++ (crlf ++ (write_args args ++ rest)))))
unfolding write_args
write_args-cons arg args rest = simp append_assoc

read_items-args :
    (fuel : ℕ) (args : List (List ℕ)) (rest : List ℕ)
    → IsSendable args
    → read_items (read_resp (suc fuel)) (length args) (write_args args ++ rest)
      ≡ got (strs args) rest
unfolding read_items
read_items-args fuel [] rest h = unfold write_args in refl
read_items-args fuel (arg ∷ args) rest h = rw (write_args-cons arg args rest) (
    rw (read_resp-bulk fuel arg (write_args args ++ rest) h.0)
      (rw (read_items-args fuel args rest h.1)))

write_command-eq :
    (args : List (List ℕ)) (rest : List ℕ)
    → write_command args ++ rest
      ≡ b'*' ∷ (itoa (length args) ++ (crlf ++ (write_args args ++ rest)))
unfolding write_command
write_command-eq args rest = simp append_assoc

-- What `writeCommand` writes of arguments which `make` has room for, followed by anything, `readRESP`
-- reads as the array of the arguments, and leaves what follows.
pub read_resp-write_command :
    (fuel : ℕ) (args : List (List ℕ)) (rest : List ℕ)
    → 16 * length args ≤ max_alloc
    → IsSendable args
    → read_resp (suc (suc fuel)) (write_command args ++ rest) ≡ got (arr (strs args)) rest
read_resp-write_command fuel args rest n h =
    ap (read_resp (suc (suc fuel))) (write_command-eq args rest)
    ∙ read_resp-header (suc fuel) b'*' (length args) (write_args args ++ rest)
    ∙ (unfold read_line in
        let fits : ltb max_alloc (16 * length args) ≡ false = ground arith in
        rw (atoi-itoa (length args) (omega arith))
          (rw fits (rw (read_items-args fuel args rest h))))
