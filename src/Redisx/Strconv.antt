-- ===== src/Redisx/Strconv.antt =====
-- `strconv.Itoa` and `strconv.Atoi` on texts, as internal/storage/redis.go and
-- internal/queue/redis.go use them: the digits of Redisx/Decimal as characters.
use Prim.Native.Char.{Char, code}
use chroma_flow.Base.{
  ℕ, zero, suc, String, ◌+◌, ◌-◌, ◌≡◌, refl, List, [], ◌∷◌, ◌≤◌, ◌<◌, ◌^◌, ◌∙◌, arith, ℤ, pos,
}
use chroma_flow.Redisx.Decimal
use chroma_flow.Redisx.Decimal.{
  Parsed, fine, out_of_range, malformed, IsDigits, IsDigits-itoa, atoi-itoa,
}

digit_of : ℕ → Char
digit_of zero = "0"
digit_of (suc zero) = "1"
digit_of (suc (suc zero)) = "2"
digit_of (suc (suc (suc zero))) = "3"
digit_of (suc (suc (suc (suc zero)))) = "4"
digit_of (suc (suc (suc (suc (suc zero))))) = "5"
digit_of (suc (suc (suc (suc (suc (suc zero)))))) = "6"
digit_of (suc (suc (suc (suc (suc (suc (suc zero))))))) = "7"
digit_of (suc (suc (suc (suc (suc (suc (suc (suc zero)))))))) = "8"
digit_of _ = "9"

digit_char : ℕ → Char
unfolding digit_of
digit_char c = digit_of (c - b'0')

digit_text : List ℕ → String
unfolding digit_char
digit_text [] = String.[]
digit_text (c ∷ cs) = String.◌∷◌ (digit_char c) (digit_text cs)

-- The numbers of the characters: the bytes of an ASCII text. A character beyond ASCII, whose
-- number is 128 or more, is no digit, as its bytes are none.
codes : String → List ℕ
codes String.[] = []
codes (String.◌∷◌ c s) = code c ∷ codes s

-- `strconv.Itoa`, and `strconv.FormatInt` in base 10, of a number that is not negative.
unfoldable pub itoa : ℕ → String
unfolding digit_text
itoa n = digit_text (Decimal.itoa n)

integer_of : Parsed → ℤ
integer_of (fine n) = n
integer_of (out_of_range n) = n
integer_of malformed = pos 0

-- `n, _ := strconv.Atoi(s)`.
unfoldable pub atoi_or_zero : String → ℤ
unfolding integer_of codes
atoi_or_zero s = integer_of (Decimal.atoi (codes s))

code-digit_of : (d : ℕ) → d < 10 → code (digit_of d) ≡ b'0' + d
unfolding digit_of
code-digit_of zero h = refl
code-digit_of (suc zero) h = refl
code-digit_of (suc (suc zero)) h = refl
code-digit_of (suc (suc (suc zero))) h = refl
code-digit_of (suc (suc (suc (suc zero)))) h = refl
code-digit_of (suc (suc (suc (suc (suc zero))))) h = refl
code-digit_of (suc (suc (suc (suc (suc (suc zero)))))) h = refl
code-digit_of (suc (suc (suc (suc (suc (suc (suc zero))))))) h = refl
code-digit_of (suc (suc (suc (suc (suc (suc (suc (suc zero)))))))) h = refl
code-digit_of (suc (suc (suc (suc (suc (suc (suc (suc (suc zero))))))))) h = refl
code-digit_of (suc (suc (suc (suc (suc (suc (suc (suc (suc (suc d)))))))))) h = absurd (omega arith)

code-digit_char : (c : ℕ) → b'0' ≤ c → c ≤ b'9' → code (digit_char c) ≡ c
unfolding digit_char
code-digit_char c h k = code-digit_of (c - b'0') (omega arith) ∙ omega arith

codes-digit_text : (cs : List ℕ) → IsDigits cs → codes (digit_text cs) ≡ cs
unfolding digit_text codes
codes-digit_text [] h = refl
codes-digit_text (c ∷ cs) ((l, u), h) = rw (code-digit_char c l u) (rw (codes-digit_text cs h) refl)

pub atoi-itoa_text : (n : ℕ) → n < 2 ^ 63 → atoi_or_zero (itoa n) ≡ pos n
unfolding atoi_or_zero itoa integer_of
atoi-itoa_text n h =
    rw (codes-digit_text (Decimal.itoa n) (IsDigits-itoa n)) (rw (atoi-itoa n h) refl)
