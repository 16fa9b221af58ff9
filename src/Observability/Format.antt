-- ===== src/Observability/Format.antt =====
-- internal/observability/metrics.go: the texts of numbers and of the help lines.
use Prim.Native.Char.{code}
use chroma_flow.Base.{
  ℕ, suc, ◌-◌, ◌^◌, String, cat, List, [], ◌∷◌, ltb, eqb, if◌then◌else◌, ℤ, pos, negsuc,
}
use chroma_flow.Redisx.Strconv.{itoa}

abbrev pub concat : List String → String
concat [] = ""
concat (t ∷ ts) = cat t (concat ts)

-- `strings.ReplaceAll`, of a text of one character.
replace_all : ℕ → String → String → String
replace_all old new String.[] = ""
replace_all old new (String.◌∷◌ c s) =
    let rest = replace_all old new s in if eqb (code c) old then cat new rest else String.◌∷◌ c rest

unfoldable pub escape_help : String → String
unfolding replace_all
escape_help help = replace_all b'\n' "\\n" (replace_all b'\\' "\\\\" help)

unfoldable pub write_help : String → String → String → String
unfolding escape_help
write_help name help kind =
    concat ("# HELP " ∷ name ∷ " " ∷ escape_help help ∷ "\n# TYPE " ∷ name ∷ " " ∷ kind ∷ "\n" ∷ [])

-- `float64`: its zero, its addition, `Seconds` of a duration in nanoseconds, and
-- `strconv.FormatFloat(v, 'f', -1, 64)`.
pub record Float (F : Type 0) : Type 0 where
  pub zero_value : F
  pub plus : F → F → F
  pub seconds : ℕ → F
  pub format : F → String

-- The sum after so many `+=`, the latest first. No law of the addition is used, as float64 has
-- neither the commutative nor the associative one.
unfoldable pub sum_of : {F : Type 0} → Float F → List ℕ → F
sum_of float [] = float.zero_value
sum_of float (d ∷ ds) = float.plus (sum_of float ds) (float.seconds d)

-- `formatFloat` of an upper bound, which is `Seconds` of its nanoseconds, and of a sum.
abbrev pub format_bound : {F : Type 0} → Float F → ℕ → String
format_bound float upper = float.format (float.seconds upper)

abbrev pub format_sum : {F : Type 0} → Float F → List ℕ → String
format_sum float sum = float.format (sum_of float sum)

-- `%d` of an `int64`.
unfoldable pub int64_text : ℕ → String
int64_text n = if ltb n (2 ^ 63) then itoa n else cat "-" (itoa (2 ^ 64 - n))

-- `%d` of an `int`.
unfoldable pub int_text : ℤ → String
int_text (pos n) = itoa n
int_text (negsuc n) = cat "-" (itoa (suc n))
