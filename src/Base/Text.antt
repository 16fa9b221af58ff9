-- ===== src/Base/Text.antt =====
-- Go strings: `strings.TrimSpace` on the native text.
use Prim.Native.Char.{Char, code}
use Prim.Native.String.{String}
use mathlib.Core.Path.{◌≡◌, refl, ap, ◌∙◌}
use mathlib.Core.Bool.{Bool, true, false, not, ◌&&◌, ◌||◌}
use mathlib.Core.Logic.{inl, inr}
use chroma_flow.Base.Tests.{leb, eqb, if◌then◌else◌, Bool-cases}

-- `unicode.IsSpace`.
pub is_space : Char → Bool
is_space c =
    let n = code c in
    (leb 9 n && leb n 13)
    || eqb n 32
    || eqb n 0x85
    || eqb n 0xa0
    || eqb n 0x1680
    || (leb 0x2000 n && leb n 0x200a)
    || eqb n 0x2028
    || eqb n 0x2029
    || eqb n 0x202f
    || eqb n 0x205f
    || eqb n 0x3000

trim_left : String → String
trim_left String.[] = String.[]
trim_left (String.◌∷◌ c s) = if is_space c then trim_left s else String.◌∷◌ c s

-- A character before a text that is trimmed at its right end.
before : Char → String → String
before c String.[] = if is_space c then String.[] else String.◌∷◌ c String.[]
before c (String.◌∷◌ d s) = String.◌∷◌ c (String.◌∷◌ d s)

trim_right : String → String
unfolding before
trim_right String.[] = String.[]
trim_right (String.◌∷◌ c s) = before c (trim_right s)

-- `strings.TrimSpace`.
unfoldable pub trim_space : String → String
unfolding trim_left trim_right is_space
trim_space s = trim_right (trim_left s)

trim_right-before :
    (c : Char) (s : String) → trim_right s ≡ s → trim_right (before c s) ≡ before c s
unfolding trim_right
trim_right-before c String.[] h = elim (Bool-cases (is_space c)) [
  | inl e ↦ rw e refl
  | inr e ↦ rw e (rw e)
]
trim_right-before c (String.◌∷◌ d s) h = rw h

trim_right_idem : (s : String) → trim_right (trim_right s) ≡ trim_right s
unfolding trim_right
trim_right_idem String.[] = refl
trim_right_idem (String.◌∷◌ c s) = trim_right-before c (trim_right s) (trim_right_idem s)

-- The text is empty or begins with no space.
abbrev is_flush : String → Bool
is_flush String.[] = true
is_flush (String.◌∷◌ c s) = not (is_space c)

is_flush-trim_left : (s : String) → is_flush (trim_left s) ≡ true
unfolding trim_left
is_flush-trim_left String.[] = refl
is_flush-trim_left (String.◌∷◌ c s) = elim (Bool-cases (is_space c)) [
  | inl e ↦ rw e (is_flush-trim_left s)
  | inr e ↦ rw e (rw e)
]

trim_left-of_flush : (s : String) → is_flush s ≡ true → trim_left s ≡ s
unfolding trim_left
trim_left-of_flush String.[] h = refl
trim_left-of_flush (String.◌∷◌ c s) h = elim (Bool-cases (is_space c)) [
  | inl e ↦ absurd (cc (ap not e))
  | inr e ↦ rw e
]

is_flush-before : (c : Char) (s : String) → is_space c ≡ false → is_flush (before c s) ≡ true
unfolding before
is_flush-before c String.[] h = rw h (rw h)
is_flush-before c (String.◌∷◌ d s) h = rw h

is_flush-trim_right : (s : String) → is_flush s ≡ true → is_flush (trim_right s) ≡ true
unfolding trim_right
is_flush-trim_right String.[] h = refl
is_flush-trim_right (String.◌∷◌ c s) h =
    is_flush-before c (trim_right s)
      (elim (Bool-cases (is_space c)) [ inl e ↦ absurd (cc (ap not e)) | inr e ↦ e ])

-- A trimmed text has nothing left to trim.
pub trim_space_idem : (s : String) → trim_space (trim_space s) ≡ trim_space s
unfolding trim_space
trim_space_idem s =
    let t = trim_left s in
    ap trim_right (trim_left-of_flush (trim_right t) (is_flush-trim_right t (is_flush-trim_left s)))
    ∙ trim_right_idem t
