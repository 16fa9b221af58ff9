-- ===== src/Blob/S3/Paths.antt =====
-- internal/blob/s3.go: the paths of objects. A key is its parts between slashes; its path escapes
-- each of them.
use Prim.Native.Char.{Char, code}
use text.Mathlib.TextEquality.{Char-path}
use text.Mathlib.TextLemmas.{nil-append, cons-append, append-nil}
use chroma_flow.Base.{
  String, cat, ◌≡◌, refl, sym, ap, ◌∙◌, Bool, false, List, [], ◌∷◌, map, eqb, Bool-cases, inl, inr,
  arith,
}
use chroma_flow.Blob.S3.{trim_slashes, split_slashes, joined, path_escape_object}

-- Some texts with a separator between them.
abbrev pub between : String → List String → String
between separator [] = ""
between separator (t ∷ []) = t
between separator (t ∷ u ∷ us) = cat t (cat separator (between separator (u ∷ us)))

-- The parts of a key.
unfoldable pub parts_of : String → List String
unfolding split_slashes
parts_of key = let (part, parts) = split_slashes key in part ∷ parts

-- A key that does not begin with a slash, as no key of the source does.
abbrev pub IsRelative : String → Type 0
IsRelative key = begins_with_slash key ≡ false
  where
    begins_with_slash : String → Bool
    begins_with_slash String.[] = false
    begins_with_slash (String.◌∷◌ c s) = eqb (code c) b'/'

pub trim_slashes-relative : (key : String) → IsRelative key → trim_slashes key ≡ key
unfolding trim_slashes
trim_slashes-relative String.[] h = refl
trim_slashes-relative (String.◌∷◌ c s) h = rw h refl

between-cons :
    (c : Char) (t : String) (ts : List String)
    → between "/" (String.◌∷◌ c t ∷ ts) ≡ String.◌∷◌ c (between "/" (t ∷ ts))
between-cons c t [] = refl
between-cons c t (u ∷ us) = cons-append c t (cat "/" (between "/" (u ∷ us)))

slash-cons : (s : String) → cat "/" s ≡ String.◌∷◌ "/" s
slash-cons s = cons-append "/" String.[] s ∙ ap (λ t. String.◌∷◌ "/" t) (nil-append s)

pub between-parts_of : (key : String) → between "/" (parts_of key) ≡ key
unfolding split_slashes parts_of
between-parts_of String.[] = refl
between-parts_of (String.◌∷◌ c s) = elim (Bool-cases (eqb (code c) b'/')) [
  | inl e ↦ rw e (
      nil-append (cat "/" (between "/" (parts_of s)))
      ∙ ap (λ t. cat "/" t) (between-parts_of s)
      ∙ slash-cons s
      ∙ ap (λ d. String.◌∷◌ d s) (sym (Char-path c "/" (ground arith))))
  | inr e ↦ rw e (
      between-cons c (split_slashes s).0 (split_slashes s).1
      ∙ ap (λ t. String.◌∷◌ c t) (between-parts_of s))
]

joined-between :
    (escape : String → String) (part : String) (parts : List String)
    → cat (escape part) (joined escape parts) ≡ between "/" (map escape (part ∷ parts))
unfolding joined
joined-between escape part [] = append-nil (escape part)
joined-between escape part (p ∷ ps) =
    ap (λ t. cat (escape part) (cat "/" t)) (joined-between escape p ps)

pub path_escape_object-between :
    (escape : String → String) (key : String)
    → path_escape_object escape key ≡ between "/" (map escape (parts_of key))
unfolding path_escape_object parts_of
path_escape_object-between escape key =
    joined-between escape (split_slashes key).0 (split_slashes key).1
