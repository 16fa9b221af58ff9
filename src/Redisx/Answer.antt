-- ===== src/Redisx/Answer.antt =====
-- internal/redisx/client.go: the replies of `Do` with their strings as texts, as the Redis storage
-- and the Redis queue read them: `String` and `Int`, and the test for an array. Of an array those
-- read only the items that are strings; any other item reads as the empty text, as in `String`.
use chroma_flow.Base.{String, List, [], ℤ, pos}
use chroma_flow.Queue.Types.{Result}
use chroma_flow.Redisx.Strconv.{atoi_or_zero}

pub data Answer : Type 0 where
  nothing : Answer
  string : String → Answer
  integer : ℤ → Answer
  strings : List String → Answer

-- `Do`, over the states of the server and of the connection to it.
abbrev pub Do : Type 0 → Type 0
Do R = List String → R → Result Answer × R

-- `String`.
abbrev pub string_of : Answer → String
string_of (string s) = s
string_of _ = ""

-- `Int`.
unfoldable pub int_of : Answer → ℤ
int_of (integer n) = n
int_of (string s) = atoi_or_zero s
int_of nothing = pos 0
int_of (strings xs) = pos 0

-- `arr, _ := v.([]any)`.
abbrev pub array_of : Answer → List String
array_of (strings xs) = xs
array_of _ = []
