-- ===== src/Redisx/Resp.antt =====
-- internal/redisx/client.go: the wire format, `writeCommand` and `readRESP`, and the accessors
-- `String` and `Int`. What `bufio.Reader` still has to deliver, up to the end of the connection,
-- is a list of bytes. The recursion of `readRESP` takes fuel, which bounds its depth. `make`
-- panics at a length above Go's largest allocation, `max_alloc`; a smaller one is taken to find its
-- memory.
pub mod Lines
pub mod RoundTrip
pub mod Fuel
use chroma_flow.Base.{
  ℕ, zero, suc, ◌+◌, ◌*◌, ◌^◌, Bool, true, false, Option, none, some, List, [], ◌∷◌, ◌++◌, length,
  take, drop, eqb, ltb, if◌then◌else◌, ℤ, pos, negsuc,
}
use chroma_flow.Redisx.Decimal.{itoa, atoi, Parsed, fine, out_of_range, malformed}

pub data RespError : Type 0 where
  -- the connection ends too early
  eof : RespError
  -- an error reply, with its line
  server : List ℕ → RespError
  -- a line that is no integer, or none of 64 bits
  bad_integer : List ℕ → RespError
  unknown_prefix : ℕ → RespError
  -- no error of the source: the model's recursion has run out of fuel
  out_of_fuel : RespError

-- The replies: Go's nil, string, int64 and []any.
mutual
  pub data Value : Type 0 where
    nothing : Value
    str : List ℕ → Value
    int : ℤ → Value
    arr : Values → Value

  pub data Values : Type 0 where
    nil : Values
    cons : Value → Values → Values

-- What is read, with the bytes after it.
pub data Read (A : Type 0) : Type 0 where
  got : A → List ℕ → Read A
  failed : RespError → Read A
  -- `make` panics
  panics : Read A

abbrev pub crlf : List ℕ
crlf = 13 ∷ 10 ∷ []

write_args : List (List ℕ) → List ℕ
write_args [] = []
write_args (arg ∷ args) = (b'$' ∷ (itoa (length arg) ++ crlf)) ++ ((arg ++ crlf) ++ write_args args)

-- `writeCommand`: the bytes that it writes, where no write fails.
unfoldable pub write_command : List (List ℕ) → List ℕ
unfolding write_args
write_command args = (b'*' ∷ (itoa (length args) ++ crlf)) ++ write_args args

-- `strings.TrimSuffix(line, "\r")`.
unfoldable pub strip_cr : List ℕ → List ℕ
strip_cr [] = []
strip_cr (c ∷ []) = if eqb c 13 then [] else c ∷ []
strip_cr (c ∷ d ∷ cs) = c ∷ strip_cr (d ∷ cs)

with_byte : ℕ → Option (List ℕ × List ℕ) → Option (List ℕ × List ℕ)
with_byte c none = none
with_byte c (some (line, rest)) = some (c ∷ line, rest)

-- `r.ReadString('\n')` without its newline, and the bytes after it.
unfoldable pub until_newline : List ℕ → Option (List ℕ × List ℕ)
unfolding with_byte
until_newline [] = none
until_newline (c ∷ cs) =
    let more = with_byte c (until_newline cs) in if eqb c 10 then some ([], cs) else more

-- The bytes of the largest allocation on a 64-bit machine; `n + 2` above 2 ^ 63 - 1, where the
-- addition overflows, is above it too.
abbrev pub max_alloc : ℕ
max_alloc = 2 ^ 48

-- `make([]byte, n+2)`, and `io.ReadFull` of the body and its two final bytes.
pub read_bulk : ℕ → List ℕ → Read Value
read_bulk n bs =
    if ltb max_alloc (n + 2)
    then panics
    else if ltb (length bs) (n + 2)
    then failed eof
    else got (str (take n bs)) (drop (n + 2) bs)

-- The value before the values that a reader of the rest delivers.
with_value : Value → Read Values → Read Values
with_value v (got vs bs) = got (cons v vs) bs
with_value v (failed e) = failed e
with_value v panics = panics

and_more : (List ℕ → Read Values) → Read Value → Read Values
unfolding with_value
and_more read_rest (got v bs) = with_value v (read_rest bs)
and_more read_rest (failed e) = failed e
and_more read_rest panics = panics

-- The loop over the items of an array.
unfoldable pub read_items : (List ℕ → Read Value) → ℕ → List ℕ → Read Values
unfolding and_more
read_items read zero bs = got nil bs
read_items read (suc n) bs = and_more (read_items read n) (read bs)

as_array : Read Values → Read Value
as_array (got vs bs) = got (arr vs) bs
as_array (failed e) = failed e
as_array panics = panics

read_integer : List ℕ → Parsed → List ℕ → Read Value
read_integer line (fine n) bs = got (int n) bs
read_integer line _ bs = failed (bad_integer line)

read_string : List ℕ → Parsed → List ℕ → Read Value
unfolding read_bulk
read_string line (fine (negsuc n)) bs = got nothing bs
read_string line (fine (pos n)) bs = read_bulk n bs
read_string line _ bs = failed (bad_integer line)

-- `make([]any, n)`, of 16 bytes for each item, and the items.
read_array : (List ℕ → Read Value) → List ℕ → Parsed → List ℕ → Read Value
unfolding as_array read_items
read_array read line (fine (negsuc n)) bs = got nothing bs
read_array read line (fine (pos n)) bs =
    let items = as_array (read_items read n bs) in if ltb max_alloc (16 * n) then panics else items
read_array read line _ bs = failed (bad_integer line)

-- The `switch` on the prefix; `read` is the recursive call.
unfoldable pub read_line : (List ℕ → Read Value) → ℕ → List ℕ → List ℕ → Read Value
unfolding read_integer read_string read_array
read_line read prefix line bs =
    if eqb prefix b'+'
    then got (str line) bs
    else if eqb prefix b'-'
    then failed (server line)
    else if eqb prefix b':'
    then read_integer line (atoi line) bs
    else if eqb prefix b'$'
    then read_string line (atoi line) bs
    else if eqb prefix b'*'
    then read_array read line (atoi line) bs
    else failed (unknown_prefix prefix)

pub after_line : (List ℕ → Read Value) → ℕ → Option (List ℕ × List ℕ) → Read Value
unfolding read_line strip_cr
after_line read prefix none = failed eof
after_line read prefix (some (line, bs)) = read_line read prefix (strip_cr line) bs

-- `readRESP`.
unfoldable pub read_resp : ℕ → List ℕ → Read Value
unfolding after_line until_newline
read_resp zero bs = failed out_of_fuel
read_resp (suc fuel) [] = failed eof
read_resp (suc fuel) (prefix ∷ bs) = after_line (read_resp fuel) prefix (until_newline bs)

-- `String`.
unfoldable pub string_of : Value → List ℕ
string_of (str s) = s
string_of _ = []

-- `Int`, whose conversion to int changes nothing on a 64-bit machine. The error of `Atoi` is
-- dropped, and its value used: 0, or the nearest int64.
unfoldable pub int_of : Value → ℤ
int_of (int n) = n
int_of (str s) = elim (atoi s) [ fine n ↦ n | out_of_range n ↦ n | malformed ↦ pos 0 ]
int_of _ = pos 0
