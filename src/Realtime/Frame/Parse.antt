-- ===== src/Realtime/Frame/Parse.antt =====
-- internal/realtime/hub.go: the frames against RFC 6455, section 5.2, read as a client does: one
-- final, unmasked text frame whose payload length is in its second byte, or in the two or the
-- eight bytes after it, in the shortest of these forms that holds it: a frame whose length is in a
-- longer form is refused.
use mathlib.Core.List.{append_assoc}
use native.Mathlib.Nat.{pow-suc}
use chroma_flow.Base.{
  ℕ, zero, suc, ◌+◌, ◌*◌, ◌/◌, ◌%◌, ◌^◌, ◌<◌, ◌≡◌, refl, true, false, Option, none, some, List, [],
  ◌∷◌, ◌++◌, length, take, drop, eqb, ltb, leb, if◌then◌else◌, arith, Bool-cases, inl, inr, ap,
  length-append,
}
use chroma_flow.Realtime.Frame.{big_endian, frame_header, text_frame}

-- The number of the next bytes, the highest first, and what follows them.
pub from_big_endian : ℕ → ℕ → List ℕ → Option (ℕ × List ℕ)
from_big_endian zero acc bs = some (acc, bs)
from_big_endian (suc width) acc [] = none
from_big_endian (suc width) acc (b ∷ bs) = from_big_endian width (acc * 256 + b) bs

payload_of : Option (ℕ × List ℕ) → Option (List ℕ × List ℕ)
payload_of none = none
payload_of (some (n, bs)) = if ltb (length bs) n then none else some (take n bs, drop n bs)

-- A length above `least`, which is the largest that the shorter form holds.
at_least : ℕ → Option (ℕ × List ℕ) → Option (ℕ × List ℕ)
at_least least none = none
at_least least (some (n, bs)) = if ltb least n then some (n, bs) else none

-- The payload of a text frame, and what follows the frame.
pub parse_frame : List ℕ → Option (List ℕ × List ℕ)
parse_frame [] = none
parse_frame (b ∷ []) = none
parse_frame (b ∷ n ∷ bs) =
    if eqb b 0x81
    then (if leb n 125
        then payload_of (some (n, bs))
        else if eqb n 126
        then payload_of (at_least 125 (from_big_endian 2 0 bs))
        else if eqb n 127
        then payload_of (at_least 65535 (from_big_endian 8 0 bs))
        else none)
    else none

read_u16 :
    (n : ℕ) (rest : List ℕ)
    → n < 2 ^ 16
    → from_big_endian 2 0 (big_endian 2 n ++ rest) ≡ some (n, rest)
unfolding from_big_endian big_endian
read_u16 n rest h =
    let e : (0 * 256 + n / 256 % 256) * 256 + n % 256 ≡ n = omega arith in
    ap (λ (k : ℕ). some (k, rest)) e

-- The eight bytes of a number, put together again.
bytes_sum : ℕ → ℕ → ℕ
bytes_sum zero n = 0
bytes_sum (suc width) n = bytes_sum width (n / 256) * 256 + n % 256

bytes_sum-eq : (width n : ℕ) → n < 256 ^ width → bytes_sum width n ≡ n
unfolding bytes_sum
bytes_sum-eq zero n h = omega arith
bytes_sum-eq (suc width) n h =
    let small : n / 256 < 256 ^ width = ground (arith, pow-suc 256 width) in
    omega (arith, bytes_sum-eq width (n / 256) small)

read_u64 :
    (n : ℕ) (rest : List ℕ)
    → n < 2 ^ 64
    → from_big_endian 8 0 (big_endian 8 n ++ rest) ≡ some (n, rest)
unfolding from_big_endian big_endian bytes_sum
read_u64 n rest h = ap (λ (k : ℕ). some (k, rest)) (bytes_sum-eq 8 n h)

take-length : (xs ys : List ℕ) → take (length xs) (xs ++ ys) ≡ xs
take-length [] [] = refl
take-length [] (y ∷ ys) = refl
take-length (x ∷ xs) ys = ap (λ zs. x ∷ zs) (take-length xs ys)

drop-length : (xs ys : List ℕ) → drop (length xs) (xs ++ ys) ≡ ys
drop-length [] ys = refl
drop-length (x ∷ xs) ys = drop-length xs ys

payload_of-append :
    (payload rest : List ℕ)
    → payload_of (some (length payload, payload ++ rest)) ≡ some (payload, rest)
unfolding payload_of
payload_of-append payload rest =
    let enough : ltb (length (payload ++ rest)) (length payload) ≡ false =
      ground (arith, length-append payload rest) in
    rw enough (rw (take-length payload rest, drop-length payload rest))

short_mod : (n : ℕ) → leb n 125 ≡ true → n % 256 ≡ n
short_mod n h = ground arith

middle_mod : (n : ℕ) → leb n 65535 ≡ true → n % 2 ^ 16 ≡ n
middle_mod n h = ground arith

long_mod : (n : ℕ) → n < 2 ^ 63 → n % 2 ^ 64 ≡ n
long_mod n h = omega arith

long_enough : (least n : ℕ) → leb n least ≡ false → ltb least n ≡ true
long_enough least n h = ground arith

-- A frame's bytes, followed by anything, parse to its payload and what follows, for every length
-- that Go can give a slice. The parser takes a length only in the shortest of the three forms that
-- holds it.
pub parse_frame-text_frame :
    (payload rest : List ℕ)
    → length payload < 2 ^ 63
    → parse_frame (text_frame payload ++ rest) ≡ some (payload, rest)
unfolding parse_frame text_frame frame_header at_least
parse_frame-text_frame payload rest h = elim (Bool-cases (leb (length payload) 125)) [
  | inl short ↦
      rw short (rw (short_mod (length payload) short) (rw short (payload_of-append payload rest)))
  | inr more ↦ rw more (elim (Bool-cases (leb (length payload) 65535)) [
    | inl middle ↦
        let small : length payload < 2 ^ 16 = ground arith in
        rw middle (
          rw (middle_mod (length payload) middle) (
            rw (append_assoc (big_endian 2 (length payload)) payload rest) (
              rw (read_u16 (length payload) (payload ++ rest) small)
                (rw (long_enough 125 (length payload) more) (payload_of-append payload rest)))))
    | inr long ↦
        let small : length payload < 2 ^ 64 = omega arith in
        rw long (
          rw (long_mod (length payload) h) (
            rw (append_assoc (big_endian 8 (length payload)) payload rest) (
              rw (read_u64 (length payload) (payload ++ rest) small)
                (rw (long_enough 65535 (length payload) long) (payload_of-append payload rest)))))
  ])
]
