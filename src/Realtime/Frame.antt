-- ===== src/Realtime/Frame.antt =====
-- internal/realtime/hub.go: `writeTextFrame`. A payload is a list of bytes whose length is the
-- Go `len`, below 2 ^ 63.
pub mod Parse
use chroma_flow.Base.{
  ℕ, zero, suc, ◌+◌, ◌*◌, ◌/◌, ◌%◌, ◌^◌, List, [], ◌∷◌, ◌++◌, length, leb, if◌then◌else◌,
}

-- `binary.BigEndian.PutUint16` and `PutUint64`: so many bytes of a number, the highest first.
unfoldable pub big_endian : ℕ → ℕ → List ℕ
big_endian zero n = []
big_endian (suc width) n = big_endian width (n / 256) ++ n % 256 ∷ []

-- The conversions `byte(length)`, `uint16(length)` and `uint64(length)` cut off higher bits.
unfoldable pub frame_header : ℕ → List ℕ
frame_header length =
    if leb length 125
    then 0x81 ∷ length % 256 ∷ []
    else if leb length 65535
    then 0x81 ∷ 126 ∷ big_endian 2 (length % 2 ^ 16)
    else 0x81 ∷ 127 ∷ big_endian 8 (length % 2 ^ 64)

-- What `writeTextFrame` writes, where no write fails.
unfoldable pub text_frame : List ℕ → List ℕ
text_frame payload = frame_header (length payload) ++ payload
