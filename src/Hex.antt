-- ===== src/Hex.antt =====
-- msp/crypto.go and util/byteAndStringConv.go: bytes as hexadecimal text.
use mathlib.Core.Path.{ap₂}
use hnb_blockchain.Prelude.{
  ℕ, ◌+◌, ◌-◌, ◌*◌, ◌/◌, ◌%◌, ◌<◌, ◌≡◌, refl, [], ◌∷◌, ◌&&◌, arith, ltb, leb, ◌==◌, if◌then◌else◌,
}
use hnb_blockchain.Prelude.Bytes.{Bytes, codes}

-- One digit of `strconv.FormatInt(b, 16)`.
hex_digit : ℕ → ℕ
hex_digit d = if ltb d 10 then b'0' + d else b'a' + (d - 10)

-- `ByteToHex`: two digits for each byte.
unfoldable pub byte_to_hex : Bytes → Bytes
unfolding hex_digit
byte_to_hex [] = []
byte_to_hex (b ∷ bs) = hex_digit (b / 16) ∷ hex_digit (b % 16) ∷ byte_to_hex bs

-- `strconv.ParseInt(s, 16, 10)` gives 0 for a text that is not a number.
hex_value : ℕ → ℕ
hex_value c =
    if leb b'0' c && leb c b'9'
    then c - b'0'
    else if leb b'a' c && leb c b'f'
    then c - b'a' + 10
    else if leb b'A' c && leb c b'F'
    then c - b'A' + 10
    else 16

-- Two characters as one byte; `ParseInt` takes a sign in place of the first digit.
hex_pair : ℕ → ℕ → ℕ
unfolding hex_value
hex_pair c d =
    if leb 16 (hex_value d)
    then 0
    else if c == b'+'
    then hex_value d
    else if c == b'-'
    then (256 - hex_value d) % 256
    else if leb 16 (hex_value c)
    then 0
    else hex_value c * 16 + hex_value d

-- `HexToByte`: a last single character is dropped.
unfoldable pub hex_to_byte : Bytes → Bytes
unfolding hex_pair
hex_to_byte [] = []
hex_to_byte (c ∷ []) = []
hex_to_byte (c ∷ d ∷ s) = hex_pair c d ∷ hex_to_byte s

abbrev pub AreBytes : Bytes → Type 0
AreBytes [] = Unit {0}
AreBytes (b ∷ bs) = (b < 256) × AreBytes bs

pair_lem : (b : ℕ) → b < 256 → hex_pair (hex_digit (b / 16)) (hex_digit (b % 16)) ≡ b
unfolding hex_pair hex_digit
pair_lem b h = ground arith

-- The hexadecimal text of a string of bytes, each below 256, is read back as that string.
pub hex_to_byte-byte_to_hex : (bs : Bytes) → AreBytes bs → hex_to_byte (byte_to_hex bs) ≡ bs
unfolding hex_to_byte byte_to_hex
hex_to_byte-byte_to_hex [] h = refl
hex_to_byte-byte_to_hex (b ∷ bs) h =
    ap₂ ◌∷◌ (unfold hex_pair in pair_lem b h.0) (hex_to_byte-byte_to_hex bs h.1)

hex_example : byte_to_hex (0x0a ∷ 0xff ∷ []) ≡ codes "0aff"
unfolding byte_to_hex
hex_example = refl
