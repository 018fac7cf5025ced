-- ===== src/Text/Hex.antt =====
-- encoding/hex: `DecodeString` reads digits of both cases, `EncodeToString` writes small letters.
use v2b_x.Base.{
  ℕ, ◌+◌, ◌-◌, ◌*◌, ◌/◌, ◌%◌, Bool, false, ◌&&◌, ◌||◌, Option, none, some, [], ◌∷◌, leb, ltb, ◌==◌,
  if◌then◌else◌, Bytes, length, bytes_eq,
}

-- The value of a hexadecimal digit.
unfoldable pub from_hex_digit : ℕ → Option ℕ
from_hex_digit c =
    if leb 48 c && leb c 57
    then some (c - 48)
    else if leb 97 c && leb c 102
    then some (c - 87)
    else if leb 65 c && leb c 70
    then some (c - 55)
    else none

unfoldable pub hex_digit : ℕ → ℕ
hex_digit v = if ltb v 10 then 48 + v else 87 + v

-- The byte of two digits, before the bytes that follow it.
unfoldable pub join_byte : Option ℕ → Option ℕ → Option Bytes → Option Bytes
join_byte (some hi) (some lo) (some r) = some ((hi * 16 + lo) ∷ r)
join_byte (some hi) (some lo) none = none
join_byte (some hi) none r = none
join_byte none lo r = none

-- `hex.DecodeString`; `none` for an odd length or a byte that is no digit.
unfoldable pub hex_decode : Bytes → Option Bytes
unfolding join_byte
hex_decode [] = some []
hex_decode (a ∷ []) = none
hex_decode (a ∷ b ∷ s) = join_byte (from_hex_digit a) (from_hex_digit b) (hex_decode s)

-- `hex.EncodeToString`
unfoldable pub hex_encode : Bytes → Bytes
hex_encode [] = []
hex_encode (b ∷ s) = hex_digit (b / 16) ∷ hex_digit (b % 16) ∷ hex_encode s

-- `validHex` of outbox.go
unfoldable pub valid_hex : Bytes → ℕ → Bool
valid_hex s n = elim (hex_decode s) [
  | none ↦ false
  | some b ↦ (length b == n) && bytes_eq (hex_encode b) s
]

-- A digit as `hex_encode` writes it: 0 to 9, or a small letter a to f.
abbrev pub is_lower_hex : ℕ → Bool
is_lower_hex c = (leb 48 c && leb c 57) || (leb 97 c && leb c 102)
