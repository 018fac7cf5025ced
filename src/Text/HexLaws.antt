-- ===== src/Text/HexLaws.antt =====
-- `validHex` accepts exactly the texts of `2 n` small hexadecimal digits.
use v2b_x.Base.{
  ℕ, ◌+◌, ◌-◌, ◌*◌, ◌/◌, ◌%◌, ◌<◌, ◌≡◌, refl, ◌↔◌, true, Option, none, some, [], ◌∷◌, arith, leb,
  Bytes, length, bytes_eq_iff, all, Bool-cases, Option-cases, inl, inr, All,
}
use v2b_x.Text.Hex.{
  join_byte, from_hex_digit, hex_digit, hex_decode, hex_encode, valid_hex, is_lower_hex,
}

digit_value :
    (c : ℕ)
    → is_lower_hex c ≡ true
    → (v : ℕ) × (from_hex_digit c ≡ some v) × (v < 16) × (hex_digit v ≡ c)
unfolding from_hex_digit hex_digit
digit_value c h = elim (Bool-cases (leb c 57)) [
  | inl p ↦ (c - 48, ground arith, ground arith, ground arith)
  | inr p ↦ (c - 87, ground arith, ground arith, ground arith)
]

digit_lower : (v : ℕ) → v < 16 → is_lower_hex (hex_digit v) ≡ true
unfolding hex_digit
digit_lower v h = ground arith

from_bound : (c v : ℕ) → from_hex_digit c ≡ some v → v < 16
unfolding from_hex_digit
from_bound c v h = ground arith

encode_lower : (b : Bytes) → All (λ x. x < 256) b → all is_lower_hex (hex_encode b) ≡ true
unfolding hex_encode
encode_lower [] h = refl
encode_lower (b ∷ s) h = ground (
  arith,
  digit_lower (b / 16) (omega arith),
  digit_lower (b % 16) (omega arith),
  encode_lower s h.1,
)

length-hex_encode : (b : Bytes) → length (hex_encode b) ≡ 2 * length b
unfolding hex_encode
length-hex_encode [] = refl
length-hex_encode (b ∷ s) = omega (arith, length-hex_encode s)

join_byte_inv :
    (x y : Option ℕ) (z : Option Bytes) (b : Bytes)
    → join_byte x y z ≡ some b
    → (hi : ℕ) × (lo : ℕ) × (r : Bytes) × (x ≡ some hi)
      × (y ≡ some lo)
      × (z ≡ some r)
      × (b ≡ (hi * 16 + lo) ∷ r)
unfolding join_byte
join_byte_inv (some hi) (some lo) (some r) b h = (hi, lo, r, refl, refl, refl, cc)
join_byte_inv (some hi) (some lo) none b h = absurd (cc)
join_byte_inv (some hi) none z b h = absurd (cc)
join_byte_inv none y z b h = absurd (cc)

decode_bytes : (s b : Bytes) → hex_decode s ≡ some b → All (λ x. x < 256) b
unfolding hex_decode
decode_bytes [] [] h = tt
decode_bytes [] (x ∷ b) h = absurd (cc)
decode_bytes (a ∷ []) b h = absurd (cc)
decode_bytes (a ∷ c ∷ s) b h =
    let (hi, lo, r, p, q, d, e) =
      join_byte_inv (from_hex_digit a) (from_hex_digit c) (hex_decode s) b h in
    rw e (omega (arith, from_bound a hi p, from_bound c lo q), decode_bytes s r d)

decode_lower :
    (s : Bytes) (n : ℕ)
    → length s ≡ 2 * n
    → all is_lower_hex s ≡ true
    → (b : Bytes) × (hex_decode s ≡ some b) × (length b ≡ n) × (hex_encode b ≡ s)
unfolding hex_decode hex_encode
decode_lower [] n h k = ([], refl, omega arith, refl)
decode_lower (a ∷ []) n h k = absurd (omega arith)
decode_lower (a ∷ c ∷ s) n h k =
    let (u, du, lu, eu) = digit_value a (ground arith) in
    let (v, dv, lv, ev) = digit_value c (ground arith) in
    let (b, db, lb, eb) = decode_lower s (n - 1) (omega arith) (ground arith) in
    let hi : (u * 16 + v) / 16 ≡ u = omega arith in
    let lo : (u * 16 + v) % 16 ≡ v = omega arith in
    ((u * 16 + v) ∷ b, ground arith, omega arith, rw (hi, lo, eu, ev, eb))

-- `validHex(s, n)` holds exactly of the texts of `2 n` small hexadecimal digits: capitals and odd
-- lengths are refused.
pub valid_hex_iff :
    (s : Bytes) (n : ℕ)
    → (valid_hex s n ≡ true) ↔ ((length s ≡ 2 * n) × (all is_lower_hex s ≡ true))
unfolding valid_hex
valid_hex_iff s n = (there, back)
  where
    there : valid_hex s n ≡ true → (length s ≡ 2 * n) × (all is_lower_hex s ≡ true)
    there h = elim (Option-cases (hex_decode s)) [
      | inl e ↦ absurd (ground arith)
      | inr (b, e) ↦
          let text : hex_encode b ≡ s = (bytes_eq_iff _ _).0 (ground arith) in
          let len : length b ≡ n = ground arith in
          (
            rw (← text) (omega (arith, length-hex_encode b)),
            rw (← text) (encode_lower b (decode_bytes s b e)),
          )
    ]

    back : (length s ≡ 2 * n) × (all is_lower_hex s ≡ true) → valid_hex s n ≡ true
    back h =
        let (b, db, lb, eb) = decode_lower s n h.0 h.1 in
        rw (db, valid_hex) (ground (arith, bytes_eq_iff (hex_encode b) s))
