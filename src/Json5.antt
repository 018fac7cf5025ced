-- ===== src/Json5.antt =====
-- The cleaning of a configuration file (common/json5/json5.go): `prep` overwrites comments and trailing
-- commas in place. A loop runs on fuel, and `none` is a loop that runs out of it. The reader that
-- `prep` reads all bytes from is left out, and `byte_at` is read within the text only.
pub mod Blanks
pub mod Total
use v2b_x.Base.{
  ℕ, zero, suc, ◌+◌, ◌-◌, ◌≡◌, Bool, true, false, ◌&&◌, ◌||◌, not, Option, none, some, List, [],
  ◌∷◌, Bytes, ◌==◌, ltb, if◌then◌else◌, length,
}

-- A position in a text that is changed.
pub record Cursor : Type 0 where
  pub text : Bytes
  pub at : ℕ

abbrev pub byte_at : ℕ → Bytes → ℕ
byte_at i [] = 0
byte_at zero (c ∷ s) = c
byte_at (suc i) (c ∷ s) = byte_at i s

-- `s[i] = ' '`
unfoldable pub blank : ℕ → Bytes → Bytes
blank i [] = []
blank zero (c ∷ s) = b' ' ∷ s
blank (suc i) (c ∷ s) = c ∷ blank i s

abbrev pub is_nl : ℕ → Bool
is_nl c = c == b'\n' || c == b'\r'

abbrev pub is_ws : ℕ → Bool
is_ws c = c == b' ' || c == b'\t' || is_nl c

-- The byte at the position is there and is the given one.
abbrev pub reads : ℕ → Bytes → ℕ → Bool
reads i s c = ltb i (length s) && byte_at i s == c

-- The loop over a line comment.
unfoldable pub blank_line : ℕ → Bytes → ℕ → Option Cursor
unfolding blank
blank_line zero s i = none
blank_line (suc n) s i =
    let rest = blank_line n (blank i s) (i + 1) in
    if ltb i (length s) && not (is_nl (byte_at i s))
    then rest
    else some (record { text = s; at = i })

-- The loop over a block comment: behind a `*` it looks at one byte, and goes on behind that.
unfoldable pub blank_block : ℕ → Bytes → ℕ → Option Cursor
unfolding blank
blank_block zero s i = none
blank_block (suc n) s i =
    let next = blank_block n (blank i s) (i + 1) in
    let skip = blank_block n (blank i s) (i + 2) in
    if not (ltb i (length s))
    then some (record { text = s; at = i })
    else if not (byte_at i s == b'*')
    then next
    else if reads (i + 1) s b'/'
    then some (record { text = blank (i + 1) (blank i s); at = i + 1 })
    else skip

unfoldable pub and_then : Option Cursor → (Cursor → Option Cursor) → Option Cursor
and_then none f = none
and_then (some c) f = f c

unfoldable pub line_comment : Bytes → ℕ → Option Cursor
unfolding blank_line
line_comment s i =
    if reads i s b'/'
    then blank_line (suc (length s)) (blank (i - 1) s) i
    else some (record { text = s; at = i })

unfoldable pub block_comment : Cursor → Option Cursor
unfolding blank_block
block_comment c =
    if reads c.at c.text b'*'
    then blank_block (suc (length c.text)) (blank c.at (blank (c.at - 1) c.text)) c.at
    else some c

-- `consumeComment`
unfoldable pub consume_comment : Bytes → ℕ → Option Cursor
unfolding line_comment block_comment and_then
consume_comment s i = and_then (line_comment s i) block_comment

-- The loop over a string, from behind its first quote.
unfoldable pub read_string : ℕ → Bytes → ℕ → Option Cursor
read_string zero s i = none
read_string (suc n) s i =
    let escaped = read_string n s (i + 2) in
    let next = read_string n s (i + 1) in
    if not (ltb i (length s))
    then some (record { text = s; at = i })
    else if byte_at i s == b'"'
    then some (record { text = s; at = i + 1 })
    else if byte_at i s == b'\\'
    then escaped
    else next

-- The loop behind a comma at `j`, with the last position `i`.
unfoldable pub read_comma : ℕ → ℕ → Bytes → ℕ → Option Cursor
unfolding consume_comment
read_comma zero j s i = none
read_comma (suc n) j s i =
    let comment = and_then (consume_comment s (i + 2)) (λ c. read_comma n j c.text c.at) in
    let next = read_comma n j s (i + 1) in
    if not (ltb (i + 1) (length s))
    then some (record { text = s; at = i + 1 })
    else if byte_at (i + 1) s == b'}' || byte_at (i + 1) s == b']'
    then some (record { text = blank j s; at = i + 1 })
    else if byte_at (i + 1) s == b'/'
    then comment
    else if not (is_ws (byte_at (i + 1) s))
    then some (record { text = s; at = i + 1 })
    else next

-- The cases of the outer loop, at a byte of the text.
unfoldable pub turn : Bytes → ℕ → Option Cursor
unfolding read_string consume_comment read_comma
turn s i =
    if byte_at i s == b'"'
    then read_string (suc (length s)) s (i + 1)
    else if byte_at i s == b'/'
    then consume_comment s (i + 1)
    else if byte_at i s == b','
    then read_comma (suc (length s)) i s i
    else some (record { text = s; at = i + 1 })

unfoldable pub turns : ℕ → Bytes → ℕ → Option Cursor
unfolding turn
turns zero s i = none
turns (suc n) s i =
    let rest = and_then (turn s i) (λ c. turns n c.text c.at) in
    if ltb i (length s) then rest else some (record { text = s; at = i })

-- `prep`
unfoldable pub prep : Bytes → Option Cursor
unfolding turns
prep s = turns (suc (length s)) s 0
