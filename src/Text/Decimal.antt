-- ===== src/Text/Decimal.antt =====
-- `%d`, `%020d` (fmt) and `strconv.Itoa`: decimal text, and reading it back.
use Prim.Native.Char.{code}
use Prim.Native.String.{String}
use v2b_x.Base.{
  ℕ, zero, suc, ◌+◌, ◌-◌, ◌*◌, ◌/◌, ◌%◌, ◌≤◌, ◌<◌, ◌≡◌, refl, ◌∙◌, ap, [], ◌∷◌, ◌++◌, arith, ◌==◌,
  if◌then◌else◌, Bytes, length, All, Bool-cases, inl, inr,
}
use v2b_x.Base.Int.{ℤ, pos, negsuc}

-- The bytes of an ASCII literal.
abbrev pub codes : String → Bytes
codes String.[] = []
codes (String.◌∷◌ c s) = code c ∷ codes s

abbrev pub newline : ℕ
newline = 10

abbrev pub colon : ℕ
colon = b':'

-- The digits of `n` before `acc`; the fuel is more than the number of digits.
unfoldable pub decimal_onto : ℕ → ℕ → Bytes → Bytes
decimal_onto zero n acc = acc
decimal_onto (suc f) n acc =
    let rest = decimal_onto f (n / 10) ((48 + n % 10) ∷ acc) in
    if n / 10 == 0 then (48 + n % 10) ∷ acc else rest

unfoldable pub decimal : ℕ → Bytes
unfolding decimal_onto
decimal n = decimal_onto (suc n) n []

unfoldable pub zeros : ℕ → Bytes
zeros zero = []
zeros (suc n) = 48 ∷ zeros n

-- `%0<w>d` of a number that is not negative.
unfoldable pub padded : ℕ → ℕ → Bytes
unfolding zeros decimal
padded w n = zeros (w - length (decimal n)) ++ decimal n

-- `%d` and `%020d`. The sign counts in the width.
unfoldable pub show_int : ℤ → Bytes
unfolding decimal
show_int (pos n) = decimal n
show_int (negsuc n) = b'-' ∷ decimal (suc n)

unfoldable pub show_int20 : ℤ → Bytes
unfolding padded
show_int20 (pos n) = padded 20 n
show_int20 (negsuc n) = b'-' ∷ padded 19 (suc n)

-- The number that decimal digits stand for, after those read so far.
abbrev pub read_from : ℕ → Bytes → ℕ
read_from acc [] = acc
read_from acc (d ∷ ds) = read_from (acc * 10 + (d - 48)) ds

abbrev pub IsDigit : ℕ → Type 0
IsDigit d = (48 ≤ d) × (d ≤ 57)

digits_onto : (f n : ℕ) (acc : Bytes) → All IsDigit acc → All IsDigit (decimal_onto f n acc)
unfolding decimal_onto
digits_onto zero n acc h = h
digits_onto (suc f) n acc h = ground (arith, digits_onto f (n / 10) ((48 + n % 10) ∷ acc))

read-decimal_onto :
    (f n : ℕ) (acc : Bytes) → n < f → read_from 0 (decimal_onto f n acc) ≡ read_from n acc
unfolding decimal_onto
read-decimal_onto zero n acc h = absurd (omega arith)
read-decimal_onto (suc f) n acc h = elim (Bool-cases (n / 10 == 0)) [
  | inl last ↦ rw last (ap (λ (k : ℕ). read_from k acc) (ground arith))
  | inr more ↦ rw more (
      read-decimal_onto f (n / 10) ((48 + n % 10) ∷ acc) (ground arith)
      ∙ ap (λ (k : ℕ). read_from k acc) (omega arith))
]

-- Reading a printed number gives it back: the fuel of `decimal` is enough, and `decimal` is
-- injective.
pub read-decimal : (n : ℕ) → read_from 0 (decimal n) ≡ n
unfolding decimal
read-decimal n = read-decimal_onto (suc n) n [] (omega arith)

pub decimal-digits : (n : ℕ) → All IsDigit (decimal n)
unfolding decimal
decimal-digits n = digits_onto (suc n) n [] tt

read-zeros : (k : ℕ) (ds : Bytes) → read_from 0 (zeros k ++ ds) ≡ read_from 0 ds
unfolding zeros
read-zeros zero ds = refl
read-zeros (suc k) ds = read-zeros k ds

pub read-padded : (w n : ℕ) → read_from 0 (padded w n) ≡ n
unfolding padded
read-padded w n = read-zeros (w - length (decimal n)) (decimal n) ∙ read-decimal n

zeros-digits : (k : ℕ) (ds : Bytes) → All IsDigit ds → All IsDigit (zeros k ++ ds)
unfolding zeros
zeros-digits zero ds h = h
zeros-digits (suc k) ds h = (omega arith, zeros-digits k ds h)

pub padded-digits : (w n : ℕ) → All IsDigit (padded w n)
unfolding padded
padded-digits w n = zeros-digits (w - length (decimal n)) (decimal n) (decimal-digits n)

-- Two texts whose heads are digits and that go on with one separator which is no digit: the heads
-- agree, and so do the rests.
pub digits_split :
    (c : ℕ) (ds es s t : Bytes)
    → ¬ IsDigit c
    → All IsDigit ds
    → All IsDigit es
    → ds ++ c ∷ s ≡ es ++ c ∷ t
    → (ds ≡ es) × (s ≡ t)
digits_split c [] [] s t n hd he e = (refl, cc)
digits_split c [] (x ∷ es) s t n hd he e = absurd (n (ground arith))
digits_split c (d ∷ ds) [] s t n hd he e = absurd (n (ground arith))
digits_split c (d ∷ ds) (x ∷ es) s t n hd he e =
    ground (arith, digits_split c ds es s t n hd.1 he.1)
