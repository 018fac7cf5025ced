-- ===== src/Base/Int.antt =====
-- Go's int64: signed integers under the library's names, with wrap-around written out.
use Prim.Native.Nat.{ℕ, suc, ◌+◌, ◌-◌, ◌%◌, ◌≤◌}
use mathlib.Core.Path.{◌≡◌}
use mathlib.Core.Bool.{Bool}
use mathlib.Core.Logic.{◌↔◌}
use native.Mathlib.Omega.{arith}
use v2b_x.Base.Tests.{ltb, leb, ◌==◌, if◌then◌else◌}

-- `negsuc n` is -(n + 1).
pub data ℤ : Type 0 where
  pos : ℕ → ℤ
  negsuc : ℕ → ℤ

abbrev pub pos_part : ℤ → ℕ
pos_part (pos n) = n
pos_part (negsuc n) = 0

abbrev pub neg_part : ℤ → ℕ
neg_part (pos n) = 0
neg_part (negsuc n) = suc n

abbrev pub ltb_ℤ : ℤ → ℤ → Bool
ltb_ℤ a b = ltb (pos_part a + neg_part b) (pos_part b + neg_part a)

abbrev pub leb_ℤ : ℤ → ℤ → Bool
leb_ℤ a b = leb (pos_part a + neg_part b) (pos_part b + neg_part a)

abbrev pub eqb_ℤ : ℤ → ℤ → Bool
eqb_ℤ a b = pos_part a + neg_part b == pos_part b + neg_part a

pub eqb_ℤ_iff : (a b : ℤ) → (eqb_ℤ a b ≡ Bool.true) ↔ (a ≡ b)
eqb_ℤ_iff a b = ground arith

abbrev pub max_int64 : ℕ
max_int64 = 9223372036854775807

abbrev pub word64 : ℕ
word64 = 18446744073709551616

-- The int64 with the given bit pattern.
abbrev pub of_word : ℕ → ℤ
of_word n = if leb n max_int64 then pos n else negsuc (word64 - n - 1)

-- The bit pattern of an int64.
abbrev pub to_word : ℤ → ℕ
to_word (pos n) = n
to_word (negsuc n) = word64 - 1 - n

-- a + b and a - b on int64.
unfoldable pub add64 : ℤ → ℤ → ℤ
add64 a b = of_word ((to_word a + to_word b) % word64)

unfoldable pub sub64 : ℤ → ℤ → ℤ
sub64 a b = of_word ((to_word a + (word64 - to_word b)) % word64)

pub add64_exact : (a b : ℕ) → a + b ≤ max_int64 → add64 (pos a) (pos b) ≡ pos (a + b)
unfolding add64
add64_exact a b h = ground arith

pub sub64_exact : (a b : ℕ) → b ≤ a → a ≤ max_int64 → sub64 (pos a) (pos b) ≡ pos (a - b)
unfolding sub64
sub64_exact a b h k = ground arith

pub add64_range : (a b : ℤ) → pos_part (add64 a b) ≤ max_int64
unfolding add64
add64_range a b = ground arith
