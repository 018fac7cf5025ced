-- ===== src/Text/Order.antt =====
-- Go's `<` on strings: byte by byte, a proper prefix first.
use v2b_x.Base.{◌≡◌, refl, Bool, true, false, ◌&&◌, ◌||◌, [], ◌∷◌, arith, ltb, ◌==◌, Bytes}

unfoldable pub bytes_lt : Bytes → Bytes → Bool
bytes_lt [] [] = false
bytes_lt [] (b ∷ t) = true
bytes_lt (a ∷ s) [] = false
bytes_lt (a ∷ s) (b ∷ t) = ltb a b || (a == b && bytes_lt s t)

pub bytes_lt_irrefl : (s : Bytes) → bytes_lt s s ≡ false
unfolding bytes_lt
bytes_lt_irrefl [] = refl
bytes_lt_irrefl (a ∷ s) = ground (arith, bytes_lt_irrefl s)

pub bytes_lt_trans :
    (s t u : Bytes) → bytes_lt s t ≡ true → bytes_lt t u ≡ true → bytes_lt s u ≡ true
unfolding bytes_lt
bytes_lt_trans [] [] u h k = cc
bytes_lt_trans [] (b ∷ t) [] h k = cc
bytes_lt_trans [] (b ∷ t) (c ∷ u) h k = refl
bytes_lt_trans (a ∷ s) [] u h k = cc
bytes_lt_trans (a ∷ s) (b ∷ t) [] h k = cc
bytes_lt_trans (a ∷ s) (b ∷ t) (c ∷ u) h k = ground (arith, bytes_lt_trans s t u)

-- Two strings of which neither is less are equal.
pub bytes_lt_connex : (s t : Bytes) → bytes_lt s t ≡ false → bytes_lt t s ≡ false → s ≡ t
unfolding bytes_lt
bytes_lt_connex [] [] h k = refl
bytes_lt_connex [] (b ∷ t) h k = cc
bytes_lt_connex (a ∷ s) [] h k = cc
bytes_lt_connex (a ∷ s) (b ∷ t) h k = ground (arith, bytes_lt_connex s t)

pub bytes_lt_of_not :
    (s t u : Bytes) → bytes_lt s u ≡ true → bytes_lt t u ≡ false → bytes_lt s t ≡ true
unfolding bytes_lt
bytes_lt_of_not [] [] u h k = cc
bytes_lt_of_not [] (b ∷ t) u h k = refl
bytes_lt_of_not (a ∷ s) t [] h k = cc
bytes_lt_of_not (a ∷ s) [] (c ∷ u) h k = cc
bytes_lt_of_not (a ∷ s) (b ∷ t) (c ∷ u) h k = ground (arith, bytes_lt_of_not s t u)
