-- ===== src/Json5/Blanks.antt =====
-- Texts of which some bytes are blanked.
use v2b_x.Base.{ℕ, zero, suc, ◌≡◌, ◌⊎◌, inl, inr, refl, [], ◌∷◌, Bytes, length, arith}
use v2b_x.Json5.{blank}

-- The second text is the first one with some bytes replaced by blanks.
abbrev pub AreBlanked : Bytes → Bytes → Type 0
AreBlanked [] [] = Unit
AreBlanked [] (_ ∷ _) = ⊥
AreBlanked (_ ∷ _) [] = ⊥
AreBlanked (a ∷ s) (b ∷ t) = ((b ≡ a) ⊎ (b ≡ b' ')) × AreBlanked s t

pub AreBlanked-refl : (s : Bytes) → AreBlanked s s
AreBlanked-refl [] = tt
AreBlanked-refl (c ∷ s) = (inl refl, AreBlanked-refl s)

pub AreBlanked-blank : (i : ℕ) (s t : Bytes) → AreBlanked s t → AreBlanked s (blank i t)
unfolding blank
AreBlanked-blank i [] [] h = tt
AreBlanked-blank i [] (b ∷ t) h = absurd h
AreBlanked-blank zero (a ∷ s) [] h = absurd h
AreBlanked-blank (suc i) (a ∷ s) [] h = absurd h
AreBlanked-blank zero (a ∷ s) (b ∷ t) h = (inr refl, h.1)
AreBlanked-blank (suc i) (a ∷ s) (b ∷ t) h = (h.0, AreBlanked-blank i s t h.1)

pub length-AreBlanked : (s t : Bytes) → AreBlanked s t → length t ≡ length s
length-AreBlanked [] [] h = refl
length-AreBlanked [] (b ∷ t) h = absurd h
length-AreBlanked (a ∷ s) [] h = absurd h
length-AreBlanked (a ∷ s) (b ∷ t) h = omega (arith, length-AreBlanked s t h.1)
