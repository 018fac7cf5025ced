-- ===== src/Transfer/Samples/Keys.antt =====
-- The keys of the inventory tell identities apart.
use v2b_x.Base.{ℕ, ◌≡◌, sym, ◌∙◌, ap, ◌∷◌, ◌++◌, arith}
use v2b_x.Base.Int.{pos}
use v2b_x.Text.{
  show_int20, colon, padded, read_from, read-padded, padded-digits, digits_split, IsDigit,
}
use v2b_x.Transfer.Types.{Sample}
use v2b_x.Transfer.Samples.{key}

not-IsDigit : ¬ IsDigit colon
not-IsDigit h = absurd (omega arith)

key-positive : (s : Sample) (n : ℕ) → s.uid ≡ pos n → key s ≡ padded 20 n ++ colon ∷ s.credential
unfolding key show_int20
key-positive s n e = rw e

-- Samples with uids that are not negative, as `samples` accepts them, have one key only if they have
-- one uid and one credential.
pub key-injective :
    (s t : Sample) (n m : ℕ)
    → s.uid ≡ pos n
    → t.uid ≡ pos m
    → key s ≡ key t
    → (s.uid ≡ t.uid) × (s.credential ≡ t.credential)
key-injective s t n m p q e =
    let (heads, rests) =
      digits_split colon (padded 20 n) (padded 20 m) s.credential t.credential not-IsDigit
        (padded-digits 20 n) (padded-digits 20 m)
        (sym (key-positive s n p) ∙ e ∙ key-positive t m q) in
    let same : n ≡ m = sym (read-padded 20 n) ∙ ap (read_from 0) heads ∙ read-padded 20 m in
    (p ∙ ap pos same ∙ sym q, rests)
