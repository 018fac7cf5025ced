-- ===== src/Guard/Run/Rules.antt =====
-- Properties of the state behind a call, through the branches of a method.
use v2b_x.Base.{◌≡◌, refl, Bool, true, false, if◌then◌else◌}

module _ {A S : Type 0} where
  -- The property of the state behind a result.
  pub record Ends (P : S → Type 0) (p : A × S) : Type 0 where
    pub end : P p.1

  pub if-Ends :
      {P : S → Type 0} (b : Bool) {p q : A × S}
      → (b ≡ true → Ends P p)
      → (b ≡ false → Ends P q)
      → Ends P (if b then p else q)
  if-Ends true h k = h refl
  if-Ends false h k = k refl

pub if-holds :
    {S : Type 0} (P : S → Type 0) (b : Bool) (g h : S) → P g → P h → P (if b then g else h)
if-holds P true g h x y = x
if-holds P false g h x y = y
