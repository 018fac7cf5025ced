-- ===== src/Guard/Controller/Results.antt =====
-- Properties of the result of a call that may fail.
use v2b_x.Base.{◌≡◌, refl, subst, Bool, true, false, if◌then◌else◌}
use v2b_x.Guard.Controller.Types.{ControlError, Reply, gives, fails, and_then}

-- A property of the result, where there is one.
pub record Results {A : Type 0} (P : A → Type 0) (r : Reply A) : Type 0 where
  pub holds : (a : A) → r ≡ gives a → P a

pub fails-Results : {A : Type 0} {P : A → Type 0} (e : ControlError) → Results P (fails e)
fails-Results {A = A} e = record {
  holds = λ a h. let z : ◌≡◌ {A = Reply A} (fails e) (gives a) = h in absurd (cc);
}

pub gives-Results : {A : Type 0} {P : A → Type 0} (a : A) → P a → Results P (gives a)
gives-Results {A = A} {P = P} a p = record { holds = λ b h. let z : a ≡ b = cc in subst P z p }

pub if-Results :
    {A : Type 0} {P : A → Type 0} (b : Bool) {r s : Reply A}
    → (b ≡ true → Results P r)
    → (b ≡ false → Results P s)
    → Results P (if b then r else s)
if-Results true h k = h refl
if-Results false h k = k refl

pub and_then-Results :
    {A B : Type 0} {P : A → Type 0} {Q : B → Type 0} (r : Reply A) (f : A → Reply B)
    → Results P r
    → ((a : A) → P a → Results Q (f a))
    → Results Q (and_then r f)
and_then-Results (fails e) f h k = fails-Results e
and_then-Results (gives a) f h k = k a (h.holds a refl)
