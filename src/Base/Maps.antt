-- ===== src/Base/Maps.antt =====
-- Go maps as association lists. A write replaces the entry of its key in place, so that a key
-- stands at most once; `range` visits the entries in the order of the list.
use mathlib.Core.Path.{◌≡◌, refl}
use mathlib.Core.Logic.{◌↔◌}
use mathlib.Core.Bool.{Bool, true}
use mathlib.Core.Option.{Option, none, some}
use mathlib.Core.List.{List, [], ◌∷◌}
use native.Mathlib.Omega.{arith}
use v2b_x.Base.Int.{ℤ, eqb_ℤ, eqb_ℤ_iff}
use v2b_x.Base.Tests.{if◌then◌else◌}

-- A key type with its test of equality.
pub record Key {ℓ} (K : Type ℓ) : Type ℓ where
  pub eqb : K → K → Bool
  pub eqb_iff : (a b : K) → (eqb a b ≡ true) ↔ (a ≡ b)

abbrev pub int_key : Key ℤ
int_key = record { eqb = eqb_ℤ; eqb_iff = eqb_ℤ_iff }

abbrev pub Assoc {ℓ κ} : Type ℓ → Type κ → Type (ℓ ⊔ κ)
Assoc K V = List (K × V)

module _ {ℓ κ} {K : Type ℓ} {V : Type κ} (e : Key K) where
  unfoldable pub get : K → Assoc K V → Option V
  get k [] = none
  get k ((j, v) ∷ m) = if e.eqb j k then some v else get k m

  unfoldable pub put : K → V → Assoc K V → Assoc K V
  put k v [] = (k, v) ∷ []
  put k v ((j, w) ∷ m) = if e.eqb j k then (k, v) ∷ m else (j, w) ∷ put k v m

  unfoldable pub del : K → Assoc K V → Assoc K V
  del k [] = []
  del k ((j, w) ∷ m) = let rest = del k m in if e.eqb j k then rest else (j, w) ∷ rest

  pub get-put :
      (k j : K) (v : V) (m : Assoc K V)
      → get j (put k v m) ≡ (if e.eqb k j then some v else get j m)
  unfolding get put
  get-put k j v [] = refl
  get-put k j v ((i, w) ∷ m) =
      ground (arith, e.eqb_iff k j, e.eqb_iff i k, e.eqb_iff i j, get-put k j v m)

  pub get-del : (k j : K) (m : Assoc K V) → get j (del k m) ≡ (if e.eqb k j then none else get j m)
  unfolding get del
  get-del k j [] = ground arith
  get-del k j ((i, w) ∷ m) =
      ground (arith, e.eqb_iff k j, e.eqb_iff i k, e.eqb_iff i j, get-del k j m)
