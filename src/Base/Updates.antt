-- ===== src/Base/Updates.antt =====
-- Lookups behind a write to an association list, by cases on the key.
use mathlib.Core.Path.{◌≡◌, refl, sym, ap, ◌∙◌}
use mathlib.Core.Logic.{◌⊎◌, inl, inr}
use mathlib.Core.Bool.{false}
use mathlib.Core.Option.{none, some}
use mathlib.Core.List.{[], ◌∷◌}
use v2b_x.Base.Tests.{Bool-cases}
use v2b_x.Base.Maps.{Key, Assoc, get, put, del, get-put, get-del}

module _ {K V : Type 0} (e : Key K) where
  pub put_cases :
      (k j : K) (v w : V) (m : Assoc K V)
      → get e j (put e k v m) ≡ some w
      → ((k ≡ j) × (v ≡ w)) ⊎ ((e.eqb k j ≡ false) × (get e j m ≡ some w))
  put_cases k j v w m h =
      let g = sym (get-put e k j v m) ∙ h in
      elim (Bool-cases (e.eqb k j)) [
        | inl b ↦ let g' : some v ≡ some w = rw b at g in inl ((e.eqb_iff k j).0 b, cc)
        | inr b ↦ let g' : get e j m ≡ some w = rw b at g in inr (b, g')
      ]

  pub put_here : (k : K) (v : V) (m : Assoc K V) → get e k (put e k v m) ≡ some v
  put_here k v m = rw (get-put e k k v m, (e.eqb_iff k k).1 refl) refl

  pub put_there :
      (k j : K) (v : V) (m : Assoc K V) → e.eqb k j ≡ false → get e j (put e k v m) ≡ get e j m
  put_there k j v m h = rw (get-put e k j v m, h) refl

  pub del_cases :
      (k j : K) (w : V) (m : Assoc K V)
      → get e j (del e k m) ≡ some w
      → (e.eqb k j ≡ false) × (get e j m ≡ some w)
  del_cases k j w m h =
      let g = sym (get-del e k j m) ∙ h in
      elim (Bool-cases (e.eqb k j)) [
        | inl b ↦ let g' : none ≡ some w = rw b at g in cc
        | inr b ↦ let g' : get e j m ≡ some w = rw b at g in (b, g')
      ]

  pub del_there : (k j : K) (m : Assoc K V) → e.eqb k j ≡ false → get e j (del e k m) ≡ get e j m
  del_there k j m h = rw (get-del e k j m, h) refl

pub put-put :
    {K V : Type 0} (e : Key K) (k : K) (v w : V) (m : Assoc K V)
    → put e k v (put e k w m) ≡ put e k v m
unfolding put
put-put e k v w [] = rw ((e.eqb_iff k k).1 refl) refl
put-put e k v w ((j, x) ∷ m) = elim (Bool-cases (e.eqb j k)) [
  | inl b ↦ rw (b, (e.eqb_iff k k).1 refl) refl
  | inr b ↦ rw b (rw b (ap (λ t. (j, x) ∷ t) (put-put e k v w m)))
]
