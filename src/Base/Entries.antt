-- ===== src/Base/Entries.antt =====
-- Predicates on every entry of an association list, and its length.
use mathlib.Core.Path.{◌≡◌, refl, sym, ap, ◌∙◌, subst}
use mathlib.Core.Bool.{false}
use mathlib.Core.Logic.{inl, inr}
use mathlib.Core.Option.{none, some}
use mathlib.Core.List.{[], ◌∷◌}
use Prim.Native.Nat.{suc, ◌≤◌}
use native.Mathlib.Omega.{arith}
use v2b_x.Base.Tests.{Bool-cases}
use v2b_x.Base.Lists.{length, All}
use v2b_x.Base.Maps.{Key, Assoc, get, put, del, get-put, get-del}

flipped : {K : Type 0} (e : Key K) (j k : K) → e.eqb j k ≡ false → e.eqb k j ≡ false
flipped e j k h = elim (Bool-cases (e.eqb k j)) [
  | inr b ↦ b
  | inl b ↦ let x = (e.eqb_iff j k).1 (sym ((e.eqb_iff k j).0 b)) in cc
]

module _ {K V : Type 0} (e : Key K) where
  pub length-put : (k : K) (v : V) (m : Assoc K V) → length (put e k v m) ≤ suc (length m)
  unfolding put
  length-put k v [] = omega arith
  length-put k v ((j, w) ∷ m) = let ih = length-put k v m in ground arith

  pub length-del : (k : K) (m : Assoc K V) → length (del e k m) ≤ length m
  unfolding del
  length-del k [] = omega arith
  length-del k ((j, w) ∷ m) = let ih = length-del k m in ground arith

  pub AllEntries-put :
      (P : K → V → Type 0) (k : K) (v : V) (m : Assoc K V)
      → P k v
      → All (λ p. P p.0 p.1) m
      → All (λ p. P p.0 p.1) (put e k v m)
  unfolding put
  AllEntries-put P k v [] h r = (h, tt)
  AllEntries-put P k v ((j, w) ∷ m) h r = elim (Bool-cases (e.eqb j k)) [
    | inl b ↦ rw b (h, r.1)
    | inr b ↦ rw b (r.0, AllEntries-put P k v m h r.1)
  ]

  pub AllEntries-del :
      (P : K → V → Type 0) (k : K) (m : Assoc K V)
      → All (λ p. P p.0 p.1) m
      → All (λ p. P p.0 p.1) (del e k m)
  unfolding del
  AllEntries-del P k [] r = tt
  AllEntries-del P k ((j, w) ∷ m) r = elim (Bool-cases (e.eqb j k)) [
    | inl b ↦ rw b (AllEntries-del P k m r.1)
    | inr b ↦ rw b (r.0, AllEntries-del P k m r.1)
  ]

  pub AllEntries-get :
      (P : K → V → Type 0) (k : K) (v : V) (m : Assoc K V)
      → All (λ p. P p.0 p.1) m
      → get e k m ≡ some v
      → P k v
  unfolding get
  AllEntries-get P k v [] r h = absurd (cc)
  AllEntries-get P k v ((j, w) ∷ m) r h = elim (Bool-cases (e.eqb j k)) [
    | inl b ↦
        let g : some w ≡ some v = rw b at h in
        let same : w ≡ v = cc in subst (λ x. P x v) ((e.eqb_iff j k).0 b) (subst (P j) same r.0)
    | inr b ↦ let g : get e k m ≡ some v = rw b at h in AllEntries-get P k v m r.1 g
  ]

  -- No key stands twice.
  abbrev pub IsKeyed : Assoc K V → Type 0
  IsKeyed [] = Unit
  IsKeyed ((k, v) ∷ m) = (get e k m ≡ none) × IsKeyed m

  pub put-IsKeyed : (k : K) (v : V) (m : Assoc K V) → IsKeyed m → IsKeyed (put e k v m)
  unfolding put get
  put-IsKeyed k v [] r = (refl, tt)
  put-IsKeyed k v ((j, w) ∷ m) r = elim (Bool-cases (e.eqb j k)) [
    | inl b ↦ rw b (ap (λ x. get e x m) (sym ((e.eqb_iff j k).0 b)) ∙ r.0, r.1)
    | inr b ↦ rw b (get-put e k j v m ∙ rw (flipped e j k b) r.0, put-IsKeyed k v m r.1)
  ]

  pub del-IsKeyed : (k : K) (m : Assoc K V) → IsKeyed m → IsKeyed (del e k m)
  unfolding del
  del-IsKeyed k [] r = tt
  del-IsKeyed k ((j, w) ∷ m) r = elim (Bool-cases (e.eqb j k)) [
    | inl b ↦ rw b (del-IsKeyed k m r.1)
    | inr b ↦ rw b (get-del e k j m ∙ rw (flipped e j k b) r.0, del-IsKeyed k m r.1)
  ]
