-- ===== src/Guard/Authorization/Agreement.antt =====
-- The two scans of the bindings, of `authorizationProof` and of `independentIdentity`, agree.
use v2b_x.Base.{
  ◌≡◌, ◌∙◌, ◌↔◌, ◌⊎◌, inl, inr, refl, sym, ap, Bool, true, false, ◌&&◌, ◌||◌, not, Option, none,
  some, List, [], ◌∷◌, Bytes, bytes_eq, bytes_eq_iff, ◌==◌, if◌then◌else◌, length, all, Assoc,
  arith, Bool-cases,
}
use v2b_x.Transfer.Types.{Identity, identity_eq}
use v2b_x.Guard.Types.{Binding, Guard}
use v2b_x.Guard.Bindings.{has_tag}
use v2b_x.Guard.Authorization.{
  AuthorizationTarget, grant_of, scan_target, target_bound, scan_independent, independent_identity,
  independent_of, covers,
}

none_covered :
    (tags : List Bytes) → (not (length tags == 0) && all (λ t. has_tag t []) tags) ≡ false
none_covered [] = refl
none_covered (t ∷ tags) = ground arith

module _ (g : Guard) (id : Identity) where
  abbrev the_target : Bytes → AuthorizationTarget
  the_target grant = record { grant = grant; identity = id }

  -- What the entry of a binding does to the scan of a target.
  taken :
      (grant : Bytes) (b : Binding) (i : Identity) (rest : Assoc Binding Identity)
      (tags : List Bytes)
      → (identity_eq i id ≡ true)
      → (bytes_eq (grant_of g b) grant ≡ true)
      → scan_target g (the_target grant) ((b, i) ∷ rest) (false, tags)
        ≡ scan_target g (the_target grant) rest (false, b.tag ∷ tags)
  unfolding scan_target
  taken grant b i rest tags e f = rw (e, f) refl

  passed :
      (grant : Bytes) (b : Binding) (i : Identity) (rest : Assoc Binding Identity)
      (tags : List Bytes)
      → (identity_eq i id ≡ false)
      → scan_target g (the_target grant) ((b, i) ∷ rest) (false, tags)
        ≡ scan_target g (the_target grant) rest (false, tags)
  unfolding scan_target
  passed grant b i rest tags e = rw e refl

  still_conflict :
      (x y : Bool) (s : Bool × List Bytes) (tags : List Bytes)
      → s.0 ≡ true
      → (if x then if y then (s.0, tags) else (true, s.1) else s).0 ≡ true
  still_conflict true true s tags h = h
  still_conflict true false s tags h = refl
  still_conflict false y s tags h = h

  conflict_stays :
      (t : AuthorizationTarget) (bindings : Assoc Binding Identity) (s : Bool × List Bytes)
      → s.0 ≡ true
      → (scan_target g t bindings s).0 ≡ true
  unfolding scan_target
  conflict_stays t [] s h = h
  conflict_stays t ((b, i) ∷ rest) s h = conflict_stays t rest _ (
      still_conflict (identity_eq i t.identity) (bytes_eq (grant_of g b) t.grant) s (b.tag ∷ s.1) h)

  allowed :
      (x y z : Bool) (value grant : Bytes)
      → (z ≡ true → value ≡ grant)
      → (x || (not y && not z)) ≡ false
      → (x ≡ false) × ((y ≡ true) ⊎ (grant ≡ value))
  allowed true y z value grant k f = absurd (cc)
  allowed false true z value grant k f = (refl, inl refl)
  allowed false false true value grant k f = (refl, inr (sym (k refl)))
  allowed false false false value grant k f = absurd (cc)

  -- Where the independent scan takes the entry.
  some_taken :
      (grant result : Bytes) (b : Binding) (i : Identity) (rest : Assoc Binding Identity)
      (tags found : List Bytes)
      → identity_eq i id ≡ true
      → scan_independent g id ((b, i) ∷ rest) grant tags ≡ some (result, found)
      → (scan_independent g id rest (grant_of g b) (b.tag ∷ tags) ≡ some (result, found))
        × (((length (grant_of g b) == 0) ≡ false)
            × (((length grant == 0) ≡ true) ⊎ (grant ≡ grant_of g b)))
  unfolding scan_independent
  some_taken grant result b i rest tags found e h =
      let value = grant_of g b in
      let more = scan_independent g id rest value (b.tag ∷ tags) in
      let stop = length value == 0 || (not (length grant == 0) && not (bytes_eq value grant)) in
      let h' : (if stop then none else more) ≡ some (result, found) = rw e at h in
      elim (Bool-cases stop) [
        | inl f ↦
            let bad : ◌≡◌ {A = Option (Bytes × List Bytes)} none (some (result, found)) =
              rw f at h' in
            absurd (cc)
        | inr f ↦
            let go : more ≡ some (result, found) = rw f at h' in
            (
              go,
              allowed (length value == 0) (length grant == 0) (bytes_eq value grant) value grant
                  (bytes_eq_iff value grant).0 f,
            )
      ]

  -- A scan that ends with a grant that is not empty is without conflict for that grant.
  scans :
      (bindings : Assoc Binding Identity) (grant result : Bytes) (tags found : List Bytes)
      → scan_independent g id bindings grant tags ≡ some (result, found)
      → (((length grant == 0) ≡ true) ⊎ (grant ≡ result))
        × (scan_target g (the_target result) bindings (false, tags) ≡ (false, found))
  unfolding scan_independent scan_target
  scans [] grant result tags found h = (inr (cc), ap (λ x. (false, x)) (cc))
  scans ((b, i) ∷ rest) grant result tags found h = elim (Bool-cases (identity_eq i id)) [
    | inr e ↦
        let h' : scan_independent g id rest grant tags ≡ some (result, found) = rw e at h in
        let r = scans rest grant result tags found h' in (r.0, passed result b i rest tags e ∙ r.1)
    | inl e ↦
        let k = some_taken grant result b i rest tags found e h in
        let r = scans rest (grant_of g b) result (b.tag ∷ tags) found k.0 in
        let same : grant_of g b ≡ result = elim r.0 [ inl x ↦ absurd (cc) | inr y ↦ y ] in
        (
          elim k.1.1 [ inl x ↦ inl x | inr y ↦ inr (y ∙ same) ],
          taken result b i rest tags e ((bytes_eq_iff (grant_of g b) result).1 same) ∙ r.1,
        )
  ]

  goes_on :
      (grant start : Bytes) (b : Binding) (i : Identity) (rest : Assoc Binding Identity)
      (tags : List Bytes)
      → identity_eq i id ≡ true
      → grant_of g b ≡ grant
      → (length grant == 0) ≡ false
      → ((length start == 0) ≡ true) ⊎ (start ≡ grant)
      → scan_independent g id ((b, i) ∷ rest) start tags
        ≡ scan_independent g id rest grant (b.tag ∷ tags)
  unfolding scan_independent
  goes_on grant start b i rest tags e same full (inl blank) = rw (e, same, full, blank) refl
  goes_on grant start b i rest tags e same full (inr begun) =
      rw (e, same, begun, full, (bytes_eq_iff grant grant).1 refl) refl

  no_conflict :
      (grant : Bytes) (b : Binding) (i : Identity) (rest : Assoc Binding Identity)
      (tags found : List Bytes)
      → identity_eq i id ≡ true
      → scan_target g (the_target grant) ((b, i) ∷ rest) (false, tags) ≡ (false, found)
      → bytes_eq (grant_of g b) grant ≡ true
  unfolding scan_target
  no_conflict grant b i rest tags found e h = elim (Bool-cases (bytes_eq (grant_of g b) grant)) [
    | inl f ↦ f
    | inr f ↦
        let h' : scan_target g (the_target grant) rest (true, tags) ≡ (false, found) =
          rw (e, f) at h in
        let bad : Bool.true ≡ false =
          sym (conflict_stays (the_target grant) rest (true, tags) refl) ∙ ap (λ x. x.0) h' in
        absurd (cc)
  ]

  -- A scan without conflict for a grant that is not empty is one of the independent scan that has
  -- the grant already.
  scans_on :
      (bindings : Assoc Binding Identity) (grant : Bytes) (tags found : List Bytes)
      → (length grant == 0) ≡ false
      → scan_target g (the_target grant) bindings (false, tags) ≡ (false, found)
      → scan_independent g id bindings grant tags ≡ some (grant, found)
  unfolding scan_independent scan_target
  scans_on [] grant tags found full h = ap (λ x. some (grant, x)) (ap (λ x. x.1) h)
  scans_on ((b, i) ∷ rest) grant tags found full h = elim (Bool-cases (identity_eq i id)) [
    | inr e ↦ rw e (scans_on rest grant tags found full (sym (passed grant b i rest tags e) ∙ h))
    | inl e ↦
        let f = no_conflict grant b i rest tags found e h in
        goes_on grant grant b i rest tags e ((bytes_eq_iff (grant_of g b) grant).0 f) full
          (inr refl)
        ∙ scans_on rest grant (b.tag ∷ tags) found full (sym (taken grant b i rest tags e f) ∙ h)
  ]

  -- The same before the independent scan has a grant, where a tag is found.
  scans_first :
      (bindings : Assoc Binding Identity) (grant : Bytes) (tags found : List Bytes)
      → (length grant == 0) ≡ false
      → scan_target g (the_target grant) bindings (false, tags) ≡ (false, found)
      → (found ≡ tags) ⊎ (scan_independent g id bindings [] tags ≡ some (grant, found))
  unfolding scan_independent scan_target
  scans_first [] grant tags found full h = inl (sym (ap (λ x. x.1) h))
  scans_first ((b, i) ∷ rest) grant tags found full h = elim (Bool-cases (identity_eq i id)) [
    | inr e ↦ rw e (scans_first rest grant tags found full (sym (passed grant b i rest tags e) ∙ h))
    | inl e ↦
        let f = no_conflict grant b i rest tags found e h in
        inr (
          goes_on grant [] b i rest tags e ((bytes_eq_iff (grant_of g b) grant).0 f) full (inl refl)
          ∙ scans_on rest grant (b.tag ∷ tags) found full (sym (taken grant b i rest tags e f) ∙ h))
  ]

  nothing_covered : covers g [] ≡ false
  nothing_covered = none_covered g.required_tags

  bound_independent :
      (grant : Bytes) (s : Bool × List Bytes)
      → (length grant == 0) ≡ false
      → scan_target g (the_target grant) g.bindings (false, []) ≡ s
      → (not s.0 && covers g s.1) ≡ true
      → independent_identity g id ≡ true
  unfolding independent_identity independent_of
  bound_independent grant (true, tags) full e h = absurd (cc)
  bound_independent grant (false, tags) full e h =
      elim (scans_first g.bindings grant [] tags full e) [
        | inl bare ↦
            let bad : covers g [] ≡ true = ap (covers g) (sym bare) ∙ h in
            absurd (cc (nothing_covered))
        | inr k ↦ ap (independent_of g) k ∙ rw (full) h
      ]

  independent_bound :
      (o : Option (Bytes × List Bytes))
      → scan_independent g id g.bindings [] [] ≡ o
      → independent_of g o ≡ true
      → (grant : Bytes) × ((length grant == 0) ≡ false)
        × (target_bound g (record { grant = grant; identity = id }) ≡ true)
  unfolding independent_of target_bound
  independent_bound none e h = absurd (cc)
  independent_bound (some (grant, tags)) e h =
      let r = scans g.bindings [] grant [] tags e in
      (grant, ground arith, ap (λ s. not s.0 && covers g s.1) r.1 ∙ ground arith)

-- `IndependentIdentity` is true of an identity exactly where some grant that is not empty has
-- a proof of authorization that calls it bound for the identity.
pub independent_identity_iff :
    (g : Guard) (id : Identity)
    → (independent_identity g id ≡ true) ↔ (
        (grant : Bytes) × ((length grant == 0) ≡ false)
        × (target_bound g (record { grant = grant; identity = id }) ≡ true))
unfolding independent_identity target_bound
independent_identity_iff g id = (
  independent_bound g id (scan_independent g id g.bindings [] []) refl,
  λ w.
      bound_independent g id w.0
        (scan_target g (record { grant = w.0; identity = id }) g.bindings (false, [])) w.1 refl w.2,
)
