-- ===== src/Guard/Controller/Counts.antt =====
-- How many records a journal can have: an id has at most a block and a release, or a cancellation.
use v2b_x.Base.{
  ℕ, suc, ◌+◌, ◌≤◌, ◌≡◌, refl, ap, ◌∙◌, inl, inr, true, false, some, [], ◌∷◌, Bytes, bytes_eq,
  bytes_eq_iff, arith, Assoc, get, put, Bool-cases, length, if◌then◌else◌, put_here, get-put,
}
use v2b_x.Transfer.Types.{bytes_key}
use v2b_x.Guard.Types.{Lease}
use v2b_x.Guard.Controller.Types.{Marks, marked, is_some}

-- The known ids that are not released.
unfoldable pub unreleased : Marks → Assoc Bytes Lease → ℕ
unreleased m [] = 0
unreleased m ((id, l) ∷ rest) = (if marked id m then 0 else 1) + unreleased m rest

pub length-put_new :
    (id : Bytes) (l : Lease) (seen : Assoc Bytes Lease)
    → is_some (get bytes_key id seen) ≡ false
    → length (put bytes_key id l seen) ≡ suc (length seen)
unfolding get put
length-put_new id l [] h = refl
length-put_new id l ((j, w) ∷ seen) h = elim (Bool-cases (bytes_eq j id)) [
  | inl b ↦ let z : true ≡ false = rw b at h in absurd (cc)
  | inr b ↦
      let k : is_some (get bytes_key id seen) ≡ false = rw b at h in
      rw b (ap suc (length-put_new id l seen k))
]

pub unreleased-put :
    (m : Marks) (id : Bytes) (l : Lease) (seen : Assoc Bytes Lease)
    → unreleased m (put bytes_key id l seen) ≤ suc (unreleased m seen)
unfolding unreleased put
unreleased-put m id l [] = ground arith
unreleased-put m id l ((j, w) ∷ seen) = let ih = unreleased-put m id l seen in ground arith

-- A mark that is added stays, and takes none away.
marked-put :
    (m : Marks) (id j : Bytes) → marked j m ≡ true → marked j (put bytes_key id tt m) ≡ true
marked-put m id j h = elim (Bool-cases (bytes_eq id j)) [
  | inl b ↦ ap is_some (get-put bytes_key id j tt m) ∙ rw b refl
  | inr b ↦ ap is_some (get-put bytes_key id j tt m) ∙ rw b h
]

pub unreleased-mark :
    (m : Marks) (id : Bytes) (seen : Assoc Bytes Lease)
    → unreleased (put bytes_key id tt m) seen ≤ unreleased m seen
unfolding unreleased
unreleased-mark m id [] = omega arith
unreleased-mark m id ((j, w) ∷ seen) =
    let ih = unreleased-mark m id seen in
    elim (Bool-cases (marked j m)) [
      | inl b ↦ rw (b, marked-put m id j b) (omega (arith, ih))
      | inr b ↦ rw b (ground arith)
    ]

pub unreleased-released :
    (m : Marks) (id : Bytes) (l : Lease) (seen : Assoc Bytes Lease)
    → get bytes_key id seen ≡ some l
    → marked id m ≡ false
    → suc (unreleased (put bytes_key id tt m) seen) ≤ unreleased m seen
unfolding unreleased get
unreleased-released m id l [] h n = absurd (cc)
unreleased-released m id l ((j, w) ∷ seen) h n = elim (Bool-cases (bytes_eq j id)) [
  | inl b ↦
      let e = (bytes_eq_iff j id).0 b in
      let here : marked j (put bytes_key id tt m) ≡ true =
        rw e (ap is_some (put_here bytes_key id tt m)) in
      let was : marked j m ≡ false = ap (λ k. marked k m) e ∙ n in
      let ih = unreleased-mark m id seen in rw (here, was) (omega (arith, ih))
  | inr b ↦
      let k : get bytes_key id seen ≡ some l = rw b at h in
      let ih = unreleased-released m id l seen k n in
      elim (Bool-cases (marked j m)) [
        | inl q ↦ rw (q, marked-put m id j q) (omega (arith, ih))
        | inr q ↦ rw q (ground arith)
      ]
]

pub unreleased-cancel :
    (m : Marks) (id : Bytes) (l : Lease) (seen : Assoc Bytes Lease)
    → unreleased (put bytes_key id tt m) (put bytes_key id l seen) ≤ suc (unreleased m seen)
unreleased-cancel m id l seen =
    let a = unreleased-put (put bytes_key id tt m) id l seen in
    let b = unreleased-mark m id seen in omega (arith, a, b)
