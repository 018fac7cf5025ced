-- ===== src/Transfer/Legacy/Sums.antt =====
-- How the loop of `LegacyPayload` adds rows to the totals of the users, without wrap-around.
use v2b_x.Base.{
  ℕ, ◌+◌, ◌≤◌, ◌≡◌, ◌∙◌, sym, ap, subst, inl, inr, Bool, true, false, ◌&&◌, ◌||◌, some, List, [],
  ◌∷◌, if◌then◌else◌, All, get, put, get-put, int_key, arith, Bool-cases,
}
use v2b_x.Base.Int.{ℤ, pos, pos_part, eqb_ℤ, ltb_ℤ, add64, sub64, add64_exact, sub64_exact}
use v2b_x.Transfer.Types.{Result, ok, err, legacy_overflow, Sample}
use v2b_x.Transfer.Delta.Growth.{Direction, up, down, traffic, IsNatural}
use v2b_x.Transfer.Outbox.{max_sequence}
use v2b_x.Transfer.Legacy.Payload.{Totals, or_zeros, add_rows}

-- The traffic of a user over all credentials.
abbrev pub owned : Direction → ℤ → List Sample → ℕ
owned d uid [] = 0
owned d uid (s ∷ rest) = (if eqb_ℤ s.uid uid then traffic d s else 0) + owned d uid rest

abbrev pub side : Direction → ℤ × ℤ → ℤ
side up sum = sum.0
side down sum = sum.1

-- The total of a user, zero where there is none.
abbrev pub reported : Direction → ℤ → Totals → ℤ
reported d uid totals = side d (or_zeros (get int_key uid totals))

-- No total is negative or more than 2^53.
abbrev pub IsSmall : ℤ → Type 0
IsSmall n = (n ≡ pos (pos_part n)) × (pos_part n ≤ max_sequence)

abbrev pub AreSmall : Totals → Type 0
AreSmall totals = (d : Direction) (uid : ℤ) → IsSmall (reported d uid totals)

reported-put :
    (d : Direction) (uid other : ℤ) (sum : ℤ × ℤ) (totals : Totals)
    → reported d other (put int_key uid sum totals)
      ≡ (if eqb_ℤ uid other then side d sum else reported d other totals)
reported-put d uid other sum totals =
    let r = get-put int_key uid other sum totals in
    elim (Bool-cases (eqb_ℤ uid other)) [
      | inl e ↦
          let r' : get int_key other (put int_key uid sum totals) ≡ some sum = rw e at r in
          rw e (ap (λ o. side d (or_zeros o)) r')
      | inr e ↦
          let r' : get int_key other (put int_key uid sum totals) ≡ get int_key other totals =
            rw e at r in
          rw e (ap (λ o. side d (or_zeros o)) r')
    ]

-- A counter that fits is added without wrap-around.
fits :
    (m n : ℤ)
    → IsSmall m
    → n ≡ pos (pos_part n)
    → ltb_ℤ (sub64 (pos max_sequence) m) n ≡ false
    → (add64 m n ≡ pos (pos_part m + pos_part n)) × (pos_part m + pos_part n ≤ max_sequence)
fits m n small natural h =
    ground (arith, sub64_exact max_sequence (pos_part m), add64_exact (pos_part m) (pos_part n))

no_traffic :
    (d : Direction) (s : Sample)
    → (eqb_ℤ s.upload (pos 0) && eqb_ℤ s.download (pos 0)) ≡ true
    → traffic d s ≡ 0
no_traffic up s h = ground arith
no_traffic down s h = ground arith

-- The totals with a row added.
abbrev with_row : Sample → Totals → Totals
with_row s totals =
    let sum = or_zeros (get int_key s.uid totals) in
    put int_key s.uid (add64 sum.0 s.upload, add64 sum.1 s.download) totals

abbrev overflows : Sample → Totals → Bool
overflows s totals =
    let sum = or_zeros (get int_key s.uid totals) in
    ltb_ℤ (sub64 (pos max_sequence) sum.0) s.upload
    || ltb_ℤ (sub64 (pos max_sequence) sum.1) s.download

-- The totals behind some rows.
pub record Adds (totals : Totals) (rows : List Sample) (out : Totals) : Type 0 where
  pub sums :
      (d : Direction) (uid : ℤ)
      → reported d uid out ≡ pos (pos_part (reported d uid totals) + owned d uid rows)
  pub small : AreSmall out

added_side :
    (d : Direction) (s : Sample) (totals : Totals)
    → AreSmall totals
    → IsNatural s
    → overflows s totals ≡ false
    → let sum = or_zeros (get int_key s.uid totals) in
      let n = pos_part (side d sum) + traffic d s in
      (side d (add64 sum.0 s.upload, add64 sum.1 s.download) ≡ pos n) × (n ≤ max_sequence)
added_side up s totals a n h = fits _ s.upload (a up s.uid) n.0 (ground arith)
added_side down s totals a n h = fits _ s.download (a down s.uid) n.1 (ground arith)

added-reported :
    (d : Direction) (s : Sample) (uid : ℤ) (totals : Totals)
    → AreSmall totals
    → IsNatural s
    → overflows s totals ≡ false
    → let n = pos_part (reported d uid totals) + owned d uid (s ∷ []) in
      (reported d uid (with_row s totals) ≡ pos n) × (n ≤ max_sequence)
added-reported d s uid totals a n h =
    let r = added_side d s totals a n h in
    let sum = or_zeros (get int_key s.uid totals) in
    let e = reported-put d s.uid uid (add64 sum.0 s.upload, add64 sum.1 s.download) totals in
    elim (Bool-cases (eqb_ℤ s.uid uid)) [
      | inl f ↦
          let q = ap (λ u. pos_part (reported d u totals)) ((int_key.eqb_iff s.uid uid).0 f) in
          let e' : reported d uid (with_row s totals)
              ≡ side d (add64 sum.0 s.upload, add64 sum.1 s.download) =
            rw f at e in
          let k : pos_part (side d sum) + traffic d s
              ≡ pos_part (reported d uid totals) + (traffic d s + 0) =
            omega (arith, q) in
          rw f (e' ∙ r.0 ∙ ap pos k, omega (arith, k, r.1))
      | inr f ↦
          let small = a d uid in
          let e' : reported d uid (with_row s totals) ≡ reported d uid totals = rw f at e in
          let k : pos_part (reported d uid totals) ≡ pos_part (reported d uid totals) + (0 + 0) =
            omega arith in
          rw f (e' ∙ small.0 ∙ ap pos k, omega (arith, small.1))
    ]

IsSmall-sum : (m : ℤ) (k : ℕ) → m ≡ pos k → k ≤ max_sequence → IsSmall m
IsSmall-sum m k e h = let p = ap pos_part e in (e ∙ ap pos (sym p), omega (arith, p, h))

added :
    (s : Sample) (rest : List Sample) (totals out : Totals)
    → AreSmall totals
    → IsNatural s
    → overflows s totals ≡ false
    → Adds (with_row s totals) rest out
    → Adds totals (s ∷ rest) out
added s rest totals out a n h r = record {
  sums = λ d uid.
      let one = (added-reported d s uid totals a n h).0 in
      let p = ap pos_part one in
      let k : pos_part (reported d uid (with_row s totals)) + owned d uid rest
          ≡ pos_part (reported d uid totals) + owned d uid (s ∷ rest) =
        omega (arith, p) in
      r.sums d uid ∙ ap pos k;
  small = r.small;
}

with_row-AreSmall :
    (s : Sample) (totals : Totals)
    → AreSmall totals
    → IsNatural s
    → overflows s totals ≡ false
    → AreSmall (with_row s totals)
with_row-AreSmall s totals a n h d uid =
    let r = added-reported d s uid totals a n h in IsSmall-sum _ _ r.0 r.1

-- A row without traffic.
passed-Adds :
    (s : Sample) (rest : List Sample) (totals out : Totals)
    → (eqb_ℤ s.upload (pos 0) && eqb_ℤ s.download (pos 0)) ≡ true
    → Adds totals rest out
    → Adds totals (s ∷ rest) out
passed-Adds s rest totals out h r = record {
  sums = λ d uid.
      let t = no_traffic d s h in
      let k : pos_part (reported d uid totals) + owned d uid rest
          ≡ pos_part (reported d uid totals) + owned d uid (s ∷ rest) =
        ground (arith, t) in
      r.sums d uid ∙ ap pos k;
  small = r.small;
}

pub add_rows-Adds :
    (rows : List Sample) (totals out : Totals)
    → All IsNatural rows
    → AreSmall totals
    → add_rows totals rows ≡ ok out
    → Adds totals rows out
unfolding add_rows
add_rows-Adds [] totals out n a h =
    let same : totals ≡ out = cc in
    record {
      sums = λ d uid.
          let k : pos_part (reported d uid totals) ≡ pos_part (reported d uid totals) + 0 =
            omega arith in
          ap (reported d uid) (sym same) ∙ (a d uid).0 ∙ ap pos k;
      small = subst AreSmall same a;
    }
add_rows-Adds (s ∷ rest) totals out n a h =
    elim (Bool-cases (eqb_ℤ s.upload (pos 0) && eqb_ℤ s.download (pos 0))) [
      | inl e ↦
          let h' : add_rows totals rest ≡ ok out = rw e at h in
          passed-Adds s rest totals out e (add_rows-Adds rest totals out n.1 a h')
      | inr e ↦ elim (Bool-cases (overflows s totals)) [
        | inl f ↦
            let bad : ◌≡◌ {A = Result Totals} (err legacy_overflow) (ok out) = rw (e, f) at h in
            absurd (cc)
        | inr f ↦
            let h' : add_rows (with_row s totals) rest ≡ ok out = rw (e, f) at h in
            added s rest totals out a n.0 f (
              add_rows-Adds rest (with_row s totals) out n.1 (with_row-AreSmall s totals a n.0 f)
                h')
      ]
    ]
