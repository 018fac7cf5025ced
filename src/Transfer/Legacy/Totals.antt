-- ===== src/Transfer/Legacy/Totals.antt =====
-- What a legacy report says of each user.
use v2b_x.Base.{
  ℕ, ◌+◌, ◌≤◌, ◌≡◌, ◌∙◌, sym, ap, subst, refl, inl, inr, true, ◌||◌, not, List, [], ◌∷◌, Bytes,
  bytes_eq, ltb, All, All-of_all, get, arith, Bool-cases,
}
use v2b_x.Base.Int.{ℤ, pos, pos_part, eqb_ℤ}
use v2b_x.Text.{bytes_lt, valid_hex}
use v2b_x.Transfer.Types.{Result, ok, err, >>=-eq-ok, ◌>>=◌, invalid_batch, Sample, Batch}
use v2b_x.Transfer.Samples.{key, is_counter, samples, insert_sample, sort_samples}
use v2b_x.Transfer.Samples.Sorting.{samples-eq_ok, All-sort_samples}
use v2b_x.Transfer.Delta.Growth.{Direction, up, down, IsNatural, IsNatural-of_counter}
use v2b_x.Transfer.Outbox.{max_sequence}
use v2b_x.Transfer.Wire.{hash}
use v2b_x.Transfer.Open.{matches_scope}
use v2b_x.Transfer.Legacy.Payload.{add_rows, Payload, payload_of, legacy_payload}
use v2b_x.Transfer.Legacy.Sums.{owned, reported, AreSmall, add_rows-Adds}

owned-insert_sample :
    (d : Direction) (uid : ℤ) (s : Sample) (xs : List Sample)
    → owned d uid (insert_sample s xs) ≡ owned d uid (s ∷ xs)
unfolding insert_sample
owned-insert_sample d uid s [] = refl
owned-insert_sample d uid s (x ∷ xs) = elim (Bool-cases (bytes_lt (key x) (key s))) [
  | inl e ↦ rw e (omega (arith, owned-insert_sample d uid s xs))
  | inr e ↦ rw e
]

owned-sort_samples :
    (d : Direction) (uid : ℤ) (xs : List Sample) → owned d uid (sort_samples xs) ≡ owned d uid xs
unfolding sort_samples
owned-sort_samples d uid [] = refl
owned-sort_samples d uid (x ∷ xs) =
    omega (arith, owned-insert_sample d uid x (sort_samples xs), owned-sort_samples d uid xs)

AreNatural : (xs : List Sample) → All (λ s. is_counter s ≡ true) xs → All IsNatural xs
AreNatural [] h = tt
AreNatural (x ∷ xs) h = (IsNatural-of_counter x h.0, AreNatural xs h.1)

nothing-AreSmall : AreSmall []
unfolding get
nothing-AreSmall up uid = (refl, omega arith)
nothing-AreSmall down uid = (refl, omega arith)

before : (d : Direction) (uid : ℤ) (n : ℕ) → pos_part (reported d uid []) + n ≡ n
unfolding get
before up uid n = omega arith
before down uid n = omega arith

payload_made : {p q : Payload} → ok p ≡ ok q → p ≡ q
payload_made h = cc

-- In a report that `LegacyPayload` makes, the total of each user is the traffic of all rows of
-- the batch with this user, whatever their credentials, and is at most 2^53.
pub legacy_payload_totals :
    (sha256_hex : Bytes → Bytes) (b : Batch) (p : Payload) (d : Direction) (uid : ℤ)
    → legacy_payload sha256_hex b ≡ ok p
    → (reported d uid p.totals ≡ pos (owned d uid b.entries))
      × (owned d uid b.entries ≤ max_sequence)
unfolding legacy_payload payload_of
legacy_payload_totals sha256_hex b p d uid h =
    elim (Bool-cases (
      not (matches_scope b.scope)
      || not (valid_hex b.epoch 16)
      || ltb b.sequence 1
      || ltb max_sequence b.sequence
      || not (eqb_ℤ b.version (pos 1))
      || not (bytes_eq b.digest (hash sha256_hex b)))) [
        | inl e ↦
            let bad : ◌≡◌ {A = Result Payload} (err invalid_batch) (ok p) = rw e at h in absurd (cc)
        | inr e ↦
            let h' : samples b.entries
                  >>= (λ rows. add_rows [] rows >>= λ totals. ok (payload_of sha256_hex b totals))
                ≡ ok p =
              rw e at h in
            let (rows, sorted, k) = >>=-eq-ok _ _ h' in
            let (totals, sums, made) = >>=-eq-ok _ _ k in
            let (valid, differ, same, few) = samples-eq_ok b.entries rows sorted in
            let counters =
              All-sort_samples (λ s. is_counter s ≡ true) b.entries
                (All-of_all is_counter b.entries valid) in
            let natural =
              subst (All IsNatural) (sym same) (AreNatural (sort_samples b.entries) counters) in
            let r = add_rows-Adds rows [] totals natural nothing-AreSmall sums in
            let sorts = ap (owned d uid) same ∙ owned-sort_samples d uid b.entries in
            let out : reported d uid p.totals ≡ reported d uid totals =
              ap (λ q. reported d uid q.totals) (sym (payload_made made)) in
            let sum : reported d uid totals ≡ pos (owned d uid b.entries) =
              r.sums d uid ∙ ap pos (before d uid (owned d uid rows) ∙ sorts) in
            let top = (r.small d uid).1 in (out ∙ sum, omega (arith, ap pos_part sum, top))
      ]
