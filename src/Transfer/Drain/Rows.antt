-- ===== src/Transfer/Drain/Rows.antt =====
-- The row that `Drain` takes as the final counter has all the traffic of its identity.
use v2b_x.Base.{
  ℕ, ◌+◌, ◌≤◌, ◌≡◌, refl, ◌∙◌, subst, ◌⊎◌, true, ◌&&◌, some, List, [], ◌∷◌, All, arith, Bytes,
  bytes_eq, bytes_eq_iff, bytes_eq_refl, if◌then◌else◌, Bool-cases, inl, inr,
}
use v2b_x.Base.Int.{ℤ, eqb_ℤ, eqb_ℤ_iff}
use v2b_x.Text.{bytes_lt, bytes_lt_irrefl}
use v2b_x.Transfer.Types.{Sample, ok}
use v2b_x.Transfer.Samples.{key, insert_sample, sort_samples, samples}
use v2b_x.Transfer.Samples.Sorting.{IsAscending, IsInt64, samples-eq_ok, samples-IsInventory}
use v2b_x.Transfer.Delta.Growth.{Direction, traffic, amount}
use v2b_x.Transfer.Drain.{find_row}

-- How many rows have the key.
copies : Bytes → List Sample → ℕ
copies k [] = 0
copies k (s ∷ xs) = (if bytes_eq (key s) k then 1 else 0) + copies k xs

copies-insert_sample :
    (k : Bytes) (s : Sample) (xs : List Sample) → copies k (insert_sample s xs) ≡ copies k (s ∷ xs)
unfolding insert_sample copies
copies-insert_sample k s [] = refl
copies-insert_sample k s (x ∷ xs) = elim (Bool-cases (bytes_lt (key x) (key s))) [
  | inl e ↦ rw e (omega (arith, copies-insert_sample k s xs))
  | inr e ↦ rw e
]

copies-sort_samples : (k : Bytes) (xs : List Sample) → copies k (sort_samples xs) ≡ copies k xs
unfolding sort_samples copies
copies-sort_samples k [] = refl
copies-sort_samples k (x ∷ xs) =
    omega (arith, copies-insert_sample k x (sort_samples xs), copies-sort_samples k xs)

copies_above :
    (k : Bytes) (xs : List Sample) → All (λ y. bytes_lt k (key y) ≡ true) xs → copies k xs ≡ 0
unfolding copies
copies_above k [] h = refl
copies_above k (x ∷ xs) h =
    ground (arith, copies_above k xs h.1, bytes_eq_iff (key x) k, bytes_lt_irrefl k)

copies_ascending : (k : Bytes) (xs : List Sample) → IsAscending xs → copies k xs ≤ 1
unfolding copies
copies_ascending k [] h = omega arith
copies_ascending k (x ∷ xs) h = elim (Bool-cases (bytes_eq (key x) k)) [
  | inl e ↦
      let same : key x ≡ k = (bytes_eq_iff (key x) k).0 e in
      rw e (omega (arith, copies_above k xs (rw (← same) h.0)))
  | inr e ↦ rw e (omega (arith, copies_ascending k xs h.1))
]

copies_found :
    (uid : ℤ) (credential : Bytes) (xs : List Sample) (f : Sample)
    → find_row uid credential xs ≡ some f
    → 1 ≤ copies (key f) xs
unfolding find_row copies
copies_found uid credential [] f h = absurd (cc)
copies_found uid credential (x ∷ xs) f h =
    ground (arith, copies_found uid credential xs f, bytes_eq_refl (key f))

amount_absent : (d : Direction) (k : Bytes) (xs : List Sample) → copies k xs ≡ 0 → amount d k xs ≡ 0
unfolding copies
amount_absent d k [] h = refl
amount_absent d k (x ∷ xs) h = ground (arith, amount_absent d k xs)

amount_head :
    (d : Direction) (x : Sample) (xs : List Sample)
    → copies (key x) (x ∷ xs) ≤ 1
    → amount d (key x) (x ∷ xs) ≡ traffic d x
unfolding copies
amount_head d x xs one = ground (arith, amount_absent d (key x) xs, bytes_eq_refl (key x))

amount_tail :
    (d : Direction) (k : Bytes) (x : Sample) (xs : List Sample)
    → copies k (x ∷ xs) ≤ 1
    → 1 ≤ copies k xs
    → (amount d k (x ∷ xs) ≡ amount d k xs) × (copies k xs ≤ 1)
unfolding copies
amount_tail d k x xs one found = elim (Bool-cases (bytes_eq (key x) k)) [
  | inl e ↦ absurd (ground arith)
  | inr e ↦ (rw e (omega arith), ground arith)
]

find_row-inv :
    (uid : ℤ) (credential : Bytes) (x : Sample) (xs : List Sample) (f : Sample)
    → find_row uid credential (x ∷ xs) ≡ some f
    → (x ≡ f) ⊎ (find_row uid credential xs ≡ some f)
unfolding find_row
find_row-inv uid credential x xs f h =
    elim (Bool-cases (eqb_ℤ x.uid uid && bytes_eq x.credential credential)) [
      | inl here ↦ let e : some x ≡ some f = rw here at h in inl (cc)
      | inr there ↦ inr (rw there at h)
    ]

amount_found :
    (d : Direction) (uid : ℤ) (credential : Bytes) (xs : List Sample) (f : Sample)
    → find_row uid credential xs ≡ some f
    → copies (key f) xs ≤ 1
    → amount d (key f) xs ≡ traffic d f
amount_found d uid credential [] f h one = absurd (unfold find_row in cc)
amount_found d uid credential (x ∷ xs) f h one = elim (find_row-inv uid credential x xs f h) [
  | inl same ↦
      subst (λ g. copies (key g) (x ∷ xs) ≤ 1 → amount d (key g) (x ∷ xs) ≡ traffic d g) same
        (amount_head d x xs) one
  | inr later ↦
      let (step, rest) = amount_tail d (key f) x xs one (copies_found uid credential xs f later) in
      step ∙ amount_found d uid credential xs f later rest
]

-- In counters that `samples` accepts, the row of an identity has all the traffic of its key.
pub amount_of_row :
    (d : Direction) (uid : ℤ) (credential : Bytes) (xs ys : List Sample) (f : Sample)
    → All IsInt64 xs
    → samples xs ≡ ok ys
    → find_row uid credential xs ≡ some f
    → amount d (key f) xs ≡ traffic d f
amount_of_row d uid credential xs ys f r h e =
    let (_, _, sorted, _) = samples-eq_ok xs ys h in
    let v = (samples-IsInventory xs ys r h).0 in
    amount_found d uid credential xs f e (
      rw (← copies-sort_samples (key f) xs)
        (rw (← sorted) (copies_ascending (key f) ys v.ascending)))

-- The row that is found is of the identity.
pub find_row_identity :
    (uid : ℤ) (credential : Bytes) (xs : List Sample) (f : Sample)
    → find_row uid credential xs ≡ some f
    → (f.uid ≡ uid) × (f.credential ≡ credential)
unfolding find_row
find_row_identity uid credential [] f h = absurd (cc)
find_row_identity uid credential (x ∷ xs) f h =
    elim (Bool-cases (eqb_ℤ x.uid uid && bytes_eq x.credential credential)) [
      | inl here ↦
          let e : some x ≡ some f = rw here at h in
          let same : x ≡ f = cc in
          rw (← same) (
            (eqb_ℤ_iff x.uid uid).0 (ground arith),
            (bytes_eq_iff x.credential credential).0 (ground arith),
          )
      | inr there ↦ find_row_identity uid credential xs f (rw there at h)
    ]
