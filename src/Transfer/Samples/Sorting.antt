-- ===== src/Transfer/Samples/Sorting.antt =====
-- `samples` returns the counters that it was given, sorted, valid and with distinct keys.
use mathlib.Core.List.{Perm}
use mathlib.Core.List.Perm
use v2b_x.Base.{
  ◌≤◌, ◌≡◌, true, false, List, [], ◌∷◌, arith, Bytes, length, bytes_eq_iff, all, All, All-map,
  All-of_all, Bool-cases, inl, inr,
}
use v2b_x.Base.Int.{pos_part, max_int64}
use v2b_x.Text.{bytes_lt, bytes_lt_irrefl, bytes_lt_trans, bytes_lt_connex, bytes_lt_of_not}
use v2b_x.Transfer.Types.{Sample, ok}
use v2b_x.Transfer.Samples.{
  key, is_counter, insert_sample, sort_samples, neighbours_differ, samples, max_samples,
}

-- Each key is less than all that follow it.
abbrev pub IsAscending : List Sample → Type 0
IsAscending [] = Unit
IsAscending (x ∷ xs) = All (λ y. bytes_lt (key x) (key y) ≡ true) xs × IsAscending xs

-- No key is less than one that stands before it.
abbrev IsSorted : List Sample → Type 0
IsSorted [] = Unit
IsSorted (x ∷ xs) = All (λ y. bytes_lt (key y) (key x) ≡ false) xs × IsSorted xs

All-insert_sample {κ} :
    (P : Sample → Type κ) (s : Sample) (xs : List Sample)
    → P s
    → All P xs
    → All P (insert_sample s xs)
unfolding insert_sample
All-insert_sample P s [] h k = (h, tt)
All-insert_sample P s (x ∷ xs) h k = elim (Bool-cases (bytes_lt (key x) (key s))) [
  | inl e ↦ rw e (k.0, All-insert_sample P s xs h k.1)
  | inr e ↦ rw e (h, k)
]

pub All-sort_samples {κ} :
    (P : Sample → Type κ) (xs : List Sample) → All P xs → All P (sort_samples xs)
unfolding sort_samples
All-sort_samples P [] h = tt
All-sort_samples P (x ∷ xs) h =
    All-insert_sample P x (sort_samples xs) h.0 (All-sort_samples P xs h.1)

lt_asymm : (s t : Bytes) → bytes_lt s t ≡ true → bytes_lt t s ≡ false
lt_asymm s t h = ground (arith, bytes_lt_trans s t s, bytes_lt_irrefl s)

insert_sample-IsSorted :
    (s : Sample) (xs : List Sample) → IsSorted xs → IsSorted (insert_sample s xs)
unfolding insert_sample
insert_sample-IsSorted s [] h = (tt, tt)
insert_sample-IsSorted s (x ∷ xs) h = elim (Bool-cases (bytes_lt (key x) (key s))) [
  | inl e ↦ rw e (
    All-insert_sample (λ y. bytes_lt (key y) (key x) ≡ false) s xs (lt_asymm _ _ e) h.0,
    insert_sample-IsSorted s xs h.1,
  )
  | inr e ↦ rw e (
    (
      e,
      All-map _ (λ y. bytes_lt (key y) (key s) ≡ false)
          (λ y n. ground (arith, bytes_lt_of_not (key y) (key x) (key s))) xs h.0,
    ),
    h,
  )
]

sort_samples-IsSorted : (xs : List Sample) → IsSorted (sort_samples xs)
unfolding sort_samples
sort_samples-IsSorted [] = tt
sort_samples-IsSorted (x ∷ xs) = insert_sample-IsSorted x _ (sort_samples-IsSorted xs)

IsAscending-of_sorted :
    (xs : List Sample) → IsSorted xs → neighbours_differ xs ≡ true → IsAscending xs
unfolding neighbours_differ
IsAscending-of_sorted [] h k = tt
IsAscending-of_sorted (x ∷ []) h k = (tt, tt)
IsAscending-of_sorted (x ∷ y ∷ xs) h k =
    let tail = IsAscending-of_sorted (y ∷ xs) h.1 (ground arith) in
    let lt : bytes_lt (key x) (key y) ≡ true =
      ground (arith, bytes_lt_connex (key x) (key y), bytes_eq_iff (key x) (key y)) in
    (
      (
        lt,
        All-map _ (λ z. bytes_lt (key x) (key z) ≡ true)
            (λ z m. bytes_lt_trans (key x) (key y) (key z) lt m) xs tail.0,
      ),
      tail,
    )

insert_sample-perm : (s : Sample) (xs : List Sample) → Perm (insert_sample s xs) (s ∷ xs)
unfolding insert_sample
insert_sample-perm s [] = Perm.refl (s ∷ [])
insert_sample-perm s (x ∷ xs) = elim (Bool-cases (bytes_lt (key x) (key s))) [
  | inl e ↦ rw e (Perm.trans (Perm.cons x (insert_sample-perm s xs)) (Perm.swap s x xs))
  | inr e ↦ rw e (Perm.refl (s ∷ x ∷ xs))
]

sort_samples-perm : (xs : List Sample) → Perm (sort_samples xs) xs
unfolding sort_samples
sort_samples-perm [] = Perm.refl []
sort_samples-perm (x ∷ xs) =
    Perm.trans (insert_sample-perm x (sort_samples xs)) (Perm.cons x (sort_samples-perm xs))

-- What Go's types say of a sample: both counters fit in an int64.
pub record IsInt64 (s : Sample) : Type 0 where
  pub up : pos_part s.upload ≤ max_int64
  pub down : pos_part s.download ≤ max_int64

-- An inventory as the journal keeps it: valid counters in the strict order of their keys.
pub record IsInventory (xs : List Sample) : Type 0 where
  pub counters : All (λ s. is_counter s ≡ true) xs
  pub ascending : IsAscending xs
  pub range : All IsInt64 xs

pub samples-eq_ok :
    (xs ys : List Sample)
    → samples xs ≡ ok ys
    → (all is_counter xs ≡ true)
      × (neighbours_differ (sort_samples xs) ≡ true)
      × (ys ≡ sort_samples xs)
      × (length xs ≤ max_samples)
unfolding samples
samples-eq_ok xs ys h = ground arith

-- A list that `samples` returns is a permutation of its input, with valid counters in the strict
-- order of their keys, and there are at most `max_samples` of them in the input.
pub samples-IsInventory :
    (xs ys : List Sample)
    → All IsInt64 xs
    → samples xs ≡ ok ys
    → IsInventory ys × Perm ys xs × (length xs ≤ max_samples)
samples-IsInventory xs ys r h =
    let (valid, differ, e, small) = samples-eq_ok xs ys h in
    rw e (
      record {
        counters = All-sort_samples (λ s. is_counter s ≡ true) xs (All-of_all is_counter xs valid);
        ascending = IsAscending-of_sorted _ (sort_samples-IsSorted xs) differ;
        range = All-sort_samples IsInt64 xs r;
      },
      sort_samples-perm xs,
      small,
    )
