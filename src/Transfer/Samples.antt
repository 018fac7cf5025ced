-- ===== src/Transfer/Samples.antt =====
-- `key`, `samples` and `containsFinal` (outbox.go, drain.go): the inventory of counters in the
-- order of its keys.
pub mod Sorting
pub mod Keys
use v2b_x.Base.{
  ℕ, zero, suc, ◌+◌, ◌≤◌, ◌<◌, ◌≡◌, Bool, true, false, ◌&&◌, ◌||◌, not, Option, none, some, List,
  [], ◌∷◌, ◌++◌, arith, leb, ltb, ◌==◌, if◌then◌else◌, Bytes, length, bytes_eq, all,
}
use v2b_x.Base.Int.{ℤ, pos, negsuc, eqb_ℤ, ltb_ℤ, leb_ℤ}
use v2b_x.Text.{show_int20, colon, valid_hex, bytes_lt}
use v2b_x.Transfer.Types.{
  Sample, sample_eq, Result, ok, err, ◌>>=◌, inventory_capacity, invalid_counter,
  duplicate_identity,
}

abbrev pub max_samples : ℕ
max_samples = 10000

-- `fmt.Sprintf("%020d:%s", s.UID, s.Credential)`
unfoldable pub key : Sample → Bytes
key s = show_int20 s.uid ++ colon ∷ s.credential

-- The test that refuses a sample, in the loop of `samples`.
unfoldable pub is_counter : Sample → Bool
is_counter s = not (
    leb_ℤ s.uid (pos 0)
    || not (valid_hex s.credential 32)
    || ltb_ℤ s.upload (pos 0)
    || ltb_ℤ s.download (pos 0))

-- `sort.Slice` by the keys. It is not stable, and the code refuses equal keys right after it, so
-- that every sorting gives the same list where one is returned.
unfoldable pub insert_sample : Sample → List Sample → List Sample
insert_sample s [] = s ∷ []
insert_sample s (x ∷ xs) = if bytes_lt (key x) (key s) then x ∷ insert_sample s xs else s ∷ x ∷ xs

unfoldable pub sort_samples : List Sample → List Sample
sort_samples [] = []
sort_samples (x ∷ xs) = insert_sample x (sort_samples xs)

-- No two neighbours have one key.
unfoldable pub neighbours_differ : List Sample → Bool
neighbours_differ [] = true
neighbours_differ (x ∷ []) = true
neighbours_differ (x ∷ y ∷ xs) = not (bytes_eq (key x) (key y)) && neighbours_differ (y ∷ xs)

unfoldable pub samples : List Sample → Result (List Sample)
samples xs =
    if ltb max_samples (length xs)
    then err inventory_capacity
    else if not (all is_counter xs)
    then err invalid_counter
    else if neighbours_differ (sort_samples xs)
    then ok (sort_samples xs)
    else err duplicate_identity

-- The rows of an identity, as `containsFinal` looks for them: `none` at a row that differs.
unfoldable pub count_final : ℕ → List Sample → Sample → Option ℕ
count_final found [] final = some found
count_final found (r ∷ rows) final =
    let skip = count_final found rows final in
    let next = count_final (found + 1) rows final in
    if eqb_ℤ r.uid final.uid && bytes_eq r.credential final.credential
    then (if sample_eq r final then next else none)
    else skip

unfoldable pub contains_final : List Sample → Sample → Bool
unfolding count_final
contains_final rows final = elim (count_final 0 rows final) [ none ↦ false | some n ↦ n == 1 ]
