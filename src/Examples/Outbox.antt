-- ===== src/Examples/Outbox.antt =====
-- Runs of the outbox in the world of `World`, and each theorem about it at a concrete input.
use v2b_x.Base.{
  ℕ, ◌+◌, ◌≡◌, refl, ◌↔◌, true, List, [], ◌∷◌, Bytes, All, all, length, arith, ◌*◌, map, ◌≤◌, get,
  put, del, bytes_eq,
}
use mathlib.Core.List.{Perm}
use v2b_x.Base.Int.{pos, sub64}
use v2b_x.Text.{
  codes, valid_hex, valid_hex_iff, is_lower_hex, hex_decode, hex_encode, from_hex_digit, hex_digit,
  decimal, show_int20, bytes_lt,
}
use v2b_x.Transfer.Types.{Sample, ok}
use v2b_x.Transfer.Samples.{
  key, is_counter, samples, insert_sample, sort_samples, neighbours_differ, max_samples,
}
use v2b_x.Transfer.Samples.Sorting.{IsInt64, IsInventory, samples-IsInventory}
use v2b_x.Transfer.Delta.{delta, delta_from, grown, by_key}
use v2b_x.Transfer.Delta.Growth.{down, amount}
use v2b_x.Transfer.Delta.Laws.{amount-delta, delta-IsInventory}

abbrev pub alice : Bytes
alice = codes "aaaaaaaaaaaaaaaaaaaaaaaaaaaaaaaaaaaaaaaaaaaaaaaaaaaaaaaaaaaaaaaa"

abbrev pub bob : Bytes
bob = codes "bbbbbbbbbbbbbbbbbbbbbbbbbbbbbbbbbbbbbbbbbbbbbbbbbbbbbbbbbbbbbbbb"

abbrev pub row : ℕ → Bytes → ℕ → ℕ → Sample
row uid credential sent got = record {
  uid = pos uid;
  credential = credential;
  upload = pos sent;
  download = pos got;
}

abbrev pub first_rows : List Sample
first_rows = row 2 bob 30 40 ∷ row 1 alice 10 20 ∷ []

abbrev pub sorted_rows : List Sample
sorted_rows = row 1 alice 10 20 ∷ row 2 bob 30 40 ∷ []

abbrev pub later_rows : List Sample
later_rows = row 1 alice 15 20 ∷ row 2 bob 30 44 ∷ []

-- What the tests on texts compute with.
unfoldable pub texts : Unit {0}
unfolding valid_hex hex_decode hex_encode from_hex_digit hex_digit bytes_eq decimal show_int20
    bytes_lt key
texts = tt

-- What the outbox computes with.
unfoldable pub program : Unit {0}
unfolding texts samples is_counter sort_samples insert_sample neighbours_differ delta delta_from
    grown by_key get put del sub64
program = tt

sort_test : samples first_rows ≡ ok sorted_rows
unfolding program
sort_test = refl

pub first_rows-IsInt64 : All IsInt64 first_rows
first_rows-IsInt64 = omega arith

valid_hex_iff_example :
    (valid_hex alice 32 ≡ true) ↔ ((length alice ≡ 2 * 32) × (all is_lower_hex alice ≡ true))
valid_hex_iff_example = valid_hex_iff alice 32

samples-IsInventory_example :
    IsInventory sorted_rows × Perm sorted_rows first_rows × (length first_rows ≤ max_samples)
samples-IsInventory_example =
    samples-IsInventory first_rows sorted_rows first_rows-IsInt64 sort_test

pub sorted_rows-IsInventory : IsInventory sorted_rows
unfolding texts is_counter
sorted_rows-IsInventory = record {
  counters = (refl, (refl, tt));
  ascending = ((refl, tt), (tt, tt));
  range = omega arith;
}

pub later_rows-IsInventory : IsInventory later_rows
unfolding texts is_counter
later_rows-IsInventory = record {
  counters = (refl, (refl, tt));
  ascending = ((refl, tt), (tt, tt));
  range = omega arith;
}

abbrev pub growth : List Sample
growth = row 1 alice 5 0 ∷ row 2 bob 0 4 ∷ []

delta_test : delta sorted_rows later_rows ≡ ok growth
unfolding program
delta_test = refl

amount-delta_example :
    amount down (key (row 2 bob 0 0)) later_rows
    ≡ amount down (key (row 2 bob 0 0)) sorted_rows + amount down (key (row 2 bob 0 0)) growth
amount-delta_example =
    amount-delta down (key (row 2 bob 0 0)) sorted_rows later_rows growth sorted_rows-IsInventory
      later_rows-IsInventory delta_test

delta-IsInventory_example : IsInventory growth × (map key growth ≡ map key later_rows)
delta-IsInventory_example =
    delta-IsInventory sorted_rows later_rows growth sorted_rows-IsInventory later_rows-IsInventory
      delta_test
