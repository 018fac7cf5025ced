-- ===== src/Transfer/Delta.antt =====
-- `delta` (outbox.go): what the counters grew by since the last committed inventory.
pub mod Growth
pub mod Laws
use v2b_x.Base.{
  ◌≡◌, Bool, ◌||◌, Option, none, some, List, [], ◌∷◌, Bytes, if◌then◌else◌, Assoc, get, put, del,
}
use v2b_x.Base.Int.{pos, ltb_ℤ, sub64}
use v2b_x.Transfer.Types.{Sample, Result, ok, err, ◌>>=◌, epoch, retired_disappeared, bytes_key}
use v2b_x.Transfer.Samples.{key}

-- The map `old` of the samples by their keys; a later sample replaces an earlier one.
unfoldable pub by_key : Assoc Bytes Sample → List Sample → Assoc Bytes Sample
by_key old [] = old
by_key old (s ∷ rest) = by_key (put bytes_key (key s) s old) rest

-- A missing key reads as the zero `Sample`.
abbrev pub zero_sample : Sample
zero_sample = record { uid = pos 0; credential = []; upload = pos 0; download = pos 0 }

abbrev pub or_zero : Option Sample → Sample
or_zero none = zero_sample
or_zero (some s) = s

-- One round of the second loop of `delta`: the row that it appends.
unfoldable pub grown : Sample → Sample → Result Sample
grown p s =
    if ltb_ℤ s.upload p.upload || ltb_ℤ s.download p.download
    then err epoch
    else ok (record s { upload = sub64 s.upload p.upload; download = sub64 s.download p.download })

-- The test `len(old) != 0` behind the loops.
unfoldable pub none_left : Assoc Bytes Sample → Result (List Sample)
none_left [] = ok []
none_left (_ ∷ _) = err retired_disappeared

-- The second loop of `delta`, and the test of what is left in `old`.
unfoldable pub delta_from : Assoc Bytes Sample → List Sample → Result (List Sample)
unfolding none_left
delta_from old [] = none_left old
delta_from old (s ∷ rest) =
    let later = delta_from (del bytes_key (key s) old) rest in
    do row ← grown (or_zero (get bytes_key (key s) old)) s; out ← later; ok (row ∷ out)

unfoldable pub delta : List Sample → List Sample → Result (List Sample)
delta before after = delta_from (by_key [] before) after
