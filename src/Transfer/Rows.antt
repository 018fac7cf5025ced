-- ===== src/Transfer/Rows.antt =====
-- `CounterSession.Snapshot` (counter_session.go): the raw counters of the process over the base that
-- the journal carries.
use v2b_x.Base.{◌||◌, List, [], ◌∷◌, if◌then◌else◌, Bytes, Assoc, get, put}
use v2b_x.Base.Int.{pos, ltb_ℤ, add64, sub64, max_int64}
use v2b_x.Transfer.Types.{counter_overflow, Result, ok, err, ◌>>=◌, Sample, bytes_key}
use v2b_x.Transfer.Samples.{key, samples}
use v2b_x.Transfer.Delta.{by_key, or_zero}

-- The loop of `Snapshot` that adds the raw counters to the base: the map `combined`.
unfoldable pub combine : Assoc Bytes Sample → List Sample → Result (Assoc Bytes Sample)
combine combined [] = ok combined
combine combined (r ∷ rest) =
    let b = or_zero (get bytes_key (key r) combined) in
    let more =
      combine
        (put bytes_key (key r)
          (record r { upload = add64 r.upload b.upload; download = add64 r.download b.download })
          combined)
        rest in
    if ltb_ℤ (sub64 (pos max_int64) b.upload) r.upload
      || ltb_ℤ (sub64 (pos max_int64) b.download) r.download
    then err counter_overflow
    else more

abbrev pub values : {V : Type 0} → Assoc Bytes V → List V
values [] = []
values ((_, v) ∷ rest) = v ∷ values rest

-- `Snapshot` behind the raw counters. The rows of the map come in some order, which `samples` sorts.
unfoldable pub combined_rows : List Sample → List Sample → Result (List Sample)
unfolding combine
combined_rows base raw = do
  rows ← samples raw
  combined ← combine (by_key [] base) rows
  samples (values combined)
