-- ===== src/Transfer/Legacy.antt =====
-- `FlushLegacy` (legacy.go): a report that leaves small growths for a later one.
pub mod Growths
pub mod Delivery
pub mod Payload
pub mod Sums
pub mod Totals
use v2b_x.Base.{
  ◌≡◌, Bool, true, false, ◌&&◌, not, Option, none, some, List, [], ◌∷◌, Bytes, if◌then◌else◌, Assoc,
  get,
}
use v2b_x.Base.Int.{ℤ, pos, ltb_ℤ, leb_ℤ, sub64}
use v2b_x.Transfer.Types.{invalid_threshold, Sample, Ack, bytes_key}
use v2b_x.Transfer.Samples.{key, samples}
use v2b_x.Transfer.Delta.{by_key, or_zero, delta}
use v2b_x.Transfer.Env.{Env, Action, ◌>>=◌, ◌>>◌, pure, guard, box_of}
use v2b_x.Transfer.Outbox.{replay, flush}

-- The growth of a row stays within the threshold.
abbrev pub is_small : ℤ → Sample → Bool
is_small threshold change =
    leb_ℤ change.upload threshold && leb_ℤ change.download (sub64 threshold change.upload)

-- The row of the report: the counters of the last one, where the growth is small.
abbrev pub held_row : Bool → Sample → Sample → Sample
held_row small prior row =
    if small then record row { upload = prior.upload; download = prior.download } else row

-- The loop over the changes, which stand at the indices of their rows.
unfoldable pub held_back : ℤ → Assoc Bytes Sample → List Sample → List Sample → List Sample
held_back threshold before (change ∷ changes) (row ∷ rows) =
    held_row (is_small threshold change) (or_zero (get bytes_key (key change) before)) row
    ∷ held_back threshold before changes rows
held_back threshold before [] rows = rows
held_back threshold before (_ ∷ _) [] = []

module _ {W T : Type 0} (env : Env W T) where
  unfoldable pub flush_legacy : List Sample → ℤ → Action W (Option Ack)
  unfolding held_back
  flush_legacy totals threshold = do
    box ← box_of
    guard (box.legacy && not (ltb_ℤ threshold (pos 0))) invalid_threshold
    _ ← replay env
    box ← box_of
    after ← pure (samples totals)
    changes ← pure (delta box.state.committed after)
    flush env (held_back threshold (by_key [] box.state.committed) changes after)
