-- ===== src/Examples/Legacy.antt =====
-- `FlushLegacy` behind a retried flush: one small growth is held back, and one is reported.
use v2b_x.Base.{◌≡◌, refl, true, none, some, List, [], ◌∷◌, All, arith}
use v2b_x.Base.Int.{pos}
use v2b_x.Transfer.Types.{Sample, Ack, ok}
use v2b_x.Transfer.Samples.{key}
use v2b_x.Transfer.Samples.Sorting.{IsInt64}
use v2b_x.Transfer.Env.{State}
use v2b_x.Transfer.Outbox.{flush}
use v2b_x.Transfer.Outbox.Delivery.{Inv}
use v2b_x.Transfer.Legacy.{held_back, flush_legacy}
use v2b_x.Transfer.Legacy.Delivery.{IsBookedFor, flush_legacy_books}
use v2b_x.Transfer.System.{Node, Step, Reach, Reach-NodeInv}
use v2b_x.Examples.World.{World, env, books_of, contract}
use v2b_x.Examples.Outbox.{alice, bob, row, later_rows}
use v2b_x.Examples.System.{new_world, lossy, lossy_run, runs, receipt}

abbrev delivered : State World
delivered = (flush env later_rows lossy).1

later_range : All IsInt64 later_rows
later_range = omega arith

delivered-Inv : Inv env books_of contract delivered
unfolding env
delivered-Inv =
    Reach-NodeInv env books_of contract new_world (Node.up delivered) none refl refl refl
      (Reach.next lossy_run (Step.flushes lossy later_rows later_range))

abbrev legacy_box : State World
legacy_box = record delivered { box = record delivered.box { legacy = true } }

legacy-Inv : Inv env books_of contract legacy_box
legacy-Inv = record { settled = delivered-Inv.settled; disk = delivered-Inv.disk }

abbrev final_rows : List Sample
final_rows = row 1 alice 1000 2001 ∷ row 2 bob 90000 90000 ∷ []

abbrev third : Ack
third = record receipt { sequence = 3 }

legacy_runs : Unit {0}
unfolding runs held_back flush_legacy
legacy_runs = tt

reports : (flush_legacy env final_rows (pos 1000) legacy_box).0 ≡ ok (some third)
unfolding legacy_runs
reports = refl

idle : legacy_box.box.state.pending ≡ none
unfolding legacy_runs
idle = refl

-- The first user's growth is within the threshold, the second one's is not.
flush_legacy_books_example :
    IsBookedFor 1000
      (key (row 2 bob 90000 90000))
      legacy_box.box.state.committed
      final_rows
      (books_of (flush_legacy env final_rows (pos 1000) legacy_box).1.world)
flush_legacy_books_example =
    flush_legacy_books env books_of contract final_rows 1000 legacy_box (some third)
      (key (row 2 bob 90000 90000)) (omega arith) (omega arith) legacy-Inv idle reports
