-- ===== src/Examples/System.antt =====
-- A node from its installation on: the first flush loses its acknowledgement, the next one delivers.
use v2b_x.Base.{◌≡◌, refl, ◌⊎◌, none, some, [], Bytes}
use v2b_x.Text.{codes}
use v2b_x.Transfer.Types.{ok, PendingBatch, Ack}
use v2b_x.Transfer.Samples.{key}
use v2b_x.Transfer.Delta.Growth.{Direction, down, amount}
use v2b_x.Transfer.Env.{State}
use v2b_x.Transfer.Contract.{total}
use v2b_x.Transfer.Outbox.{
  save, replay, flush, batch_of, breaks_proof, acknowledged, stored, replay_pending,
}
use v2b_x.Transfer.Wire.{hash, wire, entry_lines, entry_line}
use native.Mathlib.Omega.{arith}
use v2b_x.Transfer.Outbox.Delivery.{Inv}
use v2b_x.Transfer.Outbox.Flush.{flush_books, flush_receipt}
use v2b_x.Transfer.Open.{open_box, blank, matches_scope, first_journal}
use v2b_x.Transfer.System.{Node, Step, Reach, exactly_once, Reach-NodeInv}
use v2b_x.Examples.World.{World, env, books_of, contract, digest}
use v2b_x.Examples.Outbox.{program, bob, row, first_rows, first_rows-IsInt64, later_rows}

abbrev pub generation : Bytes
generation = codes "0123456789abcdef0123456789abcdef"

-- An installed node; the receiver's first acknowledgement will be lost.
abbrev pub new_world : World
new_world = record {
  disk = some none;
  books = [];
  rows = first_rows;
  fenced = [];
  epoch = generation;
  lost = 1;
  broken = 0;
}

abbrev pub started : State World
started = (open_box env (codes "node-1") generation (blank env new_world)).1

abbrev pub lossy : State World
lossy = (flush env first_rows started).1

opens : (open_box env (codes "node-1") generation (blank env new_world)).0 ≡ ok tt
unfolding program env open_box save matches_scope first_journal
opens = refl

pub run_started : Reach env books_of new_world (Node.up started)
run_started = Reach.next Reach.installed (Step.starts new_world (codes "node-1") generation opens)

Reach-NodeInv_example : Inv env books_of contract started
unfolding env
Reach-NodeInv_example =
    Reach-NodeInv env books_of contract new_world (Node.up started) none refl refl refl run_started

exactly_once_example :
    ((d : Direction) (k : Bytes)
      → total d k lossy.world.books ≡ amount d k lossy.box.state.committed)
    ⊎ ((p : PendingBatch) × (lossy.box.state.pending ≡ some p)
        × ((d : Direction) (k : Bytes) → total d k lossy.world.books ≡ amount d k p.through))
exactly_once_example =
    exactly_once env books_of contract new_world none lossy (unfold env in refl)
      (unfold env in refl) refl
      (Reach.next run_started (Step.flushes started first_rows first_rows-IsInt64))

-- What the runs compute with.
unfoldable pub runs : Unit {0}
unfolding program env open_box save matches_scope first_journal flush replay batch_of breaks_proof
    acknowledged stored replay_pending hash wire entry_lines entry_line
runs = tt

-- The acknowledgement was lost, and the batch is pending still.
lossy_pends : (p : PendingBatch) × (lossy.box.state.pending ≡ some p)
unfolding runs
lossy_pends = (_, refl)

abbrev pub receipt : Ack
receipt = record { scope = codes "node-1"; epoch = generation; sequence = 2; digest = digest }

retried : (flush env later_rows lossy).0 ≡ ok (some receipt)
unfolding runs
retried = refl

pub lossy_run : Reach env books_of new_world (Node.up lossy)
lossy_run = Reach.next run_started (Step.flushes started first_rows first_rows-IsInt64)

pub lossy_disk : env.load lossy.world ≡ some (env.marshal lossy.box.state)
unfolding runs
lossy_disk = refl

pub lossy-Inv : Inv env books_of contract lossy
unfolding env
lossy-Inv =
    Reach-NodeInv env books_of contract new_world (Node.up lossy) none refl refl refl lossy_run

flush_books_example :
    total down (key (row 2 bob 0 0)) (flush env later_rows lossy).1.world.books
    ≡ amount down (key (row 2 bob 0 0)) later_rows
flush_books_example =
    flush_books env books_of contract later_rows lossy (some receipt) (omega arith) lossy-Inv
      retried down (key (row 2 bob 0 0))

flush_receipt_example :
    (x : Ack) × (some receipt ≡ some x)
    × ((flush env later_rows lossy).1.box.state.last_ack ≡ some x)
flush_receipt_example =
    flush_receipt env books_of contract later_rows lossy (some receipt) (omega arith) lossy-Inv
      retried
