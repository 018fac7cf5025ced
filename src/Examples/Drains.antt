-- ===== src/Examples/Drains.antt =====
-- A drain and a session from the state in which the first acknowledgement got lost.
use v2b_x.Base.{◌≡◌, refl, true, false, none, [], ◌∷◌, Bytes}
use v2b_x.Base.Int.{pos, add64}
use v2b_x.Text.{codes}
use v2b_x.Transfer.Types.{ok, DrainRequest, DrainProof}
use v2b_x.Transfer.Samples.{key, contains_final}
use v2b_x.Transfer.Delta.Growth.{Direction, traffic}
use v2b_x.Transfer.Env.{State}
use v2b_x.Transfer.Contract.{total}
use v2b_x.Transfer.Outbox.Delivery.{Inv}
use v2b_x.Transfer.Reservation.{valid_request, can_reserve, has_room, validate_reservations}
use v2b_x.Transfer.Drain.{
  drain, prove, hold, conclude, find_row, status_error, still_drained, is_stable, held_journal,
  proved_journal, fence_all,
}
use v2b_x.Transfer.Drain.Proofs.{drain_records, prove_books}
use v2b_x.Transfer.Drain.Safety.{IsRecorded}
use v2b_x.Transfer.Session.{
  CounterSession, begin_counter_session, seal, seal_open, seal_known, session_journal, begin_error,
  next_recovery, snapshot, fence_base, quiesce, closed, is_closed, rows_eq, sealed_journal,
  flush_rows,
}
use v2b_x.Transfer.Rows.{combine, combined_rows}
use v2b_x.Transfer.Open.{open_box, blank}
use v2b_x.Transfer.Open.Recovery.{OnDisk, open_recovers}
use v2b_x.Transfer.System.{Node, Step, Reach, Reach-NodeInv}
use v2b_x.Examples.World.{World, env, books_of, contract}
use v2b_x.Examples.Outbox.{alice, bob, row, first_rows}
use v2b_x.Examples.System.{
  generation, new_world, started, lossy, lossy_run, lossy_disk, lossy-Inv, runs, receipt,
}

-- What the runs compute with.
drain_runs : Unit {0}
unfolding runs drain prove hold conclude find_row status_error still_drained is_stable held_journal
    proved_journal valid_request can_reserve has_room contains_final
drain_runs = tt

abbrev request : DrainRequest
request = record {
  id = codes "fedcba9876543210fedcba9876543210";
  identity = record { uid = pos 1; credential = alice };
}

-- The identity is fenced already.
abbrev fenced : State World
fenced = record lossy { world = record lossy.world { fenced = request.identity ∷ [] } }

fenced-Inv : Inv env books_of contract fenced
unfolding env
fenced-Inv =
    Reach-NodeInv env books_of contract new_world (Node.up fenced) none refl refl refl
      (Reach.next lossy_run (Step.serves lossy fenced.world refl refl))

abbrev proof_of : DrainProof
proof_of = record {
  request = request;
  scope = codes "node-1";
  epoch = generation;
  final = row 1 alice 10 20;
  receipt = receipt;
}

proves : (prove env request fenced).0 ≡ ok proof_of
unfolding drain_runs
proves = refl

prove_books_example :
    (proof_of.request ≡ request)
    × (proof_of.final.uid ≡ pos 1)
    × (proof_of.final.credential ≡ alice)
    × IsRecorded env books_of contract request proof_of (prove env request fenced).1
    × ((d : Direction)
        → total d (key proof_of.final) (prove env request fenced).1.world.books
          ≡ traffic d proof_of.final)
prove_books_example = prove_books env books_of contract request fenced proof_of fenced-Inv proves

drains : (drain env request lossy).0 ≡ ok proof_of
unfolding drain_runs
drains = refl

drain_records_example :
    IsRecorded env books_of contract request proof_of (drain env request lossy).1
drain_records_example = drain_records env books_of contract request lossy proof_of lossy-Inv drains

reopens : (open_box env (codes "node-1") generation (blank env lossy.world)).0 ≡ ok tt
unfolding drain_runs validate_reservations rows_eq
reopens = refl

open_recovers_example :
    Inv env books_of contract (open_box env (codes "node-1") generation (blank env lossy.world)).1
open_recovers_example =
    open_recovers env books_of contract (codes "node-1") generation lossy.world
      (OnDisk.settled lossy.box.state (lossy_disk) lossy-Inv.settled) reopens

abbrev process : Bytes
process = codes "aaaabbbbccccddddaaaabbbbccccdddd"

-- A session begins before any traffic.
abbrev quiet_state : State World
quiet_state = record started { world = record started.world { rows = []; lost = 0 } }

abbrev begun : State World
begun = (begin_counter_session env process false quiet_state).1

abbrev session : CounterSession
session = record {
  base = [];
  process = process;
  epoch = generation;
  sealed = false;
  uncertain = false;
}

-- Traffic has flowed, and the connections are closed.
abbrev busy : State World
busy = record begun {
  world = record begun.world {
    rows = first_rows;
    fenced =
        record { uid = pos 1; credential = alice } ∷ record { uid = pos 2; credential = bob } ∷ [];
  };
}

session_runs : Unit {0}
unfolding drain_runs begin_counter_session session_journal begin_error next_recovery seal seal_open
    seal_known snapshot quiesce closed is_closed rows_eq sealed_journal flush_rows combine
    combined_rows fence_all fence_base add64
session_runs = tt

seals_all : (seal env session busy).0 ≡ ok (record session { sealed = true })
unfolding session_runs
seals_all = refl
