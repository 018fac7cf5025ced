-- ===== src/Transfer/Outbox.antt =====
-- `Open`, `save`, `replay` and `flush` (outbox.go): the journal in memory and on disk, and the
-- delivery of batches. `save` is the only way in which an operation changes the journal.
pub mod Ledger
pub mod Delivery
pub mod Flush
pub mod Quiet
use v2b_x.Base.{
  ℕ, suc, ◌+◌, ◌*◌, ◌^◌, ◌%◌, ◌≡◌, Bool, true, false, ◌&&◌, ◌||◌, not, Option, none, some, List, [],
  ◌∷◌, ltb, leb, ◌==◌, if◌then◌else◌, Bytes, length,
}
use v2b_x.Base.Int.{pos, word64}
use v2b_x.Transfer.Types.{
  Error, epoch, uncertain, pending, journal_capacity, ack_mismatch, sequence_exhausted, Result, ok,
  err, Sample, Batch, Ack, ack_eq, PendingBatch, DrainRecord, SessionRecord, Journal,
}
use v2b_x.Transfer.Samples.{samples, contains_final}
use v2b_x.Transfer.Delta.{delta}
use v2b_x.Transfer.Wire.{hash, ack_for}
use v2b_x.Transfer.Env.{
  Env, Outbox, State, Action, ◌>>=◌, ◌>>◌, return, fail, pure, guard, box_of, call, ask,
}

-- 1<<53 and 16<<20
abbrev pub max_sequence : ℕ
max_sequence = 9007199254740992

abbrev pub max_journal : ℕ
max_journal = 16777216

-- `Session != nil && Session.Sealed`
abbrev pub is_sealed : Option SessionRecord → Bool
is_sealed none = false
is_sealed (some r) = r.sealed

-- The loop over the drains in `flush`: a proof whose final counter is not in the inventory.
unfoldable pub breaks_proof : List Sample → List (Bytes × DrainRecord) → Bool
breaks_proof after [] = false
breaks_proof after ((_, d) ∷ rest) =
    elim d.proof [ none ↦ false | some p ↦ not (contains_final after p.final) ]
    || breaks_proof after rest

-- The journal that `replay` saves behind an acknowledgement.
unfoldable pub acknowledged : Journal → PendingBatch → Ack → Journal
acknowledged j p ack = record j {
  committed = p.through;
  pending = none;
  last_ack = some ack;
  next = (j.next + 1) % word64;
}

module _ {W T : Type 0} (env : Env W T) where
  unfoldable pub stored : Journal → State W → W × Bool → Result (Unit {0}) × State W
  stored j s (w, true) = (ok tt, record { box = record s.box { state = j }; world = w })
  stored j s (w, false) =
      (err uncertain, record { box = record s.box { poisoned = true }; world = w })

  -- `json.Marshal` does not fail on a journal.
  unfoldable pub save : Journal → Action W (Unit {0})
  unfolding stored
  save j s =
      if s.box.poisoned
      then (err uncertain, s)
      else if ltb max_journal (env.size (env.marshal j))
      then (err journal_capacity, s)
      else stored j s (env.store (env.marshal j) s.world)

  unfoldable pub replay_pending : Journal → Option PendingBatch → Action W (Option Ack)
  unfolding acknowledged
  replay_pending j none = return none
  replay_pending j (some p) = do
    ack ← ask (env.commit p.batch)
    guard (ack_eq ack (ack_for p.batch)) ack_mismatch
    save (acknowledged j p ack)
    return (some ack)

  unfoldable pub replay : Action W (Option Ack)
  unfolding replay_pending
  replay = do
    box ← box_of
    guard (not box.poisoned) uncertain
    replay_pending box.state box.state.pending

  -- The batch of the counters' growth, with its digest.
  unfoldable pub batch_of : Journal → List Sample → Batch
  batch_of j entries =
      let b : Batch = record {
        version = pos 1;
        scope = j.scope;
        epoch = j.epoch;
        sequence = j.next;
        entries = entries;
        digest = [];
      } in
      record b { digest = hash env.sha256_hex b }

  unfoldable pub flush : List Sample → Action W (Option Ack)
  unfolding batch_of breaks_proof
  flush totals = do
    box ← box_of
    guard (not (is_sealed box.state.session)) epoch
    _ ← replay
    box ← box_of
    guard (ltb box.state.next max_sequence) sequence_exhausted
    after ← pure (samples totals)
    guard (not (breaks_proof after box.state.drains)) pending
    entries ← pure (delta box.state.committed after)
    save (record box.state {
      pending = some (record { batch = batch_of box.state entries; through = after });
    })
    replay
