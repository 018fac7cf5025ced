-- ===== src/Transfer/Outbox/Flush.antt =====
-- `flush` delivers exactly what the counters have grown by: behind a success the receiver has booked
-- each identity's cumulative counters, whatever failed before.
use v2b_x.Base.{
  ◌<◌, ◌≡◌, refl, sym, ◌∙◌, ap, inl, inr, false, not, Option, none, some, List, Bytes, All,
  Bool-cases, ltb, ltb→lt,
}
use v2b_x.Transfer.Types.{ok, Sample, Batch, Ack, PendingBatch}
use v2b_x.Transfer.Samples.{samples}
use v2b_x.Transfer.Samples.Sorting.{IsInt64, samples-IsInventory, samples-eq_ok}
use v2b_x.Transfer.Delta.{delta}
use v2b_x.Transfer.Delta.Growth.{Direction, amount, amount-sort_samples}
use v2b_x.Transfer.Wire.{ack_for}
use v2b_x.Transfer.Env.{Env, State, ◌>>◌}
use v2b_x.Transfer.Contract.{Contract, has_sequence, total}
use v2b_x.Transfer.Rules.{Post, bind-Post, guard-Post, pure-Post, weaken-Post, post_ok}
use v2b_x.Transfer.Outbox.{max_sequence, is_sealed, breaks_proof, save, replay, batch_of, flush}
use v2b_x.Transfer.Outbox.Ledger.{prepare}
use v2b_x.Transfer.Outbox.Delivery.{Inv, IsDelivered, save-Post, replay-Post}

module _ {W T : Type 0} (env : Env W T) (ledger : W → List Batch) (c : Contract env ledger) where
  -- What a successful flush of some counters leaves.
  pub record IsFlushed (totals : List Sample) (before : State W) (a : Option Ack) (s : State W)
      : Type 0 where
    pub inv : Inv env ledger c s
    pub healthy : s.box.poisoned ≡ false
    pub idle : s.box.state.pending ≡ none
    pub drains : s.box.state.drains ≡ before.box.state.drains
    pub session : s.box.state.session ≡ before.box.state.session
    pub legacy : s.box.legacy ≡ before.box.legacy
    pub receipt : (x : Ack) × (a ≡ some x) × (s.box.state.last_ack ≡ some x)
    pub committed : samples totals ≡ ok s.box.state.committed

  prepared-Post :
      (totals after entries : List Sample) (s t : State W) (a : Option Ack)
      → All IsInt64 totals
      → IsDelivered env ledger c s a t
      → t.box.state.next < max_sequence
      → samples totals ≡ ok after
      → delta t.box.state.committed after ≡ ok entries
      → Post (IsFlushed totals s) (Inv env ledger c) (
          (save env (record t.box.state {
            pending = some (record { batch = batch_of env t.box.state entries; through = after });
          })
              >> replay env)
            t)
  unfolding batch_of
  prepared-Post totals after entries s t a range d room sorted growth =
      let p : PendingBatch = record { batch = batch_of env t.box.state entries; through = after } in
      let inventory = (samples-IsInventory totals after range sorted).0 in
      let j = record t.box.state { pending = some p } in
      let ready =
        prepare t.box.state (ledger t.world) p d.inv.settled d.idle
          (record { inventory = inventory; numbered = refl; growth = growth; room = room }) in
      bind-Post (save-Post env ledger c j t d.inv ready) (λ _ u r.
        weaken-Post (replay-Post env ledger c u r.inv) (λ _ w e. record {
          inv = e.inv;
          healthy = e.healthy;
          idle = e.idle;
          drains = e.drains ∙ ap (λ k. k.drains) r.state ∙ d.drains;
          session = e.session ∙ ap (λ k. k.session) r.state ∙ d.session;
          legacy = e.legacy ∙ r.legacy ∙ d.legacy;
          receipt =
              let (x, y) = e.receipt p (ap (λ k. k.pending) r.state) in (ack_for p.batch, x, y);
          committed = sorted ∙ ap ok (sym (e.committed p (ap (λ k. k.pending) r.state)));
        }))

  pub flush-Post :
      (totals : List Sample) (s : State W)
      → All IsInt64 totals
      → Inv env ledger c s
      → Post (IsFlushed totals s) (Inv env ledger c) (flush env totals s)
  unfolding flush
  flush-Post totals s range v = guard-Post _ _ (not (is_sealed s.box.state.session)) s v (λ open_.
      bind-Post (replay-Post env ledger c s v) (λ a t d.
        guard-Post _ _ (ltb t.box.state.next max_sequence) t d.inv (λ room.
          pure-Post _ (samples totals) t d.inv (λ after sorted.
            guard-Post _ _ (not (breaks_proof after t.box.state.drains)) t d.inv (λ kept.
              pure-Post _ (delta t.box.state.committed after) t d.inv (λ entries growth.
                prepared-Post totals after entries s t a range d (ltb→lt _ _ room) sorted
                  growth))))))

  -- A healthy idle outbox: the receiver has booked the committed counters.
  pub total_of_idle :
      (s : State W)
      → Inv env ledger c s
      → s.box.state.pending ≡ none
      → (d : Direction) (k : Bytes) → total d k (ledger s.world) ≡ amount d k s.box.state.committed
  total_of_idle s v idle d k = elim (Bool-cases (has_sequence s.box.state.next (ledger s.world))) [
    | inl booked ↦ let (p, e, _) = v.settled.after booked in absurd (cc)
    | inr fresh ↦ v.settled.before fresh d k
  ]

  -- Behind a successful flush the ledger has, for every key, the traffic of the counters.
  pub flushed_total :
      (totals : List Sample) (s t : State W) (a : Option Ack)
      → IsFlushed totals s a t
      → (d : Direction) (k : Bytes) → total d k (ledger t.world) ≡ amount d k totals
  flushed_total totals s t a f d k =
      let (_, _, e, _) = samples-eq_ok totals t.box.state.committed f.committed in
      total_of_idle t f.inv f.idle d k ∙ ap (amount d k) e ∙ amount-sort_samples d k totals

  -- If `Flush` succeeds on a state that keeps the invariant, then the receiver has booked for every
  -- key and both directions exactly the traffic of the given cumulative counters.
  pub flush_books :
      (totals : List Sample) (s : State W) (ack : Option Ack)
      → All IsInt64 totals
      → Inv env ledger c s
      → (flush env totals s).0 ≡ ok ack
      → (d : Direction) (k : Bytes)
      → total d k (ledger (flush env totals s).1.world) ≡ amount d k totals
  flush_books totals s ack range v h =
      flushed_total totals s _ _ (post_ok (flush-Post totals s range v) h)

  -- A successful `Flush` returns an acknowledgement, never a nil one, and the journal keeps it as the
  -- last; so `Drain` may read it.
  pub flush_receipt :
      (totals : List Sample) (s : State W) (ack : Option Ack)
      → All IsInt64 totals
      → Inv env ledger c s
      → (flush env totals s).0 ≡ ok ack
      → (x : Ack) × (ack ≡ some x) × ((flush env totals s).1.box.state.last_ack ≡ some x)
  flush_receipt totals s ack range v h = (post_ok (flush-Post totals s range v) h).receipt
