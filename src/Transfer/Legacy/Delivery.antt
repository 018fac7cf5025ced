-- ===== src/Transfer/Legacy/Delivery.antt =====
-- `FlushLegacy`: the report that it sends, and what the receiver has booked behind it.
use v2b_x.Base.{
  ℕ, ◌+◌, ◌≤◌, ◌<◌, ◌≡◌, ◌∙◌, subst, ap, Bool, true, false, ◌&&◌, not, Option, none, List, [], ◌∷◌,
  Bytes, All, Assoc, get, put, get-put, arith, Bool-cases, inl, inr,
}
use v2b_x.Base.Int.{ℤ, pos, ltb_ℤ, max_int64}
use v2b_x.Transfer.Types.{ok, Batch, Sample, Ack, bytes_key}
use v2b_x.Transfer.Samples.{key, samples}
use v2b_x.Transfer.Samples.Sorting.{IsInt64, samples-IsInventory, samples-eq_ok, IsInventory}
use v2b_x.Transfer.Delta.{by_key, or_zero, delta}
use v2b_x.Transfer.Delta.Growth.{Direction, up, down, amount, amount-sort_samples}
use v2b_x.Transfer.Delta.Laws.{held-delta, amount-delta, delta-IsInventory, IsInventory-IsNatural}
use v2b_x.Transfer.Legacy.Growths.{large, small, absent, held_back-Reported}
use v2b_x.Transfer.Env.{Env, State}
use v2b_x.Transfer.Contract.{Contract, total}
use v2b_x.Transfer.Rules.{Post, bind-Post, weaken-Post, guard-Post, pure-Post, post_ok}
use v2b_x.Transfer.Outbox.Delivery.{Inv, replay-Post}
use v2b_x.Transfer.Outbox.Flush.{flush-Post, flushed_total}
use v2b_x.Transfer.Legacy.{is_small, held_row, held_back, flush_legacy}

abbrev InRange : Assoc Bytes Sample → Type 0
InRange m = (k : Bytes) → IsInt64 (or_zero (get bytes_key k m))

put-InRange :
    (s : Sample) (m : Assoc Bytes Sample)
    → IsInt64 s
    → InRange m
    → InRange (put bytes_key (key s) s m)
put-InRange s m r h k =
    rw (get-put bytes_key (key s) k s m)
      elim (Bool-cases (bytes_key.eqb (key s) k)) [ inl e ↦ rw e r | inr e ↦ rw e (h k) ]

nothing-InRange : InRange []
unfolding get
nothing-InRange k = record { up = omega arith; down = omega arith }

by_key-InRange :
    (xs : List Sample) (m : Assoc Bytes Sample) → All IsInt64 xs → InRange m → InRange (by_key m xs)
unfolding by_key
by_key-InRange [] m r h = h
by_key-InRange (s ∷ rest) m r h =
    by_key-InRange rest (put bytes_key (key s) s m) r.1 (put-InRange s m r.0 h)

held_row-IsInt64 : (b : Bool) (p s : Sample) → IsInt64 p → IsInt64 s → IsInt64 (held_row b p s)
held_row-IsInt64 true p s h k = record { up = h.up; down = h.down }
held_row-IsInt64 false p s h k = k

held_back-range :
    (threshold : ℤ) (m : Assoc Bytes Sample) (changes rows : List Sample)
    → InRange m
    → All IsInt64 rows
    → All IsInt64 (held_back threshold m changes rows)
unfolding held_back
held_back-range threshold m (change ∷ changes) (row ∷ rows) h r = (
  held_row-IsInt64 (is_small threshold change) _ row (h (key change)) r.0,
  held_back-range threshold m changes rows h r.1,
)
held_back-range threshold m [] rows h r = r
held_back-range threshold m (change ∷ changes) [] h r = tt

-- What the receiver has booked for a key, by the growth of the key's upload and download together
-- since the rows `before`.
pub record IsBookedFor (n : ℕ) (k : Bytes) (before totals : List Sample) (books : List Batch)
    : Type 0 where
  pub kept :
      amount up k totals + amount down k totals ≤ n + (amount up k before + amount down k before)
      → (d : Direction) → total d k books ≡ amount d k before
  pub full :
      n + (amount up k before + amount down k before) < amount up k totals + amount down k totals
      → (d : Direction) → total d k books ≡ amount d k totals

module _ {W T : Type 0} (env : Env W T) (ledger : W → List Batch) (c : Contract env ledger) where
  -- What a report leaves: the receiver has booked it.
  record IsReported (totals : List Sample) (threshold : ℤ) (before s : State W) : Type 0 where
    committed : List Sample
    base : before.box.state.pending ≡ none → committed ≡ before.box.state.committed
    after : List Sample
    early : IsInventory committed
    late : IsInventory after
    changes : List Sample
    sorted : samples totals ≡ ok after
    growth : delta committed after ≡ ok changes
    booked :
        (d : Direction) (k : Bytes)
        → total d k (ledger s.world)
          ≡ amount d k (held_back threshold (by_key [] committed) changes after)

  flush_legacy-Post :
      (totals : List Sample) (threshold : ℤ) (s : State W)
      → All IsInt64 totals
      → Inv env ledger c s
      → Post
          (λ _. IsReported totals threshold s)
          (Inv env ledger c)
          (flush_legacy env totals threshold s)
  unfolding flush_legacy
  flush_legacy-Post totals threshold s range v =
      guard-Post _ _ (s.box.legacy && not (ltb_ℤ threshold (pos 0))) s v (λ allowed.
        bind-Post (replay-Post env ledger c s v) (λ a t d.
          pure-Post _ (samples totals) t d.inv (λ after sorted.
            pure-Post _ (delta t.box.state.committed after) t d.inv (λ changes growth.
              let old = by_key [] t.box.state.committed in
              let known =
                by_key-InRange t.box.state.committed [] d.inv.settled.inventory.range
                  nothing-InRange in
              let rows = held_back threshold old changes after in
              let r =
                held_back-range threshold old changes after known
                  (samples-IsInventory totals after range sorted).0.range in
              weaken-Post (flush-Post env ledger c rows t r d.inv) (λ x u f. record {
                committed = t.box.state.committed;
                base = λ idle. ap (λ j. j.committed) (d.kept idle);
                after = after;
                early = d.inv.settled.inventory;
                late = (samples-IsInventory totals after range sorted).0;
                changes = changes;
                sorted = sorted;
                growth = growth;
                booked = flushed_total env ledger c rows t u x f;
              })))))

  reported :
      (n : ℕ) (totals : List Sample) (before s : State W) (k : Bytes)
      → n ≤ max_int64
      → (r : IsReported totals (pos n) before s)
      → IsBookedFor n k r.committed totals (ledger s.world)
  reported n totals before s k small_n r =
      let (inventory, keys) =
        delta-IsInventory r.committed r.after r.changes r.early r.late r.growth in
      let (_, _, same, _) = samples-eq_ok totals r.after r.sorted in
      let all_ : (d : Direction) → amount d k r.after ≡ amount d k totals =
        λ d. ap (amount d k) same ∙ amount-sort_samples d k totals in
      let split : (d : Direction)
          → amount d k r.after ≡ amount d k r.committed + amount d k r.changes =
        λ d. amount-delta d k r.committed r.after r.changes r.early r.late r.growth in
      elim (held_back-Reported n k (by_key [] r.committed) r.changes r.after small_n
        (IsInventory-IsNatural r.changes inventory) keys inventory.ascending r.late.ascending) [
          | large h a ↦ record {
            kept = λ g. absurd (omega (arith, split up, split down, all_ up, all_ down, h, g));
            full = λ g d. r.booked d k ∙ a d ∙ all_ d;
          }
          | small h a ↦ record {
            kept = λ g d. r.booked d k ∙ a d ∙ held-delta d k r.committed r.early.ascending;
            full = λ g. absurd (omega (arith, split up, split down, all_ up, all_ down, h, g));
          }
          | absent a b o ↦ record {
            kept = λ g d. r.booked d k ∙ omega (arith, o d, split d, a d);
            full = λ g d. r.booked d k ∙ omega (arith, o d, all_ d, a d);
          }
        ]

  -- Where nothing is pending and `FlushLegacy` succeeds with a threshold from 0 to the largest int64,
  -- then for every key: where the key's upload and download together have grown by at most the
  -- threshold since the committed inventory, the receiver has booked for it what was committed, in
  -- both directions; where they have grown by more, what the given totals have.
  pub flush_legacy_books :
      (totals : List Sample) (threshold : ℕ) (s : State W) (ack : Option Ack) (k : Bytes)
      → threshold ≤ max_int64
      → All IsInt64 totals
      → Inv env ledger c s
      → s.box.state.pending ≡ none
      → (flush_legacy env totals (pos threshold) s).0 ≡ ok ack
      → IsBookedFor threshold k s.box.state.committed totals
          (ledger (flush_legacy env totals (pos threshold) s).1.world)
  flush_legacy_books totals threshold s ack k small_n range v idle h =
      let r = post_ok (flush_legacy-Post totals (pos threshold) s range v) h in
      subst
        (λ x.
          IsBookedFor threshold k x totals
            (ledger (flush_legacy env totals (pos threshold) s).1.world))
        (r.base idle) (reported threshold totals s _ k small_n r)
