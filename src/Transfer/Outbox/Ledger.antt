-- ===== src/Transfer/Outbox/Ledger.antt =====
-- When a journal agrees with the receiver's ledger, and that delivery, acknowledgement and a new
-- pending batch keep it so.
use v2b_x.Base.{
  ℕ, suc, ◌+◌, ◌%◌, ◌≤◌, ◌<◌, ◌≡◌, refl, sym, ◌∙◌, ap, subst, true, false, none, some, List, [],
  ◌∷◌, Bytes, All, All-map, arith,
}
use v2b_x.Base.Int.{word64}
use v2b_x.Transfer.Types.{ok, Batch, Ack, PendingBatch, Journal}
use v2b_x.Transfer.Samples.Sorting.{IsInventory}
use v2b_x.Transfer.Delta.{delta}
use v2b_x.Transfer.Delta.Growth.{Direction, amount}
use v2b_x.Transfer.Delta.Laws.{amount-delta}
use v2b_x.Transfer.Contract.{has_sequence, total}
use v2b_x.Transfer.Outbox.{acknowledged, max_sequence}

-- The pending batch is what `delta` finds between the committed and the new counters.
pub record IsPending (j : Journal) (p : PendingBatch) : Type 0 where
  pub inventory : IsInventory p.through
  pub numbered : p.batch.sequence ≡ j.next
  pub growth : delta j.committed p.through ≡ ok p.batch.entries
  pub room : j.next < max_sequence

-- The ledger has booked the committed counters; or the pending batch is booked too, and the ledger
-- has its counters.
pub record Settles (j : Journal) (books : List Batch) : Type 0 where
  pub inventory : IsInventory j.committed
  pub small : j.next ≤ max_sequence
  pub bounded : All (λ b. b.sequence ≤ j.next) books
  pub sent : (p : PendingBatch) → j.pending ≡ some p → IsPending j p
  pub before :
      has_sequence j.next books ≡ false
      → (d : Direction) (k : Bytes) → total d k books ≡ amount d k j.committed
  pub after :
      has_sequence j.next books ≡ true
      → (p : PendingBatch) × (j.pending ≡ some p)
        × ((d : Direction) (k : Bytes) → total d k books ≡ amount d k p.through)

fresh_above :
    (n : ℕ) (books : List Batch)
    → All (λ b. b.sequence ≤ n) books
    → has_sequence (suc n) books ≡ false
fresh_above n [] h = refl
fresh_above n (b ∷ bs) h = ground (arith, fresh_above n bs h.1)

-- The receiver books the pending batch.
pub book :
    (j : Journal) (books : List Batch) (p : PendingBatch)
    → Settles j books
    → j.pending ≡ some p
    → has_sequence p.batch.sequence books ≡ false
    → Settles j (p.batch ∷ books)
book j books p s e fresh =
    let q = s.sent p e in
    let new : has_sequence j.next books ≡ false =
      subst (λ n. has_sequence n books ≡ false) q.numbered fresh in
    record {
      inventory = s.inventory;
      small = s.small;
      bounded = (omega (arith, q.numbered), s.bounded);
      sent = s.sent;
      before = λ h. absurd (ground (arith, q.numbered));
      after = λ h. (
        p,
        e,
        λ d k. omega (
          arith,
          s.before new d k,
          amount-delta d k j.committed p.through p.batch.entries s.inventory q.inventory q.growth,
        ),
      );
    }

-- The acknowledged batch becomes the committed state.
pub settle :
    (j : Journal) (books : List Batch) (p : PendingBatch) (ack : Ack)
    → Settles j books
    → j.pending ≡ some p
    → has_sequence p.batch.sequence books ≡ true
    → Settles (acknowledged j p ack) books
unfolding acknowledged
settle j books p ack s e booked =
    let q = s.sent p e in
    let (p', e', totals) = s.after (subst (λ n. has_sequence n books ≡ true) q.numbered booked) in
    let same : p ≡ p' = cc in
    let next : (j.next + 1) % word64 ≡ suc j.next = omega (arith, q.room) in
    record {
      inventory = q.inventory;
      small = omega (arith, q.room);
      bounded =
          rw next (All-map _ (λ b. b.sequence ≤ suc j.next) (λ b h. omega arith) books s.bounded);
      sent = λ r h. absurd (cc);
      before = λ h d k. totals d k ∙ ap (λ r. amount d k r.through) (sym same);
      after = rw next (λ h. absurd (ground (arith, fresh_above j.next books s.bounded)));
    }

-- A batch is made ready for delivery.
pub prepare :
    (j : Journal) (books : List Batch) (p : PendingBatch)
    → Settles j books
    → j.pending ≡ none
    → IsPending j p
    → Settles (record j { pending = some p }) books
prepare j books p s e q = record {
  inventory = s.inventory;
  small = s.small;
  bounded = s.bounded;
  sent = λ r h.
      let same : p ≡ r = cc in
      subst (IsPending (record j { pending = some p })) same (record {
        inventory = q.inventory;
        numbered = q.numbered;
        growth = q.growth;
        room = q.room;
      });
  before = s.before;
  after = λ h. let (r, e', _) = s.after h in absurd (cc);
}
