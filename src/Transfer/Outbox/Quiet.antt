-- ===== src/Transfer/Outbox/Quiet.antt =====
-- Calls of the adapter and saves of other parts of the journal keep the outbox's invariant.
use v2b_x.Base.{◌≡◌, sym, ◌∙◌, inl, inr, List}
use v2b_x.Transfer.Types.{Batch, Identity, Journal}
use v2b_x.Transfer.Env.{Env, State}
use v2b_x.Transfer.Contract.{Contract}
use v2b_x.Transfer.Rules.{Post}
use v2b_x.Transfer.Outbox.{save}
use v2b_x.Transfer.Outbox.Ledger.{Settles}
use v2b_x.Transfer.Outbox.Delivery.{Inv, IsSaved, save-Post}

-- What the ledger is compared with is left as it is.
pub record IsSettlement (j j' : Journal) : Type 0 where
  pub committed : j'.committed ≡ j.committed
  pub pending : j'.pending ≡ j.pending
  pub next : j'.next ≡ j.next

pub Settles-other :
    (j j' : Journal) (books : List Batch) → IsSettlement j j' → Settles j books → Settles j' books
Settles-other j j' books e s = record {
  inventory = rw (e.committed) s.inventory;
  small = rw (e.next) s.small;
  bounded = rw (e.next) s.bounded;
  sent = λ p h.
      let q = s.sent p (sym e.pending ∙ h) in
      record {
        inventory = q.inventory;
        numbered = q.numbered ∙ sym e.next;
        growth = rw (e.committed) q.growth;
        room = rw (e.next) q.room;
      };
  before = rw (e.next, e.committed) s.before;
  after = rw (e.next, e.pending) s.after;
}

module _ {W T : Type 0} (env : Env W T) (ledger : W → List Batch) (c : Contract env ledger) where
  pub quiet :
      (s : State W) (w : W)
      → env.load w ≡ env.load s.world
      → ledger w ≡ ledger s.world
      → Inv env ledger c s
      → Inv env ledger c (record s { world = w })
  quiet s w disk books v = record {
    settled = rw books v.settled;
    disk = elim v.disk [
      | inl h ↦ inl (h.0, disk ∙ h.1)
      | inr (bad, inl gone) ↦ inr (bad, inl (disk ∙ gone))
      | inr (bad, inr (j, e, t)) ↦ inr (bad, inr (j, disk ∙ e, rw books t))
    ];
  }

  pub fence_Inv :
      (i : Identity) (s : State W)
      → Inv env ledger c s
      → Inv env ledger c (record s { world = (env.fence i s.world).0 })
  fence_Inv i s = quiet s _ (c.fence_disk i s.world) (c.fence_books i s.world)

  pub inspect_Inv :
      (i : Identity) (s : State W)
      → Inv env ledger c s
      → Inv env ledger c (record s { world = (env.inspect i s.world).0 })
  inspect_Inv i s = quiet s _ (c.inspect_disk i s.world) (c.inspect_books i s.world)

  pub snapshot_Inv :
      (s : State W)
      → Inv env ledger c s
      → Inv env ledger c (record s { world = (env.snapshot s.world).0 })
  snapshot_Inv s = quiet s _ (c.snapshot_disk s.world) (c.snapshot_books s.world)

  pub quiesce_Inv :
      (s : State W)
      → Inv env ledger c s
      → Inv env ledger c (record s { world = (env.quiesce s.world).0 })
  quiesce_Inv s = quiet s _ (c.quiesce_disk s.world) (c.quiesce_books s.world)

  pub restore_Inv :
      (is : List Identity) (s : State W)
      → Inv env ledger c s
      → Inv env ledger c (record s { world = (env.restore is s.world).0 })
  restore_Inv is s = quiet s _ (c.restore_disk is s.world) (c.restore_books is s.world)

  -- A `save` that leaves the settlement alone.
  pub save_other :
      (j : Journal) (s : State W)
      → Inv env ledger c s
      → IsSettlement s.box.state j
      → Post (λ _. IsSaved env ledger c s j) (Inv env ledger c) (save env j s)
  save_other j s v e =
      save-Post env ledger c j s v (Settles-other s.box.state j (ledger s.world) e v.settled)
