-- ===== src/Transfer/Outbox/Delivery.antt =====
-- The invariant of the outbox, and what `save`, `replay` and `flush` do to it.
use v2b_x.Base.{
  ◌≡◌, refl, ◌∙◌, ap, subst, ◌⊎◌, inl, inr, Bool, true, false, not, Option, none, some, List, arith,
  ltb,
}
use v2b_x.Transfer.Types.{Batch, Ack, ack_eq, ack_eq_iff, PendingBatch, Journal}
use v2b_x.Transfer.Wire.{ack_for}
use v2b_x.Transfer.Env.{Env, State, return, ◌>>◌}
use v2b_x.Transfer.Contract.{Contract, has_sequence}
use v2b_x.Transfer.Rules.{Post, done, failed, bind-Post, guard-Post, if_Post, ask-Post}
use v2b_x.Transfer.Outbox.{acknowledged, max_journal, stored, save, replay_pending, replay}
use v2b_x.Transfer.Outbox.Ledger.{Settles, book, settle}

module _ {W T : Type 0} (env : Env W T) (ledger : W → List Batch) (c : Contract env ledger) where
  -- The disk holds a journal that agrees with the ledger, or nothing that can be read.
  abbrev pub IsRecoverable : W → Type 0
  IsRecoverable w =
      (env.load w ≡ none)
      ⊎ ((j : Journal) × (env.load w ≡ some (env.marshal j)) × Settles j (ledger w))

  -- A healthy outbox has the journal of the disk in memory; a poisoned one need not.
  pub record Inv (s : State W) : Type 0 where
    pub settled : Settles s.box.state (ledger s.world)
    pub disk :
        ((s.box.poisoned ≡ false) × (env.load s.world ≡ some (env.marshal s.box.state)))
        ⊎ ((s.box.poisoned ≡ true) × IsRecoverable s.world)

  -- What a successful `save` of a journal leaves.
  pub record IsSaved (before : State W) (j : Journal) (s : State W) : Type 0 where
    pub inv : Inv s
    pub state : s.box.state ≡ j
    pub healthy : s.box.poisoned ≡ false
    pub books : ledger s.world ≡ ledger before.world
    pub legacy : s.box.legacy ≡ before.box.legacy

  saved :
      (j : Journal) (s : State W) (r : W × Bool)
      → Inv s
      → s.box.poisoned ≡ false
      → Settles j (ledger s.world)
      → ledger r.0 ≡ ledger s.world
      → (r.1 ≡ true → env.load r.0 ≡ some (env.marshal j))
      → (r.1 ≡ false
          → (env.load r.0 ≡ env.load s.world)
            ⊎ (env.load r.0 ≡ some (env.marshal j))
            ⊎ (env.load r.0 ≡ none))
      → Post (λ _. IsSaved s j) Inv (stored env j s r)
  unfolding stored
  saved j s (w, true) v healthy new books read lost = done (record {
    inv = record { settled = rw books new; disk = inl (healthy, read refl) };
    state = refl;
    healthy = healthy;
    books = books;
    legacy = refl;
  })
  saved j s (w, false) v healthy new books read lost = failed (record {
    settled = rw books v.settled;
    disk = inr (
      refl,
      elim (lost refl) [
        | inl same ↦ inr (s.box.state, same ∙ readable v.disk, rw books v.settled)
        | inr (inl written) ↦ inr (j, written, rw books new)
        | inr (inr gone) ↦ inl gone
      ],
    );
  })
    where
      readable :
          ((s.box.poisoned ≡ false) × (env.load s.world ≡ some (env.marshal s.box.state)))
            ⊎ ((s.box.poisoned ≡ true) × IsRecoverable s.world)
          → env.load s.world ≡ some (env.marshal s.box.state)
      readable (inl h) = h.1
      readable (inr h) = absurd (cc)

  -- `save` of a journal that agrees with the ledger keeps the invariant, on success and on each of
  -- its errors; on success that journal is in memory and on disk.
  pub save-Post :
      (j : Journal) (s : State W)
      → Inv s
      → Settles j (ledger s.world)
      → Post (λ _. IsSaved s j) Inv (save env j s)
  unfolding save
  save-Post j s v new =
      if_Post s.box.poisoned _ _ (λ bad. failed v)
        (λ healthy.
          if_Post (ltb max_journal (env.size (env.marshal j))) _ _ (λ large. failed v)
            (λ fits.
              saved j s (env.store (env.marshal j) s.world) v healthy new
                (c.store_books (env.marshal j) s.world) (c.store_done (env.marshal j) s.world)
                (c.store_failed (env.marshal j) s.world)))

  -- What a delivery with its value leaves: nothing is pending, the journal changed only as an
  -- acknowledgement changes it, and a batch that was pending is acknowledged.
  pub record IsDelivered (before : State W) (a : Option Ack) (s : State W) : Type 0 where
    pub inv : Inv s
    pub healthy : s.box.poisoned ≡ false
    pub idle : s.box.state.pending ≡ none
    pub legacy : s.box.legacy ≡ before.box.legacy
    pub drains : s.box.state.drains ≡ before.box.state.drains
    pub session : s.box.state.session ≡ before.box.state.session
    pub committed :
        (p : PendingBatch) → before.box.state.pending ≡ some p → s.box.state.committed ≡ p.through
    pub receipt :
        (p : PendingBatch)
        → before.box.state.pending ≡ some p
        → (a ≡ some (ack_for p.batch)) × (s.box.state.last_ack ≡ some (ack_for p.batch))
    pub kept : before.box.state.pending ≡ none → s.box.state ≡ before.box.state

  commit_Inv :
      (s : State W) (p : PendingBatch)
      → Inv s
      → s.box.poisoned ≡ false
      → s.box.state.pending ≡ some p
      → Inv (record s { world = (env.commit p.batch s.world).0 })
  commit_Inv s p v healthy e = record {
    settled = elim (c.commit_once p.batch s.world) [
      | inl same ↦ rw same v.settled
      | inr (new, fresh) ↦ rw new (book s.box.state (ledger s.world) p v.settled e fresh)
    ];
    disk = elim v.disk [
      | inl h ↦ inl (healthy, c.commit_disk p.batch s.world ∙ h.1)
      | inr h ↦ absurd (cc)
    ];
  }

  -- Behind the acknowledgement of the pending batch.
  acknowledged-Post :
      (s t : State W) (p : PendingBatch) (ack : Ack)
      → Inv t
      → t.box ≡ s.box
      → s.box.poisoned ≡ false
      → s.box.state.pending ≡ some p
      → has_sequence p.batch.sequence (ledger t.world) ≡ true
      → ack ≡ ack_for p.batch
      → Post
          (IsDelivered s)
          Inv
          ((save env (acknowledged s.box.state p ack) >> return (some ack)) t)
  unfolding acknowledged
  acknowledged-Post s t p ack v same healthy e booked whose =
      let new =
        settle s.box.state (ledger t.world) p ack
          (subst (λ b. Settles b.state (ledger t.world)) same v.settled) e booked in
      bind-Post (save-Post (acknowledged s.box.state p ack) t v new) (λ _ u r. done (record {
        inv = r.inv;
        healthy = r.healthy;
        idle = ap (λ j. j.pending) (r.state);
        legacy = r.legacy ∙ ap (λ b. b.legacy) same;
        drains = ap (λ j. j.drains) r.state;
        session = ap (λ j. j.session) r.state;
        committed = λ q h.
            let same' : p ≡ q = cc in ap (λ j. j.committed) r.state ∙ ap (λ x. x.through) same';
        receipt = λ q h.
            let same' : p ≡ q = cc in
            let mine : ack ≡ ack_for q.batch = whose ∙ ap (λ x. ack_for x.batch) same' in
            (ap some mine, ap (λ j. j.last_ack) r.state ∙ ap some mine);
        kept = λ h. absurd (cc);
      }))

  replay_pending-Post :
      (s : State W) (o : Option PendingBatch)
      → Inv s
      → s.box.poisoned ≡ false
      → s.box.state.pending ≡ o
      → Post (IsDelivered s) Inv (replay_pending env s.box.state o s)
  unfolding replay_pending
  replay_pending-Post s none v healthy e = done (record {
    inv = v;
    healthy = healthy;
    idle = e;
    legacy = refl;
    drains = refl;
    session = refl;
    committed = λ p h. absurd (cc);
    receipt = λ p h. absurd (cc);
    kept = λ h. refl;
  })
  replay_pending-Post s (some p) v healthy e =
      let r = env.commit p.batch s.world in
      let v' = commit_Inv s p v healthy e in
      ask-Post _ s r v' (λ ack a.
        guard-Post _ _ (ack_eq ack (ack_for p.batch)) (record s { world = r.0 }) v'
          (λ matches.
            acknowledged-Post s (record s { world = r.0 }) p ack v' refl healthy e
              (c.commit_acked p.batch s.world
                (a ∙ ap some ((ack_eq_iff ack (ack_for p.batch)).0 matches)))
              ((ack_eq_iff ack (ack_for p.batch)).0 matches)))

  -- A successful `replay` leaves nothing pending and the invariant; a failed one the invariant.
  pub replay-Post : (s : State W) → Inv s → Post (IsDelivered s) Inv (replay env s)
  unfolding replay
  replay-Post s v =
      guard-Post _ _ (not s.box.poisoned) s v
        (λ h. replay_pending-Post s s.box.state.pending v (ground arith) refl)
