-- ===== src/Transfer/Drain/Proofs.antt =====
-- `Drain`: what a returned proof states, and that it never dereferences a missing receipt.
use v2b_x.Base.{◌≡◌, refl, sym, ◌∙◌, ap, not, Option, none, some, List, get}
use v2b_x.Transfer.Types.{ok, Batch, DrainRequest, DrainProof, bytes_key}
use v2b_x.Transfer.Samples.{key}
use v2b_x.Transfer.Delta.Growth.{Direction, traffic}
use v2b_x.Transfer.Env.{Env, State, ◌>>◌, return}
use v2b_x.Transfer.Contract.{Contract, total}
use v2b_x.Transfer.Rules.{Post, bind-Post, call-Post, ask-Post, weaken-Post, guard-Post, post_ok}
use v2b_x.Transfer.Outbox.{save}
use v2b_x.Transfer.Outbox.Delivery.{Inv}
use v2b_x.Transfer.Outbox.Flush.{flush-Post, flushed_total}
use v2b_x.Transfer.Outbox.Quiet.{fence_Inv, inspect_Inv, snapshot_Inv}
use v2b_x.Transfer.Drain.{
  find_row, status_error, still_drained, is_stable, prove, conclude, drain, proved_journal,
}
use v2b_x.Transfer.Drain.Rules.{require-Post, accept-Post}
use v2b_x.Transfer.Drain.Rows.{amount_of_row, find_row_identity}
use v2b_x.Transfer.Drain.Safety.{IsRecorded, IsProved, hold-Post, confirm-Post, IsProved-Post}
use v2b_x.Transfer.Reservation.{valid_request}

module _ {W T : Type 0} (env : Env W T) (ledger : W → List Batch) (c : Contract env ledger) where
  -- A new proof: the receiver has booked all of its final counter.
  pub record IsBooked (r : DrainRequest) (p : DrainProof) (s : State W) : Type 0 where
    pub proved : IsProved env ledger c r p s
    pub request : p.request ≡ r
    pub whose : (p.final.uid ≡ r.identity.uid) × (p.final.credential ≡ r.identity.credential)
    pub booked : (d : Direction) → total d (key p.final) (ledger s.world) ≡ traffic d p.final

  -- A proof is saved where the ledger has all of its final counter.
  IsBooked-Post :
      (r : DrainRequest) (p : DrainProof) (s : State W)
      → Inv env ledger c s
      → p.request ≡ r
      → (p.final.uid ≡ r.identity.uid) × (p.final.credential ≡ r.identity.credential)
      → ((d : Direction) → total d (key p.final) (ledger s.world) ≡ traffic d p.final)
      → Post
          (IsBooked r)
          (Inv env ledger c)
          ((save env (proved_journal s.box.state r p) >> return p) s)
  IsBooked-Post r p s v mine owner b = weaken-Post (IsProved-Post env ledger c r p s v) (λ q t h.
      let whole : q ≡ p = h.1 in
      record {
        proved = h.0;
        request = ap (λ x. x.request) whole ∙ mine;
        whose =
            (ap (λ x. x.final.uid) whole ∙ owner.0, ap (λ x. x.final.credential) whole ∙ owner.1);
        booked = λ d.
            ap (total d (key q.final)) h.2.books
            ∙ ap (λ x. total d (key x.final) (ledger s.world)) whole
            ∙ b d
            ∙ ap (λ x. traffic d x.final) (sym whole);
      })

  prove-Post :
      (r : DrainRequest) (s : State W)
      → Inv env ledger c s
      → Post (IsBooked r) (Inv env ledger c) (prove env r s)
  unfolding prove
  prove-Post r s v =
      ask-Post _ s (env.snapshot s.world) (snapshot_Inv env ledger c s v) (λ totals e.
        let s' : State W = record s { world = (env.snapshot s.world).0 } in
        let v' = snapshot_Inv env ledger c s v in
        let int64 = c.snapshot_range s.world totals e in
        require-Post _ (find_row r.identity.uid r.identity.credential totals) _ s' v'
          (λ final found. bind-Post (flush-Post env ledger c totals s' int64 v') (λ delivered t f.
            let t' : State W = record t { world = (env.inspect r.identity t.world).0 } in
            let u : State W = record t' { world = (env.snapshot t'.world).0 } in
            let vt = inspect_Inv env ledger c r.identity t f.inv in
            let vu = snapshot_Inv env ledger c t' vt in
            ask-Post _ t (env.inspect r.identity t.world) vt (λ st _.
              guard-Post _ _ (still_drained t.box.state.epoch r.identity st) t' vt (λ still.
                ask-Post _ t' (env.snapshot t'.world) vu (λ check _.
                  guard-Post _ _ (is_stable check final) u vu (λ stable.
                    require-Post _ delivered _ u vu (λ ack _.
                      IsBooked-Post r _ u vu refl (find_row_identity _ _ totals final found) (λ d.
                        ap (total d (key final))
                          (c.snapshot_books t'.world ∙ c.inspect_books r.identity t.world)
                        ∙ flushed_total env ledger c totals s' t delivered f d (key final)
                        ∙ amount_of_row d r.identity.uid r.identity.credential totals _ final int64
                            f.committed found)))))))))

  IsRecorded-moved :
      (r : DrainRequest) (p : DrainProof) (s t : State W)
      → t.box ≡ s.box
      → IsRecorded env ledger c r p s
      → IsRecorded env ledger c r p t
  IsRecorded-moved r p s t e h = record {
    row = h.row;
    found = ap (λ b. get bytes_key r.id b.state.drains) e ∙ h.found;
    proved = h.proved;
    asked_for = h.asked_for;
  }

  conclude-Post :
      (known : Option DrainProof) (r : DrainRequest) (s : State W)
      → Inv env ledger c s
      → ((p : DrainProof) → known ≡ some p → IsRecorded env ledger c r p s)
      → Post (IsProved env ledger c r) (Inv env ledger c) (conclude env known r s)
  unfolding conclude
  conclude-Post (some p) r s v h = confirm-Post env ledger c r p s v (h p refl)
  conclude-Post none r s v h = weaken-Post (prove-Post r s v) (λ p t b. b.proved)

  pub drain-Post :
      (r : DrainRequest) (s : State W)
      → Inv env ledger c s
      → Post (IsProved env ledger c r) (Inv env ledger c) (drain env r s)
  unfolding drain
  drain-Post r s v = guard-Post _ _ (not s.box.poisoned) s v (λ healthy.
      guard-Post _ _ (valid_request r) s v (λ valid.
        bind-Post (hold-Post env ledger c (get bytes_key r.id s.box.state.drains) r s v refl)
          (λ known t h.
            let t' : State W = record t { world = (env.fence r.identity t.world).0 } in
            let u : State W = record t' { world = (env.inspect r.identity t'.world).0 } in
            let vt = fence_Inv env ledger c r.identity t h.inv in
            let vu = inspect_Inv env ledger c r.identity t' vt in
            call-Post _ t (env.fence r.identity t.world) vt (
              ask-Post _ t' (env.inspect r.identity t'.world) vu (λ st _.
                accept-Post _ (status_error u.box.state.epoch r.identity st) u vu (λ fine.
                  conclude-Post known r u vu
                    (λ p e. IsRecorded-moved r p t u refl (h.recorded p e))))))))

  -- A proof that `Drain` returns stands in the journal under the request's id, for this very request.
  pub drain_records :
      (r : DrainRequest) (s : State W) (p : DrainProof)
      → Inv env ledger c s
      → (drain env r s).0 ≡ ok p
      → IsRecorded env ledger c r p (drain env r s).1
  drain_records r s p v h = (post_ok (drain-Post r s v) h).recorded

  -- A first proof of `Drain` (`prove`) is returned only where the receiver has booked, in both
  -- directions, exactly the final counter that the proof names; that counter is the identity's of the
  -- request, the proof is of the request, and the journal holds it.
  pub prove_books :
      (r : DrainRequest) (s : State W) (p : DrainProof)
      → Inv env ledger c s
      → (prove env r s).0 ≡ ok p
      → (p.request ≡ r)
        × (p.final.uid ≡ r.identity.uid)
        × (p.final.credential ≡ r.identity.credential)
        × IsRecorded env ledger c r p (prove env r s).1
        × ((d : Direction)
            → total d (key p.final) (ledger (prove env r s).1.world) ≡ traffic d p.final)
  prove_books r s p v h =
      let b = post_ok (prove-Post r s v) h in
      (b.request, b.whose.0, b.whose.1, b.proved.recorded, b.booked)
