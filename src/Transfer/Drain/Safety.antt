-- ===== src/Transfer/Drain/Safety.antt =====
-- The operations of drain.go and reservation.go keep the outbox's invariant, and what a drain's
-- proof states.
use v2b_x.Base.{
  ◌≡◌, refl, ◌∙◌, ap, not, Option, none, some, List, [], ◌∷◌, get, arith, get-put, bytes_eq_refl,
}
use v2b_x.Transfer.Types.{
  Result, Batch, Identity, DrainRequest, DrainRecord, DrainProof, Journal, request_eq,
  request_eq_sound, bytes_key,
}
use v2b_x.Transfer.Samples.{contains_final}
use v2b_x.Transfer.Env.{Env, State, return, ◌>>◌}
use v2b_x.Transfer.Contract.{Contract}
use v2b_x.Transfer.Rules.{
  Post, done, bind-Post, call-Post, ask-Post, weaken-Post, guard-Post, pure-Post,
}
use v2b_x.Transfer.Outbox.{save}
use v2b_x.Transfer.Outbox.Delivery.{Inv, IsSaved}
use v2b_x.Transfer.Outbox.Quiet.{IsSettlement, fence_Inv, snapshot_Inv, save_other}
use v2b_x.Transfer.Reservation.{can_reserve, reserved, probe_ready}
use v2b_x.Transfer.Drain.{held_journal, proved_journal, fence_all, hold, confirm, restore_fences}

module _ {W T : Type 0} (env : Env W T) (ledger : W → List Batch) (c : Contract env ledger) where
  abbrev Ok : {A : Type 0} → Result A × State W → Type 0
  Ok = Post (λ _. Inv env ledger c) (Inv env ledger c)

  pub fence_all_post :
      (is : List Identity) (s : State W) → Inv env ledger c s → Ok (fence_all env is s)
  unfolding fence_all
  fence_all_post [] s v = done v
  fence_all_post (i ∷ is) s v =
      call-Post _ s (env.fence i s.world) (fence_Inv env ledger c i s v)
        (fence_all_post is _ (fence_Inv env ledger c i s v))

  pub restore_fences_post : (s : State W) → Inv env ledger c s → Ok (restore_fences env s)
  unfolding restore_fences
  restore_fences_post s v = guard-Post _ _ (not s.box.poisoned) s v (λ h. fence_all_post _ s v)

  reserved-IsSettlement : (j : Journal) (r : DrainRequest) → IsSettlement j (reserved j r)
  unfolding reserved
  reserved-IsSettlement j r = ground arith

  pub probe_ready_post :
      (r : DrainRequest) (s : State W) → Inv env ledger c s → Ok (probe_ready env r s)
  unfolding probe_ready
  probe_ready_post r s v = guard-Post _ _ (not s.box.poisoned) s v (λ h.
      pure-Post _ (can_reserve s.box.state r) s v (λ _ fits.
        weaken-Post
          (save_other env ledger c (reserved s.box.state r) s v (reserved-IsSettlement _ r))
          (λ _ t u. u.inv)))

  -- The journal in memory holds the proof under the request's id.
  pub record IsRecorded (r : DrainRequest) (p : DrainProof) (s : State W) : Type 0 where
    pub row : DrainRecord
    pub found : get bytes_key r.id s.box.state.drains ≡ some row
    pub proved : row.proof ≡ some p
    pub asked_for : row.request ≡ r

  -- Behind `hold`, a proof that is known already stands in the journal.
  pub record IsHeld (r : DrainRequest) (known : Option DrainProof) (s : State W) : Type 0 where
    pub inv : Inv env ledger c s
    pub recorded : (p : DrainProof) → known ≡ some p → IsRecorded r p s

  pub hold-Post :
      (o : Option DrainRecord) (r : DrainRequest) (s : State W)
      → Inv env ledger c s
      → get bytes_key r.id s.box.state.drains ≡ o
      → Post (λ known t. IsHeld r known t) (Inv env ledger c) (hold env s.box.state o r s)
  unfolding hold
  hold-Post (some d) r s v e = guard-Post _ _ (request_eq d.request r) s v (λ h. done (record {
    inv = v;
    recorded = λ p q. record {
      row = d;
      found = e;
      proved = q;
      asked_for = request_eq_sound d.request r h;
    };
  }))
  hold-Post none r s v e = pure-Post _ (can_reserve s.box.state r) s v (λ _ fits.
      bind-Post
        (save_other env ledger c (held_journal s.box.state r) s v
          (unfold held_journal in record { committed = refl; pending = refl; next = refl }))
        (λ _ t u. done (record { inv = u.inv; recorded = λ p q. absurd (cc) })))

  -- What `Drain` returns: a proof that the journal holds for this request.
  pub record IsProved (r : DrainRequest) (p : DrainProof) (s : State W) : Type 0 where
    pub inv : Inv env ledger c s
    pub recorded : IsRecorded r p s

  pub confirm-Post :
      (r : DrainRequest) (p : DrainProof) (s : State W)
      → Inv env ledger c s
      → IsRecorded r p s
      → Post (IsProved r) (Inv env ledger c) (confirm env p s)
  unfolding confirm
  confirm-Post r p s v known =
      let v' = snapshot_Inv env ledger c s v in
      ask-Post _ s (env.snapshot s.world) v' (λ current e.
        guard-Post _ _ (contains_final current p.final) _ v' (λ h. done (record {
          inv = v';
          recorded = record {
            row = known.row;
            found = known.found;
            proved = known.proved;
            asked_for = known.asked_for;
          };
        })))

  pub IsProved-Post :
      (r : DrainRequest) (p : DrainProof) (s : State W)
      → Inv env ledger c s
      → Post
          (λ q t.
            IsProved r q t × (q ≡ p) × IsSaved env ledger c s (proved_journal s.box.state r p) t)
          (Inv env ledger c)
          ((save env (proved_journal s.box.state r p) >> return p) s)
  unfolding proved_journal
  IsProved-Post r p s v =
      bind-Post
        (save_other env ledger c (proved_journal s.box.state r p) s v
          (record { committed = refl; pending = refl; next = refl }))
        (λ _ t u. done (
          record {
            inv = u.inv;
            recorded = record {
              row = record { request = r; proof = some p };
              found =
                  ap (λ j. get bytes_key r.id j.drains) u.state
                  ∙ get-put bytes_key r.id r.id _ s.box.state.drains
                  ∙ rw (bytes_eq_refl r.id);
              proved = refl;
              asked_for = refl;
            };
          },
          refl,
          u,
        ))
