-- ===== src/Transfer/Adapter/Fence.antt =====
-- A fence of a bound identity: it stands in every run, and the identity's flows only end.
use v2b_x.Base.{
  ℕ, suc, ◌≤◌, ◌≡◌, ◌∙◌, inl, inr, ap, true, ◌&&◌, ◌||◌, not, Option, none, some, List, [], ◌∷◌,
  Bytes, ◌==◌, ltb, length, Assoc, get, put, get-put, arith, Bool-cases,
}
use v2b_x.Base.Int.{ℤ, pos, leb_ℤ}
use v2b_x.Text.{valid_hex}
use v2b_x.Transfer.Types.{Identity, identity_eq, identity_key, bytes_key}
use v2b_x.Guard.Types.{Outcome, done, refused, Lease, Moment}
use v2b_x.Guard.Bindings.{credential_digest}
use v2b_x.Guard.Sessions.{outstanding}
use v2b_x.Guard.Leases.{apply}
use v2b_x.Guard.Run.Rules.{Ends, if-Ends}
use v2b_x.Guard.Run.{Call, applies, reads_stats, notes_failure, step}
use v2b_x.Guard.Run.Hold.{IsHeld, Stays}
use v2b_x.Guard.Run.Isolation.{step-Stays}
use v2b_x.Transfer.Adapter.{
  max_samples, GuardAdapter, AdapterError, Answer, ok, err, is_held, has_identity, is_there,
  note_of, bind_checked, bind_label, is_closing, track_label, enter_flow, finish_flow, noted,
  note_identity, hold_lease, holding, fence_new, is_bound_here, fence, inspect,
}
use v2b_x.Transfer.Adapter.Quiesce.{
  Round, go_on, fence_each, identities, with_sealed, quiesce, restored_as, restorable,
  restore_sealed,
}
use v2b_x.Transfer.Adapter.Run.{
  Act, binds, tracks, enters, finishes, notes, notes_identity, fences, inspects, quiesces, restores,
  act, acts,
}

-- The guard holds the lease, and the adapter knows of the hold.
pub record IsFenced (l : Lease) (a : GuardAdapter) : Type 0 where
  pub held : IsHeld l a.guard
  pub hold : is_held l.identity a.holds ≡ true

-- The fence stands still, and the identity has no more flows.
pub record StaysFenced (l : Lease) (a b : GuardAdapter) : Type 0 where
  pub fenced : IsFenced l b
  pub fewer : outstanding l.identity b.guard ≤ outstanding l.identity a.guard

still_held :
    (l : Lease) (id : Identity) (m : Lease) (holds : Assoc Identity Lease)
    → is_held l.identity holds ≡ true
    → is_held l.identity (put identity_key id m holds) ≡ true
still_held l id m holds h =
    let r = get-put identity_key id l.identity m holds in
    elim (Bool-cases (identity_eq id l.identity)) [
      | inl b ↦
          let e : get identity_key l.identity (put identity_key id m holds) ≡ some m = rw b at r in
          ap is_there e
      | inr b ↦
          let e : get identity_key l.identity (put identity_key id m holds)
              ≡ get identity_key l.identity holds =
            rw b at r in
          ap is_there e ∙ h
    ]

module _ (sha256_hex : Bytes → Bytes) (l : Lease) (manual : l.manual ≡ true)
    (a : GuardAdapter) where
  moved :
      (b c : GuardAdapter)
      → Stays l b.guard c.guard
      → is_held l.identity c.holds ≡ true
      → StaysFenced l a b
      → StaysFenced l a c
  moved b c s h v = record {
    fenced = record { held = s.held; hold = h };
    fewer = omega (arith, s.fewer, v.fewer);
  }

  unchanged :
      {A : Type 0} (x : A) (b : GuardAdapter) → StaysFenced l a b → Ends (StaysFenced l a) (x, b)
  unchanged x b v = record { end = v }

  noted-StaysFenced : (b : GuardAdapter) → StaysFenced l a b → StaysFenced l a (noted b)
  unfolding noted step
  noted-StaysFenced b v =
      moved b _ (step-Stays l manual sha256_hex notes_failure b.guard tt v.fenced.held)
        v.fenced.hold v

  checked-StaysFenced :
      (label : Bytes) (uid : ℤ) (credential : Bytes) (id : Identity) (e : Option AdapterError)
      (b : GuardAdapter)
      → StaysFenced l a b
      → Ends (StaysFenced l a) (bind_checked sha256_hex label uid credential id e b)
  unfolding bind_checked step
  checked-StaysFenced label uid credential id (some e) b v = record { end = noted-StaysFenced b v }
  checked-StaysFenced label uid credential id none b v = record {
    end =
        moved b _
          (step-Stays l manual sha256_hex (Call.binds b.tag label uid credential) b.guard tt
            v.fenced.held)
          v.fenced.hold v;
  }

  bound-StaysFenced :
      (label : Bytes) (uid : ℤ) (credential : Bytes) (b : GuardAdapter)
      → StaysFenced l a b
      → Ends (StaysFenced l a) (bind_label sha256_hex label uid credential b)
  unfolding bind_label
  bound-StaysFenced label uid credential b v =
      let digest = credential_digest sha256_hex credential in
      if-Ends
        (length label == 0 || ltb 1024 (length label) || leb_ℤ uid (pos 0) || length digest == 0)
        (λ _. record { end = noted-StaysFenced b v })
        (λ _.
          if-Ends b.quiescing (λ _. unchanged _ b v)
            (λ _. checked-StaysFenced label uid credential _ _ b v))

  entered-StaysFenced :
      (t : ℕ → Moment) (label : Bytes) (close : Option ℕ) (b : GuardAdapter)
      → StaysFenced l a b
      → Ends (StaysFenced l a) (enter_flow t label close b)
  unfolding enter_flow step
  entered-StaysFenced t label close b v = record {
    end =
        moved b _
          (step-Stays l manual sha256_hex (Call.tracks t b.tag label close) b.guard tt
            v.fenced.held)
          v.fenced.hold v;
  }

  tracked-StaysFenced :
      (t : ℕ → Moment) (label : Bytes) (close : Option ℕ) (b : GuardAdapter)
      → StaysFenced l a b
      → Ends (StaysFenced l a) (track_label t label close b)
  unfolding track_label
  tracked-StaysFenced t label close b v =
      if-Ends (is_closing label b) (λ _. unchanged _ b v)
        (λ _. entered-StaysFenced t label close b v)

  holding-StaysFenced :
      (id : Identity) (m : Lease) (o : Outcome (List (Option ℕ))) (b : GuardAdapter)
      → StaysFenced l a b
      → Ends (StaysFenced l a) (holding id m o b)
  unfolding holding
  holding-StaysFenced id m (refused e) b v = unchanged _ b v
  holding-StaysFenced id m (done _) b v = record {
    end = record {
      fenced = record { held = v.fenced.held; hold = still_held l id m b.holds v.fenced.hold };
      fewer = v.fewer;
    };
  }

  fenced-StaysFenced :
      (now : ℤ) (t : ℕ → Moment) (id : Identity) (b : GuardAdapter)
      → StaysFenced l a b
      → Ends (StaysFenced l a) (fence_new sha256_hex now t id b)
  unfolding fence_new step
  fenced-StaysFenced now t id b v =
      let m = hold_lease sha256_hex now id b in
      let applied = apply t m b.guard in
      if-Ends (not (is_bound_here id b) && has_identity id b.sealed)
        (λ _. record {
          end = record {
            fenced = record {
              held = v.fenced.held;
              hold = still_held l id m b.holds v.fenced.hold;
            };
            fewer = v.fewer;
          };
        })
        (λ _.
          holding-StaysFenced id m applied.0 (record b { guard = applied.1 })
            (moved b (record b { guard = applied.1 })
              (step-Stays l manual sha256_hex (applies t m) b.guard tt v.fenced.held) v.fenced.hold
              v))

  fence-StaysFenced :
      (now : ℤ) (t : ℕ → Moment) (id : Identity) (b : GuardAdapter)
      → StaysFenced l a b
      → Ends (StaysFenced l a) (fence sha256_hex now t id b)
  unfolding fence
  fence-StaysFenced now t id b v =
      if-Ends (leb_ℤ id.uid (pos 0) || not (valid_hex id.credential 32)) (λ _. unchanged _ b v)
        (λ _.
          if-Ends (is_held id b.holds) (λ _. unchanged _ b v)
            (λ _. fenced-StaysFenced now t id b v))

  pub inspected-StaysFenced :
      (t : ℕ → Moment) (id : Identity) (b : GuardAdapter)
      → StaysFenced l a b
      → Ends (StaysFenced l a) (inspect t id b)
  unfolding inspect step
  inspected-StaysFenced t id b v = record {
    end =
        moved b _ (step-Stays l manual sha256_hex (reads_stats t) b.guard tt v.fenced.held)
          v.fenced.hold v;
  }

  on_from :
      (p : Answer (Unit {0}) × GuardAdapter) (k : GuardAdapter → Answer (Unit {0}) × GuardAdapter)
      → Ends (StaysFenced l a) p
      → ((b : GuardAdapter) → StaysFenced l a b → Ends (StaysFenced l a) (k b))
      → Ends (StaysFenced l a) (go_on p k)
  unfolding go_on
  on_from (err e, b) k h more = record { end = h.end }
  on_from (ok _, b) k h more = more b h.end

  each-StaysFenced :
      (r : ℕ → Round) (k : ℕ) (ids : List Identity) (b : GuardAdapter)
      → StaysFenced l a b
      → Ends (StaysFenced l a) (fence_each sha256_hex r k ids b)
  unfolding fence_each
  each-StaysFenced r k [] b v = unchanged _ b v
  each-StaysFenced r k (id ∷ rest) b v =
      if-Ends (r k).ended (λ _. unchanged _ b v)
        (λ _.
          on_from (fence sha256_hex (r k).now (r k).times id b)
            (λ c. fence_each sha256_hex r (suc k) rest c)
            (fence-StaysFenced (r k).now (r k).times id b v)
            (λ c w. each-StaysFenced r (suc k) rest c w))

  quiesced-StaysFenced :
      (r : ℕ → Round) (b : GuardAdapter)
      → StaysFenced l a b
      → Ends (StaysFenced l a) (quiesce sha256_hex r b)
  unfolding quiesce
  quiesced-StaysFenced r b v =
      each-StaysFenced r 0 (with_sealed (identities [] b.bindings) b.sealed)
        (record b { quiescing = true })
        (record { fenced = record { held = v.fenced.held; hold = v.fenced.hold }; fewer = v.fewer })

  restored-StaysFenced :
      (o : Option (List Identity)) (b : GuardAdapter)
      → StaysFenced l a b
      → Ends (StaysFenced l a) (restored_as o b)
  unfolding restored_as
  restored-StaysFenced none b v = unchanged _ b v
  restored-StaysFenced (some ids) b v = record {
    end = record {
      fenced = record { held = v.fenced.held; hold = v.fenced.hold };
      fewer = v.fewer;
    };
  }

  restore-StaysFenced :
      (ids : List Identity) (b : GuardAdapter)
      → StaysFenced l a b
      → Ends (StaysFenced l a) (restore_sealed ids b)
  unfolding restore_sealed
  restore-StaysFenced ids b v =
      if-Ends
        (not (length b.bindings == 0)
          || not (length b.holds == 0)
          || not (length b.sealed == 0)
          || b.quiescing
          || ltb max_samples (length ids))
        (λ _. unchanged _ b v) (λ _. restored-StaysFenced (restorable [] ids) b v)

  noted_of-StaysFenced :
      (o : Option Identity) (b : GuardAdapter) → StaysFenced l a b → StaysFenced l a (note_of o b)
  unfolding note_of
  noted_of-StaysFenced none b v = noted-StaysFenced b v
  noted_of-StaysFenced (some id) b v = record {
    fenced = record { held = v.fenced.held; hold = v.fenced.hold };
    fewer = v.fewer;
  }

  act-StaysFenced :
      (x : Act) (b : GuardAdapter) → StaysFenced l a b → StaysFenced l a (act sha256_hex x b)
  unfolding act finish_flow note_identity step
  act-StaysFenced (binds label uid credential) b v =
      (bound-StaysFenced label uid credential b v).end
  act-StaysFenced (tracks t label close) b v = (tracked-StaysFenced t label close b v).end
  act-StaysFenced (enters t label close) b v = (entered-StaysFenced t label close b v).end
  act-StaysFenced (finishes n) b v =
      moved b _ (step-Stays l manual sha256_hex (Call.finishes n) b.guard tt v.fenced.held)
        v.fenced.hold v
  act-StaysFenced notes b v = noted-StaysFenced b v
  act-StaysFenced (notes_identity label) b v =
      noted_of-StaysFenced (get bytes_key label b.bindings) b v
  act-StaysFenced (fences now t id) b v = (fence-StaysFenced now t id b v).end
  act-StaysFenced (inspects t id) b v = (inspected-StaysFenced t id b v).end
  act-StaysFenced (quiesces r) b v = (quiesced-StaysFenced r b v).end
  act-StaysFenced (restores ids) b v = (restore-StaysFenced ids b v).end

  pub acts-StaysFenced :
      (run : List Act) (b : GuardAdapter)
      → StaysFenced l a b
      → StaysFenced l a (acts sha256_hex run b)
  unfolding acts
  acts-StaysFenced [] b v = v
  acts-StaysFenced (x ∷ rest) b v =
      acts-StaysFenced rest (act sha256_hex x b) (act-StaysFenced x b v)
