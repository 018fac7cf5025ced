-- ===== src/Guard/Controller/Endings.antt =====
-- A cancellation and a release that `Execute` accepts, as the next record of the loop of
-- `OpenController`.
use v2b_x.Base.{
  ℕ, ◌≤◌, ◌≡◌, refl, sym, ap, ◌∙◌, inl, inr, true, false, Option, none, some, Bytes, bytes_eq,
  bytes_eq_iff, arith, Assoc, get, del, leb, put_there, del_cases, Bool-cases, length,
}
use v2b_x.Transfer.Types.{Identity, identity_eq_iff, identity_key, bytes_key}
use v2b_x.Guard.Types.{Moment, Lease}
use v2b_x.Guard.Controller.Types.{
  Envelope, BootStamp, Entry, Journal, marked, is_some, Controller, Codec, release, cancel,
}
use v2b_x.Guard.Controller.Records.{
  scan_as, scan_release, scan_cancel, stamped, lease_of, drop_pending, same_lease,
}
use v2b_x.Guard.Controller.Execute.{effect, release_effect, committed, command_error}
use v2b_x.Guard.Controller.Pending.{Stands-later, Stands-released}
use v2b_x.Guard.Controller.Record.{AllPend, Taken, entry_of, unseen_differs, same_seen}

module _ (x : Codec) (boot_id : Bytes) where
  -- The cancellation of a lease that is not known.
  pub cancel-Taken :
      (at : ℕ) (m : Moment) (e : Envelope) (stamp : BootStamp) (l : Lease) (c : Controller)
      (j : Journal) (pending : Assoc Identity Entry) (previous : BootStamp)
      → AllPend x boot_id at c pending
      → at ≤ m.instant
      → command_error m (some cancel) l c ≡ none
      → Taken x boot_id m cancel l
          (entry_of e m stamp)
          c
          (effect m (some cancel) l (committed m j c)).1
          pending
          previous
  unfolding scan_as scan_cancel stamped effect committed command_error
  cancel-Taken at m e stamp l c j pending previous ps t clear =
      let new : is_some (get bytes_key l.id c.guard.seen) ≡ false = ground arith in
      let room : leb 4096 (length c.guard.seen) ≡ false = ground arith in
      record {
        next = pending;
        scanned = rw (new, room) refl;
        pends = λ i r h.
            let p = ps i r h in
            let fresh =
              unseen_differs l.id (lease_of x c.node c.key r).id (lease_of x c.node c.key r)
                c.guard.seen new p.known in
            record {
              known =
                  put_there bytes_key l.id (lease_of x c.node c.key r).id l c.guard.seen fresh
                  ∙ p.known;
              own = p.own;
              stands =
                  Stands-later boot_id at m.instant c.guard.leases c.reconcile i r
                    (lease_of x c.node c.key r) t p.stands;
            };
      }

  release_clear :
      (m : Moment) (l : Lease) (c : Controller)
      → command_error m (some release) l c ≡ none
      → (marked l.id c.released ≡ false) × (same_lease l (get bytes_key l.id c.guard.seen) ≡ true)
  unfolding command_error
  release_clear m l c h = (ground arith, ground arith)

  -- A known lease with the id of another is that one.
  pinned :
      (z l : Lease) (seen : Assoc Bytes Lease) (i : Identity)
      → get bytes_key z.id seen ≡ some z
      → get bytes_key l.id seen ≡ some l
      → z.identity ≡ i
      → bytes_eq z.id l.id ≡ true
      → l.identity ≡ i
  pinned z l seen i hz hl own e =
      let y = ap (λ k. get bytes_key k seen) ((bytes_eq_iff z.id l.id).0 e) in
      let same : z ≡ l = cc in ap (λ l. l.identity) (sym same) ∙ own

  -- A pending record has another id, if it is not the one of the lease's identity.
  other_id :
      (at : ℕ) (l : Lease) (c : Controller) (pending : Assoc Identity Entry) (i : Identity)
      (r : Entry)
      → AllPend x boot_id at c pending
      → get bytes_key l.id c.guard.seen ≡ some l
      → get identity_key i pending ≡ some r
      → (l.identity ≡ i
          → bytes_eq (lease_of x c.node c.key r).id l.id ≡ true
          → bytes_eq (lease_of x c.node c.key r).id l.id ≡ false)
      → bytes_eq (lease_of x c.node c.key r).id l.id ≡ false
  other_id at l c pending i r ps seen g differs =
      elim (Bool-cases (bytes_eq (lease_of x c.node c.key r).id l.id)) [
        | inr e ↦ e
        | inl e ↦
            let p = ps i r g in
            differs (pinned (lease_of x c.node c.key r) l c.guard.seen i p.known seen p.own e) e
      ]

  -- What is still pending behind a release has another id.
  left_pending :
      (at : ℕ) (l : Lease) (c : Controller) (pending : Assoc Identity Entry) (o : Option Entry)
      (i : Identity) (r : Entry)
      → AllPend x boot_id at c pending
      → get bytes_key l.id c.guard.seen ≡ some l
      → get identity_key l.identity pending ≡ o
      → get identity_key i (drop_pending x c.node c.key l o pending) ≡ some r
      → (get identity_key i pending ≡ some r)
        × (bytes_eq (lease_of x c.node c.key r).id l.id ≡ false)
  unfolding drop_pending
  left_pending at l c pending none i r ps seen h k = (
    k,
    other_id at l c pending i r ps seen k
        (λ e b. let y = ap (λ j. get identity_key j pending) e in absurd (cc)),
  )
  left_pending at l c pending (some old) i r ps seen h k =
      elim (Bool-cases (bytes_eq (lease_of x c.node c.key old).id l.id)) [
        | inl b ↦
            let k2 : get identity_key i (del identity_key l.identity pending) ≡ some r =
              rw b at k in
            let (n, g) = del_cases identity_key l.identity i r pending k2 in
            (
              g,
              other_id at l c pending i r ps seen g
                  (λ e q. let y = (identity_eq_iff l.identity i).1 e in absurd (cc)),
            )
        | inr b ↦
            let k2 : get identity_key i pending ≡ some r = rw b at k in
            (
              k2,
              other_id at l c pending i r ps seen k2 (λ e q.
                  let y = ap (λ j. get identity_key j pending) e in
                  let z : old ≡ r = cc in
                  ap (λ z. bytes_eq (lease_of x c.node c.key z).id l.id) (sym z) ∙ b),
            )
      ]

  -- The release of a known lease that is not released.
  pub release-Taken :
      (at : ℕ) (m : Moment) (e : Envelope) (stamp : BootStamp) (l : Lease) (c : Controller)
      (j : Journal) (pending : Assoc Identity Entry) (previous : BootStamp)
      → AllPend x boot_id at c pending
      → at ≤ m.instant
      → command_error m (some release) l c ≡ none
      → Taken x boot_id m release l
          (entry_of e m stamp)
          c
          (effect m (some release) l (committed m j c)).1
          pending
          previous
  unfolding scan_as scan_release stamped effect release_effect committed
  release-Taken at m e stamp l c j pending previous ps t clear =
      let (new, known) = release_clear m l c clear in
      let seen = same_seen l (get bytes_key l.id c.guard.seen) known in
      record {
        next = drop_pending x c.node c.key l (get identity_key l.identity pending) pending;
        scanned = rw (known, new) refl;
        pends = λ i r h.
            let (g, n) =
              left_pending at l c pending (get identity_key l.identity pending) i r ps seen refl
                h in
            let p = ps i r g in
            record {
              known = p.known;
              own = p.own;
              stands =
                  Stands-released boot_id m.instant c.guard c.reconcile i r
                    (lease_of x c.node c.key r) l n
                    (Stands-later boot_id at m.instant c.guard.leases c.reconcile i r
                      (lease_of x c.node c.key r) t p.stands);
            };
      }
