-- ===== src/Guard/Controller/Steps.antt =====
-- The effect of an accepted command, and the guard's other methods, keep it that the journal
-- verifies to the state.
use v2b_x.Guard.Leases.{holds_now}
use v2b_x.Transfer.Types.{identity_key}
use v2b_x.Base.{
  get, ℕ, suc, ◌≤◌, ◌≡◌, refl, sym, ap, ◌∙◌, inl, inr, true, false, ◌&&◌, Option, none, some, List,
  [], ◌∷◌, ◌++◌, Bytes, bytes_eq, bytes_eq_iff, arith, Assoc, Bool-cases, length, ◌==◌,
}
use v2b_x.Base.Int.{pos, ltb_ℤ, leb_ℤ, sub64}
use v2b_x.Transfer.Types.{Identity}
use v2b_x.Guard.Types.{Moment, Guard}
use v2b_x.Guard.Controller.Types.{
  Command, Envelope, BootStamp, Entry, Controller, gives, Codec, Operation, block, release, cancel,
}
use v2b_x.Guard.Controller.Envelope.{operation_of, admissible, verify_envelope}
use v2b_x.Guard.Controller.Records.{
  Scan, scan, fresh_scan, scan_record, scan_command, breaks_order, lease_of, lease_or_zero,
  is_block, bad_stamp, behind,
}
use v2b_x.Guard.Controller.Execute.{
  last, Turn, effect, release_effect, committed, command_error, journal_with, rolled_back,
}
use v2b_x.Guard.Controller.Verified.{Decodes, verified}
use v2b_x.Guard.Controller.Follow.{Follows, Latest, view}
use v2b_x.Guard.Controller.Pending.{IsOver, Serves, Stands-later, Stands-served}
use v2b_x.Guard.Controller.Endings.{cancel-Taken, release-Taken}
use v2b_x.Guard.Controller.Record.{scan-append, entry_of, Taken, block-Taken}

last-append : (rs : List Entry) (r : Entry) → last (rs ++ r ∷ []) ≡ some r
last-append [] r = refl
last-append (a ∷ []) r = refl
last-append (a ∷ b ∷ rs) r = last-append (b ∷ rs) r

not_bad : (stamp : BootStamp) → bad_stamp stamp ≡ false → bytes_eq [] stamp.id ≡ false
not_bad stamp h = elim (Bool-cases (bytes_eq [] stamp.id)) [
  | inr e ↦ e
  | inl e ↦ let y = ap length ((bytes_eq_iff [] stamp.id).0 e) in absurd (ground arith)
]

-- The clocks have not gone back behind what the loop knows of the records.
pub order_kept :
    (m : Moment) (stamp : BootStamp) (cmd : Command) (o : Option Entry) (c : Controller)
    (previous : BootStamp)
    → Latest o c.last_wall previous
    → rolled_back m stamp cmd o c ≡ false
    → bad_stamp stamp ≡ false
    → ltb_ℤ m.unix (pos 0) ≡ false
    → ((is_block (operation_of cmd.operation) && ltb_ℤ m.unix c.last_wall) ≡ false)
      × (behind stamp previous ≡ false)
unfolding rolled_back
order_kept m stamp cmd none c previous l h b w =
    let e = not_bad stamp b in (rw (l.1, w) (ground arith), rw (l.0, e) refl)
order_kept m stamp cmd (some r) c previous l h b w = (ground arith, rw l (ground arith))

pub in_order :
    (n : ℕ) (cmd : Command) (e : Envelope) (m : Moment) (stamp : BootStamp) (c : Controller)
    (pending : Assoc Identity Entry) (previous : BootStamp)
    → cmd.sequence == n ≡ true
    → ltb_ℤ m.unix (sub64 cmd.issued_at (pos 5)) ≡ false
    → leb_ℤ cmd.not_after m.unix ≡ false
    → (is_block (operation_of cmd.operation) && ltb_ℤ m.unix c.last_wall) ≡ false
    → bad_stamp stamp ≡ false
    → behind stamp previous ≡ false
    → breaks_order n cmd (entry_of e m stamp) (view c pending previous) ≡ false
unfolding breaks_order
in_order n cmd e m stamp c pending previous a b d f g h = rw (a, b, d, f, g, h) refl

-- A turn at the instant of its first reading: callbacks do to the guard only what its other methods
-- do.
pub record Timely (at : ℕ) (t : Turn) : Type 0 where
  pub later : at ≤ (t.clock 0).instant
  pub serves :
      (closes : List (Option ℕ)) (g : Guard) → Serves (t.clock 0).instant g (t.called closes g)

-- A turn by the clocks of one boot. Where the next command in sequence blocks an identity that the
-- guard holds no longer, the time of a temporary lease that the journal has pending for it is over
-- by the boot clock too.
pub record Clocked (x : Codec) (boot_id : Bytes) (t : Turn) (e : Envelope) (c : Controller)
    : Type 0 where
  pub boots : (stamp : BootStamp) → t.boot ≡ some stamp → stamp.id ≡ boot_id
  pub after_epoch : ltb_ℤ (t.clock 0).unix (pos 0) ≡ false
  pub over :
      (s : Scan) (cmd : Command) (stamp : BootStamp) (old : Entry)
      → scan x c.node c.key 1 c.journal.records fresh_scan ≡ gives s
      → verify_envelope x c.node c.key e ≡ some cmd
      → operation_of cmd.operation ≡ some block
      → cmd.sequence == suc (length c.journal.records) ≡ true
      → t.boot ≡ some stamp
      → holds_now (get identity_key cmd.lease.identity c.guard.leases) (t.clock 0).instant ≡ false
      → get identity_key cmd.lease.identity s.pending ≡ some old
      → IsOver x c.node c.key old (entry_of e (t.clock 0) stamp)

module _ (x : Codec) (boot_id : Bytes) where
  -- The record of an accepted command is taken up by the loop.
  recorded :
      (n : ℕ) (op : Operation) (cmd : Command) (e : Envelope) (m : Moment) (stamp : BootStamp)
      (c d : Controller) (pending : Assoc Identity Entry) (previous : BootStamp)
      → verify_envelope x c.node c.key e ≡ some cmd
      → operation_of cmd.operation ≡ some op
      → breaks_order n cmd (entry_of e m stamp) (view c pending previous) ≡ false
      → (t : Taken x boot_id m op cmd.lease (entry_of e m stamp) c d pending previous)
      → scan_record x c.node c.key n (entry_of e m stamp) (view c pending previous)
        ≡ gives (view d t.next stamp)
  unfolding scan_record scan_command
  recorded n op cmd e m stamp c d pending previous ver iop ok_ t = rw (ver, ok_, iop) t.scanned

  Taken-Follows :
      (at : ℕ) (op : Operation) (cmd : Command) (e : Envelope) (m : Moment) (stamp : BootStamp)
      (c d : Controller)
      → (f : Follows x boot_id at c) → verify_envelope x c.node c.key e ≡ some cmd
      → operation_of cmd.operation ≡ some op
      → breaks_order
          (suc (length c.journal.records))
          cmd
          (entry_of e m stamp)
          (view c f.pending f.previous)
        ≡ false
      → Taken x boot_id m op cmd.lease (entry_of e m stamp) c d f.pending f.previous
      → d.node ≡ c.node
      → d.key ≡ c.key
      → d.journal ≡ journal_with e m stamp c
      → Follows x boot_id m.instant d
  unfolding journal_with
  Taken-Follows at op cmd e m stamp c d f ver iop order t en ek ej = record {
    pending = t.next;
    previous = stamp;
    scanned =
        rw (en, ek, ej)
          (scan-append x c.node c.key 1 c.journal.records (entry_of e m stamp) fresh_scan
              (view c f.pending f.previous) f.scanned
            ∙ ap
                (λ n.
                  scan_record x c.node c.key n (entry_of e m stamp) (view c f.pending f.previous))
                (omega arith)
            ∙ recorded (suc (length c.journal.records)) op cmd e m stamp c d f.pending f.previous
                ver iop order t);
    latest = rw ej (rw (last-append c.journal.records (entry_of e m stamp)) refl);
    pends = t.pends;
    version_eq = ap (λ j. j.version) ej;
    node_eq = ap (λ j. j.node) ej ∙ sym en;
    is_set = rw (en, ek) f.is_set;
  }

  pub Follows-later :
      (at to : ℕ) (c : Controller) → at ≤ to → Follows x boot_id at c → Follows x boot_id to c
  Follows-later at to c h f = record {
    pending = f.pending;
    previous = f.previous;
    scanned = f.scanned;
    latest = f.latest;
    pends = λ i r g.
        let p = f.pends i r g in
        record {
          known = p.known;
          own = p.own;
          stands =
              Stands-later boot_id at to c.guard.leases c.reconcile i r (lease_of x c.node c.key r)
                h p.stands;
        };
    version_eq = f.version_eq;
    node_eq = f.node_eq;
    is_set = f.is_set;
  }

  -- The other methods of the guard run.
  pub served-Follows :
      (at : ℕ) (c : Controller) (h : Guard)
      → Follows x boot_id at c
      → Serves at c.guard h
      → Follows x boot_id at (record c { guard = h })
  served-Follows at c h f s = record {
    pending = f.pending;
    previous = f.previous;
    scanned = rw s.seen_eq f.scanned;
    latest = f.latest;
    pends = λ i r g.
        let p = f.pends i r g in
        record {
          known = rw s.seen_eq p.known;
          own = p.own;
          stands =
              Stands-served boot_id at c.guard h c.reconcile i r (lease_of x c.node c.key r) s
                p.stands;
        };
    version_eq = f.version_eq;
    node_eq = f.node_eq;
    is_set = f.is_set;
  }

  pub poisoned-Follows :
      (at : ℕ) (c : Controller)
      → Follows x boot_id at c
      → Follows x boot_id at (record c { poisoned = true })
  poisoned-Follows at c f = record {
    pending = f.pending;
    previous = f.previous;
    scanned = f.scanned;
    latest = f.latest;
    pends = λ i r g.
        let p = f.pends i r g in record { known = p.known; own = p.own; stands = p.stands };
    version_eq = f.version_eq;
    node_eq = f.node_eq;
    is_set = f.is_set;
  }

  -- The effect of an accepted command.
  pub effect-Follows :
      (at : ℕ) (op : Option Operation) (cmd : Command) (e : Envelope) (m : Moment)
      (stamp : BootStamp) (c : Controller)
      → (f : Follows x boot_id at c) → Decodes x
      → at ≤ m.instant
      → stamp.id ≡ boot_id
      → verify_envelope x c.node c.key e ≡ some cmd
      → operation_of cmd.operation ≡ op
      → breaks_order
          (suc (length c.journal.records))
          cmd
          (entry_of e m stamp)
          (view c f.pending f.previous)
        ≡ false
      → (op ≡ some block
          → holds_now (get identity_key cmd.lease.identity c.guard.leases) m.instant ≡ false
          → (old : Entry) → get identity_key cmd.lease.identity f.pending ≡ some old
          → IsOver x c.node c.key old (entry_of e m stamp))
      → command_error m op cmd.lease c ≡ none
      → Follows x boot_id m.instant
          (effect m op cmd.lease (committed m (journal_with e m stamp c) c)).1
  unfolding effect release_effect committed lease_of admissible
  effect-Follows at none cmd e m stamp c f dec t reads ver iop order over clear =
      let adm = (verified x c.node c.key e cmd ver).1 in
      let z : admissible c.node cmd none ≡ true = rw iop at adm in absurd (cc)
  effect-Follows at (some block) cmd e m stamp c f dec t reads ver iop order over clear =
      let j = journal_with e m stamp c in
      Taken-Follows at block cmd e m stamp c (effect m (some block) cmd.lease (committed m j c)).1 f
        ver iop order
        (block-Taken x boot_id at m e stamp cmd.lease c j f.pending f.previous f.pends t reads
          (ap lease_or_zero ver) clear (over refl))
        refl refl refl
  effect-Follows at (some release) cmd e m stamp c f dec t reads ver iop order over clear =
      let j = journal_with e m stamp c in
      Taken-Follows at release cmd e m stamp c
        (effect m (some release) cmd.lease (committed m j c)).1 f ver iop order
        (release-Taken x boot_id at m e stamp cmd.lease c j f.pending f.previous f.pends t clear)
        refl refl refl
  effect-Follows at (some cancel) cmd e m stamp c f dec t reads ver iop order over clear =
      let j = journal_with e m stamp c in
      Taken-Follows at cancel cmd e m stamp c (effect m (some cancel) cmd.lease (committed m j c)).1
        f ver iop order
        (cancel-Taken x boot_id at m e stamp cmd.lease c j f.pending f.previous f.pends t clear)
        refl refl refl
