-- ===== src/Guard/Controller/Record.antt =====
-- A command that `Execute` accepts, as the next record of the loop of `OpenController`: the loop
-- takes it up, and its variables become what the effect of the command makes of the state.
use v2b_x.Base.{
  ℕ, suc, ◌+◌, ◌≤◌, ◌≡◌, refl, sym, ap, ◌∙◌, subst, inl, inr, true, false, Option, none, some, List,
  [], ◌∷◌, ◌++◌, Bytes, bytes_eq, bytes_eq_iff, arith, Assoc, get, put, leb, ltb, put_cases,
  put_here, put_there, Bool-cases, length, ◌==◌, length-put,
}
use v2b_x.Transfer.Types.{Identity, identity_key, bytes_key}
use v2b_x.Guard.Types.{Moment, Lease, lease_eq_sound}
use v2b_x.Guard.Leases.{holds_now}
use v2b_x.Guard.Controller.Types.{
  Envelope, BootStamp, Entry, Journal, Marks, marked, is_some, Controller, Reply, gives, fails,
  Codec, Operation, block, and_then,
}
use v2b_x.Guard.Controller.Records.{
  Scan, scan, scan_record, scan_as, scan_block, stamped, lease_of, overlaps, same_lease,
}
use v2b_x.Guard.Controller.Execute.{imposed, effect, committed, command_error, block_error}
use v2b_x.Guard.Controller.Follow.{Stands, Pends, view}
use v2b_x.Guard.Controller.Pending.{
  IsOver, Stands-later, Stands-overlaps, Stands-imposed, Stands-put,
}

and_then_gives : {A : Type 0} (r : Reply A) → and_then r gives ≡ r
and_then_gives (gives a) = refl
and_then_gives (fails e) = refl

append_rest :
    (x : Codec) (node key : Bytes) (n : ℕ) (rs : List Entry) (r : Entry) (o : Reply Scan) (u : Scan)
    → ((a : Scan)
        → scan x node key (suc n) rs a ≡ gives u
        → scan x node key (suc n) (rs ++ r ∷ []) a ≡ scan_record x node key (suc n + length rs) r u)
    → and_then o (scan x node key (suc n) rs) ≡ gives u
    → and_then o (scan x node key (suc n) (rs ++ r ∷ []))
      ≡ scan_record x node key (n + suc (length rs)) r u
append_rest x node key n rs r (fails e) u ih h =
    let z : ◌≡◌ {A = Reply Scan} (fails e) (gives u) = h in absurd (cc)
append_rest x node key n rs r (gives a) u ih h =
    ih a h ∙ ap (λ k. scan_record x node key k r u) (omega arith)

-- The loop over a journal with one more record.
pub scan-append :
    (x : Codec) (node key : Bytes) (n : ℕ) (rs : List Entry) (r : Entry) (s u : Scan)
    → scan x node key n rs s ≡ gives u
    → scan x node key n (rs ++ r ∷ []) s ≡ scan_record x node key (n + length rs) r u
unfolding scan
scan-append x node key n [] r s u h =
    let same : s ≡ u = cc in
    and_then_gives (scan_record x node key n r s)
    ∙ ap (λ v. scan_record x node key n r v) same
    ∙ ap (λ k. scan_record x node key k r u) (omega arith)
scan-append x node key n (q ∷ rs) r s u h =
    append_rest x node key n rs r (scan_record x node key n q s) u
      (λ a. scan-append x node key (suc n) rs r a u) h

-- The checks that an accepted block has passed.
block_clear :
    (m : Moment) (l : Lease) (c : Controller)
    → command_error m (some block) l c ≡ none
    → (length c.reconcile == 0 ≡ true)
      × (leb 4096 (length c.guard.seen) ≡ false)
      × (holds_now (get identity_key l.identity c.guard.leases) m.instant ≡ false)
      × (is_some (get bytes_key l.id c.guard.seen) ≡ false)
unfolding command_error block_error
block_clear m l c h = (ground arith, ground arith, ground arith, ground arith)

none_marked : (id : Bytes) (m : Marks) → length m == 0 ≡ true → marked id m ≡ false
unfolding get
none_marked id [] h = refl
none_marked id (a ∷ m) h = absurd (ground arith)

-- An id that is not known is none of the known ones.
pub unseen_differs :
    (id other : Bytes) (l : Lease) (seen : Assoc Bytes Lease)
    → is_some (get bytes_key id seen) ≡ false
    → get bytes_key other seen ≡ some l
    → bytes_eq id other ≡ false
unseen_differs id other l seen h k = elim (Bool-cases (bytes_eq id other)) [
  | inr e ↦ e
  | inl e ↦
      let y : get bytes_key id seen ≡ some l =
        ap (λ i. get bytes_key i seen) ((bytes_eq_iff id other).0 e) ∙ k in
      let z = ap is_some y in absurd (cc)
]

abbrev pub entry_of : Envelope → Moment → BootStamp → Entry
entry_of e m stamp = record { envelope = e; accepted_at = m.unix; boot = stamp }

pub same_seen : (l : Lease) (o : Option Lease) → same_lease l o ≡ true → o ≡ some l
same_seen l none h = absurd (cc)
same_seen l (some old) h = ap some (lease_eq_sound old l h)

module _ (x : Codec) (boot_id : Bytes) where
  -- What is known of the pending records while the journal and the state go on together.
  abbrev pub AllPend : ℕ → Controller → Assoc Identity Entry → Type 0
  AllPend at c pending =
      (i : Identity) (r : Entry) → get identity_key i pending ≡ some r → Pends x boot_id at c i r

  -- The record is taken up with the operation `op`.
  pub record Taken (m : Moment) (op : Operation) (l : Lease) (r : Entry) (c d : Controller)
      (pending : Assoc Identity Entry) (previous : BootStamp) : Type 0 where
    pub next : Assoc Identity Entry
    pub scanned :
        scan_as x c.node c.key (some op) l r (stamped r (view c pending previous))
        ≡ gives (view d next r.boot)
    pub pends : AllPend m.instant d next

  clear_of :
      (at : ℕ) (m : Moment) (l : Lease) (c : Controller) (pending : Assoc Identity Entry)
      (r : Entry) (o : Option Entry)
      → AllPend at c pending
      → r.boot.id ≡ boot_id
      → length c.reconcile == 0 ≡ true
      → holds_now (get identity_key l.identity c.guard.leases) m.instant ≡ false
      → ((old : Entry)
          → get identity_key l.identity pending ≡ some old
          → IsOver x c.node c.key old r)
      → get identity_key l.identity pending ≡ o
      → overlaps x c.node c.key o r ≡ false
  unfolding overlaps
  clear_of at m l c pending r none ps b nr nh over h = refl
  clear_of at m l c pending r (some old) ps b nr nh over h =
      Stands-overlaps boot_id x c.node c.key at c.guard.leases c.reconcile l.identity old r m
        (ps l.identity old h).stands (none_marked (lease_of x c.node c.key old).id c.reconcile nr)
        nh b (over old h)

  block_own :
      (m : Moment) (e : Envelope) (stamp : BootStamp) (l : Lease) (c : Controller) (j : Journal)
      → stamp.id ≡ boot_id
      → lease_of x c.node c.key (entry_of e m stamp) ≡ l
      → Pends x boot_id m.instant
          (effect m (some block) l (committed m j c)).1
          l.identity
          (entry_of e m stamp)
  unfolding effect committed
  block_own m e stamp l c j reads same =
      let leases = put identity_key l.identity (imposed m l) c.guard.leases in
      let seen = put bytes_key l.id l c.guard.seen in
      let (k, o, s) =
        subst
          (λ z.
            (get bytes_key z.id seen ≡ some z)
            × (z.identity ≡ l.identity)
            × Stands boot_id m.instant leases c.reconcile l.identity (entry_of e m stamp) z)
          (sym same)
          (
            put_here bytes_key l.id l c.guard.seen,
            refl,
            Stands-imposed boot_id m c.guard.leases c.reconcile (entry_of e m stamp) l reads,
          ) in
      record { known = k; own = o; stands = s }

  block-Pends :
      (at : ℕ) (m : Moment) (e : Envelope) (stamp : BootStamp) (l : Lease) (c : Controller)
      (j : Journal) (pending : Assoc Identity Entry) (i : Identity) (r : Entry)
      → AllPend at c pending
      → at ≤ m.instant
      → stamp.id ≡ boot_id
      → lease_of x c.node c.key (entry_of e m stamp) ≡ l
      → is_some (get bytes_key l.id c.guard.seen) ≡ false
      → get identity_key i (put identity_key l.identity (entry_of e m stamp) pending) ≡ some r
      → Pends x boot_id m.instant (effect m (some block) l (committed m j c)).1 i r
  unfolding effect committed
  block-Pends at m e stamp l c j pending i r ps t reads same new h =
      elim (put_cases identity_key l.identity i (entry_of e m stamp) r pending h) [
        | inl (ei, er) ↦
            subst (λ q. Pends x boot_id m.instant (effect m (some block) l (committed m j c)).1 i q)
              er
              (subst
                (λ k.
                  Pends x boot_id m.instant (effect m (some block) l (committed m j c)).1 k
                    (entry_of e m stamp))
                ei (block_own m e stamp l c j reads same))
        | inr (n, old) ↦
            let p = ps i r old in
            let fresh =
              unseen_differs l.id (lease_of x c.node c.key r).id (lease_of x c.node c.key r)
                c.guard.seen new p.known in
            record {
              known =
                  put_there bytes_key l.id (lease_of x c.node c.key r).id l c.guard.seen fresh
                  ∙ p.known;
              own = p.own;
              stands =
                  Stands-put boot_id m.instant c.guard.leases c.reconcile i l.identity (imposed m l)
                    r (lease_of x c.node c.key r) n
                    (Stands-later boot_id at m.instant c.guard.leases c.reconcile i r
                      (lease_of x c.node c.key r) t p.stands);
            }
      ]

  pub block-Taken :
      (at : ℕ) (m : Moment) (e : Envelope) (stamp : BootStamp) (l : Lease) (c : Controller)
      (j : Journal) (pending : Assoc Identity Entry) (previous : BootStamp)
      → AllPend at c pending
      → at ≤ m.instant
      → stamp.id ≡ boot_id
      → lease_of x c.node c.key (entry_of e m stamp) ≡ l
      → command_error m (some block) l c ≡ none
      → (holds_now (get identity_key l.identity c.guard.leases) m.instant ≡ false
          → (old : Entry) → get identity_key l.identity pending ≡ some old
          → IsOver x c.node c.key old (entry_of e m stamp))
      → Taken m block l
          (entry_of e m stamp)
          c
          (effect m (some block) l (committed m j c)).1
          pending
          previous
  unfolding scan_as scan_block stamped effect committed
  block-Taken at m e stamp l c j pending previous ps t reads same clear over =
      let (nr, room, nh, new) = block_clear m l c clear in
      let small : ltb 4096 (length (put bytes_key l.id l c.guard.seen)) ≡ false =
        let k = length-put bytes_key l.id l c.guard.seen in ground arith in
      let ov =
        clear_of at m l c pending (entry_of e m stamp) (get identity_key l.identity pending) ps
          reads nr nh (over nh) refl in
      record {
        next = put identity_key l.identity (entry_of e m stamp) pending;
        scanned = rw (new, small, ov) refl;
        pends = λ i r h. block-Pends at m e stamp l c j pending i r ps t reads same new h;
      }
