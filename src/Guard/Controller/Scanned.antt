-- ===== src/Guard/Controller/Scanned.antt =====
-- What the loop of `OpenController` knows behind the records of a journal.
use v2b_x.Base.{
  ℕ, suc, ◌+◌, ◌*◌, ◌≤◌, ◌≡◌, refl, sym, ap, ◌∙◌, subst, inl, inr, true, false, not, ◌||◌, Option,
  none, some, List, [], ◌∷◌, Bytes, bytes_eq, arith, Assoc, get, put, leb, ltb, Bool-cases, length,
  All, All-map, AllEntries-put, AllEntries-del, put-IsKeyed, del-IsKeyed, IsKeyed, put_here,
  put_there,
}
use v2b_x.Base.Int.{ℤ, pos, negsuc, ltb_ℤ, leb_ℤ, sub64}
use v2b_x.Transfer.Types.{Identity, identity_key, bytes_key}
use v2b_x.Guard.Types.{Lease}
use v2b_x.Guard.Controller.Types.{
  Command, Entry, marked, is_some, Codec, Operation, block, release, cancel,
}
use v2b_x.Guard.Controller.Envelope.{operation_of, admissible, verify_envelope}
use v2b_x.Guard.Controller.Records.{
  Scan, fresh_scan, scan, scan_record, scan_command, scan_as, scan_block, scan_release, scan_cancel,
  stamped, breaks_order, lease_of, lease_or_zero, overlaps, drop_pending, same_lease,
}
use v2b_x.Guard.Controller.Verified.{Decodes, verified, time_left}
use v2b_x.Guard.Controller.Record.{unseen_differs, same_seen}
use v2b_x.Guard.Controller.Results.{
  Results, fails-Results, gives-Results, if-Results, and_then-Results,
}
use v2b_x.Guard.Controller.Counts.{
  unreleased, length-put_new, unreleased-put, unreleased-released, unreleased-cancel,
}

not_negative : (z : ℤ) → ltb_ℤ z (pos 0) ≡ false → (n : ℕ) × (z ≡ pos n)
not_negative (pos n) h = (n, refl)
not_negative (negsuc n) h = absurd (ground arith)

module _ (x : Codec) (node key : Bytes) where
  -- What a pending record is like: the lease is known, and pending for its own identity; of a
  -- temporary lease no more than 1000 seconds are left, from a boot clock that is not negative.
  pub record Sits (seen : Assoc Bytes Lease) (i : Identity) (r : Entry) : Type 0 where
    pub known : get bytes_key (lease_of x node key r).id seen ≡ some (lease_of x node key r)
    pub own : (lease_of x node key r).identity ≡ i
    pub left :
        (lease_of x node key r).manual ≡ false
        → (d : ℕ) × (sub64 (lease_of x node key r).expires_at r.accepted_at ≡ pos d) × (d ≤ 1000)
    pub start : (n : ℕ) × (r.boot.nanos ≡ pos n)

  -- `k` records are read, each of which meets `Q`.
  pub record Knows (Q : Entry → Type 0) (k : ℕ) (s : Scan) : Type 0 where
    pub counted : k + unreleased s.released s.seen ≤ 2 * length s.seen
    pub room : length s.seen ≤ 4096
    pub keyed : IsKeyed identity_key s.pending
    pub sits : All (λ p. Sits s.seen p.0 p.1) s.pending
    pub from_journal : All (λ p. Q p.1) s.pending

  Sits-put :
      (seen : Assoc Bytes Lease) (l : Lease) (i : Identity) (r : Entry)
      → is_some (get bytes_key l.id seen) ≡ false
      → Sits seen i r
      → Sits (put bytes_key l.id l seen) i r
  Sits-put seen l i r new p =
      let n =
        unseen_differs l.id (lease_of x node key r).id (lease_of x node key r) seen new p.known in
      record {
        known = put_there bytes_key l.id (lease_of x node key r).id l seen n ∙ p.known;
        own = p.own;
        left = p.left;
        start = p.start;
      }

  -- The cases of a record, with the clocks of the loop set to it.
  cancel-Knows :
      (Q : Entry → Type 0) (k : ℕ) (l : Lease) (s : Scan)
      → Knows Q k s
      → Results (Knows Q (suc k)) (scan_cancel l s)
  unfolding scan_cancel
  cancel-Knows Q k l s h =
      if-Results (is_some (get bytes_key l.id s.seen) || leb 4096 (length s.seen))
        (λ _. fails-Results _)
        (λ ok_.
          let new : is_some (get bytes_key l.id s.seen) ≡ false = ground arith in
          let small : leb 4096 (length s.seen) ≡ false = ground arith in
          let len = length-put_new l.id l s.seen new in
          let u = unreleased-cancel s.released l.id l s.seen in
          let c = h.counted in
          gives-Results _ (record {
            counted = omega (arith, len, u, c);
            room = ground (arith, len);
            keyed = h.keyed;
            sits =
                All-map (λ p. Sits s.seen p.0 p.1) (λ p. Sits (put bytes_key l.id l s.seen) p.0 p.1)
                  (λ p. Sits-put s.seen l p.0 p.1 new) s.pending h.sits;
            from_journal = h.from_journal;
          }))

  drop-AllEntries :
      (P : Identity → Entry → Type 0) (l : Lease) (o : Option Entry)
      (pending : Assoc Identity Entry)
      → All (λ p. P p.0 p.1) pending
      → All (λ p. P p.0 p.1) (drop_pending x node key l o pending)
  unfolding drop_pending
  drop-AllEntries P l none pending h = h
  drop-AllEntries P l (some old) pending h =
      elim (Bool-cases (bytes_eq (lease_of x node key old).id l.id)) [
        | inl b ↦ rw b (AllEntries-del identity_key P l.identity pending h)
        | inr b ↦ rw b h
      ]

  drop-IsKeyed :
      (l : Lease) (o : Option Entry) (pending : Assoc Identity Entry)
      → IsKeyed identity_key pending
      → IsKeyed identity_key (drop_pending x node key l o pending)
  unfolding drop_pending
  drop-IsKeyed l none pending h = h
  drop-IsKeyed l (some old) pending h =
      elim (Bool-cases (bytes_eq (lease_of x node key old).id l.id)) [
        | inl b ↦ rw b (del-IsKeyed identity_key l.identity pending h)
        | inr b ↦ rw b h
      ]

  release-Knows :
      (Q : Entry → Type 0) (k : ℕ) (l : Lease) (s : Scan)
      → Knows Q k s
      → Results (Knows Q (suc k)) (scan_release x node key l s)
  unfolding scan_release
  release-Knows Q k l s h =
      if-Results (not (same_lease l (get bytes_key l.id s.seen))) (λ _. fails-Results _)
        (λ same.
          if-Results (marked l.id s.released) (λ _. fails-Results _)
            (λ new.
              let yes : same_lease l (get bytes_key l.id s.seen) ≡ true = ground arith in
              let found = same_seen l (get bytes_key l.id s.seen) yes in
              let u = unreleased-released s.released l.id l s.seen found new in
              let c = h.counted in
              let o = get identity_key l.identity s.pending in
              gives-Results _ (record {
                counted = omega (arith, u, c);
                room = h.room;
                keyed = drop-IsKeyed l o s.pending h.keyed;
                sits = drop-AllEntries (Sits s.seen) l o s.pending h.sits;
                from_journal = drop-AllEntries (λ i r. Q r) l o s.pending h.from_journal;
              })))

  block-Knows :
      (Q : Entry → Type 0) (k : ℕ) (l : Lease) (r : Entry) (s : Scan)
      → Q r
      → Knows Q k s
      → (is_some (get bytes_key l.id s.seen) ≡ false
          → Sits (put bytes_key l.id l s.seen) l.identity r)
      → Results (Knows Q (suc k)) (scan_block x node key l r s)
  unfolding scan_block
  block-Knows Q k l r s q h own =
      if-Results (is_some (get bytes_key l.id s.seen)) (λ _. fails-Results _)
        (λ new.
          if-Results (ltb 4096 (length (put bytes_key l.id l s.seen))) (λ _. fails-Results _)
            (λ small.
              if-Results (overlaps x node key (get identity_key l.identity s.pending) r)
                (λ _. fails-Results _)
                (λ apart.
                  let len = length-put_new l.id l s.seen new in
                  let u = unreleased-put s.released l.id l s.seen in
                  let c = h.counted in
                  gives-Results _ (record {
                    counted = omega (arith, len, u, c);
                    room = ground arith;
                    keyed = put-IsKeyed identity_key l.identity r s.pending h.keyed;
                    sits =
                        AllEntries-put identity_key (Sits (put bytes_key l.id l s.seen)) l.identity
                          r s.pending (own new)
                          (All-map (λ p. Sits s.seen p.0 p.1)
                            (λ p. Sits (put bytes_key l.id l s.seen) p.0 p.1)
                            (λ p. Sits-put s.seen l p.0 p.1 new) s.pending h.sits);
                    from_journal =
                        AllEntries-put identity_key (λ i r. Q r) l.identity r s.pending q
                          h.from_journal;
                  }))))

  on_clock :
      (Q : Entry → Type 0) (k : ℕ) (r : Entry) (s : Scan) → Knows Q k s → Knows Q k (stamped r s)
  unfolding stamped
  on_clock Q k r s h = record {
    counted = h.counted;
    room = h.room;
    keyed = h.keyed;
    sits = h.sits;
    from_journal = h.from_journal;
  }

  -- The record of a block sits in the loop's variables.
  own-Sits :
      (n : ℕ) (c : Command) (r : Entry) (s : Scan) (seen : Assoc Bytes Lease)
      → Decodes x
      → verify_envelope x node key r.envelope ≡ some c
      → operation_of c.operation ≡ some block
      → breaks_order n c r s ≡ false
      → Sits (put bytes_key c.lease.id c.lease seen) c.lease.identity r
  unfolding breaks_order lease_of
  own-Sits n c r s seen dec ver op order =
      let same : lease_of x node key r ≡ c.lease = ap lease_or_zero ver in
      let q4 : ltb_ℤ r.accepted_at (sub64 c.issued_at (pos 5)) ≡ false = ground arith in
      let q5 : leb_ℤ c.not_after r.accepted_at ≡ false = ground arith in
      let good : ltb_ℤ r.boot.nanos (pos 0) ≡ false = ground arith in
      let seen2 = put bytes_key c.lease.id c.lease seen in
      let (k, o, l) =
        subst
          (λ z.
            (get bytes_key z.id seen2 ≡ some z)
            × (z.identity ≡ c.lease.identity)
            × (z.manual ≡ false
                → (d : ℕ) × (sub64 z.expires_at r.accepted_at ≡ pos d) × (d ≤ 1000)))
          (sym same)
          (
            put_here bytes_key c.lease.id c.lease seen,
            refl,
            λ man. time_left x node key r.envelope c r.accepted_at dec ver op man q4 q5,
          ) in
      record { known = k; own = o; left = l; start = not_negative r.boot.nanos good }

  command-Knows :
      (Q : Entry → Type 0) (k n : ℕ) (o : Option Operation) (c : Command) (r : Entry) (s : Scan)
      → Decodes x
      → Q r
      → verify_envelope x node key r.envelope ≡ some c
      → operation_of c.operation ≡ o
      → breaks_order n c r s ≡ false
      → Knows Q k s
      → Results (Knows Q (suc k)) (scan_as x node key o c.lease r (stamped r s))
  unfolding scan_as stamped admissible
  command-Knows Q k n none c r s dec q ver op order h =
      let adm = (verified x node key r.envelope c ver).1 in
      let z : admissible node c none ≡ true = rw op at adm in absurd (cc)
  command-Knows Q k n (some cancel) c r s dec q ver op order h =
      cancel-Knows Q k c.lease (stamped r s) (on_clock Q k r s h)
  command-Knows Q k n (some release) c r s dec q ver op order h =
      release-Knows Q k c.lease (stamped r s) (on_clock Q k r s h)
  command-Knows Q k n (some block) c r s dec q ver op order h =
      block-Knows Q k c.lease r (stamped r s) q (on_clock Q k r s h)
        (λ new. own-Sits n c r s s.seen dec ver op order)

  verified-Knows :
      (Q : Entry → Type 0) (k n : ℕ) (o : Option Command) (r : Entry) (s : Scan)
      → Decodes x
      → Q r
      → verify_envelope x node key r.envelope ≡ o
      → Knows Q k s
      → Results (Knows Q (suc k)) (scan_command x node key n o r s)
  unfolding scan_command
  verified-Knows Q k n none r s dec q ver h = fails-Results _
  verified-Knows Q k n (some c) r s dec q ver h =
      if-Results (breaks_order n c r s) (λ _. fails-Results _)
        (λ order. command-Knows Q k n (operation_of c.operation) c r s dec q ver refl order h)

  pub scan-Knows :
      (Q : Entry → Type 0) (k n : ℕ) (rs : List Entry) (s : Scan)
      → Decodes x
      → All Q rs
      → Knows Q k s
      → Results (Knows Q (k + length rs)) (scan x node key n rs s)
  unfolding scan scan_record
  scan-Knows Q k n [] s dec q h = gives-Results s (subst (λ k. Knows Q k s) (omega arith) h)
  scan-Knows Q k n (r ∷ rs) s dec q h =
      and_then-Results (scan_record x node key n r s) (scan x node key (suc n) rs)
        (verified-Knows Q k n (verify_envelope x node key r.envelope) r s dec q.0 refl h)
        (λ u g.
          subst (λ k. Results (Knows Q k) (scan x node key (suc n) rs u)) (omega arith)
            (scan-Knows Q (suc k) (suc n) rs u dec q.1 g))

  pub fresh-Knows : (Q : Entry → Type 0) → Knows Q 0 fresh_scan
  unfolding unreleased
  fresh-Knows Q = record {
    counted = omega arith;
    room = omega arith;
    keyed = tt;
    sits = tt;
    from_journal = tt;
  }
