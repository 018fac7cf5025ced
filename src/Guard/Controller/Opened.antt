-- ===== src/Guard/Controller/Opened.antt =====
-- A controller that `OpenController` returns follows the journal that the store has given.
use v2b_x.Base.{
  ℕ, suc, ◌+◌, ◌≤◌, ◌≡◌, refl, subst, not, ◌||◌, Option, none, some, List, [], ◌∷◌, Bytes, bytes_eq,
  bytes_eq_iff, arith, get, put, leb, ltb, ◌==◌, length, All, AllEntries-get,
}
use v2b_x.Base.Int.{pos, eqb_ℤ, eqb_ℤ_iff}
use v2b_x.Transfer.Types.{identity_key, bytes_key}
use v2b_x.Guard.Types.{Moment, Lease, Guard}
use v2b_x.Guard.Controller.Types.{
  Command, BootStamp, Entry, Journal, gives, Codec, Operation, block, release, cancel, is_some,
  marked,
}
use v2b_x.Guard.Controller.Envelope.{operation_of, verify_envelope}
use v2b_x.Guard.Controller.Records.{
  Scan, fresh_scan, scan, scan_record, scan_command, scan_as, scan_block, scan_release, scan_cancel,
  stamped, breaks_order, overlaps, bad_stamp, same_lease,
}
use v2b_x.Guard.Controller.Open.{
  restore, take_over, open_scan, open_stamp, open_journal, open_controller,
}
use v2b_x.Guard.Controller.Execute.{last}
use v2b_x.Guard.Controller.Verified.{Decodes}
use v2b_x.Guard.Controller.Follow.{Follows, Latest, IsValidSetting}
use v2b_x.Guard.Controller.Results.{
  Results, fails-Results, gives-Results, if-Results, and_then-Results,
}
use v2b_x.Guard.Controller.Scanned.{Sits, scan-Knows, fresh-Knows}
use v2b_x.Guard.Controller.Restored.{restore-Restored}

-- The last record behind one that is known.
last_after : Option Entry → List Entry → Option Entry
last_after o [] = o
last_after o (r ∷ rs) = last_after (some r) rs

anything : (rs : List Entry) → All (λ _. Unit {0}) rs
anything [] = tt
anything (r ∷ rs) = (tt, anything rs)

module _ (x : Codec) (node key : Bytes) where
  block-previous :
      (l : Lease) (r : Entry) (s : Scan)
      → Results (λ u. u.previous ≡ s.previous) (scan_block x node key l r s)
  unfolding scan_block
  block-previous l r s =
      if-Results (is_some (get bytes_key l.id s.seen)) (λ _. fails-Results _)
        (λ _.
          if-Results (ltb 4096 (length (put bytes_key l.id l s.seen))) (λ _. fails-Results _)
            (λ _.
              if-Results (overlaps x node key (get identity_key l.identity s.pending) r)
                (λ _. fails-Results _) (λ _. gives-Results _ refl)))

  -- Each turn of the loop leaves the stamp of its record.
  scan_as-previous :
      (o : Option Operation) (l : Lease) (r : Entry) (s : Scan)
      → Results (λ u. u.previous ≡ s.previous) (scan_as x node key o l r s)
  unfolding scan_as scan_release scan_cancel
  scan_as-previous none l r s = block-previous l r s
  scan_as-previous (some block) l r s = block-previous l r s
  scan_as-previous (some release) l r s =
      if-Results (not (same_lease l (get bytes_key l.id s.seen))) (λ _. fails-Results _)
        (λ _.
          if-Results (marked l.id s.released) (λ _. fails-Results _) (λ _. gives-Results _ refl))
  scan_as-previous (some cancel) l r s =
      if-Results (is_some (get bytes_key l.id s.seen) || leb 4096 (length s.seen))
        (λ _. fails-Results _) (λ _. gives-Results _ refl)

  command-previous :
      (n : ℕ) (o : Option Command) (r : Entry) (s : Scan)
      → Results (λ u. u.previous ≡ r.boot) (scan_command x node key n o r s)
  unfolding scan_command stamped
  command-previous n none r s = fails-Results _
  command-previous n (some c) r s =
      if-Results (breaks_order n c r s) (λ _. fails-Results _)
        (λ _. scan_as-previous (operation_of c.operation) c.lease r (stamped r s))

  scan-Latest :
      (n : ℕ) (rs : List Entry) (o : Option Entry) (s : Scan)
      → Latest o s.last_wall s.previous
      → Results (λ u. Latest (last_after o rs) u.last_wall u.previous) (scan x node key n rs s)
  unfolding scan scan_record last_after
  scan-Latest n [] o s h = gives-Results s h
  scan-Latest n (r ∷ rs) o s h =
      and_then-Results (scan_record x node key n r s) (scan x node key (suc n) rs)
        (command-previous n (verify_envelope x node key r.envelope) r s)
        (λ u e. scan-Latest (suc n) rs (some r) u e)

  last_after-last : (r : Entry) (rs : List Entry) → last_after (some r) rs ≡ last (r ∷ rs)
  unfolding last_after
  last_after-last r [] = refl
  last_after-last r (q ∷ rs) = last_after-last q rs

  last_after-none : (rs : List Entry) → last_after none rs ≡ last rs
  unfolding last_after
  last_after-none [] = refl
  last_after-none (r ∷ rs) = last_after-last r rs

  scanned-Follows :
      (boot_id : Bytes) (m : Moment) (j : Journal) (stamp : BootStamp) (t : ℕ → Moment) (g : Guard)
      (s : Scan)
      → Decodes x
      → stamp.id ≡ boot_id
      → ((k : ℕ) → m.instant ≤ (t k).instant)
      → IsValidSetting node key
      → j.version ≡ pos 1
      → j.node ≡ node
      → scan x node key 1 j.records fresh_scan ≡ gives s
      → Results (λ c. Follows x boot_id m.instant c) (open_scan x node key j stamp t g s)
  unfolding open_scan take_over
  scanned-Follows boot_id m j stamp t g s dec reads le set v n scanned =
      let k =
        (scan-Knows x node key (λ _. Unit {0}) 0 1 j.records fresh_scan dec (anything j.records)
            (fresh-Knows x node key (λ _. Unit {0}))).holds
          s scanned in
      let l = (scan-Latest 1 j.records none fresh_scan (refl, refl)).holds s scanned in
      and_then-Results (restore x node key stamp t 0 s.pending ([], []))
        (take_over x node key j g s)
        (restore-Restored boot_id x node key stamp m t 0 s.seen s.pending ([], []) reads le k.keyed
          k.sits)
        (λ o all_.
          if-Results
            (not (length g.bindings + length g.leases + length g.seen + length g.sessions == 0))
            (λ _. fails-Results _)
            (λ _. gives-Results _ (record {
              pending = s.pending;
              previous = s.previous;
              scanned = scanned;
              latest = subst (λ o. Latest o s.last_wall s.previous) (last_after-none j.records) l;
              pends = λ i r h.
                  let sits =
                    AllEntries-get identity_key (Sits x node key s.seen) i r s.pending k.sits h in
                  record { known = sits.known; own = sits.own; stands = all_.stand i r h };
              version_eq = v;
              node_eq = n;
              is_set = set;
            })))

  pub opened-Follows :
      (boot_id : Bytes) (m : Moment) (stored : Option Journal) (stamp : BootStamp) (t : ℕ → Moment)
      (g : Guard)
      → Decodes x
      → stamp.id ≡ boot_id
      → ((k : ℕ) → m.instant ≤ (t k).instant)
      → Results
          (λ c. Follows x boot_id m.instant c)
          (open_controller x node key stored (some stamp) t g)
  unfolding open_controller open_journal open_stamp open_scan take_over
  opened-Follows boot_id m none stamp t g dec reads le =
      if-Results (length node == 0 || ltb 64 (length node) || not (length key == 32))
        (λ _. fails-Results _) (λ _. fails-Results _)
  opened-Follows boot_id m (some j) stamp t g dec reads le =
      if-Results (length node == 0 || ltb 64 (length node) || not (length key == 32))
        (λ _. fails-Results _)
        (λ set.
          if-Results
            (not (eqb_ℤ j.version (pos 1))
              || not (bytes_eq j.node node)
              || ltb 10000 (length j.records))
            (λ _. fails-Results _)
            (λ version.
              if-Results (bad_stamp stamp) (λ _. fails-Results _)
                (λ good.
                  and_then-Results (scan x node key 1 j.records fresh_scan)
                    (open_scan x node key j stamp t g) (record { holds = λ s h. h })
                    (λ s scanned.
                      scanned-Follows boot_id m j stamp t g s dec reads le set
                        ((eqb_ℤ_iff j.version (pos 1)).0 (ground arith))
                        ((bytes_eq_iff j.node node).0 (ground arith)) scanned))))
