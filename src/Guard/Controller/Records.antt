-- ===== src/Guard/Controller/Records.antt =====
-- The loop of `OpenController` (controller.go) that verifies the journal record by record.
use v2b_x.Base.{
  ℕ, suc, Bool, true, false, ◌&&◌, ◌||◌, not, Option, none, some, List, [], ◌∷◌, Bytes, bytes_eq,
  ◌==◌, ltb, leb, if◌then◌else◌, length, Assoc, get, put, del,
}
use v2b_x.Base.Int.{ℤ, pos, ltb_ℤ, leb_ℤ, sub64}
use v2b_x.Transfer.Types.{Identity, identity_key, bytes_key}
use v2b_x.Guard.Types.{Lease, lease_eq}
use v2b_x.Guard.Controller.Types.{
  Command, BootStamp, Entry, Marks, and_then, is_some, marked, Reply, gives, fails, Codec,
  Operation, block, release, cancel, seconds, invalid_record, invalid_cancellation, invalid_release,
  duplicate_release, duplicate_lease, history_exceeded, overlapping_leases,
}
use v2b_x.Guard.Controller.Envelope.{operation_of, verify_envelope}

-- The variables of the loop over the records.
pub record Scan : Type 0 where
  pub seen : Assoc Bytes Lease
  pub released : Marks
  pub cancelled : Marks
  pub pending : Assoc Identity Entry
  pub last_wall : ℤ
  pub previous : BootStamp

abbrev pub fresh_scan : Scan
fresh_scan = record {
  seen = [];
  released = [];
  cancelled = [];
  pending = [];
  last_wall = pos 0;
  previous = record { id = []; nanos = pos 0 };
}

abbrev pub max_ℤ : ℤ → ℤ → ℤ
max_ℤ a b = if ltb_ℤ a b then b else a

abbrev pub is_block : Option Operation → Bool
is_block (some release) = false
is_block (some cancel) = false
is_block (some block) = true
is_block none = false

abbrev pub bad_stamp : BootStamp → Bool
bad_stamp s = length s.id == 0 || ltb_ℤ s.nanos (pos 0)

-- `a` is behind `b` on the clock of one boot.
abbrev pub behind : BootStamp → BootStamp → Bool
behind a b = bytes_eq b.id a.id && ltb_ℤ a.nanos b.nanos

-- The guard of the loop, for the record number `n` and its command.
unfoldable pub breaks_order : ℕ → Command → Entry → Scan → Bool
breaks_order n c r s =
    not (c.sequence == n)
    || ltb_ℤ r.accepted_at (sub64 c.issued_at (pos 5))
    || leb_ℤ c.not_after r.accepted_at
    || (is_block (operation_of c.operation) && ltb_ℤ r.accepted_at s.last_wall)
    || bad_stamp r.boot
    || behind r.boot s.previous

unfoldable pub scan_cancel : Lease → Scan → Reply Scan
scan_cancel l s =
    if is_some (get bytes_key l.id s.seen) || leb 4096 (length s.seen)
    then fails invalid_cancellation
    else gives (record s {
      seen = put bytes_key l.id l s.seen;
      released = put bytes_key l.id tt s.released;
      cancelled = put bytes_key l.id tt s.cancelled;
    })

-- The lease of a record that stands in `pending`; its error is not looked at.
abbrev pub lease_or_zero : Option Command → Lease
lease_or_zero (some c) = c.lease
lease_or_zero none = record {
  id = [];
  identity = record { uid = pos 0; credential = [] };
  started_at = pos 0;
  expires_at = pos 0;
  manual = false;
}

abbrev pub same_lease : Lease → Option Lease → Bool
same_lease l none = false
same_lease l (some old) = lease_eq old l

-- The clocks of the loop go on to the record.
unfoldable pub stamped : Entry → Scan → Scan
stamped r s = record s { last_wall = max_ℤ s.last_wall r.accepted_at; previous = r.boot }

module _ (x : Codec) (node key : Bytes) where
  unfoldable pub lease_of : Entry → Lease
  lease_of r = lease_or_zero (verify_envelope x node key r.envelope)

  unfoldable pub drop_pending : Lease → Option Entry → Assoc Identity Entry → Assoc Identity Entry
  unfolding lease_of
  drop_pending l none pending = pending
  drop_pending l (some old) pending =
      if bytes_eq (lease_of old).id l.id then del identity_key l.identity pending else pending

  unfoldable pub scan_release : Lease → Scan → Reply Scan
  unfolding drop_pending
  scan_release l s =
      if not (same_lease l (get bytes_key l.id s.seen))
      then fails invalid_release
      else if marked l.id s.released
      then fails duplicate_release
      else gives (record s {
        released = put bytes_key l.id tt s.released;
        pending = drop_pending l (get identity_key l.identity s.pending) s.pending;
      })

  -- The pending lease of an identity is not known to have run out before the record.
  unfoldable pub overlaps : Option Entry → Entry → Bool
  unfolding lease_of
  overlaps none r = false
  overlaps (some old) r =
      let l = lease_of old in
      l.manual
      || not (bytes_eq old.boot.id r.boot.id)
      || ltb_ℤ (sub64 r.boot.nanos old.boot.nanos) (seconds (sub64 l.expires_at old.accepted_at))

  unfoldable pub scan_block : Lease → Entry → Scan → Reply Scan
  unfolding overlaps
  scan_block l r s =
      if is_some (get bytes_key l.id s.seen)
      then fails duplicate_lease
      else if ltb 4096 (length (put bytes_key l.id l s.seen))
      then fails history_exceeded
      else if overlaps (get identity_key l.identity s.pending) r
      then fails overlapping_leases
      else gives (record s {
        seen = put bytes_key l.id l s.seen;
        pending = put identity_key l.identity r s.pending;
      })

  unfoldable pub scan_as : Option Operation → Lease → Entry → Scan → Reply Scan
  unfolding scan_cancel scan_release scan_block
  scan_as (some cancel) l r s = scan_cancel l s
  scan_as (some release) l r s = scan_release l s
  scan_as (some block) l r s = scan_block l r s
  scan_as none l r s = scan_block l r s

  unfoldable pub scan_command : ℕ → Option Command → Entry → Scan → Reply Scan
  unfolding breaks_order scan_as stamped
  scan_command n none r s = fails invalid_record
  scan_command n (some c) r s =
      if breaks_order n c r s
      then fails invalid_record
      else scan_as (operation_of c.operation) c.lease r (stamped r s)

  unfoldable pub scan_record : ℕ → Entry → Scan → Reply Scan
  unfolding scan_command
  scan_record n r s = scan_command n (verify_envelope x node key r.envelope) r s

  -- The loop, from the record number `n`.
  unfoldable pub scan : ℕ → List Entry → Scan → Reply Scan
  unfolding scan_record
  scan n [] s = gives s
  scan n (r ∷ rest) s = and_then (scan_record n r s) (scan (suc n) rest)
