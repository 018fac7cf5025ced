-- ===== src/Guard/Controller/Open.antt =====
-- `OpenController` (controller.go): the overlay of the guard is made from the leases that are still
-- pending behind the journal.
use v2b_x.Base.{
  ℕ, suc, ◌+◌, false, ◌||◌, not, Option, none, some, [], ◌∷◌, Bytes, bytes_eq, ◌==◌, ltb,
  if◌then◌else◌, length, Assoc, put,
}
use v2b_x.Base.Int.{ℤ, pos, pos_part, ltb_ℤ, leb_ℤ, eqb_ℤ, sub64}
use v2b_x.Transfer.Types.{Identity, identity_key, bytes_key}
use v2b_x.Guard.Types.{Moment, Lease, ActiveLease, Guard}
use v2b_x.Guard.Controller.Types.{
  BootStamp, Entry, Journal, Marks, and_then, Controller, Reply, gives, fails, Codec, seconds,
  invalid_settings, no_journal, invalid_journal, boot_moved_backwards, guard_in_use,
  boot_unavailable,
}
use v2b_x.Guard.Controller.Records.{Scan, fresh_scan, bad_stamp, lease_of, scan}

-- The overlay: the leases that the guard takes up, and the ids that a release must close.
abbrev pub Overlay : Type 0
Overlay = Assoc Identity ActiveLease × Marks

-- The nanoseconds that are left of a lease under a stamp.
unfoldable pub remaining : Lease → Entry → BootStamp → ℤ
remaining l r stamp =
    sub64 (seconds (sub64 l.expires_at r.accepted_at)) (sub64 stamp.nanos r.boot.nanos)

-- The turn of the loop for a pending record, of which `t` is the reading it may make.
unfoldable pub restore_one : BootStamp → Moment → Identity → Entry → Lease → Overlay → Reply Overlay
unfolding remaining
restore_one stamp t i r l o =
    let d = remaining l r stamp in
    if l.manual
    then gives (put identity_key i (record { lease = l; deadline = 0 }) o.0, o.1)
    else if not (bytes_eq r.boot.id stamp.id)
    then gives (o.0, put bytes_key l.id tt o.1)
    else if ltb_ℤ stamp.nanos r.boot.nanos
    then fails boot_moved_backwards
    else if leb_ℤ d (pos 0)
    then gives o
    else gives
        (put identity_key i (record { lease = l; deadline = t.instant + pos_part d }) o.0, o.1)

module _ (x : Codec) (node key : Bytes) where
  unfoldable pub restore :
      BootStamp → (ℕ → Moment) → ℕ → Assoc Identity Entry → Overlay → Reply Overlay
  unfolding restore_one lease_of
  restore stamp t k [] o = gives o
  restore stamp t k ((i, r) ∷ rest) o =
      and_then (restore_one stamp (t k) i r (lease_of x node key r) o)
        (restore stamp t (suc k) rest)

  unfoldable pub take_over : Journal → Guard → Scan → Overlay → Reply Controller
  take_over j g s o =
      if not (length g.bindings + length g.leases + length g.seen + length g.sessions == 0)
      then fails guard_in_use
      else gives (record {
        guard = record g { seen = s.seen; leases = o.0 };
        node = node;
        key = key;
        journal = j;
        poisoned = false;
        last_wall = s.last_wall;
        released = s.released;
        reconcile = o.1;
        cancelled = s.cancelled;
      })

  unfoldable pub open_scan : Journal → BootStamp → (ℕ → Moment) → Guard → Scan → Reply Controller
  unfolding restore take_over
  open_scan j stamp t g s = and_then (restore stamp t 0 s.pending ([], [])) (take_over j g s)

  unfoldable pub open_stamp : Journal → Option BootStamp → (ℕ → Moment) → Guard → Reply Controller
  unfolding open_scan scan
  open_stamp j none t g = fails boot_unavailable
  open_stamp j (some stamp) t g =
      if bad_stamp stamp
      then fails boot_unavailable
      else and_then (scan x node key 1 j.records fresh_scan) (open_scan j stamp t g)

  unfoldable pub open_journal :
      Option Journal → Option BootStamp → (ℕ → Moment) → Guard → Reply Controller
  unfolding open_stamp
  open_journal none boot t g = fails no_journal
  open_journal (some j) boot t g =
      if not (eqb_ℤ j.version (pos 1)) || not (bytes_eq j.node node) || ltb 10000 (length j.records)
      then fails invalid_journal
      else open_stamp j boot t g

  -- The first argument is what the store loads, the second a reading of the boot clock.
  unfoldable pub open_controller :
      Option Journal → Option BootStamp → (ℕ → Moment) → Guard → Reply Controller
  unfolding open_journal
  open_controller stored boot t g =
      if length node == 0 || ltb 64 (length node) || not (length key == 32)
      then fails invalid_settings
      else open_journal stored boot t g
