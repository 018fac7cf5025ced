-- ===== src/Guard/Controller/Follow.antt =====
-- The controller and its journal: what the loop of `OpenController` finds in the journal that is
-- held in memory, against the state that `Execute` keeps beside it.
use v2b_x.Base.{
  ℕ, ◌≡◌, true, false, Option, none, some, [], Bytes, Assoc, get, length, ◌==◌, ◌||◌, not, ltb,
}
use v2b_x.Base.Int.{ℤ, pos}
use v2b_x.Transfer.Types.{Identity, identity_key, bytes_key}
use v2b_x.Guard.Types.{Lease, ActiveLease}
use v2b_x.Guard.Controller.Types.{BootStamp, Entry, Marks, marked, Controller, gives, Codec}
use v2b_x.Guard.Controller.Records.{Scan, fresh_scan, scan, lease_of}
use v2b_x.Guard.Controller.Execute.{last}

-- The guard holds the lease.
pub record Held (leases : Assoc Identity ActiveLease) (i : Identity) (l : Lease) : Type 0 where
  pub active : ActiveLease
  pub found : get identity_key i leases ≡ some active
  pub same : active.lease ≡ l

-- How the guard stands to a record that is pending in the journal.
pub data Stands (boot_id : Bytes) (at : ℕ) (leases : Assoc Identity ActiveLease) (reconcile : Marks)
    (i : Identity) (r : Entry) (l : Lease) : Type 0 where
  waits : marked l.id reconcile ≡ true → Stands boot_id at leases reconcile i r l
  lasts : l.manual ≡ true → Held leases i l → Stands boot_id at leases reconcile i r l
  runs : l.manual ≡ false → r.boot.id ≡ boot_id → Stands boot_id at leases reconcile i r l

-- The lease of a pending record is known, and pending for its own identity.
pub record Pends (x : Codec) (boot_id : Bytes) (at : ℕ) (c : Controller) (i : Identity) (r : Entry)
    : Type 0 where
  pub known :
      get bytes_key (lease_of x c.node c.key r).id c.guard.seen ≡ some (lease_of x c.node c.key r)
  pub own : (lease_of x c.node c.key r).identity ≡ i
  pub stands : Stands boot_id at c.guard.leases c.reconcile i r (lease_of x c.node c.key r)

abbrev pub view : Controller → Assoc Identity Entry → BootStamp → Scan
view c pending previous = record {
  seen = c.guard.seen;
  released = c.released;
  cancelled = c.cancelled;
  pending = pending;
  last_wall = c.last_wall;
  previous = previous;
}

-- The stamp of the last record; without records, the zero of the loop's variables.
abbrev pub Latest : Option Entry → ℤ → BootStamp → Type 0
Latest none wall previous = (previous.id ≡ []) × (wall ≡ pos 0)
Latest (some r) wall previous = previous ≡ r.boot

-- The settings of a node.
abbrev pub IsValidSetting : Bytes → Bytes → Type 0
IsValidSetting node key =
    (length node == 0 || ltb 64 (length node) || not (length key == 32)) ≡ false

-- The journal verifies to what the controller keeps, up to the instant `at`.
pub record Follows (x : Codec) (boot_id : Bytes) (at : ℕ) (c : Controller) : Type 0 where
  pub pending : Assoc Identity Entry
  pub previous : BootStamp
  pub scanned : scan x c.node c.key 1 c.journal.records fresh_scan ≡ gives (view c pending previous)
  pub latest : Latest (last c.journal.records) c.last_wall previous
  pub pends :
      (i : Identity) (r : Entry) → get identity_key i pending ≡ some r → Pends x boot_id at c i r
  pub version_eq : c.journal.version ≡ pos 1
  pub node_eq : c.journal.node ≡ c.node
  pub is_set : IsValidSetting c.node c.key
