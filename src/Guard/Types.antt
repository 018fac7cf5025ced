-- ===== src/Guard/Types.antt =====
-- The data of common/beupguard/guard.go. `Identity` is that of beuptransfer: an `int` has 64 bits.
use v2b_x.Base.{
  ℕ, ◌+◌, ◌*◌, ◌-◌, ◌%◌, ◌≡◌, ◌↔◌, Bool, ◌&&◌, not, Option, List, [], Bytes, bytes_eq, bytes_eq_iff,
  ◌==◌, if◌then◌else◌, ==_iff, leb, arith, Key, Assoc,
}
use v2b_x.Base.Int.{ℤ, pos, negsuc, eqb_ℤ, eqb_ℤ_iff, word64}
use v2b_x.Transfer.Types.{Identity, identity_eq, identity_eq_iff}

pub data GuardError : Type 0 where
  -- ErrIsolated, ErrIdentity and ErrCapacity
  isolated unknown_identity no_capacity : GuardError
  -- the texts of `errors.New`
  invalid_scope invalid_lease invalid_digest invalid_start unending_lease stale_lease : GuardError
  replay_conflict already_ended already_isolated invalid_proof_request : GuardError

-- A result and an error, of which one is there.
pub data Outcome (A : Type 0) : Type 0 where
  done : A → Outcome A
  refused : GuardError → Outcome A

pub record Binding : Type 0 where
  pub tag : Bytes
  pub label : Bytes

abbrev pub binding_eq : Binding → Binding → Bool
binding_eq a b = bytes_eq a.tag b.tag && bytes_eq a.label b.label

pub binding_eq_iff : (a b : Binding) → (binding_eq a b ≡ Bool.true) ↔ (a ≡ b)
binding_eq_iff a b = ground (arith, bytes_eq_iff a.tag b.tag, bytes_eq_iff a.label b.label)

abbrev pub binding_key : Key Binding
binding_key = record { eqb = binding_eq; eqb_iff = binding_eq_iff }

pub record Lease : Type 0 where
  pub id : Bytes
  pub identity : Identity
  pub started_at : ℤ
  pub expires_at : ℤ
  pub manual : Bool

abbrev pub bool_eq : Bool → Bool → Bool
bool_eq Bool.true b = b
bool_eq Bool.false b = not b

abbrev pub lease_eq : Lease → Lease → Bool
lease_eq a b =
    bytes_eq a.id b.id
    && identity_eq a.identity b.identity
    && eqb_ℤ a.started_at b.started_at
    && eqb_ℤ a.expires_at b.expires_at
    && bool_eq a.manual b.manual

pub lease_eq_refl : (a : Lease) → lease_eq a a ≡ Bool.true
lease_eq_refl a = ground (arith, bytes_eq_iff a.id a.id, identity_eq_iff a.identity a.identity)

bool_eq_sound : (a b : Bool) → bool_eq a b ≡ Bool.true → a ≡ b
bool_eq_sound a b h = ground arith

pub lease_eq_sound : (a b : Lease) → lease_eq a b ≡ Bool.true → a ≡ b
lease_eq_sound a b h = ground (
  arith,
  bytes_eq_iff a.id b.id,
  identity_eq_iff a.identity b.identity,
  eqb_ℤ_iff a.started_at b.started_at,
  eqb_ℤ_iff a.expires_at b.expires_at,
  bool_eq_sound a.manual b.manual,
)

-- A reading of the clock: the instant in nanoseconds, and the seconds of `Unix`.
pub record Moment : Type 0 where
  pub instant : ℕ
  pub unix : ℤ

-- `t.Add(d * time.Second)`, as an instant.
abbrev pub add_seconds : ℕ → ℤ → ℕ
add_seconds t (pos n) = t + n * 1000000000
add_seconds t (negsuc n) = t - (n + 1) * 1000000000

pub record ActiveLease : Type 0 where
  pub lease : Lease
  pub deadline : ℕ

-- The callback of a session is named by a number; `none` is a nil callback.
pub record SessionEntry : Type 0 where
  pub identity : Identity
  pub close : Option ℕ

-- `requiredTags` is a set. The two mutexes are left out: each method is one step.
pub record Guard : Type 0 where
  pub authorizations : Assoc Binding Bytes
  pub authorization_use : Assoc Identity ℤ
  pub bindings : Assoc Binding Identity
  pub leases : Assoc Identity ActiveLease
  pub seen : Assoc Bytes Lease
  pub sessions : Assoc ℕ SessionEntry
  pub next : ℕ
  pub max_sessions : ℕ
  pub capacity_failures : ℕ
  pub coverage_failures : ℕ
  pub required_tags : List Bytes

abbrev pub session_key : Key ℕ
session_key = record { eqb = λ a b. a == b; eqb_iff = ==_iff }

-- `g.expired(l, now)`
unfoldable pub expired : ActiveLease → ℕ → Bool
expired l now = not l.lease.manual && leb l.deadline now

-- `g.coverageFailures.Add(1)` and `g.capacityFailures.Add(1)`, on uint64
unfoldable pub note_coverage_failure : Guard → Guard
note_coverage_failure g = record g { coverage_failures = (g.coverage_failures + 1) % word64 }

unfoldable pub note_capacity_failure : Guard → Guard
note_capacity_failure g = record g { capacity_failures = (g.capacity_failures + 1) % word64 }

-- A limit that is not positive gives way to 65536.
abbrev pub session_limit : ℤ → ℕ
session_limit (pos n) = if n == 0 then 65536 else n
session_limit (negsuc _) = 65536

-- `New`
abbrev pub new_guard : ℤ → Guard
new_guard limit = record {
  authorizations = [];
  authorization_use = [];
  bindings = [];
  leases = [];
  seen = [];
  sessions = [];
  next = 0;
  max_sessions = session_limit limit;
  capacity_failures = 0;
  coverage_failures = 0;
  required_tags = [];
}
