-- ===== src/Guard/Leases.antt =====
-- `validateLease`, `Apply`, `Release` and `Stats` (guard.go).
use v2b_x.Base.{
  ℕ, suc, Bool, false, ◌&&◌, ◌||◌, not, Option, none, some, List, [], ◌∷◌, Bytes, bytes_eq, ◌==◌,
  leb, if◌then◌else◌, length, any, Assoc, get, put, del,
}
use v2b_x.Base.Int.{ℤ, pos, ltb_ℤ, leb_ℤ, eqb_ℤ, add64, sub64}
use v2b_x.Text.{hex_decode}
use v2b_x.Transfer.Types.{Identity, identity_eq, identity_key, bytes_key}
use v2b_x.Guard.Types.{
  GuardError, unknown_identity, no_capacity, invalid_lease, invalid_digest, invalid_start,
  unending_lease, stale_lease, replay_conflict, already_ended, already_isolated, Outcome, done,
  refused, Binding, Lease, lease_eq, Moment, add_seconds, ActiveLease, SessionEntry, Guard, expired,
}

-- `hex.DecodeString` gives so many bytes.
abbrev pub has_bytes : ℕ → Option Bytes → Bool
has_bytes n none = false
has_bytes n (some b) = length b == n

-- `none` is a valid lease.
unfoldable pub lease_error : Lease → ℤ → Option GuardError
lease_error l now =
    if not (has_bytes 16 (hex_decode l.id)) || leb_ℤ l.identity.uid (pos 0)
    then some invalid_lease
    else if not (has_bytes 32 (hex_decode l.identity.credential))
    then some invalid_digest
    else if leb_ℤ l.started_at (pos 0) || ltb_ℤ (add64 now (pos 5)) l.started_at
    then some invalid_start
    else if l.manual
    then if not (eqb_ℤ l.expires_at (pos 0)) then some unending_lease else none
    else if leb_ℤ l.expires_at now || not (eqb_ℤ (sub64 l.expires_at l.started_at) (pos 600))
    then some stale_lease
    else none

-- The replay of a lease id: 0 for the lease that is active, an error else.
unfoldable pub is_active : Option ActiveLease → Bytes → ℕ → Bool
is_active none id now = false
is_active (some active) id now = bytes_eq active.lease.id id && not (expired active now)

unfoldable pub replayed : (ℕ → Moment) → Lease → Lease → Guard → Outcome (List (Option ℕ))
unfolding is_active
replayed t old l g =
    if not (lease_eq old l)
    then refused replay_conflict
    else if is_active (get identity_key l.identity g.leases) l.id (t 0).instant
    then done []
    else refused already_ended

-- A lease that has not expired.
unfoldable pub holds_now : Option ActiveLease → ℕ → Bool
holds_now none now = false
holds_now (some old) now = not (expired old now)

-- The callbacks of the identity's sessions.
unfoldable pub closes_of : Identity → Assoc ℕ SessionEntry → List (Option ℕ)
closes_of id [] = []
closes_of id ((n, s) ∷ rest) =
    let more = closes_of id rest in if identity_eq s.identity id then s.close ∷ more else more

-- A temporary lease ends with the seconds that are left of it, by the third and fourth readings.
unfoldable pub activated : (ℕ → Moment) → Lease → ActiveLease
activated t l = record {
  lease = l;
  deadline = if l.manual then 0 else add_seconds (t 2).instant (sub64 l.expires_at (t 3).unix);
}

unfoldable pub installed : (ℕ → Moment) → Lease → Guard → Outcome (List (Option ℕ)) × Guard
unfolding closes_of activated
installed t l g = (
  done (closes_of l.identity g.sessions),
  record g {
    leases = put identity_key l.identity (activated t l) g.leases;
    seen = put bytes_key l.id l g.seen;
  },
)

abbrev pub is_bound : Identity → Assoc Binding Identity → Bool
is_bound id bindings = any (λ b. identity_eq b.1 id) bindings

unfoldable pub apply_fresh :
    (ℕ → Moment) → Lease → Option GuardError → Guard → Outcome (List (Option ℕ)) × Guard
unfolding installed holds_now
apply_fresh t l (some e) g = (refused e, g)
apply_fresh t l none g =
    if not (is_bound l.identity g.bindings)
    then (refused unknown_identity, g)
    else if holds_now (get identity_key l.identity g.leases) (t 1).instant
    then (refused already_isolated, g)
    else if leb 10000 (length g.seen)
    then (refused no_capacity, g)
    else installed t l g

unfoldable pub apply_seen :
    (ℕ → Moment) → Lease → Option Lease → Guard → Outcome (List (Option ℕ)) × Guard
unfolding replayed apply_fresh
apply_seen t l (some old) g = (replayed t old l g, g)
apply_seen t l none g = apply_fresh t l (lease_error l (t 0).unix) g

-- The result is the list of the callbacks that are called behind it; the code returns its length.
unfoldable pub apply : (ℕ → Moment) → Lease → Guard → Outcome (List (Option ℕ)) × Guard
unfolding apply_seen
apply t l g = apply_seen t l (get bytes_key l.id g.seen) g

unfoldable pub released : Bytes → Identity → Option ActiveLease → Guard → Guard
released id identity none g = g
released id identity (some l) g =
    if bytes_eq l.lease.id id then record g { leases = del identity_key identity g.leases } else g

unfoldable pub release_seen : Bytes → Identity → Option Lease → Guard → Outcome (Unit {0}) × Guard
unfolding released
release_seen id identity none g = (refused unknown_identity, g)
release_seen id identity (some l) g =
    if not (identity_eq l.identity identity)
    then (refused unknown_identity, g)
    else (done tt, released id identity (get identity_key identity g.leases) g)

unfoldable pub release : Bytes → Identity → Guard → Outcome (Unit {0}) × Guard
unfolding release_seen
release id identity g = release_seen id identity (get bytes_key id g.seen) g

-- The loop of `Stats`, with a reading for each lease.
unfoldable pub live_leases :
    (ℕ → Moment) → ℕ → Assoc Identity ActiveLease → Assoc Identity ActiveLease
live_leases t k [] = []
live_leases t k ((i, l) ∷ rest) =
    let more = live_leases t (suc k) rest in if expired l (t k).instant then more else (i, l) ∷ more

pub record Stats : Type 0 where
  pub bindings : ℕ
  pub leases : ℕ
  pub sessions : ℕ
  pub capacity_failures : ℕ
  pub coverage_failures : ℕ

unfoldable pub stats : (ℕ → Moment) → Guard → Stats × Guard
unfolding live_leases
stats t g =
    let left = live_leases t 0 g.leases in
    (
      record {
        bindings = length g.bindings;
        leases = length left;
        sessions = length g.sessions;
        capacity_failures = g.capacity_failures;
        coverage_failures = g.coverage_failures;
      },
      record g { leases = left },
    )
