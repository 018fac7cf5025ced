-- ===== src/Examples/Guards.antt =====
-- A guard and an adapter with two flows of one user, and the theorems about them at these.
use v2b_x.Base.{
  bytes_eq, ◌↔◌, ◌==◌, length, ℕ, ◌+◌, ◌≤◌, ◌≡◌, refl, true, false, none, some, List, [], ◌∷◌,
  Bytes, put, get, del,
}
use v2b_x.Base.Int.{pos, add64}
use v2b_x.Text.{codes, hex_decode, from_hex_digit, valid_hex, hex_encode, hex_digit}
use v2b_x.Transfer.Types.{Identity, bytes_key}
use v2b_x.Guard.Types.{
  GuardError, isolated, done, refused, Lease, Moment, Guard, new_guard, expired,
}
use v2b_x.Guard.Bindings.{
  bind, credential_digest, identity_of, require_tags, require_wanted, wanted,
}
use v2b_x.Guard.Sessions.{
  finish, track, track_as, track_leased, enter, outstanding, dated, count_sessions,
}
use v2b_x.Guard.Leases.{
  stats, live_leases, lease_error, apply, apply_seen, apply_fresh, installed, activated, closes_of,
  holds_now, release, release_seen,
}
use v2b_x.Guard.Authorization.{
  independent_identity, independent_of, scan_independent, scan_target, target_bound,
  register_authorization, register_as, first_use,
}
use v2b_x.Guard.Authorization.Agreement.{independent_identity_iff}
use v2b_x.Guard.Registry.{ScopedGuard, scoped, track_all}
use v2b_x.Guard.Registry.Holds.{HoldsFlow, NoneMore, hold_wins}
use v2b_x.Guard.Run.Hold.{IsHeld}
use v2b_x.Base.{inl, inr}
use v2b_x.Guard.Run.{Call, step, run}
use v2b_x.Guard.Run.Sound.{IsSound, new_guard-IsSound}
use v2b_x.Guard.Run.Replay.{hold_isolates}
use v2b_x.Guard.Run.Ended.{release_ends}
use v2b_x.Transfer.Adapter.{
  finish_flow, GuardAdapter, Answer, ok, err, is_held, is_bound_here, new_adapter, bind_label,
  bind_checked, bound_to, is_closing, track_label, enter_flow, fence, fence_new, holding,
  hold_lease, inspect,
}
use v2b_x.Transfer.Adapter.Run.{Act, act, acts}
use v2b_x.Transfer.Adapter.Drains.{fence_drains}
use v2b_x.Examples.Outbox.{alice}

abbrev digest : Bytes → Bytes
digest s = alice

-- A clock that ticks with each reading, from second 100.
abbrev clock : ℕ → Moment
clock k = record { instant = 100000000000 + k; unix = pos 100 }

abbrev user : Identity
user = record { uid = pos 1; credential = alice }

abbrev tag : Bytes
tag = codes "beup"

abbrev flow_calls : List Call
flow_calls =
    Call.binds tag (codes "u1") (pos 1) (codes "secret")
    ∷ Call.tracks clock tag (codes "u1") (some 7)
    ∷ Call.tracks clock tag (codes "u1") none
    ∷ []

abbrev guarded : Guard
guarded = run digest flow_calls (new_guard (pos 4))

abbrev lease : Lease
lease = record {
  id = codes "0123456789abcdef0123456789abcdef";
  identity = user;
  started_at = pos 100;
  expires_at = pos 0;
  manual = true;
}

abbrev later_calls : List Call
later_calls =
    Call.binds tag (codes "u2") (pos 2) (codes "other")
    ∷ Call.tracks clock tag (codes "u1") none
    ∷ Call.finishes 1
    ∷ Call.reads_stats clock
    ∷ []

guard_runs : Unit {0}
unfolding run step bind credential_digest track track_as track_leased enter dated apply apply_seen
    apply_fresh installed activated closes_of holds_now lease_error identity_of outstanding
    count_sessions release release_seen expired get put bytes_eq hex_decode from_hex_digit add64
    stats finish live_leases del
guard_runs = tt

guarded-IsSound : IsSound guarded
guarded-IsSound = new_guard-IsSound digest (pos 4) flow_calls

new_guard-IsSound_example : IsSound (run digest flow_calls (new_guard (pos 4)))
new_guard-IsSound_example = new_guard-IsSound digest (pos 4) flow_calls

abbrev held : Guard
held = (apply clock lease guarded).1

closed : (apply clock lease guarded).0 ≡ done (some 7 ∷ none ∷ [])
unfolding guard_runs
closed = refl

still_bound : identity_of tag (codes "u1") (run digest later_calls held) ≡ some user
unfolding guard_runs
still_bound = refl

hold_isolates_example :
    let h = run digest later_calls held in
    (track clock tag (codes "u1") none h ≡ (refused isolated, h))
    × (outstanding user h ≤ outstanding user guarded)
    × (apply clock lease h ≡ (done [], h))
hold_isolates_example =
    hold_isolates digest clock lease guarded (some 7 ∷ none ∷ []) later_calls clock tag (codes "u1")
      none refl guarded-IsSound closed (tt, (tt, (tt, (tt, tt)))) still_bound

held-IsSound : IsSound held
unfolding guard_runs
held-IsSound = new_guard-IsSound digest (pos 4) (
    Call.binds tag (codes "u1") (pos 1) (codes "secret")
    ∷ Call.tracks clock tag (codes "u1") (some 7)
    ∷ Call.tracks clock tag (codes "u1") none
    ∷ Call.applies clock lease
    ∷ [])

can_release : (release lease.id user held).0 ≡ done tt
unfolding guard_runs
can_release = refl

release_ends_example :
    let h = run digest later_calls (release lease.id user held).1 in
    (e : GuardError) × (apply clock lease h ≡ (refused e, h))
release_ends_example =
    release_ends digest lease.id user held later_calls clock lease held-IsSound can_release refl

abbrev answered : Answer GuardAdapter → GuardAdapter
answered (ok a) = a
answered (err _) = record {
  guard = new_guard (pos 1);
  tag = [];
  epoch = [];
  bindings = [];
  incomplete = [];
  holds = [];
  quiescing = false;
  sealed = [];
}

abbrev adapter : GuardAdapter
adapter =
    acts digest
      (Act.binds (codes "u1") (pos 1) (codes "secret")
        ∷ Act.tracks clock (codes "u1") (some 7)
        ∷ [])
      (answered (new_adapter tag (codes "0123456789abcdef0123456789abcdef") true))

adapter_runs : Unit {0}
unfolding guard_runs finish_flow new_adapter require_tags require_wanted wanted acts act bind_label
    bind_checked bound_to track_label is_closing enter_flow fence fence_new holding hold_lease
    inspect valid_hex hex_encode hex_digit
adapter_runs = tt

adapter-IsSound : IsSound adapter.guard
unfolding adapter_runs
adapter-IsSound = new_guard-IsSound digest (pos 65536) (
    Call.requires (tag ∷ [])
    ∷ Call.binds tag (codes "u1") (pos 1) (codes "secret")
    ∷ Call.tracks clock tag (codes "u1") (some 7)
    ∷ [])

is_here : is_bound_here user adapter ≡ true
unfolding adapter_runs
is_here = refl

is_new : is_held user adapter.holds ≡ false
unfolding adapter_runs
is_new = refl

fences : (fence digest (pos 100) clock user adapter).0 ≡ ok tt
unfolding adapter_runs
fences = refl

abbrev later_acts : List Act
later_acts =
    Act.binds (codes "u2") (pos 1) (codes "secret")
    ∷ Act.tracks clock (codes "u2") none
    ∷ Act.finishes 1
    ∷ []

abbrev later : GuardAdapter
later = acts digest later_acts (fence digest (pos 100) clock user adapter).1

label_stays : get bytes_key (codes "u2") later.bindings ≡ some user
unfolding adapter_runs
label_stays = refl

identity_stays : identity_of later.tag (codes "u2") later.guard ≡ some user
unfolding adapter_runs
identity_stays = refl

fence_drains_example :
    (track_label clock (codes "u2") none later ≡ (refused isolated, later))
    × (enter_flow clock (codes "u2") none later ≡ (refused isolated, later))
    × ((inspect clock user later).0.reject_new ≡ true)
    × (outstanding user (inspect clock user later).1.guard ≤ outstanding user adapter.guard)
fence_drains_example =
    fence_drains digest (pos 100) clock user adapter later_acts clock (codes "u2") none
      adapter-IsSound is_here is_new fences label_stays identity_stays

-- The guard with a grant of authorization for the user's one inbound.
abbrev granted : Guard
granted =
    run digest
      (Call.requires (tag ∷ [])
        ∷ Call.binds tag (codes "u1") (pos 1) (codes "secret")
        ∷ Call.registers tag (codes "u1") (codes "00000000000000000000000000000001")
        ∷ [])
      (new_guard (pos 4))

is_independent : independent_identity granted user ≡ true
unfolding guard_runs require_tags require_wanted wanted independent_identity independent_of
    scan_independent register_authorization register_as first_use
is_independent = refl

independent_identity_iff_example : (independent_identity granted user ≡ true) ↔ (
    (grant : Bytes) × ((length grant == 0) ≡ false)
    × (target_bound granted (record { grant = grant; identity = user }) ≡ true))
independent_identity_iff_example = independent_identity_iff granted user

-- Its grant.
bound_grant :
    target_bound granted
      (record { grant = codes "00000000000000000000000000000001"; identity = user })
    ≡ true
unfolding guard_runs require_tags require_wanted wanted target_bound scan_target
    register_authorization register_as first_use
bound_grant = refl

-- The guard that holds, behind one for all tags that does not know the user.
abbrev two_guards : List ScopedGuard
two_guards = scoped (new_guard (pos 4)) none ∷ scoped held (some (tag ∷ [])) ∷ []

held_lease : IsHeld lease held
unfolding guard_runs
held_lease = record { active = record { lease = lease; deadline = 0 }; at = refl; is = refl }

held-HoldsFlow : HoldsFlow tag (codes "u1") (scoped held (some (tag ∷ [])))
unfolding guard_runs
held-HoldsFlow = record {
  lease = lease;
  manual = refl;
  held = held_lease;
  bound = refl;
  scope = refl;
}

hold_wins_example :
    ((track_all clock tag (codes "u1") none two_guards).0 ≡ refused isolated)
    × NoneMore two_guards (track_all clock tag (codes "u1") none two_guards).1
hold_wins_example = hold_wins clock tag (codes "u1") none two_guards (inr (inl held-HoldsFlow))
