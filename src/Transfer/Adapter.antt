-- ===== src/Transfer/Adapter.antt =====
-- `GuardAdapter` (adapter_guard.go): the fences of a drain on a guard of its own. `snapshot` is a
-- parameter of the code and not part of the state; on 64 bits `int64(int(id.UID))` is `id.UID`.
pub mod Drains
pub mod Fence
pub mod Quiesce
pub mod Run
use v2b_x.Base.{
  take, ℕ, zero, suc, ◌+◌, ◌≡◌, Bool, true, false, ◌&&◌, ◌||◌, not, Option, none, some, List, [],
  ◌∷◌, ◌++◌, Bytes, bytes_eq, ◌==◌, ltb, leb, if◌then◌else◌, length, any, Assoc, get, put,
}
use v2b_x.Base.Int.{ℤ, pos, leb_ℤ}
use v2b_x.Text.{codes, newline, show_int, valid_hex}
use v2b_x.Transfer.Types.{Identity, identity_eq, identity_key, FenceStatus, bytes_key}
use v2b_x.Transfer.Samples.{max_samples}
use v2b_x.Guard.Types.{
  GuardError, isolated, Outcome, done, refused, Lease, Moment, Guard, new_guard,
  note_coverage_failure,
}
use v2b_x.Guard.Bindings.{credential_digest, bind, require_tags}
use v2b_x.Guard.Sessions.{track, finish, outstanding}
use v2b_x.Guard.Leases.{apply, stats, Stats}

-- `incomplete` and `sealed` are sets.
pub record GuardAdapter : Type 0 where
  pub guard : Guard
  pub tag : Bytes
  pub epoch : Bytes
  pub bindings : Assoc Bytes Identity
  pub incomplete : List Identity
  pub holds : Assoc Identity Lease
  pub quiescing : Bool
  pub sealed : List Identity

pub data AdapterError : Type 0 where
  coverage pending binding_changed cancelled : AdapterError
  of_guard : GuardError → AdapterError

pub data Answer (A : Type 0) : Type 0 where
  ok : A → Answer A
  err : AdapterError → Answer A

abbrev pub has_identity : Identity → List Identity → Bool
has_identity id ids = any (λ i. identity_eq i id) ids

abbrev pub is_there : Option Lease → Bool
is_there none = false
is_there (some _) = true

abbrev pub is_held : Identity → Assoc Identity Lease → Bool
is_held id holds = is_there (get identity_key id holds)

-- `a.bindings[label]`, where a missing label reads as the zero identity.
abbrev pub or_nobody : Option Identity → Identity
or_nobody none = record { uid = pos 0; credential = [] }
or_nobody (some id) = id

unfoldable pub noted : GuardAdapter → GuardAdapter
unfolding note_coverage_failure
noted a = record a { guard = note_coverage_failure a.guard }

-- `NewGuardAdapter`; `RequireTags` does not fail on one tag that was checked.
unfoldable pub new_adapter : Bytes → Bytes → Bool → Answer GuardAdapter
new_adapter tag epoch has_snapshot =
    let required = require_tags (tag ∷ []) (new_guard (pos 65536)) in
    if length tag == 0 || ltb 512 (length tag) || not (valid_hex epoch 16) || not has_snapshot
    then err coverage
    else elim required.0 [
      | refused e ↦ err (of_guard e)
      | done _ ↦ ok (record {
        guard = required.1;
        tag = tag;
        epoch = epoch;
        bindings = [];
        incomplete = [];
        holds = [];
        quiescing = false;
        sealed = [];
      })
    ]

-- The binding of a label is new, or is the one that it has.
unfoldable pub bound_to : GuardAdapter → Option Identity → Identity → Option AdapterError
bound_to a (some old) id = if not (identity_eq old id) then some binding_changed else none
bound_to a none id = if leb max_samples (length a.bindings) then some coverage else none

-- The first half of `Track`: a hold of the label's identity, or the quiescence.
unfoldable pub is_closing : Bytes → GuardAdapter → Bool
is_closing label a = a.quiescing || is_held (or_nobody (get bytes_key label a.bindings)) a.holds

-- The second half, for which the adapter's mutex is not held.
unfoldable pub enter_flow :
    (ℕ → Moment) → Bytes → Option ℕ → GuardAdapter → Outcome ℕ × GuardAdapter
enter_flow t label close a =
    let tracked = track t a.tag label close a.guard in (tracked.0, record a { guard = tracked.1 })

unfoldable pub track_label :
    (ℕ → Moment) → Bytes → Option ℕ → GuardAdapter → Outcome ℕ × GuardAdapter
unfolding is_closing enter_flow
track_label t label close a =
    if is_closing label a then (refused isolated, a) else enter_flow t label close a

-- The completion of a flow.
unfoldable pub finish_flow : ℕ → GuardAdapter → GuardAdapter
unfolding finish
finish_flow n a = record a { guard = finish n a.guard }

unfoldable pub note_of : Option Identity → GuardAdapter → GuardAdapter
unfolding noted
note_of none a = noted a
note_of (some id) a = record a { incomplete = id ∷ a.incomplete }

unfoldable pub note_identity : Bytes → GuardAdapter → GuardAdapter
unfolding note_of
note_identity label a = note_of (get bytes_key label a.bindings) a

abbrev pub is_bound_here : Identity → GuardAdapter → Bool
is_bound_here id a = any (λ b. identity_eq b.1 id) a.bindings

unfoldable pub holding :
    Identity → Lease → Outcome (List (Option ℕ)) → GuardAdapter → Answer (Unit {0}) × GuardAdapter
holding id lease (refused e) a = (err (of_guard e), a)
holding id lease (done _) a = (ok tt, record a { holds = put identity_key id lease a.holds })

unfoldable pub count_bound : Identity → Assoc Bytes Identity → ℕ
count_bound id [] = 0
count_bound id ((_, b) ∷ rest) = (if identity_eq b id then 1 else 0) + count_bound id rest

unfoldable pub inspect : (ℕ → Moment) → Identity → GuardAdapter → FenceStatus × GuardAdapter
unfolding count_bound
inspect t id a =
    let read = stats t a.guard in
    let bound = count_bound id a.bindings in
    (
      record {
        epoch = a.epoch;
        identity = id;
        reject_new = is_held id a.holds;
        outstanding = pos (outstanding id read.1);
        tracking_ready =
            not (has_identity id a.incomplete)
            && read.0.capacity_failures == 0
            && read.0.coverage_failures == 0;
        bindings = pos (if bound == 0 && has_identity id a.sealed then 1 else bound);
      },
      record a { guard = read.1 },
    )

module _ (sha256_hex : Bytes → Bytes) where
  unfoldable pub bind_checked :
      Bytes
      → ℤ
      → Bytes
      → Identity
      → Option AdapterError
      → GuardAdapter
      → Answer (Unit {0}) × GuardAdapter
  unfolding noted
  bind_checked label uid credential id (some e) a = (err e, noted a)
  bind_checked label uid credential id none a = (
    ok tt,
    record a {
      guard = bind sha256_hex a.tag label uid credential a.guard;
      bindings = put bytes_key label id a.bindings;
    },
  )

  unfoldable pub bind_label : Bytes → ℤ → Bytes → GuardAdapter → Answer (Unit {0}) × GuardAdapter
  unfolding bind_checked bound_to
  bind_label label uid credential a =
      let digest = credential_digest sha256_hex credential in
      let id : Identity = record { uid = uid; credential = digest } in
      if length label == 0 || ltb 1024 (length label) || leb_ℤ uid (pos 0) || length digest == 0
      then (err coverage, noted a)
      else if a.quiescing
      then (err pending, a)
      else bind_checked label uid credential id (bound_to a (get bytes_key label a.bindings) id) a

  -- The lease of a fence, with a digest for its id: 16 bytes are 32 hexadecimal digits.
  unfoldable pub hold_lease : ℤ → Identity → GuardAdapter → Lease
  hold_lease now id a = record {
    id = take 32 (
        sha256_hex (
          codes "BEUP-TRANSFER-HOLD-V1"
          ++ newline ∷ a.tag
          ++ newline ∷ a.epoch
          ++ newline ∷ show_int id.uid
          ++ newline ∷ id.credential));
    identity = id;
    started_at = now;
    expires_at = pos 0;
    manual = true;
  }

  -- `now` is the second that the lease starts in, and `t` the readings of `Apply`.
  unfoldable pub fence_new :
      ℤ → (ℕ → Moment) → Identity → GuardAdapter → Answer (Unit {0}) × GuardAdapter
  unfolding hold_lease holding
  fence_new now t id a =
      let lease = hold_lease now id a in
      let applied = apply t lease a.guard in
      if not (is_bound_here id a) && has_identity id a.sealed
      then (ok tt, record a { holds = put identity_key id lease a.holds })
      else holding id lease applied.0 (record a { guard = applied.1 })

  unfoldable pub fence :
      ℤ → (ℕ → Moment) → Identity → GuardAdapter → Answer (Unit {0}) × GuardAdapter
  unfolding fence_new
  fence now t id a =
      if leb_ℤ id.uid (pos 0) || not (valid_hex id.credential 32)
      then (err coverage, a)
      else if is_held id a.holds
      then (ok tt, a)
      else fence_new now t id a
