-- ===== src/Transfer/Adapter/Drains.antt =====
-- What a fence of a bound identity gives a drain.
use v2b_x.Base.{
  ℕ, ◌≤◌, ◌≡◌, inl, inr, refl, ap, true, false, ◌||◌, not, Option, some, List, Bytes, get, put_here,
  arith, Bool-cases,
}
use v2b_x.Base.Int.{ℤ, pos, leb_ℤ}
use v2b_x.Text.{valid_hex}
use v2b_x.Transfer.Types.{Identity, identity_key, bytes_key}
use v2b_x.Guard.Types.{isolated, Outcome, done, refused, Lease, Moment}
use v2b_x.Guard.Bindings.{identity_of}
use v2b_x.Guard.Sessions.{outstanding, count_sessions}
use v2b_x.Guard.Leases.{apply}
use v2b_x.Guard.Run.Sound.{IsSound}
use v2b_x.Guard.Run.Hold.{IsHeld}
use v2b_x.Guard.Run.Isolation.{track_held}
use v2b_x.Guard.Run.Replay.{applied_held, apply_sessions}
use v2b_x.Transfer.Adapter.{
  GuardAdapter, AdapterError, Answer, ok, err, is_held, is_there, is_closing, track_label,
  enter_flow, hold_lease, holding, fence_new, is_bound_here, fence, inspect,
}
use v2b_x.Transfer.Adapter.Run.{Act, acts}
use v2b_x.Transfer.Adapter.Fence.{IsFenced, StaysFenced, acts-StaysFenced, inspected-StaysFenced}

holding-IsFenced :
    (l : Lease) (o : Outcome (List (Option ℕ))) (a : GuardAdapter)
    → ((x : List (Option ℕ)) → o ≡ done x → IsHeld l a.guard)
    → (holding l.identity l o a).0 ≡ ok tt
    → IsFenced l (holding l.identity l o a).1 × ((holding l.identity l o a).1.guard ≡ a.guard)
unfolding holding
holding-IsFenced l (refused e) a h k = absurd (cc)
holding-IsFenced l (done x) a h k = (
  record { held = h x refl; hold = ap is_there (put_here identity_key l.identity l a.holds) },
  refl,
)

module _ (sha256_hex : Bytes → Bytes) where
  fence_new-IsFenced :
      (now : ℤ) (t : ℕ → Moment) (id : Identity) (a : GuardAdapter)
      → IsSound a.guard
      → is_bound_here id a ≡ true
      → (fence_new sha256_hex now t id a).0 ≡ ok tt
      → StaysFenced (hold_lease sha256_hex now id a) a (fence_new sha256_hex now t id a).1
  unfolding fence_new apply outstanding hold_lease
  fence_new-IsFenced now t id a v here h =
      let l = hold_lease sha256_hex now id a in
      let applied = apply t l a.guard in
      let b = record a { guard = applied.1 } in
      let h' : (holding id l applied.0 b).0 ≡ ok tt = rw here at h in
      let r =
        holding-IsFenced l applied.0 b
          (applied_held t l (get bytes_key l.id a.guard.seen) a.guard refl v).holds h' in
      let same =
        ap (count_sessions id) (apply_sessions t l (get bytes_key l.id a.guard.seen) a.guard).end in
      let kept = ap (λ g. count_sessions id g.sessions) r.1 in
      rw here (record { fenced = r.0; fewer = omega (arith, same, kept) })

  fence-IsFenced :
      (now : ℤ) (t : ℕ → Moment) (id : Identity) (a : GuardAdapter)
      → IsSound a.guard
      → is_bound_here id a ≡ true
      → is_held id a.holds ≡ false
      → (fence sha256_hex now t id a).0 ≡ ok tt
      → StaysFenced (hold_lease sha256_hex now id a) a (fence sha256_hex now t id a).1
  unfolding fence
  fence-IsFenced now t id a v here new h =
      elim (Bool-cases (leb_ℤ id.uid (pos 0) || not (valid_hex id.credential 32))) [
        | inl bad ↦
            let k : ◌≡◌ {A = Answer (Unit {0})} (err AdapterError.coverage) (ok tt) = rw bad at h in
            absurd (cc)
        | inr good ↦
            let k : (fence_new sha256_hex now t id a).0 ≡ ok tt = rw (good, new) at h in
            rw (good, new) (fence_new-IsFenced now t id a v here k)
      ]

  -- Behind a `Fence` that succeeds for an identity that is bound and not held, on a sound guard,
  -- and any operations of the adapter, also the late half of a `Track` that was checked before: a
  -- flow of a label that the adapter and its guard bind to the identity is refused and changes
  -- nothing, by the adapter and by its guard alone; `Inspect` reports the identity as fenced; and
  -- its flows are no more than they were.
  pub fence_drains :
      (now : ℤ) (t : ℕ → Moment) (id : Identity) (a : GuardAdapter) (run : List Act)
      (t' : ℕ → Moment) (label : Bytes) (close : Option ℕ)
      → IsSound a.guard
      → is_bound_here id a ≡ true
      → is_held id a.holds ≡ false
      → (fence sha256_hex now t id a).0 ≡ ok tt
      → get bytes_key label (acts sha256_hex run (fence sha256_hex now t id a).1).bindings ≡ some id
      → identity_of
          (acts sha256_hex run (fence sha256_hex now t id a).1).tag
          label
          (acts sha256_hex run (fence sha256_hex now t id a).1).guard
        ≡ some id
      → let b = acts sha256_hex run (fence sha256_hex now t id a).1 in
        (track_label t' label close b ≡ (refused isolated, b))
        × (enter_flow t' label close b ≡ (refused isolated, b))
        × ((inspect t' id b).0.reject_new ≡ true)
        × (outstanding id (inspect t' id b).1.guard ≤ outstanding id a.guard)
  unfolding track_label enter_flow is_closing inspect hold_lease
  fence_drains now t id a run t' label close v here new success at bound =
      let l = hold_lease sha256_hex now id a in
      let first = fence-IsFenced now t id a v here new success in
      let b = acts sha256_hex run (fence sha256_hex now t id a).1 in
      let r = acts-StaysFenced sha256_hex l refl a run (fence sha256_hex now t id a).1 first in
      let read = (inspected-StaysFenced sha256_hex l refl a t' id b r).end in
      let held = r.fenced.hold in
      let closing : is_closing label b ≡ true = rw at (ground arith) in
      (
        rw closing refl,
        rw (track_held l refl t' b.tag label close b.guard r.fenced.held bound) refl,
        r.fenced.hold,
        read.fewer,
      )
