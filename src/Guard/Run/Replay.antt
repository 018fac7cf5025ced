-- ===== src/Guard/Run/Replay.antt =====
-- A lease id that has ended stays ended, and a lease that holds refuses the flows of its identity.
use v2b_x.Base.{
  length, leb, ℕ, ◌≤◌, ◌≡◌, ◌∙◌, inl, inr, refl, sym, ap, Bool, true, false, not, Option, none,
  some, List, [], Bytes, bytes_eq, bytes_eq_iff, if◌then◌else◌, All, AllEntries-get, get, put_here,
  arith, Bool-cases,
}
use v2b_x.Transfer.Types.{identity_key, bytes_key}
use v2b_x.Guard.Types.{
  lease_eq_sound, Outcome, done, refused, GuardError, replay_conflict, already_ended, isolated,
  Lease, lease_eq, lease_eq_refl, Moment, ActiveLease, Guard,
}
use v2b_x.Guard.Bindings.{identity_of}
use v2b_x.Guard.Sessions.{count_sessions, track, outstanding}
use v2b_x.Guard.Leases.{
  holds_now, is_bound, activated, apply_fresh, installed, apply, apply_seen, replayed, is_active,
}
use v2b_x.Guard.Run.Rules.{Ends, if-Ends}
use v2b_x.Guard.Run.{Call, run}
use v2b_x.Guard.Run.Sound.{apply-IsSound, IsSound, Recorded, run-IsSound}
use v2b_x.Guard.Run.Hold.{IsHeld, never_expires}
use v2b_x.Guard.Run.Isolation.{Keeps, run-Stays, track_held}

-- The lease that holds is remembered.
held-seen : (l : Lease) (g : Guard) → IsSound g → IsHeld l g → get bytes_key l.id g.seen ≡ some l
held-seen l g v h =
    let r =
      AllEntries-get identity_key (Recorded g.seen) l.identity h.active g.leases v.recorded h.at in
    rw h.is at r.1

-- A replay of the lease that holds changes nothing and calls no callback.
replay_held :
    (t : ℕ → Moment) (l : Lease) (g : Guard)
    → l.manual ≡ true
    → IsSound g
    → IsHeld l g
    → apply t l g ≡ (done [], g)
unfolding apply apply_seen replayed is_active
replay_held t l g manual v h =
    let lives = never_expires l manual h.active (t 0).instant h.is in
    let named : bytes_eq h.active.lease.id l.id ≡ true =
      (bytes_eq_iff h.active.lease.id l.id).1 (ap (λ x. x.id) h.is) in
    rw (held-seen l g v h, lease_eq_refl l, h.at, lives, named) refl

module _ {A : Type 0} where
  -- What a result says of the guard beside it, where it is one of success.
  pub record OnDone (P : Guard → Type 0) (p : Outcome A × Guard) : Type 0 where
    pub holds : (x : A) → p.0 ≡ done x → P p.1

  if-OnDone :
      {P : Guard → Type 0} (b : Bool) {p q : Outcome A × Guard}
      → (b ≡ true → OnDone P p)
      → (b ≡ false → OnDone P q)
      → OnDone P (if b then p else q)
  if-OnDone true h k = h refl
  if-OnDone false h k = k refl

  refuses : (P : Guard → Type 0) (e : GuardError) (g : Guard) → OnDone P (refused e, g)
  refuses P e g = record { holds = λ x h. cc }

installed_held : (t : ℕ → Moment) (l : Lease) (g : Guard) → OnDone (IsHeld l) (installed t l g)
unfolding installed activated
installed_held t l g = record {
  holds = λ x h. record {
    active = activated t l;
    at = put_here identity_key l.identity (activated t l) g.leases;
    is = refl;
  };
}

fresh_held :
    (t : ℕ → Moment) (l : Lease) (e : Option GuardError) (g : Guard)
    → OnDone (IsHeld l) (apply_fresh t l e g)
unfolding apply_fresh
fresh_held t l (some e) g = refuses _ e g
fresh_held t l none g =
    if-OnDone (not (is_bound l.identity g.bindings)) (λ _. refuses _ _ g)
      (λ _.
        if-OnDone (holds_now (get identity_key l.identity g.leases) (t 1).instant)
          (λ _. refuses _ _ g)
          (λ _.
            if-OnDone (leb 10000 (length g.seen)) (λ _. refuses _ _ g) (λ _. installed_held t l g)))

active_held :
    (l old : Lease) (g : Guard)
    → get bytes_key l.id g.seen ≡ some old
    → IsSound g
    → old ≡ l
    → (now : ℕ) (o : Option ActiveLease) → get identity_key l.identity g.leases ≡ o
    → is_active o l.id now ≡ true
    → IsHeld l g
unfolding is_active
active_held l old g seen v same now none e f = absurd (cc)
active_held l old g seen v same now (some a) e f =
    let named : a.lease.id ≡ l.id = (bytes_eq_iff a.lease.id l.id).0 (ground arith) in
    let r = (AllEntries-get identity_key (Recorded g.seen) l.identity a g.leases v.recorded e).1 in
    let k : some a.lease ≡ some old = sym r ∙ ap (λ x. get bytes_key x g.seen) named ∙ seen in
    let is : a.lease ≡ old = cc in record { active = a; at = e; is = is ∙ same }

-- A replay that succeeds finds the lease active.
replayed_held :
    (t : ℕ → Moment) (old l : Lease) (g : Guard) (x : List (Option ℕ))
    → get bytes_key l.id g.seen ≡ some old
    → IsSound g
    → replayed t old l g ≡ done x
    → IsHeld l g
unfolding replayed
replayed_held t old l g x seen v h = elim (Bool-cases (lease_eq old l)) [
  | inr e ↦
      let bad : ◌≡◌ {A = Outcome (List (Option ℕ))} (refused replay_conflict) (done x) =
        rw e at h in
      cc
  | inl e ↦
      let h' : (if is_active (get identity_key l.identity g.leases) l.id (t 0).instant
            then done []
            else refused already_ended)
          ≡ done x =
        rw e at h in
      elim (Bool-cases (is_active (get identity_key l.identity g.leases) l.id (t 0).instant)) [
        | inr f ↦
            let bad : ◌≡◌ {A = Outcome (List (Option ℕ))} (refused already_ended) (done x) =
              rw f at h' in
            cc
        | inl f ↦
            active_held l old g seen v (lease_eq_sound old l e) (t 0).instant
              (get identity_key l.identity g.leases) refl f
      ]
]

pub applied_held :
    (t : ℕ → Moment) (l : Lease) (o : Option Lease) (g : Guard)
    → get bytes_key l.id g.seen ≡ o
    → IsSound g
    → OnDone (IsHeld l) (apply_seen t l o g)
unfolding apply_seen
applied_held t l none g seen v = fresh_held t l _ g
applied_held t l (some old) g seen v = record { holds = λ x h. replayed_held t old l g x seen v h }

abbrev SameSessions : Guard → Guard → Type 0
SameSessions g h = h.sessions ≡ g.sessions

fresh_sessions :
    (t : ℕ → Moment) (l : Lease) (e : Option GuardError) (g : Guard)
    → Ends (SameSessions g) (apply_fresh t l e g)
unfolding apply_fresh installed
fresh_sessions t l (some e) g = record { end = refl }
fresh_sessions t l none g =
    if-Ends (not (is_bound l.identity g.bindings)) (λ _. record { end = refl })
      (λ _.
        if-Ends (holds_now (get identity_key l.identity g.leases) (t 1).instant)
          (λ _. record { end = refl })
          (λ _.
            if-Ends (leb 10000 (length g.seen)) (λ _. record { end = refl })
              (λ _. record { end = refl })))

pub apply_sessions :
    (t : ℕ → Moment) (l : Lease) (o : Option Lease) (g : Guard)
    → Ends (SameSessions g) (apply_seen t l o g)
unfolding apply_seen
apply_sessions t l none g = fresh_sessions t l _ g
apply_sessions t l (some old) g = record { end = refl }

-- Behind an `Apply` of a manual lease that succeeds in a sound guard, and any calls but the release
-- of this lease: a flow of the isolated identity is refused and changes nothing, the identity has
-- no more sessions than it had before, and a further `Apply` of the lease succeeds, closes nothing
-- and changes nothing.
pub hold_isolates :
    (sha256_hex : Bytes → Bytes) (t : ℕ → Moment) (l : Lease) (g : Guard) (closed : List (Option ℕ))
    (calls : List Call) (t' : ℕ → Moment) (tag label : Bytes) (close : Option ℕ)
    → l.manual ≡ true
    → IsSound g
    → (apply t l g).0 ≡ done closed
    → All (Keeps l) calls
    → identity_of tag label (run sha256_hex calls (apply t l g).1) ≡ some l.identity
    → let h = run sha256_hex calls (apply t l g).1 in
      (track t' tag label close h ≡ (refused isolated, h))
      × (outstanding l.identity h ≤ outstanding l.identity g)
      × (apply t' l h ≡ (done [], h))
unfolding apply outstanding
hold_isolates sha256_hex t l g closed calls t' tag label close manual v ok keeps bound =
    let first = (applied_held t l (get bytes_key l.id g.seen) g refl v).holds closed ok in
    let r = run-Stays l manual sha256_hex calls (apply t l g).1 keeps first in
    let sound = run-IsSound sha256_hex calls (apply t l g).1 (apply-IsSound t l g v) in
    let same =
      ap (count_sessions l.identity) (apply_sessions t l (get bytes_key l.id g.seen) g).end in
    (
      track_held l manual t' tag label close (run sha256_hex calls (apply t l g).1) r.held bound,
      omega (arith, r.fewer, same),
      replay_held t' l (run sha256_hex calls (apply t l g).1) manual sound r.held,
    )
