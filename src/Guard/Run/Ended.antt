-- ===== src/Guard/Run/Ended.antt =====
-- A lease id that was released stays ended: no replay brings the lease back.
use v2b_x.Base.{
  IsKeyed, ℕ, suc, ◌≡◌, ◌∙◌, inl, inr, refl, sym, ap, false, Option, none, some, List, [], ◌∷◌,
  Bytes, bytes_eq, bytes_eq_iff, All, AllEntries-put, AllEntries-del, AllEntries-get, Assoc, get,
  del, put_there, arith, Bool-cases,
}
use v2b_x.Transfer.Types.{Identity, identity_eq, identity_eq_iff, identity_key, bytes_key}
use v2b_x.Guard.Types.{
  unknown_identity, Outcome, done, refused, GuardError, replay_conflict, already_ended, Lease,
  lease_eq, Moment, ActiveLease, Guard, expired,
}
use v2b_x.Guard.Leases.{
  apply, apply_seen, installed, activated, replayed, is_active, release, release_seen, released,
  live_leases,
}
use v2b_x.Guard.Run.Closure.{IsClosed, run_keeps}
use v2b_x.Guard.Run.{Call, run}
use v2b_x.Guard.Run.Sound.{IsSound, Recorded, AreRecorded}

abbrev pub Other : Bytes → Identity → ActiveLease → Type 0
Other id i a = bytes_eq a.lease.id id ≡ false

-- The id is remembered, and no active lease has it.
pub record HasEnded (id : Bytes) (g : Guard) : Type 0 where
  pub lease : Lease
  pub seen : get bytes_key id g.seen ≡ some lease
  pub others : All (λ p. Other id p.0 p.1) g.leases

module _ (id : Bytes) where
  same-HasEnded :
      (g h : Guard) → h.leases ≡ g.leases → h.seen ≡ g.seen → HasEnded id g → HasEnded id h
  same-HasEnded g h a b v = record { lease = v.lease; seen = rw b v.seen; others = rw a v.others }

  dropped-HasEnded :
      (i : Identity) (g : Guard)
      → HasEnded id g
      → HasEnded id (record g { leases = del identity_key i g.leases })
  dropped-HasEnded i g v = record {
    lease = v.lease;
    seen = v.seen;
    others = AllEntries-del identity_key (Other id) i g.leases v.others;
  }

  live-Other :
      (t : ℕ → Moment) (k : ℕ) (m : Assoc Identity ActiveLease)
      → All (λ p. Other id p.0 p.1) m
      → All (λ p. Other id p.0 p.1) (live_leases t k m)
  unfolding live_leases
  live-Other t k [] r = tt
  live-Other t k ((i, a) ∷ m) r = elim (Bool-cases (expired a (t k).instant)) [
    | inl b ↦ rw b (live-Other t (suc k) m r.1)
    | inr b ↦ rw b (r.0, live-Other t (suc k) m r.1)
  ]

  -- A lease that is not remembered has another id.
  other_id :
      (l : Lease) (g : Guard)
      → get bytes_key l.id g.seen ≡ none
      → HasEnded id g
      → bytes_eq l.id id ≡ false
  other_id l g new v = elim (Bool-cases (bytes_eq l.id id)) [
    | inr b ↦ b
    | inl b ↦
        let same : l.id ≡ id = (bytes_eq_iff l.id id).0 b in
        let gone : get bytes_key id g.seen ≡ none =
          ap (λ x. get bytes_key x g.seen) (sym same) ∙ new in
        let there = v.seen in cc
  ]

  installed-HasEnded :
      (t : ℕ → Moment) (l : Lease) (g : Guard)
      → get bytes_key l.id g.seen ≡ none
      → HasEnded id g
      → HasEnded id (installed t l g).1
  unfolding installed activated
  installed-HasEnded t l g new v =
      let other = other_id l g new v in
      record {
        lease = v.lease;
        seen = put_there bytes_key l.id id l g.seen other ∙ v.seen;
        others =
            AllEntries-put identity_key (Other id) l.identity (activated t l) g.leases other
              v.others;
      }

  HasEnded-IsClosed : IsClosed (HasEnded id)
  HasEnded-IsClosed = record {
    same = λ g h a b _ _ v. same-HasEnded g h a b v;
    dropped = dropped-HasEnded;
    lived = λ t g v. record {
      lease = v.lease;
      seen = v.seen;
      others = live-Other t 0 g.leases v.others;
    };
    entered = λ n e g room v. record { lease = v.lease; seen = v.seen; others = v.others };
    finished = λ n g v. record { lease = v.lease; seen = v.seen; others = v.others };
    installs = λ t l g new room v. installed-HasEnded t l g new v;
  }

  not_active :
      (l : Lease) (g : Guard)
      → l.id ≡ id
      → HasEnded id g
      → (now : ℕ) (o : Option ActiveLease) → get identity_key l.identity g.leases ≡ o
      → is_active o l.id now ≡ false
  unfolding is_active
  not_active l g same v now none e = refl
  not_active l g same v now (some a) e =
      let other = AllEntries-get identity_key (Other id) l.identity a g.leases v.others e in
      let other' : bytes_eq a.lease.id l.id ≡ false = ap (bytes_eq a.lease.id) same ∙ other in
      ground arith

  -- No lease with the id is applied again.
  apply_ended :
      (t : ℕ → Moment) (l : Lease) (g : Guard)
      → l.id ≡ id
      → HasEnded id g
      → (e : GuardError) × (apply t l g ≡ (refused e, g))
  unfolding apply apply_seen replayed
  apply_ended t l g same v =
      let seen : get bytes_key l.id g.seen ≡ some v.lease =
        ap (λ x. get bytes_key x g.seen) same ∙ v.seen in
      let idle = not_active l g same v (t 0).instant (get identity_key l.identity g.leases) refl in
      elim (Bool-cases (lease_eq v.lease l)) [
        | inr b ↦ (replay_conflict, rw (seen, b) refl)
        | inl b ↦ (already_ended, rw (seen, b, idle) refl)
      ]

module _ (id : Bytes) (identity : Identity) where
  apart :
      (seen : Assoc Bytes Lease) (m : Lease) (i : Identity) (a : ActiveLease)
      → get bytes_key id seen ≡ some m
      → m.identity ≡ identity
      → Recorded seen i a
      → identity_eq i identity ≡ false
      → Other id i a
  apart seen m i a e same r b = elim (Bool-cases (bytes_eq a.lease.id id)) [
    | inr f ↦ f
    | inl f ↦
        let named : a.lease.id ≡ id = (bytes_eq_iff a.lease.id id).0 f in
        let k : some a.lease ≡ some m = sym r.1 ∙ ap (λ x. get bytes_key x seen) named ∙ e in
        let is : a.lease ≡ m = cc in
        let here : i ≡ identity = sym r.0 ∙ ap (λ x. x.identity) is ∙ same in
        let no_ = (identity_eq_iff i identity).1 here in cc
  ]

  Other-none :
      (seen : Assoc Bytes Lease) (m : Lease) (leases : Assoc Identity ActiveLease)
      → get bytes_key id seen ≡ some m
      → m.identity ≡ identity
      → AreRecorded leases seen
      → get identity_key identity leases ≡ none
      → All (λ p. Other id p.0 p.1) leases
  unfolding get
  Other-none seen m [] e same r h = tt
  Other-none seen m ((i, a) ∷ leases) e same r h = elim (Bool-cases (identity_eq i identity)) [
    | inl b ↦ let bad : some a ≡ none = rw b at h in cc
    | inr b ↦
        let g : get identity_key identity leases ≡ none = rw b at h in
        (apart seen m i a e same r.0 b, Other-none seen m leases e same r.1 g)
  ]

  Other-some :
      (seen : Assoc Bytes Lease) (m : Lease) (x : ActiveLease) (leases : Assoc Identity ActiveLease)
      → get bytes_key id seen ≡ some m
      → m.identity ≡ identity
      → bytes_eq x.lease.id id ≡ false
      → AreRecorded leases seen
      → IsKeyed identity_key leases
      → get identity_key identity leases ≡ some x
      → All (λ p. Other id p.0 p.1) leases
  unfolding get
  Other-some seen m x [] e same other r d h = tt
  Other-some seen m x ((i, a) ∷ leases) e same other r d h =
      elim (Bool-cases (identity_eq i identity)) [
        | inl b ↦
            let g : some a ≡ some x = rw b at h in
            let is : a ≡ x = cc in
            let here : i ≡ identity = (identity_eq_iff i identity).0 b in
            (
              ap (λ y. bytes_eq y.lease.id id) is ∙ other,
              Other-none seen m leases e same r.1
                  (ap (λ y. get identity_key y leases) (sym here) ∙ d.0),
            )
        | inr b ↦
            let g : get identity_key identity leases ≡ some x = rw b at h in
            (apart seen m i a e same r.0 b, Other-some seen m x leases e same other r.1 d.1 g)
      ]

  -- In a sound guard an active lease with the id of a remembered one stands under its identity.
  Other-del :
      (seen : Assoc Bytes Lease) (m : Lease) (leases : Assoc Identity ActiveLease)
      → get bytes_key id seen ≡ some m
      → m.identity ≡ identity
      → AreRecorded leases seen
      → All (λ p. Other id p.0 p.1) (del identity_key identity leases)
  unfolding del
  Other-del seen m [] e same r = tt
  Other-del seen m ((i, a) ∷ leases) e same r = elim (Bool-cases (identity_eq i identity)) [
    | inl b ↦ rw b (Other-del seen m leases e same r.1)
    | inr b ↦ rw b (apart seen m i a e same r.0 b, Other-del seen m leases e same r.1)
  ]

  released_ended :
      (m : Lease) (o : Option ActiveLease) (g : Guard)
      → IsSound g
      → get bytes_key id g.seen ≡ some m
      → m.identity ≡ identity
      → get identity_key identity g.leases ≡ o
      → HasEnded id (released id identity o g)
  unfolding released
  released_ended m none g v e same h = record {
    lease = m;
    seen = e;
    others = Other-none g.seen m g.leases e same v.recorded h;
  }
  released_ended m (some a) g v e same h = elim (Bool-cases (bytes_eq a.lease.id id)) [
    | inl b ↦
        rw b
          (record { lease = m; seen = e; others = Other-del g.seen m g.leases e same v.recorded })
    | inr b ↦ rw b (record {
      lease = m;
      seen = e;
      others = Other-some g.seen m a g.leases e same b v.recorded v.keyed h;
    })
  ]

  release_ended :
      (o : Option Lease) (g : Guard)
      → IsSound g
      → get bytes_key id g.seen ≡ o
      → (release_seen id identity o g).0 ≡ done tt
      → HasEnded id (release_seen id identity o g).1
  unfolding release_seen
  release_ended none g v e h = absurd (cc)
  release_ended (some m) g v e h = elim (Bool-cases (identity_eq m.identity identity)) [
    | inr b ↦
        let bad : ◌≡◌ {A = Outcome (Unit {0})} (refused unknown_identity) (done tt) = rw b at h in
        absurd (cc)
    | inl b ↦ rw b (
        released_ended m (get identity_key identity g.leases) g v e
          ((identity_eq_iff m.identity identity).0 b) refl)
  ]

-- Behind a `Release` that succeeds in a sound guard, and any calls, every `Apply` of a lease with the
-- released id is refused with an error and changes nothing.
pub release_ends :
    (sha256_hex : Bytes → Bytes) (id : Bytes) (identity : Identity) (g : Guard) (calls : List Call)
    (t : ℕ → Moment) (l : Lease)
    → IsSound g
    → (release id identity g).0 ≡ done tt
    → l.id ≡ id
    → let h = run sha256_hex calls (release id identity g).1 in
      (e : GuardError) × (apply t l h ≡ (refused e, h))
unfolding release
release_ends sha256_hex id identity g calls t l v ok same =
    let first = release_ended id identity (get bytes_key id g.seen) g v refl ok in
    let r =
      run_keeps (HasEnded id) (HasEnded-IsClosed id) sha256_hex calls (release id identity g).1
        first in
    apply_ended id t l (run sha256_hex calls (release id identity g).1) same r
