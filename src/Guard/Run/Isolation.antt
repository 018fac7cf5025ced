-- ===== src/Guard/Run/Isolation.antt =====
-- Whole runs behind a manual lease: it holds until its release, and the flows of its identity only
-- end.
use v2b_x.Base.{
  ltb, ℕ, suc, ◌≡◌, ◌∙◌, inl, inr, refl, sym, ap, true, false, ◌&&◌, ◌||◌, not, Option, none, some,
  List, [], ◌∷◌, Bytes, bytes_eq, bytes_eq_iff, ◌==◌, length, All, Assoc, get, del_there, arith,
  Bool-cases,
}
use v2b_x.Base.Int.{pos, leb_ℤ}
use v2b_x.Transfer.Types.{Identity, identity_eq, identity_eq_iff, identity_key}
use v2b_x.Guard.Types.{
  isolated, refused, Binding, Lease, Moment, ActiveLease, Guard, expired, note_coverage_failure,
}
use v2b_x.Guard.Bindings.{
  bind, unbind, credential_digest, wanted, require_tags, unbind_tag, identity_of, require_wanted,
}
use v2b_x.Guard.Sessions.{track, track_as, track_leased, finish}
use v2b_x.Guard.Leases.{apply, release, release_seen, released, stats, live_leases}
use v2b_x.Guard.Authorization.{register_authorization, register_as, hex_digits}
use v2b_x.Guard.Run.Rules.{Ends, if-Ends, if-holds}
use v2b_x.Guard.Run.{
  Call, binds, unbinds, requires, unbinds_tag, registers, tracks, finishes, applies, releases,
  reads_stats, notes_failure, step, run,
}
use v2b_x.Guard.Run.Hold.{
  IsHeld, Stays, count_del, never_expires, held-at, stays, same-Stays, unchanged, tracked-Ends,
  applied-Ends,
}

-- Every call but the release of the lease.
abbrev pub Keeps : Lease → Call → Type 0
Keeps l (releases id identity) = (bytes_eq id l.id && identity_eq identity l.identity) ≡ false
Keeps l (binds _ _ _ _) = Unit
Keeps l (unbinds _ _) = Unit
Keeps l (requires _) = Unit
Keeps l (unbinds_tag _) = Unit
Keeps l (registers _ _ _) = Unit
Keeps l (tracks _ _ _ _) = Unit
Keeps l (finishes _) = Unit
Keeps l (applies _ _) = Unit
Keeps l (reads_stats _) = Unit
Keeps l notes_failure = Unit

module _ (l : Lease) (manual : l.manual ≡ true) where
  -- A release that finds its lease is of another identity.
  other_released :
      (id : Bytes) (identity : Identity) (a : ActiveLease) (g : Guard)
      → (bytes_eq id l.id && identity_eq identity l.identity) ≡ false
      → get identity_key identity g.leases ≡ some a
      → bytes_eq a.lease.id id ≡ true
      → IsHeld l g
      → identity_eq identity l.identity ≡ false
  other_released id identity a g other e f v = elim (Bool-cases (identity_eq identity l.identity)) [
    | inr q ↦ q
    | inl q ↦
        let same : identity ≡ l.identity = (identity_eq_iff identity l.identity).0 q in
        let k : some a ≡ some v.active =
          sym e ∙ ap (λ i. get identity_key i g.leases) same ∙ v.at in
        let active : a ≡ v.active = cc in
        let found : a.lease.id ≡ id = (bytes_eq_iff a.lease.id id).0 f in
        let named : id ≡ l.id = sym found ∙ ap (λ x. x.lease.id) active ∙ ap (λ x. x.id) v.is in
        let both = (bytes_eq_iff id l.id).1 named in ground arith
  ]

  released-Stays :
      (id : Bytes) (identity : Identity) (o : Option ActiveLease) (g : Guard)
      → (bytes_eq id l.id && identity_eq identity l.identity) ≡ false
      → get identity_key identity g.leases ≡ o
      → IsHeld l g
      → Stays l g (released id identity o g)
  unfolding released
  released-Stays id identity none g other e v = same-Stays l manual g g refl refl v
  released-Stays id identity (some a) g other e v = elim (Bool-cases (bytes_eq a.lease.id id)) [
    | inr f ↦ rw f (same-Stays l manual g g refl refl v)
    | inl f ↦ rw f (
        stays l manual g _
          (held-at l manual g _
            (del_there identity_key identity l.identity g.leases
              (other_released id identity a g other e f v))
            v)
          (omega arith))
  ]

  release-Ends :
      (id : Bytes) (identity : Identity) (o : Option Lease) (g : Guard)
      → (bytes_eq id l.id && identity_eq identity l.identity) ≡ false
      → IsHeld l g
      → Ends (Stays l g) (release_seen id identity o g)
  unfolding release_seen
  release-Ends id identity none g other v = unchanged l manual _ g v
  release-Ends id identity (some m) g other v =
      if-Ends (not (identity_eq m.identity identity)) (λ _. unchanged l manual _ g v)
        (λ _. record { end = released-Stays id identity _ g other refl v })

  kept_alive :
      (t : ℕ → Moment) (k : ℕ) (m : Assoc Identity ActiveLease) (a : ActiveLease)
      → a.lease ≡ l
      → get identity_key l.identity m ≡ some a
      → get identity_key l.identity (live_leases t k m) ≡ some a
  unfolding get live_leases
  kept_alive t k [] a is h = h
  kept_alive t k ((i, b) ∷ m) a is h = elim (Bool-cases (identity_eq i l.identity)) [
    | inl f ↦
        let found : some b ≡ some a = rw f at h in
        let same : b ≡ a = cc in
        let lives = never_expires l manual b (t k).instant (ap (λ x. x.lease) same ∙ is) in
        rw (lives, f) found
    | inr f ↦
        let later : get identity_key l.identity m ≡ some a = rw f at h in
        let ih = kept_alive t (suc k) m a is later in
        elim (Bool-cases (expired b (t k).instant)) [ inl x ↦ rw x ih | inr x ↦ rw (x, f) ih ]
  ]

  stats-Ends : (t : ℕ → Moment) (g : Guard) → IsHeld l g → Ends (Stays l g) (stats t g)
  unfolding stats
  stats-Ends t g v = record {
    end =
        stays l manual g _
          (record { active = v.active; at = kept_alive t 0 g.leases v.active v.is v.at; is = v.is })
          (omega arith);
  }

  required-Ends :
      (o : Option (List Bytes)) (g : Guard) → IsHeld l g → Ends (Stays l g) (require_wanted o g)
  unfolding require_wanted
  required-Ends none g v = unchanged l manual _ g v
  required-Ends (some want) g v = record { end = same-Stays l manual g _ refl refl v }

  require-Ends :
      (tags : List Bytes) (g : Guard) → IsHeld l g → Ends (Stays l g) (require_tags tags g)
  unfolding require_tags
  require-Ends tags g v =
      if-Ends (not (length g.bindings == 0) || length tags == 0 || ltb 32 (length tags))
        (λ _. unchanged l manual _ g v) (λ _. required-Ends (wanted [] tags) g v)

  registered-Stays :
      (b : Binding) (grant : Bytes) (o : Option Identity) (g : Guard)
      → IsHeld l g
      → Stays l g (register_as b grant o g)
  unfolding register_as
  registered-Stays b grant none g v = same-Stays l manual g _ refl refl v
  registered-Stays b grant (some id) g v =
      if-holds (Stays l g) (not (hex_digits 32 grant)) _ _ (same-Stays l manual g _ refl refl v)
        (same-Stays l manual g _ refl refl v)

  pub step-Stays :
      (sha256_hex : Bytes → Bytes) (c : Call) (g : Guard)
      → Keeps l c
      → IsHeld l g
      → Stays l g (step sha256_hex c g)
  unfolding step bind unbind unbind_tag register_authorization track finish apply release
      note_coverage_failure
  step-Stays sha256_hex (binds tag label uid credential) g k v =
      let digest = credential_digest sha256_hex credential in
      if-holds (Stays l g)
        (leb_ℤ uid (pos 0) || length tag == 0 || length label == 0 || length digest == 0) _ _
        (same-Stays l manual g _ refl refl v) (same-Stays l manual g _ refl refl v)
  step-Stays sha256_hex (unbinds tag label) g k v = same-Stays l manual g _ refl refl v
  step-Stays sha256_hex (requires tags) g k v = (require-Ends tags g v).end
  step-Stays sha256_hex (unbinds_tag tag) g k v = same-Stays l manual g _ refl refl v
  step-Stays sha256_hex (registers tag label grant) g k v = registered-Stays _ grant _ g v
  step-Stays sha256_hex (tracks t tag label close) g k v = (tracked-Ends l manual t close _ g v).end
  step-Stays sha256_hex (finishes n) g k v =
      stays l manual g _ (held-at l manual g _ refl v) (count_del l.identity n g.sessions)
  step-Stays sha256_hex (applies t m) g k v = (applied-Ends l manual t m _ g v).end
  step-Stays sha256_hex (releases id identity) g k v = (release-Ends id identity _ g k v).end
  step-Stays sha256_hex (reads_stats t) g k v = (stats-Ends t g v).end
  step-Stays sha256_hex notes_failure g k v = same-Stays l manual g _ refl refl v

  pub run-Stays :
      (sha256_hex : Bytes → Bytes) (calls : List Call) (g : Guard)
      → All (Keeps l) calls
      → IsHeld l g
      → Stays l g (run sha256_hex calls g)
  unfolding run
  run-Stays sha256_hex [] g k v = same-Stays l manual g g refl refl v
  run-Stays sha256_hex (c ∷ calls) g k v =
      let first = step-Stays sha256_hex c g k.0 v in
      let later = run-Stays sha256_hex calls (step sha256_hex c g) k.1 first.held in
      record { held = later.held; fewer = omega (arith, first.fewer, later.fewer) }

  -- A flow of the held identity is refused, and changes nothing.
  pub track_held :
      (t : ℕ → Moment) (tag label : Bytes) (close : Option ℕ) (g : Guard)
      → IsHeld l g
      → identity_of tag label g ≡ some l.identity
      → track t tag label close g ≡ (refused isolated, g)
  unfolding track track_as track_leased identity_of
  track_held t tag label close g v e =
      rw (e, v.at, never_expires l manual v.active (t 0).instant v.is) refl
