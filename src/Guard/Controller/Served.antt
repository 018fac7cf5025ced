-- ===== src/Guard/Controller/Served.antt =====
-- The other methods of the guard, between two commands: they keep the ids that the guard has seen,
-- and of its leases all that have not run out.
use v2b_x.Base.{
  ℕ, suc, ◌≤◌, ◌≡◌, refl, sym, ap, ◌∙◌, ◌⊎◌, inl, inr, Bool, true, false, not, ◌||◌, Option, none,
  some, List, [], ◌∷◌, Bytes, leb, ltb, length, Assoc, get, del, del_there, arith, Bool-cases, ◌==◌,
}
use v2b_x.Base.Int.{pos, leb_ℤ}
use v2b_x.Transfer.Types.{Identity, identity_eq, identity_eq_iff, identity_key}
use v2b_x.Guard.Types.{
  Binding, Moment, ActiveLease, Guard, expired, note_coverage_failure, note_capacity_failure,
}
use v2b_x.Guard.Bindings.{
  credential_digest, bind, unbind, wanted, require_wanted, require_tags, unbind_tag,
}
use v2b_x.Guard.Sessions.{enter, track_leased, track_as, track, finish}
use v2b_x.Guard.Leases.{live_leases, stats}
use v2b_x.Guard.Authorization.{register_authorization, register_as, hex_digits}
use v2b_x.Guard.Run.{
  Call, binds, unbinds, requires, unbinds_tag, registers, tracks, finishes, applies, releases,
  reads_stats, notes_failure, step,
}
use v2b_x.Guard.Run.Rules.{Ends, if-Ends, if-holds}
use v2b_x.Guard.Controller.Pending.{Serves}

-- A call that neither applies nor releases a lease, and reads the clock up to the instant `at`.
abbrev pub IsQuiet : ℕ → Call → Type 0
IsQuiet at (applies _ _) = ◌≡◌ {A = Bool} true false
IsQuiet at (releases _ _) = ◌≡◌ {A = Bool} true false
IsQuiet at (tracks t _ _ _) = (t 0).instant ≤ at
IsQuiet at (reads_stats t) = (k : ℕ) → (t k).instant ≤ at
IsQuiet at (binds _ _ _ _) = Unit
IsQuiet at (unbinds _ _) = Unit
IsQuiet at (requires _) = Unit
IsQuiet at (unbinds_tag _) = Unit
IsQuiet at (registers _ _ _) = Unit
IsQuiet at (finishes _) = Unit
IsQuiet at notes_failure = Unit

expired_later : (a : ActiveLease) (t u : ℕ) → t ≤ u → expired a t ≡ true → expired a u ≡ true
unfolding expired
expired_later a t u h e = ground arith

same-Serves : (at : ℕ) (g h : Guard) → h.seen ≡ g.seen → h.leases ≡ g.leases → Serves at g h
same-Serves at g h s l = record {
  seen_eq = s;
  keeps = λ i a f. inl (ap (get identity_key i) l ∙ f);
}

module _ (at : ℕ) (g : Guard) where
  enter-Serves :
      (m : Moment) (close : Option ℕ) (id : Identity) (h : Guard)
      → Serves at g h
      → Ends (Serves at g) (enter m close id h)
  unfolding enter note_capacity_failure
  enter-Serves m close id h s =
      if-Ends (leb h.max_sessions (length h.sessions))
        (λ _. record { end = record { seen_eq = s.seen_eq; keeps = s.keeps } })
        (λ _. record { end = record { seen_eq = s.seen_eq; keeps = s.keeps } })

  dropped-Serves :
      (id : Identity) (a : ActiveLease)
      → get identity_key id g.leases ≡ some a
      → expired a at ≡ true
      → Serves at g (record g { leases = del identity_key id g.leases })
  dropped-Serves id a f e = record {
    seen_eq = refl;
    keeps = λ i b h. elim (Bool-cases (identity_eq id i)) [
      | inl q ↦
          let y = ap (λ i. get identity_key i g.leases) ((identity_eq_iff id i).0 q) in
          let same : a ≡ b = cc in inr (ap (λ a. expired a at) (sym same) ∙ e)
      | inr q ↦ inl (del_there identity_key id i g.leases q ∙ h)
    ];
  }

  leased-Serves :
      (t : ℕ → Moment) (close : Option ℕ) (id : Identity) (o : Option ActiveLease)
      → (t 0).instant ≤ at
      → get identity_key id g.leases ≡ o
      → Ends (Serves at g) (track_leased t close id o g)
  unfolding track_leased
  leased-Serves t close id none le e = enter-Serves (t 0) close id g (same-Serves at g g refl refl)
  leased-Serves t close id (some a) le e =
      if-Ends (expired a (t 0).instant)
        (λ over.
          enter-Serves (t 1) close id (record g { leases = del identity_key id g.leases })
            (dropped-Serves id a e (expired_later a (t 0).instant at le over)))
        (λ _. record { end = same-Serves at g g refl refl })

  tracked-Serves :
      (t : ℕ → Moment) (close : Option ℕ) (o : Option Identity)
      → (t 0).instant ≤ at
      → Ends (Serves at g) (track_as t close o g)
  unfolding track_as note_coverage_failure
  tracked-Serves t close none le = record { end = same-Serves at g _ refl refl }
  tracked-Serves t close (some id) le =
      leased-Serves t close id (get identity_key id g.leases) le refl

-- A lease that `Stats` takes away has run out.
kept_or_over :
    (at : ℕ) (t : ℕ → Moment) (k : ℕ) (m : Assoc Identity ActiveLease) (i : Identity)
    (a : ActiveLease)
    → ((k : ℕ) → (t k).instant ≤ at)
    → get identity_key i m ≡ some a
    → (get identity_key i (live_leases t k m) ≡ some a) ⊎ (expired a at ≡ true)
unfolding get live_leases
kept_or_over at t k [] i a le h = absurd (cc)
kept_or_over at t k ((j, b) ∷ m) i a le h = elim (Bool-cases (identity_eq j i)) [
  | inl f ↦
      let found : some b ≡ some a = rw f at h in
      let same : b ≡ a = cc in
      elim (Bool-cases (expired b (t k).instant)) [
        | inl x ↦
            inr (ap (λ a. expired a at) (sym same) ∙ expired_later b (t k).instant at (le k) x)
        | inr x ↦ inl (rw (x, f) found)
      ]
  | inr f ↦
      let later : get identity_key i m ≡ some a = rw f at h in
      elim (kept_or_over at t (suc k) m i a le later) [
        | inr e ↦ inr e
        | inl e ↦ elim (Bool-cases (expired b (t k).instant)) [
          | inl x ↦ inl (rw x e)
          | inr x ↦ inl (rw (x, f) e)
        ]
      ]
]

required-Serves :
    (at : ℕ) (g : Guard) (o : Option (List Bytes)) → Ends (Serves at g) (require_wanted o g)
unfolding require_wanted
required-Serves at g none = record { end = same-Serves at g g refl refl }
required-Serves at g (some want) = record { end = same-Serves at g _ refl refl }

require-Serves : (at : ℕ) (g : Guard) (tags : List Bytes) → Ends (Serves at g) (require_tags tags g)
unfolding require_tags
require-Serves at g tags =
    if-Ends (not (length g.bindings == 0) || length tags == 0 || ltb 32 (length tags))
      (λ _. record { end = same-Serves at g g refl refl })
      (λ _. required-Serves at g (wanted [] tags))

registered-Serves :
    (at : ℕ) (b : Binding) (grant : Bytes) (o : Option Identity) (g : Guard)
    → Serves at g (register_as b grant o g)
unfolding register_as
registered-Serves at b grant none g = same-Serves at g _ refl refl
registered-Serves at b grant (some id) g =
    if-holds (Serves at g) (not (hex_digits 32 grant)) _ _ (same-Serves at g _ refl refl)
      (same-Serves at g _ refl refl)

stats-Serves :
    (at : ℕ) (t : ℕ → Moment) (g : Guard)
    → ((k : ℕ) → (t k).instant ≤ at)
    → Serves at g (stats t g).1
unfolding stats
stats-Serves at t g le = record {
  seen_eq = refl;
  keeps = λ i a h. kept_or_over at t 0 g.leases i a le h;
}

pub step-Serves :
    (sha256_hex : Bytes → Bytes) (at : ℕ) (call : Call) (g : Guard)
    → IsQuiet at call
    → Serves at g (step sha256_hex call g)
unfolding step finish bind unbind unbind_tag register_authorization track note_coverage_failure
step-Serves sha256_hex at (binds tag label uid credential) g q =
    let digest = credential_digest sha256_hex credential in
    if-holds (Serves at g)
      (leb_ℤ uid (pos 0) || length tag == 0 || length label == 0 || length digest == 0) _ _
      (same-Serves at g g refl refl) (same-Serves at g _ refl refl)
step-Serves sha256_hex at (unbinds tag label) g q = same-Serves at g _ refl refl
step-Serves sha256_hex at (requires tags) g q = (require-Serves at g tags).end
step-Serves sha256_hex at (unbinds_tag tag) g q = same-Serves at g _ refl refl
step-Serves sha256_hex at (registers tag label grant) g q = registered-Serves at _ grant _ g
step-Serves sha256_hex at (tracks t tag label close) g q = (tracked-Serves at g t close _ q).end
step-Serves sha256_hex at (finishes n) g q = same-Serves at g _ refl refl
step-Serves sha256_hex at (applies t l) g q = absurd (cc)
step-Serves sha256_hex at (releases id identity) g q = absurd (cc)
step-Serves sha256_hex at (reads_stats t) g q = stats-Serves at t g q
step-Serves sha256_hex at notes_failure g q = same-Serves at g _ refl refl
