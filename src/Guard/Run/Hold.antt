-- ===== src/Guard/Run/Hold.antt =====
-- A manual lease holds until it is released: what every other call leaves of it.
use v2b_x.Base.{
  ℕ, ◌+◌, ◌%◌, ◌≤◌, ◌≡◌, ◌∙◌, inl, inr, refl, sym, ap, Bool, true, false, not, Option, none, some,
  [], ◌∷◌, leb, length, Assoc, get, put, del, put_there, del_there, arith, Bool-cases,
}
use v2b_x.Base.Int.{word64}
use v2b_x.Transfer.Types.{Identity, identity_eq, identity_eq_iff, identity_key}
use v2b_x.Guard.Types.{
  GuardError, Lease, Moment, ActiveLease, SessionEntry, Guard, session_key, expired,
  note_coverage_failure, note_capacity_failure,
}
use v2b_x.Guard.Sessions.{track_as, track_leased, enter, count_sessions, outstanding}
use v2b_x.Guard.Leases.{apply_seen, apply_fresh, installed, activated, holds_now, is_bound}
use v2b_x.Guard.Run.Rules.{Ends, if-Ends}

-- The lease is the active one of its identity.
pub record IsHeld (l : Lease) (g : Guard) : Type 0 where
  pub active : ActiveLease
  pub at : get identity_key l.identity g.leases ≡ some active
  pub is : active.lease ≡ l

-- The lease is held still, and its identity has no more sessions.
pub record Stays (l : Lease) (g h : Guard) : Type 0 where
  pub held : IsHeld l h
  pub fewer : outstanding l.identity h ≤ outstanding l.identity g

count_put :
    (id : Identity) (n : ℕ) (s : SessionEntry) (m : Assoc ℕ SessionEntry)
    → identity_eq s.identity id ≡ false
    → count_sessions id (put session_key n s m) ≤ count_sessions id m
unfolding count_sessions put
count_put id n s [] h = ground arith
count_put id n s ((j, x) ∷ m) h = let ih = count_put id n s m h in ground arith

pub count_del :
    (id : Identity) (n : ℕ) (m : Assoc ℕ SessionEntry)
    → count_sessions id (del session_key n m) ≤ count_sessions id m
unfolding count_sessions del
count_del id n [] = ground arith
count_del id n ((j, x) ∷ m) = let ih = count_del id n m in ground arith

other_identity :
    (a b : Identity) → (identity_eq a b ≡ true → Bool.false ≡ true) → identity_eq a b ≡ false
other_identity a b h = elim (Bool-cases (identity_eq a b)) [ inl e ↦ let x = h e in cc | inr e ↦ e ]

module _ (l : Lease) (manual : l.manual ≡ true) where
  pub never_expires : (a : ActiveLease) (now : ℕ) → a.lease ≡ l → expired a now ≡ false
  unfolding expired
  never_expires a now e =
      let m : a.lease.manual ≡ true = ap (λ x. x.manual) e ∙ manual in ground arith

  pub held-at :
      (g h : Guard)
      → get identity_key l.identity h.leases ≡ get identity_key l.identity g.leases
      → IsHeld l g
      → IsHeld l h
  held-at g h e v = record { active = v.active; at = e ∙ v.at; is = v.is }

  pub stays :
      (g h : Guard)
      → IsHeld l h
      → count_sessions l.identity h.sessions ≤ count_sessions l.identity g.sessions
      → Stays l g h
  unfolding outstanding
  stays g h v f = record { held = v; fewer = f }

  -- Nothing of the leases and sessions is touched.
  pub same-Stays :
      (g h : Guard) → h.leases ≡ g.leases → h.sessions ≡ g.sessions → IsHeld l g → Stays l g h
  same-Stays g h a b v =
      stays g h (held-at g h (ap (get identity_key l.identity) a) v)
        (let e = ap (count_sessions l.identity) b in omega arith)

  pub unchanged : {A : Type 0} (x : A) (g : Guard) → IsHeld l g → Ends (Stays l g) (x, g)
  unchanged x g v = record { end = same-Stays g g refl refl v }

  pub enter-Ends :
      (at : Moment) (close : Option ℕ) (id : Identity) (g h : Guard)
      → identity_eq id l.identity ≡ false
      → h.sessions ≡ g.sessions
      → IsHeld l h
      → Ends (Stays l g) (enter at close id h)
  unfolding enter note_capacity_failure
  enter-Ends at close id g h other same v =
      let e = ap (count_sessions l.identity) same in
      let n = (h.next + 1) % word64 in
      let f = count_put l.identity n (record { identity = id; close = close }) h.sessions other in
      if-Ends (leb h.max_sessions (length h.sessions))
        (λ full. record { end = stays g _ (held-at h _ refl v) (omega arith) })
        (λ room. record { end = stays g _ (held-at h _ refl v) (omega arith) })

  -- A lease that refuses nothing is of another identity.
  pub other_lease :
      (g : Guard) (id : Identity) (o : Option ActiveLease) (now : ℕ)
      → IsHeld l g
      → get identity_key id g.leases ≡ o
      → holds_now o now ≡ false
      → identity_eq id l.identity ≡ false
  unfolding holds_now
  other_lease g id o now v e h = elim (Bool-cases (identity_eq id l.identity)) [
    | inr f ↦ f
    | inl f ↦
        let same : id ≡ l.identity = (identity_eq_iff id l.identity).0 f in
        let k : o ≡ some v.active = sym e ∙ ap (λ i. get identity_key i g.leases) same ∙ v.at in
        let n = never_expires v.active now v.is in
        let x : holds_now (some v.active) now ≡ false = ap (λ q. holds_now q now) (sym k) ∙ h in
        ground arith
  ]

  pub leased-Ends :
      (t : ℕ → Moment) (close : Option ℕ) (id : Identity) (o : Option ActiveLease) (g : Guard)
      → get identity_key id g.leases ≡ o
      → IsHeld l g
      → Ends (Stays l g) (track_leased t close id o g)
  unfolding track_leased holds_now
  leased-Ends t close id none g e v =
      enter-Ends (t 0) close id g g (other_lease g id none 0 v e refl) refl v
  leased-Ends t close id (some a) g e v =
      if-Ends (expired a (t 0).instant)
        (λ ended.
          let free : holds_now (some a) (t 0).instant ≡ false = ap not ended in
          let other = other_lease g id (some a) (t 0).instant v e free in
          enter-Ends (t 1) close id g _ other refl
            (held-at g _ (del_there identity_key id l.identity g.leases other) v))
        (λ _. unchanged _ g v)

  pub tracked-Ends :
      (t : ℕ → Moment) (close : Option ℕ) (o : Option Identity) (g : Guard)
      → IsHeld l g
      → Ends (Stays l g) (track_as t close o g)
  unfolding track_as note_coverage_failure
  tracked-Ends t close none g v = record { end = same-Stays g _ refl refl v }
  tracked-Ends t close (some id) g v = leased-Ends t close id _ g refl v

  pub installed-Ends :
      (t : ℕ → Moment) (m : Lease) (g : Guard)
      → identity_eq m.identity l.identity ≡ false
      → IsHeld l g
      → Ends (Stays l g) (installed t m g)
  unfolding installed
  installed-Ends t m g other v = record {
    end =
        stays g _
          (held-at g _ (put_there identity_key m.identity l.identity (activated t m) g.leases other)
            v)
          (omega arith);
  }

  pub fresh-Ends :
      (t : ℕ → Moment) (m : Lease) (e : Option GuardError) (g : Guard)
      → IsHeld l g
      → Ends (Stays l g) (apply_fresh t m e g)
  unfolding apply_fresh
  fresh-Ends t m (some e) g v = unchanged _ g v
  fresh-Ends t m none g v =
      if-Ends (not (is_bound m.identity g.bindings)) (λ _. unchanged _ g v)
        (λ _.
          if-Ends (holds_now (get identity_key m.identity g.leases) (t 1).instant)
            (λ _. unchanged _ g v)
            (λ free.
              if-Ends (leb 10000 (length g.seen)) (λ _. unchanged _ g v)
                (λ _.
                  installed-Ends t m g (other_lease g m.identity _ (t 1).instant v refl free) v)))

  pub applied-Ends :
      (t : ℕ → Moment) (m : Lease) (o : Option Lease) (g : Guard)
      → IsHeld l g
      → Ends (Stays l g) (apply_seen t m o g)
  unfolding apply_seen
  applied-Ends t m none g v = fresh-Ends t m _ g v
  applied-Ends t m (some old) g v = unchanged _ g v
