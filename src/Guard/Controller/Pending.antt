-- ===== src/Guard/Controller/Pending.antt =====
-- The pending records through the effects of a command, of time and of the guard's other methods.
use v2b_x.Base.{
  ℕ, ◌≤◌, ◌≡◌, refl, sym, ap, ◌∙◌, ◌⊎◌, inl, inr, true, false, not, Option, none, some, Bytes,
  bytes_eq, bytes_eq_iff, arith, Assoc, get, put, del, put_here, put_there, del_there, Bool-cases,
}
use v2b_x.Base.Int.{ltb_ℤ, sub64}
use v2b_x.Transfer.Types.{Identity, identity_eq, identity_eq_iff, identity_key, bytes_key}
use v2b_x.Guard.Types.{Moment, Lease, ActiveLease, Guard, expired}
use v2b_x.Guard.Leases.{holds_now}
use v2b_x.Guard.Controller.Types.{Entry, Marks, marked, is_some, Codec, seconds}
use v2b_x.Guard.Controller.Records.{lease_of, overlaps}
use v2b_x.Guard.Controller.Execute.{drop_lease, imposed}
use v2b_x.Guard.Controller.Follow.{Held, Stands, waits, lasts, runs}

-- A guard whose other methods ran: what it holds is kept, but for leases that have run out.
pub record Serves (at : ℕ) (g h : Guard) : Type 0 where
  pub seen_eq : h.seen ≡ g.seen
  pub keeps :
      (i : Identity) (a : ActiveLease)
      → get identity_key i g.leases ≡ some a
      → (get identity_key i h.leases ≡ some a) ⊎ (expired a at ≡ true)

-- A lease has run out that is temporary and has reached its deadline.
expired_parts :
    (a : ActiveLease) (t : ℕ) → expired a t ≡ true → (a.lease.manual ≡ false) × (a.deadline ≤ t)
unfolding expired
expired_parts a t h = (ground arith, ground arith)

-- The time of an old temporary record is over for a record of the same boot, by the boot clock.
abbrev pub IsOver : Codec → Bytes → Bytes → Entry → Entry → Type 0
IsOver x node key old r =
    (lease_of x node key old).manual ≡ false
    → old.boot.id ≡ r.boot.id
    → ltb_ℤ (sub64 r.boot.nanos old.boot.nanos)
        (seconds (sub64 (lease_of x node key old).expires_at old.accepted_at))
      ≡ false

not_overlapping :
    (x : Codec) (node key : Bytes) (old r : Entry)
    → (lease_of x node key old).manual ≡ false
    → old.boot.id ≡ r.boot.id
    → ltb_ℤ
        (sub64 r.boot.nanos old.boot.nanos)
        (seconds (sub64 (lease_of x node key old).expires_at old.accepted_at))
      ≡ false
    → overlaps x node key (some old) r ≡ false
unfolding overlaps
not_overlapping x node key old r man same q =
    let e = (bytes_eq_iff old.boot.id r.boot.id).1 same in rw (man, e, q) refl

abbrev Held-put :
    (leases : Assoc Identity ActiveLease) (i j : Identity) (a : ActiveLease) (l : Lease)
    → identity_eq j i ≡ false
    → Held leases i l
    → Held (put identity_key j a leases) i l
Held-put leases i j a l n k = record {
  active = k.active;
  found = put_there identity_key j i a leases n ∙ k.found;
  same = k.same;
}

bytes_neq : (a b : Bytes) → bytes_eq a b ≡ false → bytes_eq b a ≡ false
bytes_neq a b n = elim (Bool-cases (bytes_eq b a)) [
  | inr e ↦ e
  | inl e ↦ let y = (bytes_eq_iff a b).1 (sym ((bytes_eq_iff b a).0 e)) in absurd (cc)
]

same_found :
    (i j : Identity) (leases : Assoc Identity ActiveLease) (a b : ActiveLease)
    → get identity_key i leases ≡ some a
    → get identity_key j leases ≡ some b
    → bytes_eq a.lease.id b.lease.id ≡ false
    → identity_eq j i ≡ false
same_found i j leases a b f g n = elim (Bool-cases (identity_eq j i)) [
  | inr e ↦ e
  | inl e ↦
      let y = ap (λ k. get identity_key k leases) ((identity_eq_iff j i).0 e) in
      let z : b ≡ a = cc in
      let w = (bytes_eq_iff a.lease.id b.lease.id).1 (ap (λ l. l.lease.id) (sym z)) in absurd (cc)
]

drop_found :
    (g : Guard) (i : Identity) (rel : Lease) (o : Option ActiveLease) (a : ActiveLease)
    → get identity_key rel.identity g.leases ≡ o
    → get identity_key i g.leases ≡ some a
    → bytes_eq a.lease.id rel.id ≡ false
    → get identity_key i (drop_lease rel o g.leases) ≡ some a
drop_found g i rel none a h f n = f
drop_found g i rel (some old) a h f n = elim (Bool-cases (bytes_eq old.lease.id rel.id)) [
  | inr b ↦ rw b f
  | inl b ↦
      let e : rel.id ≡ old.lease.id = sym ((bytes_eq_iff old.lease.id rel.id).0 b) in
      let n2 : bytes_eq a.lease.id old.lease.id ≡ false = rw e at n in
      let d = same_found i rel.identity g.leases a old f h n2 in
      rw b (del_there identity_key rel.identity i g.leases d ∙ f)
]

abbrev Held-drop :
    (g : Guard) (i : Identity) (l rel : Lease)
    → bytes_eq l.id rel.id ≡ false
    → Held g.leases i l
    → Held (drop_lease rel (get identity_key rel.identity g.leases) g.leases) i l
Held-drop g i l rel n k = record {
  active = k.active;
  found =
      drop_found g i rel (get identity_key rel.identity g.leases) k.active refl k.found
        (sym (ap (λ a. bytes_eq a.id rel.id) (sym k.same)) ∙ n);
  same = k.same;
}

module _ (boot_id : Bytes) where
  pub Stands-later :
      (at to : ℕ) (leases : Assoc Identity ActiveLease) (marks : Marks) (i : Identity) (r : Entry)
      (l : Lease)
      → at ≤ to
      → Stands boot_id at leases marks i r l
      → Stands boot_id to leases marks i r l
  Stands-later at to leases marks i r l h (waits w) = waits w
  Stands-later at to leases marks i r l h (lasts m k) = lasts m k
  Stands-later at to leases marks i r l h (runs m b) = runs m b

  pub Stands-served :
      (at : ℕ) (g h : Guard) (marks : Marks) (i : Identity) (r : Entry) (l : Lease)
      → Serves at g h
      → Stands boot_id at g.leases marks i r l
      → Stands boot_id at h.leases marks i r l
  Stands-served at g h marks i r l s (waits w) = waits w
  Stands-served at g h marks i r l s (lasts m k) = elim (s.keeps i k.active k.found) [
    | inl e ↦ lasts m (record { active = k.active; found = e; same = k.same })
    | inr e ↦
        let z = (expired_parts k.active at e).0 in let y = ap (λ l. l.manual) k.same in absurd (cc)
  ]
  Stands-served at g h marks i r l s (runs m b) = runs m b

  -- A pending record that does not wait for a release, of an identity that nothing holds now, does
  -- not overlap with a record of this moment, where its time by the boot clock is over too.
  pub Stands-overlaps :
      (x : Codec) (node key : Bytes) (at : ℕ) (leases : Assoc Identity ActiveLease) (marks : Marks)
      (i : Identity) (old r : Entry) (m : Moment)
      → Stands boot_id at leases marks i old (lease_of x node key old)
      → marked (lease_of x node key old).id marks ≡ false
      → holds_now (get identity_key i leases) m.instant ≡ false
      → r.boot.id ≡ boot_id
      → IsOver x node key old r
      → overlaps x node key (some old) r ≡ false
  unfolding holds_now expired
  Stands-overlaps x node key at leases marks i old r m (waits w) nw nh b over = absurd (cc)
  Stands-overlaps x node key at leases marks i old r m (lasts man k) nw nh b over =
      let e : not (expired k.active m.instant) ≡ false =
        sym (ap (λ o. holds_now o m.instant) k.found) ∙ nh in
      let lasting : k.active.lease.manual ≡ true = ap (λ l. l.manual) k.same ∙ man in
      absurd (ground arith)
  Stands-overlaps x node key at leases marks i old r m (runs man same) nw nh b over =
      not_overlapping x node key old r man (same ∙ sym b) (over man (same ∙ sym b))

  -- A lease is taken up: the record of it stands as its own entry.
  pub Stands-imposed :
      (m : Moment) (leases : Assoc Identity ActiveLease) (marks : Marks) (r : Entry) (l : Lease)
      → r.boot.id ≡ boot_id
      → Stands boot_id m.instant
          (put identity_key l.identity (imposed m l) leases)
          marks
          l.identity
          r
          l
  unfolding imposed
  Stands-imposed m leases marks r l b = elim (Bool-cases l.manual) [
    | inl man ↦ lasts man (record {
      active = imposed m l;
      found = put_here identity_key l.identity (imposed m l) leases;
      same = refl;
    })
    | inr man ↦ runs man b
  ]

  -- A lease of another identity does not matter.
  pub Stands-put :
      (at : ℕ) (leases : Assoc Identity ActiveLease) (marks : Marks) (i j : Identity)
      (a : ActiveLease) (r : Entry) (l : Lease)
      → identity_eq j i ≡ false
      → Stands boot_id at leases marks i r l
      → Stands boot_id at (put identity_key j a leases) marks i r l
  Stands-put at leases marks i j a r l n (waits w) = waits w
  Stands-put at leases marks i j a r l n (lasts m k) = lasts m (Held-put leases i j a l n k)
  Stands-put at leases marks i j a r l n (runs m b) = runs m b

  -- The release of another lease does not matter.
  pub Stands-released :
      (at : ℕ) (g : Guard) (marks : Marks) (i : Identity) (r : Entry) (l rel : Lease)
      → bytes_eq l.id rel.id ≡ false
      → Stands boot_id at g.leases marks i r l
      → Stands boot_id at
          (drop_lease rel (get identity_key rel.identity g.leases) g.leases)
          (del bytes_key rel.id marks)
          i
          r
          l
  Stands-released at g marks i r l rel n (waits w) =
      waits (ap is_some (del_there bytes_key rel.id l.id marks (bytes_neq l.id rel.id n)) ∙ w)
  Stands-released at g marks i r l rel n (lasts m k) = lasts m (Held-drop g i l rel n k)
  Stands-released at g marks i r l rel n (runs m b) = runs m b
