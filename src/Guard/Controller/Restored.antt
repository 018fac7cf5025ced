-- ===== src/Guard/Controller/Restored.antt =====
-- The overlay that `OpenController` makes of the pending records.
use v2b_x.Base.{
  ℕ, suc, ◌+◌, ◌≤◌, ◌≡◌, refl, ap, ◌∙◌, subst, inl, inr, Bool, true, false, not, ◌&&◌, none, some,
  [], ◌∷◌, Bytes, bytes_eq, bytes_eq_iff, arith, Assoc, get, put, Bool-cases, if◌then◌else◌, All,
  IsKeyed, put_here, put_there, get-put,
}
use v2b_x.Base.Int.{pos, pos_part, ltb_ℤ, leb_ℤ}
use v2b_x.Transfer.Types.{Identity, identity_eq, identity_eq_iff, identity_key, bytes_key}
use v2b_x.Guard.Types.{Moment, Lease, ActiveLease}
use v2b_x.Guard.Controller.Types.{
  BootStamp, Entry, Marks, marked, is_some, Reply, gives, Codec, and_then,
}
use v2b_x.Guard.Controller.Records.{lease_of}
use v2b_x.Guard.Controller.Open.{remaining, restore_one, restore, Overlay}
use v2b_x.Guard.Controller.Follow.{Stands, waits, lasts, runs}
use v2b_x.Guard.Controller.Results.{
  Results, fails-Results, gives-Results, if-Results, and_then-Results,
}
use v2b_x.Guard.Controller.Scanned.{Sits}

module _ (boot_id : Bytes) where
  -- The turn of the loop: the record stands in the overlay, which keeps what it had.
  pub record One (at : ℕ) (i : Identity) (r : Entry) (l : Lease) (o u : Overlay) : Type 0 where
    pub stands : Stands boot_id at u.0 u.1 i r l
    pub others :
        (j : Identity) → identity_eq i j ≡ false → get identity_key j u.0 ≡ get identity_key j o.0
    pub marks : (id : Bytes) → marked id o.1 ≡ true → marked id u.1 ≡ true

  marked-put_mark :
      (m : Marks) (id j : Bytes) → marked j m ≡ true → marked j (put bytes_key id tt m) ≡ true
  marked-put_mark m id j h = elim (Bool-cases (bytes_eq id j)) [
    | inl b ↦ ap is_some (get-put bytes_key id j tt m) ∙ rw b refl
    | inr b ↦ ap is_some (get-put bytes_key id j tt m) ∙ rw b h
  ]

  pub restore_one-One :
      (x : Codec) (node key : Bytes) (stamp : BootStamp) (m t : Moment) (seen : Assoc Bytes Lease)
      (i : Identity) (r : Entry) (o : Overlay)
      → stamp.id ≡ boot_id
      → m.instant ≤ t.instant
      → Sits x node key seen i r
      → Results
          (One m.instant i r (lease_of x node key r) o)
          (restore_one stamp t i r (lease_of x node key r) o)
  unfolding restore_one
  restore_one-One x node key stamp m t seen i r o reads le_t sits =
      let l = lease_of x node key r in
      if-Results l.manual
        (λ man. gives-Results _ (record {
          stands = lasts man (record {
            active = record { lease = l; deadline = 0 };
            found = put_here identity_key i (record { lease = l; deadline = 0 }) o.0;
            same = refl;
          });
          others = λ j n. put_there identity_key i j (record { lease = l; deadline = 0 }) o.0 n;
          marks = λ id h. h;
        }))
        (λ man.
          if-Results (not (bytes_eq r.boot.id stamp.id))
            (λ other. gives-Results _ (record {
              stands = waits (ap is_some (put_here bytes_key l.id tt o.1));
              others = λ j n. refl;
              marks = λ id h. marked-put_mark o.1 l.id id h;
            }))
            (λ same_boot.
              if-Results (ltb_ℤ stamp.nanos r.boot.nanos) (λ _. fails-Results _)
                (λ fwd.
                  let same : r.boot.id ≡ boot_id =
                    (bytes_eq_iff r.boot.id stamp.id).0 (ground arith) ∙ reads in
                  if-Results (leb_ℤ (remaining l r stamp) (pos 0))
                    (λ over.
                      gives-Results _ (record {
                        stands = runs man same;
                        others = λ j n. refl;
                        marks = λ id h. h;
                      }))
                    (λ some_left.
                      let entry : ActiveLease = record {
                        lease = l;
                        deadline = t.instant + pos_part (remaining l r stamp);
                      } in
                      gives-Results _ (record {
                        stands = runs man same;
                        others = λ j n. put_there identity_key i j entry o.0 n;
                        marks = λ id h. h;
                      })))))

  -- The loop: each of its records stands in the overlay.
  pub record Restored (x : Codec) (node key : Bytes) (at : ℕ) (pending : Assoc Identity Entry)
      (o u : Overlay) : Type 0 where
    pub stand :
        (i : Identity) (r : Entry)
        → get identity_key i pending ≡ some r
        → Stands boot_id at u.0 u.1 i r (lease_of x node key r)
    pub outside :
        (i : Identity)
        → get identity_key i pending ≡ none
        → get identity_key i u.0 ≡ get identity_key i o.0
    pub keeps : (id : Bytes) → marked id o.1 ≡ true → marked id u.1 ≡ true

  -- A record stands in what the rest of the loop makes of the overlay.
  Stands-rest :
      (at : ℕ) (o u : Overlay) (i : Identity) (r : Entry) (l : Lease)
      → get identity_key i u.0 ≡ get identity_key i o.0
      → ((id : Bytes) → marked id o.1 ≡ true → marked id u.1 ≡ true)
      → Stands boot_id at o.0 o.1 i r l
      → Stands boot_id at u.0 u.1 i r l
  Stands-rest at o u i r l e k (waits w) = waits (k l.id w)
  Stands-rest at o u i r l e k (lasts m h) =
      lasts m (record { active = h.active; found = e ∙ h.found; same = h.same })
  Stands-rest at o u i r l e k (runs man b) = runs man b

  join_rest :
      (x : Codec) (node key : Bytes) (at : ℕ) (i : Identity) (r : Entry)
      (rest : Assoc Identity Entry) (o u v : Overlay)
      → get identity_key i rest ≡ none
      → One at i r (lease_of x node key r) o u
      → Restored x node key at rest u v
      → Restored x node key at ((i, r) ∷ rest) o v
  unfolding get
  join_rest x node key at i r rest o u v new one all_ = record {
    stand = λ j q h. elim (Bool-cases (identity_eq i j)) [
      | inl b ↦
          let g : some r ≡ some q = rw b at h in
          let same : r ≡ q = cc in
          let e = (identity_eq_iff i j).0 b in
          subst (λ q. Stands boot_id at v.0 v.1 j q (lease_of x node key q)) same
            (subst (λ j. Stands boot_id at v.0 v.1 j r (lease_of x node key r)) e
              (Stands-rest at u v i r (lease_of x node key r) (all_.outside i new) all_.keeps
                one.stands))
      | inr b ↦ let g : get identity_key j rest ≡ some q = rw b at h in all_.stand j q g
    ];
    outside = λ j h. elim (Bool-cases (identity_eq i j)) [
      | inl b ↦ let g : some r ≡ none = rw b at h in absurd (cc)
      | inr b ↦
          let g : get identity_key j rest ≡ none = rw b at h in all_.outside j g ∙ one.others j b
    ];
    keeps = λ id h. all_.keeps id (one.marks id h);
  }

  pub restore-Restored :
      (x : Codec) (node key : Bytes) (stamp : BootStamp) (m : Moment) (t : ℕ → Moment) (k : ℕ)
      (seen : Assoc Bytes Lease) (pending : Assoc Identity Entry) (o : Overlay)
      → stamp.id ≡ boot_id
      → ((k : ℕ) → m.instant ≤ (t k).instant)
      → IsKeyed identity_key pending
      → All (λ p. Sits x node key seen p.0 p.1) pending
      → Results (Restored x node key m.instant pending o) (restore x node key stamp t k pending o)
  unfolding restore get
  restore-Restored x node key stamp m t k seen [] o reads le keyed sits =
      gives-Results o
        (record { stand = λ i r h. absurd (cc); outside = λ i h. refl; keeps = λ id h. h })
  restore-Restored x node key stamp m t k seen ((i, r) ∷ rest) o reads le keyed sits =
      and_then-Results (restore_one stamp (t k) i r (lease_of x node key r) o)
        (restore x node key stamp t (suc k) rest)
        (restore_one-One x node key stamp m (t k) seen i r o reads (le k) sits.0)
        (λ u one. record {
          holds = λ v h. join_rest x node key m.instant i r rest o u v keyed.0 one (
              (restore-Restored x node key stamp m t (suc k) seen rest u reads le keyed.1
                  sits.1).holds
                v h);
        })

-- There is a result.
pub record Gives {A : Type 0} (r : Reply A) : Type 0 where
  pub value : A
  pub eq : r ≡ gives value

given : {A : Type 0} (a : A) → Gives (gives a)
given a = record { value = a; eq = refl }

if-Gives :
    {A : Type 0} (b : Bool) {r s : Reply A}
    → (b ≡ true → Gives r)
    → (b ≡ false → Gives s)
    → Gives (if b then r else s)
if-Gives true h k = h refl
if-Gives false h k = k refl

-- The loop fails only where the boot clock has gone back.
restore_one-Gives :
    (stamp : BootStamp) (t : Moment) (i : Identity) (r : Entry) (l : Lease) (o : Overlay)
    → (bytes_eq r.boot.id stamp.id && ltb_ℤ stamp.nanos r.boot.nanos) ≡ false
    → Gives (restore_one stamp t i r l o)
unfolding restore_one
restore_one-Gives stamp t i r l o h =
    if-Gives l.manual (λ _. given _)
      (λ _.
        if-Gives (not (bytes_eq r.boot.id stamp.id)) (λ _. given _)
          (λ same.
            if-Gives (ltb_ℤ stamp.nanos r.boot.nanos) (λ back. absurd (ground arith))
              (λ _. if-Gives (leb_ℤ (remaining l r stamp) (pos 0)) (λ _. given _) (λ _. given _))))

pub restore-Gives :
    (x : Codec) (node key : Bytes) (stamp : BootStamp) (t : ℕ → Moment) (k : ℕ)
    (pending : Assoc Identity Entry) (o : Overlay)
    → All (λ p. (bytes_eq p.1.boot.id stamp.id && ltb_ℤ stamp.nanos p.1.boot.nanos) ≡ false) pending
    → Gives (restore x node key stamp t k pending o)
unfolding restore
restore-Gives x node key stamp t k [] o h = given o
restore-Gives x node key stamp t k ((i, r) ∷ rest) o h =
    let one = restore_one-Gives stamp (t k) i r (lease_of x node key r) o h.0 in
    let others = restore-Gives x node key stamp t (suc k) rest one.value h.1 in
    record {
      value = others.value;
      eq = ap (λ z. and_then z (restore x node key stamp t (suc k) rest)) one.eq ∙ others.eq;
    }
