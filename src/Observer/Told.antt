-- ===== src/Observer/Told.antt =====
-- What a closed window tells of, and the changes of the identities, in the counts of an observer.
use v2b_x.Base.{
  ℕ, ◌+◌, ◌%◌, ◌≡◌, Bool, ◌&&◌, ◌||◌, not, Option, none, some, List, [], ◌∷◌, Bytes, bytes_eq, ◌==◌,
  ltb, leb, length, arith, Bool-cases, inl, inr, Assoc, get,
}
use v2b_x.Base.Int.{ℤ, pos, leb_ℤ, word64}
use v2b_x.Transfer.Types.{bytes_key}
use v2b_x.Guard.Run.Rules.{if-holds}
use v2b_x.Observer.Types.{AuthRef, Observer}
use v2b_x.Observer.Record.{is_there}
use v2b_x.Observer.Registry.{
  bind, bind_ref, bind_subject, unbind, unbind_refs, unbind_tag, reset_windows, replace_registry,
  refer, same_ref,
}
use v2b_x.Observer.Events.{
  drain_pending, Closed, over_minute, quality_of, following, close_window, snapshot,
}
use v2b_x.Observer.Total.{total}
use v2b_x.Observer.Accounted.{Adds, drain-Adds}

-- What a closed window tells of: the events of its accounts, its losses and what it could not map.
abbrev pub told : Option Closed → ℕ
told none = 0
told (some c) = c.reported.accepted + c.quality.dropped_requests + c.quality.unmapped_requests

-- What a snapshot tells leaves the observer.
pub record Tells (o : Observer) (p : Option Closed × Observer) : Type 0 where
  pub balance : (total p.1 + told p.0) % word64 ≡ total o % word64

idle-Tells : (o q : Observer) → Adds 0 o q → Tells o (none, q)
idle-Tells o q a = let x = a.sum in record { balance = omega (arith, x) }

close-Tells :
    (end_ : ℤ) (o q : Observer)
    → Adds 0 o q
    → Tells o (some (close_window end_ q).0, (close_window end_ q).1)
unfolding close_window quality_of following
close-Tells end_ o q a =
    let x = a.sum in
    elim (Bool-cases (over_minute end_ q)) [
      | inl b ↦ record { balance = rw b (omega (arith, x)) }
      | inr b ↦ record { balance = rw b (omega (arith, x)) }
    ]

pub snapshot-Tells :
    (lock_free : Bool) (end_ : ℤ) (o : Observer) → Tells o (snapshot lock_free end_ o)
unfolding snapshot
snapshot-Tells lock_free end_ o =
    if-holds (Tells o) (leb_ℤ end_ o.window_start) _ _
      (idle-Tells o _ (
        if-holds (Adds 0 o) (not (length o.pending == 0) && lock_free) _ _ (drain-Adds 512 o)
          (record { sum = omega arith })))
      (if-holds (Tells o) (leb_ℤ end_ o.start) _ _ (idle-Tells o o (record { sum = omega arith }))
        (close-Tells end_ o (drain_pending 512 o) (drain-Adds 512 o)))

-- A change of the registry drops what is in the windows, and counts it.
pub replace-Adds :
    (revision : Bytes) (registry : Option (Bytes → ℤ → Bytes)) (o : Observer)
    → Adds 0 o (replace_registry revision registry o).1
unfolding replace_registry reset_windows
replace-Adds revision none o = record { sum = omega arith }
replace-Adds revision (some registry) o = record { sum = omega arith }

unbind_refs-Adds :
    (tag : Bytes) (refs : Assoc Bytes AuthRef) (o p : Observer)
    → Adds 0 o p
    → Adds 0 o (unbind_refs tag refs p)
unfolding unbind_refs
unbind_refs-Adds tag [] o p h = h
unbind_refs-Adds tag ((key, ref) ∷ rest) o p h =
    unbind_refs-Adds tag rest o _
      (if-holds (Adds 0 o) (bytes_eq ref.tag tag) _ _ (record { sum = h.sum }) h)

pub unbind_tag-Adds : (tag : Bytes) (o : Observer) → Adds 0 o (unbind_tag tag o)
unfolding unbind_tag
unbind_tag-Adds tag o = unbind_refs-Adds tag o.auth_refs o _ (record { sum = omega arith })

pub unbind-Adds :
    (digest : Bytes → Bytes → Bytes) (tag label : Bytes) (o : Observer)
    → Adds 0 o (unbind digest tag label o)
unfolding unbind
unbind-Adds digest tag label o = record { sum = omega arith }

-- A binding changes no count.
record Bound (o : Observer) (p : Bool × Observer) : Type 0 where
  bound : Adds 0 o p.1

subject-Bound :
    (key subject : Bytes) (o p : Observer) → Adds 0 o p → Bound o (bind_subject key subject p)
unfolding bind_subject
subject-Bound key subject o p h =
    if-holds (Bound o) (length subject == 0) _ _ (record { bound = record { sum = h.sum } })
      (if-holds (Bound o)
        (leb 50000 (length p.bindings) && not (is_there (get bytes_key key p.bindings))) _ _
        (record { bound = h }) (record { bound = record { sum = h.sum } }))

refer-Adds : (key : Bytes) (ref : AuthRef) (o : Observer) → Adds 0 o (refer key ref o)
refer-Adds key ref o = elim (Bool-cases (not (same_ref ref (get bytes_key key o.auth_refs)))) [
  | inl b ↦ rw b (record { sum = omega arith })
  | inr b ↦ rw b (record { sum = omega arith })
]

ref-Bound : (key : Bytes) (ref : AuthRef) (o : Observer) → Bound o (bind_ref key ref o)
unfolding bind_ref
ref-Bound key ref o =
    if-holds (Bound o)
      (leb 50000 (length o.auth_refs) && not (is_there (get bytes_key key o.auth_refs))) _ _
      (record { bound = record { sum = omega arith } })
      (subject-Bound key (o.registry ref.tag ref.uid) o (refer key ref o) (refer-Adds key ref o))

bind-Bound :
    (digest : Bytes → Bytes → Bytes) (sha256_hex : Bytes → Bytes) (tag label : Bytes) (uid : ℤ)
    (credential : List Bytes) (o : Observer)
    → Bound o (bind digest sha256_hex tag label uid credential o)
unfolding bind
bind-Bound digest sha256_hex tag label uid credential o =
    if-holds (Bound o)
      (length label == 0
        || ltb 1024 (length label)
        || length tag == 0
        || ltb 512 (length tag)
        || leb_ℤ uid (pos 0))
      _ _ (record { bound = record { sum = omega arith } }) (ref-Bound _ _ o)

pub bind-Adds :
    (digest : Bytes → Bytes → Bytes) (sha256_hex : Bytes → Bytes) (tag label : Bytes) (uid : ℤ)
    (credential : List Bytes) (o : Observer)
    → Adds 0 o (bind digest sha256_hex tag label uid credential o).1
bind-Adds digest sha256_hex tag label uid credential o =
    (bind-Bound digest sha256_hex tag label uid credential o).bound
