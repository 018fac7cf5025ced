-- ===== src/Guard/Registry/Holds.antt =====
-- A hold of one guard wins over all guards, and leaves no session behind.
use v2b_x.Base.{
  ℕ, ◌+◌, ◌%◌, ◌≤◌, ◌≡◌, ◌⊎◌, ap, refl, sym, subst, inl, inr, Bool, true, false, Option, none, some,
  List, [], ◌∷◌, Bytes, leb, if◌then◌else◌, length, Assoc, get, put, del, arith, Bool-cases,
}
use v2b_x.Base.Int.{word64}
use v2b_x.Transfer.Types.{Identity, identity_key}
use v2b_x.Guard.Types.{
  GuardError, isolated, unknown_identity, Outcome, done, refused, Lease, Moment, ActiveLease,
  SessionEntry, Guard, session_key, expired, note_coverage_failure, note_capacity_failure,
}
use v2b_x.Guard.Bindings.{identity_of}
use v2b_x.Guard.Sessions.{enter, track_leased, track_as, track, finish, count_sessions, outstanding}
use v2b_x.Guard.Run.Hold.{IsHeld, count_del}
use v2b_x.Guard.Run.Isolation.{track_held}
use v2b_x.Guard.Registry.{
  ScopedGuard, is_for, is_isolation, Passage, isolates, passes, and_session, unless_isolated,
  track_entry, track_each, answer, track_all,
}

count_del-put :
    (id : Identity) (n : ℕ) (s : SessionEntry) (m : Assoc ℕ SessionEntry)
    → count_sessions id (del session_key n (put session_key n s m)) ≤ count_sessions id m
unfolding count_sessions put del
count_del-put id n s [] = ground arith
count_del-put id n s ((j, x) ∷ m) =
    let ih = count_del-put id n s m in let d = count_del id n m in ground arith

-- No identity has more sessions.
abbrev pub NoMore : Guard → Guard → Type 0
NoMore g h = (id : Identity) → outstanding id h ≤ outstanding id g

-- A `Track` adds at most the session that it returns.
abbrev AddsOne : Guard → Outcome ℕ → Guard → Type 0
AddsOne g (done n) h = NoMore g (finish n h)
AddsOne g (refused e) h = NoMore g h

record Adds (g : Guard) (p : Outcome ℕ × Guard) : Type 0 where
  one : AddsOne g p.0 p.1

if-Adds :
    (g : Guard) (b : Bool) {p q : Outcome ℕ × Guard}
    → (b ≡ true → Adds g p)
    → (b ≡ false → Adds g q)
    → Adds g (if b then p else q)
if-Adds g true h k = h refl
if-Adds g false h k = k refl

refusing : (g h : Guard) (e : GuardError) → h.sessions ≡ g.sessions → Adds g (refused e, h)
unfolding outstanding
refusing g h e same = record { one = λ id. let s = ap (count_sessions id) same in omega (arith, s) }

enter-Adds :
    (at : Moment) (close : Option ℕ) (id : Identity) (g h : Guard)
    → h.sessions ≡ g.sessions
    → Adds g (enter at close id h)
unfolding enter note_capacity_failure finish outstanding
enter-Adds at close id g h same =
    let s : SessionEntry = record { identity = id; close = close } in
    if-Adds g (leb h.max_sessions (length h.sessions)) (λ _. refusing g _ _ same)
      (λ _. record {
        one = λ i.
            let e = ap (count_sessions i) same in
            let c = count_del-put i ((h.next + 1) % word64) s h.sessions in omega (arith, c, e);
      })

leased-Adds :
    (t : ℕ → Moment) (close : Option ℕ) (id : Identity) (o : Option ActiveLease) (g : Guard)
    → Adds g (track_leased t close id o g)
unfolding track_leased
leased-Adds t close id none g = enter-Adds (t 0) close id g g refl
leased-Adds t close id (some a) g =
    if-Adds g (expired a (t 0).instant) (λ _. enter-Adds (t 1) close id g _ refl)
      (λ _. refusing g g _ refl)

tracked-Adds :
    (t : ℕ → Moment) (close : Option ℕ) (o : Option Identity) (g : Guard)
    → Adds g (track_as t close o g)
unfolding track_as note_coverage_failure
tracked-Adds t close none g = refusing g _ _ refl
tracked-Adds t close (some id) g = leased-Adds t close id (get identity_key id g.leases) g

-- No guard of the group has more sessions of any identity.
abbrev pub NoneMore : List ScopedGuard → List ScopedGuard → Type 0
NoneMore [] [] = Unit
NoneMore [] (_ ∷ _) = ⊥
NoneMore (_ ∷ _) [] = ⊥
NoneMore (d ∷ before) (e ∷ after) = NoMore d.guard e.guard × NoneMore before after

NoneMore-refl : (group : List ScopedGuard) → NoneMore group group
NoneMore-refl [] = tt
NoneMore-refl (e ∷ rest) = ((λ id. omega arith), NoneMore-refl rest)

-- What is held has left no session behind.
record Rolls (group : List ScopedGuard) (r : Passage × List ScopedGuard) : Type 0 where
  back : r.0 ≡ isolates → NoneMore group r.1

if-Rolls :
    (group : List ScopedGuard) (b : Bool) {p q : Passage × List ScopedGuard}
    → Rolls group p
    → Rolls group q
    → Rolls group (if b then p else q)
if-Rolls group true h k = h
if-Rolls group false h k = k

isolates_both : (n : Option ℕ) (p : Passage) → and_session n p ≡ isolates → p ≡ isolates
isolates_both n isolates h = refl
isolates_both n (passes last sessions) h = absurd (cc)

entry-Rolls :
    (d : ScopedGuard) (o : Outcome ℕ) (g : Guard) (last : GuardError) (rest : List ScopedGuard)
    (later : GuardError → Passage × List ScopedGuard)
    → AddsOne d.guard o g
    → ((l : GuardError) → Rolls rest (later l))
    → Rolls (d ∷ rest) (track_entry o g d.tags last rest later)
unfolding track_entry
entry-Rolls d (done n) g last rest later a h = record {
  back = λ k.
      let held = isolates_both (some n) (later last).0 k in
      (subst (λ p. NoMore d.guard (unless_isolated n g p)) (sym held) a, (h last).back held);
}
entry-Rolls d (refused e) g last rest later a h =
    if-Rolls (d ∷ rest) (is_isolation e) (record { back = λ k. (a, NoneMore-refl rest) })
      (record { back = λ k. (a, (h e).back (isolates_both none (later e).0 k)) })

each-Rolls :
    (t : ℕ → Moment) (tag label : Bytes) (close : Option ℕ) (last : GuardError)
    (group : List ScopedGuard)
    → Rolls group (track_each t tag label close last group)
unfolding track_each track
each-Rolls t tag label close last [] = record { back = λ k. absurd (cc) }
each-Rolls t tag label close last (d ∷ rest) =
    let later = λ (l : GuardError). track_each t tag label close l rest in
    if-Rolls (d ∷ rest) (is_for tag d)
      (entry-Rolls d (track t tag label close d.guard).0 (track t tag label close d.guard).1 last
        rest later (tracked-Adds t close _ d.guard).one (λ l. each-Rolls t tag label close l rest))
      (record {
        back = λ k. (
          (λ id. omega arith),
          (each-Rolls t tag label close last rest).back (isolates_both none (later last).0 k),
        );
      })

-- A guard of the group that holds a lease of the flow's identity.
pub record HoldsFlow (tag label : Bytes) (d : ScopedGuard) : Type 0 where
  pub lease : Lease
  pub manual : lease.manual ≡ true
  pub held : IsHeld lease d.guard
  pub bound : identity_of tag label d.guard ≡ some lease.identity
  pub scope : is_for tag d ≡ true

abbrev pub HasHold : Bytes → Bytes → List ScopedGuard → Type 0
HasHold tag label [] = ⊥
HasHold tag label (d ∷ rest) = HoldsFlow tag label d ⊎ HasHold tag label rest

-- A guard before one that holds lets the loop go on, or isolates itself.
entry_held :
    (o : Outcome ℕ) (g : Guard) (tags : Option (List Bytes)) (last : GuardError)
    (rest : List ScopedGuard) (later : GuardError → Passage × List ScopedGuard)
    → ((l : GuardError) → (later l).0 ≡ isolates)
    → (track_entry o g tags last rest later).0 ≡ isolates
unfolding track_entry
entry_held (done n) g tags last rest later h = ap (and_session (some n)) (h last)
entry_held (refused e) g tags last rest later h = elim (Bool-cases (is_isolation e)) [
  | inl i ↦ rw i refl
  | inr i ↦ rw i (ap (and_session none) (h e))
]

each_held :
    (t : ℕ → Moment) (tag label : Bytes) (close : Option ℕ) (last : GuardError)
    (group : List ScopedGuard)
    → HasHold tag label group
    → (track_each t tag label close last group).0 ≡ isolates
unfolding track_each track_entry
each_held t tag label close last [] h = absurd h
each_held t tag label close last (d ∷ rest) (inl x) =
    let tracked = track_held x.lease x.manual t tag label close d.guard x.held x.bound in
    rw (x.scope, tracked) refl
each_held t tag label close last (d ∷ rest) (inr h) = elim (Bool-cases (is_for tag d)) [
  | inr s ↦ rw s (ap (and_session none) (each_held t tag label close last rest h))
  | inl s ↦
      let later = λ (l : GuardError). track_each t tag label close l rest in
      let tracked = track t tag label close d.guard in
      rw s (
        entry_held tracked.0 tracked.1 d.tags last rest later
          (λ l. each_held t tag label close l rest h))
]

-- Where some guard for the tag holds a manual lease of the flow's identity, `Track` refuses the flow
-- as isolated, and no guard of the group has more sessions of any identity than before.
pub hold_wins :
    (t : ℕ → Moment) (tag label : Bytes) (close : Option ℕ) (group : List ScopedGuard)
    → HasHold tag label group
    → ((track_all t tag label close group).0 ≡ refused isolated)
      × NoneMore group (track_all t tag label close group).1
unfolding track_all answer
hold_wins t tag label close group h =
    let held = each_held t tag label close unknown_identity group h in
    (ap answer held, (each-Rolls t tag label close unknown_identity group).back held)
