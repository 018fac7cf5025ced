-- ===== src/Guard/Registry.antt =====
-- The guards of a process (common/beupguard/registry.go): each has the tags that it is for. A group is
-- its list of guards, which are different ones; without a group nothing is done.
pub mod Holds
use v2b_x.Base.{
  ℕ, ◌≡◌, Bool, true, false, Option, none, some, List, [], ◌∷◌, Bytes, bytes_eq, if◌then◌else◌,
  Assoc,
}
use v2b_x.Base.Int.{ℤ}
use v2b_x.Transfer.Types.{Identity}
use v2b_x.Guard.Types.{
  GuardError, isolated, unknown_identity, Outcome, done, refused, Binding, binding_key, Moment,
  Guard, note_coverage_failure,
}
use v2b_x.Guard.Bindings.{bind, unbind, has_tag}
use v2b_x.Guard.Sessions.{track, finish}
use v2b_x.Guard.Authorization.{register_authorization}

-- `none` stands for all tags.
pub record ScopedGuard : Type 0 where
  pub guard : Guard
  pub tags : Option (List Bytes)

abbrev pub is_for : Bytes → ScopedGuard → Bool
is_for tag entry = elim entry.tags [ none ↦ true | some tags ↦ has_tag tag tags ]

abbrev pub scoped : Guard → Option (List Bytes) → ScopedGuard
scoped g tags = record { guard = g; tags = tags }

-- A change of all guards for a tag, as the loops over `guardsForTag` make it.
unfoldable pub for_tag : Bytes → (Guard → Guard) → List ScopedGuard → List ScopedGuard
for_tag tag f [] = []
for_tag tag f (e ∷ rest) =
    let more = for_tag tag f rest in
    if is_for tag e then scoped (f e.guard) e.tags ∷ more else e ∷ more

unfoldable pub bind_all :
    (Bytes → Bytes) → Bytes → Bytes → ℤ → Bytes → List ScopedGuard → List ScopedGuard
unfolding for_tag
bind_all sha256_hex tag label uid credential group =
    for_tag tag (bind sha256_hex tag label uid credential) group

unfoldable pub unbind_all : Bytes → Bytes → List ScopedGuard → List ScopedGuard
unfolding for_tag
unbind_all tag label group = for_tag tag (unbind tag label) group

-- The loop of `UnbindTag` over the bindings of a guard.
unfoldable pub unbind_each : Bytes → Assoc Binding Identity → Guard → Guard
unfolding unbind
unbind_each tag [] g = g
unbind_each tag ((b, _) ∷ rest) g =
    unbind_each tag rest (if bytes_eq b.tag tag then unbind b.tag b.label g else g)

unfoldable pub unbind_tag_all : Bytes → List ScopedGuard → List ScopedGuard
unfolding for_tag unbind_each
unbind_tag_all tag group = for_tag tag (λ g. unbind_each tag g.bindings g) group

unfoldable pub note_failure_all : Bytes → List ScopedGuard → List ScopedGuard
unfolding for_tag
note_failure_all tag group = for_tag tag note_coverage_failure group

unfoldable pub register_all : Bytes → Bytes → Bytes → List ScopedGuard → List ScopedGuard
unfolding for_tag
register_all tag label grant group = for_tag tag (register_authorization tag label grant) group

abbrev pub cleared : Guard → Guard
cleared g = record g { bindings = []; authorizations = []; authorization_use = [] }

unfoldable pub reset_bindings : List ScopedGuard → List ScopedGuard
reset_bindings [] = []
reset_bindings (e ∷ rest) = scoped (cleared e.guard) e.tags ∷ reset_bindings rest

abbrev pub is_isolation : GuardError → Bool
is_isolation isolated = true
is_isolation _ = false

-- The loop of `Track`: an isolation, or the last error and the session of each guard that has one.
pub data Passage : Type 0 where
  isolates : Passage
  passes : GuardError → List (Option ℕ) → Passage

abbrev pub and_session : Option ℕ → Passage → Passage
and_session n isolates = isolates
and_session n (passes last sessions) = passes last (n ∷ sessions)

-- A session that is open when a later guard isolates is finished.
abbrev pub unless_isolated : ℕ → Guard → Passage → Guard
unless_isolated n g isolates = finish n g
unless_isolated n g (passes _ _) = g

unfoldable pub track_entry :
    Outcome ℕ
    → Guard
    → Option (List Bytes)
    → GuardError
    → List ScopedGuard
    → (GuardError → Passage × List ScopedGuard)
    → Passage × List ScopedGuard
track_entry (done n) g tags last rest later =
    let r = later last in (and_session (some n) r.0, scoped (unless_isolated n g r.0) tags ∷ r.1)
track_entry (refused e) g tags last rest later =
    if is_isolation e
    then (isolates, scoped g tags ∷ rest)
    else (and_session none (later e).0, scoped g tags ∷ (later e).1)

unfoldable pub track_each :
    (ℕ → Moment)
    → Bytes
    → Bytes
    → Option ℕ
    → GuardError
    → List ScopedGuard
    → Passage × List ScopedGuard
unfolding track_entry
track_each t tag label close last [] = (passes last [], [])
track_each t tag label close last (e ∷ rest) =
    let tracked = track t tag label close e.guard in
    let later = λ (l : GuardError). track_each t tag label close l rest in
    let skipped = later last in
    if is_for tag e
    then track_entry tracked.0 tracked.1 e.tags last rest later
    else (and_session none skipped.0, e ∷ skipped.1)

abbrev pub no_session : List (Option ℕ) → Bool
no_session [] = true
no_session (none ∷ rest) = no_session rest
no_session (some _ ∷ rest) = false

unfoldable pub answer : Passage → Outcome (List (Option ℕ))
answer isolates = refused isolated
answer (passes last sessions) = if no_session sessions then refused last else done sessions

-- `Track`, with the sessions that its result finishes.
unfoldable pub track_all :
    (ℕ → Moment)
    → Bytes
    → Bytes
    → Option ℕ
    → List ScopedGuard
    → Outcome (List (Option ℕ)) × List ScopedGuard
unfolding track_each answer
track_all t tag label close group =
    let r = track_each t tag label close unknown_identity group in (answer r.0, r.1)
