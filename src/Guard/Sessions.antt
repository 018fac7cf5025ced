-- ===== src/Guard/Sessions.antt =====
-- `Track`, the completion that it returns, `Outstanding` and `NoteCoverageFailure` (guard.go). A
-- method that reads the clock takes its readings, in the order in which it makes them.
use v2b_x.Base.{
  ℕ, ◌+◌, ◌%◌, Option, none, some, [], ◌∷◌, Bytes, leb, if◌then◌else◌, length, Assoc, get, put, del,
}
use v2b_x.Base.Int.{ℤ, word64}
use v2b_x.Transfer.Types.{Identity, identity_eq, identity_key}
use v2b_x.Guard.Types.{
  isolated, unknown_identity, no_capacity, Outcome, done, refused, binding_key, Moment, ActiveLease,
  SessionEntry, Guard, session_key, expired, note_coverage_failure, note_capacity_failure,
}

-- A use of a grant is dated.
unfoldable pub dated : Identity → ℤ → Option ℤ → Assoc Identity ℤ → Assoc Identity ℤ
dated id at none use_ = use_
dated id at (some _) use_ = put identity_key id at use_

-- The flow is registered, if there is room. The result is the number of its session.
unfoldable pub enter : Moment → Option ℕ → Identity → Guard → Outcome ℕ × Guard
unfolding dated note_capacity_failure
enter at close id g =
    let n = (g.next + 1) % word64 in
    if leb g.max_sessions (length g.sessions)
    then (refused no_capacity, note_capacity_failure g)
    else (
      done n,
      record g {
        next = n;
        sessions = put session_key n (record { identity = id; close = close }) g.sessions;
        authorization_use =
            dated id at.unix (get identity_key id g.authorization_use) g.authorization_use;
      },
    )

-- A lease of the identity refuses the flow, unless it has expired.
unfoldable pub track_leased :
    (ℕ → Moment) → Option ℕ → Identity → Option ActiveLease → Guard → Outcome ℕ × Guard
unfolding enter
track_leased t close id none g = enter (t 0) close id g
track_leased t close id (some l) g =
    if expired l (t 0).instant
    then enter (t 1) close id (record g { leases = del identity_key id g.leases })
    else (refused isolated, g)

unfoldable pub track_as : (ℕ → Moment) → Option ℕ → Option Identity → Guard → Outcome ℕ × Guard
unfolding track_leased note_coverage_failure
track_as t close none g = (refused unknown_identity, note_coverage_failure g)
track_as t close (some id) g = track_leased t close id (get identity_key id g.leases) g

unfoldable pub track : (ℕ → Moment) → Bytes → Bytes → Option ℕ → Guard → Outcome ℕ × Guard
unfolding track_as
track t tag label close g =
    track_as t close (get binding_key (record { tag = tag; label = label }) g.bindings) g

-- The completion that `Track` returns for the session `n`. `once` lets it act one time.
unfoldable pub finish : ℕ → Guard → Guard
finish n g = record g { sessions = del session_key n g.sessions }

-- The sessions of an identity.
unfoldable pub count_sessions : Identity → Assoc ℕ SessionEntry → ℕ
count_sessions id [] = 0
count_sessions id ((n, s) ∷ rest) =
    (if identity_eq s.identity id then 1 else 0) + count_sessions id rest

unfoldable pub outstanding : Identity → Guard → ℕ
unfolding count_sessions
outstanding id g = count_sessions id g.sessions
