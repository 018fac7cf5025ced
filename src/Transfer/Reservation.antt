-- ===== src/Transfer/Reservation.antt =====
-- reservation.go, and `validRequest` of drain.go: the promised drain slots.
use v2b_x.Base.{
  ℕ, ◌+◌, Bool, ◌&&◌, ◌||◌, not, Option, none, some, List, [], ◌∷◌, ltb, leb, any, length,
  if◌then◌else◌, Bytes, bytes_eq, Assoc, get, put,
}
use v2b_x.Base.Int.{pos, ltb_ℤ}
use v2b_x.Text.{valid_hex}
use v2b_x.Transfer.Types.{
  uncertain, coverage, Result, ok, err, Identity, identity_eq, DrainRequest, request_eq,
  DrainRecord, Journal, bytes_key,
}
use v2b_x.Transfer.Env.{Env, Action, ◌>>=◌, ◌>>◌, pure, guard, box_of}
use v2b_x.Transfer.Outbox.{save}

abbrev pub max_drains : ℕ
max_drains = 1000

unfoldable pub valid_request : DrainRequest → Bool
valid_request r =
    valid_hex r.id 16 && ltb_ℤ (pos 0) r.identity.uid && valid_hex r.identity.credential 32

-- The map `seen` as the list of its keys.
abbrev pub has_identity : Identity → List Identity → Bool
has_identity i = any (identity_eq i)

-- The two loops of `validateReservations`; `none` is ErrCoverage.
unfoldable pub see_drains : List Identity → Assoc Bytes DrainRecord → Option (List Identity)
see_drains seen [] = some seen
see_drains seen ((_, d) ∷ rest) =
    let more = see_drains (d.request.identity ∷ seen) rest in
    if has_identity d.request.identity seen then none else more

unfoldable pub see_reservations :
    List Identity → Assoc Bytes DrainRecord → Assoc Bytes DrainRequest → Option (List Identity)
see_reservations seen drains [] = some seen
see_reservations seen drains ((id, r) ∷ rest) =
    let more = see_reservations (r.identity ∷ seen) drains rest in
    if not (valid_request r) || not (bytes_eq id r.id) || has_identity r.identity seen
    then none
    else elim (get bytes_key id drains) [ none ↦ more | some _ ↦ none ]

unfoldable pub validate_reservations : Journal → Result (Unit {0})
unfolding see_drains see_reservations
validate_reservations j =
    if ltb max_drains (length j.drains + length j.reservations)
    then err coverage
    else elim (see_drains [] j.drains) [
      | none ↦ err coverage
      | some seen ↦ elim (see_reservations seen j.drains j.reservations) [
        | none ↦ err coverage
        | some _ ↦ ok tt
      ]
    ]

abbrev pub drain_identities : Assoc Bytes DrainRecord → List Identity
drain_identities [] = []
drain_identities ((_, d) ∷ rest) = d.request.identity ∷ drain_identities rest

abbrev pub reserved_identities : Assoc Bytes DrainRequest → List Identity
reserved_identities [] = []
reserved_identities ((_, r) ∷ rest) = r.identity ∷ reserved_identities rest

-- The part of `canReserve` behind the two maps: a new request.
unfoldable pub has_room : Journal → DrainRequest → Result (Unit {0})
has_room j r =
    if leb max_drains (length j.drains + length j.reservations)
    then err coverage
    else if has_identity r.identity (drain_identities j.drains)
    then err coverage
    else if has_identity r.identity (reserved_identities j.reservations)
    then err coverage
    else ok tt

unfoldable pub can_reserve : Journal → DrainRequest → Result (Unit {0})
unfolding has_room
can_reserve j r =
    if not (valid_request r) then err coverage else elim (get bytes_key r.id j.drains) [
      | some old ↦ if request_eq old.request r then ok tt else err coverage
      | none ↦ elim (get bytes_key r.id j.reservations) [
        | some old ↦ if request_eq old r then ok tt else err coverage
        | none ↦ has_room j r
      ]
    ]

-- The journal that `probeReady` saves.
unfoldable pub reserved : Journal → DrainRequest → Journal
reserved j r = elim (get bytes_key r.id j.drains) [
  | some _ ↦ j
  | none ↦ record j { reservations = put bytes_key r.id r j.reservations }
]

module _ {W T : Type 0} (env : Env W T) where
  unfoldable pub probe_ready : DrainRequest → Action W (Unit {0})
  probe_ready r = do
    box ← box_of
    guard (not box.poisoned) uncertain
    _ ← pure (can_reserve box.state r)
    save env (reserved box.state r)
