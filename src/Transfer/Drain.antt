-- ===== src/Transfer/Drain.antt =====
-- `RestoreFences` and `Drain` (drain.go): a migration hold that is durable before a disconnect, and
-- its proof that the final counters were booked.
pub mod Rules
pub mod Rows
pub mod Safety
pub mod Proofs
use v2b_x.Base.{
  ℕ, ◌+◌, ◌≡◌, Bool, true, false, ◌&&◌, ◌||◌, not, Option, none, some, List, [], ◌∷◌, ltb, leb,
  ◌==◌, length, if◌then◌else◌, Bytes, bytes_eq, Assoc, get, put, del,
}
use v2b_x.Base.Int.{ℤ, pos, ltb_ℤ, eqb_ℤ}
use v2b_x.Transfer.Types.{
  Error, nil_pointer, epoch, uncertain, pending, coverage, replay_mismatch, final_missing, Result,
  ok, err, Sample, sample_eq, Ack, Identity, identity_eq, DrainRequest, request_eq, FenceStatus,
  DrainProof, DrainRecord, Journal, bytes_key,
}
use v2b_x.Transfer.Samples.{contains_final}
use v2b_x.Transfer.Env.{
  Env, Outbox, State, Action, ◌>>=◌, ◌>>◌, return, fail, pure, guard, box_of, call, ask,
}
use v2b_x.Transfer.Outbox.{save, flush}
use v2b_x.Transfer.Reservation.{valid_request, can_reserve, drain_identities}

-- The row of an identity, `none` where there is none.
unfoldable pub find_row : ℤ → Bytes → List Sample → Option Sample
find_row uid credential [] = none
find_row uid credential (s ∷ rest) =
    if eqb_ℤ s.uid uid && bytes_eq s.credential credential
    then some s
    else find_row uid credential rest

-- The first inspection of `Drain`: `none` lets it go on.
unfoldable pub status_error : Bytes → Identity → FenceStatus → Option Error
status_error current i st =
    if not (bytes_eq st.epoch current)
    then some epoch
    else if not (identity_eq st.identity i)
        || not st.tracking_ready
        || ltb_ℤ st.bindings (pos 1)
        || ltb_ℤ st.outstanding (pos 0)
    then some coverage
    else if not st.reject_new || not (eqb_ℤ st.outstanding (pos 0))
    then some pending
    else none

-- The second inspection, behind the round trip to the receiver.
unfoldable pub still_drained : Bytes → Identity → FenceStatus → Bool
still_drained current i st = not (
    not (bytes_eq st.epoch current)
    || not (identity_eq st.identity i)
    || not st.tracking_ready
    || ltb_ℤ st.bindings (pos 1)
    || not st.reject_new
    || not (eqb_ℤ st.outstanding (pos 0)))

-- `stable`: the row of the final counter in the check is that counter.
unfoldable pub is_stable : List Sample → Sample → Bool
unfolding find_row
is_stable check final = elim (find_row final.uid final.credential check) [
  | none ↦ false
  | some row ↦ sample_eq row final
]

-- A missing value is an error.
abbrev pub require : {A : Type 0} {W : Type 0} → Option A → Error → Action W A
require (some a) e s = (ok a, s)
require none e s = (err e, s)

abbrev pub accept : {W : Type 0} → Option Error → Action W (Unit {0})
accept none s = (ok tt, s)
accept (some e) s = (err e, s)

-- The journal with a new hold, and with its proof.
unfoldable pub held_journal : Journal → DrainRequest → Journal
held_journal j r = record j {
  drains = put bytes_key r.id (record { request = r; proof = none }) j.drains;
  reservations = del bytes_key r.id j.reservations;
}

unfoldable pub proved_journal : Journal → DrainRequest → DrainProof → Journal
proved_journal j r p = record j {
  drains = put bytes_key r.id (record { request = r; proof = some p }) j.drains;
}

module _ {W T : Type 0} (env : Env W T) where
  unfoldable pub fence_all : List Identity → Action W (Unit {0})
  fence_all [] = return tt
  fence_all (i ∷ rest) = do call (env.fence i); fence_all rest

  -- A new hold is saved before a disconnect can occur; an old one has to be the same request.
  unfoldable pub hold : Journal → Option DrainRecord → DrainRequest → Action W (Option DrainProof)
  unfolding held_journal
  hold j (some d) r = do guard (request_eq d.request r) replay_mismatch; return d.proof
  hold j none r = do _ ← pure (can_reserve j r); save env (held_journal j r); return none

  -- The drain has a proof: it stands if the counters still show its final row.
  unfoldable pub confirm : DrainProof → Action W DrainProof
  confirm p = do
    current ← ask env.snapshot
    guard (contains_final current p.final) pending
    return p

  -- The first proof: flush, look again, and save.
  unfoldable pub prove : DrainRequest → Action W DrainProof
  unfolding proved_journal
  prove r = do
    totals ← ask env.snapshot
    final ← require (find_row r.identity.uid r.identity.credential totals) final_missing
    delivered ← flush env totals
    box ← box_of
    st ← ask (env.inspect r.identity)
    guard (still_drained box.state.epoch r.identity st) pending
    check ← ask env.snapshot
    guard (is_stable check final) pending
    ack ← require delivered nil_pointer
    let proof : DrainProof = record {
      request = r;
      scope = box.state.scope;
      epoch = box.state.epoch;
      final = final;
      receipt = ack;
    }
    save env (proved_journal box.state r proof)
    return proof

  -- The end of `Drain`: with a stored proof, and without.
  unfoldable pub conclude : Option DrainProof → DrainRequest → Action W DrainProof
  unfolding confirm prove
  conclude (some p) r = confirm p
  conclude none r = prove r

  unfoldable pub drain : DrainRequest → Action W DrainProof
  unfolding hold
  drain r = do
    box ← box_of
    guard (not box.poisoned) uncertain
    guard (valid_request r) coverage
    known ← hold box.state (get bytes_key r.id box.state.drains) r
    call (env.fence r.identity)
    st ← ask (env.inspect r.identity)
    box ← box_of
    accept (status_error box.state.epoch r.identity st)
    conclude known r

  unfoldable pub restore_fences : Action W (Unit {0})
  unfolding fence_all
  restore_fences = do
    box ← box_of
    guard (not box.poisoned) uncertain
    fence_all (drain_identities box.state.drains)
