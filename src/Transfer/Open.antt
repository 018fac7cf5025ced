-- ===== src/Transfer/Open.antt =====
-- `Open` and its checks (outbox.go), with `validateCounterSession` (counter_session.go) and
-- `drainRecord.validate` (drain.go): which journals an outbox takes up.
pub mod Legacy
pub mod Recovery
use v2b_x.Base.{
  ℕ, suc, ◌+◌, ◌%◌, ◌≡◌, Bool, true, false, ◌&&◌, ◌||◌, not, Option, none, some, List, [], ◌∷◌, ltb,
  leb, ◌==◌, all, if◌then◌else◌, Bytes, bytes_eq, length, Assoc,
}
use v2b_x.Base.Int.{ℤ, pos, ltb_ℤ, leb_ℤ, eqb_ℤ, word64}
use v2b_x.Text.{valid_hex}
use v2b_x.Transfer.Types.{
  epoch, invalid_scope, oversized_journal, invalid_journal, trailing_data, scope_mismatch,
  invalid_last_ack, missing_ack, pending_mismatch, invalid_drain, invalid_proof, external, Result,
  ok, err, Sample, sample_eq, Batch, Ack, PendingBatch, DrainRequest, request_eq, DrainProof,
  DrainRecord, UncleanRecovery, SessionRecord, Journal,
}
use v2b_x.Transfer.Types
use v2b_x.Transfer.Samples.{samples}
use v2b_x.Transfer.Delta.{delta}
use v2b_x.Transfer.Env.{
  Env, Decoded, Outbox, State, Action, ◌>>=◌, ◌>>◌, return, fail, pure, guard, box_of,
}
use v2b_x.Transfer.Outbox.{save, batch_of, max_sequence, max_journal}
use v2b_x.Transfer.Reservation.{valid_request, validate_reservations, max_drains}
use v2b_x.Transfer.Session.{is_some, rows_eq}

-- A byte of `[a-zA-Z0-9_-]`.
abbrev pub is_word : ℕ → Bool
is_word c =
    (leb b'a' c && leb c b'z')
    || (leb b'A' c && leb c b'Z')
    || (leb b'0' c && leb c b'9')
    || c == b'_'
    || c == b'-'

-- `scopePattern.MatchString`, ^[a-zA-Z0-9_-]{1,64}$
unfoldable pub matches_scope : Bytes → Bool
matches_scope s = leb 1 (length s) && leb (length s) 64 && all is_word s

unfoldable pub valid_recovery : Option UncleanRecovery → Bool
valid_recovery none = true
valid_recovery (some r) = not (
    r.count == 0
    || ltb max_sequence r.count
    || leb_ℤ r.since (pos 0)
    || not (valid_hex r.previous_process 16))

abbrev pub then_check : {A : Type 0} → Result A → Result (Unit {0}) → Result (Unit {0})
then_check (ok a) r = r
then_check (err e) r = err e

-- An error of the kind is replaced by ErrEpoch.
abbrev pub or_epoch : {A : Type 0} → Result A → Result (Unit {0})
or_epoch (ok a) = ok tt
or_epoch (err e) = err epoch

abbrev pub check : Bool → Types.Error → Result (Unit {0})
check true e = ok tt
check false e = err e

unfoldable pub validate_counter_session : Decoded → Result (Unit {0})
unfolding valid_recovery
validate_counter_session d = elim d.journal.session [
  | none ↦ ok tt
  | some r ↦ then_check (check (valid_hex r.process 16 && d.has_base) epoch) (
      then_check (samples r.base) (
        then_check (or_epoch (delta r.base d.journal.committed)) (
          then_check (check (valid_recovery r.recovery) epoch) (
            check
              (not (r.sealed && (is_some d.journal.pending || not (is_some d.journal.last_ack))))
              epoch))))
]

unfoldable pub valid_last_ack : Bytes → Bytes → ℕ → Ack → Bool
valid_last_ack scope current next a =
    bytes_eq a.scope scope
    && bytes_eq a.epoch current
    && (a.sequence + 1) % word64 == next
    && valid_hex a.digest 32

-- The two tests on `LastAck`.
unfoldable pub check_last_ack : Bytes → Bytes → Journal → Result (Unit {0})
unfolding valid_last_ack
check_last_ack scope current j = elim j.last_ack [
  | some a ↦ check (valid_last_ack scope current j.next a) invalid_last_ack
  | none ↦ check (j.next == 1 && length j.committed == 0) missing_ack
]

-- The JSON texts of two batches are equal.
unfoldable pub batch_eq : Batch → Batch → Bool
batch_eq a b =
    eqb_ℤ a.version b.version
    && bytes_eq a.scope b.scope
    && bytes_eq a.epoch b.epoch
    && a.sequence == b.sequence
    && rows_eq a.entries b.entries
    && bytes_eq a.digest b.digest

unfoldable pub valid_proof : Journal → DrainRequest → DrainProof → Bool
valid_proof j r p =
    request_eq p.request r
    && bytes_eq p.scope j.scope
    && bytes_eq p.epoch j.epoch
    && bytes_eq p.receipt.scope j.scope
    && bytes_eq p.receipt.epoch j.epoch
    && ltb p.receipt.sequence j.next
    && not (p.receipt.sequence == 0)
    && valid_hex p.receipt.digest 32
    && eqb_ℤ p.final.uid r.identity.uid
    && bytes_eq p.final.credential r.identity.credential
    && not (ltb_ℤ p.final.upload (pos 0))
    && not (ltb_ℤ p.final.download (pos 0))

-- `drainRecord.validate`
unfoldable pub validate_drain : Journal → Bytes → DrainRecord → Result (Unit {0})
unfolding valid_proof
validate_drain j id d =
    then_check (check (bytes_eq id d.request.id && valid_request d.request) invalid_drain)
      (elim d.proof [ none ↦ ok tt | some p ↦ check (valid_proof j d.request p) invalid_proof ])

unfoldable pub validate_drains : Journal → Assoc Bytes DrainRecord → Result (Unit {0})
unfolding validate_drain
validate_drains j [] = ok tt
validate_drains j ((id, d) ∷ rest) = then_check (validate_drain j id d) (validate_drains j rest)

-- The rows that grew, as `Open` computes them again.
abbrev pub regrown : List Sample → Result (List Sample) → Result (List Sample)
regrown committed (ok through) = delta committed through
regrown committed (err e) = err e

abbrev pub loaded : {W T : Type 0} → State W → Option T → Result T × State W
loaded s (some t) = (ok t, s)
loaded s none = (err external, s)

abbrev pub decoded : Option Decoded → Result Decoded
decoded (some d) = ok d
decoded none = err invalid_journal

module _ {W T : Type 0} (env : Env W T) where
  unfoldable pub matches_batch : Journal → Bool → Batch → Result (List Sample) → Result (Unit {0})
  unfolding batch_eq
  matches_batch j has_entries b (err e) = err e
  matches_batch j has_entries b (ok entries) =
      check (has_entries && batch_eq b (batch_of env j entries)) pending_mismatch

  -- The pending batch of the journal is the one that its counters give.
  unfoldable pub check_pending : Journal → Bool → Option PendingBatch → Result (Unit {0})
  unfolding matches_batch
  check_pending j has_entries none = ok tt
  check_pending j has_entries (some p) =
      matches_batch j has_entries p.batch (regrown j.committed (samples p.through))

  -- The checks of `Open` on a decoded journal, in their order.
  unfoldable pub validate : Bytes → Bytes → Decoded → Result (Unit {0})
  unfolding validate_counter_session check_last_ack check_pending validate_drains
  validate scope current d =
      let j = d.journal in
      then_check (check (not d.trailing) trailing_data) (
        then_check
          (check
            (eqb_ℤ j.version (pos 1)
              && bytes_eq j.scope scope
              && not (j.next == 0)
              && leb j.next max_sequence
              && d.has_drains
              && leb (length j.drains) max_drains)
            scope_mismatch)
          (then_check (validate_counter_session d) (
            then_check (validate_reservations j) (
              then_check (check (bytes_eq j.epoch current) epoch) (
                then_check (samples j.committed) (
                  then_check (check_last_ack scope current j) (
                    then_check (check_pending j d.has_entries j.pending)
                      (validate_drains j j.drains))))))))

  unfoldable pub first_journal : Bytes → Bytes → Journal
  first_journal scope current = record {
    version = pos 1;
    scope = scope;
    epoch = current;
    next = 1;
    committed = [];
    pending = none;
    last_ack = none;
    drains = [];
    reservations = [];
    session = none;
  }

  -- `Store.Load` as an action.
  abbrev pub load : Action W T
  load s = loaded s (env.load s.world)

  -- `o.state = s`
  abbrev pub adopt : Journal → Action W (Unit {0})
  adopt j s = (ok tt, record s { box = record s.box { state = j } })

  unfoldable pub take_up : Bytes → Bytes → T → Action W (Unit {0})
  unfolding validate
  take_up scope current text = do
    guard (leb (env.size text) max_journal) oversized_journal
    d ← pure (decoded (env.unmarshal text))
    pure (validate scope current d)
    adopt d.journal

  -- `Open` on a new outbox.
  unfoldable pub open_box : Bytes → Bytes → Action W (Unit {0})
  unfolding first_journal take_up
  open_box scope current = do
    guard (matches_scope scope && valid_hex current 16) invalid_scope
    text ← load
    if env.size text == 0
        then save env (first_journal scope current)
        else take_up scope current text

  -- The zero `Outbox` in a world.
  abbrev pub blank : W → State W
  blank w = record {
    box = record { state = first_journal [] []; poisoned = false; legacy = false };
    world = w;
  }
