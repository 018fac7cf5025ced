-- ===== src/Guard/Controller/Execute.antt =====
-- `Execute` (controller.go).
use v2b_x.Base.{
  ℕ, suc, ◌-◌, Bool, true, false, ◌&&◌, ◌||◌, not, Option, none, some, List, [], ◌∷◌, ◌++◌,
  bytes_eq, ◌==◌, leb, if◌then◌else◌, length, Assoc, get, put, del,
}
use v2b_x.Base.Int.{pos, ltb_ℤ, leb_ℤ, sub64}
use v2b_x.Transfer.Types.{Identity, identity_key, bytes_key}
use v2b_x.Guard.Types.{GuardError, Moment, Lease, ActiveLease, Guard, add_seconds}
use v2b_x.Guard.Bindings.{tracking_ready}
use v2b_x.Guard.Leases.{lease_error, holds_now, closes_of, is_bound}
use v2b_x.Guard.Controller.Types.{
  Command, Envelope, BootStamp, Entry, Journal, is_some, marked, Controller, Acknowledgement,
  ControlError, Reply, gives, fails, Codec, Operation, block, release, cancel, needs_recovery,
  rejected, conflicting, boot_unavailable, out_of_order, clock_rollback, needs_reconciliation,
  lease_refused, not_bound, id_used, still_isolated, incomplete_tracking, history_full, not_unseen,
  not_the_lease, released_already, commit_uncertain, index_out_of_range,
}
use v2b_x.Guard.Controller.Envelope.{operation_of, verify_envelope, envelope_digest}
use v2b_x.Guard.Controller.Ack.{ack}
use v2b_x.Guard.Controller.Records.{max_ℤ, is_block, bad_stamp, behind, same_lease}

abbrev pub nth : {A : Type 0} → ℕ → List A → Option A
nth n [] = none
nth ℕ.zero (a ∷ as_) = some a
nth (suc n) (a ∷ as_) = nth n as_

abbrev pub last : {A : Type 0} → List A → Option A
last [] = none
last (a ∷ []) = some a
last (a ∷ b ∷ rest) = last (b ∷ rest)

abbrev pub bound_error : Bool → Option ControlError
bound_error true = none
bound_error false = some not_bound

abbrev pub block_lease_error : Option GuardError → Bool → Option ControlError
block_lease_error (some e) bound = some lease_refused
block_lease_error none bound = bound_error bound

-- Each check of the source overwrites the error of the ones before it, so the last goes first.
unfoldable pub block_error : Moment → Lease → Guard → Option ControlError
block_error now l g =
    if leb 4096 (length g.seen)
    then some history_full
    else if not (tracking_ready g)
    then some incomplete_tracking
    else if holds_now (get identity_key l.identity g.leases) now.instant
    then some still_isolated
    else if is_some (get bytes_key l.id g.seen)
    then some id_used
    else block_lease_error (lease_error l now.unix) (is_bound l.identity g.bindings)

abbrev pub cancel_error : Lease → Controller → Option ControlError
cancel_error l c =
    if is_some (get bytes_key l.id c.guard.seen) || leb 4096 (length c.guard.seen)
    then some not_unseen
    else none

abbrev pub release_error : Lease → Controller → Option ControlError
release_error l c =
    if marked l.id c.released
    then some released_already
    else if not (same_lease l (get bytes_key l.id c.guard.seen))
    then some not_the_lease
    else none

unfoldable pub command_error : Moment → Option Operation → Lease → Controller → Option ControlError
unfolding block_error
command_error now (some cancel) l c = cancel_error l c
command_error now (some release) l c = release_error l c
command_error now none l c = release_error l c
command_error now (some block) l c =
    if not (length c.reconcile == 0) then some needs_reconciliation else block_error now l c.guard

abbrev pub drop_lease :
    Lease → Option ActiveLease → Assoc Identity ActiveLease → Assoc Identity ActiveLease
drop_lease l none leases = leases
drop_lease l (some old) leases =
    if bytes_eq old.lease.id l.id then del identity_key l.identity leases else leases

-- A temporary lease ends with the seconds that are left of it at the moment of its acceptance.
unfoldable pub imposed : Moment → Lease → ActiveLease
imposed now l = record {
  lease = l;
  deadline = if l.manual then 0 else add_seconds now.instant (sub64 l.expires_at now.unix);
}

-- The effect of a command that is in the journal, and the callbacks that end its sessions.
unfoldable pub release_effect : Lease → Controller → List (Option ℕ) × Controller
release_effect l c = (
  [],
  record c {
    released = put bytes_key l.id tt c.released;
    reconcile = del bytes_key l.id c.reconcile;
    guard = record c.guard {
      leases = drop_lease l (get identity_key l.identity c.guard.leases) c.guard.leases;
    };
  },
)

unfoldable pub effect :
    Moment → Option Operation → Lease → Controller → List (Option ℕ) × Controller
unfolding imposed closes_of release_effect
effect now (some cancel) l c = (
  [],
  record c {
    guard = record c.guard { seen = put bytes_key l.id l c.guard.seen };
    released = put bytes_key l.id tt c.released;
    cancelled = put bytes_key l.id tt c.cancelled;
  },
)
effect now (some release) l c = release_effect l c
effect now none l c = release_effect l c
effect now (some block) l c = (
  closes_of l.identity c.guard.sessions,
  record c {
    guard = record c.guard {
      seen = put bytes_key l.id l c.guard.seen;
      leases = put identity_key l.identity (imposed now l) c.guard.leases;
    };
  },
)

-- What a call finds around it: its readings of the two clocks, whether the store commits, and what
-- the callbacks do to the guard before the state is read for the acknowledgement.
pub record Turn : Type 0 where
  pub clock : ℕ → Moment
  pub boot : Option BootStamp
  pub saves : ℕ → Journal → Bool
  pub called : List (Option ℕ) → Guard → Guard

unfoldable pub journal_with : Envelope → Moment → BootStamp → Controller → Journal
journal_with e now stamp c = record {
  version = pos 1;
  node = c.node;
  records = c.journal.records ++ record { envelope = e; accepted_at = now.unix; boot = stamp } ∷ [];
}

-- The controller behind the commit of a journal.
unfoldable pub committed : Moment → Journal → Controller → Controller
committed now next c = record c { journal = next; last_wall = max_ℤ c.last_wall now.unix }

unfoldable pub settled :
    Turn → Command → List (Option ℕ) × Controller → Reply Acknowledgement × Controller
unfolding ack
settled t cmd (closes, c) =
    let d = record c { guard = t.called closes c.guard } in
    (gives (ack (t.clock 1).instant cmd d), d)

unfoldable pub accept :
    Turn
    → Envelope
    → Command
    → BootStamp
    → Option ControlError
    → Controller
    → Reply Acknowledgement × Controller
unfolding journal_with committed effect settled
accept t e cmd stamp (some f) c = (fails f, c)
accept t e cmd stamp none c =
    let now = t.clock 0 in
    let next = journal_with e now stamp c in
    if not (t.saves (length c.journal.records) next)
    then (fails commit_uncertain, record c { poisoned = true })
    else settled t cmd (effect now (operation_of cmd.operation) cmd.lease (committed now next c))

-- The clocks went back behind the last record.
unfoldable pub rolled_back : Moment → BootStamp → Command → Option Entry → Controller → Bool
rolled_back now stamp cmd none c = false
rolled_back now stamp cmd (some prev) c =
    (is_block (operation_of cmd.operation) && ltb_ℤ now.unix c.last_wall) || behind stamp prev.boot

unfoldable pub execute_at :
    Turn → Envelope → Command → Option BootStamp → Controller → Reply Acknowledgement × Controller
unfolding rolled_back command_error accept
execute_at t e cmd none c = (fails boot_unavailable, c)
execute_at t e cmd (some stamp) c =
    let now = t.clock 0 in
    if bad_stamp stamp
    then (fails boot_unavailable, c)
    else if not (cmd.sequence == suc (length c.journal.records))
        || ltb_ℤ now.unix (sub64 cmd.issued_at (pos 5))
        || leb_ℤ cmd.not_after now.unix
    then (fails out_of_order, c)
    else if rolled_back now stamp cmd (last c.journal.records) c
    then (fails clock_rollback, c)
    else accept t e cmd stamp (command_error now (operation_of cmd.operation) cmd.lease c) c

-- A sequence number of the journal: the current state, if the envelope is that of the record.
unfoldable pub replay_command :
    Codec → Turn → Envelope → Command → Option Entry → Controller → Reply Acknowledgement
unfolding envelope_digest ack
replay_command x t e cmd none c = fails index_out_of_range
replay_command x t e cmd (some r) c =
    if not (bytes_eq (envelope_digest x r.envelope) (envelope_digest x e))
    then fails conflicting
    else gives (ack (t.clock 0).instant cmd c)

unfoldable pub execute_command :
    Codec → Turn → Envelope → Option Command → Controller → Reply Acknowledgement × Controller
unfolding replay_command execute_at
execute_command x t e none c = (fails rejected, c)
execute_command x t e (some cmd) c =
    if leb cmd.sequence (length c.journal.records)
    then (replay_command x t e cmd (nth (cmd.sequence - 1) c.journal.records) c, c)
    else execute_at t e cmd t.boot c

unfoldable pub execute : Codec → Turn → Envelope → Controller → Reply Acknowledgement × Controller
unfolding execute_command
execute x t e c =
    if c.poisoned
    then (fails needs_recovery, c)
    else execute_command x t e (verify_envelope x c.node c.key e) c
