-- ===== src/Examples/Controls.antt =====
-- A controller that blocks an account and releases it, and the theorems about it at this run.
use v2b_x.Base.{
  ap, sym, All, ℕ, zero, suc, ◌≤◌, ◌≡◌, refl, subst, inl, Bool, true, false, Option, none, some,
  List, [], ◌∷◌, Bytes, bytes_eq, if◌then◌else◌, arith, leb, get, put, del, length,
}
use v2b_x.Base.Int.{pos, pos_part, max_int64, add64, sub64}
use v2b_x.Text.{codes, hex_decode, from_hex_digit}
use v2b_x.Transfer.Types.{Identity, identity_key}
use v2b_x.Guard.Types.{Lease, Moment, new_guard, expired}
use v2b_x.Guard.Bindings.{bind, unbind, credential_digest, tracking_ready}
use v2b_x.Guard.Sessions.{count_sessions}
use v2b_x.Guard.Leases.{lease_error, holds_now, closes_of}
use v2b_x.Guard.Run.{Call, step}
use v2b_x.Guard.Controller.Types.{
  Command, block, release, Envelope, BootStamp, Journal, Controller, gives, Codec, seconds,
}
use v2b_x.Guard.Controller.Envelope.{
  operation_of, well_formed, in_time, admissible, admitted, decode_signed, verify_envelope,
  envelope_digest,
}
use v2b_x.Guard.Controller.Records.{
  fresh_scan, breaks_order, scan_cancel, lease_of, drop_pending, scan_release, overlaps, scan_block,
  scan_as, stamped, scan_command, scan_record, scan,
}
use v2b_x.Guard.Controller.Open.{
  open_controller, open_journal, open_stamp, open_scan, restore, restore_one, remaining, take_over,
}
use v2b_x.Guard.Controller.Ack.{ack, ack_leased}
use v2b_x.Guard.Controller.Execute.{
  Turn, execute, execute_command, execute_at, accept, settled, committed, journal_with, effect,
  release_effect, imposed, command_error, block_error, rolled_back, replay_command,
}
use v2b_x.Guard.Controller.Verified.{Decodes}
use v2b_x.Guard.Controller.Steps.{Timely, Clocked}
use v2b_x.Guard.Controller.Reopen.{IsBehind, Reopens}
use v2b_x.Guard.Controller.Lifetime.{IsClocked, Event, commands, serves, live, live-open_controller}
use v2b_x.Guard.Controller.Once.{IsSeen, Refuses, live-execute}
use v2b_x.Examples.Outbox.{alice}

abbrev times : ℕ → Bytes
times zero = []
times (suc n) = 48 ∷ times n

abbrev digest : Bytes → Bytes
digest s = alice

abbrev user : Identity
user = record { uid = pos 1; credential = alice }

abbrev tag : Bytes
tag = codes "beup"

abbrev hold : Lease
hold = record {
  id = codes "0123456789abcdef0123456789abcdef";
  identity = user;
  started_at = pos 100;
  expires_at = pos 700;
  manual = false;
}

abbrev block_command : Command
block_command = record {
  version = pos 1;
  node = codes "n";
  sequence = 1;
  issued_at = pos 100;
  not_after = pos 150;
  operation = codes "block";
  lease = hold;
}

abbrev release_command : Command
release_command = record block_command { sequence = 2; operation = codes "release" }

abbrev decode : Bytes → Option Command
decode p =
    if bytes_eq p (codes "1")
    then some block_command
    else if bytes_eq p (codes "2")
    then some release_command
    else none

abbrev codec : Codec
codec = record {
  base64 = λ s. some s;
  signed_by = λ key m sig. true;
  decode_strict = decode;
  sha256 = λ s. s;
}

in_range :
    (a b : Bool) (c : Command)
    → (if a then some block_command else if b then some release_command else none) ≡ some c
    → (pos_part c.not_after ≤ max_int64) × (pos_part c.lease.expires_at ≤ max_int64)
in_range true b c h =
    let same : block_command ≡ c = cc in
    subst (λ c. (pos_part c.not_after ≤ max_int64) × (pos_part c.lease.expires_at ≤ max_int64)) same
      (omega arith, omega arith)
in_range false true c h =
    let same : release_command ≡ c = cc in
    subst (λ c. (pos_part c.not_after ≤ max_int64) × (pos_part c.lease.expires_at ≤ max_int64)) same
      (omega arith, omega arith)
in_range false false c h = absurd (cc)

codec-Decodes : Decodes codec
codec-Decodes p c h = in_range (bytes_eq p (codes "1")) (bytes_eq p (codes "2")) c h

abbrev moment : Moment
moment = record { instant = 100000000000; unix = pos 100 }

abbrev stamp : BootStamp
stamp = record { id = codes "boot"; nanos = pos 100000000000 }

abbrev turn : Turn
turn = record { clock = λ _. moment; boot = some stamp; saves = λ _ _. true; called = λ _ g. g }

turn-Timely : Timely 100000000000 turn
turn-Timely = record {
  later = omega arith;
  serves = λ closes g. record { seen_eq = refl; keeps = λ i a h. inl h };
}

abbrev envelope : Bytes → Envelope
envelope p = record { payload = p; signature = times 128 }

abbrev events : List Event
events =
    serves 100000000000 (Call.binds tag (codes "u1") (pos 1) (codes "secret"))
    ∷ commands turn (envelope (codes "1"))
    ∷ commands turn (envelope (codes "2"))
    ∷ []

abbrev first : Journal
first = record { version = pos 1; node = codes "n"; records = [] }

abbrev started : Controller
started = record {
  guard = new_guard (pos 4);
  node = codes "n";
  key = times 32;
  journal = first;
  poisoned = false;
  last_wall = pos 0;
  released = [];
  reconcile = [];
  cancelled = [];
}

controls_run : Unit {0}
unfolding live execute execute_command execute_at accept settled committed journal_with effect
    release_effect imposed command_error block_error ack ack_leased rolled_back replay_command
    verify_envelope envelope_digest operation_of well_formed in_time admissible admitted
    decode_signed breaks_order scan_cancel lease_of drop_pending scan_release overlaps scan_block
    scan_as stamped scan_command scan_record scan open_controller open_journal open_stamp open_scan
    restore restore_one remaining take_over seconds step bind unbind credential_digest lease_error
    holds_now closes_of expired get put del bytes_eq hex_decode from_hex_digit add64 sub64
    count_sessions tracking_ready
controls_run = tt

opened :
    open_controller codec
      (codes "n")
      (times 32)
      (some first)
      (some stamp)
      (λ _. moment)
      (new_guard (pos 4))
    ≡ gives started
unfolding controls_run
opened = refl

-- Both commands are in the journal, and the lease is released.
two_records : length (live digest codec events started).journal.records ≡ 2
unfolding controls_run
two_records = refl

abbrev after : BootStamp
after = record { id = codes "other"; nanos = pos 5 }

All-IsBehind : All (IsBehind after) (live digest codec events started).journal.records
unfolding controls_run
All-IsBehind = (refl, (refl, tt))

boots_here : (s : BootStamp) → turn.boot ≡ some s → s.id ≡ codes "boot"
boots_here s h = let same : stamp ≡ s = cc in sym (ap (λ s. s.id) same)

-- The journal is empty where the block arrives; the second command is a release.
first-Clocked : Clocked codec (codes "boot") turn (envelope (codes "1")) (
    live digest codec
      (serves 100000000000 (Call.binds tag (codes "u1") (pos 1) (codes "secret")) ∷ [])
      started)
unfolding controls_run
first-Clocked = record {
  boots = boots_here;
  after_epoch = refl;
  over = λ s cmd b old scanned ver op seq boot gone h.
      let e : fresh_scan ≡ s = cc in
      let nothing : get identity_key cmd.lease.identity s.pending ≡ none = rw (← e) refl in
      absurd (cc);
}

second-Clocked : Clocked codec (codes "boot") turn (envelope (codes "2")) (
    live digest codec
      (serves 100000000000 (Call.binds tag (codes "u1") (pos 1) (codes "secret"))
        ∷ commands turn (envelope (codes "1"))
        ∷ [])
      started)
unfolding controls_run
second-Clocked = record {
  boots = boots_here;
  after_epoch = refl;
  over = λ s cmd b old scanned ver op seq boot gone h.
      let e : release_command ≡ cmd = cc in
      let other : operation_of cmd.operation ≡ some release = rw (← e) refl in absurd (cc);
}

clocked : IsClocked digest codec (codes "boot") events started
unfolding controls_run
clocked = (first-Clocked, (second-Clocked, tt))

live-open_controller_example :
    let d = live digest codec events started in
    Reopens d (
      open_controller codec d.node d.key
        (some d.journal)
        (some after)
        (λ _. moment)
        (new_guard (pos 1)))
live-open_controller_example =
    live-open_controller digest codec (codes "n") (times 32) moment (some first) stamp (λ _. moment)
      (new_guard (pos 4)) started events after (λ _. moment) (new_guard (pos 1)) codec-Decodes
      (λ k. omega arith) opened (omega arith, tt, (turn-Timely, (turn-Timely, tt))) clocked refl
      All-IsBehind refl

-- A second block with the id of the first one.
abbrev second_command : Command
second_command = record block_command { sequence = 2 }

abbrev again : Codec
again = record codec {
  decode_strict = λ p. if bytes_eq p (codes "1") then some block_command else some second_command;
}

abbrev blocking : List Event
blocking =
    serves 100000000000 (Call.binds tag (codes "u1") (pos 1) (codes "secret"))
    ∷ commands turn (envelope (codes "1"))
    ∷ []

abbrev blocked : Controller
blocked = live digest again blocking started

abbrev unbinding : List Event
unbinding = serves 100000000000 (Call.unbinds tag (codes "u1")) ∷ []

blocked-IsSeen : IsSeen hold.id blocked
unfolding controls_run
blocked-IsSeen = refl

second_verified :
    verify_envelope again
      (live digest again unbinding blocked).node
      (live digest again unbinding blocked).key
      (envelope (codes "2"))
    ≡ some second_command
unfolding controls_run
second_verified = refl

second_new :
    leb second_command.sequence (length (live digest again unbinding blocked).journal.records)
    ≡ false
unfolding controls_run
second_new = refl

second_block : operation_of second_command.operation ≡ some block
unfolding controls_run
second_block = refl

live-execute_example :
    Refuses
      (live digest again unbinding blocked)
      (execute again turn (envelope (codes "2")) (live digest again unbinding blocked))
live-execute_example =
    live-execute digest again 100000000000 unbinding blocked turn (envelope (codes "2"))
      second_command (omega arith, tt, tt) blocked-IsSeen second_verified second_new second_block
