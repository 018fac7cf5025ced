-- ===== src/Guard/Controller/Types.antt =====
-- The data of common/beupguard/controller.go: commands, the journal and the controller.
use v2b_x.Base.{ℕ, ◌*◌, ◌%◌, Bool, Option, none, some, List, Bytes, Assoc, get}
use v2b_x.Base.Int.{ℤ, of_word, to_word, word64}
use v2b_x.Transfer.Types.{bytes_key}
use v2b_x.Guard.Types.{Lease, Guard}

pub record Command : Type 0 where
  pub version : ℤ
  pub node : Bytes
  pub sequence : ℕ
  pub issued_at : ℤ
  pub not_after : ℤ
  pub operation : Bytes
  pub lease : Lease

pub record Envelope : Type 0 where
  pub payload : Bytes
  pub signature : Bytes

pub record BootStamp : Type 0 where
  pub id : Bytes
  pub nanos : ℤ

pub record Entry : Type 0 where
  pub envelope : Envelope
  pub accepted_at : ℤ
  pub boot : BootStamp

pub record Journal : Type 0 where
  pub version : ℤ
  pub node : Bytes
  pub records : List Entry

-- A `map[string]bool` into which only `true` is ever written: the set of its keys.
abbrev pub Marks : Type 0
Marks = Assoc Bytes (Unit {0})

abbrev pub is_some : {A : Type 0} → Option A → Bool
is_some none = Bool.false
is_some (some _) = Bool.true

abbrev pub marked : Bytes → Marks → Bool
marked id m = is_some (get bytes_key id m)

-- The store and the two clocks are parameters of the methods. The mutexes are left out.
pub record Controller : Type 0 where
  pub guard : Guard
  pub node : Bytes
  pub key : Bytes
  pub journal : Journal
  pub poisoned : Bool
  pub last_wall : ℤ
  pub released : Marks
  pub reconcile : Marks
  pub cancelled : Marks

pub data State : Type 0 where
  ended not_applied interrupted_by_reboot superseded isolated : State

pub record Acknowledgement : Type 0 where
  pub node : Bytes
  pub sequence : ℕ
  pub lease_id : Bytes
  pub state : State
  pub reject_new : Bool
  pub existing_closed : Bool
  pub outstanding : ℕ
  pub manual : Bool
  pub expires_at : ℤ
  pub tracking_ready : Bool
  pub identity_bound : Bool
  pub current_lease_id : Bytes
  pub reconciliation_required : Bool

pub data ControlError : Type 0 where
  -- of `OpenController`
  invalid_settings no_journal invalid_journal invalid_record invalid_cancellation : ControlError
  invalid_release duplicate_release duplicate_lease history_exceeded : ControlError
  overlapping_leases boot_moved_backwards guard_in_use : ControlError
  -- of `Execute`; the last is the panic of an index that is out of range
  needs_recovery rejected conflicting boot_unavailable out_of_order clock_rollback : ControlError
  needs_reconciliation lease_refused not_bound id_used still_isolated incomplete_tracking :
      ControlError
  history_full not_unseen not_the_lease released_already commit_uncertain : ControlError
  index_out_of_range : ControlError

pub data Reply (A : Type 0) : Type 0 where
  gives : A → Reply A
  fails : ControlError → Reply A

abbrev pub and_then : {A B : Type 0} → Reply A → (A → Reply B) → Reply B
and_then (fails e) f = fails e
and_then (gives a) f = f a

-- Base64, Ed25519, strict JSON decoding of a command, and SHA-256: packages that the source calls.
pub record Codec : Type 0 where
  pub base64 : Bytes → Option Bytes
  pub signed_by : Bytes → Bytes → Bytes → Bool
  pub decode_strict : Bytes → Option Command
  pub sha256 : Bytes → Bytes

-- The operation of a command by its text.
pub data Operation : Type 0 where
  block release cancel : Operation

-- `time.Duration(d) * time.Second` on int64.
unfoldable pub seconds : ℤ → ℤ
seconds d = of_word ((to_word d * 1000000000) % word64)
