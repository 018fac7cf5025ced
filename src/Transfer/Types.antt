-- ===== src/Transfer/Types.antt =====
-- The data of common/beuptransfer: samples, batches, acknowledgements, drains and the journal
-- (outbox.go, drain.go, counter_session.go), with the tests of equality that Go's `==` makes.
use v2b_x.Base.{
  ℕ, ◌≡◌, refl, ◌↔◌, Bool, ◌&&◌, Option, List, Bytes, bytes_eq, bytes_eq_iff, ◌==◌, arith, Key,
  Assoc,
}
use v2b_x.Base.Int.{ℤ, eqb_ℤ, eqb_ℤ_iff}

pub data Error : Type 0 where
  -- ErrEpoch, ErrUncertain, ErrPending, ErrCoverage and ErrUnsealed
  epoch uncertain pending coverage unsealed : Error
  -- the texts of `errors.New`
  inventory_capacity invalid_counter duplicate_identity retired_disappeared invalid_scope : Error
  oversized_journal invalid_journal trailing_data scope_mismatch invalid_last_ack missing_ack :
      Error
  pending_mismatch invalid_drain invalid_proof journal_capacity ack_mismatch : Error
  sequence_exhausted replay_mismatch final_missing counter_overflow invalid_threshold : Error
  invalid_batch legacy_overflow : Error
  -- the panic of a nil dereference
  nil_pointer : Error
  -- an error of the store, the receiver, the adapter or the context
  external : Error

pub data Result {ℓ} (A : Type ℓ) : Type ℓ where
  ok : A → Result A
  err : Error → Result A

-- The early return of an error.
infixl 5 ◌>>=◌
abbrev pub ◌>>=◌ {ℓ ℓ'} : {X : Type ℓ} {Y : Type ℓ'} → Result X → (X → Result Y) → Result Y
err code >>= rest = err code
ok x >>= rest = rest x

-- A chain that succeeds has a first step and a rest that do.
pub >>=-eq-ok {ℓ ℓ'} :
    {X : Type ℓ} {Y : Type ℓ'} {y : Y} (first : Result X) (rest : X → Result Y)
    → first >>= rest ≡ ok y
    → (x : X) × (first ≡ ok x) × (rest x ≡ ok y)
>>=-eq-ok (err code) rest fails = cc
>>=-eq-ok (ok x) rest done = (x, refl, done)

pub record Sample : Type 0 where
  pub uid : ℤ
  pub credential : Bytes
  pub upload : ℤ
  pub download : ℤ

pub record Batch : Type 0 where
  pub version : ℤ
  pub scope : Bytes
  pub epoch : Bytes
  pub sequence : ℕ
  pub entries : List Sample
  pub digest : Bytes

pub record Ack : Type 0 where
  pub scope : Bytes
  pub epoch : Bytes
  pub sequence : ℕ
  pub digest : Bytes

pub record PendingBatch : Type 0 where
  pub batch : Batch
  pub through : List Sample

pub record Identity : Type 0 where
  pub uid : ℤ
  pub credential : Bytes

pub record DrainRequest : Type 0 where
  pub id : Bytes
  pub identity : Identity

pub record FenceStatus : Type 0 where
  pub epoch : Bytes
  pub identity : Identity
  pub reject_new : Bool
  pub outstanding : ℤ
  pub tracking_ready : Bool
  pub bindings : ℤ

pub record DrainProof : Type 0 where
  pub request : DrainRequest
  pub scope : Bytes
  pub epoch : Bytes
  pub final : Sample
  pub receipt : Ack

pub record DrainRecord : Type 0 where
  pub request : DrainRequest
  pub proof : Option DrainProof

pub record UncleanRecovery : Type 0 where
  pub count : ℕ
  pub since : ℤ
  pub previous_process : Bytes

-- `counterSession`, the part of a session that the journal keeps.
pub record SessionRecord : Type 0 where
  pub process : Bytes
  pub base : List Sample
  pub sealed : Bool
  pub recovery : Option UncleanRecovery

pub record Journal : Type 0 where
  pub version : ℤ
  pub scope : Bytes
  pub epoch : Bytes
  pub next : ℕ
  pub committed : List Sample
  pub pending : Option PendingBatch
  pub last_ack : Option Ack
  pub drains : Assoc Bytes DrainRecord
  pub reservations : Assoc Bytes DrainRequest
  pub session : Option SessionRecord

-- Go's `==` on the structures, field by field.
abbrev pub sample_eq : Sample → Sample → Bool
sample_eq a b =
    eqb_ℤ a.uid b.uid
    && bytes_eq a.credential b.credential
    && eqb_ℤ a.upload b.upload
    && eqb_ℤ a.download b.download

abbrev pub identity_eq : Identity → Identity → Bool
identity_eq a b = eqb_ℤ a.uid b.uid && bytes_eq a.credential b.credential

abbrev pub request_eq : DrainRequest → DrainRequest → Bool
request_eq a b = bytes_eq a.id b.id && identity_eq a.identity b.identity

abbrev pub ack_eq : Ack → Ack → Bool
ack_eq a b =
    bytes_eq a.scope b.scope
    && bytes_eq a.epoch b.epoch
    && a.sequence == b.sequence
    && bytes_eq a.digest b.digest

pub sample_eq_sound : (a b : Sample) → sample_eq a b ≡ Bool.true → a ≡ b
sample_eq_sound a b h = ground (
  arith,
  eqb_ℤ_iff a.uid b.uid,
  eqb_ℤ_iff a.upload b.upload,
  eqb_ℤ_iff a.download b.download,
  bytes_eq_iff a.credential b.credential,
)

pub identity_eq_iff : (a b : Identity) → (identity_eq a b ≡ Bool.true) ↔ (a ≡ b)
identity_eq_iff a b = ground (arith, eqb_ℤ_iff a.uid b.uid, bytes_eq_iff a.credential b.credential)

pub request_eq_sound : (a b : DrainRequest) → request_eq a b ≡ Bool.true → a ≡ b
request_eq_sound a b h =
    ground (arith, identity_eq_iff a.identity b.identity, bytes_eq_iff a.id b.id)

pub ack_eq_iff : (a b : Ack) → (ack_eq a b ≡ Bool.true) ↔ (a ≡ b)
ack_eq_iff a b = ground (
  arith,
  bytes_eq_iff a.scope b.scope,
  bytes_eq_iff a.epoch b.epoch,
  bytes_eq_iff a.digest b.digest,
)

abbrev pub bytes_key : Key Bytes
bytes_key = record { eqb = bytes_eq; eqb_iff = bytes_eq_iff }

abbrev pub identity_key : Key Identity
identity_key = record { eqb = identity_eq; eqb_iff = identity_eq_iff }
