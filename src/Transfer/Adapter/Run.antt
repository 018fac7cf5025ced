-- ===== src/Transfer/Adapter/Run.antt =====
-- Runs of an adapter. `enters` is the second half of a `Track` that an earlier check let through.
use v2b_x.Base.{ℕ, Option, List, [], ◌∷◌, Bytes}
use v2b_x.Base.Int.{ℤ}
use v2b_x.Transfer.Types.{Identity}
use v2b_x.Guard.Types.{Moment}
use v2b_x.Transfer.Adapter.{
  GuardAdapter, bind_label, track_label, enter_flow, finish_flow, noted, note_identity, fence,
  inspect,
}
use v2b_x.Transfer.Adapter.Quiesce.{Round, quiesce, restore_sealed}

pub data Act : Type 0 where
  binds : Bytes → ℤ → Bytes → Act
  tracks enters : (ℕ → Moment) → Bytes → Option ℕ → Act
  finishes : ℕ → Act
  notes : Act
  notes_identity : Bytes → Act
  fences : ℤ → (ℕ → Moment) → Identity → Act
  inspects : (ℕ → Moment) → Identity → Act
  quiesces : (ℕ → Round) → Act
  restores : List Identity → Act

module _ (sha256_hex : Bytes → Bytes) where
  unfoldable pub act : Act → GuardAdapter → GuardAdapter
  act (binds label uid credential) a = (bind_label sha256_hex label uid credential a).1
  act (tracks t label close) a = (track_label t label close a).1
  act (enters t label close) a = (enter_flow t label close a).1
  act (finishes n) a = finish_flow n a
  act notes a = noted a
  act (notes_identity label) a = note_identity label a
  act (fences now t id) a = (fence sha256_hex now t id a).1
  act (inspects t id) a = (inspect t id a).1
  act (quiesces r) a = (quiesce sha256_hex r a).1
  act (restores ids) a = (restore_sealed ids a).1

  unfoldable pub acts : List Act → GuardAdapter → GuardAdapter
  unfolding act
  acts [] a = a
  acts (x ∷ rest) a = acts rest (act x a)
