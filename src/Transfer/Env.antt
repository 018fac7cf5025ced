-- ===== src/Transfer/Env.antt =====
-- What the outbox calls: the store of the journal, the receiver of the batches, the adapter of the
-- proxy core (the interfaces `Store`, `Receiver` and `QuiescingAdapter`), encoding/json and SHA-256.
-- `W` is the world that these calls read and change, `T` the type of the JSON texts, of which the
-- code reads only the length. Methods of the outbox are actions over its
-- memory and that world: an error keeps what was changed before it.
use v2b_x.Base.{ℕ, Bool, true, false, Option, none, some, List, Bytes}
use v2b_x.Base.Int.{ℤ}
use v2b_x.Transfer.Types.{
  Error, external, Result, ok, err, Sample, Batch, Ack, Identity, FenceStatus, Journal,
}

-- A decoded journal, with what the Go value shows beyond its fields: text behind the first JSON
-- value, and whether `drains`, a session's `base` and a batch's `entries` are there at all.
pub record Decoded : Type 0 where
  pub journal : Journal
  pub trailing : Bool
  pub has_drains : Bool
  pub has_base : Bool
  pub has_entries : Bool

pub record Env (W T : Type 0) : Type 0 where
  -- `json.Marshal` of a journal, the decoder that refuses unknown fields, and the length of a text
  pub marshal : Journal → T
  pub unmarshal : T → Option Decoded
  pub size : T → ℕ
  -- the hexadecimal SHA-256 of a text
  pub sha256_hex : Bytes → Bytes
  -- `Store.Load` and `Store.Save`; false is an error of `Save`
  pub load : W → Option T
  pub store : T → W → W × Bool
  -- `Receiver.Commit`
  pub commit : Batch → W → W × Option Ack
  -- `Fence`, `Inspect`, `Snapshot`, `Quiesce` and `RestoreSealedIdentities` of the adapter; false
  -- and `none` are errors
  pub fence : Identity → W → W × Bool
  pub inspect : Identity → W → W × Option FenceStatus
  pub snapshot : W → W × Option (List Sample)
  pub quiesce : W → W × Bool
  pub restore : List Identity → W → W × Bool
  -- `ctx.Err() != nil`
  pub expired : W → Bool
  -- `time.Now().Unix()`
  pub now : W → ℤ

-- `o.mu` guards these fields.
pub record Outbox : Type 0 where
  pub state : Journal
  pub poisoned : Bool
  pub legacy : Bool

pub record State (W : Type 0) : Type 0 where
  pub box : Outbox
  pub world : W

abbrev pub Action : Type 0 → Type 0 → Type 0
Action W A = State W → Result A × State W

module _ {W : Type 0} where
  abbrev pub continue : {A B : Type 0} → Result A × State W → (A → Action W B) → Result B × State W
  continue (ok a, s) f = f a s
  continue (err e, s) f = (err e, s)

  infixl 5 ◌>>=◌ ◌>>◌
  abbrev pub ◌>>=◌ : {A B : Type 0} → Action W A → (A → Action W B) → Action W B
  ◌>>=◌ m f s = continue (m s) f

  abbrev pub ◌>>◌ : {B : Type 0} → Action W (Unit {0}) → Action W B → Action W B
  m >> k = m >>= λ _. k

  abbrev pub return : {A : Type 0} → A → Action W A
  return a s = (ok a, s)

  abbrev pub fail : {A : Type 0} → Error → Action W A
  fail e s = (err e, s)

  -- The value of a computation that touches no state.
  abbrev pub pure : {A : Type 0} → Result A → Action W A
  pure r s = (r, s)

  abbrev pub guard : Bool → Error → Action W (Unit {0})
  guard true e s = (ok tt, s)
  guard false e s = (err e, s)

  abbrev pub box_of : Action W Outbox
  box_of s = (ok s.box, s)

  abbrev pub called : State W → W × Bool → Result (Unit {0}) × State W
  called s (w, true) = (ok tt, record s { world = w })
  called s (w, false) = (err external, record s { world = w })

  -- A call that may fail.
  abbrev pub call : (W → W × Bool) → Action W (Unit {0})
  call f s = called s (f s.world)

  abbrev pub asked : {A : Type 0} → State W → W × Option A → Result A × State W
  asked s (w, some a) = (ok a, record s { world = w })
  asked s (w, none) = (err external, record s { world = w })

  -- A call that may fail and else gives a value.
  abbrev pub ask : {A : Type 0} → (W → W × Option A) → Action W A
  ask f s = asked s (f s.world)
