-- ===== src/Transfer/Adapter/Quiesce.antt =====
-- `Quiesce` and `RestoreSealedIdentities` (adapter_guard.go): all identities of an adapter fenced in
-- turn, and the sealed identities of an adapter that is new.
use v2b_x.Base.{
  ℕ, suc, Bool, true, ◌||◌, not, Option, none, some, List, [], ◌∷◌, ◌++◌, Bytes, ◌==◌, ltb,
  if◌then◌else◌, length, Assoc,
}
use v2b_x.Base.Int.{ℤ, pos, leb_ℤ}
use v2b_x.Text.{valid_hex}
use v2b_x.Transfer.Types.{Identity}
use v2b_x.Transfer.Samples.{max_samples}
use v2b_x.Guard.Types.{Moment}
use v2b_x.Transfer.Adapter.{GuardAdapter, coverage, cancelled, Answer, ok, err, has_identity, fence}

-- The set of all identities.
unfoldable pub identities : List Identity → Assoc Bytes Identity → List Identity
identities ids [] = ids
identities ids ((_, id) ∷ rest) =
    identities (if has_identity id ids then ids else ids ++ id ∷ []) rest

unfoldable pub with_sealed : List Identity → List Identity → List Identity
with_sealed ids [] = ids
with_sealed ids (id ∷ rest) = with_sealed (if has_identity id ids then ids else ids ++ id ∷ []) rest

-- What a round of `Quiesce` reads: whether the context has ended, and the clock.
pub record Round : Type 0 where
  pub ended : Bool
  pub now : ℤ
  pub times : ℕ → Moment

unfoldable pub go_on :
    Answer (Unit {0}) × GuardAdapter
    → (GuardAdapter → Answer (Unit {0}) × GuardAdapter)
    → Answer (Unit {0}) × GuardAdapter
go_on (err e, a) k = (err e, a)
go_on (ok _, a) k = k a

-- The loop of `RestoreSealedIdentities`.
unfoldable pub restorable : List Identity → List Identity → Option (List Identity)
restorable restored [] = some restored
restorable restored (id ∷ rest) =
    let more = restorable (restored ++ id ∷ []) rest in
    if leb_ℤ id.uid (pos 0) || not (valid_hex id.credential 32) || has_identity id restored
    then none
    else more

unfoldable pub restored_as :
    Option (List Identity) → GuardAdapter → Answer (Unit {0}) × GuardAdapter
restored_as none a = (err coverage, a)
restored_as (some ids) a = (ok tt, record a { sealed = ids })

unfoldable pub restore_sealed : List Identity → GuardAdapter → Answer (Unit {0}) × GuardAdapter
unfolding restorable restored_as
restore_sealed ids a =
    if not (length a.bindings == 0)
      || not (length a.holds == 0)
      || not (length a.sealed == 0)
      || a.quiescing
      || ltb max_samples (length ids)
    then (err coverage, a)
    else restored_as (restorable [] ids) a

module _ (sha256_hex : Bytes → Bytes) where
  unfoldable pub fence_each :
      (ℕ → Round) → ℕ → List Identity → GuardAdapter → Answer (Unit {0}) × GuardAdapter
  unfolding go_on fence
  fence_each r k [] a = (ok tt, a)
  fence_each r k (id ∷ rest) a =
      let later = λ (b : GuardAdapter). fence_each r (suc k) rest b in
      if (r k).ended
      then (err cancelled, a)
      else go_on (fence sha256_hex (r k).now (r k).times id a) later

  unfoldable pub quiesce : (ℕ → Round) → GuardAdapter → Answer (Unit {0}) × GuardAdapter
  unfolding fence_each identities with_sealed
  quiesce r a =
      let b = record a { quiescing = true } in
      fence_each r 0 (with_sealed (identities [] a.bindings) a.sealed) b
