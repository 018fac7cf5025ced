-- ===== src/Transfer/Open/Legacy.antt =====
-- `OpenLegacy` (legacy.go): an outbox under an identity of its own. The epoch that the journal's text
-- names and the random identity, in hexadecimal, are parameters; `none` is an error of either.
use v2b_x.Base.{◌≡◌, true, Option, none, some, Bytes, ◌==◌, if◌then◌else◌}
use v2b_x.Transfer.Types.{external, Result, ok, err}
use v2b_x.Transfer.Env.{Env, State}
use v2b_x.Transfer.Contract.{Contract}
use v2b_x.Transfer.Open.{open_box, blank}

abbrev pub known : Option Bytes → Result Bytes
known none = err external
known (some epoch) = ok epoch

-- The outbox is a legacy one where it opened.
abbrev pub marked : {W : Type 0} → Bytes → Result (Unit {0}) × State W → Result Bytes × State W
marked epoch (err e, s) = (err e, s)
marked epoch (ok _, s) = (ok epoch, record s { box = record s.box { legacy = true } })

module _ {W T : Type 0} (env : Env W T) (header_of : T → Option Bytes)
    (new_id : W → Option Bytes) where
  unfoldable pub legacy_epoch : Option T → W → Result Bytes
  legacy_epoch none w = err external
  legacy_epoch (some text) w = known (if env.size text == 0 then new_id w else header_of text)

  unfoldable pub open_with : Bytes → Result Bytes → W → Result Bytes × State W
  open_with scope (err e) w = (err e, blank env w)
  open_with scope (ok epoch) w = marked epoch (open_box env scope epoch (blank env w))

  unfoldable pub open_legacy : Bytes → W → Result Bytes × State W
  unfolding legacy_epoch open_with
  open_legacy scope w = open_with scope (legacy_epoch (env.load w) w) w

  -- Where the epoch comes from: the text on disk, or a new identity.
  pub record IsNamed (text : T) (w : W) (epoch : Bytes) : Type 0 where
    pub loaded : env.load w ≡ some text
    pub new : env.size text ≡ 0 → new_id w ≡ some epoch
    pub kept : (env.size text ≡ 0 → ⊥) → header_of text ≡ some epoch
