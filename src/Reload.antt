-- ===== src/Reload.antt =====
-- `ValidateTransferReload` (conf/watch_candidate.go): which new configuration may replace the running
-- one. `X` and `Y` are the two structures of accounting options, with the test that Go's `==` makes.
pub mod Kept
use v2b_x.Base.{
  ℕ, ◌≡◌, Bool, true, false, ◌&&◌, ◌||◌, not, Option, none, some, List, [], ◌∷◌, Bytes, bytes_eq,
  if◌then◌else◌, Key,
}
use v2b_x.Base.Int.{ℤ, eqb_ℤ}

pub record NodeConfig (X Y : Type 0) : Type 0 where
  pub api_host : Bytes
  pub node_type : Bytes
  pub node_id : ℤ
  pub transfer_accounting : Option X
  pub legacy_accounting : Option Y

pub data ReloadError : Type 0 where
  missing duplicate_scope generation_changed journal_changed scope_removed : ReloadError

pub data Verdict (A : Type 0) : Type 0 where
  accepted : A → Verdict A
  rejected : ReloadError → Verdict A

abbrev pub is_there : {A : Type 0} → Option A → Bool
is_there none = false
is_there (some _) = true

abbrev pub same_scope : {X Y : Type 0} → NodeConfig X Y → NodeConfig X Y → Bool
same_scope a b =
    bytes_eq a.api_host b.api_host && bytes_eq a.node_type b.node_type && eqb_ℤ a.node_id b.node_id

-- The old options are there, and the new ones are not the same, or options of the other kind are.
abbrev pub changes : {A : Type 0} → Key A → Bool → Option A → Option A → Bool
changes key other none fresh = false
changes key other (some old) none = true
changes key other (some old) (some fresh) = not (key.eqb old fresh) || other

unfoldable pub next_if : Verdict Bool → Verdict (Unit {0}) → Verdict (Unit {0})
next_if (rejected e) rest = rejected e
next_if (accepted false) rest = rejected scope_removed
next_if (accepted true) rest = rest

module _ {X Y : Type 0} (x_key : Key X) (y_key : Key Y) where
  -- The inner loop, with `found` so far.
  unfoldable pub scan : NodeConfig X Y → Bool → List (NodeConfig X Y) → Verdict Bool
  scan old found [] = accepted found
  scan old found (fresh ∷ rest) =
      let skip = scan old found rest in
      let more = scan old true rest in
      if not (same_scope old fresh)
      then skip
      else if found
      then rejected duplicate_scope
      else if changes x_key (is_there fresh.legacy_accounting) old.transfer_accounting
          fresh.transfer_accounting
      then rejected generation_changed
      else if changes y_key (is_there fresh.transfer_accounting) old.legacy_accounting
          fresh.legacy_accounting
      then rejected journal_changed
      else more

  unfoldable pub scan_all : List (NodeConfig X Y) → List (NodeConfig X Y) → Verdict (Unit {0})
  unfolding scan next_if
  scan_all [] next = accepted tt
  scan_all (old ∷ rest) next =
      let later = scan_all rest next in
      if not (is_there old.transfer_accounting) && not (is_there old.legacy_accounting)
      then later
      else next_if (scan old false next) later

  unfoldable pub validate_transfer_reload :
      Option (List (NodeConfig X Y)) → Option (List (NodeConfig X Y)) → Verdict (Unit {0})
  unfolding scan_all
  validate_transfer_reload (some current) (some next) = scan_all current next
  validate_transfer_reload none next = rejected missing
  validate_transfer_reload (some current) none = rejected missing
