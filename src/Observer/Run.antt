-- ===== src/Observer/Run.antt =====
-- Runs of an observer: requests and dials that arrive, windows that are closed, and changes of the
-- identities, in any order.
use v2b_x.Base.{
  Assoc, some, none, ◌||◌, not, ap, ℕ, ◌+◌, ◌%◌, ◌≡◌, Bool, Option, List, [], ◌∷◌, Bytes,
  if◌then◌else◌, arith,
}
use v2b_x.Base.Int.{ℤ, word64}
use v2b_x.Observer.Types.{Observer}
use v2b_x.Observer.Registry.{bind, unbind, unbind_tag, replace_registry}
use v2b_x.Observer.Events.{Kit, Sight, observe_event, observe_dial, snapshot}
use v2b_x.Observer.Start.{
  matches_node, matches_name, new_observer, new_registered, first_observer, Registration,
}
use v2b_x.Guard.Run.Rules.{if-holds}
use v2b_x.Observer.Total.{total}
use v2b_x.Observer.Accounted.{Adds, event-Adds, dial_event-Adds}
use v2b_x.Observer.Told.{
  told, snapshot-Tells, replace-Adds, unbind_tag-Adds, unbind-Adds, bind-Adds,
}

pub data Act : Type 0 where
  observes : Sight → Bytes → Bytes → Bytes → Bytes → ℕ → Act
  dials : Sight → Bytes → Bytes → Bytes → ℕ → ℕ → Act
  snapshots : Bool → ℤ → Act
  binds : Bytes → Bytes → ℤ → List Bytes → Act
  unbinds : Bytes → Bytes → Act
  unbinds_tag : Bytes → Act
  replaces : Bytes → Option (Bytes → ℤ → Bytes) → Act

module _ (k : Kit) (sha256_hex : Bytes → Bytes) where
  unfoldable pub act : Act → Observer → Observer
  act (observes s tag label network address port) o =
      observe_event k s tag label network address port 0 o
  act (dials s tag label address port outcome) o = observe_dial k s tag label address port outcome o
  act (snapshots lock_free end_) o = (snapshot lock_free end_ o).1
  act (binds tag label uid credential) o = (bind k.digest sha256_hex tag label uid credential o).1
  act (unbinds tag label) o = unbind k.digest tag label o
  act (unbinds_tag tag) o = unbind_tag tag o
  act (replaces revision registry) o = (replace_registry revision registry o).1

  unfoldable pub run : List Act → Observer → Observer
  unfolding act
  run [] o = o
  run (a ∷ acts) o = run acts (act a o)

  -- What the windows tell of that an act closes.
  abbrev pub told_by : Act → Observer → ℕ
  told_by (snapshots lock_free end_) o = told (snapshot lock_free end_ o).0
  told_by (observes _ _ _ _ _ _) o = 0
  told_by (dials _ _ _ _ _ _) o = 0
  told_by (binds _ _ _ _) o = 0
  told_by (unbinds _ _) o = 0
  told_by (unbinds_tag _) o = 0
  told_by (replaces _ _) o = 0

  unfoldable pub reported : List Act → Observer → ℕ
  unfolding act
  reported [] o = 0
  reported (a ∷ acts) o = told_by a o + reported acts (act a o)

  -- The requests of an act, and its dials where they are measured.
  abbrev pub arrives : Act → Observer → ℕ
  arrives (observes _ _ _ _ _ _) o = 1
  arrives (dials _ _ _ _ _ _) o = if o.tcp_dial_metrics then 1 else 0
  arrives (snapshots _ _) o = 0
  arrives (binds _ _ _ _) o = 0
  arrives (unbinds _ _) o = 0
  arrives (unbinds_tag _) o = 0
  arrives (replaces _ _) o = 0

  unfoldable pub arrived : List Act → Observer → ℕ
  unfolding act
  arrived [] o = 0
  arrived (a ∷ acts) o = arrives a o + arrived acts (act a o)

  added : (n : ℕ) (o p : Observer) → Adds n o p → (total p + 0) % word64 ≡ (total o + n) % word64
  added n o p h = let x = h.sum in omega (arith, x)

  act_balance :
      (a : Act) (o : Observer)
      → (total (act a o) + told_by a o) % word64 ≡ (total o + arrives a o) % word64
  unfolding act
  act_balance (observes s tag label network address port) o =
      added 1 o _ (event-Adds k s tag label network address port 0 o)
  act_balance (dials s tag label address port outcome) o =
      added (if o.tcp_dial_metrics then 1 else 0) o _
        (dial_event-Adds k s tag label address port outcome o)
  act_balance (snapshots lock_free end_) o =
      let x = (snapshot-Tells lock_free end_ o).balance in omega (arith, x)
  act_balance (binds tag label uid credential) o =
      added 0 o _ (bind-Adds k.digest sha256_hex tag label uid credential o)
  act_balance (unbinds tag label) o = added 0 o _ (unbind-Adds k.digest tag label o)
  act_balance (unbinds_tag tag) o = added 0 o _ (unbind_tag-Adds tag o)
  act_balance (replaces revision registry) o = added 0 o _ (replace-Adds revision registry o)

  -- On uint64: what is told and what is still in the observer is what was there and has arrived.
  pub run_balance :
      (acts : List Act) (o : Observer)
      → (total (run acts o) + reported acts o) % word64 ≡ (total o + arrived acts o) % word64
  unfolding run reported arrived
  run_balance [] o = omega arith
  run_balance (a ∷ acts) o =
      let x = run_balance acts (act a o) in let y = act_balance a o in omega (arith, x, y)

same_some : (a b : Observer) → some a ≡ some b → b ≡ a
same_some a b h = cc

-- An observer that holds no event.
record StartsEmpty (r : Option Observer) : Type 0 where
  nothing : (o : Observer) → r ≡ some o → total o ≡ 0

none-StartsEmpty : StartsEmpty none
none-StartsEmpty = record { nothing = λ o h. absurd (cc) }

registered-StartsEmpty :
    (revision : Bytes) (tcp : Bool) (bindings : Assoc Bytes (Assoc ℤ Bytes)) (minute : ℤ)
    (exact : Bool) (r : Option Registration)
    → StartsEmpty (new_registered revision tcp bindings minute exact r)
unfolding new_registered first_observer
registered-StartsEmpty revision tcp bindings minute exact none = none-StartsEmpty
registered-StartsEmpty revision tcp bindings minute exact (some r) = record {
  nothing = λ o h. ap total (same_some _ o h);
}

new_total :
    (node revision : Bytes) (tcp : Bool) (bindings : Assoc Bytes (Assoc ℤ Bytes)) (minute : ℤ)
    (exact : Bool) (o : Observer)
    → new_observer node revision tcp bindings minute exact ≡ some o
    → total o ≡ 0
unfolding new_observer
new_total node revision tcp bindings minute exact o h =
    let e : StartsEmpty (new_observer node revision tcp bindings minute exact) =
      if-holds StartsEmpty (not (matches_node node) || not (matches_name revision)) _ _
        none-StartsEmpty (registered-StartsEmpty revision tcp bindings minute exact _) in
    e.nothing o h

-- Every request that has arrived is told of by a closed window, or still counted in the observer.
pub run-new_observer :
    (k : Kit) (sha256_hex : Bytes → Bytes) (node revision : Bytes) (tcp : Bool)
    (bindings : Assoc Bytes (Assoc ℤ Bytes)) (minute : ℤ) (exact : Bool) (o : Observer)
    (acts : List Act)
    → new_observer node revision tcp bindings minute exact ≡ some o
    → (total (run k sha256_hex acts o) + reported k sha256_hex acts o) % word64
      ≡ arrived k sha256_hex acts o % word64
run-new_observer k sha256_hex node revision tcp bindings minute exact o acts h =
    let x = run_balance k sha256_hex acts o in
    let y = new_total node revision tcp bindings minute exact o h in omega (arith, x, y)
