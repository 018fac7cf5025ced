-- ===== src/Selector.antt =====
-- `Selector` (core/selector.go): one core for each node. The cores, the options' JSON and the case of
-- strings are parameters; a call of a core changes the world W. The loops visit the map of cores in
-- the order of the list.
pub mod Routing
use v2b_x.Base.{
  ℕ, ◌≡◌, Bool, true, false, ◌&&◌, not, Option, none, some, List, [], ◌∷◌, ◌++◌, Bytes, bytes_eq,
  ◌==◌, any, if◌then◌else◌, length, Assoc, get, put, del,
}
use v2b_x.Text.{codes}
use v2b_x.Transfer.Types.{bytes_key}

-- The core of a configuration, by `Type` and `Name`.
pub record CoreConfig (O : Type 0) : Type 0 where
  pub type_ : Bytes
  pub name : Bytes
  pub rest : O

-- `conf.Options`, with the raw text that its kernel-specific part is decoded from.
pub record Options (O : Type 0) : Type 0 where
  pub core_name : Bytes
  pub core : Bytes
  pub raw_options : Bytes
  pub rest : O

-- The interface `Core` and what else the selector calls. `C` are the cores, `N` the infos of nodes,
-- `U` users and their parameters, `T` reports of traffic, `A` adapters; false and `none` are errors.
pub record Calls (C N U T A O W : Type 0) : Type 0 where
  pub to_lower : Bytes → Bytes
  pub maker : Bytes → Option (CoreConfig O → W → W × Option C)
  pub type_of : C → Bytes
  pub protocols_of : C → List Bytes
  pub node_type : N → Bytes
  pub unmarshal : Options O → Option (Options O)
  pub start_core : C → W → W × Bool
  pub close_core : C → W → W × Bool
  pub add_node_to : C → Bytes → N → Options O → W → W × Bool
  pub del_node_of : C → Bytes → W → W × Bool
  pub add_users_to : C → Bytes → U → W → W × Option ℕ
  pub traffic_of : C → Bytes → Bool → W → W × Option T
  pub del_users_of : C → Bytes → U → W → W × Bool
  pub accounting_of : C → Option (Bytes → Bytes → Bytes → W → W × Option A)

pub data SelectorError : Type 0 where
  unknown_core unsupported_node bad_options no_node no_coverage of_core : SelectorError

pub data Reply (X : Type 0) : Type 0 where
  ok : X → Reply X
  err : SelectorError → Reply X

abbrev pub or_error : {X : Type 0} → Option X → Reply X
or_error none = err of_core
or_error (some x) = ok x

abbrev pub as_reply : Bool → Reply (Unit {0})
as_reply true = ok tt
as_reply false = err of_core

-- `nodes` maps the tag of a node to its core.
pub record State (C W : Type 0) : Type 0 where
  pub cores : Assoc Bytes C
  pub nodes : Assoc Bytes C
  pub world : W

abbrev pub is_supported : Bytes → List Bytes → Bool
is_supported protocol protocols = any (λ p. bytes_eq protocol p) protocols

module _ {C N U T A O W : Type 0} (calls : Calls C N U T A O W) where
  abbrev core_key : CoreConfig O → Bytes
  core_key t = if length t.name == 0 then t.type_ else t.name

  unfoldable pub make_core :
      Option (CoreConfig O → W → W × Option C) → CoreConfig O → W → W × Reply C
  make_core none t w = (w, err unknown_core)
  make_core (some f) t w = let made = f t w in (made.0, or_error made.1)

  -- `NewSelector`, whose maps of cores are built in the order of the configurations.
  unfoldable pub make_cores : List (CoreConfig O) → Assoc Bytes C → W → W × Reply (Assoc Bytes C)
  unfolding make_core
  make_cores [] cs w = (w, ok cs)
  make_cores (t ∷ rest) cs w =
      let made = make_core (calls.maker (calls.to_lower t.type_)) t w in
      let later = λ (c : C). make_cores rest (put bytes_key (core_key t) c cs) made.0 in
      elim made.1 [ err e ↦ (made.0, err e) | ok c ↦ later c ]

  -- `Start` stops at the first error.
  unfoldable pub start_each : Assoc Bytes C → W → W × Bool
  start_each [] w = (w, true)
  start_each ((_, c) ∷ rest) w =
      let started = calls.start_core c w in
      let more = start_each rest started.0 in if started.1 then more else (started.0, false)

  -- `Close` closes all cores; the result tells which of them did.
  unfoldable pub close_each : Assoc Bytes C → W → W × List Bool
  close_each [] w = (w, [])
  close_each ((_, c) ∷ rest) w =
      let closed = calls.close_core c w in
      let more = close_each rest closed.0 in (more.0, closed.1 ∷ more.1)

  abbrev pub serves : N → Options O → C → Bool
  serves info option c =
      if length option.core == 0
      then is_supported (calls.node_type info) (calls.protocols_of c)
      else bytes_eq option.core (calls.type_of c)

  -- The last core that serves the node, by type.
  unfoldable pub select_by_type : N → Options O → Option C → Assoc Bytes C → Option C
  select_by_type info option found [] = found
  select_by_type info option found ((_, c) ∷ rest) =
      select_by_type info option (if serves info option c then some c else found) rest

  unfoldable pub select : N → Options O → Assoc Bytes C → Option C
  unfolding select_by_type
  select info option cores =
      if not (length option.core_name == 0)
      then get bytes_key option.core_name cores
      else select_by_type info option none cores

  abbrev without_raw : Option (Options O) → Option (Options O)
  without_raw none = none
  without_raw (some option) = some (record option { raw_options = [] })

  -- The options of a node without a core's type are decoded for the type of the core. That the code
  -- writes them back into the caller's options is left out.
  unfoldable pub completed : C → Options O → Option (Options O)
  completed c option =
      if length option.core == 0
      then without_raw (calls.unmarshal (record option { core = calls.type_of c }))
      else some option

  unfoldable pub added_to :
      C → Bytes → N → Option (Options O) → State C W → Reply (Unit {0}) × State C W
  added_to c tag info none s = (err bad_options, s)
  added_to c tag info (some option) s =
      let added = calls.add_node_to c tag info option s.world in
      if added.1
      then (ok tt, record s { nodes = put bytes_key tag c s.nodes; world = added.0 })
      else (err of_core, record s { world = added.0 })

  unfoldable pub add_selected :
      Option C → Bytes → N → Options O → State C W → Reply (Unit {0}) × State C W
  unfolding added_to completed
  add_selected none tag info option s = (err unsupported_node, s)
  add_selected (some c) tag info option s = added_to c tag info (completed c option) s

  unfoldable pub add_node : Bytes → N → Options O → State C W → Reply (Unit {0}) × State C W
  unfolding select add_selected
  add_node tag info option s = add_selected (select info option s.cores) tag info option s

  unfoldable pub del_from : Option C → Bytes → State C W → Reply (Unit {0}) × State C W
  del_from none tag s = (err no_node, s)
  del_from (some c) tag s =
      let deleted = calls.del_node_of c tag s.world in
      if deleted.1
      then (ok tt, record s { nodes = del bytes_key tag s.nodes; world = deleted.0 })
      else (err of_core, record s { world = deleted.0 })

  unfoldable pub del_node : Bytes → State C W → Reply (Unit {0}) × State C W
  unfolding del_from
  del_node tag s = del_from (get bytes_key tag s.nodes) tag s

  unfoldable pub add_users_as : Option C → Bytes → U → State C W → Reply ℕ × State C W
  add_users_as none tag users s = (err no_node, s)
  add_users_as (some c) tag users s =
      let added = calls.add_users_to c tag users s.world in
      (or_error added.1, record s { world = added.0 })

  unfoldable pub add_users : Bytes → U → State C W → Reply ℕ × State C W
  unfolding add_users_as
  add_users tag users s = add_users_as (get bytes_key tag s.nodes) tag users s

  unfoldable pub traffic_as : Option C → Bytes → Bool → State C W → Reply T × State C W
  traffic_as none tag reset s = (err no_node, s)
  traffic_as (some c) tag reset s =
      let read = calls.traffic_of c tag reset s.world in
      (or_error read.1, record s { world = read.0 })

  unfoldable pub get_user_traffic_slice : Bytes → Bool → State C W → Reply T × State C W
  unfolding traffic_as
  get_user_traffic_slice tag reset s = traffic_as (get bytes_key tag s.nodes) tag reset s

  unfoldable pub del_users_as : Option C → Bytes → U → State C W → Reply (Unit {0}) × State C W
  del_users_as none tag users s = (err no_node, s)
  del_users_as (some c) tag users s =
      let deleted = calls.del_users_of c tag users s.world in
      (as_reply deleted.1, record s { world = deleted.0 })

  unfoldable pub del_users : Bytes → U → State C W → Reply (Unit {0}) × State C W
  unfolding del_users_as
  del_users tag users s = del_users_as (get bytes_key tag s.nodes) tag users s

  unfoldable pub all_protocols : Assoc Bytes C → List Bytes
  all_protocols [] = []
  all_protocols ((_, c) ∷ rest) = calls.protocols_of c ++ all_protocols rest

  -- The names behind "Selector(", which a space parts.
  unfoldable pub type_names : Bool → Assoc Bytes C → Bytes
  type_names flag [] = codes ")"
  type_names flag ((n, c) ∷ rest) =
      (if flag then codes " " else [])
      ++ (if length n == 0 then calls.type_of c else n)
      ++ type_names true rest

  unfoldable pub selector_type : Assoc Bytes C → Bytes
  unfolding type_names
  selector_type cores = codes "Selector(" ++ type_names false cores

  unfoldable pub accounting_as :
      Option (Bytes → Bytes → Bytes → W → W × Option A)
      → Bytes
      → Bytes
      → Bytes
      → State C W
      → Reply A × State C W
  accounting_as none tag epoch node_type s = (err no_coverage, s)
  accounting_as (some enable) tag epoch node_type s =
      let enabled = enable tag epoch node_type s.world in
      (or_error enabled.1, record s { world = enabled.0 })

  unfoldable pub accounting_at : Option C → Bytes → Bytes → Bytes → State C W → Reply A × State C W
  unfolding accounting_as
  accounting_at none tag epoch node_type s = (err no_coverage, s)
  accounting_at (some c) tag epoch node_type s =
      accounting_as (calls.accounting_of c) tag epoch node_type s

  -- `EnableTransferAccounting`
  unfoldable pub enable_transfer_accounting :
      Bytes → Bytes → Bytes → State C W → Reply A × State C W
  unfolding accounting_at
  enable_transfer_accounting tag epoch node_type s =
      accounting_at (get bytes_key tag s.nodes) tag epoch node_type s
