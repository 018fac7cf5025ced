-- ===== src/Guard/Controller/Lifetime.antt =====
-- The life of a controller: it is opened, it executes commands while the guard serves, and its
-- journal is opened again.
use v2b_x.Base.{refl, ℕ, ◌≤◌, ◌≡◌, false, Option, some, List, [], ◌∷◌, Bytes, All}
use v2b_x.Guard.Types.{Moment, Guard}
use v2b_x.Guard.Run.{Call, step}
use v2b_x.Guard.Controller.Types.{Envelope, BootStamp, Journal, Controller, gives, Codec}
use v2b_x.Guard.Controller.Records.{bad_stamp}
use v2b_x.Guard.Controller.Open.{open_controller}
use v2b_x.Guard.Controller.Execute.{Turn, execute}
use v2b_x.Guard.Controller.Verified.{Decodes}
use v2b_x.Guard.Controller.Follow.{Follows}
use v2b_x.Guard.Controller.Served.{IsQuiet, step-Serves}
use v2b_x.Guard.Controller.Executed.{execute-Follows}
use v2b_x.Guard.Controller.Steps.{Timely, Clocked, Follows-later, served-Follows}
use v2b_x.Guard.Controller.Opened.{opened-Follows}
use v2b_x.Guard.Controller.Reopen.{IsBehind, IsFresh, Reopens, Follows-Reopens}

-- A command, or a call of another method of the guard at an instant.
pub data Event : Type 0 where
  commands : Turn → Envelope → Event
  serves : ℕ → Call → Event

unfoldable pub live : (Bytes → Bytes) → Codec → List Event → Controller → Controller
live sha256_hex x [] c = c
live sha256_hex x (commands t e ∷ events) c = live sha256_hex x events (execute x t e c).1
live sha256_hex x (serves at call ∷ events) c =
    live sha256_hex x events (record c { guard = step sha256_hex call c.guard })

-- The clocks go on through the events, from the instant `at`.
abbrev pub IsTimed : ℕ → List Event → Type 0
IsTimed at [] = Unit
IsTimed at (commands t e ∷ events) = Timely at t × IsTimed (t.clock 0).instant events
IsTimed at (serves to call ∷ events) = (at ≤ to) × IsQuiet to call × IsTimed to events

-- Every command of the events finds the clocks of the boot.
abbrev pub IsClocked : (Bytes → Bytes) → Codec → Bytes → List Event → Controller → Type 0
IsClocked sha256_hex x boot_id [] c = Unit
IsClocked sha256_hex x boot_id (commands t e ∷ events) c =
    Clocked x boot_id t e c × IsClocked sha256_hex x boot_id events (execute x t e c).1
IsClocked sha256_hex x boot_id (serves at call ∷ events) c =
    IsClocked sha256_hex x boot_id events (record c { guard = step sha256_hex call c.guard })

module _ (sha256_hex : Bytes → Bytes) (x : Codec) (boot_id : Bytes) where
  live-Follows :
      (at : ℕ) (events : List Event) (c : Controller)
      → Decodes x
      → IsTimed at events
      → IsClocked sha256_hex x boot_id events c
      → Follows x boot_id at c
      → (to : ℕ) × Follows x boot_id to (live sha256_hex x events c)
  unfolding live
  live-Follows at [] c dec time by f = (at, f)
  live-Follows at (commands t e ∷ events) c dec time by f =
      live-Follows (t.clock 0).instant events (execute x t e c).1 dec time.1 by.1
        (execute-Follows x boot_id at t e c dec time.0 by.0 f)
  live-Follows at (serves to call ∷ events) c dec (le, quiet, time) by f =
      live-Follows to events (record c { guard = step sha256_hex call c.guard }) dec time by
        (served-Follows x boot_id to c (step sha256_hex call c.guard)
          (Follows-later x boot_id at to c le f) (step-Serves sha256_hex to call c.guard quiet))

-- A controller that `OpenController` has returned executes commands, between calls of its guard that
-- neither apply nor release a lease. Let every stamp be of the boot in which it was opened, no clock
-- stand before the epoch, the instants not go back, the codec decode int64 fields, and a block that
-- is next in sequence, of an identity that the guard holds no longer, find the time of a temporary
-- lease that the journal has pending for it over by the boot clock too. Then `OpenController` takes
-- the journal up again under every valid later stamp, of this boot or another one, on a fresh guard,
-- with the same ids seen, released and cancelled, the same last time and the same journal.
pub live-open_controller :
    (sha256_hex : Bytes → Bytes) (x : Codec) (node key : Bytes) (m : Moment)
    (stored : Option Journal) (stamp : BootStamp) (t : ℕ → Moment) (g : Guard) (c : Controller)
    (events : List Event) (later : BootStamp) (u : ℕ → Moment) (fresh : Guard)
    → Decodes x
    → ((k : ℕ) → m.instant ≤ (t k).instant)
    → open_controller x node key stored (some stamp) t g ≡ gives c
    → IsTimed m.instant events
    → IsClocked sha256_hex x stamp.id events c
    → bad_stamp later ≡ false
    → All (IsBehind later) (live sha256_hex x events c).journal.records
    → IsFresh fresh
    → let d = live sha256_hex x events c in
      Reopens d (open_controller x d.node d.key (some d.journal) (some later) u fresh)
live-open_controller sha256_hex x node key m stored stamp t g c events later u fresh dec le opened
      time by good behind_ new =
    let f = (opened-Follows x node key stamp.id m stored stamp t g dec refl le).holds c opened in
    let (to, g) = live-Follows sha256_hex x stamp.id m.instant events c dec time by f in
    Follows-Reopens x stamp.id to (live sha256_hex x events c) later u fresh dec g good behind_ new
