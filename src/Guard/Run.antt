-- ===== src/Guard/Run.antt =====
-- Runs of a guard: each method of guard.go as a step. The mutex lets one method run at a time.
pub mod Rules
pub mod Closure
pub mod Sound
pub mod Hold
pub mod Isolation
pub mod Replay
pub mod Ended
use v2b_x.Base.{ℕ, List, [], ◌∷◌, Option, Bytes}
use v2b_x.Base.Int.{ℤ}
use v2b_x.Transfer.Types.{Identity}
use v2b_x.Guard.Types.{Moment, Lease, Guard, note_coverage_failure}
use v2b_x.Guard.Bindings.{bind, unbind, require_tags, unbind_tag}
use v2b_x.Guard.Sessions.{track, finish}
use v2b_x.Guard.Leases.{apply, release, stats}
use v2b_x.Guard.Authorization.{register_authorization}

-- A call, with the readings of the clock that it makes.
pub data Call : Type 0 where
  binds : Bytes → Bytes → ℤ → Bytes → Call
  unbinds : Bytes → Bytes → Call
  requires : List Bytes → Call
  unbinds_tag : Bytes → Call
  registers : Bytes → Bytes → Bytes → Call
  tracks : (ℕ → Moment) → Bytes → Bytes → Option ℕ → Call
  finishes : ℕ → Call
  applies : (ℕ → Moment) → Lease → Call
  releases : Bytes → Identity → Call
  reads_stats : (ℕ → Moment) → Call
  notes_failure : Call

unfoldable pub step : (Bytes → Bytes) → Call → Guard → Guard
step sha256_hex (binds tag label uid credential) g = bind sha256_hex tag label uid credential g
step sha256_hex (unbinds tag label) g = unbind tag label g
step sha256_hex (requires tags) g = (require_tags tags g).1
step sha256_hex (unbinds_tag tag) g = unbind_tag tag g
step sha256_hex (registers tag label grant) g = register_authorization tag label grant g
step sha256_hex (tracks t tag label close) g = (track t tag label close g).1
step sha256_hex (finishes n) g = finish n g
step sha256_hex (applies t l) g = (apply t l g).1
step sha256_hex (releases id identity) g = (release id identity g).1
step sha256_hex (reads_stats t) g = (stats t g).1
step sha256_hex notes_failure g = note_coverage_failure g

unfoldable pub run : (Bytes → Bytes) → List Call → Guard → Guard
unfolding step
run sha256_hex [] g = g
run sha256_hex (c ∷ calls) g = run sha256_hex calls (step sha256_hex c g)
