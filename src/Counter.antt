-- ===== src/Counter.antt =====
-- `TrafficCounter` (common/counter/traffic.go). A pointer to a `TrafficStorage` is a number, so that
-- the pointers that a connection keeps stay good behind a `Delete`.
pub mod Pointers
pub mod Runs
use v2b_x.Base.{
  ℕ, suc, ◌+◌, ◌≡◌, Bool, Option, none, some, List, [], ◌∷◌, Bytes, ◌==◌, ==_iff, length, Key,
  Assoc, get, put, del,
}
use v2b_x.Base.Int.{ℤ, pos, add64}
use v2b_x.Transfer.Types.{bytes_key}

pub record TrafficStorage : Type 0 where
  pub up_counter : ℤ
  pub down_counter : ℤ

abbrev pub blank_storage : TrafficStorage
blank_storage = record { up_counter = pos 0; down_counter = pos 0 }

-- `counters` holds the pointers of the map, `heap` the storages at all pointers below `fresh`.
pub record TrafficCounter : Type 0 where
  pub counters : Assoc Bytes ℕ
  pub heap : Assoc ℕ TrafficStorage
  pub fresh : ℕ

abbrev pub pointer_key : Key ℕ
pointer_key = record { eqb = λ a b. a == b; eqb_iff = ==_iff }

abbrev pub new_traffic_counter : TrafficCounter
new_traffic_counter = record { counters = []; heap = []; fresh = 0 }

abbrev pub or_blank : Option TrafficStorage → TrafficStorage
or_blank none = blank_storage
or_blank (some s) = s

abbrev pub storage_at : ℕ → TrafficCounter → TrafficStorage
storage_at p c = or_blank (get pointer_key p c.heap)

abbrev pub storage_of : Option ℕ → TrafficCounter → TrafficStorage
storage_of none c = blank_storage
storage_of (some p) c = storage_at p c

-- `GetCounter`, which enters a new storage where there is none.
unfoldable pub counter_at : Bytes → Option ℕ → TrafficCounter → ℕ × TrafficCounter
counter_at uuid (some p) c = (p, c)
counter_at uuid none c = (
  c.fresh,
  record {
    counters = put bytes_key uuid c.fresh c.counters;
    heap = put pointer_key c.fresh blank_storage c.heap;
    fresh = suc c.fresh;
  },
)

unfoldable pub get_counter : Bytes → TrafficCounter → ℕ × TrafficCounter
unfolding counter_at
get_counter uuid c = counter_at uuid (get bytes_key uuid c.counters) c

unfoldable pub get_up_count : Bytes → TrafficCounter → ℤ
get_up_count uuid c = (storage_of (get bytes_key uuid c.counters) c).up_counter

unfoldable pub get_down_count : Bytes → TrafficCounter → ℤ
get_down_count uuid c = (storage_of (get bytes_key uuid c.counters) c).down_counter

unfoldable pub len : TrafficCounter → ℕ
len c = length c.counters

abbrev pub reset_at : Option ℕ → TrafficCounter → TrafficCounter
reset_at none c = c
reset_at (some p) c = record c { heap = put pointer_key p blank_storage c.heap }

unfoldable pub reset : Bytes → TrafficCounter → TrafficCounter
reset uuid c = reset_at (get bytes_key uuid c.counters) c

unfoldable pub delete : Bytes → TrafficCounter → TrafficCounter
delete uuid c = record c { counters = del bytes_key uuid c.counters }

-- The atomic additions to the storage at a pointer, as a connection makes them too.
unfoldable pub add_up : ℕ → ℤ → TrafficCounter → TrafficCounter
add_up p n c =
    let s = storage_at p c in
    record c { heap = put pointer_key p (record s { up_counter = add64 s.up_counter n }) c.heap }

unfoldable pub add_down : ℕ → ℤ → TrafficCounter → TrafficCounter
add_down p n c =
    let s = storage_at p c in
    record c {
      heap = put pointer_key p (record s { down_counter = add64 s.down_counter n }) c.heap;
    }

unfoldable pub rx : Bytes → ℤ → TrafficCounter → TrafficCounter
unfolding get_counter add_down
rx uuid n c = let at = get_counter uuid c in add_down at.0 n at.1

unfoldable pub tx : Bytes → ℤ → TrafficCounter → TrafficCounter
unfolding get_counter add_up
tx uuid n c = let at = get_counter uuid c in add_up at.0 n at.1
