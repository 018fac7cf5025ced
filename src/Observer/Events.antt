-- ===== src/Observer/Events.antt =====
-- `Observe`, `observeEvent`, `observeMinute`, `drainPendingLocked` and `Snapshot` (observer.go), and
-- `ObserveDial` (tcp_outcomes.go). What `TryLock` finds is an argument.
use v2b_x.Base.{
  ℕ, zero, suc, Bool, true, false, ◌&&◌, ◌||◌, not, Option, none, some, List, [], ◌∷◌, ◌++◌, Bytes,
  bytes_eq, ◌==◌, ltb, if◌then◌else◌, length, any,
}
use v2b_x.Base.Int.{ℤ, pos, ltb_ℤ, leb_ℤ, eqb_ℤ, add64, sub64}
use v2b_x.Text.{codes, show_int}
use v2b_x.Observer.Types.{PendingRequest, WindowCounts, empty_window, Observer, add_u64}
use v2b_x.Observer.Record.{drop_boundary, or_empty, record_prepared, is_there}
use v2b_x.Observer.Registry.{label_key}

abbrev pub drop_invalid : Observer → Observer
drop_invalid o = record o {
  invalid_drops = add_u64 o.invalid_drops 1;
  dropped = add_u64 o.dropped 1;
}

abbrev pub drop_contention : Observer → Observer
drop_contention o = record o {
  contention_drops = add_u64 o.contention_drops 1;
  dropped = add_u64 o.dropped 1;
}

-- What the package calls: the HMAC, `strings.ToLower`, `netip.ParseAddr` with the text of the
-- unmapped address.
pub record Kit : Type 0 where
  pub digest : Bytes → Bytes → Bytes
  pub to_lower : Bytes → Bytes
  pub parse_addr : Bytes → Option Bytes

-- `strings.TrimSuffix(s, ".")`
abbrev pub trim_dot : Bytes → Bytes
trim_dot [] = []
trim_dot (c ∷ []) = if c == 46 then [] else c ∷ []
trim_dot (c ∷ d ∷ s) = c ∷ trim_dot (d ∷ s)

-- ` /\@|` and tab, carriage return, line feed and zero
abbrev pub is_strange : ℕ → Bool
is_strange c =
    c == 32 || c == 47 || c == 92 || c == 64 || c == 124 || c == 9 || c == 13 || c == 10 || c == 0

unfoldable pub host_name : Bytes → Option Bytes
host_name s = if length s == 0 || any is_strange s then none else some s

unfoldable pub parsed_or_name : Bytes → Option Bytes → Option Bytes
unfolding host_name
parsed_or_name s (some ip) = some ip
parsed_or_name s none = host_name s

unfoldable pub normal_address : Kit → Bytes → Option Bytes
unfolding parsed_or_name
normal_address k address =
    let s = trim_dot (k.to_lower address) in parsed_or_name s (k.parse_addr s)

-- One thread runs `observeMinute` at a time: its compare-and-swap succeeds.
unfoldable pub observe_minute : ℤ → ℕ → Observer → Bool × Observer
observe_minute minute sequence o =
    if ltb_ℤ minute o.window_start || ltb_ℤ (add64 o.window_start (pos 60)) minute
    then (false, drop_boundary (record o { clock_gap = true }))
    else if ltb sequence o.observed_minute.sequence
    then (true, o)
    else if ltb_ℤ minute o.observed_minute.minute
    then (false, drop_boundary (record o { clock_gap = true }))
    else if eqb_ℤ minute o.observed_minute.minute
    then (true, o)
    else (true, record o { observed_minute = record { sequence = sequence; minute = minute } })

unfoldable pub drain_list : ℕ → List PendingRequest → Observer → Observer
drain_list zero es o = record o { pending = es }
drain_list (suc n) [] o = record o { pending = [] }
drain_list (suc n) (e ∷ es) o = drain_list n es (record_prepared e (record o { pending = es }))

-- At most `limit` events are taken from the channel.
unfoldable pub drain_pending : ℕ → Observer → Observer
unfolding drain_list
drain_pending limit o = drain_list limit o.pending o

-- The two readings of the clock, by the start of their minute, and whether the lock is free.
pub record Sight : Type 0 where
  pub prepared_start : ℤ
  pub now_start : ℤ
  pub lock_free : Bool

abbrev pub target_of : Kit → ℤ → Bytes → Bytes
target_of k minute value = k.digest (codes "target-" ++ show_int minute) value

abbrev pub ticked : Observer → Observer
ticked o = record o { clock_sequence = add_u64 o.clock_sequence 1 }

-- The second look at the clock, with the lock held.
unfoldable pub observed_now : Kit → Sight → Bytes → PendingRequest → Bool × Observer → Observer
observed_now k s value e (false, o) = o
observed_now k s value e (true, o) =
    record_prepared
      (if not (eqb_ℤ s.prepared_start s.now_start)
        then record e { minute = s.now_start; target = target_of k s.now_start value }
        else e)
      o

unfoldable pub observed_event : Kit → Sight → Bytes → PendingRequest → Bool × Observer → Observer
unfolding observed_now drain_pending observe_minute
observed_event k s value e (false, o) = o
observed_event k s value e (true, o) =
    if not s.lock_free
    then if ltb (length o.pending) 512
      then record o { pending = o.pending ++ e ∷ [] }
      else drop_contention o
    else (let p = ticked (drain_pending 8 o) in
        observed_now k s value e (observe_minute s.now_start p.clock_sequence p))

unfoldable pub observe_address :
    Kit → Sight → Bytes → Bytes → Bytes → ℕ → ℕ → Option Bytes → Observer → Observer
unfolding observed_event label_key
observe_address k s tag label network port outcome none o = drop_invalid o
observe_address k s tag label network port outcome (some address) o =
    let value = network ++ 0 ∷ address in
    let e : PendingRequest = record {
      key = label_key k.digest tag label;
      target = target_of k s.prepared_start value;
      minute = s.prepared_start;
      generation = o.generation;
      port = port;
      tcp = bytes_eq network (codes "tcp");
      outcome = outcome;
    } in
    let p = ticked o in
    observed_event k s value e (observe_minute s.prepared_start p.clock_sequence p)

-- A request, with the outcome 0, or a dial.
unfoldable pub observe_event :
    Kit → Sight → Bytes → Bytes → Bytes → Bytes → ℕ → ℕ → Observer → Observer
unfolding observe_address normal_address
observe_event k s tag label network address port outcome o =
    if ltb 512 (length tag)
      || ltb 1024 (length label)
      || ltb 253 (length address)
      || port == 0
      || not (bytes_eq network (codes "tcp") || bytes_eq network (codes "udp"))
    then drop_invalid o
    else observe_address k s tag label network port outcome (normal_address k address) o

unfoldable pub observe_dial : Kit → Sight → Bytes → Bytes → Bytes → ℕ → ℕ → Observer → Observer
unfolding observe_event
observe_dial k s tag label address port outcome o =
    if not o.tcp_dial_metrics
    then o
    else if outcome == 0 || ltb 5 outcome
    then drop_invalid o
    else if outcome == 2 && not (is_there (k.parse_addr address))
    then drop_invalid o
    else observe_event k s tag label (codes "tcp") address port outcome o

pub record Quality : Type 0 where
  pub partial_window : Bool
  pub clock_discontinuity : Bool
  pub dropped_requests : ℕ
  pub unmapped_requests : ℕ

-- A window that is closed. The reports are cut from its accounts; of a window that has stalled no
-- account is reported.
pub record Closed : Type 0 where
  pub window_start : ℤ
  pub window_end : ℤ
  pub quality : Quality
  pub reported : WindowCounts

abbrev pub over_minute : ℤ → Observer → Bool
over_minute end_ o = not (eqb_ℤ (sub64 end_ o.start) (pos 60))

unfoldable pub quality_of : Bool → Observer → Quality
quality_of stalled o =
    let ahead = or_empty o.next in
    let losses = add_u64 o.dropped o.window.lost in
    if stalled
    then record {
      partial_window = true;
      clock_discontinuity = true;
      dropped_requests =
          add_u64 (add_u64 losses ahead.lost) (add_u64 o.window.accepted ahead.accepted);
      unmapped_requests = add_u64 o.window.unmapped ahead.unmapped;
    }
    else record {
      partial_window = o.window.partial || ltb 0 o.dropped;
      clock_discontinuity = o.clock_gap;
      dropped_requests = losses;
      unmapped_requests = o.window.unmapped;
    }

-- The window behind the closed one: the lookahead, unless the runner has stalled.
unfoldable pub following : Bool → Observer → WindowCounts
following stalled o =
    let w = if stalled then empty_window else or_empty o.next in
    record w { partial = w.partial || ltb 0 o.dropped || o.clock_gap || stalled }

-- The window is closed at the minute `end_`, with the backlog drained.
unfoldable pub close_window : ℤ → Observer → Closed × Observer
unfolding quality_of following
close_window end_ o =
    let stalled = over_minute end_ o in
    let discarded = add_u64 o.window.accepted (or_empty o.next).accepted in
    (
      record {
        window_start = if stalled then sub64 end_ (pos 60) else o.start;
        window_end = end_;
        quality = quality_of stalled o;
        reported = if stalled then empty_window else o.window;
      },
      record o {
        start = end_;
        window_start = end_;
        window = following stalled o;
        next = none;
        dropped = 0;
        clock_gap = false;
        discarded_samples =
            if stalled then add_u64 o.discarded_samples discarded else o.discarded_samples;
      },
    )

abbrev pub some_closed : Closed × Observer → Option Closed × Observer
some_closed (c, o) = (some c, o)

-- `none` is the error of a window that is not closed.
unfoldable pub snapshot : Bool → ℤ → Observer → Option Closed × Observer
unfolding close_window drain_pending
snapshot lock_free end_ o =
    if leb_ℤ end_ o.window_start
    then (none, if not (length o.pending == 0) && lock_free then drain_pending 512 o else o)
    else if leb_ℤ end_ o.start
    then (none, o)
    else some_closed (close_window end_ (drain_pending 512 o))
