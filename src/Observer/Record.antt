-- ===== src/Observer/Record.antt =====
-- `recordPreparedLocked` (observer.go) and `recordDialLocked` (tcp_outcomes.go).
use v2b_x.Base.{
  ℕ, ◌+◌, ◌%◌, Bool, true, false, ◌&&◌, ◌||◌, not, Option, none, some, List, [], ◌∷◌, ◌++◌, Bytes,
  bytes_eq, ◌==◌, ltb, leb, if◌then◌else◌, length, any, get, put,
}
use v2b_x.Base.Int.{ℤ, pos, ltb_ℤ, eqb_ℤ, add64}
use v2b_x.Transfer.Types.{bytes_key}
use v2b_x.Observer.Types.{
  PendingRequest, DialMetrics, no_dials, DialTarget, Counts, no_counts, WindowCounts, empty_window,
  AuthRef, Observer, add_u64, succ64,
}

-- `o.drop` with the counter of its reason.
abbrev pub drop_boundary : Observer → Observer
drop_boundary o = record o {
  boundary_drops = add_u64 o.boundary_drops 1;
  dropped = add_u64 o.dropped 1;
}

-- The lookahead window, if it is there.
abbrev pub or_empty : Option WindowCounts → WindowCounts
or_empty none = empty_window
or_empty (some w) = w

-- The window of an event that falls on the minute behind the current one, or on the current one.
abbrev pub window_of : Bool → Observer → WindowCounts
window_of true o = or_empty o.next
window_of false o = o.window

abbrev pub with_window : Bool → WindowCounts → Observer → Observer
with_window true w o = record o { next = some w }
with_window false w o = record o { window = w }

abbrev pub slots : Observer → ℕ
slots o = length o.window.accounts + length (or_empty o.next).accounts

abbrev pub all_edges : Observer → ℕ
all_edges o = o.window.edges + (or_empty o.next).edges

abbrev pub has_port : ℕ → List ℕ → Bool
has_port p ports = any (λ q. q == p) ports

abbrev pub with_port : ℕ → List ℕ → List ℕ
with_port p ports = if has_port p ports then ports else ports ++ p ∷ []

-- An event that a limit turns away is counted as lost in its window.
unfoldable pub lose : Bool → WindowCounts → Observer → Observer
lose late w o = with_window late (record w { lost = add_u64 w.lost 1 }) o

unfoldable pub lose_capacity : Bool → WindowCounts → Observer → Observer
unfolding lose
lose_capacity late w o = lose late w (record o { capacity_drops = add_u64 o.capacity_drops 1 })

-- The account is stored in the window behind an accepted event, with the new edges.
unfoldable pub take_in : Bool → Bytes → Counts → ℕ → WindowCounts → Observer → Observer
take_in late subject a delta w o =
    with_window late
      (record w {
        edges = w.edges + delta;
        accepted = add_u64 w.accepted 1;
        accounts = put bytes_key subject a w.accounts;
      })
      o

abbrev pub or_zero : Option ℤ → ℤ
or_zero none = pos 0
or_zero (some n) = n

abbrev pub is_there : {A : Type 0} → Option A → Bool
is_there none = false
is_there (some _) = true

abbrev pub new_edges : Bool → Bool → ℕ
new_edges known_target known_port = (if known_target then 0 else 1) + (if known_port then 0 else 1)

abbrev pub max_int : ℤ → ℤ → ℤ
max_int a b = if ltb_ℤ b a then a else b

-- A request, on its account.
unfoldable pub count_request : PendingRequest → Counts → Counts
count_request e a =
    let n = succ64 (or_zero (get bytes_key e.target a.targets)) in
    record a {
      targets = put bytes_key e.target n a.targets;
      ports = with_port e.port a.ports;
      proxy_requests = succ64 a.proxy_requests;
      tcp_requests = if e.tcp then succ64 a.tcp_requests else a.tcp_requests;
      udp_associations = if e.tcp then a.udp_associations else succ64 a.udp_associations;
      max_target_requests = max_int n a.max_target_requests;
    }

-- `w` holds the account `a` of the subject already.
unfoldable pub record_request :
    Bool → PendingRequest → Bytes → Counts → WindowCounts → Observer → Observer
unfolding count_request lose_capacity take_in
record_request late e subject a w o =
    let known_target = is_there (get bytes_key e.target a.targets) in
    let known_port = has_port e.port a.ports in
    let delta = new_edges known_target known_port in
    if (not known_target && leb 2048 (length a.targets))
      || (not known_port && leb 2048 (length a.ports))
      || ltb 65536 (all_edges o + delta)
    then lose_capacity late w o
    else take_in late subject (count_request e a) delta w o

abbrev pub dials_of : Option DialMetrics → DialMetrics
dials_of none = no_dials
dials_of (some m) = m

-- The switch over the outcomes 1 to 5.
unfoldable pub count_outcome : ℕ → DialMetrics → DialMetrics
count_outcome outcome m =
    let n = record m { attempts = succ64 m.attempts } in
    if outcome == 1
    then record n { succeeded = succ64 m.succeeded }
    else if outcome == 2
    then record n { refused = succ64 m.refused }
    else if outcome == 3
    then record n { timed_out = succ64 m.timed_out }
    else if outcome == 4
    then record n { cancelled = succ64 m.cancelled }
    else record n { other_errors = succ64 m.other_errors }

-- A new target is two edges, with its first port; a new port of a known target is one.
unfoldable pub dial_edges : ℕ → Option DialTarget → ℕ
dial_edges port none = 2
dial_edges port (some t) = if has_port port t.ports then 0 else 1

unfoldable pub dial_full : ℕ → Counts → Option DialTarget → Bool
unfolding dial_edges
dial_full port a none = leb 2048 (length a.dial_targets)
dial_full port a (some t) = leb 2048 (length t.ports) && ltb 0 (dial_edges port (some t))

abbrev pub target_or_new : Option DialTarget → DialTarget
target_or_new none = record { attempts = pos 0; ports = [] }
target_or_new (some t) = t

unfoldable pub refuse_at : ℕ → DialTarget → DialTarget
refuse_at port t = record { attempts = succ64 t.attempts; ports = with_port port t.ports }

-- The most ports of a refused target, with the attempts on that target.
unfoldable pub most_refused : DialTarget → DialMetrics → DialMetrics
most_refused t m =
    let n = length t.ports in
    if ltb m.max_refused_target_ports n
      || (n == m.max_refused_target_ports
          && ltb_ℤ m.refused_attempts_on_max_ports_target t.attempts)
    then record m {
      max_refused_target_ports = n;
      refused_attempts_on_max_ports_target = t.attempts;
    }
    else m

unfoldable pub record_refused :
    Bool → PendingRequest → Bytes → Counts → Option DialTarget → WindowCounts → Observer → Observer
unfolding dial_full refuse_at most_refused count_outcome lose_capacity take_in
record_refused late e subject a o_target w o =
    let delta = dial_edges e.port o_target in
    let t = refuse_at e.port (target_or_new o_target) in
    if dial_full e.port a o_target || ltb 65536 (all_edges o + delta)
    then lose_capacity late w o
    else take_in late subject
        (record a {
          dial_targets = put bytes_key e.target t a.dial_targets;
          tcp_dial = some (count_outcome e.outcome (most_refused t (dials_of a.tcp_dial)));
        })
        delta w o

unfoldable pub record_dial :
    Bool → PendingRequest → Bytes → Counts → WindowCounts → Observer → Observer
unfolding record_refused
record_dial late e subject a w o =
    if not o.tcp_dial_metrics || e.outcome == 0 || ltb 5 e.outcome
    then lose late w o
    else if e.outcome == 2
    then record_refused late e subject a (get bytes_key e.target a.dial_targets) w o
    else take_in late subject
        (record a { tcp_dial = some (count_outcome e.outcome (dials_of a.tcp_dial)) }) 0 w o

abbrev pub credential_of : Option AuthRef → Bytes
credential_of none = []
credential_of (some r) = r.credential

-- The identity of the dials of an account: another credential taints it for the window.
unfoldable pub identify : Bytes → Option DialMetrics → DialMetrics
identify credential none = record no_dials {
  credential = credential;
  identity_complete = not (length credential == 0);
}
identify credential (some m) =
    if bytes_eq m.credential credential
    then m
    else record m { credential = []; identity_complete = false }

-- The account, with its identity where dials are measured.
unfoldable pub identified : PendingRequest → Observer → Counts → Counts
unfolding identify
identified e o a =
    if o.tcp_dial_metrics
    then record a {
      tcp_dial = some (identify (credential_of (get bytes_key e.key o.auth_refs)) a.tcp_dial);
    }
    else a

unfoldable pub record_account :
    Bool → PendingRequest → Bytes → Counts → WindowCounts → Observer → Observer
unfolding identified record_request record_dial
record_account late e subject a w o =
    let b = identified e o a in
    let v = record w { accounts = put bytes_key subject b w.accounts } in
    if not (e.outcome == 0)
    then record_dial late e subject b v o
    else record_request late e subject b v o

unfoldable pub record_subject :
    Bool → PendingRequest → Bytes → Option Counts → WindowCounts → Observer → Observer
unfolding record_account
record_subject late e subject (some a) w o = record_account late e subject a w o
record_subject late e subject none w o =
    if leb 4096 (slots o)
    then lose_capacity late w o
    else record_account late e subject no_counts w o

abbrev pub subject_of : Option Bytes → Bytes
subject_of none = []
subject_of (some s) = s

-- `w` is the window of the event.
unfoldable pub record_in : Bool → PendingRequest → WindowCounts → Observer → Observer
unfolding record_subject
record_in late e w o =
    let subject = subject_of (get bytes_key e.key o.bindings) in
    if length subject == 0
    then with_window late (record w { unmapped = add_u64 w.unmapped 1 }) o
    else record_subject late e subject (get bytes_key subject w.accounts) w o

unfoldable pub record_prepared : PendingRequest → Observer → Observer
unfolding record_in
record_prepared e o =
    let late = eqb_ℤ e.minute (add64 o.start (pos 60)) in
    if not (e.generation % 2 == 0) || not (e.generation == o.generation)
    then record o {
      discarded_samples = add_u64 o.discarded_samples 1;
      dropped = add_u64 o.dropped 1;
    }
    else if ltb_ℤ e.minute o.start || ltb_ℤ (add64 o.start (pos 60)) e.minute
    then drop_boundary (record o { clock_gap = true })
    else record_in late e (window_of late o) o
