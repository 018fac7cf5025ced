-- ===== src/Observer/Total.antt =====
-- What becomes of an event that is taken up: it is accepted, lost, unmapped or dropped, once.
use v2b_x.Base.{
  ℕ, ◌+◌, ◌%◌, ◌≡◌, refl, Bool, true, false, ◌||◌, not, Option, none, some, Bytes, ◌==◌, ltb, leb,
  length, get, put, arith,
}
use v2b_x.Base.Int.{pos, ltb_ℤ, eqb_ℤ, add64, word64}
use v2b_x.Transfer.Types.{bytes_key}
use v2b_x.Guard.Run.Rules.{if-holds}
use v2b_x.Observer.Types.{PendingRequest, DialTarget, Counts, no_counts, WindowCounts, Observer}
use v2b_x.Observer.Record.{
  or_empty, window_of, with_window, slots, lose, lose_capacity, take_in, record_request,
  record_refused, record_dial, record_account, record_subject, record_in, record_prepared,
  subject_of, identified,
}

-- The events of a window.
abbrev pub weight : WindowCounts → ℕ
weight w = w.accepted + w.lost + w.unmapped

-- The events that are counted or wait in the backlog.
abbrev pub total : Observer → ℕ
total o = o.dropped + weight o.window + weight (or_empty o.next) + length o.pending

-- One more event is counted, on uint64, and the backlog is as it was.
pub record Counted (o p : Observer) : Type 0 where
  pub sum : total p % word64 ≡ (total o + 1) % word64
  pub waits : length p.pending ≡ length o.pending

window-Counted :
    (late : Bool) (v : WindowCounts) (o : Observer)
    → weight v % word64 ≡ (weight (window_of late o) + 1) % word64
    → Counted o (with_window late v o)
window-Counted true v o h = record { sum = omega (arith, h); waits = refl }
window-Counted false v o h = record { sum = omega (arith, h); waits = refl }

-- `w` is the window of the event, but for its accounts.
abbrev IsCurrent : Bool → WindowCounts → Observer → Type 0
IsCurrent late w o = weight w ≡ weight (window_of late o)

lose-Counted :
    (late : Bool) (w : WindowCounts) (o : Observer) → IsCurrent late w o → Counted o (lose late w o)
unfolding lose
lose-Counted late w o h = window-Counted late _ o (omega (arith, h))

lose_capacity-Counted :
    (late : Bool) (w : WindowCounts) (o : Observer)
    → IsCurrent late w o
    → Counted o (lose_capacity late w o)
unfolding lose_capacity lose
lose_capacity-Counted true w o h = record { sum = omega (arith, h); waits = refl }
lose_capacity-Counted false w o h = record { sum = omega (arith, h); waits = refl }

take_in-Counted :
    (late : Bool) (subject : Bytes) (a : Counts) (delta : ℕ) (w : WindowCounts) (o : Observer)
    → IsCurrent late w o
    → Counted o (take_in late subject a delta w o)
unfolding take_in
take_in-Counted late subject a delta w o h = window-Counted late _ o (omega (arith, h))

module _ (late : Bool) (e : PendingRequest) (subject : Bytes) where
  request-Counted :
      (a : Counts) (w : WindowCounts) (o : Observer)
      → IsCurrent late w o
      → Counted o (record_request late e subject a w o)
  unfolding record_request
  request-Counted a w o h =
      if-holds (Counted o) _ _ _ (lose_capacity-Counted late w o h)
        (take_in-Counted late subject _ _ w o h)

  refused-Counted :
      (a : Counts) (t : Option DialTarget) (w : WindowCounts) (o : Observer)
      → IsCurrent late w o
      → Counted o (record_refused late e subject a t w o)
  unfolding record_refused
  refused-Counted a t w o h =
      if-holds (Counted o) _ _ _ (lose_capacity-Counted late w o h)
        (take_in-Counted late subject _ _ w o h)

  dial-Counted :
      (a : Counts) (w : WindowCounts) (o : Observer)
      → IsCurrent late w o
      → Counted o (record_dial late e subject a w o)
  unfolding record_dial
  dial-Counted a w o h =
      if-holds (Counted o) (not o.tcp_dial_metrics || e.outcome == 0 || ltb 5 e.outcome) _ _
        (lose-Counted late w o h)
        (if-holds (Counted o) (e.outcome == 2) _ _
          (refused-Counted a (get bytes_key e.target a.dial_targets) w o h)
          (take_in-Counted late subject _ 0 w o h))

  account-Counted :
      (a : Counts) (w : WindowCounts) (o : Observer)
      → IsCurrent late w o
      → Counted o (record_account late e subject a w o)
  unfolding record_account
  account-Counted a w o h =
      let b = identified e o a in
      let v = record w { accounts = put bytes_key subject b w.accounts } in
      if-holds (Counted o) (not (e.outcome == 0)) _ _ (dial-Counted b v o h)
        (request-Counted b v o h)

  subject-Counted :
      (a : Option Counts) (w : WindowCounts) (o : Observer)
      → IsCurrent late w o
      → Counted o (record_subject late e subject a w o)
  unfolding record_subject
  subject-Counted (some a) w o h = account-Counted a w o h
  subject-Counted none w o h =
      if-holds (Counted o) (leb 4096 (slots o)) _ _ (lose_capacity-Counted late w o h)
        (account-Counted no_counts w o h)

in-Counted :
    (late : Bool) (e : PendingRequest) (w : WindowCounts) (o : Observer)
    → IsCurrent late w o
    → Counted o (record_in late e w o)
unfolding record_in
in-Counted late e w o h =
    let subject = subject_of (get bytes_key e.key o.bindings) in
    if-holds (Counted o) (length subject == 0) _ _ (window-Counted late _ o (omega (arith, h)))
      (subject-Counted late e subject (get bytes_key subject w.accounts) w o h)

pub record_prepared-Counted : (e : PendingRequest) (o : Observer) → Counted o (record_prepared e o)
unfolding record_prepared
record_prepared-Counted e o =
    let late = eqb_ℤ e.minute (add64 o.start (pos 60)) in
    if-holds (Counted o) (not (e.generation % 2 == 0) || not (e.generation == o.generation)) _ _
      (record { sum = omega arith; waits = refl })
      (if-holds (Counted o) (ltb_ℤ e.minute o.start || ltb_ℤ (add64 o.start (pos 60)) e.minute) _ _
        (record { sum = omega arith; waits = refl }) (in-Counted late e (window_of late o) o refl))
