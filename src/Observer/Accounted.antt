-- ===== src/Observer/Accounted.antt =====
-- An event that arrives is counted once, or waits in the backlog.
use v2b_x.Base.{
  ℕ, zero, suc, ◌+◌, ◌%◌, ◌≡◌, Bool, true, false, ◌&&◌, ◌||◌, not, Option, none, some, List, [],
  ◌∷◌, ◌++◌, Bytes, bytes_eq, ◌==◌, ltb, if◌then◌else◌, length, arith, length-append,
}
use v2b_x.Base.Int.{ℤ, pos, ltb_ℤ, eqb_ℤ, add64, word64}
use v2b_x.Text.{codes}
use v2b_x.Guard.Run.Rules.{if-holds}
use v2b_x.Observer.Types.{PendingRequest, Observer}
use v2b_x.Observer.Record.{record_prepared, is_there}
use v2b_x.Observer.Events.{
  Kit, Sight, observe_minute, drain_list, drain_pending, observed_now, observed_event,
  observe_address, observe_event, observe_dial, normal_address, ticked, target_of,
}
use v2b_x.Observer.Total.{total, Counted, record_prepared-Counted}

-- `k` more events are in the observer, on uint64.
pub record Adds (k : ℕ) (o p : Observer) : Type 0 where
  pub sum : total p % word64 ≡ (total o + k) % word64

then-Adds : (j k : ℕ) (o p q : Observer) → Adds j o p → Adds k p q → Adds (j + k) o q
then-Adds j k o p q a b = let x = a.sum in let y = b.sum in record { sum = omega (arith, x, y) }

counted-Adds : (o p : Observer) → Counted o p → Adds 1 o p
counted-Adds o p c = record { sum = c.sum }

-- An event that leaves the backlog is counted.
drain_list-Adds :
    (n : ℕ) (es : List PendingRequest) (o : Observer)
    → Adds (length es) (record o { pending = [] }) (drain_list n es o)
unfolding drain_list
drain_list-Adds zero es o = record { sum = omega arith }
drain_list-Adds (suc n) [] o = record { sum = omega arith }
drain_list-Adds (suc n) (e ∷ es) o =
    let a = record_prepared-Counted e (record o { pending = es }) in
    let p = record_prepared e (record o { pending = es }) in
    let b = drain_list-Adds n es p in
    let x = a.sum in let y = a.waits in let z = b.sum in record { sum = omega (arith, x, y, z) }

pub drain-Adds : (limit : ℕ) (o : Observer) → Adds 0 o (drain_pending limit o)
unfolding drain_pending
drain-Adds limit o =
    let x = (drain_list-Adds limit o.pending o).sum in record { sum = omega (arith, x) }

-- A minute that is refused drops its event.
unfoldable refused_one : Bool → ℕ
refused_one true = 0
refused_one false = 1

record Judged (o : Observer) (p : Bool × Observer) : Type 0 where
  judged : Adds (refused_one p.0) o p.1

judge : (o : Observer) (b : Bool) (p : Observer) → Adds (refused_one b) o p → Judged o (b, p)
judge o b p h = record { judged = h }

minute-Judged :
    (minute : ℤ) (sequence : ℕ) (o : Observer) → Judged o (observe_minute minute sequence o)
unfolding observe_minute refused_one
minute-Judged minute sequence o =
    if-holds (Judged o)
      (ltb_ℤ minute o.window_start || ltb_ℤ (add64 o.window_start (pos 60)) minute) _ _
      (judge o false _ (record { sum = omega arith }))
      (if-holds (Judged o) (ltb sequence o.observed_minute.sequence) _ _
        (judge o true o (record { sum = omega arith }))
        (if-holds (Judged o) (ltb_ℤ minute o.observed_minute.minute) _ _
          (judge o false _ (record { sum = omega arith }))
          (if-holds (Judged o) (eqb_ℤ minute o.observed_minute.minute) _ _
            (judge o true o (record { sum = omega arith }))
            (judge o true _ (record { sum = omega arith })))))

-- An event that is prepared is counted once, or waits in the backlog.
now-Adds :
    (k : Kit) (s : Sight) (value : Bytes) (e : PendingRequest) (o : Observer) (p : Bool × Observer)
    → Judged o p
    → Adds 1 o (observed_now k s value e p)
unfolding observed_now refused_one
now-Adds k s value e o (false, p) h = h.judged
now-Adds k s value e o (true, p) h =
    let event =
      if not (eqb_ℤ s.prepared_start s.now_start)
      then record e { minute = s.now_start; target = target_of k s.now_start value }
      else e in
    let x = h.judged.sum in
    let y = (record_prepared-Counted event p).sum in record { sum = omega (arith, x, y) }

after-Judged : (o q : Observer) (p : Bool × Observer) → Adds 0 o q → Judged q p → Judged o p
after-Judged o q p a j =
    let x = a.sum in
    let y = j.judged.sum in record { judged = record { sum = omega (arith, x, y) } }

waiting-Adds :
    (e : PendingRequest) (o : Observer) → Adds 1 o (record o { pending = o.pending ++ e ∷ [] })
waiting-Adds e o = let l = length-append o.pending (e ∷ []) in record { sum = omega (arith, l) }

prepared-Adds :
    (k : Kit) (s : Sight) (value : Bytes) (e : PendingRequest) (o : Observer) (p : Bool × Observer)
    → Judged o p
    → Adds 1 o (observed_event k s value e p)
unfolding observed_event refused_one
prepared-Adds k s value e o (false, p) h = h.judged
prepared-Adds k s value e o (true, p) h =
    let q = ticked (drain_pending 8 p) in
    let d = (drain-Adds 8 p).sum in
    let calm : Adds 0 p q = record { sum = omega (arith, d) } in
    let inner : Adds 1 p (observed_event k s value e (true, p)) =
      if-holds (Adds 1 p) (not s.lock_free) _ _
        (if-holds (Adds 1 p) (ltb (length p.pending) 512) _ _ (waiting-Adds e p)
          (record { sum = omega arith }))
        (now-Adds k s value e p (observe_minute s.now_start q.clock_sequence q) (
          after-Judged p q (observe_minute s.now_start q.clock_sequence q) calm
            (minute-Judged s.now_start q.clock_sequence q))) in
    then-Adds 0 1 o p _ h.judged inner

address-Adds :
    (k : Kit) (s : Sight) (tag label network : Bytes) (port outcome : ℕ) (a : Option Bytes)
    (o : Observer)
    → Adds 1 o (observe_address k s tag label network port outcome a o)
unfolding observe_address
address-Adds k s tag label network port outcome none o = record { sum = omega arith }
address-Adds k s tag label network port outcome (some address) o =
    prepared-Adds k s _ _ o (observe_minute s.prepared_start (ticked o).clock_sequence (ticked o)) (
      after-Judged o (ticked o) _ (record { sum = omega arith })
        (minute-Judged s.prepared_start (ticked o).clock_sequence (ticked o)))

pub event-Adds :
    (k : Kit) (s : Sight) (tag label network address : Bytes) (port outcome : ℕ) (o : Observer)
    → Adds 1 o (observe_event k s tag label network address port outcome o)
unfolding observe_event
event-Adds k s tag label network address port outcome o =
    if-holds (Adds 1 o)
      (ltb 512 (length tag)
        || ltb 1024 (length label)
        || ltb 253 (length address)
        || port == 0
        || not (bytes_eq network (codes "tcp") || bytes_eq network (codes "udp")))
      _ _ (record { sum = omega arith })
      (address-Adds k s tag label network port outcome (normal_address k address) o)

measured-Adds :
    (b : Bool) (o p : Observer) → Adds 1 o p → Adds (if b then 1 else 0) o (if not b then o else p)
measured-Adds true o p h = h
measured-Adds false o p h = record { sum = omega arith }

-- Dials are observed where they are measured.
pub dial_event-Adds :
    (k : Kit) (s : Sight) (tag label address : Bytes) (port outcome : ℕ) (o : Observer)
    → Adds
        (if o.tcp_dial_metrics then 1 else 0)
        o
        (observe_dial k s tag label address port outcome o)
unfolding observe_dial
dial_event-Adds k s tag label address port outcome o = measured-Adds o.tcp_dial_metrics o _ (
    if-holds (Adds 1 o) (outcome == 0 || ltb 5 outcome) _ _ (record { sum = omega arith })
      (if-holds (Adds 1 o) (outcome == 2 && not (is_there (k.parse_addr address))) _ _
        (record { sum = omega arith })
        (event-Adds k s tag label (codes "tcp") address port outcome o)))
