-- ===== src/Observer/Kept.antt =====
-- Every act of an observer keeps to its limits.
use v2b_x.Base.{
  ℕ, zero, suc, ◌≤◌, Bool, true, false, ◌&&◌, ◌||◌, not, Option, none, some, List, [], ◌∷◌, Bytes,
  bytes_eq, ◌==◌, ltb, leb, if◌then◌else◌, length, get, arith, Bool-cases, inl, inr, Assoc,
  length-append,
}
use v2b_x.Base.Int.{ℤ, pos, ltb_ℤ, leb_ℤ, eqb_ℤ, add64}
use v2b_x.Text.{codes}
use v2b_x.Transfer.Types.{bytes_key}
use v2b_x.Guard.Run.Rules.{Ends, if-Ends}
use v2b_x.Observer.Types.{PendingRequest, AuthRef, Observer}
use v2b_x.Observer.Record.{record_prepared, is_there, slots, all_edges}
use v2b_x.Observer.Registry.{
  bind, bind_ref, bind_subject, unbind, unbind_refs, unbind_tag, replace_registry, reset_windows,
  refer, same_ref, label_key,
}
use v2b_x.Observer.Events.{
  Kit, Sight, observe_minute, drain_list, drain_pending, observed_now, observed_event,
  observe_address, observe_event, observe_dial, normal_address, over_minute, following,
  close_window, snapshot, ticked, target_of,
}
use v2b_x.Observer.Limits.{InLimits, if-InLimits, record_prepared-InLimits}
use v2b_x.Observer.Run.{
  Act, observes, dials, snapshots, binds, unbinds, unbinds_tag, replaces, act, run,
}

drain_list-InLimits :
    (n : ℕ) (es : List PendingRequest) (o : Observer)
    → length es ≤ 512
    → slots o ≤ 4096
    → all_edges o ≤ 65536
    → InLimits (drain_list n es o)
unfolding drain_list
drain_list-InLimits zero es o b s e = record { accounts = s; edges = e; backlog = b }
drain_list-InLimits (suc n) [] o b s e = record { accounts = s; edges = e; backlog = omega arith }
drain_list-InLimits (suc n) (q ∷ es) o b s e =
    let c : length es ≤ 512 = omega (arith, b) in
    let p =
      record_prepared-InLimits q (record o { pending = es })
        (record { accounts = s; edges = e; backlog = c }) in
    drain_list-InLimits n es (record_prepared q (record o { pending = es })) c p.accounts p.edges

drain-InLimits : (n : ℕ) (o : Observer) → InLimits o → InLimits (drain_pending n o)
unfolding drain_pending
drain-InLimits n o h = drain_list-InLimits n o.pending o h.backlog h.accounts h.edges

minute-InLimits :
    (minute : ℤ) (sequence : ℕ) (o : Observer)
    → InLimits o
    → Ends InLimits (observe_minute minute sequence o)
unfolding observe_minute
minute-InLimits minute sequence o h =
    let same : InLimits (record o { clock_gap = true }) = record {
      accounts = h.accounts;
      edges = h.edges;
      backlog = h.backlog;
    } in
    if-Ends (ltb_ℤ minute o.window_start || ltb_ℤ (add64 o.window_start (pos 60)) minute)
      (λ _. record { end = record { accounts = h.accounts; edges = h.edges; backlog = h.backlog } })
      (λ _.
        if-Ends (ltb sequence o.observed_minute.sequence) (λ _. record { end = h })
          (λ _.
            if-Ends (ltb_ℤ minute o.observed_minute.minute)
              (λ _. record {
                end = record { accounts = h.accounts; edges = h.edges; backlog = h.backlog };
              })
              (λ _.
                if-Ends (eqb_ℤ minute o.observed_minute.minute) (λ _. record { end = h })
                  (λ _. record {
                    end = record { accounts = h.accounts; edges = h.edges; backlog = h.backlog };
                  }))))

now-InLimits :
    (k : Kit) (s : Sight) (value : Bytes) (e : PendingRequest) (p : Bool × Observer)
    → Ends InLimits p
    → InLimits (observed_now k s value e p)
unfolding observed_now
now-InLimits k s value e (false, o) h = h.end
now-InLimits k s value e (true, o) h =
    record_prepared-InLimits
      (if not (eqb_ℤ s.prepared_start s.now_start)
        then record e { minute = s.now_start; target = target_of k s.now_start value }
        else e)
      o h.end

prepared-InLimits :
    (k : Kit) (s : Sight) (value : Bytes) (e : PendingRequest) (p : Bool × Observer)
    → Ends InLimits p
    → InLimits (observed_event k s value e p)
unfolding observed_event
prepared-InLimits k s value e (false, o) h = h.end
prepared-InLimits k s value e (true, o) h =
    let h0 = h.end in
    let d = drain-InLimits 8 o h0 in
    let q = ticked (drain_pending 8 o) in
    if-InLimits (not s.lock_free)
      (λ _.
        if-InLimits (ltb (length o.pending) 512)
          (λ room.
            let l = length-append o.pending (e ∷ []) in
            let r : suc (length o.pending) ≤ 512 = ground arith in
            record { accounts = h0.accounts; edges = h0.edges; backlog = omega (arith, l, r) })
          (λ _. record { accounts = h0.accounts; edges = h0.edges; backlog = h0.backlog }))
      (λ _. now-InLimits k s value e (observe_minute s.now_start q.clock_sequence q) (
        minute-InLimits s.now_start q.clock_sequence q
          (record { accounts = d.accounts; edges = d.edges; backlog = d.backlog })))

address-InLimits :
    (k : Kit) (s : Sight) (tag label network : Bytes) (port outcome : ℕ) (a : Option Bytes)
    (o : Observer)
    → InLimits o
    → InLimits (observe_address k s tag label network port outcome a o)
unfolding observe_address
address-InLimits k s tag label network port outcome none o h = record {
  accounts = h.accounts;
  edges = h.edges;
  backlog = h.backlog;
}
address-InLimits k s tag label network port outcome (some address) o h =
    prepared-InLimits k s _ _ (observe_minute s.prepared_start (ticked o).clock_sequence (ticked o))
      (minute-InLimits s.prepared_start (ticked o).clock_sequence (ticked o)
        (record { accounts = h.accounts; edges = h.edges; backlog = h.backlog }))

event-InLimits :
    (k : Kit) (s : Sight) (tag label network address : Bytes) (port outcome : ℕ) (o : Observer)
    → InLimits o
    → InLimits (observe_event k s tag label network address port outcome o)
unfolding observe_event
event-InLimits k s tag label network address port outcome o h =
    if-InLimits
      (ltb 512 (length tag)
        || ltb 1024 (length label)
        || ltb 253 (length address)
        || port == 0
        || not (bytes_eq network (codes "tcp") || bytes_eq network (codes "udp")))
      (λ _. record { accounts = h.accounts; edges = h.edges; backlog = h.backlog })
      (λ _. address-InLimits k s tag label network port outcome (normal_address k address) o h)

dial_event-InLimits :
    (k : Kit) (s : Sight) (tag label address : Bytes) (port outcome : ℕ) (o : Observer)
    → InLimits o
    → InLimits (observe_dial k s tag label address port outcome o)
unfolding observe_dial
dial_event-InLimits k s tag label address port outcome o h =
    if-InLimits (not o.tcp_dial_metrics) (λ _. h)
      (λ _.
        if-InLimits (outcome == 0 || ltb 5 outcome)
          (λ _. record { accounts = h.accounts; edges = h.edges; backlog = h.backlog })
          (λ _.
            if-InLimits (outcome == 2 && not (is_there (k.parse_addr address)))
              (λ _. record { accounts = h.accounts; edges = h.edges; backlog = h.backlog })
              (λ _. event-InLimits k s tag label (codes "tcp") address port outcome o h)))

close-InLimits : (end_ : ℤ) (o : Observer) → InLimits o → InLimits (close_window end_ o).1
unfolding close_window following
close-InLimits end_ o h =
    let a = h.accounts in
    let e = h.edges in
    elim (Bool-cases (over_minute end_ o)) [
      | inl b ↦ record {
        accounts = rw b (omega arith);
        edges = rw b (omega arith);
        backlog = h.backlog;
      }
      | inr b ↦ record {
        accounts = rw b (omega (arith, a));
        edges = rw b (omega (arith, e));
        backlog = h.backlog;
      }
    ]

snapshot-InLimits :
    (lock_free : Bool) (end_ : ℤ) (o : Observer)
    → InLimits o
    → Ends InLimits (snapshot lock_free end_ o)
unfolding snapshot
snapshot-InLimits lock_free end_ o h =
    if-Ends (leb_ℤ end_ o.window_start)
      (λ _. record {
        end =
            if-InLimits (not (length o.pending == 0) && lock_free) (λ _. drain-InLimits 512 o h)
              (λ _. h);
      })
      (λ _.
        if-Ends (leb_ℤ end_ o.start) (λ _. record { end = h })
          (λ _. record {
            end = close-InLimits end_ (drain_pending 512 o) (drain-InLimits 512 o h);
          }))

unbind_refs-InLimits :
    (tag : Bytes) (refs : Assoc Bytes AuthRef) (o : Observer)
    → InLimits o
    → InLimits (unbind_refs tag refs o)
unfolding unbind_refs
unbind_refs-InLimits tag [] o h = h
unbind_refs-InLimits tag ((key, ref) ∷ rest) o h = unbind_refs-InLimits tag rest _ (
    if-InLimits (bytes_eq ref.tag tag)
      (λ _. record { accounts = h.accounts; edges = h.edges; backlog = h.backlog }) (λ _. h))

replace-InLimits :
    (revision : Bytes) (registry : Option (Bytes → ℤ → Bytes)) (o : Observer)
    → InLimits o
    → InLimits (replace_registry revision registry o).1
unfolding replace_registry reset_windows
replace-InLimits revision none o h = h
replace-InLimits revision (some registry) o h = record {
  accounts = omega arith;
  edges = omega arith;
  backlog = omega arith;
}

refer-InLimits :
    (key : Bytes) (ref : AuthRef) (o : Observer) → InLimits o → InLimits (refer key ref o)
refer-InLimits key ref o h =
    elim (Bool-cases (not (same_ref ref (get bytes_key key o.auth_refs)))) [
      | inl b ↦ rw b (record { accounts = h.accounts; edges = h.edges; backlog = h.backlog })
      | inr b ↦ rw b (record { accounts = h.accounts; edges = h.edges; backlog = h.backlog })
    ]

subject_bind-InLimits :
    (key subject : Bytes) (o : Observer) → InLimits o → Ends InLimits (bind_subject key subject o)
unfolding bind_subject
subject_bind-InLimits key subject o h =
    if-Ends (length subject == 0)
      (λ _. record { end = record { accounts = h.accounts; edges = h.edges; backlog = h.backlog } })
      (λ _.
        if-Ends (leb 50000 (length o.bindings) && not (is_there (get bytes_key key o.bindings)))
          (λ _. record { end = h })
          (λ _. record {
            end = record { accounts = h.accounts; edges = h.edges; backlog = h.backlog };
          }))

ref-InLimits :
    (key : Bytes) (ref : AuthRef) (o : Observer) → InLimits o → Ends InLimits (bind_ref key ref o)
unfolding bind_ref
ref-InLimits key ref o h =
    if-Ends (leb 50000 (length o.auth_refs) && not (is_there (get bytes_key key o.auth_refs)))
      (λ _. record { end = h })
      (λ _.
        subject_bind-InLimits key (o.registry ref.tag ref.uid) (refer key ref o)
          (refer-InLimits key ref o h))

bind-InLimits :
    (digest : Bytes → Bytes → Bytes) (sha256_hex : Bytes → Bytes) (tag label : Bytes) (uid : ℤ)
    (credential : List Bytes) (o : Observer)
    → InLimits o
    → Ends InLimits (bind digest sha256_hex tag label uid credential o)
unfolding bind
bind-InLimits digest sha256_hex tag label uid credential o h =
    if-Ends
      (length label == 0
        || ltb 1024 (length label)
        || length tag == 0
        || ltb 512 (length tag)
        || leb_ℤ uid (pos 0))
      (λ _. record { end = h }) (λ _. ref-InLimits (label_key digest tag label) _ o h)

act-InLimits :
    (k : Kit) (sha256_hex : Bytes → Bytes) (a : Act) (o : Observer)
    → InLimits o
    → InLimits (act k sha256_hex a o)
unfolding act unbind unbind_tag
act-InLimits k sha256_hex (observes s tag label network address port) o h =
    event-InLimits k s tag label network address port 0 o h
act-InLimits k sha256_hex (dials s tag label address port outcome) o h =
    dial_event-InLimits k s tag label address port outcome o h
act-InLimits k sha256_hex (snapshots lock_free end_) o h =
    (snapshot-InLimits lock_free end_ o h).end
act-InLimits k sha256_hex (binds tag label uid credential) o h =
    (bind-InLimits k.digest sha256_hex tag label uid credential o h).end
act-InLimits k sha256_hex (unbinds tag label) o h = record {
  accounts = h.accounts;
  edges = h.edges;
  backlog = h.backlog;
}
act-InLimits k sha256_hex (unbinds_tag tag) o h =
    unbind_refs-InLimits tag o.auth_refs _
      (record { accounts = h.accounts; edges = h.edges; backlog = h.backlog })
act-InLimits k sha256_hex (replaces revision registry) o h = replace-InLimits revision registry o h

-- The limits hold through every run.
pub run-InLimits :
    (k : Kit) (sha256_hex : Bytes → Bytes) (acts : List Act) (o : Observer)
    → InLimits o
    → InLimits (run k sha256_hex acts o)
unfolding run
run-InLimits k sha256_hex [] o h = h
run-InLimits k sha256_hex (a ∷ acts) o h =
    run-InLimits k sha256_hex acts (act k sha256_hex a o) (act-InLimits k sha256_hex a o h)
