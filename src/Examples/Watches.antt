-- ===== src/Examples/Watches.antt =====
-- An observer of two requests and a closed window, and the theorems about its counts and limits at this run.
use v2b_x.Base.{
  arith, ◌+◌, ◌%◌, ◌≡◌, refl, true, false, none, some, [], ◌∷◌, List, Bytes, get, put, del,
  bytes_eq, Assoc,
}
use v2b_x.Base.Int.{ℤ, pos, word64, add64, sub64}
use v2b_x.Text.{codes, show_int, decimal, decimal_onto}
use v2b_x.Guard.Bindings.{credential_digest}
use v2b_x.Observer.Types.{Observer}
use v2b_x.Observer.Record.{
  record_prepared, record_in, record_subject, record_account, record_request, record_dial,
  record_refused, count_request, count_outcome, most_refused, refuse_at, dial_full, dial_edges,
  take_in, lose, lose_capacity, identified, identify,
}
use v2b_x.Observer.Registry.{bind, bind_ref, bind_subject, label_key}
use v2b_x.Observer.Events.{
  Kit, Sight, observe_event, observe_address, observed_event, observed_now, observe_minute,
  drain_pending, drain_list, normal_address, parsed_or_name, host_name, observe_dial, snapshot,
  close_window, quality_of, following,
}
use v2b_x.Observer.Start.{
  new_observer, new_registered, first_observer, register_tags, register_users, register_user,
  registry_of, subject_in,
}
use v2b_x.Observer.Total.{total}
use v2b_x.Observer.Limits.{InLimits}
use v2b_x.Observer.Kept.{run-InLimits}
use v2b_x.Observer.Run.{
  Act, observes, dials, snapshots, binds, run, act, reported, arrived, run-new_observer,
}

abbrev kit : Kit
kit = record { digest = λ domain value. value; to_lower = λ s. s; parse_addr = λ s. none }

abbrev sha : Bytes → Bytes
sha s = codes "digest"

abbrev subject : Bytes
subject = codes "0123456789abcdef0123456789abcdef"

abbrev registered : Assoc Bytes (Assoc ℤ Bytes)
registered = (codes "in", (pos 1, subject) ∷ []) ∷ []

abbrev free_sight : Sight
free_sight = record { prepared_start = pos 60; now_start = pos 60; lock_free = true }

abbrev busy_sight : Sight
busy_sight = record { prepared_start = pos 60; now_start = pos 60; lock_free = false }

-- A request of a known user, one that finds the lock taken, one of an unknown user, and a dial; then
-- the window is closed.
abbrev acts : List Act
acts =
    binds (codes "in") (codes "u1") (pos 1) []
    ∷ observes free_sight (codes "in") (codes "u1") (codes "tcp") (codes "example.org") 443
    ∷ observes busy_sight (codes "in") (codes "u1") (codes "udp") (codes "example.org") 53
    ∷ observes free_sight (codes "in") (codes "u2") (codes "tcp") (codes "example.org") 443
    ∷ dials free_sight (codes "in") (codes "u1") (codes "example.org") 443 1
    ∷ snapshots true (pos 120)
    ∷ []

abbrev begun : Observer
begun = first_observer (codes "r1") true (registry_of registered) (pos 60) true

watch_runs : Unit {0}
unfolding record_prepared record_in record_subject record_account record_request record_dial
    record_refused count_request count_outcome most_refused refuse_at dial_full dial_edges take_in
    lose lose_capacity identified identify bind bind_ref bind_subject label_key observe_event
    observe_address observed_event observed_now observe_minute drain_pending drain_list
    normal_address parsed_or_name host_name observe_dial snapshot close_window quality_of following
    new_observer new_registered first_observer register_tags register_users register_user
    registry_of subject_in run act reported arrived get put del bytes_eq add64 sub64 show_int
    decimal decimal_onto credential_digest
watch_runs = tt

started : new_observer (codes "n") (codes "r1") true registered (pos 60) true ≡ some begun
unfolding watch_runs
started = refl

-- The three requests and the dial are in the closed window.
all_told : reported kit sha acts begun ≡ 4
unfolding watch_runs
all_told = refl

run-new_observer_example :
    (total (run kit sha acts begun) + reported kit sha acts begun) % word64
    ≡ arrived kit sha acts begun % word64
run-new_observer_example =
    run-new_observer kit sha (codes "n") (codes "r1") true registered (pos 60) true begun acts
      started

begun-InLimits : InLimits begun
unfolding watch_runs
begun-InLimits = record { accounts = omega arith; edges = omega arith; backlog = omega arith }

run-InLimits_example : InLimits (run kit sha acts begun)
run-InLimits_example = run-InLimits kit sha acts begun begun-InLimits
