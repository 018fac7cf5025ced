-- ===== src/Observer/Limits.antt =====
-- The limits of an observer: accounts and edges of both windows together, and the backlog.
use v2b_x.Base.{
  ℕ, suc, ◌+◌, ◌≤◌, ◌≡◌, refl, ap, Bool, true, false, ◌&&◌, ◌||◌, not, Option, none, some, [], ◌∷◌,
  Bytes, bytes_eq, ◌==◌, ltb, leb, if◌then◌else◌, length, get, put, arith, Bool-cases, inl, inr,
  length-put, put_here, Assoc, ◌%◌, ◌⊎◌,
}
use v2b_x.Base.Int.{pos, ltb_ℤ, eqb_ℤ, add64}
use v2b_x.Transfer.Types.{bytes_key}
use v2b_x.Observer.Types.{PendingRequest, DialTarget, Counts, no_counts, WindowCounts, Observer}
use v2b_x.Observer.Record.{
  or_empty, window_of, with_window, slots, all_edges, lose, lose_capacity, take_in, is_there,
  has_port, new_edges, record_request, record_refused, record_dial, record_account, record_subject,
  record_in, record_prepared, subject_of, dial_full, dial_edges, identified,
}

pub record InLimits (o : Observer) : Type 0 where
  pub accounts : slots o ≤ 4096
  pub edges : all_edges o ≤ 65536
  pub backlog : length o.pending ≤ 512

-- The window that an event does not fall into.
abbrev other : Bool → Observer → WindowCounts
other true o = o.window
other false o = or_empty o.next

-- The window with the accounts of `w` keeps within the limits; its edges are those of the observer.
record Fits (late : Bool) (w : WindowCounts) (o : Observer) : Type 0 where
  accounts : length w.accounts + length (other late o).accounts ≤ 4096
  same_edges : w.edges ≡ (window_of late o).edges
  edges : (window_of late o).edges + (other late o).edges ≤ 65536
  backlog : length o.pending ≤ 512

edges_by :
    (late : Bool) (o : Observer) → all_edges o ≡ (window_of late o).edges + (other late o).edges
edges_by true o = omega arith
edges_by false o = refl

slots_by :
    (late : Bool) (o : Observer)
    → slots o ≡ length (window_of late o).accounts + length (other late o).accounts
slots_by true o = omega arith
slots_by false o = refl

put_window :
    (late : Bool) (v : WindowCounts) (o : Observer)
    → length v.accounts + length (other late o).accounts ≤ 4096
    → v.edges + (other late o).edges ≤ 65536
    → length o.pending ≤ 512
    → InLimits (with_window late v o)
put_window true v o a e b = record {
  accounts = omega (arith, a);
  edges = omega (arith, e);
  backlog = b;
}
put_window false v o a e b = record { accounts = a; edges = e; backlog = b }

lose-InLimits :
    (late : Bool) (w : WindowCounts) (o : Observer) → Fits late w o → InLimits (lose late w o)
unfolding lose
lose-InLimits late w o f =
    let s = f.same_edges in
    let e = f.edges in put_window late _ o f.accounts (omega (arith, s, e)) f.backlog

lose_capacity-InLimits :
    (late : Bool) (w : WindowCounts) (o : Observer)
    → Fits late w o
    → InLimits (lose_capacity late w o)
unfolding lose_capacity lose
lose_capacity-InLimits true w o f =
    let a = f.accounts in
    let s = f.same_edges in
    let e = f.edges in
    record { accounts = omega (arith, a); edges = omega (arith, s, e); backlog = f.backlog }
lose_capacity-InLimits false w o f =
    let s = f.same_edges in
    let e = f.edges in
    record { accounts = f.accounts; edges = omega (arith, s, e); backlog = f.backlog }

length-put_known :
    (k : Bytes) (a b : Counts) (m : Assoc Bytes Counts)
    → get bytes_key k m ≡ some b
    → length (put bytes_key k a m) ≡ length m
unfolding get put
length-put_known k a b [] h = absurd (cc)
length-put_known k a b ((j, c) ∷ m) h = elim (Bool-cases (bytes_eq j k)) [
  | inl q ↦ rw q refl
  | inr q ↦
      let g : get bytes_key k m ≡ some b = rw q at h in rw q (ap suc (length-put_known k a b m g))
]

take_in-InLimits :
    (late : Bool) (subject : Bytes) (a b : Counts) (delta : ℕ) (w : WindowCounts) (o : Observer)
    → Fits late w o
    → get bytes_key subject w.accounts ≡ some b
    → ltb 65536 (all_edges o + delta) ≡ false
    → InLimits (take_in late subject a delta w o)
unfolding take_in
take_in-InLimits late subject a b delta w o f known room =
    let l = length-put_known subject a b w.accounts known in
    let n = f.accounts in
    let s = f.same_edges in
    let e = edges_by late o in
    let r : all_edges o + delta ≤ 65536 = ground arith in
    put_window late _ o (omega (arith, l, n)) (omega (arith, s, e, r)) f.backlog

stored_fits :
    (k : Bytes) (b a : Counts) (m : Assoc Bytes Counts) (n : ℕ)
    → length m + n ≤ 4096
    → (get bytes_key k m ≡ some a) ⊎ (suc (length m + n) ≤ 4096)
    → length (put bytes_key k b m) + n ≤ 4096
stored_fits k b a m n h (inl known) = let l = length-put_known k b a m known in omega (arith, l, h)
stored_fits k b a m n h (inr room) = let l = length-put bytes_key k b m in omega (arith, l, room)

last_false : (p q r : Bool) → (p || q || r) ≡ false → r ≡ false
last_false p q r h = ground arith

pub if-InLimits :
    (b : Bool) {p q : Observer}
    → (b ≡ true → InLimits p)
    → (b ≡ false → InLimits q)
    → InLimits (if b then p else q)
if-InLimits true h k = h refl
if-InLimits false h k = k refl

module _ (late : Bool) (e : PendingRequest) (subject : Bytes) where
  request-InLimits :
      (a : Counts) (w : WindowCounts) (o : Observer)
      → Fits late w o
      → get bytes_key subject w.accounts ≡ some a
      → InLimits (record_request late e subject a w o)
  unfolding record_request
  request-InLimits a w o f known =
      let kt = is_there (get bytes_key e.target a.targets) in
      let kp = has_port e.port a.ports in
      let delta = new_edges kt kp in
      let p = not kt && leb 2048 (length a.targets) in
      let q = not kp && leb 2048 (length a.ports) in
      if-InLimits (p || q || ltb 65536 (all_edges o + delta))
        (λ _. lose_capacity-InLimits late w o f)
        (λ room.
          take_in-InLimits late subject _ a delta w o f known
            (last_false p q (ltb 65536 (all_edges o + delta)) room))

  refused-InLimits :
      (a : Counts) (t : Option DialTarget) (w : WindowCounts) (o : Observer)
      → Fits late w o
      → get bytes_key subject w.accounts ≡ some a
      → InLimits (record_refused late e subject a t w o)
  unfolding record_refused
  refused-InLimits a t w o f known =
      let delta = dial_edges e.port t in
      if-InLimits (dial_full e.port a t || ltb 65536 (all_edges o + delta))
        (λ _. lose_capacity-InLimits late w o f)
        (λ room.
          let r : ltb 65536 (all_edges o + delta) ≡ false = ground arith in
          take_in-InLimits late subject _ a delta w o f known r)

  dial-InLimits :
      (a : Counts) (w : WindowCounts) (o : Observer)
      → Fits late w o
      → get bytes_key subject w.accounts ≡ some a
      → InLimits (record_dial late e subject a w o)
  unfolding record_dial
  dial-InLimits a w o f known =
      if-InLimits (not o.tcp_dial_metrics || e.outcome == 0 || ltb 5 e.outcome)
        (λ _. lose-InLimits late w o f)
        (λ _.
          if-InLimits (e.outcome == 2)
            (λ _. refused-InLimits a (get bytes_key e.target a.dial_targets) w o f known)
            (λ _.
              let q = edges_by late o in
              let n = f.edges in
              let r : ltb 65536 (all_edges o + 0) ≡ false = ground arith in
              take_in-InLimits late subject _ a 0 w o f known r))

  -- The account is stored with its identity first.
  account-InLimits :
      (a : Counts) (w : WindowCounts) (o : Observer)
      → Fits late w o
      → (get bytes_key subject w.accounts ≡ some a)
        ⊎ (suc (length w.accounts + length (other late o).accounts) ≤ 4096)
      → InLimits (record_account late e subject a w o)
  unfolding record_account
  account-InLimits a w o f known =
      let b = identified e o a in
      let v = record w { accounts = put bytes_key subject b w.accounts } in
      let here = put_here bytes_key subject b w.accounts in
      let fits : Fits late v o = record {
        accounts =
            stored_fits subject b a w.accounts (length (other late o).accounts) f.accounts known;
        same_edges = f.same_edges;
        edges = f.edges;
        backlog = f.backlog;
      } in
      if-InLimits (not (e.outcome == 0)) (λ _. dial-InLimits b v o fits here)
        (λ _. request-InLimits b v o fits here)

  subject-InLimits :
      (o_account : Option Counts) (w : WindowCounts) (o : Observer)
      → Fits late w o
      → get bytes_key subject w.accounts ≡ o_account
      → length w.accounts ≡ length (window_of late o).accounts
      → InLimits (record_subject late e subject o_account w o)
  unfolding record_subject
  subject-InLimits (some a) w o f known same = account-InLimits a w o f (inl known)
  subject-InLimits none w o f known same =
      if-InLimits (leb 4096 (slots o)) (λ _. lose_capacity-InLimits late w o f)
        (λ room.
          let s = slots_by late o in
          let r : suc (slots o) ≤ 4096 = ground arith in
          account-InLimits no_counts w o f (inr (omega (arith, s, r, same))))

window-Fits : (late : Bool) (o : Observer) → InLimits o → Fits late (window_of late o) o
window-Fits late o h =
    let s = slots_by late o in
    let e = edges_by late o in
    let a = h.accounts in
    let b = h.edges in
    record {
      accounts = omega (arith, s, a);
      same_edges = refl;
      edges = omega (arith, e, b);
      backlog = h.backlog;
    }

-- An event that is taken up keeps to the limits.
pub record_prepared-InLimits :
    (e : PendingRequest) (o : Observer) → InLimits o → InLimits (record_prepared e o)
unfolding record_prepared record_in
record_prepared-InLimits e o h =
    let late = eqb_ℤ e.minute (add64 o.start (pos 60)) in
    let w = window_of late o in
    let f = window-Fits late o h in
    let subject = subject_of (get bytes_key e.key o.bindings) in
    if-InLimits (not (e.generation % 2 == 0) || not (e.generation == o.generation))
      (λ _. record { accounts = h.accounts; edges = h.edges; backlog = h.backlog })
      (λ _.
        if-InLimits (ltb_ℤ e.minute o.start || ltb_ℤ (add64 o.start (pos 60)) e.minute)
          (λ _. record { accounts = h.accounts; edges = h.edges; backlog = h.backlog })
          (λ _.
            if-InLimits (length subject == 0)
              (λ _. put_window late _ o f.accounts f.edges f.backlog)
              (λ _.
                subject-InLimits late e subject (get bytes_key subject w.accounts) w o f refl
                  refl)))
