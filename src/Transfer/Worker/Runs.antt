-- ===== src/Transfer/Worker/Runs.antt =====
-- What every run of a worker keeps, and that a worker that is closed stops.
use v2b_x.Base.{
  ◌≡◌, ◌∙◌, sym, ap, inl, inr, refl, Bool, true, false, ◌&&◌, ◌||◌, not, some, List, [], ◌∷◌, ◌==◌,
  if◌then◌else◌, arith, Bool-cases,
}
use v2b_x.Base.Int.{ℤ}
use v2b_x.Guard.Run.Rules.{Ends, if-Ends}
use v2b_x.Transfer.Worker.{
  Phase, idle, at_head, in_step, has_stepped, in_wait, over, Worker, new_worker, start, stop, Meets,
  has_ended, counted, move_at, move, close, has_returned,
}

pub data Call : Type 0 where
  starts closes : Bool → Call
  moves : Meets → Call

unfoldable pub call : Call → Worker → Worker
call (starts alive) w = (start alive w).1
call (closes has_context) w = (close has_context w).1
call (moves m) w = move m w

unfoldable pub calls : List Call → Worker → Worker
unfolding call
calls [] w = w
calls (x ∷ rest) w = calls rest (call x w)

-- The goroutine is in its loop.
abbrev pub is_running : Phase → Bool
is_running idle = false
is_running at_head = true
is_running in_step = true
is_running has_stepped = true
is_running in_wait = true
is_running over = false

-- `done` is closed once at most, exactly where the worker is stopped, and the loop runs exactly where
-- the worker is started and not stopped; a loop that runs can be cancelled.
pub record IsOrderly (w : Worker) : Type 0 where
  pub once : w.closes ≡ (if w.status.stopped then 1 else 0)
  pub runs : is_running w.phase ≡ (w.status.started && not w.status.stopped)
  pub cancels : w.has_cancel ≡ w.status.started

stopped-IsOrderly : (w : Worker) → is_running w.phase ≡ true → IsOrderly w → IsOrderly (stop w)
unfolding stop
stopped-IsOrderly w r v = record {
  once = ground (arith, v.once, v.runs, r);
  runs = ground (arith, v.runs, r);
  cancels = v.cancels;
}

-- The loop runs on.
onward :
    (p : Phase) (w : Worker)
    → is_running w.phase ≡ true
    → is_running p ≡ true
    → IsOrderly w
    → IsOrderly (record w { phase = p })
onward p w r k v = record { once = v.once; runs = k ∙ sym r ∙ v.runs; cancels = v.cancels }

chooses : (b : Bool) (x y : Worker) → IsOrderly x → IsOrderly y → IsOrderly (if b then x else y)
chooses true x y v u = v
chooses false x y v u = u

counts_only :
    (m : Meets) (w : Worker)
    → ((counted m w).started ≡ w.status.started) × ((counted m w).stopped ≡ w.status.stopped)
unfolding counted
counts_only m w = elim (Bool-cases (m.fails || m.late || has_ended m w)) [
  | inl e ↦ rw e (refl, refl)
  | inr e ↦ rw e (refl, refl)
]

moved-IsOrderly :
    (p : Phase) (m : Meets) (w : Worker) → w.phase ≡ p → IsOrderly w → IsOrderly (move_at p m w)
unfolding move_at
moved-IsOrderly idle m w e v = v
moved-IsOrderly over m w e v = v
moved-IsOrderly at_head m w e v =
    let r = ap is_running e in
    chooses (has_ended m w) _ _ (stopped-IsOrderly w r v) (onward in_step w r refl v)
moved-IsOrderly has_stepped m w e v =
    let r = ap is_running e in
    chooses (has_ended m w) _ _ (stopped-IsOrderly w r v) (onward in_wait w r refl v)
moved-IsOrderly in_step m w e v =
    let r = ap is_running e in
    let k = counts_only m w in
    record {
      once = v.once ∙ ap (λ b. if b then 1 else 0) (sym k.1);
      runs = sym r ∙ v.runs ∙ rw (k.0, k.1) refl;
      cancels = v.cancels ∙ sym k.0;
    }
moved-IsOrderly in_wait m w e v =
    let r = ap is_running e in
    chooses m.timer _ _ (onward at_head w r refl v)
      (chooses (has_ended m w) _ _ (stopped-IsOrderly w r v) v)

start-IsOrderly : (alive : Bool) (w : Worker) → IsOrderly w → Ends IsOrderly (start alive w)
unfolding start
start-IsOrderly alive w v =
    if-Ends (not alive || w.status.started || w.status.stopped) (λ _. record { end = v })
      (λ e. record { end = record { once = v.once; runs = ground arith; cancels = refl } })

close-IsOrderly :
    (has_context : Bool) (w : Worker) → IsOrderly w → Ends IsOrderly (close has_context w)
unfolding close
close-IsOrderly has_context w v =
    if-Ends (not has_context) (λ _. record { end = v })
      (λ _.
        if-Ends (not w.status.started && not w.status.stopped)
          (λ e. record {
            end = record {
              once = ground (arith, v.once);
              runs = ground (arith, v.runs);
              cancels = v.cancels;
            };
          })
          (λ _. record { end = record { once = v.once; runs = v.runs; cancels = v.cancels } }))

called-IsOrderly : (x : Call) (w : Worker) → IsOrderly w → IsOrderly (call x w)
unfolding call move
called-IsOrderly (starts alive) w v = (start-IsOrderly alive w v).end
called-IsOrderly (closes has_context) w v = (close-IsOrderly has_context w v).end
called-IsOrderly (moves m) w v = moved-IsOrderly w.phase m w refl v

calls-IsOrderly : (run : List Call) (w : Worker) → IsOrderly w → IsOrderly (calls run w)
unfolding calls
calls-IsOrderly [] w v = v
calls-IsOrderly (x ∷ rest) w v = calls-IsOrderly rest (call x w) (called-IsOrderly x w v)

made-IsOrderly :
    (has_stepper : Bool) (interval timeout : ℤ) (w : Worker)
    → new_worker has_stepper interval timeout ≡ some w
    → IsOrderly w
unfolding new_worker
made-IsOrderly has_stepper interval timeout w h = record {
  once = ground arith;
  runs = ground arith;
  cancels = ground arith;
}

-- In every run from `NewWorker`, `done` is closed once at most, exactly where the worker is stopped,
-- the loop runs exactly where the worker is started and not stopped, and a started worker has its
-- cancellation.
pub new_worker-IsOrderly :
    (has_stepper : Bool) (interval timeout : ℤ) (w : Worker) (run : List Call)
    → new_worker has_stepper interval timeout ≡ some w
    → IsOrderly (calls run w)
new_worker-IsOrderly has_stepper interval timeout w run h =
    calls-IsOrderly run w (made-IsOrderly has_stepper interval timeout w h)

-- A loop whose context has ended stops with its second move.
stops_at :
    (p : Phase) (m n : Meets) (w : Worker)
    → is_running p ≡ true
    → w.cancelled ≡ true
    → (move n (move_at p m w)).status.stopped ≡ true
unfolding move move_at stop
stops_at idle m n w r c = absurd (cc)
stops_at over m n w r c = absurd (cc)
stops_at at_head m n w r c = rw c refl
stops_at has_stepped m n w r c = rw c refl
stops_at in_step m n w r c = rw c refl
stops_at in_wait m n w r c = elim (Bool-cases m.timer) [
  | inl t ↦ rw (t, c) refl
  | inr t ↦ rw (t, c) refl
]

rests_at : (p : Phase) (m : Meets) (w : Worker) → is_running p ≡ false → move_at p m w ≡ w
unfolding move_at
rests_at idle m w r = refl
rests_at over m w r = refl
rests_at at_head m w r = absurd (cc)
rests_at in_step m w r = absurd (cc)
rests_at has_stepped m w r = absurd (cc)
rests_at in_wait m w r = absurd (cc)

-- A worker that is stopped, or in its loop and cancelled, is stopped two moves later.
stops_later :
    (m n : Meets) (w : Worker)
    → IsOrderly w
    → (w.status.stopped || (w.status.started && w.cancelled)) ≡ true
    → (move n (move m w)).status.stopped ≡ true
unfolding move
stops_later m n w v h = elim (Bool-cases w.status.stopped) [
  | inl s ↦
      let r : is_running w.phase ≡ false = v.runs ∙ ground arith in
      let one = rests_at w.phase m w r in
      ap (λ x. (move n x).status.stopped) one
      ∙ ap (λ x. x.status.stopped) (rests_at w.phase n w r)
      ∙ s
  | inr s ↦
      let r : is_running w.phase ≡ true = v.runs ∙ ground arith in
      stops_at w.phase m n w r (ground arith)
]

close-Ends :
    (w : Worker)
    → IsOrderly w
    → Ends (λ x. (x.status.stopped || (x.status.started && x.cancelled)) ≡ true) (close true w)
unfolding close
close-Ends w v =
    if-Ends (not w.status.started && not w.status.stopped) (λ _. record { end = refl })
      (λ e. record { end = ground (arith, v.cancels) })

-- Behind a `Close` in any run from `NewWorker`, two moves of the loop are enough: whatever the loop
-- meets in them, the worker is stopped, and the wait of `Close` returns.
pub close_stops :
    (has_stepper : Bool) (interval timeout : ℤ) (w : Worker) (run : List Call) (m n : Meets)
    → new_worker has_stepper interval timeout ≡ some w
    → let later = move n (move m (close true (calls run w)).1) in
      (later.status.stopped ≡ true) × (has_returned later ≡ true)
unfolding call
close_stops has_stepper interval timeout w run m n h =
    let v = new_worker-IsOrderly has_stepper interval timeout w run h in
    let closed = (close true (calls run w)).1 in
    let c : IsOrderly closed = called-IsOrderly (closes true) (calls run w) v in
    let later = move n (move m closed) in
    let l : IsOrderly later =
      called-IsOrderly (moves n) (move m closed) (called-IsOrderly (moves m) closed c) in
    let stopped : later.status.stopped ≡ true =
      stops_later m n closed c (close-Ends (calls run w) v).end in
    let once : later.closes ≡ 1 = l.once ∙ ap (λ b. if b then 1 else 0) stopped in
    (stopped, ap (λ k. not (k == 0)) once)
