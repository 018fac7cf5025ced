-- ===== src/Transfer/Worker.antt =====
-- `Worker` (worker.go): the accounting loop as a state machine. The goroutine is a phase, and a move
-- of it is one step; `closes` counts the calls of `close(done)`, of which a second would panic.
pub mod Runs
use v2b_x.Base.{
  ℕ, suc, ◌+◌, ◌%◌, ◌≡◌, Bool, true, false, ◌&&◌, ◌||◌, not, Option, none, some, List, [], ◌∷◌,
  if◌then◌else◌, ◌==◌,
}
use v2b_x.Base.Int.{ℤ, pos, leb_ℤ, word64}

pub record WorkerStatus : Type 0 where
  pub started : Bool
  pub stopped : Bool
  pub attempts : ℕ
  pub successes : ℕ
  pub consecutive_errors : ℕ
  pub last_success : ℤ

-- Where the goroutine of `run` is: not started, at the loop's condition, in `Step`, behind it, in
-- `select`, or returned.
pub data Phase : Type 0 where
  idle at_head in_step has_stepped in_wait over : Phase

pub record Worker : Type 0 where
  pub status : WorkerStatus
  pub phase : Phase
  pub has_cancel : Bool
  pub cancelled : Bool
  pub closes : ℕ

-- `NewWorker`; the durations are in nanoseconds.
unfoldable pub new_worker : Bool → ℤ → ℤ → Option Worker
new_worker has_stepper interval timeout =
    if not has_stepper || leb_ℤ interval (pos 0) || leb_ℤ timeout (pos 0)
    then none
    else some (record {
      status = record {
        started = false;
        stopped = false;
        attempts = 0;
        successes = 0;
        consecutive_errors = 0;
        last_success = pos 0;
      };
      phase = Phase.idle;
      has_cancel = false;
      cancelled = false;
      closes = 0;
    })

-- `Start`, for a parent that is there and has not ended, or not; false is the error.
unfoldable pub start : Bool → Worker → Bool × Worker
start alive w = if not alive || w.status.started || w.status.stopped then (false, w) else (
  true,
  record w {
    status = record (w.status) { started = true };
    phase = Phase.at_head;
    has_cancel = true;
  },
)

-- The deferred end of `run`.
unfoldable pub stop : Worker → Worker
stop w = record w {
  status = record (w.status) { stopped = true };
  phase = Phase.over;
  closes = suc w.closes;
}

-- What the goroutine meets at a move: whether the parent has ended, whether the step returns an
-- error or its deadline has passed, whether the timer is the case that `select` takes, and the clock.
pub record Meets : Type 0 where
  pub parent_ended : Bool
  pub fails : Bool
  pub late : Bool
  pub timer : Bool
  pub now : ℤ

-- `ctx.Err() != nil`
abbrev pub has_ended : Meets → Worker → Bool
has_ended m w = w.cancelled || m.parent_ended

-- A cycle ends, with the context of the step ended where its own deadline or the loop's has.
unfoldable pub counted : Meets → Worker → WorkerStatus
counted m w =
    let s = w.status in
    if m.fails || m.late || has_ended m w
    then record s {
      attempts = (s.attempts + 1) % word64;
      consecutive_errors = (s.consecutive_errors + 1) % word64;
    }
    else record s {
      attempts = (s.attempts + 1) % word64;
      successes = (s.successes + 1) % word64;
      last_success = m.now;
      consecutive_errors = 0;
    }

unfoldable pub move_at : Phase → Meets → Worker → Worker
unfolding stop counted
move_at Phase.idle m w = w
move_at Phase.over m w = w
move_at Phase.at_head m w = if has_ended m w then stop w else record w { phase = Phase.in_step }
move_at Phase.in_step m w = record w { status = counted m w; phase = Phase.has_stepped }
move_at Phase.has_stepped m w = if has_ended m w then stop w else record w { phase = Phase.in_wait }
move_at Phase.in_wait m w =
    if m.timer then record w { phase = Phase.at_head } else if has_ended m w then stop w else w

-- A move of `run`.
unfoldable pub move : Meets → Worker → Worker
unfolding move_at
move m w = move_at w.phase m w

-- `Close` up to the wait for `done`, for a context that is there; false is the error of a nil one.
unfoldable pub close : Bool → Worker → Bool × Worker
close has_context w =
    let s = w.status in
    if not has_context
    then (false, w)
    else if not s.started && not s.stopped
    then (
      true,
      record w {
        status = record s { stopped = true };
        closes = suc w.closes;
        cancelled = w.cancelled || w.has_cancel;
      },
    )
    else (true, record w { cancelled = w.cancelled || w.has_cancel })

-- The wait of `Close` returns nil.
abbrev pub has_returned : Worker → Bool
has_returned w = not (w.closes == 0)
