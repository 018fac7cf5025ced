-- ===== src/Examples/Loops.antt =====
-- Tests of the cleaning of a configuration file, and the theorems on it and on the worker at inputs.
use v2b_x.Base.{◌≡◌, refl, true, false, Option, none, some, List, [], ◌∷◌, Bytes, length, ◌≤◌}
use v2b_x.Base.Int.{pos}
use v2b_x.Text.{codes}
use v2b_x.Json5.{
  Cursor, blank, blank_line, blank_block, and_then, line_comment, block_comment, consume_comment,
  read_string, read_comma, turn, turns, prep,
}
use v2b_x.Json5.Blanks.{AreBlanked}
use v2b_x.Json5.Total.{prep_finishes}
use v2b_x.Transfer.Worker.{
  idle, in_step, Worker, Meets, new_worker, start, stop, counted, move_at, move, close,
  has_returned,
}
use v2b_x.Transfer.Worker.Runs.{
  Call, starts, moves, call, calls, IsOrderly, new_worker-IsOrderly, close_stops,
}

abbrev text_of : Option Cursor → Bytes
text_of none = []
text_of (some c) = c.text

prep_runs : Unit {0}
unfolding prep turns turn read_comma read_string consume_comment block_comment line_comment and_then
    blank_block blank_line blank
prep_runs = tt

-- A trailing comma and a comment go, and a string stays.
cleans : text_of (prep (codes "[\"//,]\",1,/*x*/]//")) ≡ codes "[\"//,]\",1      ]  "
unfolding prep_runs
cleans = refl

-- A block comment whose end has two stars runs on to the end of the text.
runs_on : text_of (prep (codes "/*a**/1")) ≡ codes "    *  "
unfolding prep_runs
runs_on = refl

prep_finishes_example :
    (c : Cursor) × (prep (codes "[1,]") ≡ some c)
    × AreBlanked (codes "[1,]") c.text
    × (length c.text ≡ length (codes "[1,]"))
    × (length (codes "[1,]") ≤ c.at)
prep_finishes_example = prep_finishes (codes "[1,]")

abbrev fresh_worker : Worker
fresh_worker = record {
  status = record {
    started = false;
    stopped = false;
    attempts = 0;
    successes = 0;
    consecutive_errors = 0;
    last_success = pos 0;
  };
  phase = idle;
  has_cancel = false;
  cancelled = false;
  closes = 0;
}

is_made : new_worker true (pos 60) (pos 10) ≡ some fresh_worker
unfolding new_worker
is_made = refl

abbrev calm : Meets
calm = record { parent_ended = false; fails = false; late = false; timer = true; now = pos 9 }

-- The loop is in its second step.
abbrev worker_run : List Call
worker_run =
    starts true ∷ moves calm ∷ moves calm ∷ moves calm ∷ moves calm ∷ moves calm ∷ starts true ∷ []

worker_runs : Unit {0}
unfolding calls call start stop counted move_at move close
worker_runs = tt

steps_twice : (calls worker_run fresh_worker).phase ≡ in_step
unfolding worker_runs
steps_twice = refl

new_worker-IsOrderly_example : IsOrderly (calls worker_run fresh_worker)
new_worker-IsOrderly_example =
    new_worker-IsOrderly true (pos 60) (pos 10) fresh_worker worker_run is_made

close_stops_example :
    let later = move calm (move calm (close true (calls worker_run fresh_worker)).1) in
    (later.status.stopped ≡ true) × (has_returned later ≡ true)
close_stops_example = close_stops true (pos 60) (pos 10) fresh_worker worker_run calm calm is_made
