-- ===== src/Examples/Nodes.antt =====
-- The parts around a node at concrete inputs: its counters, its legacy reports and its cores.
use v2b_x.Base.{
  get, put, ℕ, ◌+◌, if◌then◌else◌, ◌≡◌, ◌≤◌, ◌++◌, ◌⊎◌, ◌==◌, refl, true, false, Option, none, some,
  List, [], ◌∷◌, Bytes, bytes_eq, length, All,
}
use v2b_x.Base.Int.{pos, add64, sub64}
use v2b_x.Text.{
  codes, show_int, show_int20, valid_hex, hex_decode, from_hex_digit, hex_encode, hex_digit,
  bytes_lt,
}
use v2b_x.Transfer.Types.{Batch, ok}
use v2b_x.Transfer.Samples.{
  is_counter, key, insert_sample, sort_samples, neighbours_differ, samples,
}
use v2b_x.Transfer.Wire.{hash}
use v2b_x.Transfer.Open.{matches_scope}
use v2b_x.Transfer.Outbox.{max_sequence}
use v2b_x.Transfer.Delta.Growth.{Direction}
use v2b_x.Transfer.Legacy.Payload.{Payload, Totals, add_rows, payload_of, legacy_payload}
use v2b_x.Transfer.Legacy.Sums.{owned, reported}
use v2b_x.Transfer.Legacy.Totals.{legacy_payload_totals}
use v2b_x.Transfer.Wire.{ack_for}
use v2b_x.Panel.{Url, Client, set_traffic_epoch, enable_legacy_accounting}
use v2b_x.Panel.Modes.{Setup, HasOneMode, set_up, sets_up, sets_up-HasOneMode}
use v2b_x.Panel.Push.{
  Reply, Response, acknowledged, IsBooked, judge, judge_reply, send, commit, commit-IsBooked,
}
use v2b_x.Selector.{Options, Calls, State, SelectorError, serves, select}
use v2b_x.Selector
use v2b_x.Selector.Routing.{Op, Serves, select-Serves}
use mathlib.Core.List.{Mem}
use v2b_x.Counter.{new_traffic_counter, blank_storage, get_up_count, get_down_count}
use v2b_x.Counter.Runs.{Use, receives, sends, resets, use_all, meant_all, counts_traffic}
use v2b_x.Examples.Outbox.{alice, bob, row}

abbrev traffic_run : List Use
traffic_run =
    sends (codes "a") (pos 5)
    ∷ resets (codes "a")
    ∷ sends (codes "a") (pos 7)
    ∷ sends (codes "b") (pos 1)
    ∷ receives (codes "a") (pos 2)
    ∷ []

counts_traffic_example :
    let c = use_all traffic_run new_traffic_counter in
    let s = meant_all (codes "a") traffic_run blank_storage in
    (get_up_count (codes "a") c ≡ s.up_counter) × (get_down_count (codes "a") c ≡ s.down_counter)
counts_traffic_example = counts_traffic traffic_run (codes "a")

-- The meant counters of the run.
meant_counters :
    meant_all (codes "a") traffic_run blank_storage
    ≡ record { up_counter = pos 7; down_counter = pos 2 }
unfolding add64 bytes_eq
meant_counters = refl

abbrev digest : Bytes → Bytes
digest s = bob

-- A user with two credentials, and one without traffic.
abbrev report : Batch
report = record {
  version = pos 1;
  scope = codes "vless-7";
  epoch = codes "0123456789abcdef0123456789abcdef";
  sequence = 1;
  entries = row 1 bob 10 20 ∷ row 2 alice 0 0 ∷ row 1 alice 1 2 ∷ [];
  digest = bob;
}

abbrev report_totals : Totals
report_totals = (pos 1, (pos 11, pos 22)) ∷ []

report_runs : Unit {0}
unfolding legacy_payload add_rows payload_of samples is_counter key insert_sample sort_samples
    neighbours_differ hash matches_scope add64 valid_hex hex_decode from_hex_digit bytes_eq
    hex_encode hex_digit bytes_lt show_int20 show_int sub64 get put
report_runs = tt

is_payload : legacy_payload digest report ≡ ok (payload_of digest report report_totals)
unfolding report_runs
is_payload = refl

legacy_payload_totals_example :
    (reported Direction.up (pos 1) (payload_of digest report report_totals).totals
      ≡ pos (owned Direction.up (pos 1) report.entries))
    × (owned Direction.up (pos 1) report.entries ≤ max_sequence)
legacy_payload_totals_example =
    legacy_payload_totals digest report (payload_of digest report report_totals) Direction.up
      (pos 1) is_payload

abbrev parse : Bytes → Option Url
parse s = some (record {
  scheme = codes "https";
  host = s;
  has_user = false;
  raw_query = [];
  fragment = [];
  path = codes "/";
})

abbrev client : Client
client = record {
  api_host = codes "panel";
  node_type = codes "vless";
  node_id = pos 7;
  traffic_epoch = [];
  legacy_accounting = false;
  user_etag = codes "x";
  headers = [];
  follows_redirects = true;
}

abbrev set_ups : List Setup
set_ups = Setup.enables_legacy ∷ Setup.sets_epoch (codes "0123456789abcdef0123456789abcdef") ∷ []

-- The first of the two modes stays.
legacy_stays : (sets_up parse set_ups client).legacy_accounting ≡ true
unfolding sets_up set_up set_traffic_epoch enable_legacy_accounting report_runs
legacy_stays = refl

sets_up-HasOneMode_example : HasOneMode parse (sets_up parse set_ups client)
sets_up-HasOneMode_example = sets_up-HasOneMode parse set_ups client refl refl

-- A panel that answers each report with its own id and digest, committed.
abbrev push : Payload → ℕ → ℕ × Option (Response Payload)
push p w = (w + 1, some (record { status = 200; body = p }))

abbrev reply_of : Payload → Option Reply
reply_of p = some (record { request_id = p.id; digest = p.digest; committed = true })

abbrev legacy_client : Client
legacy_client = record client { legacy_accounting = true }

commits :
    (commit digest push (λ p. none) reply_of legacy_client report 0).1
    ≡ acknowledged (ack_for report)
unfolding report_runs commit send judge judge_reply
commits = refl

commit-IsBooked_example :
    (legacy_client.legacy_accounting ≡ true)
    × (length legacy_client.traffic_epoch ≡ 0)
    × (report.scope ≡ codes "vless-" ++ show_int legacy_client.node_id)
    × IsBooked digest push (λ p. none) reply_of report 0 (ack_for report)
commit-IsBooked_example =
    commit-IsBooked digest push (λ p. none) reply_of legacy_client report 0 (ack_for report) commits

-- Two cores, 1 and 2, of which the second serves vless; the world counts the calls.
abbrev calls : Calls ℕ Bytes ℕ ℕ ℕ ℕ ℕ
calls = record {
  to_lower = λ s. s;
  maker = λ s. none;
  type_of = λ c. if c == 1 then codes "sing" else codes "xray";
  protocols_of = λ c. if c == 1 then codes "trojan" ∷ [] else codes "vless" ∷ [];
  node_type = λ n. n;
  unmarshal = some;
  start_core = λ c w. (w + 1, true);
  close_core = λ c w. (w + 1, true);
  add_node_to = λ c tag n option w. (w + 1, true);
  del_node_of = λ c tag w. (w + 1, true);
  add_users_to = λ c tag users w. (w + 1, some (users + c));
  traffic_of = λ c tag reset w. (w + 1, some w);
  del_users_of = λ c tag users w. (w + 1, true);
  accounting_of = λ c. none;
}

abbrev selector : State ℕ ℕ
selector = record { cores = (codes "a", 1) ∷ (codes "b", 2) ∷ []; nodes = []; world = 0 }

abbrev plain : Options ℕ
plain = record { core_name = []; core = []; raw_options = codes "{}"; rest = 0 }

abbrev other_ops : List (Op Bytes ℕ ℕ)
other_ops = Op.adds (codes "t2") (codes "trojan") plain ∷ Op.deletes (codes "t3") ∷ []

select-Serves_example :
    (All (λ p. Serves calls (codes "vless") plain p.1 → ⊥) selector.cores
      × (select calls (codes "vless") plain selector.cores ≡ none))
    ⊎ ((c : ℕ) × (name : Bytes) × (select calls (codes "vless") plain selector.cores ≡ some c)
        × Serves calls (codes "vless") plain c
        × Mem (name, c) selector.cores)
select-Serves_example = select-Serves calls (codes "vless") plain selector.cores refl
