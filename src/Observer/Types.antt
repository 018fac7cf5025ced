-- ===== src/Observer/Types.antt =====
-- The data of common/beupobserve/observer.go and tcp_outcomes.go. A fingerprint, `[32]byte`, is its
-- list of bytes; a map whose values are empty structs is the list of its keys.
use v2b_x.Base.{ℕ, ◌+◌, ◌%◌, Bool, Option, none, List, [], Bytes, Assoc}
use v2b_x.Base.Int.{ℤ, pos, word64, add64}

pub record PendingRequest : Type 0 where
  pub key : Bytes
  pub target : Bytes
  pub minute : ℤ
  pub generation : ℕ
  pub port : ℕ
  pub tcp : Bool
  pub outcome : ℕ

pub record DialMetrics : Type 0 where
  pub credential : Bytes
  pub identity_complete : Bool
  pub attempts : ℤ
  pub succeeded : ℤ
  pub refused : ℤ
  pub timed_out : ℤ
  pub cancelled : ℤ
  pub other_errors : ℤ
  pub refused_attempts_on_max_ports_target : ℤ
  pub max_refused_target_ports : ℕ

abbrev pub no_dials : DialMetrics
no_dials = record {
  credential = [];
  identity_complete = Bool.false;
  attempts = pos 0;
  succeeded = pos 0;
  refused = pos 0;
  timed_out = pos 0;
  cancelled = pos 0;
  other_errors = pos 0;
  refused_attempts_on_max_ports_target = pos 0;
  max_refused_target_ports = 0;
}

pub record DialTarget : Type 0 where
  pub attempts : ℤ
  pub ports : List ℕ

-- `counts` with the fields of its `metrics` that are counted; `Snapshot` adds the other ones.
pub record Counts : Type 0 where
  pub proxy_requests : ℤ
  pub tcp_requests : ℤ
  pub udp_associations : ℤ
  pub max_target_requests : ℤ
  pub tcp_dial : Option DialMetrics
  pub targets : Assoc Bytes ℤ
  pub ports : List ℕ
  pub dial_targets : Assoc Bytes DialTarget

abbrev pub no_counts : Counts
no_counts = record {
  proxy_requests = pos 0;
  tcp_requests = pos 0;
  udp_associations = pos 0;
  max_target_requests = pos 0;
  tcp_dial = none;
  targets = [];
  ports = [];
  dial_targets = [];
}

pub record WindowCounts : Type 0 where
  pub accounts : Assoc Bytes Counts
  pub partial : Bool
  pub edges : ℕ
  pub accepted : ℕ
  pub lost : ℕ
  pub unmapped : ℕ

abbrev pub empty_window : WindowCounts
empty_window = record {
  accounts = [];
  partial = Bool.false;
  edges = 0;
  accepted = 0;
  lost = 0;
  unmapped = 0;
}

pub record AuthRef : Type 0 where
  pub tag : Bytes
  pub uid : ℤ
  pub credential : Bytes

pub record MinuteMarker : Type 0 where
  pub sequence : ℕ
  pub minute : ℤ

-- The embedded `windowCounts` is the field `window`. `registry` gives the subject of a tag and a
-- uid, empty where there is none.
pub record Observer : Type 0 where
  pub pending : List PendingRequest
  pub generation : ℕ
  pub clock_sequence : ℕ
  pub observed_minute : MinuteMarker
  pub revision : Bytes
  pub tcp_dial_metrics : Bool
  pub registry : Bytes → ℤ → Bytes
  pub bindings : Assoc Bytes Bytes
  pub auth_refs : Assoc Bytes AuthRef
  pub window : WindowCounts
  pub next : Option WindowCounts
  pub start : ℤ
  pub window_start : ℤ
  pub dropped : ℕ
  pub clock_gap : Bool
  pub invalid_drops : ℕ
  pub contention_drops : ℕ
  pub boundary_drops : ℕ
  pub capacity_drops : ℕ
  pub discarded_samples : ℕ

-- a + b on uint64, and a + 1 on int64.
abbrev pub add_u64 : ℕ → ℕ → ℕ
add_u64 a b = (a + b) % word64

abbrev pub succ64 : ℤ → ℤ
succ64 a = add64 a (pos 1)
