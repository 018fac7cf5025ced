-- ===== src/Observer/Start.antt =====
-- `New` (observer.go): the check of a registration, and the first window. A map of the configuration
-- is its entries in the order of the loop.
use v2b_x.Base.{
  ℕ, suc, Bool, false, ◌&&◌, ◌||◌, not, Option, none, some, [], ◌∷◌, Bytes, bytes_eq, ◌==◌, ltb,
  leb, if◌then◌else◌, length, all, Assoc, get, put, int_key,
}
use v2b_x.Base.Int.{ℤ, pos, leb_ℤ, eqb_ℤ}
use v2b_x.Text.{is_lower_hex}
use v2b_x.Transfer.Types.{bytes_key}
use v2b_x.Observer.Types.{empty_window, Observer}
use v2b_x.Observer.Record.{subject_of}

-- A character of `[a-zA-Z0-9_-]`.
abbrev pub is_word : ℕ → Bool
is_word c =
    (leb 97 c && leb c 122)
    || (leb 65 c && leb c 90)
    || (leb 48 c && leb c 57)
    || c == 95
    || c == 45

abbrev pub matches_node : Bytes → Bool
matches_node s = all is_word s && leb 1 (length s) && leb (length s) 64

abbrev pub matches_name : Bytes → Bool
matches_name s = all (λ c. is_word c || c == 46) s && leb 1 (length s) && leb (length s) 64

abbrev pub matches_subject : Bytes → Bool
matches_subject s = all is_lower_hex s && length s == 32

-- The variables of the loops.
pub record Registration : Type 0 where
  pub seen : Assoc Bytes ℤ
  pub uid_subjects : Assoc ℤ Bytes
  pub entries : ℕ

abbrev pub other_uid : ℤ → Option ℤ → Bool
other_uid uid none = false
other_uid uid (some other) = not (eqb_ℤ other uid)

abbrev pub other_subject : Bytes → Option Bytes → Bool
other_subject subject none = false
other_subject subject (some previous) = not (bytes_eq previous subject)

-- `none` for the errors of the function.
unfoldable pub register_user : ℤ → Bytes → Registration → Option Registration
register_user uid subject r =
    if ltb 50000 (suc r.entries) || leb_ℤ uid (pos 0) || not (matches_subject subject)
    then none
    else if other_uid uid (get bytes_key subject r.seen)
    then none
    else if other_subject subject (get int_key uid r.uid_subjects)
    then none
    else some (record {
      seen = put bytes_key subject uid r.seen;
      uid_subjects = put int_key uid subject r.uid_subjects;
      entries = suc r.entries;
    })

unfoldable pub register_users : Assoc ℤ Bytes → Option Registration → Option Registration
unfolding register_user
register_users users none = none
register_users [] (some r) = some r
register_users ((uid, subject) ∷ users) (some r) =
    register_users users (register_user uid subject r)

unfoldable pub register_tags :
    Assoc Bytes (Assoc ℤ Bytes) → Option Registration → Option Registration
unfolding register_users
register_tags tags none = none
register_tags [] (some r) = some r
register_tags ((tag, users) ∷ tags) (some r) =
    let rest = register_tags tags (register_users users (some r)) in
    if length tag == 0 || ltb 512 (length tag) then none else rest

-- `o.registry[tag][uid]`
unfoldable pub subject_in : Option (Assoc ℤ Bytes) → ℤ → Bytes
subject_in none uid = []
subject_in (some users) uid = subject_of (get int_key uid users)

unfoldable pub registry_of : Assoc Bytes (Assoc ℤ Bytes) → Bytes → ℤ → Bytes
unfolding subject_in
registry_of bindings tag uid = subject_in (get bytes_key tag bindings) uid

unfoldable pub first_observer : Bytes → Bool → (Bytes → ℤ → Bytes) → ℤ → Bool → Observer
first_observer revision tcp registry minute exact = record {
  pending = [];
  generation = 0;
  clock_sequence = 0;
  observed_minute = record { sequence = 0; minute = minute };
  revision = revision;
  tcp_dial_metrics = tcp;
  registry = registry;
  bindings = [];
  auth_refs = [];
  window = record empty_window { partial = not exact };
  next = none;
  start = minute;
  window_start = minute;
  dropped = 0;
  clock_gap = false;
  invalid_drops = 0;
  contention_drops = 0;
  boundary_drops = 0;
  capacity_drops = 0;
  discarded_samples = 0;
}

unfoldable pub new_registered :
    Bytes → Bool → Assoc Bytes (Assoc ℤ Bytes) → ℤ → Bool → Option Registration → Option Observer
unfolding first_observer registry_of
new_registered revision tcp bindings minute exact none = none
new_registered revision tcp bindings minute exact (some _) =
    some (first_observer revision tcp (registry_of bindings) minute exact)

-- `minute` is the start of the minute of the first reading; `exact` says that it stands at it.
unfoldable pub new_observer :
    Bytes → Bytes → Bool → Assoc Bytes (Assoc ℤ Bytes) → ℤ → Bool → Option Observer
unfolding new_registered register_tags
new_observer node revision tcp bindings minute exact =
    if not (matches_node node) || not (matches_name revision)
    then none
    else new_registered revision tcp bindings minute exact
        (register_tags bindings (some (record { seen = []; uid_subjects = []; entries = 0 })))
