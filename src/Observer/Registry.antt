-- ===== src/Observer/Registry.antt =====
-- `labelKey`, `Bind`, `Unbind`, `UnbindTag`, `ReplaceRegistry` and `resetWindowsLocked`
-- (observer.go). `digest` is the HMAC with the secret of the process, by domain and value.
use v2b_x.Base.{
  Bool, true, false, ◌&&◌, ◌||◌, not, Option, none, some, List, [], ◌∷◌, ◌++◌, Bytes, bytes_eq,
  ◌==◌, ltb, leb, if◌then◌else◌, length, Assoc, get, put, del,
}
use v2b_x.Base.Int.{ℤ, pos, leb_ℤ, eqb_ℤ}
use v2b_x.Text.{codes}
use v2b_x.Transfer.Types.{bytes_key}
use v2b_x.Guard.Bindings.{credential_digest}
use v2b_x.Observer.Types.{empty_window, AuthRef, Observer, add_u64}
use v2b_x.Observer.Record.{or_empty, is_there}

unfoldable pub label_key : (Bytes → Bytes → Bytes) → Bytes → Bytes → Bytes
label_key digest tag label = digest (codes "binding") (tag ++ 0 ∷ label)

-- Two times `generation.Add(1)`, in front of a change and behind it.
abbrev pub mutated : Observer → Observer
mutated o = record o { generation = add_u64 (add_u64 o.generation 1) 1 }

abbrev pub ref_eq : AuthRef → AuthRef → Bool
ref_eq a b = bytes_eq a.tag b.tag && eqb_ℤ a.uid b.uid && bytes_eq a.credential b.credential

abbrev pub same_ref : AuthRef → Option AuthRef → Bool
same_ref ref none = false
same_ref ref (some old) = ref_eq old ref

abbrev pub refer : Bytes → AuthRef → Observer → Observer
refer key ref o =
    let changed = not (same_ref ref (get bytes_key key o.auth_refs)) in
    record (if changed then mutated o else o) { auth_refs = put bytes_key key ref o.auth_refs }

-- The optional credential is a list of at most one.
abbrev pub credential_ref : (Bytes → Bytes) → List Bytes → Bytes
credential_ref sha256_hex (c ∷ []) = credential_digest sha256_hex c
credential_ref sha256_hex [] = []
credential_ref sha256_hex (c ∷ d ∷ rest) = []

unfoldable pub bind_subject : Bytes → Bytes → Observer → Bool × Observer
bind_subject key subject o =
    if length subject == 0
    then (false, record o { bindings = del bytes_key key o.bindings })
    else if leb 50000 (length o.bindings) && not (is_there (get bytes_key key o.bindings))
    then (false, o)
    else (true, record o { bindings = put bytes_key key subject o.bindings })

unfoldable pub bind_ref : Bytes → AuthRef → Observer → Bool × Observer
unfolding bind_subject
bind_ref key ref o =
    if leb 50000 (length o.auth_refs) && not (is_there (get bytes_key key o.auth_refs))
    then (false, o)
    else bind_subject key (o.registry ref.tag ref.uid) (refer key ref o)

unfoldable pub bind :
    (Bytes → Bytes → Bytes)
    → (Bytes → Bytes)
    → Bytes
    → Bytes
    → ℤ
    → List Bytes
    → Observer
    → Bool × Observer
unfolding label_key bind_ref
bind digest sha256_hex tag label uid credential o =
    if length label == 0
      || ltb 1024 (length label)
      || length tag == 0
      || ltb 512 (length tag)
      || leb_ℤ uid (pos 0)
    then (false, o)
    else bind_ref (label_key digest tag label)
        (record { tag = tag; uid = uid; credential = credential_ref sha256_hex credential }) o

unfoldable pub unbind : (Bytes → Bytes → Bytes) → Bytes → Bytes → Observer → Observer
unfolding label_key
unbind digest tag label o =
    let key = label_key digest tag label in
    record (mutated o) {
      bindings = del bytes_key key o.bindings;
      auth_refs = del bytes_key key o.auth_refs;
    }

-- The loop over the references; a deletion leaves those that are still to be visited.
unfoldable pub unbind_refs : Bytes → Assoc Bytes AuthRef → Observer → Observer
unbind_refs tag [] o = o
unbind_refs tag ((key, ref) ∷ rest) o = unbind_refs tag rest (
    if bytes_eq ref.tag tag
    then record o {
      auth_refs = del bytes_key key o.auth_refs;
      bindings = del bytes_key key o.bindings;
    }
    else o)

unfoldable pub unbind_tag : Bytes → Observer → Observer
unfolding unbind_refs
unbind_tag tag o = unbind_refs tag o.auth_refs (mutated o)

-- What is in the windows and in the backlog is dropped, and stays visible as a loss. The lock is held
-- and no other producer runs, so that the whole backlog is drained.
unfoldable pub reset_windows : Observer → Observer
reset_windows o =
    let ahead = or_empty o.next in
    let n = add_u64 (add_u64 o.window.accepted ahead.accepted) (length o.pending) in
    let lost = add_u64 o.window.lost ahead.lost in
    record (mutated o) {
      pending = [];
      discarded_samples = add_u64 o.discarded_samples n;
      dropped = add_u64 o.dropped (add_u64 n lost);
      window = record empty_window {
        partial = true;
        unmapped = add_u64 o.window.unmapped ahead.unmapped;
      };
      next = none;
    }

-- The bindings of the references whose subject is known.
unfoldable pub rebound :
    (Bytes → ℤ → Bytes) → Assoc Bytes AuthRef → Assoc Bytes Bytes → Assoc Bytes Bytes
rebound registry [] bindings = bindings
rebound registry ((key, ref) ∷ rest) bindings =
    let subject = registry ref.tag ref.uid in
    rebound registry rest
      (if length subject == 0 then bindings else put bytes_key key subject bindings)

-- The registry that `New` has validated, or none.
unfoldable pub replace_registry : Bytes → Option (Bytes → ℤ → Bytes) → Observer → Bool × Observer
unfolding reset_windows rebound
replace_registry revision none o = (false, o)
replace_registry revision (some registry) o = (
  true,
  reset_windows (record o {
    registry = registry;
    revision = revision;
    bindings = rebound registry o.auth_refs [];
  }),
)
