-- ===== src/Counter/Runs.antt =====
-- What a counter counts for a user, over runs of its methods.
use v2b_x.Base.{
  ℕ, ◌≡◌, ◌∙◌, sym, ap, refl, inl, inr, Option, none, some, List, [], ◌∷◌, Bytes, bytes_eq,
  bytes_eq_iff, if◌then◌else◌, get, put, del, get-del, Bool-cases,
}
use v2b_x.Base.Int.{ℤ, add64}
use v2b_x.Transfer.Types.{bytes_key}
use v2b_x.Counter.Pointers.{HasOwn, counted, counted-put, Gives, counter_at-Gives}
use v2b_x.Counter.{
  TrafficStorage, blank_storage, TrafficCounter, pointer_key, new_traffic_counter, storage_at,
  storage_of, get_counter, get_up_count, get_down_count, reset_at, reset, delete, add_up, add_down,
  rx, tx,
}

pub data Use : Type 0 where
  receives sends : Bytes → ℤ → Use
  resets deletes gets : Bytes → Use

unfoldable pub use_counter : Use → TrafficCounter → TrafficCounter
use_counter (receives uuid n) c = rx uuid n c
use_counter (sends uuid n) c = tx uuid n c
use_counter (resets uuid) c = reset uuid c
use_counter (deletes uuid) c = delete uuid c
use_counter (gets uuid) c = (get_counter uuid c).1

unfoldable pub use_all : List Use → TrafficCounter → TrafficCounter
unfolding use_counter
use_all [] c = c
use_all (x ∷ rest) c = use_all rest (use_counter x c)

-- What a user is to have, without storages: the bytes since the last `Reset` or `Delete`.
abbrev pub meant : Bytes → Use → TrafficStorage → TrafficStorage
meant uuid (receives u n) s =
    if bytes_eq u uuid then record s { down_counter = add64 s.down_counter n } else s
meant uuid (sends u n) s =
    if bytes_eq u uuid then record s { up_counter = add64 s.up_counter n } else s
meant uuid (resets u) s = if bytes_eq u uuid then blank_storage else s
meant uuid (deletes u) s = if bytes_eq u uuid then blank_storage else s
meant uuid (gets u) s = s

abbrev pub meant_all : Bytes → List Use → TrafficStorage → TrafficStorage
meant_all uuid [] s = s
meant_all uuid (x ∷ rest) s = meant_all uuid rest (meant uuid x s)

-- A call does to each user's storage what it is meant to do.
record DoesUse (x : Use) (c d : TrafficCounter) : Type 0 where
  owns : HasOwn d
  counts : (v : Bytes) → counted v d ≡ meant v x (counted v c)

written-counted :
    (u v : Bytes) (change : TrafficStorage → TrafficStorage) (c : TrafficCounter)
    (r : ℕ × TrafficCounter)
    → Gives u c r
    → counted v (record r.1 { heap = put pointer_key r.0 (change (storage_at r.0 r.1)) r.1.heap })
      ≡ (if bytes_eq u v then change (counted v c) else counted v c)
written-counted u v change c r g =
    let e = counted-put u v r.0 (change (storage_at r.0 r.1)) r.1 g.owns g.at in
    elim (Bool-cases (bytes_eq u v)) [
      | inl b ↦
          let e' : counted v
                (record r.1 { heap = put pointer_key r.0 (change (storage_at r.0 r.1)) r.1.heap })
              ≡ change (storage_at r.0 r.1) =
            rw b at e in
          let k : storage_at r.0 r.1 ≡ counted u r.1 = ap (λ o. storage_of o r.1) (sym g.at) in
          let m : counted u c ≡ counted v c = ap (λ w. counted w c) ((bytes_eq_iff u v).0 b) in
          rw b (e' ∙ ap change (k ∙ g.same u ∙ m))
      | inr b ↦
          let e' : counted v
                (record r.1 { heap = put pointer_key r.0 (change (storage_at r.0 r.1)) r.1.heap })
              ≡ counted v r.1 =
            rw b at e in
          rw b (e' ∙ g.same v)
    ]

get-Gives : (u : Bytes) (c : TrafficCounter) → HasOwn c → Gives u c (get_counter u c)
unfolding get_counter
get-Gives u c h = counter_at-Gives u (get bytes_key u c.counters) c h refl

reset-DoesUse :
    (u : Bytes) (o : Option ℕ) (c : TrafficCounter)
    → get bytes_key u c.counters ≡ o
    → HasOwn c
    → DoesUse (resets u) c (reset_at o c)
reset-DoesUse u none c e h = record {
  owns = h;
  counts = λ v. elim (Bool-cases (bytes_eq u v)) [
    | inl b ↦
        let same = ap (λ w. counted w c) ((bytes_eq_iff u v).0 b) in
        rw b (sym same ∙ ap (λ o. storage_of o c) e)
    | inr b ↦ rw b refl
  ];
}
reset-DoesUse u (some p) c e h = record {
  owns = record { below = h.below; own = h.own };
  counts = λ v. counted-put u v p blank_storage c h e;
}

same_heap :
    (u : Bytes) (c : TrafficCounter) (o : Option ℕ) → storage_of o (delete u c) ≡ storage_of o c
unfolding delete
same_heap u c none = refl
same_heap u c (some p) = refl

delete-DoesUse : (u : Bytes) (c : TrafficCounter) → HasOwn c → DoesUse (deletes u) c (delete u c)
unfolding delete
delete-DoesUse u c h = record {
  owns = record {
    below = λ v p e. h.below v p (left v p e);
    own = λ v w p e f. h.own v w p (left v p e) (left w p f);
  };
  counts = λ v.
      let r = get-del bytes_key u v c.counters in
      elim (Bool-cases (bytes_eq u v)) [
        | inl b ↦
            let k : get bytes_key v (del bytes_key u c.counters) ≡ none = rw b at r in
            rw b (ap (λ o. storage_of o (delete u c)) k)
        | inr b ↦
            let k : get bytes_key v (del bytes_key u c.counters) ≡ get bytes_key v c.counters =
              rw b at r in
            rw b
              (ap (λ o. storage_of o (delete u c)) k ∙ same_heap u c (get bytes_key v c.counters))
      ];
}
  where
    left :
        (v : Bytes) (p : ℕ)
        → get bytes_key v (del bytes_key u c.counters) ≡ some p
        → get bytes_key v c.counters ≡ some p
    left v p e =
        let r = get-del bytes_key u v c.counters in
        elim (Bool-cases (bytes_eq u v)) [
          | inl b ↦
              let k : get bytes_key v (del bytes_key u c.counters) ≡ none = rw b at r in absurd (cc)
          | inr b ↦
              let k : get bytes_key v (del bytes_key u c.counters) ≡ get bytes_key v c.counters =
                rw b at r in
              sym k ∙ e
        ]

use-DoesUse : (x : Use) (c : TrafficCounter) → HasOwn c → DoesUse x c (use_counter x c)
unfolding use_counter rx tx add_up add_down reset
use-DoesUse (receives u n) c h =
    let g = get-Gives u c h in
    record {
      owns = record { below = g.owns.below; own = g.owns.own };
      counts = λ v.
          written-counted u v (λ s. record s { down_counter = add64 s.down_counter n }) c
            (get_counter u c) g;
    }
use-DoesUse (sends u n) c h =
    let g = get-Gives u c h in
    record {
      owns = record { below = g.owns.below; own = g.owns.own };
      counts = λ v.
          written-counted u v (λ s. record s { up_counter = add64 s.up_counter n }) c
            (get_counter u c) g;
    }
use-DoesUse (resets u) c h = reset-DoesUse u (get bytes_key u c.counters) c refl h
use-DoesUse (deletes u) c h = delete-DoesUse u c h
use-DoesUse (gets u) c h =
    let g = get-Gives u c h in record { owns = g.owns; counts = λ v. g.same v }

counted_all :
    (run : List Use) (uuid : Bytes) (c : TrafficCounter)
    → HasOwn c
    → counted uuid (use_all run c) ≡ meant_all uuid run (counted uuid c)
unfolding use_all
counted_all [] uuid c h = refl
counted_all (x ∷ rest) uuid c h =
    let r = use-DoesUse x c h in
    counted_all rest uuid (use_counter x c) r.owns ∙ ap (meant_all uuid rest) (r.counts uuid)

-- Behind every run of a new counter's methods, what `GetUpCount` and `GetDownCount` read for a user
-- are the int64 sums of the bytes that `Tx` and `Rx` were given for this user since its last
-- `Reset` or `Delete`, whatever the other users' calls are.
pub counts_traffic :
    (run : List Use) (uuid : Bytes)
    → let c = use_all run new_traffic_counter in
      let s = meant_all uuid run blank_storage in
      (get_up_count uuid c ≡ s.up_counter) × (get_down_count uuid c ≡ s.down_counter)
unfolding get_up_count get_down_count get
counts_traffic run uuid =
    let e =
      counted_all run uuid new_traffic_counter
        (record { below = λ u p k. absurd (cc); own = λ u v p k f. absurd (cc) }) in
    (ap (λ s. s.up_counter) e, ap (λ s. s.down_counter) e)
