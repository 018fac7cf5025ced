-- ===== src/Transfer/Delta/Laws.antt =====
-- `delta` accounts for every identity: what was committed and what `delta` adds make up the new
-- cumulative counters, and what it adds is an inventory again.
use v2b_x.Base.{
  ◌+◌, ◌≡◌, refl, map, true, List, [], ◌∷◌, none, arith, if◌then◌else◌, Bytes, bytes_eq,
  bytes_eq_iff, All, All-map, Assoc, get, put, del, get-put,
}
use v2b_x.Text.{bytes_lt, bytes_lt_irrefl}
use v2b_x.Transfer.Types.{Sample, ok, bytes_key}
use v2b_x.Transfer.Samples.{key, is_counter}
use v2b_x.Transfer.Samples.Sorting.{IsAscending, IsInt64, IsInventory}
use v2b_x.Transfer.Delta.{by_key, grown, delta_from, delta}
use v2b_x.Transfer.Delta.Growth.{
  Direction, up, down, traffic, amount, IsNatural, IsNatural-of_counter, held, HoldsNatural,
  del-HoldsNatural, put-HoldsNatural, held-nil, delta_from-nil, delta_from-eq_ok, grown_row,
  AreRows, amount-delta_from, keys-delta_from,
}

-- `by_key` of an inventory holds each row's traffic.
abbrev pub Absent : Assoc Bytes Sample → Sample → Type 0
Absent old s = get bytes_key (key s) old ≡ none

put-Absent :
    (x y : Sample) (old : Assoc Bytes Sample)
    → bytes_lt (key x) (key y) ≡ true
    → Absent old y
    → Absent (put bytes_key (key x) x old) y
put-Absent x y old lt a =
    rw get-put (ground (arith, bytes_eq_iff (key x) (key y), bytes_lt_irrefl (key x)))

held-put :
    (d : Direction) (k : Bytes) (s : Sample) (old : Assoc Bytes Sample)
    → Absent old s
    → held d k (put bytes_key (key s) s old)
      ≡ (if bytes_eq (key s) k then traffic d s else 0) + held d k old
unfolding held
held-put up k s old a = rw get-put (ground (arith, bytes_eq_iff (key s) k))
held-put down k s old a = rw get-put (ground (arith, bytes_eq_iff (key s) k))

pub Absent-after :
    (x : Sample) (old : Assoc Bytes Sample) (xs : List Sample)
    → All (λ y. bytes_lt (key x) (key y) ≡ true) xs
    → All (Absent old) xs
    → All (Absent (put bytes_key (key x) x old)) xs
Absent-after x old [] lt a = tt
Absent-after x old (y ∷ ys) lt a = (put-Absent x y old lt.0 a.0, Absent-after x old ys lt.1 a.1)

held-by_key :
    (d : Direction) (k : Bytes) (old : Assoc Bytes Sample) (xs : List Sample)
    → IsAscending xs
    → All (Absent old) xs
    → held d k (by_key old xs) ≡ held d k old + amount d k xs
unfolding by_key
held-by_key d k old [] a n = omega arith
held-by_key d k old (x ∷ xs) a n = omega (
  arith,
  held-put d k x old n.0,
  held-by_key d k (put bytes_key (key x) x old) xs a.1 (Absent-after x old xs a.0 n.1),
)

pub held-delta :
    (d : Direction) (k : Bytes) (before : List Sample)
    → IsAscending before
    → held d k (by_key [] before) ≡ amount d k before
unfolding get
held-delta d k before a =
    omega (arith, held-by_key d k [] before a (Absent-nil before), held-nil d k)
  where
    Absent-nil : (xs : List Sample) → All (Absent []) xs
    Absent-nil = elim [ [] ↦ tt | x ∷ (xs → ih) ↦ (refl, ih) ]

by_key-HoldsNatural :
    (old : Assoc Bytes Sample) (xs : List Sample)
    → HoldsNatural old
    → All IsNatural xs
    → HoldsNatural (by_key old xs)
unfolding by_key
by_key-HoldsNatural old [] h n = h
by_key-HoldsNatural old (x ∷ xs) h n =
    by_key-HoldsNatural (put bytes_key (key x) x old) xs (put-HoldsNatural (key x) x old n.0 h) n.1

nil-HoldsNatural : HoldsNatural []
unfolding get
nil-HoldsNatural k = (refl, refl)

pub IsInventory-IsNatural : (xs : List Sample) → IsInventory xs → All IsNatural xs
IsInventory-IsNatural xs v = All-map _ IsNatural IsNatural-of_counter xs v.counters

IsInventory-AreRows : (xs : List Sample) → IsInventory xs → AreRows xs
IsInventory-AreRows xs v = zipped xs (IsInventory-IsNatural xs v) v.range
  where
    zipped : (ys : List Sample) → All IsNatural ys → All IsInt64 ys → AreRows ys
    zipped = elim [ [] ↦ λ n r. tt | y ∷ (ys → ih) ↦ λ n r. ((n.0, r.0), ih n.1 r.1) ]

delta_naturals : (before : List Sample) → IsInventory before → HoldsNatural (by_key [] before)
delta_naturals before v =
    by_key-HoldsNatural [] before nil-HoldsNatural (IsInventory-IsNatural before v)

-- Of two inventories between which `delta` succeeds: for every key and both directions the later
-- amount is the earlier one and what `delta` returns for it, exactly.
pub amount-delta :
    (d : Direction) (k : Bytes) (before after out : List Sample)
    → IsInventory before
    → IsInventory after
    → delta before after ≡ ok out
    → amount d k after ≡ amount d k before + amount d k out
unfolding delta
amount-delta d k before after out vb va h = omega (
  arith,
  amount-delta_from d k (by_key [] before) after out (delta_naturals before vb)
      (IsInventory-AreRows after va) h,
  held-delta d k before vb.ascending,
)

IsAscending-of_keys :
    (xs ys : List Sample) → map key xs ≡ map key ys → IsAscending ys → IsAscending xs
IsAscending-of_keys [] ys e a = tt
IsAscending-of_keys (x ∷ xs) [] e a = absurd (cc)
IsAscending-of_keys (x ∷ xs) (y ∷ ys) e a =
    let p : key x ≡ key y = cc in
    let q : map key xs ≡ map key ys = cc in
    (below x y xs ys p q a.0, IsAscending-of_keys xs ys q a.1)
  where
    below :
        (x y : Sample) (us vs : List Sample)
        → key x ≡ key y
        → map key us ≡ map key vs
        → All (λ v. bytes_lt (key y) (key v) ≡ true) vs
        → All (λ u. bytes_lt (key x) (key u) ≡ true) us
    below x y [] vs p q a = tt
    below x y (u ∷ us) [] p q a = absurd (cc)
    below x y (u ∷ us) (v ∷ vs) p q a =
        let e : key u ≡ key v = cc in (rw (p, e) a.0, below x y us vs p (cc) a.1)

grown-is_counter :
    (p s row : Sample)
    → is_counter s ≡ true
    → IsNatural row
    → grown p s ≡ ok row
    → is_counter row ≡ true
unfolding grown is_counter
grown-is_counter p s row c n h = ground arith

delta_from-rows :
    (old : Assoc Bytes Sample) (after out : List Sample)
    → HoldsNatural old
    → AreRows after
    → All (λ s. is_counter s ≡ true) after
    → delta_from old after ≡ ok out
    → All (λ s. is_counter s ≡ true) out × All IsInt64 out
delta_from-rows old [] out n r c h = rw ((delta_from-nil old out h).1) (tt, tt)
delta_from-rows old (s ∷ rest) out n r c h =
    let (row, later, g, l, e) = delta_from-eq_ok old s rest out h in
    let (_, natural, int64, _, _) = grown_row _ s row (n (key s)) r.0.0 r.0.1 g in
    let ih =
      delta_from-rows (del bytes_key (key s) old) rest later (del-HoldsNatural (key s) old n) r.1
        c.1 l in
    rw e ((grown-is_counter _ s row c.0 natural g, ih.0), (int64, ih.1))

-- What `delta` returns is an inventory again, with the keys of the later one in their order.
pub delta-IsInventory :
    (before after out : List Sample)
    → IsInventory before
    → IsInventory after
    → delta before after ≡ ok out
    → IsInventory out × (map key out ≡ map key after)
unfolding delta
delta-IsInventory before after out vb va h =
    let n = delta_naturals before vb in
    let r = IsInventory-AreRows after va in
    let keys = keys-delta_from (by_key [] before) after out n r h in
    let rows = delta_from-rows (by_key [] before) after out n r va.counters h in
    (
      record {
        counters = rows.0;
        ascending = IsAscending-of_keys out after keys va.ascending;
        range = rows.1;
      },
      keys,
    )
