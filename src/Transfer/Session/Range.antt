-- ===== src/Transfer/Session/Range.antt =====
-- The rows of a session's snapshot are an inventory: sorted, valid, distinct and within int64.
use v2b_x.Base.{
  ◌≡◌, List, [], ◌∷◌, Bytes, bytes_eq, All, arith, Bool-cases, inl, inr, Assoc, get, put,
}
use v2b_x.Base.Int.{add64, add64_range}
use v2b_x.Transfer.Types.{ok, >>=-eq-ok, Sample, bytes_key}
use v2b_x.Transfer.Samples.{key, samples}
use v2b_x.Transfer.Samples.Sorting.{IsInt64, IsInventory, samples-IsInventory}
use v2b_x.Transfer.Delta.{by_key, or_zero}
use v2b_x.Transfer.Rows.{combine, values, combined_rows}

values-put :
    (k : Bytes) (s : Sample) (m : Assoc Bytes Sample)
    → IsInt64 s
    → All IsInt64 (values m)
    → All IsInt64 (values (put bytes_key k s m))
unfolding put
values-put k s [] h a = (h, tt)
values-put k s ((j, x) ∷ m) h a = elim (Bool-cases (bytes_eq j k)) [
  | inl e ↦ rw e (h, a.1)
  | inr e ↦ rw e (a.0, values-put k s m h a.1)
]

values-by_key :
    (old : Assoc Bytes Sample) (xs : List Sample)
    → All IsInt64 (values old)
    → All IsInt64 xs
    → All IsInt64 (values (by_key old xs))
unfolding by_key
values-by_key old [] a h = a
values-by_key old (x ∷ xs) a h =
    values-by_key (put bytes_key (key x) x old) xs (values-put (key x) x old h.0 a) h.1

values-combine :
    (m : Assoc Bytes Sample) (rows : List Sample) (out : Assoc Bytes Sample)
    → All IsInt64 (values m)
    → combine m rows ≡ ok out
    → All IsInt64 (values out)
unfolding combine
values-combine m [] out a h = let e : m ≡ out = cc in rw (← e) a
values-combine m (r ∷ rest) out a h =
    let b = or_zero (get bytes_key (key r) m) in
    let row : Sample = record r {
      upload = add64 r.upload b.upload;
      download = add64 r.download b.download;
    } in
    values-combine (put bytes_key (key r) row m) rest out
      (values-put (key r) row m
        (record { up = add64_range r.upload b.upload; down = add64_range r.download b.download }) a)
      (ground arith)

pub combined_rows-IsInventory :
    (base raw rows : List Sample)
    → All IsInt64 base
    → combined_rows base raw ≡ ok rows
    → IsInventory rows
unfolding combined_rows
combined_rows-IsInventory base raw rows a h =
    let (sorted, s, h') = >>=-eq-ok (samples raw) _ h in
    let (m, e, h'') = >>=-eq-ok (combine (by_key [] base) sorted) _ h' in
    (samples-IsInventory (values m) rows
      (values-combine (by_key [] base) sorted m (values-by_key [] base tt a) e) h'').0
