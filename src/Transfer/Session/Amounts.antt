-- ===== src/Transfer/Session/Amounts.antt =====
-- What the rows of a session's snapshot add up to: the base that the journal carries and the
-- counters of the process (counter_session.go).
use v2b_x.Base.{
  All-map, All-of_all, ◌≤◌, ◌+◌, ◌≡◌, refl, ap, ◌∙◌, ◌||◌, List, [], ◌∷◌, Bytes, bytes_eq,
  bytes_eq_sound, All, arith, Bool-cases, false, inl, inr, Assoc, get, put, if◌then◌else◌,
}
use v2b_x.Base.Int.{
  ℤ, negsuc, pos, pos_part, add64, sub64, add64_exact, sub64_exact, ltb_ℤ, max_int64,
}
use v2b_x.Transfer.Types.{ok, >>=-eq-ok, Sample, bytes_key}
use v2b_x.Transfer.Samples.{key, is_counter, samples}
use v2b_x.Transfer.Samples.Sorting.{
  All-sort_samples, IsAscending, IsInt64, IsInventory, samples-eq_ok,
}
use v2b_x.Transfer.Delta.{by_key, or_zero}
use v2b_x.Transfer.Delta.Growth.{
  Direction, up, down, traffic, amount, IsNatural, IsNatural-of_counter, held, held-nil,
  amount-sort_samples,
}
use v2b_x.Transfer.Delta.Laws.{Absent, Absent-after, IsInventory-IsNatural}
use v2b_x.Transfer.Rows.{combine, values, combined_rows}

-- A map from keys to rows, each under its own key, whose counters are natural and within int64.
record IsEntry (k : Bytes) (s : Sample) : Type 0 where
  own : key s ≡ k
  natural : IsNatural s
  range : IsInt64 s

abbrev IsTable : Assoc Bytes Sample → Type 0
IsTable = All (λ p. IsEntry p.0 p.1)

put-IsTable :
    (s : Sample) (m : Assoc Bytes Sample)
    → IsNatural s
    → IsInt64 s
    → IsTable m
    → IsTable (put bytes_key (key s) s m)
unfolding put
put-IsTable s [] n r t = (record { own = refl; natural = n; range = r }, tt)
put-IsTable s ((j, x) ∷ m) n r t = elim (Bool-cases (bytes_eq j (key s))) [
  | inl e ↦ rw e (record { own = refl; natural = n; range = r }, t.1)
  | inr e ↦ rw e (t.0, put-IsTable s m n r t.1)
]

-- What `get` reads in a table, a missing row as zero.
record IsRead (s : Sample) : Type 0 where
  natural : IsNatural s
  range : IsInt64 s

get-IsRead : (k : Bytes) (m : Assoc Bytes Sample) → IsTable m → IsRead (or_zero (get bytes_key k m))
unfolding get
get-IsRead k [] t = record {
  natural = (refl, refl);
  range = record { up = omega arith; down = omega arith };
}
get-IsRead k ((j, x) ∷ m) t = elim (Bool-cases (bytes_eq j k)) [
  | inl e ↦ rw e (record { natural = t.0.natural; range = t.0.range })
  | inr e ↦ rw e (get-IsRead k m t.1)
]

-- A row that is put in takes the place of what its key held.
amount-put :
    (d : Direction) (k : Bytes) (s : Sample) (m : Assoc Bytes Sample)
    → IsTable m
    → amount d k (values (put bytes_key (key s) s m))
        + (if bytes_eq (key s) k then held d (key s) m else 0)
      ≡ amount d k (values m) + (if bytes_eq (key s) k then traffic d s else 0)
unfolding put get held
amount-put d k s [] t = grind (arith, held-nil d (key s))
amount-put d k s ((j, x) ∷ m) t = elim (Bool-cases (bytes_eq j (key s))) [
  | inl e ↦ let same = bytes_eq_sound j (key s) e in rw e (rw (t.0.own, same) (omega arith))
  | inr e ↦ rw e (omega (arith, amount-put d k s m t.1))
]

sum_exact :
    (r b : ℤ)
    → r ≡ pos (pos_part r)
    → b ≡ pos (pos_part b)
    → pos_part b ≤ max_int64
    → ltb_ℤ (sub64 (pos max_int64) b) r ≡ false
    → (add64 r b ≡ pos (pos_part r + pos_part b)) × (pos_part r + pos_part b ≤ max_int64)
sum_exact (negsuc m) b p q h fits = absurd (cc)
sum_exact (pos m) (negsuc n) p q h fits = absurd (cc)
sum_exact (pos m) (pos n) p q h fits =
    let small : m + n ≤ max_int64 = ground (arith, sub64_exact max_int64 n h) in
    (add64_exact m n small, small)

row_sum :
    (r b : Sample)
    → IsNatural r
    → IsRead b
    → (ltb_ℤ (sub64 (pos max_int64) b.upload) r.upload
        || ltb_ℤ (sub64 (pos max_int64) b.download) r.download)
      ≡ false
    → let s : Sample = record r {
      upload = add64 r.upload b.upload;
      download = add64 r.download b.download;
    } in
      IsRead s × ((d : Direction) → traffic d s ≡ traffic d r + traffic d b)
row_sum r b n h fits =
    let (u, us) = sum_exact r.upload b.upload n.0 h.natural.0 h.range.up (ground arith) in
    let (v, vs) = sum_exact r.download b.download n.1 h.natural.1 h.range.down (ground arith) in
    (
      record { natural = (rw u refl, rw v refl); range = record { up = rw u us; down = rw v vs } },
      λ d. sums d u v,
    )
  where
    sums :
        (d : Direction)
        → add64 r.upload b.upload ≡ pos (pos_part r.upload + pos_part b.upload)
        → add64 r.download b.download ≡ pos (pos_part r.download + pos_part b.download)
        → traffic d
            (record r { upload = add64 r.upload b.upload; download = add64 r.download b.download })
          ≡ traffic d r + traffic d b
    sums up u v = ap pos_part u
    sums down u v = ap pos_part v

amount-combine :
    (d : Direction) (k : Bytes) (m : Assoc Bytes Sample) (rows : List Sample)
    (out : Assoc Bytes Sample)
    → IsTable m
    → All IsNatural rows
    → combine m rows ≡ ok out
    → amount d k (values out) ≡ amount d k (values m) + amount d k rows
unfolding combine key held
amount-combine d k m [] out t n h = let e : m ≡ out = cc in rw (← e) (omega arith)
amount-combine d k m (r ∷ rest) out t n h =
    let b = or_zero (get bytes_key (key r) m) in
    let s : Sample = record r {
      upload = add64 r.upload b.upload;
      download = add64 r.download b.download;
    } in
    let (read, sum) = row_sum r b n.0 (get-IsRead (key r) m t) (ground arith) in
    let step = amount-put d k s m t in
    let total_ = sum d in
    let later =
      amount-combine d k (put bytes_key (key r) s m) rest out
        (put-IsTable s m read.natural read.range t) n.1 (ground arith) in
    grind (arith, step, total_, later)

held-Absent :
    (d : Direction) (x : Sample) (m : Assoc Bytes Sample) → Absent m x → held d (key x) m ≡ 0
unfolding held
held-Absent up x m e = rw e refl
held-Absent down x m e = rw e refl

amount-by_key :
    (d : Direction) (k : Bytes) (m : Assoc Bytes Sample) (xs : List Sample)
    → IsTable m
    → All IsNatural xs
    → All IsInt64 xs
    → IsAscending xs
    → All (Absent m) xs
    → (amount d k (values (by_key m xs)) ≡ amount d k (values m) + amount d k xs)
      × IsTable (by_key m xs)
unfolding by_key
amount-by_key d k m [] t n r a no_ = (omega arith, t)
amount-by_key d k m (x ∷ xs) t n r a no_ =
    let (e, u) =
      amount-by_key d k (put bytes_key (key x) x m) xs (put-IsTable x m n.0 r.0 t) n.1 r.1 a.1
        (Absent-after x m xs a.0 no_.1) in
    (grind (arith, e, amount-put d k x m t, held-Absent d x m no_.0), u)

Absent-nil : (xs : List Sample) → All (Absent []) xs
unfolding get
Absent-nil = elim [ [] ↦ tt | x ∷ (xs → ih) ↦ (refl, ih) ]

-- The rows of a snapshot carry the traffic of the base and of the counters, key for key.
pub amount-combined_rows :
    (d : Direction) (k : Bytes) (base raw rows : List Sample)
    → IsInventory base
    → combined_rows base raw ≡ ok rows
    → amount d k rows ≡ amount d k base + amount d k raw
unfolding combined_rows
amount-combined_rows d k base raw rows v h =
    let (sorted, s, h') = >>=-eq-ok (samples raw) _ h in
    let (m, e, h'') = >>=-eq-ok (combine (by_key [] base) sorted) _ h' in
    let (valid, _, same, _) = samples-eq_ok raw sorted s in
    let (_, _, same', _) = samples-eq_ok (values m) rows h'' in
    let (old, table) =
      amount-by_key d k [] base tt (IsInventory-IsNatural base v) v.range v.ascending
        (Absent-nil base) in
    let naturals : All IsNatural sorted = rw same (
      All-sort_samples IsNatural raw
        (All-map _ IsNatural IsNatural-of_counter raw (All-of_all is_counter raw valid))) in
    let all_ = amount-combine d k (by_key [] base) sorted m table naturals e in
    ap (amount d k) same'
    ∙ amount-sort_samples d k (values m)
    ∙ omega (arith, all_, old, ap (amount d k) same, amount-sort_samples d k raw)
