-- ===== src/Transfer/Legacy/Growths.antt =====
-- What the loop of `FlushLegacy` over the changes makes of each key: a growth within the threshold
-- is held back, any other is reported in full.
use v2b_x.Base.{
  ◌&&◌, ℕ, ◌+◌, ◌≤◌, ◌<◌, ◌≡◌, ◌∙◌, ◌↔◌, Bool, refl, ap, true, false, inl, inr, List, [], ◌∷◌,
  Bytes, bytes_eq, bytes_eq_iff, All, Assoc, map, arith, Bool-cases, if◌then◌else◌, get,
}
use v2b_x.Base.Int.{pos_part, negsuc, leb_ℤ, sub64, ℤ, pos, max_int64, sub64_exact}
use v2b_x.Text.{bytes_lt, bytes_lt_irrefl}
use v2b_x.Transfer.Types.{Sample, bytes_key}
use v2b_x.Transfer.Samples.{key}
use v2b_x.Transfer.Samples.Sorting.{IsAscending}
use v2b_x.Transfer.Delta.{or_zero}
use v2b_x.Transfer.Delta.Growth.{Direction, up, down, traffic, amount, IsNatural, held}
use v2b_x.Transfer.Legacy.{is_small, held_row, held_back}

abbrev HasNo : Bytes → List Sample → Type 0
HasNo k = All (λ s. bytes_eq (key s) k ≡ false)

HasNo-above :
    (j k : Bytes) (xs : List Sample) → j ≡ k → All (λ y. bytes_lt j (key y) ≡ true) xs → HasNo k xs
HasNo-above j k [] e a = tt
HasNo-above j k (x ∷ xs) e a =
    (ground (arith, bytes_eq_iff (key x) k, bytes_lt_irrefl k), HasNo-above j k xs e a.1)

amount-HasNo : (d : Direction) (k : Bytes) (xs : List Sample) → HasNo k xs → amount d k xs ≡ 0
amount-HasNo d k [] h = refl
amount-HasNo d k (x ∷ xs) h =
    let none_here : (if bytes_eq (key x) k then traffic d x else 0) ≡ 0 = rw (h.0) refl in
    omega (arith, amount-HasNo d k xs h.1, none_here)

skipped :
    (d : Direction) (k : Bytes) (x : Sample) (xs : List Sample)
    → bytes_eq (key x) k ≡ false
    → amount d k (x ∷ xs) ≡ amount d k xs
skipped d k x xs e = grind (arith, e)

found :
    (d : Direction) (k : Bytes) (x : Sample) (xs : List Sample)
    → bytes_eq (key x) k ≡ true
    → HasNo k xs
    → amount d k (x ∷ xs) ≡ traffic d x
found d k x xs e h = grind (arith, e, amount-HasNo d k xs h)

HasNo-held_row :
    (k : Bytes) (small : Bool) (p s : Sample)
    → bytes_eq (key s) k ≡ false
    → bytes_eq (key (held_row small p s)) k ≡ false
unfolding key
HasNo-held_row k true p s h = h
HasNo-held_row k false p s h = h

HasNo-held_back :
    (threshold : ℤ) (k : Bytes) (m : Assoc Bytes Sample) (changes rows : List Sample)
    → HasNo k rows
    → HasNo k (held_back threshold m changes rows)
unfolding held_back
HasNo-held_back threshold k m [] rows h = h
HasNo-held_back threshold k m (c ∷ changes) [] h = tt
HasNo-held_back threshold k m (c ∷ changes) (r ∷ rows) h = (
  HasNo-held_row k (is_small threshold c) (or_zero (get bytes_key (key c) m)) r h.0,
  HasNo-held_back threshold k m changes rows h.1,
)

-- The test, in numbers.
is_small_iff :
    (n : ℕ) (c : Sample)
    → n ≤ max_int64
    → IsNatural c
    → (is_small (pos n) c ≡ true) ↔ (traffic up c + traffic down c ≤ n)
is_small_iff n c h natural = within c.upload c.download natural.0 natural.1
  where
    within :
        (u v : ℤ)
        → u ≡ pos (pos_part u)
        → v ≡ pos (pos_part v)
        → ((leb_ℤ u (pos n) && leb_ℤ v (sub64 (pos n) u)) ≡ true) ↔ (pos_part u + pos_part v ≤ n)
    within (negsuc a) v e f = absurd (cc)
    within (pos a) (negsuc b) e f = absurd (cc)
    within (pos a) (pos b) e f =
        (λ t. ground (arith, sub64_exact n a), λ t. ground (arith, sub64_exact n a))

-- What a report has of a key, and why: its growth is large, or small, or it has no row.
pub data Reported (n : ℕ) (k : Bytes) (m : Assoc Bytes Sample) (changes rows out : List Sample)
    : Type 0 where
  large :
      n < amount up k changes + amount down k changes
      → ((d : Direction) → amount d k out ≡ amount d k rows)
      → Reported n k m changes rows out
  small :
      amount up k changes + amount down k changes ≤ n
      → ((d : Direction) → amount d k out ≡ held d k m)
      → Reported n k m changes rows out
  absent :
      ((d : Direction) → amount d k rows ≡ 0)
      → ((d : Direction) → amount d k changes ≡ 0)
      → ((d : Direction) → amount d k out ≡ 0)
      → Reported n k m changes rows out

-- One row more, of another key or of this one.
other_row :
    (n : ℕ) (k : Bytes) (m : Assoc Bytes Sample) (c r o : Sample) (changes rows out : List Sample)
    → bytes_eq (key c) k ≡ false
    → bytes_eq (key r) k ≡ false
    → bytes_eq (key o) k ≡ false
    → Reported n k m changes rows out
    → Reported n k m (c ∷ changes) (r ∷ rows) (o ∷ out)
other_row n k m c r o changes rows out e f g (large h a) =
    large (omega (arith, skipped up k c changes e, skipped down k c changes e))
      (λ d. omega (arith, skipped d k o out g, skipped d k r rows f, a d))
other_row n k m c r o changes rows out e f g (small h a) =
    small (omega (arith, skipped up k c changes e, skipped down k c changes e))
      (λ d. omega (arith, skipped d k o out g, a d))
other_row n k m c r o changes rows out e f g (absent a b h) =
    absent (λ d. omega (arith, skipped d k r rows f, a d))
      (λ d. omega (arith, skipped d k c changes e, b d))
      (λ d. omega (arith, skipped d k o out g, h d))

prior_traffic :
    (d : Direction) (p r : Sample)
    → traffic d (record r { upload = p.upload; download = p.download }) ≡ traffic d p
prior_traffic up p r = refl
prior_traffic down p r = refl

own_row :
    (n : ℕ) (k : Bytes) (m : Assoc Bytes Sample) (c r : Sample) (changes rows out : List Sample)
    → n ≤ max_int64
    → IsNatural c
    → key c ≡ k
    → key r ≡ k
    → HasNo k changes
    → HasNo k rows
    → HasNo k out
    → Reported n k m
        (c ∷ changes)
        (r ∷ rows)
        (held_row (is_small (pos n) c) (or_zero (get bytes_key (key c) m)) r ∷ out)
unfolding held key
own_row n k m c r changes rows out h natural e f a b g =
    let here = (bytes_eq_iff (key c) k).1 e in
    let there = (bytes_eq_iff (key r) k).1 f in
    elim (Bool-cases (is_small (pos n) c)) [
      | inl s ↦ rw s (
          small
            (omega (
              arith,
              found up k c changes here a,
              found down k c changes here a,
              (is_small_iff n c h natural).0 s,
            ))
            (λ d.
              found d k _ out there g
              ∙ (prior_traffic d (or_zero (get bytes_key (key c) m)) r
                  ∙ ap (λ j. traffic d (or_zero (get bytes_key j m))) e)))
      | inr s ↦ rw s (
          large
            (omega (arith, found up k c changes here a, found down k c changes here a, not_small s))
            (λ d. omega (arith, found d k r out there g, found d k r rows there b)))
    ]
  where
    not_small : is_small (pos n) c ≡ false → n < traffic up c + traffic down c
    not_small s = ground (arith, (is_small_iff n c h natural).1)

pub held_back-Reported :
    (n : ℕ) (k : Bytes) (m : Assoc Bytes Sample) (changes rows : List Sample)
    → n ≤ max_int64
    → All IsNatural changes
    → map key changes ≡ map key rows
    → IsAscending changes
    → IsAscending rows
    → Reported n k m changes rows (held_back (pos n) m changes rows)
unfolding held_back
held_back-Reported n k m [] [] h natural e a b = absent (λ d. refl) (λ d. refl) (λ d. refl)
held_back-Reported n k m [] (r ∷ rows) h natural e a b = absurd (cc)
held_back-Reported n k m (c ∷ changes) [] h natural e a b = absurd (cc)
held_back-Reported n k m (c ∷ changes) (r ∷ rows) h natural e a b =
    let same : key c ≡ key r = cc in
    let rest : map key changes ≡ map key rows = cc in
    elim (Bool-cases (bytes_eq (key r) k)) [
      | inl at ↦
          let is = (bytes_eq_iff (key r) k).0 at in
          let no_row = HasNo-above (key r) k rows is b.0 in
          own_row n k m c r changes rows _ h natural.0 (same ∙ is) is
            (HasNo-above (key c) k changes (same ∙ is) a.0) no_row
            (HasNo-held_back (pos n) k m changes rows no_row)
      | inr off ↦
          other_row n k m c r _ changes rows _ (ap (λ x. bytes_eq x k) same ∙ off) off
            (HasNo-held_row k (is_small (pos n) c) (or_zero (get bytes_key (key c) m)) r off)
            (held_back-Reported n k m changes rows h natural.1 rest a.1 b.1)
    ]
