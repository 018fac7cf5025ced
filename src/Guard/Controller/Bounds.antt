-- ===== src/Guard/Controller/Bounds.antt =====
-- The arithmetic of controller.go on int64: what is left of a lease.
use v2b_x.Base.{ℕ, suc, ◌+◌, ◌-◌, ◌≤◌, ◌≡◌, true, false, arith}
use v2b_x.Base.Int.{
  ℤ, pos, negsuc, pos_part, neg_part, ltb_ℤ, leb_ℤ, eqb_ℤ, sub64, max_int64, sub64_exact,
}

-- a - b is at most 60, for 0 ≤ b ≤ a.
at_most_sixty :
    (a b : ℕ) → b ≤ a → a ≤ max_int64 → leb_ℤ (sub64 (pos a) (pos b)) (pos 60) ≡ true → a ≤ b + 60
at_most_sixty a b h k q =
    let r : leb_ℤ (pos (a - b)) (pos 60) ≡ true = rw (sub64_exact a b h k) at q in ground arith

ten_minutes :
    (e s : ℕ)
    → suc s ≤ e
    → e ≤ max_int64
    → eqb_ℤ (sub64 (pos e) (pos s)) (pos 600) ≡ true
    → e ≡ s + 600
ten_minutes e s h k q =
    let r : eqb_ℤ (pos (e - s)) (pos 600) ≡ true = rw (sub64_exact e s (omega (arith, h)) k) at q in
    ground arith

-- a + 5 is not below i.
five_before :
    (i : ℕ) (a : ℤ)
    → i ≤ max_int64
    → ltb_ℤ a (sub64 (pos i) (pos 5)) ≡ false
    → i + neg_part a ≤ pos_part a + 5
unfolding sub64
five_before i a h q = ground arith

sub64_below : (e a : ℕ) → e + suc a ≤ max_int64 → sub64 (pos e) (negsuc a) ≡ pos (e + suc a)
unfolding sub64
sub64_below e a h = ground arith

left_of :
    (s i n e : ℕ) (a : ℤ)
    → n ≤ max_int64
    → e ≤ max_int64
    → s ≤ i
    → i ≤ s + 60
    → n ≤ i + 60
    → e ≡ s + 600
    → i + neg_part a ≤ pos_part a + 5
    → leb_ℤ (pos n) a ≡ false
    → (d : ℕ) × (sub64 (pos e) a ≡ pos d) × (d ≤ 1000)
left_of s i n e (pos a) hn he si r1 r2 r3 r5 q5 =
    let an : suc a ≤ n = ground arith in
    (e - a, sub64_exact e a (omega (arith, an, r1, r2, r3)) he, omega (arith, si, r3, r5))
left_of s i n e (negsuc a) hn he si r1 r2 r3 r5 q5 =
    (e + suc a, sub64_below e a (omega (arith, r3, r5, si)), omega (arith, r3, r5, si))

-- The seconds that are left of a temporary lease of ten minutes when its block is accepted.
pub left_over :
    (s i n e : ℕ) (a : ℤ)
    → n ≤ max_int64
    → e ≤ max_int64
    → s ≤ i
    → suc i ≤ n
    → suc s ≤ e
    → leb_ℤ (sub64 (pos i) (pos s)) (pos 60) ≡ true
    → leb_ℤ (sub64 (pos n) (pos i)) (pos 60) ≡ true
    → eqb_ℤ (sub64 (pos e) (pos s)) (pos 600) ≡ true
    → ltb_ℤ a (sub64 (pos i) (pos 5)) ≡ false
    → leb_ℤ (pos n) a ≡ false
    → (d : ℕ) × (sub64 (pos e) a ≡ pos d) × (d ≤ 1000)
left_over s i n e a hn he si in_ se q1 q2 q3 q4 q5 =
    let r1 = at_most_sixty i s si (omega (arith, hn, in_)) q1 in
    let r2 = at_most_sixty n i (omega (arith, in_)) hn q2 in
    let r3 = ten_minutes e s se he q3 in
    let r5 = five_before i a (omega (arith, hn, in_)) q4 in
    left_of s i n e a hn he si r1 r2 r3 r5 q5
