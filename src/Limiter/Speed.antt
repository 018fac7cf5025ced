-- ===== src/Limiter/Speed.antt =====
-- `determineSpeedLimit` (dynamic.go), and the rate in bytes that `CheckLimit` makes of it.
use v2b_x.Base.{ℕ, zero, suc, leb, ◌==◌, ◌+◌, ◌*◌, ◌/◌, ◌%◌, ◌≤◌, ◌≡◌, ◌||◌, if◌then◌else◌, arith}
use v2b_x.Base.Int.{ℤ, pos, negsuc, eqb_ℤ, ltb_ℤ, of_word, to_word, word64}

-- The branches of the source, with `limit1 > limit2` as `limit2 < limit1`.
unfoldable pub determine_speed_limit : ℤ → ℤ → ℤ
determine_speed_limit limit1 limit2 =
    if eqb_ℤ limit1 (pos 0) || eqb_ℤ limit2 (pos 0)
    then if ltb_ℤ limit2 limit1 then limit1 else if ltb_ℤ limit1 limit2 then limit2 else pos 0
    else if ltb_ℤ limit2 limit1
    then limit2
    else if ltb_ℤ limit1 limit2
    then limit1
    else limit1

-- Division of an int64 by eight, towards zero.
abbrev pub negative : ℕ → ℤ
negative zero = pos 0
negative (suc m) = negsuc m

abbrev pub eighth : ℤ → ℤ
eighth (pos n) = pos (n / 8)
eighth (negsuc n) = negative ((n + 1) / 8)

-- `int64(limit) * 1000000 / 8`
unfoldable pub byte_rate : ℤ → ℤ
byte_rate limit = eighth (of_word ((to_word limit * 1000000) % word64))

-- The least of the limits that are set, where 0 stands for none.
abbrev pub least_set : ℕ → ℕ → ℕ
least_set a b = if a == 0 then b else if b == 0 then a else if leb a b then a else b

determined : (a b : ℕ) → determine_speed_limit (pos a) (pos b) ≡ pos (least_set a b)
unfolding determine_speed_limit
determined a b = ground arith

rate_exact : (n : ℕ) → n ≤ 9000000 → byte_rate (pos n) ≡ pos (n * 125000)
unfolding byte_rate
rate_exact n h = ground arith

-- For two limits in megabits per second of which neither is negative nor above nine million, the
-- bucket's rate in bytes per second is 125000 times the least of those that are set, and 0, which
-- asks for no bucket, where neither is set: the arithmetic does not wrap around.
pub rate-determine_speed_limit :
    (a b : ℕ)
    → a ≤ 9000000
    → b ≤ 9000000
    → byte_rate (determine_speed_limit (pos a) (pos b)) ≡ pos (least_set a b * 125000)
rate-determine_speed_limit a b h k = rw (determined a b) (rate_exact (least_set a b) (ground arith))
