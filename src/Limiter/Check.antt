-- ===== src/Limiter/Check.antt =====
-- `CheckLimit` (limiter.go): the answer to a new connection. `isTcp` is not read by the code.
pub mod Laws
pub mod Devices
use v2b_x.Base.{
  int_key, ℕ, suc, ◌+◌, ◌≡◌, Bool, true, false, ◌&&◌, not, Option, none, some, List, [], ◌∷◌, Bytes,
  ◌==◌, if◌then◌else◌, get, put, del,
}
use v2b_x.Base.Int.{ℤ, pos, ltb_ℤ, leb_ℤ, eqb_ℤ}
use v2b_x.Text.{codes}
use v2b_x.Transfer.Types.{bytes_key}
use v2b_x.Limiter.Types.{
  UserLimitInfo, Bucket, Limiter, ref_key, or_none_alive, info_at, account_bucket_key,
}
use v2b_x.Limiter.Speed.{determine_speed_limit, byte_rate}

-- `strings.TrimPrefix`
unfoldable pub trim_prefix : Bytes → Bytes → Option Bytes
trim_prefix text [] = some text
trim_prefix [] (p ∷ ps) = none
trim_prefix (c ∷ cs) (p ∷ ps) = let rest = trim_prefix cs ps in if c == p then rest else none

unfoldable pub plain_ip : Bytes → Bytes
unfolding trim_prefix
plain_ip ip = elim (trim_prefix ip (codes "::ffff:")) [ none ↦ ip | some rest ↦ rest ]

-- A dynamic limit that has run out is cleared in the shared record, and the bucket is dropped.
unfoldable pub expire : ℤ → Limiter → ℕ → Limiter
expire now l r =
    let u = info_at l r in
    if ltb_ℤ u.expire_time now && not (eqb_ℤ u.expire_time (pos 0))
    then record l {
      infos = put ref_key r (record u { dynamic_speed_limit = pos 0; expire_time = pos 0 }) l.infos;
      speed_limiter = del bytes_key (account_bucket_key u.uid) l.speed_limiter;
    }
    else l

-- `deviceLimit > 0` and `deviceLimit <= aliveIp`
abbrev pub is_full : Limiter → UserLimitInfo → Bool
is_full l u =
    ltb_ℤ (pos 0) u.device_limit
    && leb_ℤ u.device_limit (or_none_alive (get int_key u.uid l.alive_list))

-- A new address that is entered: it was online before, or the limit decides. `undone` is the state
-- in which it is taken out again.
unfoldable pub admit : Limiter → Limiter → UserLimitInfo → Bytes → Option ℤ → Limiter × Bool
admit entered undone u ip (some owner) =
    if eqb_ℤ owner u.uid
    then (record entered { old_user_online = del bytes_key ip entered.old_user_online }, false)
    else (entered, false)
admit entered undone u ip none = if is_full entered u then (undone, true) else (entered, false)

abbrev pub with_ips : Limiter → Bytes → List (Bytes × ℤ) → Limiter
with_ips l taguuid ips = record l { user_online_ip = put bytes_key taguuid ips l.user_online_ip }

-- The tag has a map of addresses, in which this one is known or new.
unfoldable pub join :
    Limiter → Bytes → UserLimitInfo → Bytes → List (Bytes × ℤ) → Option ℤ → Limiter × Bool
unfolding admit
join l taguuid u ip ips (some _) = (l, false)
join l taguuid u ip ips none =
    let entered = with_ips l taguuid (put bytes_key ip u.uid ips) in
    let undone = with_ips l taguuid (del bytes_key ip (put bytes_key ip u.uid ips)) in
    admit entered undone u ip (get bytes_key ip l.old_user_online)

-- The block under `noSSUDP`: the address is stored, and the device limit is checked.
unfoldable pub track :
    Limiter → Bytes → UserLimitInfo → Bytes → Option (List (Bytes × ℤ)) → Limiter × Bool
unfolding join admit
track l taguuid u ip (some ips) = join l taguuid u ip ips (get bytes_key ip ips)
track l taguuid u ip none =
    let entered = with_ips l taguuid ((ip, u.uid) ∷ []) in
    let undone = record entered { user_online_ip = del bytes_key taguuid entered.user_online_ip } in
    admit entered undone u ip (get bytes_key ip l.old_user_online)

-- The bucket of the account: the one that is there, or a new one.
unfoldable pub bucket : Limiter → ℤ → ℤ → Option Bucket × Limiter
bucket l uid limit =
    let made : Bucket = record { pointer = l.fresh; rate = limit } in
    if ltb_ℤ (pos 0) limit
    then elim (get bytes_key (account_bucket_key uid) l.speed_limiter) [
      | some b ↦ (some b, record l { fresh = l.fresh + 1 })
      | none ↦ (
        some made,
        record l {
          fresh = l.fresh + 1;
          speed_limiter = put bytes_key (account_bucket_key uid) made l.speed_limiter;
        },
      )
    ]
    else (none, l)

-- The answer: a bucket, and whether the connection is rejected.
pub record Verdict : Type 0 where
  pub bucket : Option Bucket
  pub reject : Bool

abbrev pub answer : ℤ → ℤ → Limiter × Bool → Verdict × Limiter
answer uid limit (l, true) = (record { bucket = none; reject = true }, l)
answer uid limit (l, false) =
    let given = bucket l uid limit in (record { bucket = given.0; reject = false }, given.1)

-- The rate in bytes of the node's limit and the user's.
abbrev pub rate_of : Limiter → UserLimitInfo → ℤ
rate_of l u = byte_rate (
    determine_speed_limit l.speed_limit (determine_speed_limit u.speed_limit u.dynamic_speed_limit))

abbrev pub tracked_at : Limiter → Bytes → UserLimitInfo → Bytes → Limiter × Bool
tracked_at l taguuid u ip = track l taguuid u ip (get bytes_key taguuid l.user_online_ip)

-- The user is known: an expired limit is cleared, the address is tracked under `noSSUDP`.
unfoldable pub check_user : ℤ → Bytes → Bytes → Bool → Limiter → ℕ → Verdict × Limiter
unfolding expire track
check_user now taguuid ip no_ss_udp l r =
    let live = expire now l r in
    let u = info_at live r in
    answer u.uid (rate_of live u)
      (if no_ss_udp then tracked_at live taguuid u ip else (live, false))

unfoldable pub check_known : ℤ → Bytes → Bytes → Bool → Limiter → Option ℕ → Verdict × Limiter
unfolding check_user
check_known now taguuid ip no_ss_udp l none = (record { bucket = none; reject = true }, l)
check_known now taguuid ip no_ss_udp l (some r) = check_user now taguuid ip no_ss_udp l r

unfoldable pub check_limit : ℤ → Bytes → Bytes → Bool → Limiter → Verdict × Limiter
unfolding check_known
check_limit now taguuid ip no_ss_udp l =
    check_known now taguuid (plain_ip ip) no_ss_udp l (get bytes_key taguuid l.user_limit_info)
