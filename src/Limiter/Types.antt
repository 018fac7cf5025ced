-- ===== src/Limiter/Types.antt =====
-- `Limiter` and `UserLimitInfo` (limiter.go). A `*UserLimitInfo` is shared by the maps `ownerInfo`
-- and `UserLimitInfo`: it is a number here, and `infos` is the memory behind it.
use v2b_x.Base.{ℕ, Bool, Option, none, some, ◌∷◌, ◌++◌, Bytes, ◌==◌, ==_iff, Key, Assoc, get}
use v2b_x.Base.Int.{ℤ, pos}
use v2b_x.Text.{codes, show_int}

pub record UserLimitInfo : Type 0 where
  pub uid : ℤ
  pub speed_limit : ℤ
  pub device_limit : ℤ
  pub dynamic_speed_limit : ℤ
  pub expire_time : ℤ
  pub over_limit : Bool

-- `new(UserLimitInfo)`, and what a reference that was never made would read as.
abbrev pub zero_info : UserLimitInfo
zero_info = record {
  uid = pos 0;
  speed_limit = pos 0;
  device_limit = pos 0;
  dynamic_speed_limit = pos 0;
  expire_time = pos 0;
  over_limit = Bool.false;
}

-- The user of the panel, less `SubscriptionGrant`, which the limiter does not read.
pub record UserInfo : Type 0 where
  pub id : ℤ
  pub uuid : Bytes
  pub speed_limit : ℤ
  pub device_limit : ℤ

-- A `*ratelimit.Bucket`: which allocation it is, and the rate it was made with.
pub record Bucket : Type 0 where
  pub pointer : ℕ
  pub rate : ℤ

pub record OnlineUser : Type 0 where
  pub uid : ℤ
  pub ip : Bytes

-- `fresh` is the next allocation. The rules of domains and protocols are not part of it.
pub record Limiter : Type 0 where
  pub owner_info : Assoc ℤ ℕ
  pub infos : Assoc ℕ UserLimitInfo
  pub fresh : ℕ
  pub speed_limit : ℤ
  pub user_online_ip : Assoc Bytes (Assoc Bytes ℤ)
  pub old_user_online : Assoc Bytes ℤ
  pub uuid_to_uid : Assoc Bytes ℤ
  pub user_limit_info : Assoc Bytes ℕ
  pub speed_limiter : Assoc Bytes Bucket
  pub alive_list : Assoc ℤ ℤ

abbrev pub ref_key : Key ℕ
ref_key = record { eqb = λ a b. a == b; eqb_iff = ==_iff }

-- The value of a missing key is the zero of its type.
abbrev pub or_info : Option UserLimitInfo → UserLimitInfo
or_info none = zero_info
or_info (some u) = u

abbrev pub or_none_alive : Option ℤ → ℤ
or_none_alive none = pos 0
or_none_alive (some n) = n

abbrev pub info_at : Limiter → ℕ → UserLimitInfo
info_at l r = or_info (get ref_key r l.infos)

unfoldable pub account_bucket_key : ℤ → Bytes
account_bucket_key uid = codes "owner:" ++ show_int uid

-- `format.UserTag`
abbrev pub bar : ℕ
bar = 124

unfoldable pub user_tag : Bytes → Bytes → Bytes
user_tag tag uuid = tag ++ bar ∷ uuid
