-- ===== src/Limiter/Users.antt =====
-- The users of a node: `AddLimiter`, `UpdateUser`, `UpdateDynamicSpeedLimit`, `UpdateAliveList`
-- (limiter.go) and `AddDynamicSpeedLimit` (dynamic.go).
pub mod Sharing
pub mod Updates
use v2b_x.Base.{
  int_key, ℕ, suc, ◌+◌, ◌≡◌, Bool, true, false, ◌&&◌, ◌||◌, not, Option, none, some, List, [], ◌∷◌,
  Bytes, if◌then◌else◌, any, Assoc, get, put, del,
}
use v2b_x.Base.Int.{ℤ, pos, eqb_ℤ}
use v2b_x.Transfer.Types.{bytes_key}
use v2b_x.Limiter.Types.{
  UserLimitInfo, zero_info, UserInfo, Limiter, ref_key, info_at, account_bucket_key, user_tag,
}

-- The record of an account, made where there is none.
unfoldable pub owned : Limiter → ℤ → UserLimitInfo → Option ℕ → ℕ × Limiter
owned l uid made (some r) = (r, l)
owned l uid made none = (
  l.fresh,
  record l {
    owner_info = put int_key uid l.fresh l.owner_info;
    infos = put ref_key l.fresh made l.infos;
    fresh = suc l.fresh;
  },
)

-- A write through the reference, and the two maps of the credential.
unfoldable pub enter : Bytes → Limiter → UserInfo → ℕ → UserLimitInfo → Limiter
enter tag l user r info = record l {
  infos = put ref_key r info l.infos;
  user_limit_info = put bytes_key (user_tag tag user.uuid) r l.user_limit_info;
  uuid_to_uid = put bytes_key user.uuid user.id l.uuid_to_uid;
}

-- A limit of a further credential replaces the account's, unless it is 0.
abbrev pub unless_zero : ℤ → ℤ → ℤ
unless_zero new old = if eqb_ℤ new (pos 0) then old else new

unfoldable pub first_seen : Bytes → Limiter → UserInfo → ℕ × Limiter → Limiter
unfolding enter
first_seen tag l user (r, m) =
    let info = info_at m r in
    enter tag m user r (record info {
      uid = user.id;
      speed_limit = unless_zero user.speed_limit info.speed_limit;
      device_limit = unless_zero user.device_limit info.device_limit;
      over_limit = false;
    })

unfoldable pub add_users : Bytes → Limiter → List UserInfo → Limiter
unfolding first_seen owned
add_users tag l [] = l
add_users tag l (user ∷ rest) =
    add_users tag
      (first_seen tag l user (owned l user.id zero_info (get int_key user.id l.owner_info))) rest

abbrev pub new_limiter : ℤ → Assoc ℤ ℤ → Limiter
new_limiter speed_limit alive = record {
  owner_info = [];
  infos = [];
  fresh = 0;
  speed_limit = speed_limit;
  user_online_ip = [];
  old_user_online = [];
  uuid_to_uid = [];
  user_limit_info = [];
  speed_limiter = [];
  alive_list = alive;
}

-- `AddLimiter`, less the entry in the map of all limiters.
unfoldable pub add_limiter : Bytes → ℤ → List UserInfo → Assoc ℤ ℤ → Limiter
add_limiter tag speed_limit users alive = add_users tag (new_limiter speed_limit alive) users

-- The first loop of `UpdateUser`.
unfoldable pub drop_credentials : Bytes → Limiter → List UserInfo → Limiter
drop_credentials tag l [] = l
drop_credentials tag l (user ∷ rest) =
    drop_credentials tag
      (record l {
        user_limit_info = del bytes_key (user_tag tag user.uuid) l.user_limit_info;
        user_online_ip = del bytes_key (user_tag tag user.uuid) l.user_online_ip;
        uuid_to_uid = del bytes_key user.uuid l.uuid_to_uid;
      })
      rest

-- An account that a credential has, or an added one will have.
unfoldable pub remains : Limiter → List UserInfo → ℤ → Bool
remains l added uid =
    any (λ p. eqb_ℤ p.1 uid) l.uuid_to_uid || any (λ next. eqb_ℤ next.id uid) added

-- The second loop.
unfoldable pub drop_accounts : List UserInfo → Limiter → List UserInfo → Limiter
unfolding remains
drop_accounts added l [] = l
drop_accounts added l (user ∷ rest) =
    drop_accounts added
      (if remains l added user.id then l else record l {
        speed_limiter = del bytes_key (account_bucket_key user.id) l.speed_limiter;
        alive_list = del int_key user.id l.alive_list;
        owner_info = del int_key user.id l.owner_info;
      })
      rest

-- The body of the third loop: the limits are the new ones, and a changed rate drops the bucket.
unfoldable pub renewed : Bytes → UserInfo → ℕ × Limiter → Limiter
unfolding enter
renewed tag user (r, m) =
    let info = info_at m r in
    let next =
      enter tag m user r
        (record info { speed_limit = user.speed_limit; device_limit = user.device_limit }) in
    record next {
      speed_limiter =
          if eqb_ℤ info.speed_limit user.speed_limit
          then m.speed_limiter
          else del bytes_key (account_bucket_key user.id) m.speed_limiter;
    }

unfoldable pub renew_users : Bytes → Limiter → List UserInfo → Limiter
unfolding renewed owned
renew_users tag l [] = l
renew_users tag l (user ∷ rest) =
    renew_users tag
      (renewed tag user
        (owned l user.id (record zero_info { uid = user.id }) (get int_key user.id l.owner_info)))
      rest

unfoldable pub update_user : Bytes → List UserInfo → List UserInfo → Limiter → Limiter
unfolding drop_credentials drop_accounts renew_users
update_user tag added deleted l =
    renew_users tag (drop_accounts added (drop_credentials tag l deleted) deleted) added

-- `UpdateDynamicSpeedLimit`: `none` is the error "not found".
unfoldable pub dynamic_at : ℤ → ℤ → Limiter → Option ℕ → Option Limiter
dynamic_at limit expire l none = none
dynamic_at limit expire l (some r) =
    let info = info_at l r in
    some (record l {
      speed_limiter = del bytes_key (account_bucket_key info.uid) l.speed_limiter;
      infos =
          put ref_key r (record info { dynamic_speed_limit = limit; expire_time = expire }) l.infos;
    })

unfoldable pub update_dynamic_speed_limit : Bytes → Bytes → ℤ → ℤ → Limiter → Option Limiter
unfolding dynamic_at
update_dynamic_speed_limit tag uuid limit expire l =
    dynamic_at limit expire l (get bytes_key (user_tag tag uuid) l.user_limit_info)

-- `AddDynamicSpeedLimit`: a record of its own for the credential. `expire` is the end of its time.
unfoldable pub add_dynamic_speed_limit : Bytes → UserInfo → ℤ → ℤ → Limiter → Limiter
add_dynamic_speed_limit tag user limit expire l = record l {
  infos =
      put ref_key l.fresh (record zero_info { dynamic_speed_limit = limit; expire_time = expire })
        l.infos;
  fresh = suc l.fresh;
  user_limit_info = put bytes_key (user_tag tag user.uuid) l.fresh l.user_limit_info;
}
