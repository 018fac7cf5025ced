-- ===== src/Examples/Limits.antt =====
-- The device limits of a small node: one account with two credentials and one device allowed.
use v2b_x.Base.{none, List, ◌≡◌, refl, true, false, [], ◌∷◌, Bytes, bytes_eq, arith, get, ◌*◌}
use v2b_x.Base.Int.{ℤ, pos}
use v2b_x.Text.{codes}
use v2b_x.Transfer.Types.{bytes_key}
use v2b_x.Limiter.Types.{Limiter, zero_info}
use v2b_x.Limiter.Speed.{determine_speed_limit, byte_rate, least_set, rate-determine_speed_limit}
use v2b_x.Limiter.Types.{UserInfo}
use v2b_x.Limiter.Users.{add_limiter, update_user}
use v2b_x.Limiter.Users.Sharing.{Shared}
use v2b_x.Limiter.Users.Updates.{add_limiter-Shared, update_user-Shared}
use v2b_x.Limiter.Types.{OnlineUser}
use v2b_x.Limiter.Online.{listed, get_online_device}
use v2b_x.Limiter.Online.Report.{is_online, distinct, get_online_device_lem}
use v2b_x.Limiter.Check.{check_limit, plain_ip}
use v2b_x.Limiter.Check.Laws.{online, refused, reject-check_limit}
use v2b_x.Limiter.Check.Devices.{online_behind, online-check_limit}

abbrev home : Bytes
home = codes "192.0.2.1"

abbrev mapped : Bytes
mapped = codes "::ffff:192.0.2.2"

abbrev alice : Bytes
alice = codes "node|alice"

-- Account 11 is at its limit of one device, which is online from `home`.
abbrev small_node : Limiter
small_node = record {
  owner_info = (pos 11, 0) ∷ [];
  infos = (0, record zero_info { uid = pos 11; speed_limit = pos 8; device_limit = pos 1 }) ∷ [];
  fresh = 1;
  speed_limit = pos 0;
  user_online_ip = (alice, (home, pos 11) ∷ []) ∷ [];
  old_user_online = [];
  uuid_to_uid = (codes "alice", pos 11) ∷ [];
  user_limit_info = (alice, 0) ∷ [];
  speed_limiter = [];
  alive_list = (pos 11, pos 1) ∷ [];
}

rate-determine_speed_limit_example :
    byte_rate (determine_speed_limit (pos 100) (pos 8)) ≡ pos (least_set 100 8 * 125000)
rate-determine_speed_limit_example = rate-determine_speed_limit 100 8 (omega arith) (omega arith)

reject-check_limit_example :
    (check_limit (pos 5) alice mapped true small_node).0.reject
    ≡ refused alice (plain_ip mapped) true small_node
reject-check_limit_example = reject-check_limit (pos 5) alice mapped true small_node

online-check_limit_example :
    online (check_limit (pos 5) alice mapped true small_node).1 alice home
    ≡ online_behind alice
        (plain_ip mapped)
        true
        small_node
        (get bytes_key alice small_node.user_limit_info)
        alice
        home
online-check_limit_example = online-check_limit (pos 5) alice mapped true small_node alice home

-- The second device is rejected, the first one is not.
second_device : (check_limit (pos 5) alice mapped true small_node).0.reject ≡ true
unfolding check_limit get bytes_eq plain_ip
second_device = refl

first_device : (check_limit (pos 5) alice home true small_node).0.reject ≡ false
unfolding check_limit get bytes_eq plain_ip
first_device = refl

-- Two credentials of account 11 and one of account 12, of which the first is then taken away.
abbrev tag : Bytes
tag = codes "node"

abbrev user : Bytes → ℤ → UserInfo
user uuid id = record { id = id; uuid = uuid; speed_limit = pos 10; device_limit = pos 1 }

abbrev grant_a : UserInfo
grant_a = user (codes "a") (pos 11)

abbrev users : List UserInfo
users = grant_a ∷ user (codes "b") (pos 11) ∷ user (codes "c") (pos 12) ∷ []

add_limiter-Shared_example : Shared tag (add_limiter tag (pos 0) users ((pos 11, pos 1) ∷ []))
add_limiter-Shared_example = add_limiter-Shared tag (pos 0) users ((pos 11, pos 1) ∷ [])

update_user-Shared_example :
    Shared tag
      (update_user tag users (grant_a ∷ []) (add_limiter tag (pos 0) users ((pos 11, pos 1) ∷ [])))
update_user-Shared_example =
    update_user-Shared tag users (grant_a ∷ [])
      (add_limiter tag (pos 0) users ((pos 11, pos 1) ∷ []))
      (add_limiter-Shared tag (pos 0) users ((pos 11, pos 1) ∷ []))

get_online_device_lem_example :
    ((u : OnlineUser)
      → listed u (get_online_device small_node).0 ≡ is_online u small_node.user_online_ip)
    × (distinct (get_online_device small_node).0 ≡ true)
    × ((t : Bytes) → get bytes_key t (get_online_device small_node).1.user_online_ip ≡ none)
get_online_device_lem_example = get_online_device_lem small_node
