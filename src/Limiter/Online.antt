-- ===== src/Limiter/Online.antt =====
-- `GetOnlineDevice` (limiter.go): the report of the devices that are online. `Range` visits the maps
-- in the order of their lists.
pub mod Report
use v2b_x.Base.{
  ◌≡◌, Bool, true, false, ◌&&◌, Option, List, [], ◌∷◌, ◌++◌, Bytes, bytes_eq, any, if◌then◌else◌,
  Assoc, put, del,
}
use v2b_x.Base.Int.{ℤ, eqb_ℤ}
use v2b_x.Transfer.Types.{bytes_key}
use v2b_x.Limiter.Types.{OnlineUser, Limiter}

abbrev pub user_eq : OnlineUser → OnlineUser → Bool
user_eq a b = eqb_ℤ a.uid b.uid && bytes_eq a.ip b.ip

-- `seen[entry]`: the entries that are seen are those of the report.
abbrev pub listed : OnlineUser → List OnlineUser → Bool
listed u out = any (λ v. user_eq v u) out

abbrev pub unless_seen : List OnlineUser → OnlineUser → List OnlineUser
unless_seen out entry = if listed entry out then out else out ++ entry ∷ []

-- The inner `Range`, over the addresses of one tag.
unfoldable pub report_ips :
    Assoc Bytes ℤ → Assoc Bytes ℤ → List OnlineUser → Assoc Bytes ℤ × List OnlineUser
report_ips [] old out = (old, out)
report_ips ((ip, uid) ∷ rest) old out =
    report_ips rest (put bytes_key ip uid old) (unless_seen out (record { uid = uid; ip = ip }))

-- The outer `Range`, which deletes each tag that it visits.
unfoldable pub report_tags :
    Assoc Bytes (Assoc Bytes ℤ) → Limiter → List OnlineUser → List OnlineUser × Limiter
unfolding report_ips
report_tags [] l out = (out, l)
report_tags ((taguuid, ips) ∷ rest) l out =
    let seen = report_ips ips l.old_user_online out in
    report_tags rest
      (record l {
        old_user_online = seen.0;
        user_online_ip = del bytes_key taguuid l.user_online_ip;
      })
      seen.1

unfoldable pub get_online_device : Limiter → List OnlineUser × Limiter
unfolding report_tags
get_online_device l = report_tags l.user_online_ip (record l { old_user_online = [] }) []
