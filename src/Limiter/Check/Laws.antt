-- ===== src/Limiter/Check/Laws.antt =====
-- `CheckLimit`: when a connection is rejected, and which addresses are online behind the answer.
use v2b_x.Base.{
  ℕ, ◌≡◌, ◌∙◌, refl, Bool, true, false, ◌&&◌, not, Option, none, some, List, Bytes, get, put,
  get-put, if◌then◌else◌, arith, ap,
}
use v2b_x.Base.Int.{ℤ, pos, ltb_ℤ, eqb_ℤ}
use v2b_x.Transfer.Types.{bytes_key}
use v2b_x.Limiter.Types.{UserLimitInfo, Limiter, ref_key, or_info, info_at}
use v2b_x.Limiter.Check.{
  plain_ip, expire, is_full, admit, join, track, answer, rate_of, tracked_at, check_user,
  check_known, check_limit,
}

abbrev pub is_none : {A : Type 0} → Option A → Bool
is_none none = true
is_none (some _) = false

-- The user that an address of a tag is online for.
abbrev pub ip_of : Option (List (Bytes × ℤ)) → Bytes → Option ℤ
ip_of none ip = none
ip_of (some ips) ip = get bytes_key ip ips

abbrev pub online : Limiter → Bytes → Bytes → Option ℤ
online l taguuid ip = ip_of (get bytes_key taguuid l.user_online_ip) ip

-- Which connections are rejected: of unknown users, and new devices of users whose limit is used up.
abbrev pub refused_user : Bool → Limiter → Bytes → Bytes → Option ℕ → Bool
refused_user tracked l taguuid ip none = true
refused_user tracked l taguuid ip (some r) =
    tracked
    && is_none (online l taguuid ip)
    && is_none (get bytes_key ip l.old_user_online)
    && is_full l (info_at l r)

abbrev pub refused : Bytes → Bytes → Bool → Limiter → Bool
refused taguuid ip tracked l =
    refused_user tracked l taguuid ip (get bytes_key taguuid l.user_limit_info)

-- What clearing an expired limit leaves as it was.
pub record Same (l m : Limiter) (r : ℕ) : Type 0 where
  pub device : (info_at m r).device_limit ≡ (info_at l r).device_limit
  pub uid : (info_at m r).uid ≡ (info_at l r).uid
  pub online : m.user_online_ip ≡ l.user_online_ip
  pub old : m.old_user_online ≡ l.old_user_online
  pub alive : m.alive_list ≡ l.alive_list

Same-if :
    (b : Bool) (l m n : Limiter) (r : ℕ) → Same l m r → Same l n r → Same l (if b then m else n) r
Same-if true l m n r h k = h
Same-if false l m n r h k = k

info_put :
    (r : ℕ) (u : UserLimitInfo) (l : Limiter)
    → or_info (get ref_key r (put ref_key r u l.infos)) ≡ u
info_put r u l = rw (get-put ref_key r r u l.infos) (ground arith)

pub expire-Same : (now : ℤ) (l : Limiter) (r : ℕ) → Same l (expire now l r) r
unfolding expire
expire-Same now l r =
    let e =
      info_put r (record (info_at l r) { dynamic_speed_limit = pos 0; expire_time = pos 0 }) l in
    Same-if (ltb_ℤ (info_at l r).expire_time now && not (eqb_ℤ (info_at l r).expire_time (pos 0))) l
      _ l r
      (record {
        device = ap (λ u. u.device_limit) e;
        uid = ap (λ u. u.uid) e;
        online = refl;
        old = refl;
        alive = refl;
      })
      (record { device = refl; uid = refl; online = refl; old = refl; alive = refl })

admit_reject :
    (e e' : Limiter) (u : UserLimitInfo) (ip : Bytes) (seen : Option ℤ)
    → (admit e e' u ip seen).1 ≡ (is_none seen && is_full e u)
unfolding admit
admit_reject e e' u ip none = ground arith
admit_reject e e' u ip (some owner) = ground arith

join_reject :
    (l : Limiter) (t : Bytes) (u : UserLimitInfo) (ip : Bytes) (ips : List (Bytes × ℤ))
    (o : Option ℤ)
    → (join l t u ip ips o).1
      ≡ (is_none o && is_none (get bytes_key ip l.old_user_online) && is_full l u)
unfolding join
join_reject l t u ip ips none = admit_reject _ _ u ip _
join_reject l t u ip ips (some _) = refl

pub track_reject :
    (l : Limiter) (t : Bytes) (u : UserLimitInfo) (ip : Bytes) (m : Option (List (Bytes × ℤ)))
    → (track l t u ip m).1
      ≡ (is_none (ip_of m ip) && is_none (get bytes_key ip l.old_user_online) && is_full l u)
unfolding track
track_reject l t u ip none = admit_reject _ _ u ip _
track_reject l t u ip (some ips) = join_reject l t u ip ips _

answer_reject : (uid limit : ℤ) (p : Limiter × Bool) → (answer uid limit p).0.reject ≡ p.1
answer_reject uid limit (l, true) = refl
answer_reject uid limit (l, false) = refl

pub is_full-Same :
    (l m : Limiter) (r : ℕ) → Same l m r → is_full m (info_at m r) ≡ is_full l (info_at l r)
is_full-Same l m r h = rw (h.device, h.uid, h.alive) refl

check_user_reject :
    (now : ℤ) (t ip : Bytes) (tracked : Bool) (l : Limiter) (r : ℕ)
    → (check_user now t ip tracked l r).0.reject ≡ refused_user tracked l t ip (some r)
unfolding check_user
check_user_reject now t ip true l r =
    let m = expire now l r in
    let u = info_at m r in
    let h = expire-Same now l r in
    answer_reject u.uid (rate_of m u) (tracked_at m t u ip)
    ∙ track_reject m t u ip (get bytes_key t m.user_online_ip)
    ∙ rw (h.online, h.old, is_full-Same l m r h) refl
check_user_reject now t ip false l r =
    let m = expire now l r in let u = info_at m r in answer_reject u.uid (rate_of m u) (m, false)

check_known_reject :
    (now : ℤ) (t ip : Bytes) (tracked : Bool) (l : Limiter) (o : Option ℕ)
    → (check_known now t ip tracked l o).0.reject ≡ refused_user tracked l t ip o
unfolding check_known
check_known_reject now t ip tracked l none = refl
check_known_reject now t ip tracked l (some r) = check_user_reject now t ip tracked l r

-- `CheckLimit` rejects a connection exactly where the user is unknown to the node, or where devices
-- are counted, the address is neither online for the tag nor was online at the last report, the
-- account has a device limit, and that limit is at most the number of its devices alive.
pub reject-check_limit :
    (now : ℤ) (taguuid ip : Bytes) (counted : Bool) (l : Limiter)
    → (check_limit now taguuid ip counted l).0.reject ≡ refused taguuid (plain_ip ip) counted l
unfolding check_limit
reject-check_limit now taguuid ip counted l =
    check_known_reject now taguuid (plain_ip ip) counted l _
