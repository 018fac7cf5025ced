-- ===== src/Limiter/Check/Devices.antt =====
-- `CheckLimit`: which addresses are online behind the answer. A rejected address is taken out again.
use v2b_x.Base.{
  ℕ, ◌≡◌, ◌∙◌, refl, ap, Bool, true, false, ◌&&◌, not, Option, none, some, List, [], ◌∷◌, Bytes,
  bytes_eq, bytes_eq_iff, Assoc, get, put, del, get-put, get-del, if◌then◌else◌, arith, Bool-cases,
  inl, inr,
}
use v2b_x.Base.Int.{ℤ}
use v2b_x.Transfer.Types.{bytes_key}
use v2b_x.Limiter.Types.{UserLimitInfo, Limiter, info_at}
use v2b_x.Limiter.Check.{
  plain_ip, expire, admit, with_ips, join, track, bucket, answer, rate_of, tracked_at, check_user,
  check_known, check_limit,
}
use v2b_x.Limiter.Check.Laws.{ip_of, online, refused_user, expire-Same, track_reject, is_full-Same}

abbrev pub Online : Type 0
Online = Assoc Bytes (Assoc Bytes ℤ)

abbrev pub on : Online → Bytes → Bytes → Option ℤ
on m t i = ip_of (get bytes_key t m) i

abbrev pub or_uid : Option ℤ → ℤ → ℤ
or_uid none uid = uid
or_uid (some v) uid = v

-- The addresses online when (tag, ip) has been entered, or has not.
abbrev pub entered_if : Bool → Online → Bytes → Bytes → ℤ → Bytes → Bytes → Option ℤ
entered_if b m tag ip uid t i =
    if b && bytes_eq tag t && bytes_eq ip i then some (or_uid (on m t i) uid) else on m t i

on_put :
    (m : Online) (tag : Bytes) (ips : Assoc Bytes ℤ) (t i : Bytes)
    → on (put bytes_key tag ips m) t i ≡ (if bytes_eq tag t then get bytes_key i ips else on m t i)
on_put m tag ips t i =
    rw (get-put bytes_key tag t ips m)
      elim (Bool-cases (bytes_eq tag t)) [ inl e ↦ rw e refl | inr e ↦ rw e refl ]

-- A map of addresses for the tag that has the new one.
entered :
    (m : Online) (tag ip : Bytes) (uid : ℤ) (ips : Assoc Bytes ℤ)
    → on m tag ip ≡ none
    → ((j : Bytes) → get bytes_key j ips ≡ (if bytes_eq ip j then some uid else on m tag j))
    → (t i : Bytes) → on (put bytes_key tag ips m) t i ≡ entered_if true m tag ip uid t i
entered m tag ip uid ips new h t i = on_put m tag ips t i ∙ elim (Bool-cases (bytes_eq tag t)) [
  | inr e ↦ rw e refl
  | inl e ↦
      let same : tag ≡ t = (bytes_eq_iff tag t).0 e in
      elim (Bool-cases (bytes_eq ip i)) [
        | inl f ↦
            let at : ip ≡ i = (bytes_eq_iff ip i).0 f in
            let gone : on m t i ≡ none = rw (← same, ← at) new in rw (e, h i, f, gone) refl
        | inr f ↦ rw (e, h i, f, same) refl
      ]
]

-- A map of addresses for the tag that is as it was.
restored :
    (m : Online) (tag : Bytes) (ips : Assoc Bytes ℤ)
    → ((j : Bytes) → get bytes_key j ips ≡ on m tag j)
    → (t i : Bytes) → on (put bytes_key tag ips m) t i ≡ on m t i
restored m tag ips h t i = on_put m tag ips t i ∙ elim (Bool-cases (bytes_eq tag t)) [
  | inr e ↦ rw e refl
  | inl e ↦ let same : tag ≡ t = (bytes_eq_iff tag t).0 e in rw (e, h i, same) refl
]

-- The map that was made for the tag is gone.
removed :
    (m : Online) (tag : Bytes) (ips : Assoc Bytes ℤ)
    → get bytes_key tag m ≡ none
    → (t i : Bytes) → on (del bytes_key tag (put bytes_key tag ips m)) t i ≡ on m t i
removed m tag ips h t i =
    rw (get-del bytes_key tag t (put bytes_key tag ips m), get-put bytes_key tag t ips m)
      elim (Bool-cases (bytes_eq tag t)) [
        | inr e ↦ rw e refl
        | inl e ↦ let same : tag ≡ t = (bytes_eq_iff tag t).0 e in rw (e, ← same, h) refl
      ]

admit_online :
    (e e' : Limiter) (u : UserLimitInfo) (ip : Bytes) (seen : Option ℤ)
    → (admit e e' u ip seen).0.user_online_ip
      ≡ (if (admit e e' u ip seen).1 then e'.user_online_ip else e.user_online_ip)
unfolding admit
admit_online e e' u ip none = ground arith
admit_online e e' u ip (some owner) = ground arith

bucket_online :
    (l : Limiter) (uid limit : ℤ) → (bucket l uid limit).1.user_online_ip ≡ l.user_online_ip
unfolding bucket
bucket_online l uid limit = ground arith

answer_online :
    (uid limit : ℤ) (p : Limiter × Bool)
    → (answer uid limit p).1.user_online_ip ≡ p.0.user_online_ip
answer_online uid limit (l, true) = refl
answer_online uid limit (l, false) = bucket_online l uid limit

-- An address that is online stays as it is.
kept :
    (m : Online) (tag ip : Bytes) (uid v : ℤ)
    → on m tag ip ≡ some v
    → (t i : Bytes) → on m t i ≡ entered_if true m tag ip uid t i
kept m tag ip uid v h t i = elim (Bool-cases (bytes_eq tag t && bytes_eq ip i)) [
  | inr e ↦ rw e refl
  | inl e ↦
      let same : tag ≡ t = (bytes_eq_iff tag t).0 (ground arith) in
      let at : ip ≡ i = (bytes_eq_iff ip i).0 (ground arith) in
      let there : on m t i ≡ some v = rw (← same, ← at) h in rw (e, there) refl
]

admitted :
    (m : Online) (e e' : Limiter) (u : UserLimitInfo) (tag ip : Bytes) (seen : Option ℤ)
    → ((t i : Bytes) → on e.user_online_ip t i ≡ entered_if true m tag ip u.uid t i)
    → ((t i : Bytes) → on e'.user_online_ip t i ≡ on m t i)
    → (t i : Bytes)
    → on (admit e e' u ip seen).0.user_online_ip t i
      ≡ entered_if (not (admit e e' u ip seen).1) m tag ip u.uid t i
admitted m e e' u tag ip seen h k t i =
    rw (admit_online e e' u ip seen)
      elim (Bool-cases (admit e e' u ip seen).1) [ inl b ↦ rw b (k t i) | inr b ↦ rw b (h t i) ]

taken_out :
    (ip : Bytes) (uid : ℤ) (ips : Assoc Bytes ℤ)
    → get bytes_key ip ips ≡ none
    → (j : Bytes)
    → get bytes_key j (del bytes_key ip (put bytes_key ip uid ips)) ≡ get bytes_key j ips
taken_out ip uid ips h j =
    rw (get-del bytes_key ip j (put bytes_key ip uid ips), get-put bytes_key ip j uid ips)
      elim (Bool-cases (bytes_eq ip j)) [
        | inr e ↦ rw e refl
        | inl e ↦ let same : ip ≡ j = (bytes_eq_iff ip j).0 e in rw (e, ← same, h) refl
      ]

get_single :
    (ip : Bytes) (uid : ℤ) (j : Bytes)
    → get bytes_key j ((ip, uid) ∷ []) ≡ (if bytes_eq ip j then some uid else none)
unfolding get
get_single ip uid j = refl

join_online :
    (l : Limiter) (tag : Bytes) (u : UserLimitInfo) (ip : Bytes) (ips : Assoc Bytes ℤ)
    (o : Option ℤ)
    → get bytes_key tag l.user_online_ip ≡ some ips
    → get bytes_key ip ips ≡ o
    → (t i : Bytes)
    → on (join l tag u ip ips o).0.user_online_ip t i
      ≡ entered_if (not (join l tag u ip ips o).1) l.user_online_ip tag ip u.uid t i
unfolding join
join_online l tag u ip ips (some v) h k t i = kept l.user_online_ip tag ip u.uid v (rw h k) t i
join_online l tag u ip ips none h k t i =
    admitted l.user_online_ip (with_ips l tag (put bytes_key ip u.uid ips))
      (with_ips l tag (del bytes_key ip (put bytes_key ip u.uid ips))) u tag ip
      (get bytes_key ip l.old_user_online)
      (entered l.user_online_ip tag ip u.uid _ (rw h k)
        (λ j. rw (h, get-put bytes_key ip j u.uid ips) refl))
      (restored l.user_online_ip tag _ (λ j. rw h (taken_out ip u.uid ips k j))) t i

track_online :
    (l : Limiter) (tag : Bytes) (u : UserLimitInfo) (ip : Bytes) (m : Option (List (Bytes × ℤ)))
    → get bytes_key tag l.user_online_ip ≡ m
    → (t i : Bytes)
    → on (track l tag u ip m).0.user_online_ip t i
      ≡ entered_if (not (track l tag u ip m).1) l.user_online_ip tag ip u.uid t i
unfolding track
track_online l tag u ip (some ips) h t i = join_online l tag u ip ips _ h refl t i
track_online l tag u ip none h t i =
    admitted l.user_online_ip _ _ u tag ip (get bytes_key ip l.old_user_online)
      (entered l.user_online_ip tag ip u.uid ((ip, u.uid) ∷ []) (rw h refl)
        (λ j. rw h (get_single ip u.uid j)))
      (removed l.user_online_ip tag ((ip, u.uid) ∷ []) h) t i

same_online :
    (l m : Limiter) (b : Bool) (tag ip : Bytes) (uid uid' : ℤ) (t i : Bytes)
    → m.user_online_ip ≡ l.user_online_ip
    → uid' ≡ uid
    → entered_if b m.user_online_ip tag ip uid' t i ≡ entered_if b l.user_online_ip tag ip uid t i
same_online l m b tag ip uid uid' t i h k = rw (h, k) refl

user_online :
    (now : ℤ) (tag ip : Bytes) (counted : Bool) (l : Limiter) (r : ℕ) (t i : Bytes)
    → on (check_user now tag ip counted l r).1.user_online_ip t i
      ≡ entered_if
          (counted && not (refused_user counted l tag ip (some r)))
          l.user_online_ip
          tag
          ip
          (info_at l r).uid
          t
          i
unfolding check_user
user_online now tag ip false l r t i =
    let m = expire now l r in
    let u = info_at m r in
    ap (λ o. on o t i) (answer_online u.uid (rate_of m u) (m, false) ∙ (expire-Same now l r).online)
user_online now tag ip true l r t i =
    let m = expire now l r in
    let u = info_at m r in
    let h = expire-Same now l r in
    let verdict : (tracked_at m tag u ip).1 ≡ refused_user true l tag ip (some r) =
      track_reject m tag u ip (get bytes_key tag m.user_online_ip)
      ∙ rw (h.online, h.old, is_full-Same l m r h) refl in
    ap (λ o. on o t i) (answer_online u.uid (rate_of m u) (tracked_at m tag u ip))
    ∙ track_online m tag u ip (get bytes_key tag m.user_online_ip) refl t i
    ∙ same_online l m (not (tracked_at m tag u ip).1) tag ip (info_at l r).uid u.uid t i h.online
        h.uid
    ∙ ap (λ b. entered_if (not b) l.user_online_ip tag ip (info_at l r).uid t i) verdict

-- The addresses online behind a check of the user with the reference `o`, if there is one.
abbrev pub online_behind : Bytes → Bytes → Bool → Limiter → Option ℕ → Bytes → Bytes → Option ℤ
online_behind tag ip counted l none t i = online l t i
online_behind tag ip counted l (some r) t i =
    entered_if (counted && not (refused_user counted l tag ip (some r))) l.user_online_ip tag ip
      (info_at l r).uid t i

known_online :
    (now : ℤ) (tag ip : Bytes) (counted : Bool) (l : Limiter) (o : Option ℕ) (t i : Bytes)
    → online (check_known now tag ip counted l o).1 t i ≡ online_behind tag ip counted l o t i
unfolding check_known
known_online now tag ip counted l none t i = refl
known_online now tag ip counted l (some r) t i = user_online now tag ip counted l r t i

-- Behind `CheckLimit` the same addresses are online for every tag as before, but that a connection
-- which is counted and not rejected has its own address online for its tag: with the account's id,
-- where it was not online already. A rejected connection changes nothing of it.
pub online-check_limit :
    (now : ℤ) (taguuid ip : Bytes) (counted : Bool) (l : Limiter) (t i : Bytes)
    → online (check_limit now taguuid ip counted l).1 t i
      ≡ online_behind taguuid (plain_ip ip) counted l (get bytes_key taguuid l.user_limit_info) t i
unfolding check_limit
online-check_limit now taguuid ip counted l t i =
    known_online now taguuid (plain_ip ip) counted l _ t i
