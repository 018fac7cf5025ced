-- ===== src/Limiter/Users/Updates.antt =====
-- `AddLimiter` and `UpdateUser`: what they do with the shared records of the accounts.
use v2b_x.Base.{
  int_key, put_here, del_cases, del_there, put-put, ℕ, suc, ◌≡◌, ◌∙◌, inl, inr, refl, sym, ap, Bool,
  true, false, Option, none, some, List, [], ◌∷◌, Bytes, bytes_eq, if◌then◌else◌, any, Assoc, get,
  put, del, arith, Bool-cases,
}
use v2b_x.Base.Int.{ℤ, pos, eqb_ℤ, eqb_ℤ_iff}
use v2b_x.Transfer.Types.{bytes_key}
use v2b_x.Limiter.Types.{
  UserLimitInfo, zero_info, UserInfo, Limiter, ref_key, account_bucket_key, user_tag,
}
use v2b_x.Limiter.Users.{
  unless_zero, owned, enter, first_seen, add_users, new_limiter, add_limiter, drop_credentials,
  remains, drop_accounts, renewed, renew_users, update_user,
}
use v2b_x.Limiter.Users.Sharing.{tag_eq, Shared, Owned, enter-Shared, owned-Shared}

abbrev named_info : ℤ → UserLimitInfo
named_info uid = record zero_info { uid = uid }

-- The empty record of `AddLimiter` gets its uid in the same round.
first_seen_named :
    (tag : Bytes) (l : Limiter) (user : UserInfo) (o : Option ℕ)
    → first_seen tag l user (owned l user.id zero_info o)
      ≡ first_seen tag l user (owned l user.id (named_info user.id) o)
unfolding first_seen owned enter
first_seen_named tag l user (some r) = refl
first_seen_named tag l user none =
    let made : UserLimitInfo = record zero_info {
      uid = user.id;
      speed_limit = unless_zero user.speed_limit (pos 0);
      device_limit = unless_zero user.device_limit (pos 0);
    } in
    rw
      (
        put_here ref_key l.fresh zero_info l.infos,
        put_here ref_key l.fresh (named_info user.id) l.infos,
      )
      (ap
        (λ m. record l {
          owner_info = put int_key user.id l.fresh l.owner_info;
          infos = m;
          fresh = suc l.fresh;
          user_limit_info = put bytes_key (user_tag tag user.uuid) l.fresh l.user_limit_info;
          uuid_to_uid = put bytes_key user.uuid user.id l.uuid_to_uid;
        })
        (put-put ref_key l.fresh made zero_info l.infos
          ∙ sym (put-put ref_key l.fresh made (named_info user.id) l.infos)))

entered-Shared :
    (tag : Bytes) (l : Limiter) (user : UserInfo) (p : ℕ × Limiter)
    → Owned tag user.id p
    → Shared tag (first_seen tag l user p)
unfolding first_seen
entered-Shared tag l user (r, m) h = enter-Shared tag m user r _ h.shared h.own refl

add_users-Shared :
    (tag : Bytes) (users : List UserInfo) (l : Limiter)
    → Shared tag l
    → Shared tag (add_users tag l users)
unfolding add_users
add_users-Shared tag [] l h = h
add_users-Shared tag (user ∷ rest) l h =
    let o = get int_key user.id l.owner_info in
    add_users-Shared tag rest _ (
      rw (first_seen_named tag l user o) (
        entered-Shared tag l user _
          (owned-Shared tag l user.id (named_info user.id) o h refl refl)))

new_limiter-Shared :
    (tag : Bytes) (speed_limit : ℤ) (alive : Assoc ℤ ℤ) → Shared tag (new_limiter speed_limit alive)
unfolding get
new_limiter-Shared tag speed_limit alive = record { owner = λ uid r g. cc; holder = λ uuid r g. cc }

renewed-Shared :
    (tag : Bytes) (user : UserInfo) (p : ℕ × Limiter)
    → Owned tag user.id p
    → Shared tag (renewed tag user p)
unfolding renewed
renewed-Shared tag user (r, m) h =
    let t = enter-Shared tag m user r _ h.shared h.own (h.shared.owner user.id r h.own).1 in
    record { owner = t.owner; holder = t.holder }

renew_users-Shared :
    (tag : Bytes) (users : List UserInfo) (l : Limiter)
    → Shared tag l
    → Shared tag (renew_users tag l users)
unfolding renew_users
renew_users-Shared tag [] l h = h
renew_users-Shared tag (user ∷ rest) l h =
    renew_users-Shared tag rest _
      (renewed-Shared tag user _ (owned-Shared tag l user.id (named_info user.id) _ h refl refl))

drop_credentials-Shared :
    (tag : Bytes) (users : List UserInfo) (l : Limiter)
    → Shared tag l
    → Shared tag (drop_credentials tag l users)
unfolding drop_credentials
drop_credentials-Shared tag [] l h = h
drop_credentials-Shared tag (user ∷ rest) l h = drop_credentials-Shared tag rest _ (record {
  owner = h.owner;
  holder = λ uuid q g.
      let (other, g') =
        del_cases bytes_key (user_tag tag user.uuid) (user_tag tag uuid) q l.user_limit_info g in
      let (uid, a, b) = h.holder uuid q g' in
      (
        uid,
        del_there bytes_key user.uuid uuid l.uuid_to_uid (sym (tag_eq tag user.uuid uuid) ∙ other)
            ∙ a,
        b,
      );
})

-- An account that a credential has is not dropped.
held :
    (uuid : Bytes) (uid : ℤ) (m : Assoc Bytes ℤ)
    → get bytes_key uuid m ≡ some uid
    → any (λ p. eqb_ℤ p.1 uid) m ≡ true
unfolding get
held uuid uid [] h = cc
held uuid uid ((j, v) ∷ m) h = elim (Bool-cases (bytes_eq j uuid)) [
  | inl b ↦
      let g : some v ≡ some uid = rw b at h in
      let same : v ≡ uid = cc in rw ((eqb_ℤ_iff v uid).1 same) refl
  | inr b ↦
      let g : get bytes_key uuid m ≡ some uid = rw b at h in
      let k = held uuid uid m g in ground arith
]

-- Dropping an account that no credential has.
dropped-Shared :
    (tag : Bytes) (l : Limiter) (id : ℤ) (added : List UserInfo)
    → remains l added id ≡ false
    → Shared tag l
    → Shared tag (record l {
      speed_limiter = del bytes_key (account_bucket_key id) l.speed_limiter;
      alive_list = del int_key id l.alive_list;
      owner_info = del int_key id l.owner_info;
    })
unfolding remains
dropped-Shared tag l id added gone h = record {
  owner = λ uid q g. h.owner uid q (del_cases int_key id uid q l.owner_info g).1;
  holder = λ uuid q g.
      let (uid, a, b) = h.holder uuid q g in
      let other : eqb_ℤ id uid ≡ false = elim (Bool-cases (eqb_ℤ id uid)) [
        | inr f ↦ f
        | inl f ↦
            let k : get bytes_key uuid l.uuid_to_uid ≡ some id =
              a ∙ ap some (sym ((eqb_ℤ_iff id uid).0 f)) in
            let kept = held uuid id l.uuid_to_uid k in ground arith
      ] in
      (uid, a, del_there int_key id uid l.owner_info other ∙ b);
}

drop_accounts-Shared :
    (tag : Bytes) (added users : List UserInfo) (l : Limiter)
    → Shared tag l
    → Shared tag (drop_accounts added l users)
unfolding drop_accounts
drop_accounts-Shared tag added [] l h = h
drop_accounts-Shared tag added (user ∷ rest) l h =
    drop_accounts-Shared tag added rest _
      (Shared-if tag _ l _ h (λ gone. dropped-Shared tag l user.id added gone h))
  where
    Shared-if :
        (tag : Bytes) (b : Bool) (m n : Limiter)
        → Shared tag m
        → (b ≡ false → Shared tag n)
        → Shared tag (if b then m else n)
    Shared-if tag true m n h k = h
    Shared-if tag false m n h k = k refl

-- In the limiter that `AddLimiter` makes, every credential it knows has an account, and uses the
-- record of that account.
pub add_limiter-Shared :
    (tag : Bytes) (speed_limit : ℤ) (users : List UserInfo) (alive : Assoc ℤ ℤ)
    → Shared tag (add_limiter tag speed_limit users alive)
unfolding add_limiter
add_limiter-Shared tag speed_limit users alive =
    add_users-Shared tag users _ (new_limiter-Shared tag speed_limit alive)

-- Where every credential that the limiter knows uses the record of its account, this is so behind
-- `UpdateUser` too, whichever credentials are deleted and added: an account is dropped only when no
-- credential of it is left.
pub update_user-Shared :
    (tag : Bytes) (added deleted : List UserInfo) (l : Limiter)
    → Shared tag l
    → Shared tag (update_user tag added deleted l)
unfolding update_user
update_user-Shared tag added deleted l h =
    renew_users-Shared tag added _
      (drop_accounts-Shared tag added deleted _ (drop_credentials-Shared tag deleted l h))
