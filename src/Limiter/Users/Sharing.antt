-- ===== src/Limiter/Users/Sharing.antt =====
-- The invariant that the credentials of one account share one record, and the writes that keep it.
use v2b_x.Base.{
  int_key, put_cases, put_here, put_there, ℕ, ◌<◌, ◌≡◌, ◌∙◌, inl, inr, sym, ap, true, Option, none,
  some, [], ◌∷◌, ◌==◌, Bytes, bytes_eq, bytes_eq_iff, Assoc, get, put, get-put, arith, Bool-cases,
}
use v2b_x.Base.Int.{ℤ, eqb_ℤ, eqb_ℤ_iff}
use v2b_x.Transfer.Types.{bytes_key}
use v2b_x.Limiter.Types.{UserLimitInfo, UserInfo, Limiter, ref_key, info_at, or_info, user_tag}
use v2b_x.Limiter.Users.{owned, enter}

pub tag_eq : (tag a b : Bytes) → bytes_eq (user_tag tag a) (user_tag tag b) ≡ bytes_eq a b
unfolding user_tag bytes_eq
tag_eq [] a b = ground arith
tag_eq (c ∷ tag) a b = let h = tag_eq tag a b in ground arith

-- A credential that the limiter knows has an account, and uses the account's record.
pub record Shared (tag : Bytes) (l : Limiter) : Type 0 where
  pub owner :
      (uid : ℤ) (r : ℕ)
      → get int_key uid l.owner_info ≡ some r
      → (r < l.fresh) × ((info_at l r).uid ≡ uid)
  pub holder :
      (uuid : Bytes) (r : ℕ)
      → get bytes_key (user_tag tag uuid) l.user_limit_info ≡ some r
      → (uid : ℤ) × (get bytes_key uuid l.uuid_to_uid ≡ some uid)
        × (get int_key uid l.owner_info ≡ some r)

written :
    (r q : ℕ) (info : UserLimitInfo) (m : Assoc ℕ UserLimitInfo) (uid : ℤ)
    → (r ≡ q → info.uid ≡ uid)
    → (or_info (get ref_key q m)).uid ≡ uid
    → (or_info (get ref_key q (put ref_key r info m))).uid ≡ uid
written r q info m uid h k = elim (Bool-cases (r == q)) [
  | inl b ↦ rw (get-put ref_key r q info m, b) (h ((ref_key.eqb_iff r q).0 b))
  | inr b ↦ rw (put_there ref_key r q info m b) k
]

pub enter-Shared :
    (tag : Bytes) (l : Limiter) (user : UserInfo) (r : ℕ) (info : UserLimitInfo)
    → Shared tag l
    → get int_key user.id l.owner_info ≡ some r
    → info.uid ≡ user.id
    → Shared tag (enter tag l user r info)
unfolding enter
enter-Shared tag l user r info h own named = record {
  owner = λ uid q g. (
    (h.owner uid q g).0,
    written r q info l.infos uid
        (λ same.
          named
          ∙ sym (h.owner user.id r own).1
          ∙ ap (λ x. (info_at l x).uid) same
          ∙ (h.owner uid q g).1)
        (h.owner uid q g).1,
  );
  holder = λ uuid q g.
      elim (put_cases bytes_key (user_tag tag user.uuid) (user_tag tag uuid) r q l.user_limit_info
        g) [
          | inl (same, is) ↦
              let tags : bytes_eq (user_tag tag user.uuid) (user_tag tag uuid) ≡ true =
                (bytes_eq_iff (user_tag tag user.uuid) (user_tag tag uuid)).1 same in
              let same_uuid : user.uuid ≡ uuid =
                (bytes_eq_iff user.uuid uuid).0 (sym (tag_eq tag user.uuid uuid) ∙ tags) in
              (
                user.id,
                ap (λ x. get bytes_key x (put bytes_key user.uuid user.id l.uuid_to_uid))
                      (sym same_uuid)
                    ∙ put_here bytes_key user.uuid user.id l.uuid_to_uid,
                own ∙ ap some is,
              )
          | inr (other, g') ↦
              let (uid, a, b) = h.holder uuid q g' in
              (
                uid,
                put_there bytes_key user.uuid uuid user.id l.uuid_to_uid
                      (sym (tag_eq tag user.uuid uuid) ∙ other)
                    ∙ a,
                b,
              )
        ];
}

-- Behind `owned` the account has the record whose reference it gives.
pub record Owned (tag : Bytes) (uid : ℤ) (p : ℕ × Limiter) : Type 0 where
  pub shared : Shared tag p.1
  pub own : get int_key uid p.1.owner_info ≡ some p.0

pub owned-Shared :
    (tag : Bytes) (l : Limiter) (id : ℤ) (made : UserLimitInfo) (o : Option ℕ)
    → Shared tag l
    → made.uid ≡ id
    → get int_key id l.owner_info ≡ o
    → Owned tag id (owned l id made o)
unfolding owned
owned-Shared tag l id made (some r) h named e = record { shared = h; own = e }
owned-Shared tag l id made none h named e = record {
  own = put_here int_key id l.fresh l.owner_info;
  shared = record {
    owner = λ uid q g. elim (put_cases int_key id uid l.fresh q l.owner_info g) [
      | inl (same, is) ↦ (
        omega (arith, is),
        ap (λ x. (or_info (get ref_key x (put ref_key l.fresh made l.infos))).uid) (sym is)
            ∙ ap (λ x. (or_info x).uid) (put_here ref_key l.fresh made l.infos)
            ∙ named
            ∙ same,
      )
      | inr (other, g') ↦
          let (below, kept) = h.owner uid q g' in
          (omega arith, written l.fresh q made l.infos uid (λ is. ground arith) kept)
    ];
    holder = λ uuid q g.
        let (uid, a, b) = h.holder uuid q g in
        (
          uid,
          a,
          elim (Bool-cases (eqb_ℤ id uid)) [
            | inl f ↦
                let same : id ≡ uid = (eqb_ℤ_iff id uid).0 f in
                let gone : get int_key uid l.owner_info ≡ none =
                  ap (λ x. get int_key x l.owner_info) (sym same) ∙ e in
                cc
            | inr f ↦ put_there int_key id uid l.fresh l.owner_info f ∙ b
          ],
        );
  };
}
