-- ===== src/Panel/Modes.antt =====
-- The two accounting modes exclude each other.
use v2b_x.Base.{
  ◌≡◌, refl, ap, true, false, some, none, ◌⊎◌, inl, inr, bytes_eq_sound, Bool-cases, ◌&&◌, ◌||◌,
  not, Option, List, [], ◌∷◌, Bytes, bytes_eq, ◌==◌, length, arith,
}
use v2b_x.Base.Int.{ℤ, pos, leb_ℤ}
use v2b_x.Text.{codes}
use v2b_x.Panel.{
  Url, Client, is_origin, has_no_path, set_traffic_epoch, enable_legacy_accounting,
  forget_user_list,
}

pub data Setup : Type 0 where
  sets_epoch : Bytes → Setup
  enables_legacy forgets : Setup

module _ (parse : Bytes → Option Url) where
  unfoldable pub set_up : Setup → Client → Client
  set_up (sets_epoch epoch) c = (set_traffic_epoch parse epoch c).1
  set_up enables_legacy c = (enable_legacy_accounting parse c).1
  set_up forgets c = forget_user_list c

  unfoldable pub sets_up : List Setup → Client → Client
  unfolding set_up
  sets_up [] c = c
  sets_up (x ∷ rest) c = sets_up rest (set_up x c)

  -- The panel's address and the node of a mode: https with a host, and neither a user nor a query
  -- nor a fragment, for a node of vless.
  pub record IsSecure (host node_type : Bytes) : Type 0 where
    pub url : Url
    pub parsed : parse host ≡ some url
    pub scheme : url.scheme ≡ codes "https"
    pub named : length url.host ≡ 0 → ⊥
    pub user : url.has_user ≡ false
    pub query : length url.raw_query ≡ 0
    pub fragment : length url.fragment ≡ 0
    pub vless : node_type ≡ codes "vless"

  -- The address has no path, and the node's id is positive.
  pub record IsRooted (host : Bytes) (id : ℤ) : Type 0 where
    pub url : Url
    pub parsed : parse host ≡ some url
    pub path : (url.path ≡ []) ⊎ (url.path ≡ codes "/")
    pub positive : leb_ℤ id (pos 0) ≡ false

  -- One mode at most, which follows no redirects, for a panel and a node of the right kind.
  pub record HasOneMode (c : Client) : Type 0 where
    pub one : (c.legacy_accounting && not (length c.traffic_epoch == 0)) ≡ false
    pub direct :
        ((c.legacy_accounting || not (length c.traffic_epoch == 0)) && c.follows_redirects) ≡ false
    pub secure :
        (c.legacy_accounting || not (length c.traffic_epoch == 0)) ≡ true
        → IsSecure c.api_host c.node_type
    pub rooted : c.legacy_accounting ≡ true → IsRooted c.api_host c.node_id

  origin-IsSecure :
      (o : Option Url) (host node_type : Bytes)
      → parse host ≡ o
      → is_origin o ≡ true
      → bytes_eq node_type (codes "vless") ≡ true
      → IsSecure host node_type
  origin-IsSecure none host node_type e h v = absurd (cc)
  origin-IsSecure (some u) host node_type e h v = record {
    url = u;
    parsed = e;
    scheme = bytes_eq_sound u.scheme (codes "https") (ground arith);
    named = λ empty. ground arith;
    user = ground arith;
    query = ground arith;
    fragment = ground arith;
    vless = bytes_eq_sound node_type (codes "vless") v;
  }

  blank_path : (s : Bytes) → length s ≡ 0 → s ≡ []
  blank_path [] e = refl
  blank_path (a ∷ rest) e = absurd (omega arith)

  path-IsRooted :
      (o : Option Url) (host : Bytes) (id : ℤ)
      → parse host ≡ o
      → has_no_path o ≡ true
      → leb_ℤ id (pos 0) ≡ false
      → IsRooted host id
  path-IsRooted none host id e h v = absurd (cc)
  path-IsRooted (some u) host id e h v = record {
    url = u;
    parsed = e;
    path = elim (Bool-cases (length u.path == 0)) [
      | inl e ↦ inl (blank_path u.path (ground arith))
      | inr e ↦ inr (bytes_eq_sound u.path (codes "/") (ground arith))
    ];
    positive = v;
  }

  secures :
      (c d : Client)
      → d.api_host ≡ c.api_host
      → d.node_type ≡ c.node_type
      → ((is_origin (parse c.api_host) && bytes_eq c.node_type (codes "vless")) ≡ false
          → IsSecure c.api_host c.node_type)
      → IsSecure d.api_host d.node_type
  secures c d host node old = rw host (
      rw node
        elim (Bool-cases (is_origin (parse c.api_host) && bytes_eq c.node_type (codes "vless"))) [
          | inl e ↦
              origin-IsSecure (parse c.api_host) c.api_host c.node_type refl (ground arith)
                (ground arith)
          | inr e ↦ old e
        ])

  roots :
      (c d : Client)
      → d.api_host ≡ c.api_host
      → d.node_id ≡ c.node_id
      → ((has_no_path (parse c.api_host) && not (leb_ℤ c.node_id (pos 0))) ≡ false
          → IsRooted c.api_host c.node_id)
      → IsRooted d.api_host d.node_id
  roots c d host id old = rw host (
      rw id elim (Bool-cases (has_no_path (parse c.api_host) && not (leb_ℤ c.node_id (pos 0)))) [
        | inl e ↦
            path-IsRooted (parse c.api_host) c.api_host c.node_id refl (ground arith) (ground arith)
        | inr e ↦ old e
      ])

  set_up-HasOneMode : (x : Setup) (c : Client) → HasOneMode c → HasOneMode (set_up x c)
  unfolding set_up set_traffic_epoch enable_legacy_accounting forget_user_list
  set_up-HasOneMode (sets_epoch epoch) c v =
      let d = set_up (sets_epoch epoch) c in
      record {
        one = ground arith;
        direct = ground arith;
        secure = λ on. secures c d (ground arith) (ground arith) (λ none_. v.secure (ground arith));
        rooted = λ on. roots c d (ground arith) (ground arith) (λ none_. v.rooted (ground arith));
      }
  set_up-HasOneMode enables_legacy c v =
      let d = set_up enables_legacy c in
      record {
        one = ground arith;
        direct = ground arith;
        secure = λ on. secures c d (ground arith) (ground arith) (λ none_. v.secure (ground arith));
        rooted = λ on. roots c d (ground arith) (ground arith) (λ none_. v.rooted (ground arith));
      }
  set_up-HasOneMode forgets c v = record {
    one = v.one;
    direct = v.direct;
    secure = v.secure;
    rooted = v.rooted;
  }

  keeps : (run : List Setup) (c : Client) → HasOneMode c → HasOneMode (sets_up run c)
  unfolding sets_up
  keeps [] c v = v
  keeps (x ∷ rest) c v = keeps rest (set_up x c) (set_up-HasOneMode x c v)

  -- In every run of these operations from a client without a mode, at most one of the two modes
  -- is on. With a mode on, redirects are refused, the panel's address parses as one of https with a
  -- host and without user, query and fragment, and the node is one of vless; with legacy accounting
  -- on, the address has no path but "/", and the node's id is positive.
  pub sets_up-HasOneMode :
      (run : List Setup) (c : Client)
      → c.legacy_accounting ≡ false
      → c.traffic_epoch ≡ []
      → HasOneMode (sets_up run c)
  sets_up-HasOneMode run c off blank =
      let none_set : length c.traffic_epoch ≡ 0 = ap length blank in
      keeps run c (record {
        one = ground arith;
        direct = ground arith;
        secure = λ on. absurd (ground arith);
        rooted = λ on. absurd (ground arith);
      })
