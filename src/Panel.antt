-- ===== src/Panel.antt =====
-- The accounting modes of the panel's client (api/panel/traffic_epoch.go, legacy_traffic.go).
-- `url.Parse` is a parameter. The loggers are left out.
pub mod Modes
pub mod Push
use v2b_x.Base.{
  ℕ, ◌≡◌, Bool, true, false, ◌&&◌, ◌||◌, not, Option, none, some, List, [], ◌∷◌, Bytes, bytes_eq,
  ◌==◌, if◌then◌else◌, length, Assoc, put,
}
use v2b_x.Base.Int.{ℤ, pos, leb_ℤ}
use v2b_x.Text.{codes, valid_hex}
use v2b_x.Transfer.Types.{bytes_key}

-- What the code reads of a parsed URL.
pub record Url : Type 0 where
  pub scheme : Bytes
  pub host : Bytes
  pub has_user : Bool
  pub raw_query : Bytes
  pub fragment : Bytes
  pub path : Bytes

-- The fields of `Client` that the two modes use, with the headers and the redirect policy of its
-- HTTP client.
pub record Client : Type 0 where
  pub api_host : Bytes
  pub node_type : Bytes
  pub node_id : ℤ
  pub traffic_epoch : Bytes
  pub legacy_accounting : Bool
  pub user_etag : Bytes
  pub headers : Assoc Bytes Bytes
  pub follows_redirects : Bool

abbrev pub is_origin : Option Url → Bool
is_origin none = false
is_origin (some u) =
    bytes_eq u.scheme (codes "https")
    && not (length u.host == 0)
    && not u.has_user
    && length u.raw_query == 0
    && length u.fragment == 0

-- The path is empty or a slash.
abbrev pub has_no_path : Option Url → Bool
has_no_path none = false
has_no_path (some u) = length u.path == 0 || bytes_eq u.path (codes "/")

module _ (parse : Bytes → Option Url) where
  -- `SetTrafficEpoch`; false is its error.
  unfoldable pub set_traffic_epoch : Bytes → Client → Bool × Client
  set_traffic_epoch epoch c =
      if not (valid_hex epoch 16)
        || not (is_origin (parse c.api_host))
        || not (bytes_eq c.node_type (codes "vless"))
        || not (length c.traffic_epoch == 0)
        || c.legacy_accounting
      then (false, c)
      else (
        true,
        record c {
          follows_redirects = false;
          headers = put bytes_key (codes "X-Beup-Traffic-Epoch") epoch c.headers;
          traffic_epoch = epoch;
          user_etag = [];
        },
      )

  -- `EnableLegacyAccounting`; false is its error.
  unfoldable pub enable_legacy_accounting : Client → Bool × Client
  enable_legacy_accounting c =
      if not (is_origin (parse c.api_host))
        || not (has_no_path (parse c.api_host))
        || not (bytes_eq c.node_type (codes "vless"))
        || leb_ℤ c.node_id (pos 0)
        || not (length c.traffic_epoch == 0)
      then (false, c)
      else (
        true,
        record c {
          legacy_accounting = true;
          follows_redirects = false;
          headers = put bytes_key (codes "X-Beup-Legacy-Accounting") (codes "1") c.headers;
          user_etag = [];
        },
      )

-- `ForgetUserList`
unfoldable pub forget_user_list : Client → Client
forget_user_list c = record c { user_etag = [] }
