-- ===== src/Examples/Reloads.antt =====
-- The theorem on the reload of a configuration, at two nodes of which one is removed.
use v2b_x.Base.{◌≡◌, refl, none, some, [], ◌∷◌, Bytes, bytes_eq}
use v2b_x.Base.Int.{pos}
use v2b_x.Text.{codes}
use v2b_x.Transfer.Types.{bytes_key}
use v2b_x.Reload.{NodeConfig, accepted, scan, scan_all, next_if, validate_transfer_reload}
use v2b_x.Reload.Kept.{IsKept, reload_keeps}

abbrev reliable : NodeConfig Bytes Bytes
reliable = record {
  api_host = codes "https://panel";
  node_type = codes "vless";
  node_id = pos 1;
  transfer_accounting = some (codes "epoch");
  legacy_accounting = none;
}

abbrev plain : NodeConfig Bytes Bytes
plain = record reliable { node_id = pos 2; transfer_accounting = none }

accepts :
    validate_transfer_reload bytes_key bytes_key
      (some (reliable ∷ plain ∷ []))
      (some (reliable ∷ []))
    ≡ accepted tt
unfolding validate_transfer_reload scan_all scan next_if bytes_eq
accepts = refl

reload_keeps_example : IsKept (reliable ∷ []) reliable
reload_keeps_example =
    reload_keeps bytes_key bytes_key [] (plain ∷ []) (reliable ∷ []) reliable accepts refl
