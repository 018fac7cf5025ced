-- ===== src/Guard/Bindings.antt =====
-- Bindings and tags: `Bind`, `Unbind`, `RequireTags`, `trackingReadyLocked`, `unbindTag` and
-- `Identity` (guard.go), and the digest of a credential (beupidentity/credential.go).
use v2b_x.Base.{
  Bool, true, false, ◌||◌, not, Option, none, some, List, [], ◌∷◌, ◌++◌, Bytes, bytes_eq, ◌==◌, ltb,
  if◌then◌else◌, length, any, Assoc, get, put, del,
}
use v2b_x.Base.Int.{ℤ, pos, leb_ℤ}
use v2b_x.Text.{codes, newline}
use v2b_x.Transfer.Types.{Identity}
use v2b_x.Guard.Types.{invalid_scope, Outcome, done, refused, Binding, binding_key, Guard}

-- The digest by a SHA-256 in hexadecimal, empty for an empty or overlong credential.
unfoldable pub credential_digest : (Bytes → Bytes) → Bytes → Bytes
credential_digest sha256_hex credential =
    if length credential == 0 || ltb 1024 (length credential)
    then []
    else sha256_hex (codes "BEUP-ACCOUNT-CREDENTIAL-V1" ++ newline ∷ credential)

unfoldable pub bind : (Bytes → Bytes) → Bytes → Bytes → ℤ → Bytes → Guard → Guard
bind sha256_hex tag label uid credential g =
    let digest = credential_digest sha256_hex credential in
    if leb_ℤ uid (pos 0) || length tag == 0 || length label == 0 || length digest == 0
    then g
    else record g {
      bindings =
          put binding_key (record { tag = tag; label = label })
            (record { uid = uid; credential = digest }) g.bindings;
    }

unfoldable pub unbind : Bytes → Bytes → Guard → Guard
unbind tag label g = record g {
  bindings = del binding_key (record { tag = tag; label = label }) g.bindings;
  authorizations = del binding_key (record { tag = tag; label = label }) g.authorizations;
}

abbrev pub has_tag : Bytes → List Bytes → Bool
has_tag tag tags = any (λ t. bytes_eq t tag) tags

-- The loop of `RequireTags`: the set of the tags, or `none`.
unfoldable pub wanted : List Bytes → List Bytes → Option (List Bytes)
wanted want [] = some want
wanted want (tag ∷ rest) =
    let more = wanted (want ++ tag ∷ []) rest in
    if length tag == 0 || ltb 512 (length tag) || has_tag tag want then none else more

unfoldable pub require_wanted : Option (List Bytes) → Guard → Outcome (Unit {0}) × Guard
require_wanted none g = (refused invalid_scope, g)
require_wanted (some want) g = (done tt, record g { required_tags = want })

unfoldable pub require_tags : List Bytes → Guard → Outcome (Unit {0}) × Guard
unfolding require_wanted
require_tags tags g =
    if not (length g.bindings == 0) || length tags == 0 || ltb 32 (length tags)
    then (refused invalid_scope, g)
    else require_wanted (wanted [] tags) g

-- The loop of `trackingReadyLocked`: the tags seen, or `none` for a tag that is not required.
unfoldable pub seen_tags : List Bytes → Assoc Binding Identity → List Bytes → Option (List Bytes)
seen_tags required [] seen = some seen
seen_tags required ((b, _) ∷ rest) seen =
    let more = seen_tags required rest (if has_tag b.tag seen then seen else seen ++ b.tag ∷ []) in
    if has_tag b.tag required then more else none

unfoldable pub tracking_ready : Guard → Bool
unfolding seen_tags
tracking_ready g =
    if not (g.capacity_failures == 0) || not (g.coverage_failures == 0)
    then false
    else if length g.required_tags == 0
    then true
    else elim (seen_tags g.required_tags g.bindings []) [
      | none ↦ false
      | some seen ↦ length seen == length g.required_tags
    ]

unfoldable pub drop_tag : Bytes → Assoc Binding Identity → Assoc Binding Identity
drop_tag tag [] = []
drop_tag tag ((b, i) ∷ rest) =
    let more = drop_tag tag rest in if bytes_eq b.tag tag then more else (b, i) ∷ more

unfoldable pub unbind_tag : Bytes → Guard → Guard
unfolding drop_tag
unbind_tag tag g = record g { bindings = drop_tag tag g.bindings }

unfoldable pub identity_of : Bytes → Bytes → Guard → Option Identity
identity_of tag label g = get binding_key (record { tag = tag; label = label }) g.bindings
