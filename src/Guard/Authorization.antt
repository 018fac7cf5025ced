-- ===== src/Guard/Authorization.antt =====
-- The scoped proofs of authorization (authorization.go). A regular expression for n small
-- hexadecimal digits is a test of each character.
pub mod Agreement
use v2b_x.Base.{
  ℕ, ◌≡◌, Bool, true, false, ◌&&◌, ◌||◌, not, Option, none, some, List, [], ◌∷◌, Bytes, bytes_eq,
  ◌==◌, ltb, leb, if◌then◌else◌, length, all, any, Assoc, get, put, del,
}
use v2b_x.Base.Int.{ℤ, pos, leb_ℤ, eqb_ℤ}
use v2b_x.Text.{is_lower_hex}
use v2b_x.Transfer.Types.{Identity, identity_eq, identity_key}
use v2b_x.Guard.Types.{
  GuardError, invalid_proof_request, Outcome, done, refused, Binding, binding_key, Guard,
}
use v2b_x.Guard.Bindings.{has_tag}

pub record AuthorizationTarget : Type 0 where
  pub grant : Bytes
  pub identity : Identity

pub record AuthorizationRequest : Type 0 where
  pub version : ℤ
  pub id : Bytes
  pub targets : List AuthorizationTarget

pub record AuthorizationProof : Type 0 where
  pub grant : Bytes
  pub identity : Identity
  pub bound : Bool
  pub last_authenticated_at : ℤ

-- `^[a-f0-9]{n}$`
abbrev pub hex_digits : ℕ → Bytes → Bool
hex_digits n s = length s == n && all is_lower_hex s

-- The loop of `validAuthorizationRequest`, over the grants seen.
unfoldable pub valid_targets : List Bytes → List AuthorizationTarget → Bool
valid_targets seen [] = true
valid_targets seen (t ∷ rest) =
    let more = valid_targets (t.grant ∷ seen) rest in
    if not (hex_digits 32 t.grant)
      || leb_ℤ t.identity.uid (pos 0)
      || not (hex_digits 64 t.identity.credential)
      || has_tag t.grant seen
    then false
    else more

unfoldable pub valid_authorization_request : AuthorizationRequest → Bool
unfolding valid_targets
valid_authorization_request q =
    if not (eqb_ℤ q.version (pos 1))
      || not (hex_digits 32 q.id)
      || ltb (length q.targets) 1
      || ltb 16 (length q.targets)
    then false
    else valid_targets [] q.targets

-- A use of the identity is kept, or starts at 0.
unfoldable pub first_use : Identity → Option ℤ → Assoc Identity ℤ → Assoc Identity ℤ
first_use id none use_ = put identity_key id (pos 0) use_
first_use id (some _) use_ = use_

unfoldable pub register_as : Binding → Bytes → Option Identity → Guard → Guard
unfolding first_use
register_as b grant none g = record g { authorizations = del binding_key b g.authorizations }
register_as b grant (some id) g =
    if not (hex_digits 32 grant)
    then record g { authorizations = del binding_key b g.authorizations }
    else record g {
      authorizations = put binding_key b grant g.authorizations;
      authorization_use =
          first_use id (get identity_key id g.authorization_use) g.authorization_use;
    }

unfoldable pub register_authorization : Bytes → Bytes → Bytes → Guard → Guard
unfolding register_as
register_authorization tag label grant g =
    let b : Binding = record { tag = tag; label = label } in
    register_as b grant (get binding_key b g.bindings) g

-- A missing grant is the empty text.
abbrev pub or_empty : Option Bytes → Bytes
or_empty none = []
or_empty (some grant) = grant

abbrev pub grant_of : Guard → Binding → Bytes
grant_of g b = or_empty (get binding_key b g.authorizations)

-- The inner loop of `authorizationProof`: whether there is a conflict, and the tags of the grant.
unfoldable pub scan_target :
    Guard → AuthorizationTarget → Assoc Binding Identity → Bool × List Bytes → Bool × List Bytes
scan_target g t [] (conflict, tags) = (conflict, tags)
scan_target g t ((b, id) ∷ rest) (conflict, tags) = scan_target g t rest (
    if identity_eq id t.identity
    then if bytes_eq (grant_of g b) t.grant then (conflict, b.tag ∷ tags) else (true, tags)
    else (conflict, tags))

abbrev pub or_never : Option ℤ → ℤ
or_never none = pos 0
or_never (some at) = at

-- Whether the tags hold all required ones.
abbrev pub covers : Guard → List Bytes → Bool
covers g tags = not (length g.required_tags == 0) && all (λ tag. has_tag tag tags) g.required_tags

unfoldable pub target_bound : Guard → AuthorizationTarget → Bool
unfolding scan_target
target_bound g t =
    let scan = scan_target g t g.bindings (false, []) in not scan.0 && covers g scan.1

unfoldable pub proof_of : Guard → AuthorizationTarget → AuthorizationProof
unfolding target_bound
proof_of g t = record {
  grant = t.grant;
  identity = t.identity;
  bound = target_bound g t;
  last_authenticated_at =
      if target_bound g t
      then or_never (get identity_key t.identity g.authorization_use)
      else pos 0;
}

unfoldable pub proofs_of : Guard → List AuthorizationTarget → List AuthorizationProof
unfolding proof_of
proofs_of g [] = []
proofs_of g (t ∷ rest) = proof_of g t ∷ proofs_of g rest

unfoldable pub authorization_proof :
    AuthorizationRequest → Guard → Outcome (List AuthorizationProof)
unfolding proofs_of
authorization_proof q g =
    if not (valid_authorization_request q)
    then refused invalid_proof_request
    else done (proofs_of g q.targets)

-- The loop of `independentIdentity`: the grant of the identity and its tags; `none` is an early
-- false.
unfoldable pub scan_independent :
    Guard → Identity → Assoc Binding Identity → Bytes → List Bytes → Option (Bytes × List Bytes)
scan_independent g identity [] grant tags = some (grant, tags)
scan_independent g identity ((b, id) ∷ rest) grant tags =
    let value = grant_of g b in
    let skip = scan_independent g identity rest grant tags in
    let more = scan_independent g identity rest value (b.tag ∷ tags) in
    if identity_eq id identity
    then if length value == 0 || (not (length grant == 0) && not (bytes_eq value grant))
      then none
      else more
    else skip

unfoldable pub independent_of : Guard → Option (Bytes × List Bytes) → Bool
independent_of g none = false
independent_of g (some (grant, tags)) = not (length grant == 0) && covers g tags

unfoldable pub independent_identity : Guard → Identity → Bool
unfolding scan_independent independent_of
independent_identity g identity = independent_of g (scan_independent g identity g.bindings [] [])
