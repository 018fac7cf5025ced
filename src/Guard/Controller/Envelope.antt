-- ===== src/Guard/Controller/Envelope.antt =====
-- `verifyEnvelope` and `envelopeDigest` (controller.go).
use v2b_x.Base.{
  Bool, true, false, ◌&&◌, ◌||◌, not, Option, none, some, ◌∷◌, ◌++◌, Bytes, bytes_eq, ◌==◌, ltb,
  if◌then◌else◌, length, [],
}
use v2b_x.Base.Int.{pos, ltb_ℤ, leb_ℤ, eqb_ℤ, sub64}
use v2b_x.Text.{codes, newline, hex_decode}
use v2b_x.Guard.Types.{GuardError}
use v2b_x.Guard.Leases.{lease_error}
use v2b_x.Guard.Controller.Types.{Command, Envelope, Codec, Operation, block, release, cancel}

abbrev pub command_domain : Bytes
command_domain = codes "BEUP-ACCOUNT-ISOLATION-COMMAND-V1" ++ newline ∷ []

unfoldable pub operation_of : Bytes → Option Operation
operation_of op =
    if bytes_eq op (codes "block")
    then some block
    else if bytes_eq op (codes "release")
    then some release
    else if bytes_eq op (codes "cancel")
    then some cancel
    else none

-- The checks of a decoded command, but for its operation and lease.
unfoldable pub well_formed : Bytes → Command → Bool
well_formed node c =
    eqb_ℤ c.version (pos 1)
    && bytes_eq c.node node
    && ltb 0 c.sequence
    && ltb_ℤ (pos 0) c.issued_at
    && ltb_ℤ c.issued_at c.not_after
    && leb_ℤ (sub64 c.not_after c.issued_at) (pos 60)

-- A block is issued at most a minute behind the start of its lease.
unfoldable pub in_time : Operation → Command → Bool
in_time block c =
    leb_ℤ c.lease.started_at c.issued_at && leb_ℤ (sub64 c.issued_at c.lease.started_at) (pos 60)
in_time release c = true
in_time cancel c = true

abbrev pub is_valid : Option GuardError → Bool
is_valid none = true
is_valid (some _) = false

unfoldable pub admissible : Bytes → Command → Option Operation → Bool
unfolding well_formed in_time
admissible node c none = false
admissible node c (some op) =
    well_formed node c && is_valid (lease_error c.lease c.lease.started_at) && in_time op c

unfoldable pub admitted : Bytes → Option Command → Option Command
unfolding admissible
admitted node none = none
admitted node (some c) = if admissible node c (operation_of c.operation) then some c else none

unfoldable pub decode_signed : Codec → Bytes → Option Bytes → Option Bytes → Option Command
decode_signed x key none sig = none
decode_signed x key (some p) none = none
decode_signed x key (some p) (some sig) =
    if x.signed_by key (command_domain ++ p) sig then x.decode_strict p else none

-- `none` is the one error of the function.
unfoldable pub verify_envelope : Codec → Bytes → Bytes → Envelope → Option Command
unfolding decode_signed admitted
verify_envelope x node key e =
    if ltb 1024 (length e.payload) || not (length e.signature == 128)
    then none
    else admitted node (decode_signed x key (x.base64 e.payload) (hex_decode e.signature))

unfoldable pub envelope_digest : Codec → Envelope → Bytes
envelope_digest x e = x.sha256 (e.payload ++ newline ∷ e.signature)
