-- ===== src/Guard/Controller/Verified.antt =====
-- What a command that `verifyEnvelope` lets pass is like.
use v2b_x.Base.{ℕ, ◌≤◌, ◌≡◌, true, false, Option, none, some, Bytes, arith}
use v2b_x.Base.Int.{ℤ, pos, negsuc, pos_part, ltb_ℤ, leb_ℤ, eqb_ℤ, sub64, max_int64}
use v2b_x.Text.{hex_decode}
use v2b_x.Guard.Types.{Lease}
use v2b_x.Guard.Leases.{lease_error}
use v2b_x.Guard.Controller.Types.{Command, Envelope, Codec, block}
use v2b_x.Guard.Controller.Envelope.{
  operation_of, well_formed, in_time, is_valid, admissible, admitted, decode_signed,
  verify_envelope,
}
use v2b_x.Guard.Controller.Bounds.{left_over}

-- A decoded command has int64 fields.
abbrev pub Decodes : Codec → Type 0
Decodes x =
    (p : Bytes) (c : Command)
    → x.decode_strict p ≡ some c
    → (pos_part c.not_after ≤ max_int64) × (pos_part c.lease.expires_at ≤ max_int64)

decode_signed-decodes :
    (x : Codec) (key : Bytes) (p s : Option Bytes) (c : Command)
    → decode_signed x key p s ≡ some c
    → (q : Bytes) × (x.decode_strict q ≡ some c)
unfolding decode_signed
decode_signed-decodes x key none s c h = absurd (cc)
decode_signed-decodes x key (some p) none c h = absurd (cc)
decode_signed-decodes x key (some p) (some s) c h = (p, ground arith)

admitted-admissible :
    (node : Bytes) (o : Option Command) (c : Command)
    → admitted node o ≡ some c
    → (o ≡ some c) × (admissible node c (operation_of c.operation) ≡ true)
unfolding admitted
admitted-admissible node none c h = absurd (cc)
admitted-admissible node (some d) c h = ground arith

pub verified :
    (x : Codec) (node key : Bytes) (e : Envelope) (c : Command)
    → verify_envelope x node key e ≡ some c
    → ((q : Bytes) × (x.decode_strict q ≡ some c))
      × (admissible node c (operation_of c.operation) ≡ true)
unfolding verify_envelope
verified x node key e c h =
    let o = decode_signed x key (x.base64 e.payload) (hex_decode e.signature) in
    let a : admitted node o ≡ some c = ground arith in
    let (b, d) = admitted-admissible node o c a in
    (decode_signed-decodes x key (x.base64 e.payload) (hex_decode e.signature) c b, d)

valid_lease :
    (l : Lease) (now : ℤ)
    → is_valid (lease_error l now) ≡ true
    → l.manual ≡ false
    → (leb_ℤ l.started_at (pos 0) ≡ false)
      × (leb_ℤ l.expires_at now ≡ false)
      × (eqb_ℤ (sub64 l.expires_at l.started_at) (pos 600) ≡ true)
unfolding lease_error
valid_lease l now h m = ground arith

-- The fields of an admitted command for a temporary block.
block_parts :
    (node : Bytes) (c : Command)
    → admissible node c (some block) ≡ true
    → (ltb_ℤ (pos 0) c.issued_at ≡ true)
      × (ltb_ℤ c.issued_at c.not_after ≡ true)
      × (leb_ℤ (sub64 c.not_after c.issued_at) (pos 60) ≡ true)
      × (is_valid (lease_error c.lease c.lease.started_at) ≡ true)
      × (leb_ℤ c.lease.started_at c.issued_at ≡ true)
      × (leb_ℤ (sub64 c.issued_at c.lease.started_at) (pos 60) ≡ true)
unfolding admissible well_formed in_time
block_parts node c h =
    (ground arith, ground arith, ground arith, ground arith, ground arith, ground arith)

left_over_ℤ :
    (s i n e a : ℤ)
    → pos_part n ≤ max_int64
    → pos_part e ≤ max_int64
    → leb_ℤ s (pos 0) ≡ false
    → leb_ℤ s i ≡ true
    → ltb_ℤ i n ≡ true
    → leb_ℤ e s ≡ false
    → leb_ℤ (sub64 i s) (pos 60) ≡ true
    → leb_ℤ (sub64 n i) (pos 60) ≡ true
    → eqb_ℤ (sub64 e s) (pos 600) ≡ true
    → ltb_ℤ a (sub64 i (pos 5)) ≡ false
    → leb_ℤ n a ≡ false
    → (d : ℕ) × (sub64 e a ≡ pos d) × (d ≤ 1000)
left_over_ℤ (pos s) (pos i) (pos n) (pos e) a hn he h1 h2 h3 h4 q1 q2 q3 q4 q5 =
    left_over s i n e a hn he (ground arith) (ground arith) (ground arith) q1 q2 q3 q4 q5
left_over_ℤ (negsuc s) i n e a hn he h1 h2 h3 h4 q1 q2 q3 q4 q5 = absurd (ground arith)
left_over_ℤ (pos s) (negsuc i) n e a hn he h1 h2 h3 h4 q1 q2 q3 q4 q5 = absurd (ground arith)
left_over_ℤ (pos s) (pos i) (negsuc n) e a hn he h1 h2 h3 h4 q1 q2 q3 q4 q5 = absurd (ground arith)
left_over_ℤ (pos s) (pos i) (pos n) (negsuc e) a hn he h1 h2 h3 h4 q1 q2 q3 q4 q5 =
    absurd (ground arith)

-- A temporary lease has at most 1000 seconds left when its block is accepted.
pub time_left :
    (x : Codec) (node key : Bytes) (e : Envelope) (c : Command) (a : ℤ)
    → Decodes x
    → verify_envelope x node key e ≡ some c
    → operation_of c.operation ≡ some block
    → c.lease.manual ≡ false
    → ltb_ℤ a (sub64 c.issued_at (pos 5)) ≡ false
    → leb_ℤ c.not_after a ≡ false
    → (d : ℕ) × (sub64 c.lease.expires_at a ≡ pos d) × (d ≤ 1000)
time_left x node key e c a dec h op m q4 q5 =
    let (q, adm) = verified x node key e c h in
    let (n, u) = dec q.0 c q.1 in
    let adm_block : admissible node c (some block) ≡ true = rw op at adm in
    let (b0, b1, b2, b3, b4, b5) = block_parts node c adm_block in
    let (l0, l1, l2) = valid_lease c.lease c.lease.started_at b3 m in
    left_over_ℤ c.lease.started_at c.issued_at c.not_after c.lease.expires_at a n u l0 b4 b1 l1 b5
      b2 l2 q4 q5
