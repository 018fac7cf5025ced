-- ===== src/Panel/Push.antt =====
-- `Client.Commit` (api/panel/legacy_traffic.go): a batch sent as a legacy report. The request and the
-- decoders of the answer's JSON are parameters.
use v2b_x.Base.{
  ℕ, ◌≡◌, refl, inl, inr, Bool, true, false, ◌&&◌, ◌||◌, not, Option, none, some, ◌++◌, Bytes,
  bytes_eq, bytes_eq_iff, ◌==◌, if◌then◌else◌, length, arith, Bool-cases,
}
use v2b_x.Text.{codes, show_int}
use v2b_x.Transfer.Types.{Error, Result, ok, err, Batch, Ack}
use v2b_x.Transfer.Wire.{ack_for}
use v2b_x.Transfer.Legacy.Payload.{Payload, legacy_payload}
use v2b_x.Panel.{Client}

pub data PushError : Type 0 where
  wrong_scope request_failed settling not_accepted answer_mismatch not_committed : PushError
  invalid_payload : Error → PushError

pub data Pushed : Type 0 where
  acknowledged : Ack → Pushed
  failed : PushError → Pushed

pub record Reply : Type 0 where
  pub request_id : Bytes
  pub digest : Bytes
  pub committed : Bool

pub record Response (T : Type 0) : Type 0 where
  pub status : ℕ
  pub body : T

abbrev pub code_is : Bytes → Option Bytes → Bool
code_is code none = false
code_is code (some c) = bytes_eq c code

abbrev pub matches : Payload → Option Reply → Bool
matches p none = false
matches p (some r) = bytes_eq r.request_id p.id && bytes_eq r.digest p.digest

abbrev pub is_committed : Option Reply → Bool
is_committed none = false
is_committed (some r) = r.committed

-- What the answer to the report says; `busy` is the code of a settlement.
unfoldable pub judge_reply : Batch → Payload → ℕ → Bool → Option Reply → Pushed
judge_reply b p status busy reply =
    if status == 409 && busy
    then failed settling
    else if not (status == 200) && not (status == 202)
    then failed not_accepted
    else if not (matches p reply)
    then failed answer_mismatch
    else if status == 202 && not (is_committed reply)
    then failed settling
    else if not (status == 200) || not (is_committed reply)
    then failed not_committed
    else acknowledged (ack_for b)

judge_reply-eq_acknowledged :
    (b : Batch) (p : Payload) (status : ℕ) (busy : Bool) (o : Option Reply) (a : Ack)
    → judge_reply b p status busy o ≡ acknowledged a
    → (status ≡ 200)
      × (r : Reply) × (o ≡ some r)
      × (r.request_id ≡ p.id)
      × (r.digest ≡ p.digest)
      × (r.committed ≡ true)
      × (a ≡ ack_for b)
unfolding judge_reply
judge_reply-eq_acknowledged b p status busy none a h = ground arith
judge_reply-eq_acknowledged b p status busy (some r) a h = (
  ground arith,
  r,
  refl,
  (bytes_eq_iff r.request_id p.id).0 (ground arith),
  (bytes_eq_iff r.digest p.digest).0 (ground arith),
  ground arith,
  ground arith,
)

module _ {W T : Type 0} (sha256_hex : Bytes → Bytes) (push : Payload → W → W × Option (Response T))
    (code_of : T → Option Bytes) (reply_of : T → Option Reply) where
  unfoldable pub judge : Batch → Payload → Option (Response T) → Pushed
  unfolding judge_reply
  judge b p none = failed request_failed
  judge b p (some r) =
      judge_reply b p r.status (code_is (codes "traffic_settling") (code_of r.body))
        (reply_of r.body)

  unfoldable pub send : Batch → Result Payload → W → W × Pushed
  unfolding judge
  send b (err e) w = (w, failed (invalid_payload e))
  send b (ok p) w = let answer = push p w in (answer.0, judge b p answer.1)

  unfoldable pub commit : Client → Batch → W → W × Pushed
  unfolding send
  commit c b w =
      if not c.legacy_accounting
        || not (length c.traffic_epoch == 0)
        || not (bytes_eq b.scope (codes "vless-" ++ show_int c.node_id))
      then (w, failed wrong_scope)
      else send b (legacy_payload sha256_hex b) w

  -- What an acknowledgement says: the batch is a valid report, and the panel answered 200 to this
  -- report, by its id and digest, that it is committed.
  pub record IsBooked (b : Batch) (w : W) (a : Ack) : Type 0 where
    pub payload : Payload
    pub response : Response T
    pub reply : Reply
    pub valid : legacy_payload sha256_hex b ≡ ok payload
    pub answered : (push payload w).1 ≡ some response
    pub status : response.status ≡ 200
    pub read : reply_of response.body ≡ some reply
    pub request : (reply.request_id ≡ payload.id) × (reply.digest ≡ payload.digest)
    pub committed : reply.committed ≡ true
    pub ack : a ≡ ack_for b

  judged :
      (b : Batch) (p : Payload) (w : W) (a : Ack) (o : Option (Response T))
      → legacy_payload sha256_hex b ≡ ok p
      → (push p w).1 ≡ o
      → judge b p o ≡ acknowledged a
      → IsBooked b w a
  unfolding judge
  judged b p w a none valid answered h = absurd (cc)
  judged b p w a (some r) valid answered h =
      let (status, reply, read, request, digest, committed, ack) =
        judge_reply-eq_acknowledged b p r.status _ (reply_of r.body) a h in
      record {
        payload = p;
        response = r;
        reply = reply;
        valid = valid;
        answered = answered;
        status = status;
        read = read;
        request = (request, digest);
        committed = committed;
        ack = ack;
      }

  sent :
      (b : Batch) (w : W) (a : Ack) (o : Result Payload)
      → legacy_payload sha256_hex b ≡ o
      → (send b o w).1 ≡ acknowledged a
      → IsBooked b w a
  unfolding send
  sent b w a (err e) valid h = absurd (cc)
  sent b w a (ok p) valid h = judged b p w a (push p w).1 valid refl h

  -- `Commit` acknowledges a batch only where the client is in the legacy mode alone, the batch is
  -- one of its node and a valid report, and the panel's answer to that report, with status 200,
  -- says by its id and digest that it is committed; the acknowledgement is then that of the batch.
  pub commit-IsBooked :
      (c : Client) (b : Batch) (w : W) (a : Ack)
      → (commit c b w).1 ≡ acknowledged a
      → (c.legacy_accounting ≡ true)
        × (length c.traffic_epoch ≡ 0)
        × (b.scope ≡ codes "vless-" ++ show_int c.node_id)
        × IsBooked b w a
  unfolding commit
  commit-IsBooked c b w a h =
      elim (Bool-cases (
        not c.legacy_accounting
        || not (length c.traffic_epoch == 0)
        || not (bytes_eq b.scope (codes "vless-" ++ show_int c.node_id)))) [
          | inl e ↦
              let bad : ◌≡◌ {A = Pushed} (failed wrong_scope) (acknowledged a) = rw e at h in
              absurd (cc)
          | inr e ↦
              let h' : (send b (legacy_payload sha256_hex b) w).1 ≡ acknowledged a = rw e at h in
              (
                ground arith,
                ground arith,
                (bytes_eq_iff b.scope (codes "vless-" ++ show_int c.node_id)).0 (ground arith),
                sent b w a (legacy_payload sha256_hex b) refl h',
              )
        ]
