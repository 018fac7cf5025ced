-- ===== src/Transfer/Legacy/Payload.antt =====
-- `LegacyPayload` (legacy.go): the report of a batch as the old push takes it, by users.
use v2b_x.Base.{
  ◌&&◌, ◌||◌, not, Option, none, some, List, [], ◌∷◌, ◌++◌, Bytes, bytes_eq, ltb, if◌then◌else◌,
  take, Assoc, get, put, int_key,
}
use v2b_x.Base.Int.{ℤ, pos, eqb_ℤ, ltb_ℤ, add64, sub64}
use v2b_x.Text.{codes, newline, colon, decimal, show_int, valid_hex}
use v2b_x.Transfer.Types.{Result, ok, err, ◌>>=◌, invalid_batch, legacy_overflow, Sample, Batch}
use v2b_x.Transfer.Samples.{samples}
use v2b_x.Transfer.Wire.{hash}
use v2b_x.Transfer.Open.{matches_scope}
use v2b_x.Transfer.Outbox.{max_sequence}

-- The bytes of a user: upload and download.
abbrev pub Totals : Type 0
Totals = Assoc ℤ (ℤ × ℤ)

abbrev pub or_zeros : Option (ℤ × ℤ) → ℤ × ℤ
or_zeros none = (pos 0, pos 0)
or_zeros (some sum) = sum

-- The loop over the rows. `max_sequence` is `1 << 53`.
unfoldable pub add_rows : Totals → List Sample → Result Totals
add_rows totals [] = ok totals
add_rows totals (s ∷ rest) =
    let sum = or_zeros (get int_key s.uid totals) in
    let skip = add_rows totals rest in
    let more =
      add_rows (put int_key s.uid (add64 sum.0 s.upload, add64 sum.1 s.download) totals) rest in
    if eqb_ℤ s.upload (pos 0) && eqb_ℤ s.download (pos 0)
    then skip
    else if ltb_ℤ (sub64 (pos max_sequence) sum.0) s.upload
        || ltb_ℤ (sub64 (pos max_sequence) sum.1) s.download
    then err legacy_overflow
    else more

-- `sort.Slice` of the users; they differ.
unfoldable pub insert_total : ℤ × (ℤ × ℤ) → Totals → Totals
insert_total t [] = t ∷ []
insert_total t (u ∷ rest) =
    let more = insert_total t rest in if ltb_ℤ u.0 t.0 then u ∷ more else t ∷ u ∷ rest

unfoldable pub sort_totals : Totals → Totals
unfolding insert_total
sort_totals [] = []
sort_totals (t ∷ rest) = insert_total t (sort_totals rest)

unfoldable pub total_lines : Totals → Bytes
total_lines [] = []
total_lines ((uid, v) ∷ rest) =
    show_int uid
    ++ (colon ∷ (show_int v.0 ++ (colon ∷ (show_int v.1 ++ (newline ∷ total_lines rest)))))

-- The id of the request and its digest, with the users' totals.
pub record Payload : Type 0 where
  pub id : Bytes
  pub digest : Bytes
  pub totals : Totals

module _ (sha256_hex : Bytes → Bytes) where
  unfoldable pub payload_of : Batch → Totals → Payload
  unfolding total_lines sort_totals
  payload_of b totals =
      let id = take 32 (
        sha256_hex (
          codes "beup-legacy-request-v1"
          ++ newline ∷ b.scope
          ++ newline ∷ b.epoch
          ++ newline ∷ decimal b.sequence
          ++ newline ∷ [])) in
      record {
        id = id;
        digest = sha256_hex (
            codes "beup-legacy-report-v1"
            ++ newline ∷ b.scope
            ++ newline ∷ id
            ++ newline ∷ total_lines (sort_totals totals));
        totals = totals;
      }

  unfoldable pub legacy_payload : Batch → Result Payload
  unfolding add_rows payload_of
  legacy_payload b =
      if not (matches_scope b.scope)
        || not (valid_hex b.epoch 16)
        || ltb b.sequence 1
        || ltb max_sequence b.sequence
        || not (eqb_ℤ b.version (pos 1))
        || not (bytes_eq b.digest (hash sha256_hex b))
      then err invalid_batch
      else samples b.entries >>= λ rows. add_rows [] rows >>= λ totals. ok (payload_of b totals)
