-- ===== src/Transfer/Wire.antt =====
-- `Batch.Hash` and `ackFor` (outbox.go): the canonical text of a batch and its digest.
use v2b_x.Base.{List, [], ◌∷◌, ◌++◌, Bytes}
use v2b_x.Text.{codes, newline, colon, decimal, show_int}
use v2b_x.Transfer.Types.{Sample, Batch, Ack}

-- `fmt.Fprintf(h, "%d:%s:%d:%d\n", r.UID, r.Credential, r.Upload, r.Download)`
unfoldable pub entry_line : Sample → Bytes
entry_line r =
    show_int r.uid
    ++ (colon
        ∷ (r.credential
            ++ (colon ∷ (show_int r.upload ++ (colon ∷ (show_int r.download ++ newline ∷ []))))))

unfoldable pub entry_lines : List Sample → Bytes
unfolding entry_line
entry_lines [] = []
entry_lines (r ∷ rest) = entry_line r ++ entry_lines rest

-- What `Hash` writes into SHA-256.
unfoldable pub wire : Batch → Bytes
unfolding entry_lines
wire b =
    codes "beup-traffic-v1"
    ++ (newline
        ∷ (b.scope
            ++ (newline
                ∷ (b.epoch
                    ++ (newline ∷ (decimal b.sequence ++ (newline ∷ entry_lines b.entries)))))))

-- `Hash`, over the hexadecimal SHA-256 of a text.
unfoldable pub hash : (Bytes → Bytes) → Batch → Bytes
unfolding wire
hash sha256_hex b = sha256_hex (wire b)

abbrev pub ack_for : Batch → Ack
ack_for b = record { scope = b.scope; epoch = b.epoch; sequence = b.sequence; digest = b.digest }
