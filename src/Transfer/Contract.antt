-- ===== src/Transfer/Contract.antt =====
-- What the outbox relies on in the code around it: a store whose failed write leaves the old text,
-- the new one or nothing that can be read; a receiver that commits each sequence number once and
-- acknowledges only what it has committed (the comment on `Receiver` in outbox.go); JSON that reads
-- back what it wrote.
use v2b_x.Base.{
  ℕ, ◌+◌, ◌<◌, ◌≡◌, ◌⊎◌, Bool, true, false, ◌||◌, none, some, List, [], ◌∷◌, Bytes, ◌==◌, All,
}
use v2b_x.Text.{valid_hex}
use v2b_x.Transfer.Types.{Sample, Batch, Identity, Journal}
use v2b_x.Transfer.Samples.Sorting.{IsInt64}
use v2b_x.Transfer.Delta.Growth.{Direction, amount}
use v2b_x.Transfer.Wire.{ack_for}
use v2b_x.Transfer.Env.{Env, Decoded}

-- A journal as `json.Marshal` writes it and the decoder reads it back.
abbrev pub plain : Journal → Decoded
plain j = record {
  journal = j;
  trailing = false;
  has_drains = true;
  has_base = true;
  has_entries = true;
}

-- Some batch of the ledger has the sequence number.
abbrev pub has_sequence : ℕ → List Batch → Bool
has_sequence n [] = false
has_sequence n (b ∷ bs) = b.sequence == n || has_sequence n bs

-- The traffic that a ledger has booked for a key.
abbrev pub total : Direction → Bytes → List Batch → ℕ
total d k [] = 0
total d k (b ∷ bs) = amount d k b.entries + total d k bs

-- The ledger holds the batches that the receiver has committed under the outbox's scope and epoch.
pub record Contract {W T : Type 0} (env : Env W T) (ledger : W → List Batch) : Type 0 where
  pub unmarshal-marshal : (j : Journal) → env.unmarshal (env.marshal j) ≡ some (plain j)
  pub marshal_size : (j : Journal) → 0 < env.size (env.marshal j)
  pub digest_hex : (text : Bytes) → valid_hex (env.sha256_hex text) 32 ≡ true
  pub store_done : (b : T) (w : W) → (env.store b w).1 ≡ true → env.load (env.store b w).0 ≡ some b
  pub store_failed :
      (b : T) (w : W)
      → (env.store b w).1 ≡ false
      → (env.load (env.store b w).0 ≡ env.load w)
        ⊎ (env.load (env.store b w).0 ≡ some b)
        ⊎ (env.load (env.store b w).0 ≡ none)
  pub store_books : (b : T) (w : W) → ledger (env.store b w).0 ≡ ledger w
  pub commit_once :
      (b : Batch) (w : W)
      → (ledger (env.commit b w).0 ≡ ledger w)
        ⊎ ((ledger (env.commit b w).0 ≡ b ∷ ledger w)
            × (has_sequence b.sequence (ledger w) ≡ false))
  pub commit_acked :
      (b : Batch) (w : W)
      → (env.commit b w).1 ≡ some (ack_for b)
      → has_sequence b.sequence (ledger (env.commit b w).0) ≡ true
  pub commit_disk : (b : Batch) (w : W) → env.load (env.commit b w).0 ≡ env.load w
  pub fence_disk : (i : Identity) (w : W) → env.load (env.fence i w).0 ≡ env.load w
  pub fence_books : (i : Identity) (w : W) → ledger (env.fence i w).0 ≡ ledger w
  pub inspect_disk : (i : Identity) (w : W) → env.load (env.inspect i w).0 ≡ env.load w
  pub inspect_books : (i : Identity) (w : W) → ledger (env.inspect i w).0 ≡ ledger w
  pub snapshot_disk : (w : W) → env.load (env.snapshot w).0 ≡ env.load w
  pub snapshot_books : (w : W) → ledger (env.snapshot w).0 ≡ ledger w
  pub quiesce_disk : (w : W) → env.load (env.quiesce w).0 ≡ env.load w
  pub quiesce_books : (w : W) → ledger (env.quiesce w).0 ≡ ledger w
  pub restore_disk : (is : List Identity) (w : W) → env.load (env.restore is w).0 ≡ env.load w
  pub restore_books : (is : List Identity) (w : W) → ledger (env.restore is w).0 ≡ ledger w
  -- the counters of a snapshot are int64
  pub snapshot_range : (w : W) (xs : List Sample) → (env.snapshot w).1 ≡ some xs → All IsInt64 xs
