-- ===== src/Examples/World.antt =====
-- A store, a receiver and an adapter in memory, which meet the contract of the outbox. `lost` counts
-- the acknowledgements that still get lost behind a commit, `broken` the writes that still fail.
use v2b_x.Base.{
  ℕ, ◌-◌, ◌≡◌, refl, ◌⊎◌, inl, inr, Bool, true, false, Option, none, some, List, [], ◌∷◌, Bytes,
  ◌==◌, arith, if◌then◌else◌, Bool-cases, any, All, map, leb, bytes_eq,
}
use v2b_x.Base.Int.{ℤ, pos, pos_part, max_int64}
use v2b_x.Text.{valid_hex, codes, hex_decode, hex_encode, from_hex_digit, hex_digit}
use v2b_x.Transfer.Types.{Sample, Batch, Ack, Identity, FenceStatus, Journal, identity_eq}
use v2b_x.Transfer.Samples.Sorting.{IsInt64}
use v2b_x.Transfer.Wire.{ack_for}
use v2b_x.Transfer.Env.{Env, Decoded}
use v2b_x.Transfer.Contract.{Contract, plain, has_sequence}

pub record World : Type 0 where
  pub disk : Option (Option Journal)
  pub books : List Batch
  pub rows : List Sample
  pub fenced : List Identity
  pub epoch : Bytes
  pub lost : ℕ
  pub broken : ℕ

text_size : Option Journal → ℕ
text_size none = 0
text_size (some j) = 1

decode : Option Journal → Option Decoded
decode none = none
decode (some j) = some (plain j)

-- A failed write leaves the old text.
write : Option Journal → World → World × Bool
write t w =
    if w.broken == 0
    then (record w { disk = some t }, true)
    else (record w { broken = w.broken - 1 }, false)

-- A sequence number is booked once; the acknowledgement may get lost.
book_batch : Batch → World → World
book_batch b w = if has_sequence b.sequence w.books then w else record w { books = b ∷ w.books }

receive : Batch → World → World × Option Ack
unfolding book_batch
receive b w =
    if w.lost == 0
    then (book_batch b w, some (ack_for b))
    else (record (book_batch b w) { lost = w.lost - 1 }, none)

look : Identity → World → World × Option FenceStatus
look i w = (
  w,
  some (record {
    epoch = w.epoch;
    identity = i;
    reject_new = any (identity_eq i) w.fenced;
    outstanding = pos 0;
    tracking_ready = true;
    bindings = pos 1;
  }),
)

abbrev pub digest : Bytes
digest = codes "0123456789abcdef0123456789abcdef0123456789abcdef0123456789abcdef"

-- A counter in the range of int64.
abbrev cap : ℤ → ℤ
cap z = if leb (pos_part z) max_int64 then z else pos 0

abbrev capped : Sample → Sample
capped s = record s { upload = cap s.upload; download = cap s.download }

unfoldable pub env : Env World (Option Journal)
unfolding text_size decode write receive look
env = record {
  marshal = some;
  unmarshal = decode;
  size = text_size;
  sha256_hex = λ t. digest;
  load = λ w. w.disk;
  store = write;
  commit = receive;
  fence = λ i w. (record w { fenced = i ∷ w.fenced }, true);
  inspect = look;
  snapshot = λ w. (w, some (map capped w.rows));
  quiesce = λ w. (w, true);
  restore = λ is w. (w, true);
  expired = λ w. false;
  now = λ w. pos 1700000000;
}

abbrev pub books_of : World → List Batch
books_of w = w.books

has_sequence_head :
    (n : ℕ) (bs : List Batch) (b : Batch) → b.sequence ≡ n → has_sequence n (b ∷ bs) ≡ true
has_sequence_head n bs b e = ground arith

receive_once :
    (b : Batch) (w : World)
    → ((receive b w).0.books ≡ w.books)
      ⊎ (((receive b w).0.books ≡ b ∷ w.books) × (has_sequence b.sequence w.books ≡ false))
unfolding receive
receive_once b w = elim (Bool-cases (has_sequence b.sequence w.books)) [
  | inl old ↦ inl (ground arith)
  | inr new ↦ inr (ground arith, new)
]

receive_acked : (b : Batch) (w : World) → has_sequence b.sequence (receive b w).0.books ≡ true
unfolding receive
receive_acked b w = elim (Bool-cases (has_sequence b.sequence w.books)) [
  | inl old ↦ ground arith
  | inr new ↦ ground (arith, has_sequence_head b.sequence w.books b refl)
]

receive_disk : (b : Batch) (w : World) → (receive b w).0.disk ≡ w.disk
unfolding receive
receive_disk b w = ground arith

write_books : (t : Option Journal) (w : World) → (write t w).0.books ≡ w.books
unfolding write
write_books t w = ground arith

write_done : (t : Option Journal) (w : World) → (write t w).1 ≡ true → (write t w).0.disk ≡ some t
unfolding write
write_done t w h = ground arith

write_failed :
    (t : Option Journal) (w : World) → (write t w).1 ≡ false → (write t w).0.disk ≡ w.disk
unfolding write
write_failed t w h = ground arith

digest_valid : valid_hex digest 32 ≡ true
unfolding valid_hex hex_decode hex_encode from_hex_digit hex_digit bytes_eq
digest_valid = refl

capped-IsInt64 : (xs : List Sample) → All IsInt64 (map capped xs)
capped-IsInt64 [] = tt
capped-IsInt64 (x ∷ xs) = (capped_row x, capped-IsInt64 xs)
  where
    capped_row : (s : Sample) → IsInt64 (capped s)
    capped_row s = ground arith

pub contract : Contract env books_of
unfolding env
contract = record {
  unmarshal-marshal = λ j. refl;
  marshal_size = λ j. omega arith;
  digest_hex = λ t. digest_valid;
  store_done = write_done;
  store_failed = λ t w h. inl (write_failed t w h);
  store_books = write_books;
  commit_once = receive_once;
  commit_acked = λ b w h. receive_acked b w;
  commit_disk = receive_disk;
  fence_disk = λ i w. refl;
  fence_books = λ i w. refl;
  inspect_disk = λ i w. refl;
  inspect_books = λ i w. refl;
  snapshot_disk = λ w. refl;
  snapshot_books = λ w. refl;
  quiesce_disk = λ w. refl;
  quiesce_books = λ w. refl;
  restore_disk = λ is w. refl;
  restore_books = λ is w. refl;
  snapshot_range =
      λ w xs h. let e : map capped w.rows ≡ xs = cc in rw (← e) (capped-IsInt64 w.rows);
}
