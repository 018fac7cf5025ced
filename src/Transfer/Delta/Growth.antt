-- ===== src/Transfer/Delta/Growth.antt =====
-- The traffic of an inventory, and how the second loop of `delta` splits it between the map of the
-- earlier counters and the rows that it returns.
use v2b_x.Base.{
  ℕ, ◌+◌, ◌≡◌, refl, sym, ◌∙◌, ap, map, true, List, [], ◌∷◌, arith, if◌then◌else◌, Bytes, bytes_eq,
  bytes_eq_iff, All, Bool-cases, inl, inr, Assoc, get, put, del, get-put, get-del,
}
use v2b_x.Base.Int.{pos, pos_part, sub64_exact}
use mathlib.Core.Path.{ap₂}
use v2b_x.Text.{bytes_lt}
use v2b_x.Transfer.Types.{Sample, ok, >>=-eq-ok, bytes_key}
use v2b_x.Transfer.Samples.{key, is_counter, insert_sample, sort_samples}
use v2b_x.Transfer.Samples.Sorting.{IsInt64}
use v2b_x.Transfer.Delta.{or_zero, grown, delta_from}

pub data Direction : Type 0 where
  up down : Direction

abbrev pub traffic : Direction → Sample → ℕ
traffic up s = pos_part s.upload
traffic down s = pos_part s.download

-- The traffic of the rows with a key, as a receiver adds them up.
abbrev pub amount : Direction → Bytes → List Sample → ℕ
amount d k [] = 0
amount d k (s ∷ xs) = (if bytes_eq (key s) k then traffic d s else 0) + amount d k xs

-- Neither counter is negative.
abbrev pub IsNatural : Sample → Type 0
IsNatural s = (s.upload ≡ pos (pos_part s.upload)) × (s.download ≡ pos (pos_part s.download))

pub IsNatural-of_counter : (s : Sample) → is_counter s ≡ true → IsNatural s
unfolding is_counter
IsNatural-of_counter s h = ground arith

pub grown_row :
    (p s row : Sample)
    → IsNatural p
    → IsNatural s
    → IsInt64 s
    → grown p s ≡ ok row
    → (key row ≡ key s)
      × IsNatural row
      × IsInt64 row
      × (traffic up s ≡ traffic up p + traffic up row)
      × (traffic down s ≡ traffic down p + traffic down row)
unfolding grown key
grown_row p s row np ns r h = ground (
  arith,
  sub64_exact (pos_part s.upload) (pos_part p.upload),
  sub64_exact (pos_part s.download) (pos_part p.download),
)

-- Every value of a map is natural, a missing one read as zero.
abbrev pub HoldsNatural : Assoc Bytes Sample → Type 0
HoldsNatural old = (k : Bytes) → IsNatural (or_zero (get bytes_key k old))

unfoldable pub held : Direction → Bytes → Assoc Bytes Sample → ℕ
held d k old = traffic d (or_zero (get bytes_key k old))

pub del-HoldsNatural :
    (k : Bytes) (old : Assoc Bytes Sample) → HoldsNatural old → HoldsNatural (del bytes_key k old)
del-HoldsNatural k old h j = rw get-del (ground (arith, h j))

pub put-HoldsNatural :
    (k : Bytes) (s : Sample) (old : Assoc Bytes Sample)
    → IsNatural s
    → HoldsNatural old
    → HoldsNatural (put bytes_key k s old)
put-HoldsNatural k s old n h j = rw get-put (ground (arith, h j))

held-del :
    (d : Direction) (j k : Bytes) (old : Assoc Bytes Sample)
    → held d j (del bytes_key k old) ≡ (if bytes_eq k j then 0 else held d j old)
unfolding held
held-del up j k old = rw get-del (ground arith)
held-del down j k old = rw get-del (ground arith)

grown-traffic :
    (d : Direction) (p s row : Sample)
    → IsNatural p
    → IsNatural s
    → IsInt64 s
    → grown p s ≡ ok row
    → traffic d s ≡ traffic d p + traffic d row
grown-traffic up p s row np ns r h = (grown_row p s row np ns r h).3
grown-traffic down p s row np ns r h = (grown_row p s row np ns r h).4

-- What `delta_from` asks of the inventory that it walks through.
abbrev pub AreRows : List Sample → Type 0
AreRows = All (λ s. IsNatural s × IsInt64 s)

pub delta_from-eq_ok :
    (old : Assoc Bytes Sample) (s : Sample) (rest out : List Sample)
    → delta_from old (s ∷ rest) ≡ ok out
    → (row : Sample) × (later : List Sample) × (grown (or_zero (get bytes_key (key s) old)) s
        ≡ ok row)
      × (delta_from (del bytes_key (key s) old) rest ≡ ok later)
      × (out ≡ row ∷ later)
unfolding delta_from
delta_from-eq_ok old s rest out h =
    let (row, g, h') = >>=-eq-ok (grown (or_zero (get bytes_key (key s) old)) s) _ h in
    let (later, l, e) = >>=-eq-ok (delta_from (del bytes_key (key s) old) rest) _ h' in
    (row, later, g, l, cc)

held-grown :
    (d : Direction) (old : Assoc Bytes Sample) (s row : Sample)
    → HoldsNatural old
    → IsNatural s
    → IsInt64 s
    → grown (or_zero (get bytes_key (key s) old)) s ≡ ok row
    → traffic d s ≡ held d (key s) old + traffic d row
unfolding held
held-grown d old s row n ns r h = grown-traffic d _ s row (n (key s)) ns r h

amount_step :
    (d : Direction) (j k : Bytes) (old : Assoc Bytes Sample) (a r rest later : ℕ)
    → a ≡ held d j old + r
    → rest ≡ held d k (del bytes_key j old) + later
    → (if bytes_eq j k then a else 0) + rest
      ≡ held d k old + ((if bytes_eq j k then r else 0) + later)
amount_step d j k old a r rest later p q = ground (arith, held-del d k j old, bytes_eq_iff j k)

pub held-nil : (d : Direction) (k : Bytes) → held d k [] ≡ 0
unfolding held get
held-nil up k = refl
held-nil down k = refl

pub delta_from-nil :
    (old : Assoc Bytes Sample) (out : List Sample)
    → delta_from old [] ≡ ok out
    → (old ≡ []) × (out ≡ [])
unfolding delta_from
delta_from-nil [] out h = (refl, cc)
delta_from-nil (x ∷ old) out h = absurd (cc)

pub amount-delta_from :
    (d : Direction) (k : Bytes) (old : Assoc Bytes Sample) (after out : List Sample)
    → HoldsNatural old
    → AreRows after
    → delta_from old after ≡ ok out
    → amount d k after ≡ held d k old + amount d k out
amount-delta_from d k old [] out n r h =
    let (e, f) = delta_from-nil old out h in rw (e, f, held-nil)
amount-delta_from d k old (s ∷ rest) out n r h =
    let (row, later, g, l, e) = delta_from-eq_ok old s rest out h in
    let same = (grown_row _ s row (n (key s)) r.0.0 r.0.1 g).0 in
    let step =
      amount_step d (key s) k old _ (traffic d row) _ (amount d k later)
        (held-grown d old s row n r.0.0 r.0.1 g)
        (amount-delta_from d k (del bytes_key (key s) old) rest later
          (del-HoldsNatural (key s) old n) r.1 l) in
    step
    ∙ sym (
        ap (λ o. held d k old + amount d k o) e
        ∙ ap (λ j. held d k old + ((if bytes_eq j k then traffic d row else 0) + amount d k later))
            same)

-- The rows of `delta_from` carry the keys that it was given.
pub keys-delta_from :
    (old : Assoc Bytes Sample) (after out : List Sample)
    → HoldsNatural old
    → AreRows after
    → delta_from old after ≡ ok out
    → map key out ≡ map key after
keys-delta_from old [] out n r h = rw ((delta_from-nil old out h).1)
keys-delta_from old (s ∷ rest) out n r h =
    let (row, later, g, l, e) = delta_from-eq_ok old s rest out h in
    let same = (grown_row _ s row (n (key s)) r.0.0 r.0.1 g).0 in
    let ih =
      keys-delta_from (del bytes_key (key s) old) rest later (del-HoldsNatural (key s) old n) r.1
        l in
    ap (map key) e ∙ ap₂ ◌∷◌ same ih

amount-insert_sample :
    (d : Direction) (k : Bytes) (s : Sample) (xs : List Sample)
    → amount d k (insert_sample s xs) ≡ amount d k (s ∷ xs)
unfolding insert_sample
amount-insert_sample d k s [] = refl
amount-insert_sample d k s (x ∷ xs) = elim (Bool-cases (bytes_lt (key x) (key s))) [
  | inl e ↦ rw e (omega (arith, amount-insert_sample d k s xs))
  | inr e ↦ rw e
]

-- Sorting does not change what a key has.
pub amount-sort_samples :
    (d : Direction) (k : Bytes) (xs : List Sample) → amount d k (sort_samples xs) ≡ amount d k xs
unfolding sort_samples
amount-sort_samples d k [] = refl
amount-sort_samples d k (x ∷ xs) =
    omega (arith, amount-insert_sample d k x (sort_samples xs), amount-sort_samples d k xs)
