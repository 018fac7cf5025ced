-- ===== src/Json5/Total.antt =====
-- `prep` ends on every text, and only blanks bytes.
use v2b_x.Base.{
  ℕ, zero, suc, ◌+◌, ◌-◌, ◌≤◌, ◌<◌, ◌≡◌, refl, Bool, true, false, ◌&&◌, ◌||◌, not, Option, some,
  Bytes, ◌==◌, ltb, if◌then◌else◌, length, arith,
}
use v2b_x.Json5.{
  Cursor, byte_at, blank, is_nl, is_ws, reads, blank_line, blank_block, and_then, line_comment,
  block_comment, consume_comment, read_string, read_comma, turn, turns, prep,
}
use v2b_x.Json5.Blanks.{AreBlanked, AreBlanked-refl, AreBlanked-blank, length-AreBlanked}

module _ (s0 : Bytes) where
  -- The loop ends at a position of k or behind it, with bytes blanked.
  record Finishes (k : ℕ) (o : Option Cursor) : Type 0 where
    cursor : Cursor
    is : o ≡ some cursor
    blanked : AreBlanked s0 cursor.text
    on : k ≤ cursor.at

  if-Finishes :
      (k : ℕ) (b : Bool) {p q : Option Cursor}
      → (b ≡ true → Finishes k p)
      → (b ≡ false → Finishes k q)
      → Finishes k (if b then p else q)
  if-Finishes k true h f = h refl
  if-Finishes k false h f = f refl

  stops :
      (k i : ℕ) (s : Bytes)
      → AreBlanked s0 s
      → k ≤ i
      → Finishes k (some (record { text = s; at = i }))
  stops k i s b h = record { cursor = record { text = s; at = i }; is = refl; blanked = b; on = h }

  -- The fuel is more than the bytes that are left.
  abbrev IsEnough : ℕ → ℕ → Type 0
  IsEnough n i = (1 ≤ n) × (length s0 < n + i)

  blank_line-Finishes :
      (n i k : ℕ) (s : Bytes)
      → AreBlanked s0 s
      → k ≤ i
      → IsEnough n i
      → Finishes k (blank_line n s i)
  unfolding blank_line
  blank_line-Finishes zero i k s b h e = absurd (omega (arith, e.0))
  blank_line-Finishes (suc n) i k s b h e =
      let len = length-AreBlanked s0 s b in
      if-Finishes k (ltb i (length s) && not (is_nl (byte_at i s)))
        (λ go.
          let inside : i < length s = ground arith in
          blank_line-Finishes n (i + 1) k (blank i s) (AreBlanked-blank i s0 s b) (omega (arith, h))
            (omega (arith, inside, len, e.1), omega (arith, e.1)))
        (λ _. stops k i s b h)

  blank_block-Finishes :
      (n i k : ℕ) (s : Bytes)
      → AreBlanked s0 s
      → k ≤ i
      → IsEnough n i
      → Finishes k (blank_block n s i)
  unfolding blank_block
  blank_block-Finishes zero i k s b h e = absurd (omega (arith, e.0))
  blank_block-Finishes (suc n) i k s b h e =
      let len = length-AreBlanked s0 s b in
      let blanked = AreBlanked-blank i s0 s b in
      if-Finishes k (not (ltb i (length s))) (λ _. stops k i s b h)
        (λ within.
          let inside : i < length s = ground arith in
          if-Finishes k (not (byte_at i s == b'*'))
            (λ _.
              blank_block-Finishes n (i + 1) k (blank i s) blanked (omega (arith, h))
                (omega (arith, inside, len, e.1), omega (arith, e.1)))
            (λ _.
              if-Finishes k (reads (i + 1) s b'/')
                (λ _.
                  stops k (i + 1) (blank (i + 1) (blank i s))
                    (AreBlanked-blank (i + 1) s0 (blank i s) blanked) (omega (arith, h)))
                (λ _.
                  blank_block-Finishes n (i + 2) k (blank i s) blanked (omega (arith, h))
                    (omega (arith, inside, len, e.1), omega (arith, e.1)))))

  and_then-Finishes :
      (k m : ℕ) (o : Option Cursor) (f : Cursor → Option Cursor)
      → Finishes k o
      → ((c : Cursor) → AreBlanked s0 c.text → k ≤ c.at → Finishes m (f c))
      → Finishes m (and_then o f)
  unfolding and_then
  and_then-Finishes k m o f h g = rw h.is (g h.cursor h.blanked h.on)

  enough : (i : ℕ) (s : Bytes) → AreBlanked s0 s → IsEnough (suc (length s)) i
  enough i s b = let len = length-AreBlanked s0 s b in (omega arith, omega (arith, len))

  consume_comment-Finishes :
      (i : ℕ) (s : Bytes) → AreBlanked s0 s → Finishes i (consume_comment s i)
  unfolding consume_comment line_comment block_comment
  consume_comment-Finishes i s b =
      and_then-Finishes i i (line_comment s i) block_comment
        (if-Finishes i (reads i s b'/')
          (λ _.
            let b' = AreBlanked-blank (i - 1) s0 s b in
            blank_line-Finishes (suc (length s)) i i (blank (i - 1) s) b' (omega arith)
              (enough i s b))
          (λ _. stops i i s b (omega arith)))
        (λ c d h.
          if-Finishes i (reads c.at c.text b'*')
            (λ _.
              let d' = AreBlanked-blank c.at s0 _ (AreBlanked-blank (c.at - 1) s0 c.text d) in
              blank_block-Finishes (suc (length c.text)) c.at i _ d' h (enough c.at c.text d))
            (λ _. stops i c.at c.text d h))

  read_string-Finishes :
      (n i k : ℕ) (s : Bytes)
      → AreBlanked s0 s
      → k ≤ i
      → IsEnough n i
      → Finishes k (read_string n s i)
  unfolding read_string
  read_string-Finishes zero i k s b h e = absurd (omega (arith, e.0))
  read_string-Finishes (suc n) i k s b h e =
      let len = length-AreBlanked s0 s b in
      if-Finishes k (not (ltb i (length s))) (λ _. stops k i s b h)
        (λ within.
          let inside : i < length s = ground arith in
          if-Finishes k (byte_at i s == b'"') (λ _. stops k (i + 1) s b (omega (arith, h)))
            (λ _.
              if-Finishes k (byte_at i s == b'\\')
                (λ _.
                  read_string-Finishes n (i + 2) k s b (omega (arith, h))
                    (omega (arith, inside, len, e.1), omega (arith, e.1)))
                (λ _.
                  read_string-Finishes n (i + 1) k s b (omega (arith, h))
                    (omega (arith, inside, len, e.1), omega (arith, e.1)))))

  read_comma-Finishes :
      (n j i k : ℕ) (s : Bytes)
      → AreBlanked s0 s
      → k ≤ i + 1
      → IsEnough n i
      → Finishes k (read_comma n j s i)
  unfolding read_comma
  read_comma-Finishes zero j i k s b h e = absurd (omega (arith, e.0))
  read_comma-Finishes (suc n) j i k s b h e =
      let len = length-AreBlanked s0 s b in
      if-Finishes k (not (ltb (i + 1) (length s))) (λ _. stops k (i + 1) s b h)
        (λ within.
          let inside : i + 1 < length s = ground arith in
          if-Finishes k (byte_at (i + 1) s == b'}' || byte_at (i + 1) s == b']')
            (λ _. stops k (i + 1) (blank j s) (AreBlanked-blank j s0 s b) h)
            (λ _.
              if-Finishes k (byte_at (i + 1) s == b'/')
                (λ _.
                  and_then-Finishes (i + 2) k (consume_comment s (i + 2))
                    (λ c. read_comma n j c.text c.at) (consume_comment-Finishes (i + 2) s b)
                    (λ c d m.
                      read_comma-Finishes n j c.at k c.text d (omega (arith, h, m))
                        (omega (arith, inside, len, e.1), omega (arith, e.1, m))))
                (λ _.
                  if-Finishes k (not (is_ws (byte_at (i + 1) s))) (λ _. stops k (i + 1) s b h)
                    (λ _.
                      read_comma-Finishes n j (i + 1) k s b (omega (arith, h))
                        (omega (arith, inside, len, e.1), omega (arith, e.1))))))

  turn-Finishes : (i : ℕ) (s : Bytes) → AreBlanked s0 s → Finishes (i + 1) (turn s i)
  unfolding turn
  turn-Finishes i s b =
      if-Finishes (i + 1) (byte_at i s == b'"')
        (λ _.
          read_string-Finishes (suc (length s)) (i + 1) (i + 1) s b (omega arith)
            (enough (i + 1) s b))
        (λ _.
          if-Finishes (i + 1) (byte_at i s == b'/') (λ _. consume_comment-Finishes (i + 1) s b)
            (λ _.
              if-Finishes (i + 1) (byte_at i s == b',')
                (λ _.
                  read_comma-Finishes (suc (length s)) i i (i + 1) s b (omega arith) (enough i s b))
                (λ _. stops (i + 1) (i + 1) s b (omega arith))))

  turns-Finishes :
      (n i : ℕ) (s : Bytes) → AreBlanked s0 s → IsEnough n i → Finishes (length s0) (turns n s i)
  unfolding turns
  turns-Finishes zero i s b e = absurd (omega (arith, e.0))
  turns-Finishes (suc n) i s b e =
      let len = length-AreBlanked s0 s b in
      if-Finishes (length s0) (ltb i (length s))
        (λ go.
          let inside : i < length s = ground arith in
          and_then-Finishes (i + 1) (length s0) (turn s i) (λ c. turns n c.text c.at)
            (turn-Finishes i s b)
            (λ c d m.
              turns-Finishes n c.at c.text d
                (omega (arith, inside, len, e.1), omega (arith, e.1, m))))
        (λ done. stops (length s0) i s b (ground (arith, len)))

-- `prep` ends on every text: its loops do not run out of the fuel, and they pass the whole text. The
-- result has the length of the text, and each of its bytes is that of the text or a blank.
pub prep_finishes :
    (s : Bytes)
    → (c : Cursor) × (prep s ≡ some c)
      × AreBlanked s c.text
      × (length c.text ≡ length s)
      × (length s ≤ c.at)
unfolding prep
prep_finishes s =
    let r =
      turns-Finishes s (suc (length s)) 0 s (AreBlanked-refl s)
        (enough s 0 s (AreBlanked-refl s)) in
    (r.cursor, r.is, r.blanked, length-AreBlanked s r.cursor.text r.blanked, r.on)
