-- ===== src/Counter/Pointers.antt =====
-- The storages of the users: each has its own, which a write to another one leaves as it is.
use v2b_x.Base.{
  ℕ, suc, ◌<◌, ◌≡◌, ◌∙◌, ◌⊎◌, sym, ap, refl, inl, inr, true, false, Option, none, some, Bytes,
  bytes_eq, bytes_eq_iff, ◌==◌, ==_iff, if◌then◌else◌, get, put, get-put, put_here, put_there,
  arith, Bool-cases,
}
use v2b_x.Transfer.Types.{bytes_key}
use v2b_x.Counter.{
  TrafficStorage, blank_storage, TrafficCounter, pointer_key, or_blank, storage_of, counter_at,
}

-- The users' pointers differ and lie below the next one.
pub record HasOwn (c : TrafficCounter) : Type 0 where
  pub below : (u : Bytes) (p : ℕ) → get bytes_key u c.counters ≡ some p → p < c.fresh
  pub own :
      (u v : Bytes) (p : ℕ)
      → get bytes_key u c.counters ≡ some p
      → get bytes_key v c.counters ≡ some p
      → u ≡ v

abbrev pub counted : Bytes → TrafficCounter → TrafficStorage
counted uuid c = storage_of (get bytes_key uuid c.counters) c

-- A write to the storage of a user is seen by that user alone.
pub counted-put :
    (u v : Bytes) (p : ℕ) (s : TrafficStorage) (c : TrafficCounter)
    → HasOwn c
    → get bytes_key u c.counters ≡ some p
    → counted v (record c { heap = put pointer_key p s c.heap })
      ≡ (if bytes_eq u v then s else counted v c)
counted-put u v p s c h at = elim (Bool-cases (bytes_eq u v)) [
  | inl e ↦
      let same : v ≡ u = sym ((bytes_eq_iff u v).0 e) in
      let at' : get bytes_key v c.counters ≡ some p =
        ap (λ x. get bytes_key x c.counters) same ∙ at in
      rw (e, at', put_here pointer_key p s c.heap) refl
  | inr e ↦ rw e (elsewhere (get bytes_key v c.counters) refl e)
]
  where
    elsewhere :
        (o : Option ℕ)
        → get bytes_key v c.counters ≡ o
        → bytes_eq u v ≡ false
        → storage_of o (record c { heap = put pointer_key p s c.heap }) ≡ storage_of o c
    elsewhere none e f = refl
    elsewhere (some q) e f = elim (Bool-cases (p == q)) [
      | inl same ↦
          let k : p ≡ q = (==_iff p q).0 same in
          let x : u ≡ v = h.own u v p at (e ∙ ap some (sym k)) in
          let y : bytes_eq u v ≡ true = (bytes_eq_iff u v).1 x in absurd (cc)
      | inr other ↦ ap or_blank (put_there pointer_key p q s c.heap other)
    ]

-- What `GetCounter` gives.
pub record Gives (u : Bytes) (c : TrafficCounter) (r : ℕ × TrafficCounter) : Type 0 where
  pub owns : HasOwn r.1
  pub at : get bytes_key u r.1.counters ≡ some r.0
  pub same : (v : Bytes) → counted v r.1 ≡ counted v c

module _ (u : Bytes) (c : TrafficCounter) (h : HasOwn c) where
  now :
      (v : Bytes) (o : Option ℕ)
      → get bytes_key v (put bytes_key u c.fresh c.counters) ≡ o
      → ((u ≡ v) × (o ≡ some c.fresh)) ⊎ ((bytes_eq u v ≡ false) × (get bytes_key v c.counters ≡ o))
  now v o f =
      let r = get-put bytes_key u v c.fresh c.counters in
      elim (Bool-cases (bytes_eq u v)) [
        | inl b ↦
            let k : get bytes_key v (put bytes_key u c.fresh c.counters) ≡ some c.fresh =
              rw b at r in
            inl ((bytes_eq_iff u v).0 b, sym f ∙ k)
        | inr b ↦
            let k : get bytes_key v (put bytes_key u c.fresh c.counters)
                ≡ get bytes_key v c.counters =
              rw b at r in
            inr (b, sym k ∙ f)
      ]

  new_below :
      (v : Bytes) (p : ℕ)
      → get bytes_key v (put bytes_key u c.fresh c.counters) ≡ some p
      → p < suc c.fresh
  new_below v p f = elim (now v (some p) f) [
    | inl x ↦ let k : p ≡ c.fresh = cc in omega (arith, k)
    | inr x ↦ let k = h.below v p x.1 in omega (arith, k)
  ]

  new_own :
      (v w : Bytes) (p : ℕ)
      → get bytes_key v (put bytes_key u c.fresh c.counters) ≡ some p
      → get bytes_key w (put bytes_key u c.fresh c.counters) ≡ some p
      → v ≡ w
  new_own v w p f k = elim (now v (some p) f) [
    | inl x ↦ elim (now w (some p) k) [
      | inl y ↦ sym x.0 ∙ y.0
      | inr y ↦ let q : p ≡ c.fresh = cc in let b = h.below w p y.1 in absurd (omega (arith, q, b))
    ]
    | inr x ↦ elim (now w (some p) k) [
      | inl y ↦ let q : p ≡ c.fresh = cc in let b = h.below v p x.1 in absurd (omega (arith, q, b))
      | inr y ↦ h.own v w p x.1 y.1
    ]
  ]

  abbrev after : TrafficCounter
  after = record {
    counters = put bytes_key u c.fresh c.counters;
    heap = put pointer_key c.fresh blank_storage c.heap;
    fresh = suc c.fresh;
  }

  as_before :
      (v : Bytes) (o : Option ℕ)
      → get bytes_key v c.counters ≡ o
      → storage_of o after ≡ storage_of o c
  as_before v none f = refl
  as_before v (some p) f =
      let b = h.below v p f in
      let other : (c.fresh == p) ≡ false = ground (arith, b) in
      ap or_blank (put_there pointer_key c.fresh p blank_storage c.heap other)

  same_for : get bytes_key u c.counters ≡ none → (v : Bytes) → counted v after ≡ counted v c
  same_for e v = elim (now v (get bytes_key v after.counters) refl) [
    | inl x ↦
        let e' : get bytes_key v c.counters ≡ none =
          ap (λ y. get bytes_key y c.counters) (sym x.0) ∙ e in
        ap (λ o. storage_of o after) x.1
        ∙ ap or_blank (put_here pointer_key c.fresh blank_storage c.heap)
        ∙ sym (ap (λ o. storage_of o c) e')
    | inr x ↦ ap (λ o. storage_of o after) (sym x.1) ∙ as_before v (get bytes_key v c.counters) refl
  ]

pub counter_at-Gives :
    (u : Bytes) (o : Option ℕ) (c : TrafficCounter)
    → HasOwn c
    → get bytes_key u c.counters ≡ o
    → Gives u c (counter_at u o c)
unfolding counter_at
counter_at-Gives u (some p) c h e = record { owns = h; at = e; same = λ v. refl }
counter_at-Gives u none c h e = record {
  owns = record {
    below = λ v p f. new_below u c h v p f;
    own = λ v w p f k. new_own u c h v w p f k;
  };
  at = put_here bytes_key u c.fresh c.counters;
  same = λ v. same_for u c h e v;
}
