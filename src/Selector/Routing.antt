-- ===== src/Selector/Routing.antt =====
-- Which core a node gets, and that its calls go to this core.
use v2b_x.Base.{
  bytes_eq_sound, bytes_eq_iff, ◌≡◌, ◌∙◌, ◌⊎◌, inl, inr, refl, Bool, true, false, Option, none,
  some, List, [], ◌∷◌, Bytes, bytes_eq, ◌==◌, if◌then◌else◌, length, any, All, Assoc, get, arith,
  Bool-cases,
}
use mathlib.Core.HLevel.{⊥_prop}
use mathlib.Core.Logic.Or
use mathlib.Core.List.{not-mem-nil, eq-or-mem_of_mem-cons, Mem, mem-cons_of_mem, mem-cons_self}
use v2b_x.Transfer.Types.{bytes_key}
use v2b_x.Selector.{
  is_supported, Options, Calls, State, serves, select_by_type, select, add_node, del_node,
  add_users, get_user_traffic_slice, del_users, enable_transfer_accounting,
}

pub data Op (N U O : Type 0) : Type 0 where
  adds : Bytes → N → Options O → Op N U O
  deletes : Bytes → Op N U O
  adds_users deletes_users : Bytes → U → Op N U O
  reads : Bytes → Bool → Op N U O
  enables : Bytes → Bytes → Bytes → Op N U O

-- The operation adds or deletes no node of the tag.
abbrev pub OfOthers : {N U O : Type 0} → Bytes → Op N U O → Type 0
OfOthers tag (adds t _ _) = bytes_eq t tag ≡ false
OfOthers tag (deletes t) = bytes_eq t tag ≡ false
OfOthers tag (adds_users _ _) = Unit
OfOthers tag (deletes_users _ _) = Unit
OfOthers tag (reads _ _) = Unit
OfOthers tag (enables _ _ _) = Unit

module _ {C N U T A O W : Type 0} (calls : Calls C N U T A O W) where
  unfoldable pub step : Op N U O → State C W → State C W
  step (adds tag info option) s = (add_node calls tag info option s).1
  step (deletes tag) s = (del_node calls tag s).1
  step (adds_users tag users) s = (add_users calls tag users s).1
  step (deletes_users tag users) s = (del_users calls tag users s).1
  step (reads tag reset) s = (get_user_traffic_slice calls tag reset s).1
  step (enables tag epoch node_type) s = (enable_transfer_accounting calls tag epoch node_type s).1

  unfoldable pub run : List (Op N U O) → State C W → State C W
  unfolding step
  run [] s = s
  run (x ∷ rest) s = run rest (step x s)

  -- The tag's node is of this core.
  abbrev IsOf : Bytes → C → State C W → Type 0
  IsOf tag c s = get bytes_key tag s.nodes ≡ some c

  -- The scan by type gives a core that serves, or what was found before where none does.
  scanned :
      (info : N) (option : Options O) (found : Option C) (cores : Assoc Bytes C)
      → ((any (λ p. serves calls info option p.1) cores ≡ false)
          × (select_by_type calls info option found cores ≡ found))
        ⊎ ((c : C) × (name : Bytes) × (select_by_type calls info option found cores ≡ some c)
            × (serves calls info option c ≡ true)
            × Mem (name, c) cores)
  unfolding select_by_type
  scanned info option found [] = inl (refl, refl)
  scanned info option found ((name, d) ∷ rest) =
      let ih = scanned info option (if serves calls info option d then some d else found) rest in
      elim ih [
        | inr r ↦ inr (r.0, r.1, r.2, r.3, mem-cons_of_mem (name, d) r.4)
        | inl r ↦ elim (Bool-cases (serves calls info option d)) [
          | inl e ↦ inr (d, name, r.1 ∙ rw e refl, e, mem-cons_self)
          | inr e ↦ inl (ground (arith, r.0), r.1 ∙ rw e refl)
        ]
      ]

  -- The core serves the node: it has the type that the options name, or, where they name none, the
  -- node's type is one of its protocols.
  pub data Serves (info : N) (option : Options O) (c : C) : Type 0 where
    speaks :
        length option.core ≡ 0
        → Mem (calls.node_type info) (calls.protocols_of c)
        → Serves info option c
    is_named : (length option.core ≡ 0 → ⊥) → option.core ≡ calls.type_of c → Serves info option c

  supported : (x : Bytes) (xs : List Bytes) → is_supported x xs ≡ true → Mem x xs
  supported x [] h = absurd (cc)
  supported x (y ∷ ys) h = elim (Bool-cases (bytes_eq x y)) [
    | inl e ↦ rw (bytes_eq_sound x y e) (mem-cons_self)
    | inr e ↦ mem-cons_of_mem y (supported x ys (ground (arith, e)))
  ]

  unsupported : (x : Bytes) (xs : List Bytes) → is_supported x xs ≡ false → Mem x xs → ⊥
  unsupported x [] h m = not-mem-nil m
  unsupported x (y ∷ ys) h m =
      Or.elim ⊥_prop (eq-or-mem_of_mem-cons m)
        (λ e. let same = (bytes_eq_iff x y).1 e in ground (arith, same))
        (unsupported x ys (ground arith))

  serves-Serves :
      (info : N) (option : Options O) (c : C)
      → serves calls info option c ≡ true
      → Serves info option c
  serves-Serves info option c h = elim (Bool-cases (length option.core == 0)) [
    | inl e ↦
        speaks (ground arith)
          (supported (calls.node_type info) (calls.protocols_of c) (ground arith))
    | inr e ↦
        is_named (λ z. ground arith) (bytes_eq_sound option.core (calls.type_of c) (ground arith))
  ]

  Serves-serves :
      (info : N) (option : Options O) (c : C)
      → serves calls info option c ≡ false
      → Serves info option c
      → ⊥
  Serves-serves info option c h (speaks e m) =
      unsupported (calls.node_type info) (calls.protocols_of c) (ground arith) m
  Serves-serves info option c h (is_named e m) =
      let same = (bytes_eq_iff option.core (calls.type_of c)).1 m in ground arith

  none_serve :
      (info : N) (option : Options O) (cores : Assoc Bytes C)
      → any (λ p. serves calls info option p.1) cores ≡ false
      → All (λ p. Serves info option p.1 → ⊥) cores
  none_serve info option [] h = tt
  none_serve info option ((name, c) ∷ rest) h =
      (Serves-serves info option c (ground arith), none_serve info option rest (ground arith))

  -- For options without a core's name, `AddNode` selects a core of the selector that serves the
  -- node: one of the type that the options name, or, where they name none, one that has the node's
  -- type among its protocols. Where it selects none, no core of the selector is such a core.
  pub select-Serves :
      (info : N) (option : Options O) (cores : Assoc Bytes C)
      → length option.core_name ≡ 0
      → (All (λ p. Serves info option p.1 → ⊥) cores × (select calls info option cores ≡ none))
        ⊎ ((c : C) × (name : Bytes) × (select calls info option cores ≡ some c)
            × Serves info option c
            × Mem (name, c) cores)
  unfolding select
  select-Serves info option cores unnamed =
      let plain : (length option.core_name == 0) ≡ true = ground arith in
      rw plain elim (scanned info option none cores) [
        | inl r ↦ inl (none_serve info option cores r.0, r.1)
        | inr r ↦ inr (r.0, r.1, r.2, serves-Serves info option r.0 r.3, r.4)
      ]
