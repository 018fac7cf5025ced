-- ===== src/Reload/Kept.antt =====
-- A reload keeps the accounting of every node that has one.
use v2b_x.Base.{
  ◌++◌, ◌≡◌, ap, refl, sym, inl, inr, Bool, true, false, ◌&&◌, ◌||◌, not, Option, none, some, List,
  [], ◌∷◌, if◌then◌else◌, Key, All, arith, Bool-cases,
}
use v2b_x.Reload.{
  NodeConfig, duplicate_scope, generation_changed, journal_changed, Verdict, accepted, rejected,
  is_there, same_scope, changes, scan, next_if, scan_all, validate_transfer_reload,
}

-- The nodes of a scope.
abbrev pub of_scope :
    {X Y : Type 0} → NodeConfig X Y → List (NodeConfig X Y) → List (NodeConfig X Y)
of_scope old [] = []
of_scope old (n ∷ rest) =
    let more = of_scope old rest in if same_scope old n then n ∷ more else more

-- One node of the scope is there, with the same accounting.
pub record IsKept {X Y : Type 0} (next : List (NodeConfig X Y)) (old : NodeConfig X Y)
    : Type 0 where
  pub fresh : NodeConfig X Y
  pub only : of_scope old next ≡ fresh ∷ []
  pub transfer : fresh.transfer_accounting ≡ old.transfer_accounting
  pub legacy : fresh.legacy_accounting ≡ old.legacy_accounting

abbrev pub IsReliable : {X Y : Type 0} → NodeConfig X Y → Type 0
IsReliable n = (is_there n.transfer_accounting || is_there n.legacy_accounting) ≡ true

-- Options that do not change, where none of the other kind come.
kept_options :
    {A B : Type 0} (k : Key A) (m : Key B) (a c : Option A) (b d : Option B)
    → (is_there a || is_there b) ≡ true
    → changes k (is_there d) a c ≡ false
    → changes m (is_there c) b d ≡ false
    → (c ≡ a) × (d ≡ b)
kept_options k m (some x) (some y) none none r h f =
    (ap some (sym ((k.eqb_iff x y).0 (ground arith))), refl)
kept_options k m none none (some x) (some y) r h f =
    (refl, ap some (sym ((m.eqb_iff x y).0 (ground arith))))
kept_options k m none c none d r h f = absurd (cc)
kept_options k m (some x) none b d r h f = absurd (cc)
kept_options k m (some x) (some y) none (some z) r h f = absurd (ground arith)
kept_options k m (some x) (some y) (some z) none r h f = absurd (cc)
kept_options k m (some x) (some y) (some z) (some w) r h f = absurd (ground arith)
kept_options k m none (some y) (some x) none r h f = absurd (cc)
kept_options k m none none (some x) none r h f = absurd (cc)
kept_options k m none (some y) (some x) (some z) r h f = absurd (ground arith)

passes :
    (x y : Bool) (v : Verdict Bool)
    → (if x then rejected generation_changed else if y then rejected journal_changed else v)
      ≡ accepted true
    → (x ≡ false) × (y ≡ false) × (v ≡ accepted true)
passes true y v h = absurd (cc)
passes false true v h = absurd (cc)
passes false false v h = (refl, refl, h)

All-middle :
    {A : Type 0} (P : A → Type 0) (before after : List A) (x : A)
    → All P (before ++ x ∷ after)
    → P x
All-middle P [] after x h = h.0
All-middle P (y ∷ before) after x h = All-middle P before after x h.1

module _ {X Y : Type 0} (x_key : Key X) (y_key : Key Y) where
  -- Once a node is found, no other one of the scope follows.
  scan_found :
      (old : NodeConfig X Y) (next : List (NodeConfig X Y))
      → scan x_key y_key old true next ≡ accepted true
      → of_scope old next ≡ []
  unfolding scan
  scan_found old [] h = refl
  scan_found old (n ∷ rest) h = elim (Bool-cases (same_scope old n)) [
    | inl e ↦
        let bad : ◌≡◌ {A = Verdict Bool} (rejected duplicate_scope) (accepted true) = rw e at h in
        absurd (cc)
    | inr e ↦
        let h' : scan x_key y_key old true rest ≡ accepted true = rw e at h in
        rw e (scan_found old rest h')
  ]

  scan_once :
      (old : NodeConfig X Y) (next : List (NodeConfig X Y))
      → IsReliable old
      → scan x_key y_key old false next ≡ accepted true
      → IsKept next old
  unfolding scan
  scan_once old [] r h = absurd (cc)
  scan_once old (n ∷ rest) r h =
      let x =
        changes x_key (is_there n.legacy_accounting) old.transfer_accounting
          n.transfer_accounting in
      let y =
        changes y_key (is_there n.transfer_accounting) old.legacy_accounting n.legacy_accounting in
      elim (Bool-cases (same_scope old n)) [
        | inr e ↦
            let h' : scan x_key y_key old false rest ≡ accepted true = rw e at h in
            let k = scan_once old rest r h' in
            record { fresh = k.fresh; only = rw e k.only; transfer = k.transfer; legacy = k.legacy }
        | inl e ↦
            let h' : (if x
                  then rejected generation_changed
                  else if y
                  then rejected journal_changed
                  else scan x_key y_key old true rest)
                ≡ accepted true =
              rw e at h in
            let (f, g, more) = passes x y (scan x_key y_key old true rest) h' in
            let same =
              kept_options x_key y_key old.transfer_accounting n.transfer_accounting
                old.legacy_accounting n.legacy_accounting r f g in
            record {
              fresh = n;
              only = rw e (ap (λ l. n ∷ l) (scan_found old rest more));
              transfer = same.0;
              legacy = same.1;
            }
      ]

  going_on :
      (v : Verdict Bool) (rest : Verdict (Unit {0}))
      → next_if v rest ≡ accepted tt
      → (v ≡ accepted true) × (rest ≡ accepted tt)
  unfolding next_if
  going_on (rejected e) rest h = absurd (cc)
  going_on (accepted false) rest h = absurd (cc)
  going_on (accepted true) rest h = (refl, h)

  All-IsKept :
      (current next : List (NodeConfig X Y))
      → scan_all x_key y_key current next ≡ accepted tt
      → All (λ old. IsReliable old → IsKept next old) current
  unfolding scan_all
  All-IsKept [] next h = tt
  All-IsKept (old ∷ rest) next h =
      elim (Bool-cases
        (not (is_there old.transfer_accounting) && not (is_there old.legacy_accounting))) [
          | inl e ↦
              let h' : scan_all x_key y_key rest next ≡ accepted tt = rw e at h in
              ((λ r. absurd (ground arith)), All-IsKept rest next h')
          | inr e ↦
              let h' : next_if (scan x_key y_key old false next) (scan_all x_key y_key rest next)
                  ≡ accepted tt =
                rw e at h in
              let (one, others) = going_on (scan x_key y_key old false next) _ h' in
              ((λ r. scan_once old next r one), All-IsKept rest next others)
        ]

  -- Where `ValidateTransferReload` accepts, a node of the running configuration with reliable or
  -- legacy accounting has exactly one node of its scope in the new one, and that node has
  -- the same accounting options of both kinds.
  pub reload_keeps :
      (before after next : List (NodeConfig X Y)) (old : NodeConfig X Y)
      → validate_transfer_reload x_key y_key (some (before ++ old ∷ after)) (some next)
        ≡ accepted tt
      → IsReliable old
      → IsKept next old
  unfolding validate_transfer_reload
  reload_keeps before after next old h r =
      All-middle (λ n. IsReliable n → IsKept next n) before after old
        (All-IsKept (before ++ old ∷ after) next h) r
