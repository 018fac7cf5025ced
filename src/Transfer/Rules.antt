-- ===== src/Transfer/Rules.antt =====
-- Postconditions of actions: what holds of the value and the state, or of the state behind an error.
use v2b_x.Base.{if◌then◌else◌, ◌≡◌, refl, subst, Bool, true, false, Option, none, some}
use v2b_x.Transfer.Types.{Error, Result, ok, err}
use v2b_x.Transfer.Env.{State, Action, continue, guard, asked, called}

module _ {W : Type 0} where
  pub data Post {A : Type 0} (P : A → State W → Type 0) (E : State W → Type 0)
      : Result A × State W → Type 0 where
    done : {a : A} {s : State W} → P a s → Post P E (ok a, s)
    failed : {e : Error} {s : State W} → E s → Post P E (err e, s)

  pub bind-Post :
      {A B : Type 0} {P : A → State W → Type 0} {Q : B → State W → Type 0} {E : State W → Type 0}
      {r : Result A × State W} {f : A → Action W B}
      → Post P E r
      → ((a : A) (s : State W) → P a s → Post Q E (f a s))
      → Post Q E (continue r f)
  bind-Post (done {a = a} {s = s} p) k = k a s p
  bind-Post (failed e) k = failed e

  -- Behind a guard its test holds, and the state is as it was.
  pub guard-Post :
      {B : Type 0} {Q : B → State W → Type 0} {E : State W → Type 0} (f : Action W B) (e : Error)
      (b : Bool) (s : State W)
      → E s
      → (b ≡ true → Post Q E (f s))
      → Post Q E (continue (guard b e s) (λ _. f))
  guard-Post f e true s h k = k refl
  guard-Post f e false s h k = failed h

  -- A pure computation keeps the state.
  pub pure-Post :
      {A B : Type 0} {Q : B → State W → Type 0} {E : State W → Type 0} (f : A → Action W B)
      (r : Result A) (s : State W)
      → E s
      → ((a : A) → r ≡ ok a → Post Q E (f a s))
      → Post Q E (continue (r, s) f)
  pure-Post f (ok a) s h k = k a refl
  pure-Post f (err e) s h k = failed h

  pub weaken-Post :
      {A : Type 0} {P Q : A → State W → Type 0} {E : State W → Type 0} {r : Result A × State W}
      → Post P E r
      → ((a : A) (s : State W) → P a s → Q a s)
      → Post Q E r
  weaken-Post (done p) k = done (k _ _ p)
  weaken-Post (failed e) k = failed e

  -- Of a successful run the postcondition is that of its value.
  pub post_ok :
      {A : Type 0} {P : A → State W → Type 0} {E : State W → Type 0} {r : Result A × State W}
      {a : A}
      → Post P E r
      → r.0 ≡ ok a
      → P a r.1
  post_ok {P} {a} (done {a = b} {s = s} p) h = let e : b ≡ a = cc in subst (λ x. P x s) e p
  post_ok (failed e) h = absurd (cc)

  -- Where value and error leave one property of the state, the run leaves it.
  pub post_state :
      {A : Type 0} {P : A → State W → Type 0} {E : State W → Type 0} {r : Result A × State W}
      → Post P E r
      → ((a : A) (s : State W) → P a s → E s)
      → E r.1
  post_state (done p) k = k _ _ p
  post_state (failed e) k = e

  pub if_Post :
      {A : Type 0} {P : A → State W → Type 0} {E : State W → Type 0} (b : Bool)
      (x y : Result A × State W)
      → (b ≡ true → Post P E x)
      → (b ≡ false → Post P E y)
      → Post P E (if b then x else y)
  if_Post true x y h k = h refl
  if_Post false x y h k = k refl

  -- Behind a call that gives a value, and behind one that only may fail.
  pub ask-Post :
      {A B : Type 0} {Q : B → State W → Type 0} {E : State W → Type 0} (f : A → Action W B)
      (s : State W) (r : W × Option A)
      → E (record s { world = r.0 })
      → ((a : A) → r.1 ≡ some a → Post Q E (f a (record s { world = r.0 })))
      → Post Q E (continue (asked s r) f)
  ask-Post f s (w, some a) e k = k a refl
  ask-Post f s (w, none) e k = failed e

  pub call-Post :
      {B : Type 0} {Q : B → State W → Type 0} {E : State W → Type 0} (f : Unit {0} → Action W B)
      (s : State W) (r : W × Bool)
      → E (record s { world = r.0 })
      → Post Q E (f tt (record s { world = r.0 }))
      → Post Q E (continue (called s r) f)
  call-Post f s (w, true) e k = k
  call-Post f s (w, false) e k = failed e

  pub post_err :
      {A : Type 0} {P : A → State W → Type 0} {E : State W → Type 0} {r : Result A × State W}
      {e : Error}
      → Post P E r
      → r.0 ≡ err e
      → E r.1
  post_err (done p) h = absurd (cc)
  post_err (failed v) h = v
