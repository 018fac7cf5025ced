-- ===== src/Transfer/Drain/Rules.antt =====
-- Postconditions behind a required value and behind a test that names its error.
use v2b_x.Base.{◌≡◌, refl, Option, none, some}
use v2b_x.Transfer.Types.{Error}
use v2b_x.Transfer.Env.{State, Action, continue}
use v2b_x.Transfer.Rules.{Post, failed}
use v2b_x.Transfer.Drain.{require, accept}

module _ {W : Type 0} where
  pub require-Post :
      {A B : Type 0} {Q : B → State W → Type 0} {E : State W → Type 0} (f : A → Action W B)
      (o : Option A) (e : Error) (s : State W)
      → E s
      → ((a : A) → o ≡ some a → Post Q E (f a s))
      → Post Q E (continue (require o e s) f)
  require-Post f (some a) e s v k = k a refl
  require-Post f none e s v k = failed v

  pub accept-Post :
      {B : Type 0} {Q : B → State W → Type 0} {E : State W → Type 0} (f : Unit {0} → Action W B)
      (o : Option Error) (s : State W)
      → E s
      → (o ≡ none → Post Q E (f tt s))
      → Post Q E (continue (accept o s) f)
  accept-Post f none s v k = k refl
  accept-Post f (some e) s v k = failed v
