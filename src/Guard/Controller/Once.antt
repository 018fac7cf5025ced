-- ===== src/Guard/Controller/Once.antt =====
-- A lease id is used once: what a controller has seen stays seen, and no new block takes it.
use v2b_x.Base.{
  ℕ, suc, ◌≡◌, refl, sym, ap, subst, ◌∙◌, Bool, true, false, not, ◌||◌, Option, none, some, List,
  [], ◌∷◌, Bytes, bytes_eq, get, put, get-put, leb, length, ◌==◌, if◌then◌else◌, Bool-cases, inl,
  inr,
}
use v2b_x.Base.Int.{ltb_ℤ, leb_ℤ, sub64, pos}
use v2b_x.Transfer.Types.{identity_key, bytes_key}
use v2b_x.Guard.Types.{Moment, Lease}
use v2b_x.Guard.Bindings.{tracking_ready}
use v2b_x.Guard.Leases.{holds_now}
use v2b_x.Guard.Run.{step}
use v2b_x.Guard.Run.Rules.{Ends, if-Ends}
use v2b_x.Guard.Controller.Types.{
  Command, Envelope, BootStamp, Controller, ControlError, Acknowledgement, Reply, fails, Codec,
  Operation, block, release, cancel, is_some,
}
use v2b_x.Guard.Controller.Envelope.{operation_of, verify_envelope}
use v2b_x.Guard.Controller.Records.{bad_stamp}
use v2b_x.Guard.Controller.Execute.{
  last, Turn, effect, release_effect, committed, command_error, block_error, journal_with, settled,
  accept, rolled_back, execute_at, execute_command, execute,
}
use v2b_x.Guard.Controller.Steps.{Timely}
use v2b_x.Guard.Controller.Served.{step-Serves}
use v2b_x.Guard.Controller.Lifetime.{Event, commands, serves, live, IsTimed}

-- The id stands among those that the guard has seen.
abbrev pub IsSeen : Bytes → Controller → Type 0
IsSeen id c = is_some (get bytes_key id c.guard.seen) ≡ true

seen_put :
    (id : Bytes) (l : Lease) (c : Controller)
    → IsSeen id c
    → is_some (get bytes_key id (put bytes_key l.id l c.guard.seen)) ≡ true
seen_put id l c h = elim (Bool-cases (bytes_eq l.id id)) [
  | inl b ↦ ap is_some (get-put bytes_key l.id id l c.guard.seen) ∙ rw b refl
  | inr b ↦ ap is_some (get-put bytes_key l.id id l c.guard.seen) ∙ rw b h
]

module _ (id : Bytes) where
  effect-IsSeen :
      (m : Moment) (op : Option Operation) (l : Lease) (c : Controller)
      → IsSeen id c
      → IsSeen id (effect m op l c).1
  unfolding effect release_effect
  effect-IsSeen m none l c h = h
  effect-IsSeen m (some release) l c h = h
  effect-IsSeen m (some block) l c h = seen_put id l c h
  effect-IsSeen m (some cancel) l c h = seen_put id l c h

  settled-IsSeen :
      (at : ℕ) (t : Turn) (cmd : Command) (p : List (Option ℕ) × Controller)
      → Timely at t
      → IsSeen id p.1
      → Ends (IsSeen id) (settled t cmd p)
  unfolding settled
  settled-IsSeen at t cmd (closes, c) time h = record {
    end = ap (λ s. is_some (get bytes_key id s)) (time.serves closes c.guard).seen_eq ∙ h;
  }

  accept-IsSeen :
      (at : ℕ) (t : Turn) (e : Envelope) (cmd : Command) (stamp : BootStamp)
      (o : Option ControlError) (c : Controller)
      → Timely at t
      → IsSeen id c
      → Ends (IsSeen id) (accept t e cmd stamp o c)
  unfolding accept committed
  accept-IsSeen at t e cmd stamp (some f) c time h = record { end = h }
  accept-IsSeen at t e cmd stamp none c time h =
      let next = journal_with e (t.clock 0) stamp c in
      if-Ends (not (t.saves (length c.journal.records) next)) (λ _. record { end = h })
        (λ _. settled-IsSeen at t cmd _ time (
          effect-IsSeen (t.clock 0) (operation_of cmd.operation) cmd.lease
            (committed (t.clock 0) next c) h))

  at-IsSeen :
      (at : ℕ) (t : Turn) (e : Envelope) (cmd : Command) (o : Option BootStamp) (c : Controller)
      → Timely at t
      → IsSeen id c
      → Ends (IsSeen id) (execute_at t e cmd o c)
  unfolding execute_at
  at-IsSeen at t e cmd none c time h = record { end = h }
  at-IsSeen at t e cmd (some stamp) c time h =
      if-Ends (bad_stamp stamp) (λ _. record { end = h })
        (λ _.
          if-Ends
            (not (cmd.sequence == suc (length c.journal.records))
              || ltb_ℤ (t.clock 0).unix (sub64 cmd.issued_at (pos 5))
              || leb_ℤ cmd.not_after (t.clock 0).unix)
            (λ _. record { end = h })
            (λ _.
              if-Ends (rolled_back (t.clock 0) stamp cmd (last c.journal.records) c)
                (λ _. record { end = h }) (λ _. accept-IsSeen at t e cmd stamp _ c time h)))

  command-IsSeen :
      (x : Codec) (at : ℕ) (t : Turn) (e : Envelope) (o : Option Command) (c : Controller)
      → Timely at t
      → IsSeen id c
      → Ends (IsSeen id) (execute_command x t e o c)
  unfolding execute_command
  command-IsSeen x at t e none c time h = record { end = h }
  command-IsSeen x at t e (some cmd) c time h =
      if-Ends (leb cmd.sequence (length c.journal.records)) (λ _. record { end = h })
        (λ _. at-IsSeen at t e cmd t.boot c time h)

  execute-IsSeen :
      (x : Codec) (at : ℕ) (t : Turn) (e : Envelope) (c : Controller)
      → Timely at t
      → IsSeen id c
      → Ends (IsSeen id) (execute x t e c)
  unfolding execute
  execute-IsSeen x at t e c time h =
      if-Ends c.poisoned (λ _. record { end = h })
        (λ _. command-IsSeen x at t e (verify_envelope x c.node c.key e) c time h)

  live-IsSeen :
      (sha256_hex : Bytes → Bytes) (x : Codec) (at : ℕ) (events : List Event) (c : Controller)
      → IsTimed at events
      → IsSeen id c
      → IsSeen id (live sha256_hex x events c)
  unfolding live
  live-IsSeen sha256_hex x at [] c time h = h
  live-IsSeen sha256_hex x at (commands t e ∷ events) c time h =
      live-IsSeen sha256_hex x (t.clock 0).instant events (execute x t e c).1 time.1
        (execute-IsSeen x at t e c time.0 h).end
  live-IsSeen sha256_hex x at (serves to call ∷ events) c (le, quiet, time) h =
      live-IsSeen sha256_hex x to events (record c { guard = step sha256_hex call c.guard }) time
        (ap (λ s. is_some (get bytes_key id s))
            (step-Serves sha256_hex to call c.guard quiet).seen_eq
          ∙ h)

-- The call is refused, and nothing has changed.
pub record Refuses (c : Controller) (p : Reply Acknowledgement × Controller) : Type 0 where
  pub error : ControlError
  pub refused : p ≡ (fails error, c)

refusing : (e : ControlError) (c : Controller) → Refuses c (fails e, c)
refusing e c = record { error = e; refused = refl }

if-Refuses :
    (c : Controller) (b : Bool) {p q : Reply Acknowledgement × Controller}
    → (b ≡ true → Refuses c p)
    → (b ≡ false → Refuses c q)
    → Refuses c (if b then p else q)
if-Refuses c true h k = h refl
if-Refuses c false h k = k refl

-- There is an error.
record Errs (o : Option ControlError) : Type 0 where
  code : ControlError
  found : o ≡ some code

erring : (e : ControlError) → Errs (some e)
erring e = record { code = e; found = refl }

if-Errs :
    (b : Bool) {o q : Option ControlError}
    → (b ≡ true → Errs o)
    → (b ≡ false → Errs q)
    → Errs (if b then o else q)
if-Errs true h k = h refl
if-Errs false h k = k refl

-- A known id is an error of every block.
known_error :
    (m : Moment) (l : Lease) (c : Controller)
    → IsSeen l.id c
    → Errs (command_error m (some block) l c)
unfolding command_error block_error
known_error m l c h =
    if-Errs (not (length c.reconcile == 0)) (λ _. erring _)
      (λ _.
        if-Errs (leb 4096 (length c.guard.seen)) (λ _. erring _)
          (λ _.
            if-Errs (not (tracking_ready c.guard)) (λ _. erring _)
              (λ _.
                if-Errs (holds_now (get identity_key l.identity c.guard.leases) m.instant)
                  (λ _. erring _)
                  (λ _.
                    if-Errs (is_some (get bytes_key l.id c.guard.seen)) (λ _. erring _)
                      (λ n. absurd (cc))))))

accept-Refuses :
    (t : Turn) (e : Envelope) (cmd : Command) (stamp : BootStamp) (o : Option ControlError)
    (c : Controller)
    → Errs o
    → Refuses c (accept t e cmd stamp o c)
unfolding accept
accept-Refuses t e cmd stamp (some g) c h = refusing g c
accept-Refuses t e cmd stamp none c h = let x = h.found in absurd (cc)

at-Refuses :
    (t : Turn) (e : Envelope) (cmd : Command) (o : Option BootStamp) (c : Controller)
    → operation_of cmd.operation ≡ some block
    → IsSeen cmd.lease.id c
    → Refuses c (execute_at t e cmd o c)
unfolding execute_at
at-Refuses t e cmd none c op h = refusing _ c
at-Refuses t e cmd (some stamp) c op h =
    if-Refuses c (bad_stamp stamp) (λ _. refusing _ c)
      (λ _.
        if-Refuses c
          (not (cmd.sequence == suc (length c.journal.records))
            || ltb_ℤ (t.clock 0).unix (sub64 cmd.issued_at (pos 5))
            || leb_ℤ cmd.not_after (t.clock 0).unix)
          (λ _. refusing _ c)
          (λ _.
            if-Refuses c (rolled_back (t.clock 0) stamp cmd (last c.journal.records) c)
              (λ _. refusing _ c)
              (λ _. accept-Refuses t e cmd stamp _ c (
                subst (λ o. Errs (command_error (t.clock 0) o cmd.lease c)) (sym op)
                  (known_error (t.clock 0) cmd.lease c h)))))

command-Refuses :
    (x : Codec) (t : Turn) (e : Envelope) (o : Option Command) (cmd : Command) (c : Controller)
    → o ≡ some cmd
    → leb cmd.sequence (length c.journal.records) ≡ false
    → operation_of cmd.operation ≡ some block
    → IsSeen cmd.lease.id c
    → Refuses c (execute_command x t e o c)
unfolding execute_command
command-Refuses x t e none cmd c same new op h = absurd (cc)
command-Refuses x t e (some d) cmd c same new op h =
    let it : d ≡ cmd = cc in
    subst (λ d. Refuses c (execute_command x t e (some d) c)) (sym it)
      (if-Refuses c (leb cmd.sequence (length c.journal.records)) (λ old. absurd (cc))
        (λ _. at-Refuses t e cmd t.boot c op h))

-- The id of a lease that was seen, by a block or a cancellation, is not taken by a block again.
pub live-execute :
    (sha256_hex : Bytes → Bytes) (x : Codec) (at : ℕ) (events : List Event) (c : Controller)
    (t : Turn) (e : Envelope) (cmd : Command)
    → IsTimed at events
    → IsSeen cmd.lease.id c
    → verify_envelope x (live sha256_hex x events c).node (live sha256_hex x events c).key e
      ≡ some cmd
    → leb cmd.sequence (length (live sha256_hex x events c).journal.records) ≡ false
    → operation_of cmd.operation ≡ some block
    → Refuses (live sha256_hex x events c) (execute x t e (live sha256_hex x events c))
unfolding execute
live-execute sha256_hex x at events c t e cmd time seen ver new op =
    let d = live sha256_hex x events c in
    let h = live-IsSeen cmd.lease.id sha256_hex x at events c time seen in
    if-Refuses d d.poisoned (λ _. refusing _ d)
      (λ _. command-Refuses x t e (verify_envelope x d.node d.key e) cmd d ver new op h)
