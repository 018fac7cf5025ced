-- ===== src/Guard/Controller/Executed.antt =====
-- `Execute` keeps it that its journal verifies to its state.
use v2b_x.Base.{
  ℕ, suc, ◌≡◌, refl, true, false, not, ◌||◌, Option, none, some, List, Bytes, arith, leb, length,
  ◌==◌,
}
use v2b_x.Base.Int.{pos, ltb_ℤ, leb_ℤ, sub64}
use v2b_x.Guard.Run.Rules.{Ends, if-Ends}
use v2b_x.Guard.Controller.Types.{Command, Envelope, BootStamp, Controller, ControlError, Codec}
use v2b_x.Guard.Controller.Envelope.{operation_of, verify_envelope}
use v2b_x.Guard.Controller.Records.{bad_stamp}
use v2b_x.Guard.Controller.Execute.{
  last, Turn, effect, committed, command_error, journal_with, settled, accept, rolled_back,
  execute_at, execute_command, execute,
}
use v2b_x.Guard.Controller.Verified.{Decodes}
use v2b_x.Guard.Controller.Follow.{Follows, view}
use v2b_x.Guard.Controller.Steps.{
  order_kept, in_order, Timely, Clocked, Follows-later, served-Follows, poisoned-Follows,
  effect-Follows,
}

module _ (x : Codec) (boot_id : Bytes) where
  settled-Follows :
      (at : ℕ) (t : Turn) (cmd : Command) (p : List (Option ℕ) × Controller)
      → Timely at t
      → Follows x boot_id (t.clock 0).instant p.1
      → Ends (Follows x boot_id (t.clock 0).instant) (settled t cmd p)
  unfolding settled
  settled-Follows at t cmd (closes, c) time f = record {
    end =
        served-Follows x boot_id (t.clock 0).instant c (t.called closes c.guard) f
          (time.serves closes c.guard);
  }

  accept-Follows :
      (at : ℕ) (t : Turn) (e : Envelope) (cmd : Command) (stamp : BootStamp)
      (o : Option ControlError) (c : Controller)
      → Timely at t
      → Follows x boot_id at c
      → (o ≡ none
          → Follows x boot_id
              (t.clock 0).instant
              (effect
                (t.clock 0)
                (operation_of cmd.operation)
                cmd.lease
                (committed (t.clock 0) (journal_with e (t.clock 0) stamp c) c)).1)
      → Ends (Follows x boot_id (t.clock 0).instant) (accept t e cmd stamp o c)
  unfolding accept
  accept-Follows at t e cmd stamp (some g) c time f taken = record {
    end = Follows-later x boot_id at (t.clock 0).instant c time.later f;
  }
  accept-Follows at t e cmd stamp none c time f taken =
      let next = journal_with e (t.clock 0) stamp c in
      if-Ends (not (t.saves (length c.journal.records) next))
        (λ _. record {
          end =
              poisoned-Follows x boot_id (t.clock 0).instant c
                (Follows-later x boot_id at (t.clock 0).instant c time.later f);
        })
        (λ _.
          settled-Follows at t cmd
            (effect (t.clock 0) (operation_of cmd.operation) cmd.lease
              (committed (t.clock 0) next c))
            time (taken refl))

  execute_at-Follows :
      (at : ℕ) (t : Turn) (e : Envelope) (cmd : Command) (o : Option BootStamp) (c : Controller)
      → Decodes x
      → Timely at t
      → Clocked x boot_id t e c
      → t.boot ≡ o
      → verify_envelope x c.node c.key e ≡ some cmd
      → Follows x boot_id at c
      → Ends (Follows x boot_id (t.clock 0).instant) (execute_at t e cmd o c)
  unfolding execute_at
  execute_at-Follows at t e cmd none c dec time by b ver f = record {
    end = Follows-later x boot_id at (t.clock 0).instant c time.later f;
  }
  execute_at-Follows at t e cmd (some stamp) c dec time by b ver f =
      let m = t.clock 0 in
      let late = Follows-later x boot_id at m.instant c time.later f in
      if-Ends (bad_stamp stamp) (λ h. record { end = late })
        (λ good.
          if-Ends
            (not (cmd.sequence == suc (length c.journal.records))
              || ltb_ℤ m.unix (sub64 cmd.issued_at (pos 5))
              || leb_ℤ cmd.not_after m.unix)
            (λ h. record { end = late })
            (λ ordered.
              if-Ends (rolled_back m stamp cmd (last c.journal.records) c)
                (λ h. record { end = late })
                (λ forward.
                  let (wall, ahead) =
                    order_kept m stamp cmd (last c.journal.records) c f.previous f.latest forward
                      good by.after_epoch in
                  let seq : cmd.sequence == suc (length c.journal.records) ≡ true = ground arith in
                  let q4 : ltb_ℤ m.unix (sub64 cmd.issued_at (pos 5)) ≡ false = ground arith in
                  let q5 : leb_ℤ cmd.not_after m.unix ≡ false = ground arith in
                  accept-Follows at t e cmd stamp
                    (command_error m (operation_of cmd.operation) cmd.lease c) c time f
                    (effect-Follows x boot_id at (operation_of cmd.operation) cmd e m stamp c f dec
                      time.later (by.boots stamp b) ver refl
                      (in_order (suc (length c.journal.records)) cmd e m stamp c f.pending
                        f.previous seq q4 q5 wall good ahead)
                      (λ op nh old h.
                        by.over (view c f.pending f.previous) cmd stamp old f.scanned ver op seq b
                          nh h)))))

  command-Follows :
      (at : ℕ) (t : Turn) (e : Envelope) (o : Option Command) (c : Controller)
      → Decodes x
      → Timely at t
      → Clocked x boot_id t e c
      → verify_envelope x c.node c.key e ≡ o
      → Follows x boot_id at c
      → Ends (Follows x boot_id (t.clock 0).instant) (execute_command x t e o c)
  unfolding execute_command
  command-Follows at t e none c dec time by ver f = record {
    end = Follows-later x boot_id at (t.clock 0).instant c time.later f;
  }
  command-Follows at t e (some cmd) c dec time by ver f =
      if-Ends (leb cmd.sequence (length c.journal.records))
        (λ _. record { end = Follows-later x boot_id at (t.clock 0).instant c time.later f })
        (λ _. execute_at-Follows at t e cmd t.boot c dec time by refl ver f)

  execute-Ends :
      (at : ℕ) (t : Turn) (e : Envelope) (c : Controller)
      → Decodes x
      → Timely at t
      → Clocked x boot_id t e c
      → Follows x boot_id at c
      → Ends (Follows x boot_id (t.clock 0).instant) (execute x t e c)
  unfolding execute
  execute-Ends at t e c dec time by f =
      if-Ends c.poisoned
        (λ _. record { end = Follows-later x boot_id at (t.clock 0).instant c time.later f })
        (λ _. command-Follows at t e (verify_envelope x c.node c.key e) c dec time by refl f)

  pub execute-Follows :
      (at : ℕ) (t : Turn) (e : Envelope) (c : Controller)
      → Decodes x
      → Timely at t
      → Clocked x boot_id t e c
      → Follows x boot_id at c
      → Follows x boot_id (t.clock 0).instant (execute x t e c).1
  execute-Follows at t e c dec time by f = (execute-Ends at t e c dec time by f).end
