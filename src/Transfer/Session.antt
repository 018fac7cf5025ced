-- ===== src/Transfer/Session.antt =====
-- counter_session.go: counters that restart with the process, over a base that the journal carries.
pub mod Range
pub mod Amounts
pub mod Safety
pub mod Sealing
use v2b_x.Base.{
  ℕ, ◌+◌, ◌≡◌, Bool, true, false, ◌&&◌, ◌||◌, not, Option, none, some, List, [], ◌∷◌, map, ltb, leb,
  ◌==◌, length, if◌then◌else◌, Bytes, bytes_eq, Assoc, get, put, del,
}
use v2b_x.Base.Int.{ℤ, pos, ltb_ℤ, eqb_ℤ, add64, sub64, max_int64}
use v2b_x.Text.{valid_hex}
use v2b_x.Transfer.Types.{
  Error, external, epoch, uncertain, pending, coverage, unsealed, counter_overflow, Result, ok, err,
  Sample, sample_eq, Ack, Identity, identity_eq, FenceStatus, SessionRecord, UncleanRecovery,
  Journal, bytes_key,
}
use v2b_x.Transfer.Samples.{key, samples}
use v2b_x.Transfer.Delta.{delta, by_key, or_zero}
use v2b_x.Transfer.Env.{
  Env, Outbox, State, Action, ◌>>=◌, ◌>>◌, return, fail, pure, guard, box_of, call, ask,
}
use v2b_x.Transfer.Outbox.{save, flush, replay, is_sealed, max_sequence}
use v2b_x.Transfer.Reservation.{drain_identities}
use v2b_x.Transfer.Drain.{fence_all, accept}
use v2b_x.Transfer.Rows.{combined_rows}

-- `CounterSession`; `inner` is the adapter and `box` the outbox of the action. `sealed` is the
-- session's own flag.
pub record CounterSession : Type 0 where
  pub base : List Sample
  pub process : Bytes
  pub epoch : Bytes
  pub sealed : Bool
  pub uncertain : Bool

abbrev pub identity_of : Sample → Identity
identity_of s = record { uid = s.uid; credential = s.credential }

abbrev pub recovery_of : Option SessionRecord → Option UncleanRecovery
recovery_of none = none
recovery_of (some r) = r.recovery

abbrev pub is_some : {A : Type 0} → Option A → Bool
is_some none = false
is_some (some _) = true

-- The tests of `beginCounterSession` on the journal: `none` lets it go on.
unfoldable pub begin_error : Journal → Bytes → Bool → Option Error
begin_error j process again = elim j.session [
  | some old ↦
      if again && old.sealed
      then some epoch
      else if bytes_eq old.process process || is_some j.pending
      then some epoch
      else if not old.sealed && not again
      then some unsealed
      else none
  | none ↦
      if again
      then some epoch
      else if not (j.next == 1)
          || not (length j.committed == 0)
          || is_some j.pending
          || not (length j.drains == 0)
          || not (length j.reservations == 0)
      then some epoch
      else none
]

abbrev pub process_of : Option SessionRecord → Bytes
process_of none = []
process_of (some r) = r.process

abbrev pub or_first : ℤ → Option UncleanRecovery → UncleanRecovery
or_first now none = record { count = 0; since = now; previous_process = [] }
or_first now (some r) = r

-- The recovery record of the new session: counted once more behind an unclean stop.
unfoldable pub next_recovery : Journal → Bool → ℤ → Result (Option UncleanRecovery)
next_recovery j again now =
    if again
    then (let r = or_first now (recovery_of j.session) in
        if leb max_sequence r.count
        then err epoch
        else ok (some (record r { count = r.count + 1; previous_process = process_of j.session })))
    else ok (recovery_of j.session)

-- `time.Now().Unix()` as an action.
abbrev pub now_of : {W T : Type 0} → Env W T → Action W ℤ
now_of env s = (ok (env.now s.world), s)

unfoldable pub session_journal : Journal → Bytes → Option UncleanRecovery → Journal
session_journal j process recovery = record j {
  session =
      some (record { process = process; base = j.committed; sealed = false; recovery = recovery });
}

unfoldable pub is_closed : FenceStatus → Bool
is_closed st = not (
    not st.tracking_ready
    || not st.reject_new
    || ltb_ℤ st.bindings (pos 1)
    || not (eqb_ℤ st.outstanding (pos 0)))

-- Two inventories of one length with the same rows.
unfoldable pub rows_eq : List Sample → List Sample → Bool
rows_eq [] [] = true
rows_eq (a ∷ as') (b ∷ bs) = sample_eq a b && rows_eq as' bs
rows_eq [] (b ∷ bs) = false
rows_eq (a ∷ as') [] = false

-- `state.Session.Sealed = true`
unfoldable pub sealed_journal : Journal → Journal
sealed_journal j = elim j.session [
  | none ↦ j
  | some r ↦ record j { session = some (record r { sealed = true }) }
]

module _ {W T : Type 0} (env : Env W T) where
  unfoldable pub begin_counter_session : Bytes → Bool → Action W CounterSession
  unfolding begin_error next_recovery session_journal
  begin_counter_session process again = do
    guard (valid_hex process 16) coverage
    raw ← ask env.snapshot
    guard (length raw == 0) coverage
    box ← box_of
    guard (not box.poisoned) uncertain
    accept (begin_error box.state process again)
    now ← now_of env
    recovery ← pure (next_recovery box.state again now)
    save env (session_journal box.state process recovery)
    call (env.restore (map identity_of box.state.committed))
    fence_all env (drain_identities box.state.drains)
    return (record {
      base = box.state.committed;
      process = process;
      epoch = box.state.epoch;
      sealed = false;
      uncertain = is_some recovery;
    })

  -- `if err := ctx.Err(); err != nil { return err }`
  abbrev pub alive : Action W (Unit {0})
  alive s = guard (not (env.expired s.world)) external s

  unfoldable pub snapshot : CounterSession → Action W (List Sample)
  snapshot cs = do
    guard (not cs.sealed) epoch
    raw ← ask env.snapshot
    pure (combined_rows cs.base raw)

  -- `Inspect`: an identity of another generation is refused, and a session behind an unclean stop is
  -- never ready.
  unfoldable pub inspect : CounterSession → Identity → Action W FenceStatus
  inspect cs i = do
    st ← ask (env.inspect i)
    guard (bytes_eq st.epoch cs.epoch && identity_eq st.identity i) coverage
    return (if cs.uncertain then record st { tracking_ready = false } else st)

  -- The loop of `Quiesce` over the base.
  unfoldable pub fence_base : List Sample → Action W (Unit {0})
  fence_base [] = return tt
  fence_base (b ∷ rest) = do alive; call (env.fence (identity_of b)); fence_base rest

  unfoldable pub quiesce : CounterSession → Action W (Unit {0})
  unfolding fence_base
  quiesce cs = do call env.quiesce; fence_base cs.base

  -- `closed`: every row's identity is tracked, fenced and has no connection left.
  unfoldable pub closed : CounterSession → List Sample → Action W (Unit {0})
  closed cs [] = return tt
  closed cs (r ∷ rest) = do
    st ← ask (env.inspect (identity_of r))
    guard (bytes_eq st.epoch cs.epoch && identity_eq st.identity (identity_of r)) coverage
    guard (is_closed st) pending
    closed cs rest

  -- `flushLegacySeal` (legacy.go): what is already acknowledged is not sent again.
  unfoldable pub flush_legacy_seal : List Sample → Action W (Unit {0})
  flush_legacy_seal rows = do
    _ ← replay env
    box ← box_of
    if is_some box.state.last_ack && rows_eq rows box.state.committed
        then return tt
        else (do _ ← flush env rows; return tt)

  unfoldable pub flush_rows : Bool → List Sample → Action W (Unit {0})
  unfolding flush_legacy_seal
  flush_rows true rows = flush_legacy_seal rows
  flush_rows false rows = do _ ← flush env rows; return tt

  -- `Seal` behind the tests of the journal, on a session that is not sealed yet.
  unfoldable pub seal_open : CounterSession → Action W CounterSession
  seal_open cs = do
    rows ← snapshot cs
    closed cs rows
    box ← box_of
    flush_rows box.legacy rows
    after ← snapshot cs
    closed cs after
    guard (rows_eq rows after) pending
    box ← box_of
    save env (sealed_journal box.state)
    return (record cs { sealed = true })

  -- The session of the journal is this process's; a sealed one is left as it is.
  unfoldable pub seal_known : CounterSession → Option SessionRecord → Action W CounterSession
  unfolding seal_open
  seal_known cs none = fail epoch
  seal_known cs (some r) = do
    guard (bytes_eq r.process cs.process) epoch
    if r.sealed then return cs else seal_open cs

  unfoldable pub seal : CounterSession → Action W CounterSession
  unfolding seal_known
  seal cs = do
    quiesce cs
    box ← box_of
    guard (not box.poisoned) uncertain
    seal_known cs box.state.session
