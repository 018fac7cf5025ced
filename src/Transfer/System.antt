-- ===== src/Transfer/System.antt =====
-- A node and its receiver over any run: operations of the outbox, traffic that goes on, crashes
-- between them, and restarts by `Open`. A crash within an operation leaves what the same operation
-- leaves whose next call fails, in a world in which it fails.
use v2b_x.Base.{◌≡◌, ◌⊎◌, inl, inr, Bool, some, List, [], Bytes, All, Bool-cases}
use v2b_x.Transfer.Types.{Error, ok, err, Sample, Batch, DrainRequest, PendingBatch}
use v2b_x.Transfer.Samples.Sorting.{IsInt64}
use v2b_x.Transfer.Delta.Growth.{Direction, amount}
use v2b_x.Transfer.Env.{Env, State}
use v2b_x.Transfer.Contract.{Contract, has_sequence, total}
use v2b_x.Transfer.Rules.{post_state, post_ok, post_err}
use v2b_x.Transfer.Outbox.{replay, flush}
use v2b_x.Transfer.Outbox.Delivery.{Inv, replay-Post}
use v2b_x.Transfer.Outbox.Flush.{flush-Post}
use v2b_x.Transfer.Outbox.Quiet.{quiet}
use v2b_x.Transfer.Reservation.{probe_ready}
use v2b_x.Transfer.Drain.{drain, restore_fences}
use v2b_x.Transfer.Drain.Safety.{probe_ready_post, restore_fences_post}
use v2b_x.Transfer.Drain.Proofs.{drain-Post}
use v2b_x.Transfer.Session.{CounterSession, begin_counter_session, seal}
use v2b_x.Transfer.Session.Safety.{begin-Post}
use v2b_x.Transfer.Session.Sealing.{seal-Inv}
use v2b_x.Transfer.Open.{open_box, blank}
use v2b_x.Transfer.Open.Recovery.{OnDisk, Inv-OnDisk, open-Post}

-- A running process with its memory, or a stopped one of which the world is left.
pub data Node (W : Type 0) : Type 0 where
  up : State W → Node W
  down : W → Node W

module _ {W T : Type 0} (env : Env W T) (ledger : W → List Batch) where
  pub data Step : Node W → Node W → Type 0 where
    flushes :
        (s : State W) (totals : List Sample)
        → All IsInt64 totals
        → Step (up s) (up (flush env totals s).1)
    replays : (s : State W) → Step (up s) (up (replay env s).1)
    drains : (s : State W) (r : DrainRequest) → Step (up s) (up (drain env r s).1)
    probes : (s : State W) (r : DrainRequest) → Step (up s) (up (probe_ready env r s).1)
    restores : (s : State W) → Step (up s) (up (restore_fences env s).1)
    begins :
        (s : State W) (process : Bytes) (again : Bool)
        → Step (up s) (up (begin_counter_session env process again s).1)
    seals :
        (s : State W) (cs : CounterSession)
        → All IsInt64 cs.base
        → Step (up s) (up (seal env cs s).1)
    -- the proxy serves traffic
    serves :
        (s : State W) (w : W)
        → env.load w ≡ env.load s.world
        → ledger w ≡ ledger s.world
        → Step (up s) (up (record s { world = w }))
    crashes : (s : State W) → Step (up s) (down s.world)
    starts :
        (w : W) (scope epoch : Bytes)
        → (open_box env scope epoch (blank env w)).0 ≡ ok tt
        → Step (down w) (up (open_box env scope epoch (blank env w)).1)
    refuses :
        (w : W) (scope epoch : Bytes) (e : Error)
        → (open_box env scope epoch (blank env w)).0 ≡ err e
        → Step (down w) (down (open_box env scope epoch (blank env w)).1.world)

  -- Runs from an installed node: the store is empty, and the receiver has booked nothing.
  pub data Reach (w : W) : Node W → Type 0 where
    installed : Reach w (down w)
    next : {n m : Node W} → Reach w n → Step n m → Reach w m

  module _ (c : Contract env ledger) where
    abbrev pub NodeInv : Node W → Type 0
    NodeInv (up s) = Inv env ledger c s
    NodeInv (down w) = OnDisk env ledger c w

    Step-NodeInv : {n m : Node W} → Step n m → NodeInv n → NodeInv m
    Step-NodeInv (flushes s totals r) v =
        post_state (flush-Post env ledger c totals s r v) (λ _ t h. h.inv)
    Step-NodeInv (replays s) v = post_state (replay-Post env ledger c s v) (λ _ t h. h.inv)
    Step-NodeInv (drains s r) v = post_state (drain-Post env ledger c r s v) (λ _ t h. h.inv)
    Step-NodeInv (probes s r) v = post_state (probe_ready_post env ledger c r s v) (λ _ t h. h)
    Step-NodeInv (restores s) v = post_state (restore_fences_post env ledger c s v) (λ _ t h. h)
    Step-NodeInv (begins s process again) v =
        post_state (begin-Post env ledger c process again s v) (λ _ t h. h.inv)
    Step-NodeInv (seals s cs r) v = seal-Inv env ledger c cs s r v
    Step-NodeInv (serves s w d b) v = quiet env ledger c s w d b v
    Step-NodeInv (crashes s) v = Inv-OnDisk env ledger c s v
    Step-NodeInv (starts w scope epoch e) v = post_ok (open-Post env ledger c scope epoch w v) e
    Step-NodeInv (refuses w scope epoch x e) v = post_err (open-Post env ledger c scope epoch w v) e

    reached :
        {w : W} {n : Node W}
        → (t : T) × (env.load w ≡ some t) × (env.size t ≡ 0) × (ledger w ≡ [])
        → Reach w n
        → NodeInv n
    reached (t, e, z, b) installed = OnDisk.empty t e z b
    reached h (next r st) = Step-NodeInv st (reached h r)

    -- From an empty store and an empty ledger, every state that any run reaches keeps the invariant:
    -- a running node's journal agrees with the ledger and, unless a write failed, is what the disk
    -- holds; behind a failed write or a crash the disk holds a journal that agrees with the ledger, or
    -- nothing that can be read, or the empty store beside the empty ledger.
    pub Reach-NodeInv :
        (w : W) (n : Node W) (t : T)
        → env.load w ≡ some t
        → env.size t ≡ 0
        → ledger w ≡ []
        → Reach w n
        → NodeInv n
    Reach-NodeInv w n t e z b r = reached (t, e, z, b) r

    -- In every run, through failed writes, lost acknowledgements, crashes and restarts, the ledger of
    -- a running node has for each key either exactly the committed counters of its journal, or
    -- exactly the counters behind its pending batch: nothing is booked twice and nothing is lost.
    pub exactly_once :
        (w : W) (t : T) (s : State W)
        → env.load w ≡ some t
        → env.size t ≡ 0
        → ledger w ≡ []
        → Reach w (up s)
        → ((d : Direction) (k : Bytes)
            → total d k (ledger s.world) ≡ amount d k s.box.state.committed)
          ⊎ ((p : PendingBatch) × (s.box.state.pending ≡ some p)
              × ((d : Direction) (k : Bytes) → total d k (ledger s.world) ≡ amount d k p.through))
    exactly_once w t s e z b r =
        let v = (Reach-NodeInv w (up s) t e z b r).settled in
        elim (Bool-cases (has_sequence s.box.state.next (ledger s.world))) [
          | inl booked ↦ inr (v.after booked)
          | inr fresh ↦ inl (v.before fresh)
        ]
