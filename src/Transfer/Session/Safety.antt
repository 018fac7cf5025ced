-- ===== src/Transfer/Session/Safety.antt =====
-- The operations of counter_session.go keep the outbox's invariant; what a new session carries over
-- and what a sealed one has delivered.
use v2b_x.Base.{
  some, ◌≡◌, refl, ◌∙◌, Bool, not, ◌&&◌, List, [], ◌∷◌, Bytes, bytes_eq, All, length, ◌==◌, map,
}
use v2b_x.Text.{valid_hex}
use v2b_x.Transfer.Types.{Result, ok, err, Batch, Sample, identity_eq}
use v2b_x.Transfer.Samples.Sorting.{IsInt64, IsInventory}
use v2b_x.Transfer.Env.{Env, State}
use v2b_x.Transfer.Contract.{Contract}
use v2b_x.Transfer.Rules.{
  Post, done, failed, bind-Post, call-Post, ask-Post, weaken-Post, guard-Post, pure-Post,
}
use v2b_x.Transfer.Outbox.Delivery.{Inv}
use v2b_x.Transfer.Outbox.Quiet.{
  fence_Inv, inspect_Inv, snapshot_Inv, quiesce_Inv, restore_Inv, save_other,
}
use v2b_x.Transfer.Drain.Safety.{fence_all_post}
use v2b_x.Transfer.Drain.Rules.{accept-Post}
use v2b_x.Transfer.Rows.{combined_rows}
use v2b_x.Transfer.Session.Range.{combined_rows-IsInventory}
use v2b_x.Transfer.Session.{
  CounterSession, identity_of, begin_error, next_recovery, session_journal, begin_counter_session,
  is_closed, snapshot, fence_base, quiesce, closed,
}

module _ {W T : Type 0} (env : Env W T) (ledger : W → List Batch) (c : Contract env ledger) where
  abbrev pub Ok : {A : Type 0} → Result A × State W → Type 0
  Ok = Post (λ _. Inv env ledger c) (Inv env ledger c)

  -- A new session carries an inventory over.
  pub record IsBegun (cs : CounterSession) (s : State W) : Type 0 where
    pub inv : Inv env ledger c s
    pub base : IsInventory cs.base

  pub begin-Post :
      (process : Bytes) (again : Bool) (s : State W)
      → Inv env ledger c s
      → Post IsBegun (Inv env ledger c) (begin_counter_session env process again s)
  unfolding begin_counter_session
  begin-Post process again s v =
      let s' : State W = record s { world = (env.snapshot s.world).0 } in
      let v' = snapshot_Inv env ledger c s v in
      guard-Post _ _ (valid_hex process 16) s v (λ valid.
        ask-Post _ s (env.snapshot s.world) v' (λ raw _.
          guard-Post _ _ (length raw == 0) s' v' (λ new.
            guard-Post _ _ (not s.box.poisoned) s' v' (λ healthy.
              accept-Post _ (begin_error s.box.state process again) s' v' (λ fine.
                pure-Post _ (next_recovery s.box.state again (env.now s'.world)) s' v'
                  (λ recovery _.
                    bind-Post
                      (save_other env ledger c (session_journal s.box.state process recovery) s' v'
                        (unfold session_journal in
                          record { committed = refl; pending = refl; next = refl }))
                      (λ _ t u.
                        let is = map identity_of s.box.state.committed in
                        let vt = restore_Inv env ledger c is t u.inv in
                        call-Post _ t (env.restore is t.world) vt (
                          bind-Post (fence_all_post env ledger c _ _ vt) (λ _ w vw.
                            done (record { inv = vw; base = v.settled.inventory }))))))))))

  -- Neither the outbox nor the ledger changed.
  pub record IsQuietRun (before s : State W) : Type 0 where
    pub inv : Inv env ledger c s
    pub box : s.box ≡ before.box
    pub books : ledger s.world ≡ ledger before.world

  -- A session's rows are an inventory, which the base and the adapter's counters make up.
  pub record HasRows (base : List Sample) (before : State W) (rows : List Sample) (s : State W)
      : Type 0 where
    pub raw : List Sample
    pub read : (env.snapshot before.world).1 ≡ some raw
    pub sums : combined_rows base raw ≡ ok rows
    pub run : IsQuietRun before s
    pub inventory : IsInventory rows

  pub snapshot-Post :
      (cs : CounterSession) (s : State W)
      → All IsInt64 cs.base
      → Inv env ledger c s
      → Post (HasRows cs.base s) (Inv env ledger c) (snapshot env cs s)
  unfolding snapshot
  snapshot-Post cs s range v =
      let v' = snapshot_Inv env ledger c s v in
      guard-Post _ _ (not cs.sealed) s v (λ open_.
        ask-Post _ s (env.snapshot s.world) v' (λ raw read.
          from_pure raw (combined_rows cs.base raw) read refl
            (record { inv = v'; box = refl; books = c.snapshot_books s.world })))
    where
      from_pure :
          (raw : List Sample) (r : Result (List Sample)) {t : State W}
          → (env.snapshot s.world).1 ≡ some raw
          → combined_rows cs.base raw ≡ r
          → IsQuietRun s t
          → Post (HasRows cs.base s) (Inv env ledger c) (r, t)
      from_pure raw (ok a) read e u = done (record {
        raw = raw;
        read = read;
        sums = e;
        run = u;
        inventory = combined_rows-IsInventory cs.base raw a range e;
      })
      from_pure raw (err x) read e u = failed u.inv

  fence_base_post :
      (base : List Sample) (s : State W) → Inv env ledger c s → Ok (fence_base env base s)
  unfolding fence_base
  fence_base_post [] s v = done v
  fence_base_post (b ∷ rest) s v = guard-Post _ _ (not (env.expired s.world)) s v (λ alive_.
      let v' = fence_Inv env ledger c (identity_of b) s v in
      call-Post _ s (env.fence (identity_of b) s.world) v' (fence_base_post rest _ v'))

  pub quiesce_post :
      (cs : CounterSession) (s : State W) → Inv env ledger c s → Ok (quiesce env cs s)
  unfolding quiesce
  quiesce_post cs s v =
      call-Post _ s (env.quiesce s.world) (quiesce_Inv env ledger c s v)
        (fence_base_post cs.base _ (quiesce_Inv env ledger c s v))

  pub closed-Post :
      (cs : CounterSession) (rows : List Sample) (s : State W)
      → Inv env ledger c s
      → Post (λ _. IsQuietRun s) (Inv env ledger c) (closed env cs rows s)
  unfolding closed
  closed-Post cs [] s v = done (record { inv = v; box = refl; books = refl })
  closed-Post cs (r ∷ rest) s v =
      let v' = inspect_Inv env ledger c (identity_of r) s v in
      ask-Post _ s (env.inspect (identity_of r) s.world) v' (λ st _.
        guard-Post _ _ (bytes_eq st.epoch cs.epoch && identity_eq st.identity (identity_of r)) _ v'
          (λ mine. guard-Post _ _ (is_closed st) _ v' (λ shut.
            weaken-Post (closed-Post cs rest _ v') (λ _ t u. record {
              inv = u.inv;
              box = u.box;
              books = u.books ∙ c.inspect_books (identity_of r) s.world;
            }))))
