-- ===== src/Transfer/Session/Sealing.antt =====
-- `Seal` (counter_session.go): a sealed session has delivered its last counters, and what `Open`
-- asks of a sealed journal holds.
use v2b_x.Base.{
  ◌≡◌, refl, sym, ◌∙◌, ap, subst, ◌⊎◌, inl, inr, Bool, true, false, not, ◌&&◌, Option, none, some,
  List, [], ◌∷◌, Bytes, bytes_eq, All, arith, Bool-cases, if◌then◌else◌,
}
use v2b_x.Transfer.Types.{ok, Batch, Sample, SessionRecord, Journal, sample_eq_sound}
use v2b_x.Transfer.Samples.Sorting.{IsInt64}
use v2b_x.Transfer.Env.{Env, State, return, ◌>>=◌, ◌>>◌}
use v2b_x.Transfer.Contract.{Contract, total}
use v2b_x.Transfer.Delta.Growth.{Direction, amount}
use v2b_x.Transfer.Rules.{
  Post, done, failed, bind-Post, weaken-Post, guard-Post, post_ok, post_state,
}
use v2b_x.Transfer.Outbox.{save, flush, is_sealed}
use v2b_x.Transfer.Outbox.Delivery.{Inv, replay-Post}
use v2b_x.Transfer.Outbox.Flush.{flush-Post, flushed_total, total_of_idle}
use v2b_x.Transfer.Outbox.Quiet.{IsSettlement, save_other}
use v2b_x.Transfer.Session.{
  CounterSession, is_some, rows_eq, sealed_journal, flush_legacy_seal, flush_rows, seal_open,
  seal_known, seal,
}
use v2b_x.Transfer.Rows.{combined_rows}
use v2b_x.Transfer.Session.Safety.{IsQuietRun, snapshot-Post, quiesce_post, closed-Post}

sealed-IsSettlement : (j : Journal) → IsSettlement j (sealed_journal j)
unfolding sealed_journal
sealed-IsSettlement j = ground arith

sealed_pending : (j : Journal) → (sealed_journal j).pending ≡ j.pending
sealed_pending j = (sealed-IsSettlement j).pending

sealed_receipt : (j : Journal) → is_some (sealed_journal j).last_ack ≡ is_some j.last_ack
unfolding sealed_journal
sealed_receipt j = ground arith

pub rows_eq_sound : (as' bs : List Sample) → rows_eq as' bs ≡ true → as' ≡ bs
unfolding rows_eq
rows_eq_sound [] [] h = refl
rows_eq_sound (a ∷ as') (b ∷ bs) h = ground (arith, sample_eq_sound a b, rows_eq_sound as' bs)
rows_eq_sound [] (b ∷ bs) h = absurd (cc)
rows_eq_sound (a ∷ as') [] h = absurd (cc)

module _ {W T : Type 0} (env : Env W T) (ledger : W → List Batch) (c : Contract env ledger) where
  -- The rows are delivered: the ledger has all of their traffic, nothing is pending, there is a
  -- receipt, and the session is as it was.
  pub record HasDelivered (rows : List Sample) (before s : State W) : Type 0 where
    pub inv : Inv env ledger c s
    pub idle : s.box.state.pending ≡ none
    pub receipt : is_some s.box.state.last_ack ≡ true
    pub session : s.box.state.session ≡ before.box.state.session
    pub booked : (d : Direction) (k : Bytes) → total d k (ledger s.world) ≡ amount d k rows

  flush_delivered :
      (rows : List Sample) (s : State W)
      → All IsInt64 rows
      → Inv env ledger c s
      → Post (λ _. HasDelivered rows s) (Inv env ledger c) ((flush env rows >>= λ _. return tt) s)
  flush_delivered rows s range v = bind-Post (flush-Post env ledger c rows s range v) (λ a t f.
      done (record {
        inv = f.inv;
        idle = f.idle;
        receipt = let (x, _, e) = f.receipt in ap is_some e;
        session = f.session;
        booked = flushed_total env ledger c rows s t a f;
      }))

  legacy-Post :
      (rows : List Sample) (s : State W)
      → All IsInt64 rows
      → Inv env ledger c s
      → Post (λ _. HasDelivered rows s) (Inv env ledger c) (flush_legacy_seal env rows s)
  unfolding flush_legacy_seal
  legacy-Post rows s range v = bind-Post (replay-Post env ledger c s v) (λ a t d.
      elim (Bool-cases (is_some t.box.state.last_ack && rows_eq rows t.box.state.committed)) [
        | inl same ↦
            let e = rows_eq_sound rows t.box.state.committed (ground arith) in
            rw same (
              done (record {
                inv = d.inv;
                idle = d.idle;
                receipt = ground arith;
                session = d.session;
                booked =
                    λ x k. total_of_idle env ledger c t d.inv d.idle x k ∙ ap (amount x k) (sym e);
              }))
        | inr other ↦ rw other (
            weaken-Post (flush_delivered rows t range d.inv) (λ _ u f. record {
              inv = f.inv;
              idle = f.idle;
              receipt = f.receipt;
              session = f.session ∙ d.session;
              booked = f.booked;
            }))
      ])

  flush_rows-Post :
      (legacy : Bool) (rows : List Sample) (s : State W)
      → All IsInt64 rows
      → Inv env ledger c s
      → Post (λ _. HasDelivered rows s) (Inv env ledger c) (flush_rows env legacy rows s)
  unfolding flush_rows
  flush_rows-Post true rows s range v = legacy-Post rows s range v
  flush_rows-Post false rows s range v = flush_delivered rows s range v

  -- A sealed session: the rows of its snapshot are booked in full, nothing is pending, there is a
  -- receipt, and both the journal and the session are marked.
  pub record IsSealed (base : List Sample) (before : State W) (cs : CounterSession) (s : State W)
      : Type 0 where
    pub inv : Inv env ledger c s
    pub idle : s.box.state.pending ≡ none
    pub receipt : is_some s.box.state.last_ack ≡ true
    pub mark : is_sealed s.box.state.session ≡ true
    pub rows : List Sample
    pub raw : List Sample
    pub read : (env.snapshot before.world).1 ≡ some raw
    pub sums : combined_rows base raw ≡ ok rows
    pub booked : (d : Direction) (k : Bytes) → total d k (ledger s.world) ≡ amount d k rows

  sealed_mark :
      (j : Journal) → is_some j.session ≡ true → is_sealed (sealed_journal j).session ≡ true
  unfolding sealed_journal
  sealed_mark j h = ground arith

  save-IsSealed :
      (cs : CounterSession) (base raw rows : List Sample) (before s : State W)
      → (env.snapshot before.world).1 ≡ some raw
      → combined_rows base raw ≡ ok rows
      → HasDelivered rows s s
      → is_some s.box.state.session ≡ true
      → Post
          (IsSealed base before)
          (Inv env ledger c)
          ((save env (sealed_journal s.box.state) >> return cs) s)
  save-IsSealed cs base raw rows before s read sums h some_session =
      bind-Post
        (save_other env ledger c (sealed_journal s.box.state) s h.inv
          (sealed-IsSettlement s.box.state))
        (λ _ t u. done (record {
          inv = u.inv;
          idle = ap (λ j. j.pending) u.state ∙ sealed_pending s.box.state ∙ h.idle;
          receipt = ap (λ j. is_some j.last_ack) u.state ∙ sealed_receipt s.box.state ∙ h.receipt;
          mark = ap (λ j. is_sealed j.session) u.state ∙ sealed_mark s.box.state some_session;
          rows = rows;
          raw = raw;
          read = read;
          sums = sums;
          booked = λ d k. ap (total d k) u.books ∙ h.booked d k;
        }))

  still_delivered :
      (rows : List Sample) (s u u' w : State W)
      → HasDelivered rows s u
      → IsQuietRun env ledger c u u'
      → IsQuietRun env ledger c u' w
      → HasDelivered rows w w
  still_delivered rows s u u' w f q q' =
      let same = q'.box ∙ q.box in
      record {
        inv = q'.inv;
        idle = ap (λ b. b.state.pending) same ∙ f.idle;
        receipt = ap (λ b. is_some b.state.last_ack) same ∙ f.receipt;
        session = refl;
        booked = λ d k. ap (total d k) (q'.books ∙ q.books) ∙ f.booked d k;
      }

  seal_open-Post :
      (cs : CounterSession) (s : State W)
      → All IsInt64 cs.base
      → Inv env ledger c s
      → is_some s.box.state.session ≡ true
      → Post (IsSealed cs.base s) (Inv env ledger c) (seal_open env cs s)
  unfolding seal_open
  seal_open-Post cs s range v open_ =
      bind-Post (snapshot-Post env ledger c cs s range v) (λ rows t h.
        bind-Post (closed-Post env ledger c cs rows t h.run.inv) (λ _ t' q.
          bind-Post (flush_rows-Post t'.box.legacy rows t' h.inventory.range q.inv) (λ _ u f.
            bind-Post (snapshot-Post env ledger c cs u range f.inv) (λ after u' h'.
              bind-Post (closed-Post env ledger c cs after u' h'.run.inv) (λ _ w q'.
                guard-Post _ _ (rows_eq rows after) w q'.inv (λ same.
                  save-IsSealed (record cs { sealed = true }) cs.base h.raw rows s w h.read h.sums
                    (still_delivered rows t' u u' w f h'.run q')
                    (ap (λ b. is_some b.state.session) (q'.box ∙ h'.run.box)
                      ∙ ap is_some f.session
                      ∙ ap (λ b. is_some b.state.session) (q.box ∙ h.run.box)
                      ∙ open_)))))))

  record IsMarked (s : State W) : Type 0 where
    inv : Inv env ledger c s
    mark : is_sealed s.box.state.session ≡ true

  sealed_or_open :
      (cs : CounterSession) (r : SessionRecord) (s : State W)
      → All IsInt64 cs.base
      → Inv env ledger c s
      → s.box.state.session ≡ some r
      → (r.sealed ≡ true) ⊎ (r.sealed ≡ false)
      → Post
          (λ _. IsMarked)
          (Inv env ledger c)
          ((if r.sealed then return cs else seal_open env cs) s)
  sealed_or_open cs r s range v e (inl old) =
      subst
        (λ b.
          Post (λ _. IsMarked) (Inv env ledger c) ((if b then return cs else seal_open env cs) s))
        (sym old) (done (record { inv = v; mark = ap is_sealed e ∙ old }))
  sealed_or_open cs r s range v e (inr new) =
      subst
        (λ b.
          Post (λ _. IsMarked) (Inv env ledger c) ((if b then return cs else seal_open env cs) s))
        (sym new)
        (weaken-Post (seal_open-Post cs s range v (ap is_some e))
          (λ _ t h. record { inv = h.inv; mark = h.mark }))

  seal_known-Post :
      (cs : CounterSession) (o : Option SessionRecord) (s : State W)
      → All IsInt64 cs.base
      → Inv env ledger c s
      → s.box.state.session ≡ o
      → Post (λ _. IsMarked) (Inv env ledger c) (seal_known env cs o s)
  unfolding seal_known
  seal_known-Post cs none s range v e = failed v
  seal_known-Post cs (some r) s range v e =
      guard-Post _ _ (bytes_eq r.process cs.process) s v
        (λ mine. sealed_or_open cs r s range v e (Bool-cases r.sealed))

  seal-Post :
      (cs : CounterSession) (s : State W)
      → All IsInt64 cs.base
      → Inv env ledger c s
      → Post (λ _. IsMarked) (Inv env ledger c) (seal env cs s)
  unfolding seal
  seal-Post cs s range v = bind-Post (quiesce_post env ledger c cs s v) (λ _ t u.
      guard-Post _ _ (not t.box.poisoned) t u
        (λ healthy. seal_known-Post cs t.box.state.session t range u refl))

  pub seal-Inv :
      (cs : CounterSession) (s : State W)
      → All IsInt64 cs.base
      → Inv env ledger c s
      → Inv env ledger c (seal env cs s).1
  seal-Inv cs s range v = post_state (seal-Post cs s range v) (λ _ t h. h.inv)

  -- Behind a successful `Seal` the journal's session is marked as sealed.
  pub seal_marks :
      (cs cs' : CounterSession) (s : State W)
      → All IsInt64 cs.base
      → Inv env ledger c s
      → (seal env cs s).0 ≡ ok cs'
      → is_sealed (seal env cs s).1.box.state.session ≡ true
  seal_marks cs cs' s range v h = (post_ok (seal-Post cs s range v) h).mark
