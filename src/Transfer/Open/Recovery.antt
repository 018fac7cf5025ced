-- ===== src/Transfer/Open/Recovery.antt =====
-- `Open` behind a crash: whatever the outbox and the store left on disk, the reopened outbox agrees
-- with the receiver's ledger.
use v2b_x.Base.{
  ◌≡◌, refl, sym, ◌∙◌, ap, subst, ◌⊎◌, inl, inr, Bool, true, false, ◌&&◌, Option, none, some, List,
  [], Bytes, ◌==◌, leb, ltb, arith, if◌then◌else◌,
}
use v2b_x.Transfer.Types.{ok, Batch, Journal}
use v2b_x.Transfer.Env.{Env, State, Decoded, continue}
use v2b_x.Text.{valid_hex}
use v2b_x.Transfer.Contract.{Contract, plain}
use v2b_x.Transfer.Rules.{Post, done, failed, guard-Post, pure-Post, if_Post, post_ok}
use v2b_x.Transfer.Outbox.{stored, save, max_journal}
use v2b_x.Transfer.Outbox.Ledger.{Settles}
use v2b_x.Transfer.Outbox.Delivery.{Inv}
use v2b_x.Transfer.Open.{
  matches_scope, first_journal, loaded, decoded, validate, take_up, open_box, blank, adopt,
}

module _ {W T : Type 0} (env : Env W T) (ledger : W → List Batch) (c : Contract env ledger) where
  -- Nothing can be read; or the store is empty and so is the ledger; or there is a journal that
  -- agrees with the ledger.
  pub data OnDisk (w : W) : Type 0 where
    unreadable : env.load w ≡ none → OnDisk w
    empty : (t : T) → env.load w ≡ some t → env.size t ≡ 0 → ledger w ≡ [] → OnDisk w
    settled : (j : Journal) → env.load w ≡ some (env.marshal j) → Settles j (ledger w) → OnDisk w

  -- What a stopped process leaves.
  pub Inv-OnDisk : (s : State W) → Inv env ledger c s → OnDisk s.world
  Inv-OnDisk s v = elim v.disk [
    | inl h ↦ settled s.box.state h.1 v.settled
    | inr (bad, inl gone) ↦ unreadable gone
    | inr (bad, inr (j, e, t)) ↦ settled j e t
  ]

  first_Settles : (scope current : Bytes) → Settles (first_journal env scope current) []
  unfolding first_journal
  first_Settles scope current = record {
    inventory = record { counters = tt; ascending = tt; range = tt };
    small = omega arith;
    bounded = tt;
    sent = λ p h. absurd (cc);
    before = λ h d k. refl;
    after = λ h. absurd (cc);
  }

  first_stored :
      (j : Journal) (t : T) (w : W) (r : W × Bool)
      → env.load w ≡ some t
      → env.size t ≡ 0
      → ledger r.0 ≡ []
      → Settles j []
      → (r.1 ≡ true → env.load r.0 ≡ some (env.marshal j))
      → (r.1 ≡ false
          → (env.load r.0 ≡ env.load w)
            ⊎ (env.load r.0 ≡ some (env.marshal j))
            ⊎ (env.load r.0 ≡ none))
      → Post (λ _. Inv env ledger c) (λ s. OnDisk s.world) (stored env j (blank env w) r)
  unfolding stored
  first_stored j t w (u, true) e small books new read lost =
      done (record { settled = rw books new; disk = inl (refl, read refl) })
  first_stored j t w (u, false) e small books new read lost = failed (elim (lost refl) [
    | inl same ↦ empty t (same ∙ e) small books
    | inr (inl written) ↦ settled j written (rw books new)
    | inr (inr gone) ↦ unreadable gone
  ])

  -- `save` of the first journal on an empty store.
  first-Post :
      (scope current : Bytes) (t : T) (w : W)
      → env.load w ≡ some t
      → env.size t ≡ 0
      → ledger w ≡ []
      → Post
          (λ _. Inv env ledger c)
          (λ s. OnDisk s.world)
          (save env (first_journal env scope current) (blank env w))
  unfolding save
  first-Post scope current t w e small none_yet =
      if_Post (ltb max_journal (env.size (env.marshal (first_journal env scope current)))) _ _
        (λ large. failed (empty t e small none_yet))
        (λ fits.
          first_stored (first_journal env scope current) t w _ e small
            (c.store_books _ w ∙ none_yet) (first_Settles scope current) (c.store_done _ w)
            (c.store_failed _ w))

  decoded_plain :
      (j : Journal) (d : Decoded) → decoded (env.unmarshal (env.marshal j)) ≡ ok d → d.journal ≡ j
  decoded_plain j d h =
      let e : ok (plain j) ≡ ok d = ap decoded (sym (c.unmarshal-marshal j)) ∙ h in
      let f : plain j ≡ d = cc in ap (λ x. x.journal) (sym f)

  adopted :
      (j : Journal) (d : Decoded) (w : W)
      → env.load w ≡ some (env.marshal j)
      → Settles j (ledger w)
      → d.journal ≡ j
      → Post (λ _. Inv env ledger c) (λ s. OnDisk s.world) (adopt env d.journal (blank env w))
  adopted j d w e s same = done (record {
    settled = rw same s;
    disk = inl (refl, e ∙ ap (λ k. some (env.marshal k)) (sym same));
  })

  take_up-Post :
      (scope current : Bytes) (j : Journal) (w : W)
      → env.load w ≡ some (env.marshal j)
      → Settles j (ledger w)
      → Post
          (λ _. Inv env ledger c)
          (λ s. OnDisk s.world)
          (take_up env scope current (env.marshal j) (blank env w))
  unfolding take_up
  take_up-Post scope current j w e s =
      guard-Post _ _ (leb (env.size (env.marshal j)) max_journal) (blank env w) (settled j e s)
        (λ fits.
          pure-Post _ (decoded (env.unmarshal (env.marshal j))) (blank env w) (settled j e s)
            (λ d read.
              pure-Post _ (validate env scope current d) (blank env w) (settled j e s)
                (λ _ valid. adopted j d w e s (decoded_plain j d read))))

  -- `Open` behind a successful `Load`.
  opened :
      (scope current : Bytes) (w : W) (t : T)
      → env.load w ≡ some t
      → OnDisk w
      → Post
          (λ _. Inv env ledger c)
          (λ s. OnDisk s.world)
          ((if env.size t == 0
              then save env (first_journal env scope current)
              else take_up env scope current t)
            (blank env w))
  opened scope current w t e (unreadable gone) = absurd (cc)
  opened scope current w t e (empty t' e' small none_yet) =
      let same : t' ≡ t = cc in
      let zero_size : (env.size t == 0) ≡ true = ground (arith, ap env.size same) in
      rw zero_size (first-Post scope current t w e (sym (ap env.size same) ∙ small) none_yet)
  opened scope current w t e (settled j e' s) =
      let same : env.marshal j ≡ t = cc in
      let some_size : (env.size t == 0) ≡ false =
        ground (arith, ap env.size same, c.marshal_size j) in
      rw some_size (
        subst
          (λ x.
            Post (λ _. Inv env ledger c) (λ s. OnDisk s.world)
              (take_up env scope current x (blank env w)))
          same (take_up-Post scope current j w e' s))

  loaded-Post :
      (scope current : Bytes) (w : W) (o : Option T)
      → env.load w ≡ o
      → OnDisk w
      → Post
          (λ _. Inv env ledger c)
          (λ s. OnDisk s.world)
          (continue (loaded (blank env w) o) (λ t.
            if env.size t == 0
            then save env (first_journal env scope current)
            else take_up env scope current t))
  loaded-Post scope current w none e h = failed h
  loaded-Post scope current w (some t) e h = opened scope current w t e h

  pub open-Post :
      (scope current : Bytes) (w : W)
      → OnDisk w
      → Post
          (λ _. Inv env ledger c)
          (λ s. OnDisk s.world)
          (open_box env scope current (blank env w))
  unfolding open_box
  open-Post scope current w h =
      guard-Post _ _ (matches_scope scope && valid_hex current 16) (blank env w) h
        (λ valid. loaded-Post scope current w (env.load w) refl h)

  -- Whatever a stopped process left on disk, a successful `Open` gives an outbox whose journal agrees
  -- with the receiver's ledger and is what the disk holds.
  pub open_recovers :
      (scope current : Bytes) (w : W)
      → OnDisk w
      → (open_box env scope current (blank env w)).0 ≡ ok tt
      → Inv env ledger c (open_box env scope current (blank env w)).1
  open_recovers scope current w h e = post_ok (open-Post scope current w h) e
