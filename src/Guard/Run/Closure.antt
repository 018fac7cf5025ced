-- ===== src/Guard/Run/Closure.antt =====
-- What a property of the guard needs to be kept by every call: it reads only the leases, the
-- remembered ids and the sessions, and stands the few writes that the calls make to these.
use v2b_x.Base.{
  ltb, ◌||◌, ◌==◌, ℕ, ◌+◌, ◌%◌, ◌≡◌, refl, false, not, Option, none, some, List, [], ◌∷◌, Bytes,
  bytes_eq, leb, length, get, put, del,
}
use v2b_x.Base.Int.{pos, leb_ℤ, word64}
use v2b_x.Transfer.Types.{Identity, identity_eq, identity_key, bytes_key}
use v2b_x.Guard.Types.{
  Binding, Lease, Moment, ActiveLease, SessionEntry, Guard, GuardError, session_key, expired,
  note_coverage_failure, note_capacity_failure,
}
use v2b_x.Guard.Bindings.{
  wanted, credential_digest, bind, unbind, require_tags, unbind_tag, require_wanted,
}
use v2b_x.Guard.Sessions.{track, track_as, track_leased, enter, finish}
use v2b_x.Guard.Leases.{
  holds_now, is_bound, apply, apply_seen, apply_fresh, installed, release, release_seen, released,
  stats, live_leases,
}
use v2b_x.Guard.Authorization.{hex_digits, register_authorization, register_as}
use v2b_x.Guard.Run.Rules.{Ends, if-Ends, if-holds}
use v2b_x.Guard.Run.{
  Call, binds, unbinds, requires, unbinds_tag, registers, tracks, finishes, applies, releases,
  reads_stats, notes_failure, step, run,
}

pub record IsClosed (P : Guard → Type 0) : Type 0 where
  pub same :
      (g h : Guard)
      → h.leases ≡ g.leases
      → h.seen ≡ g.seen
      → h.sessions ≡ g.sessions
      → h.max_sessions ≡ g.max_sessions
      → P g
      → P h
  pub dropped :
      (i : Identity) (g : Guard) → P g → P (record g { leases = del identity_key i g.leases })
  pub lived :
      (t : ℕ → Moment) (g : Guard) → P g → P (record g { leases = live_leases t 0 g.leases })
  pub entered :
      (n : ℕ) (s : SessionEntry) (g : Guard)
      → leb g.max_sessions (length g.sessions) ≡ false
      → P g
      → P (record g { sessions = put session_key n s g.sessions })
  pub finished :
      (n : ℕ) (g : Guard) → P g → P (record g { sessions = del session_key n g.sessions })
  pub installs :
      (t : ℕ → Moment) (l : Lease) (g : Guard)
      → get bytes_key l.id g.seen ≡ none
      → leb 10000 (length g.seen) ≡ false
      → P g
      → P (installed t l g).1

module _ (P : Guard → Type 0) (c : IsClosed P) where
  unchanged : {A : Type 0} (x : A) (g : Guard) → P g → Ends P (x, g)
  unchanged x g v = record { end = v }

  enter_keeps :
      (at : Moment) (close : Option ℕ) (id : Identity) (g : Guard)
      → P g
      → Ends P (enter at close id g)
  unfolding enter note_capacity_failure
  enter_keeps at close id g v =
      let n = (g.next + 1) % word64 in
      let s : SessionEntry = record { identity = id; close = close } in
      if-Ends (leb g.max_sessions (length g.sessions))
        (λ full. record { end = c.same g _ refl refl refl refl v })
        (λ room. record {
          end =
              c.same (record g { sessions = put session_key n s g.sessions }) _ refl refl refl refl
                (c.entered n s g room v);
        })

  leased_keeps :
      (t : ℕ → Moment) (close : Option ℕ) (id : Identity) (o : Option ActiveLease) (g : Guard)
      → P g
      → Ends P (track_leased t close id o g)
  unfolding track_leased
  leased_keeps t close id none g v = enter_keeps (t 0) close id g v
  leased_keeps t close id (some a) g v =
      if-Ends (expired a (t 0).instant) (λ _. enter_keeps (t 1) close id _ (c.dropped id g v))
        (λ _. unchanged _ g v)

  tracked_keeps :
      (t : ℕ → Moment) (close : Option ℕ) (o : Option Identity) (g : Guard)
      → P g
      → Ends P (track_as t close o g)
  unfolding track_as note_coverage_failure
  tracked_keeps t close none g v = record { end = c.same g _ refl refl refl refl v }
  tracked_keeps t close (some id) g v = leased_keeps t close id _ g v

  fresh_keeps :
      (t : ℕ → Moment) (l : Lease) (e : Option GuardError) (g : Guard)
      → get bytes_key l.id g.seen ≡ none
      → P g
      → Ends P (apply_fresh t l e g)
  unfolding apply_fresh
  fresh_keeps t l (some e) g new v = unchanged _ g v
  fresh_keeps t l none g new v =
      if-Ends (not (is_bound l.identity g.bindings)) (λ _. unchanged _ g v)
        (λ _.
          if-Ends (holds_now (get identity_key l.identity g.leases) (t 1).instant)
            (λ _. unchanged _ g v)
            (λ _.
              if-Ends (leb 10000 (length g.seen)) (λ _. unchanged _ g v)
                (λ room. (record { end = c.installs t l g new room v }))))

  pub applied_keeps :
      (t : ℕ → Moment) (l : Lease) (o : Option Lease) (g : Guard)
      → get bytes_key l.id g.seen ≡ o
      → P g
      → Ends P (apply_seen t l o g)
  unfolding apply_seen
  applied_keeps t l none g e v = fresh_keeps t l _ g e v
  applied_keeps t l (some old) g e v = unchanged _ g v

  released_keeps :
      (id : Bytes) (i : Identity) (o : Option ActiveLease) (g : Guard) → P g → P (released id i o g)
  unfolding released
  released_keeps id i none g v = v
  released_keeps id i (some a) g v = if-holds P (bytes_eq a.lease.id id) _ _ (c.dropped i g v) v

  release_keeps :
      (id : Bytes) (i : Identity) (o : Option Lease) (g : Guard)
      → P g
      → Ends P (release_seen id i o g)
  unfolding release_seen
  release_keeps id i none g v = unchanged _ g v
  release_keeps id i (some m) g v =
      if-Ends (not (identity_eq m.identity i)) (λ _. unchanged _ g v)
        (λ _. record { end = released_keeps id i _ g v })

  stats_keeps : (t : ℕ → Moment) (g : Guard) → P g → Ends P (stats t g)
  unfolding stats
  stats_keeps t g v = record { end = c.lived t g v }

  required_keeps : (o : Option (List Bytes)) (g : Guard) → P g → Ends P (require_wanted o g)
  unfolding require_wanted
  required_keeps none g v = unchanged _ g v
  required_keeps (some want) g v = record { end = c.same g _ refl refl refl refl v }

  require_keeps : (tags : List Bytes) (g : Guard) → P g → Ends P (require_tags tags g)
  unfolding require_tags
  require_keeps tags g v =
      if-Ends (not (length g.bindings == 0) || length tags == 0 || ltb 32 (length tags))
        (λ _. unchanged _ g v) (λ _. required_keeps (wanted [] tags) g v)

  registered_keeps :
      (b : Binding) (grant : Bytes) (o : Option Identity) (g : Guard)
      → P g
      → P (register_as b grant o g)
  unfolding register_as
  registered_keeps b grant none g v = c.same g _ refl refl refl refl v
  registered_keeps b grant (some id) g v =
      if-holds P (not (hex_digits 32 grant)) _ _ (c.same g _ refl refl refl refl v)
        (c.same g _ refl refl refl refl v)

  step_keeps :
      (sha256_hex : Bytes → Bytes) (call : Call) (g : Guard) → P g → P (step sha256_hex call g)
  unfolding step finish bind unbind unbind_tag register_authorization track apply release
      note_coverage_failure
  step_keeps sha256_hex (binds tag label uid credential) g v =
      let digest = credential_digest sha256_hex credential in
      if-holds P (leb_ℤ uid (pos 0) || length tag == 0 || length label == 0 || length digest == 0) _
        _ v (c.same g _ refl refl refl refl v)
  step_keeps sha256_hex (unbinds tag label) g v = c.same g _ refl refl refl refl v
  step_keeps sha256_hex (requires tags) g v = (require_keeps tags g v).end
  step_keeps sha256_hex (unbinds_tag tag) g v = c.same g _ refl refl refl refl v
  step_keeps sha256_hex (registers tag label grant) g v = registered_keeps _ grant _ g v
  step_keeps sha256_hex (tracks t tag label close) g v = (tracked_keeps t close _ g v).end
  step_keeps sha256_hex (finishes n) g v = c.finished n g v
  step_keeps sha256_hex (applies t l) g v = (applied_keeps t l _ g refl v).end
  step_keeps sha256_hex (releases id identity) g v = (release_keeps id identity _ g v).end
  step_keeps sha256_hex (reads_stats t) g v = (stats_keeps t g v).end
  step_keeps sha256_hex notes_failure g v = c.same g _ refl refl refl refl v

  pub run_keeps :
      (sha256_hex : Bytes → Bytes) (calls : List Call) (g : Guard)
      → P g
      → P (run sha256_hex calls g)
  unfolding run
  run_keeps sha256_hex [] g v = v
  run_keeps sha256_hex (call ∷ calls) g v =
      run_keeps sha256_hex calls (step sha256_hex call g) (step_keeps sha256_hex call g v)
