-- ===== src/Guard/Run/Sound.antt =====
-- What every run of a guard keeps: a lease that is active is remembered under its id, and the maps
-- stay within their bounds.
use v2b_x.Base.{
  del-IsKeyed, IsKeyed, put-IsKeyed, ℕ, suc, ◌≤◌, ◌≡◌, ◌∙◌, inl, inr, refl, sym, ap, false, none,
  some, List, [], ◌∷◌, Bytes, bytes_eq, leb, length, All, All-map, AllEntries-put, AllEntries-del,
  length-put, length-del, Assoc, get, put, del, put_here, put_there, arith, Bool-cases,
}
use v2b_x.Base.Int.{ℤ}
use v2b_x.Transfer.Types.{Identity, identity_eq, identity_key, bytes_key}
use v2b_x.Guard.Types.{Lease, Moment, ActiveLease, Guard, session_key, expired, new_guard}
use v2b_x.Guard.Leases.{apply, installed, activated, live_leases}
use v2b_x.Guard.Run.{Call, run}
use v2b_x.Guard.Run.Closure.{IsClosed, run_keeps, applied_keeps}

-- An active lease stands under its identity, and is remembered under its id.
abbrev pub Recorded : Assoc Bytes Lease → Identity → ActiveLease → Type 0
Recorded seen i a = (a.lease.identity ≡ i) × (get bytes_key a.lease.id seen ≡ some a.lease)

abbrev pub AreRecorded : Assoc Identity ActiveLease → Assoc Bytes Lease → Type 0
AreRecorded leases seen = All (λ p. Recorded seen p.0 p.1) leases

abbrev pub AreNamed : Assoc Bytes Lease → Type 0
AreNamed seen = All (λ p. p.1.id ≡ p.0) seen

pub record IsSound (g : Guard) : Type 0 where
  pub recorded : AreRecorded g.leases g.seen
  pub keyed : IsKeyed identity_key g.leases
  pub named : AreNamed g.seen
  pub remembered : length g.seen ≤ 10000
  pub within : length g.sessions ≤ g.max_sessions

AreRecorded-live :
    (t : ℕ → Moment) (k : ℕ) (m : Assoc Identity ActiveLease) (seen : Assoc Bytes Lease)
    → AreRecorded m seen
    → AreRecorded (live_leases t k m) seen
unfolding live_leases
AreRecorded-live t k [] seen r = tt
AreRecorded-live t k ((i, a) ∷ m) seen r = elim (Bool-cases (expired a (t k).instant)) [
  | inl b ↦ rw b (AreRecorded-live t (suc k) m seen r.1)
  | inr b ↦ rw b (r.0, AreRecorded-live t (suc k) m seen r.1)
]

live_gone :
    (t : ℕ → Moment) (k : ℕ) (m : Assoc Identity ActiveLease) (i : Identity)
    → get identity_key i m ≡ none
    → get identity_key i (live_leases t k m) ≡ none
unfolding live_leases get
live_gone t k [] i h = h
live_gone t k ((j, a) ∷ m) i h = elim (Bool-cases (identity_eq j i)) [
  | inl b ↦ let bad : some a ≡ none = rw b at h in cc
  | inr b ↦
      let g : get identity_key i m ≡ none = rw b at h in
      let ih = live_gone t (suc k) m i g in
      elim (Bool-cases (expired a (t k).instant)) [ inl x ↦ rw x ih | inr x ↦ rw (x, b) ih ]
]

live-IsKeyed :
    (t : ℕ → Moment) (k : ℕ) (m : Assoc Identity ActiveLease)
    → IsKeyed identity_key m
    → IsKeyed identity_key (live_leases t k m)
unfolding live_leases
live-IsKeyed t k [] r = tt
live-IsKeyed t k ((j, a) ∷ m) r = elim (Bool-cases (expired a (t k).instant)) [
  | inl b ↦ rw b (live-IsKeyed t (suc k) m r.1)
  | inr b ↦ rw b (live_gone t (suc k) m j r.0, live-IsKeyed t (suc k) m r.1)
]

-- A new id hides none of those that are remembered.
new_hides :
    (l : Lease) (id : Bytes) (m : Lease) (seen : Assoc Bytes Lease)
    → get bytes_key l.id seen ≡ none
    → get bytes_key id seen ≡ some m
    → get bytes_key id (put bytes_key l.id l seen) ≡ some m
new_hides l id m seen new h = elim (Bool-cases (bytes_eq l.id id)) [
  | inr b ↦ put_there bytes_key l.id id l seen b ∙ h
  | inl b ↦
      let same : l.id ≡ id = (bytes_key.eqb_iff l.id id).0 b in
      let gone : get bytes_key id seen ≡ none = ap (λ x. get bytes_key x seen) (sym same) ∙ new in
      cc
]

AreRecorded-new :
    (l : Lease) (leases : Assoc Identity ActiveLease) (seen : Assoc Bytes Lease)
    → get bytes_key l.id seen ≡ none
    → AreRecorded leases seen
    → AreRecorded leases (put bytes_key l.id l seen)
AreRecorded-new l leases seen new r =
    All-map (λ p. Recorded seen p.0 p.1) (λ p. Recorded (put bytes_key l.id l seen) p.0 p.1)
      (λ p h. (h.0, new_hides l p.1.lease.id p.1.lease seen new h.1)) leases r

same-IsSound :
    (g h : Guard)
    → h.leases ≡ g.leases
    → h.seen ≡ g.seen
    → h.sessions ≡ g.sessions
    → h.max_sessions ≡ g.max_sessions
    → IsSound g
    → IsSound h
same-IsSound g h a b c d v = record {
  recorded = rw (a, b) v.recorded;
  keyed = rw a v.keyed;
  named = rw b v.named;
  remembered = rw b v.remembered;
  within = rw (c, d) v.within;
}

dropped-IsSound :
    (i : Identity) (g : Guard)
    → IsSound g
    → IsSound (record g { leases = del identity_key i g.leases })
dropped-IsSound i g v = record {
  recorded = AllEntries-del identity_key (Recorded g.seen) i g.leases v.recorded;
  keyed = del-IsKeyed identity_key i g.leases v.keyed;
  named = v.named;
  remembered = v.remembered;
  within = v.within;
}

installed-IsSound :
    (t : ℕ → Moment) (l : Lease) (g : Guard)
    → get bytes_key l.id g.seen ≡ none
    → leb 10000 (length g.seen) ≡ false
    → IsSound g
    → IsSound (installed t l g).1
unfolding installed activated
installed-IsSound t l g new room v = record {
  recorded =
      AllEntries-put identity_key (Recorded (put bytes_key l.id l g.seen)) l.identity
        (activated t l) g.leases (refl, put_here bytes_key l.id l g.seen)
        (AreRecorded-new l g.leases g.seen new v.recorded);
  keyed = put-IsKeyed identity_key l.identity (activated t l) g.leases v.keyed;
  named = AllEntries-put bytes_key (λ id m. m.id ≡ id) l.id l g.seen refl v.named;
  remembered = let f = length-put bytes_key l.id l g.seen in ground arith;
  within = v.within;
}

IsSound-IsClosed : IsClosed IsSound
unfolding installed activated
IsSound-IsClosed = record {
  same = same-IsSound;
  dropped = dropped-IsSound;
  lived = λ t g v. record {
    recorded = AreRecorded-live t 0 g.leases g.seen v.recorded;
    keyed = live-IsKeyed t 0 g.leases v.keyed;
    named = v.named;
    remembered = v.remembered;
    within = v.within;
  };
  entered = λ n s g room v. record {
    recorded = v.recorded;
    keyed = v.keyed;
    named = v.named;
    remembered = v.remembered;
    within = let f = length-put session_key n s g.sessions in ground arith;
  };
  finished = λ n g v. record {
    recorded = v.recorded;
    keyed = v.keyed;
    named = v.named;
    remembered = v.remembered;
    within = omega (arith, length-del session_key n g.sessions, v.within);
  };
  installs = installed-IsSound;
}

pub run-IsSound :
    (sha256_hex : Bytes → Bytes) (calls : List Call) (g : Guard)
    → IsSound g
    → IsSound (run sha256_hex calls g)
run-IsSound = run_keeps IsSound IsSound-IsClosed

pub apply-IsSound : (t : ℕ → Moment) (l : Lease) (g : Guard) → IsSound g → IsSound (apply t l g).1
unfolding apply
apply-IsSound t l g v =
    (applied_keeps IsSound IsSound-IsClosed t l (get bytes_key l.id g.seen) g refl v).end

-- In every run from `New`, each lease that is active stands under its own identity, which has
-- no other, and is remembered under its id, at most 10000 ids are remembered, and there are at most as many sessions
-- as the limit allows.
pub new_guard-IsSound :
    (sha256_hex : Bytes → Bytes) (limit : ℤ) (calls : List Call)
    → IsSound (run sha256_hex calls (new_guard limit))
new_guard-IsSound sha256_hex limit calls = run-IsSound sha256_hex calls (new_guard limit) (record {
  recorded = tt;
  keyed = tt;
  named = tt;
  remembered = omega arith;
  within = omega arith;
})
