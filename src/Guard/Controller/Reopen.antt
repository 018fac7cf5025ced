-- ===== src/Guard/Controller/Reopen.antt =====
-- A journal that is saved opens again, to what its controller kept.
use v2b_x.Base.{
  ℕ, ◌+◌, ◌≤◌, ◌≡◌, refl, ap, ◌∙◌, true, false, ◌&&◌, Option, some, [], Bytes, bytes_eq,
  bytes_eq_iff, arith, ltb, length, All,
}
use v2b_x.Base.Int.{pos, ltb_ℤ, eqb_ℤ, eqb_ℤ_iff}
use v2b_x.Guard.Types.{Moment, Guard}
use v2b_x.Guard.Controller.Types.{BootStamp, Entry, Controller, Reply, gives, Codec, and_then}
use v2b_x.Guard.Controller.Records.{Scan, fresh_scan, scan, bad_stamp}
use v2b_x.Guard.Controller.Open.{
  Overlay, restore, take_over, open_scan, open_stamp, open_journal, open_controller,
}
use v2b_x.Guard.Controller.Verified.{Decodes}
use v2b_x.Guard.Controller.Follow.{Follows, IsValidSetting, view}
use v2b_x.Guard.Controller.Scanned.{scan-Knows, fresh-Knows}
use v2b_x.Guard.Controller.Restored.{restore-Gives}

-- The boot clock has not gone back behind a record of the same boot.
abbrev pub IsBehind : BootStamp → Entry → Type 0
IsBehind stamp r = (bytes_eq r.boot.id stamp.id && ltb_ℤ stamp.nanos r.boot.nanos) ≡ false

-- A guard that no user was loaded into.
abbrev pub IsFresh : Guard → Type 0
IsFresh g = length g.bindings + length g.leases + length g.seen + length g.sessions ≡ 0

-- The state that the journal stands for.
pub record Same (c d : Controller) : Type 0 where
  pub seen_eq : d.guard.seen ≡ c.guard.seen
  pub released_eq : d.released ≡ c.released
  pub cancelled_eq : d.cancelled ≡ c.cancelled
  pub wall_eq : d.last_wall ≡ c.last_wall
  pub journal_eq : d.journal ≡ c.journal

-- `OpenController` gives a controller of the same state.
pub record Reopens (c : Controller) (r : Reply Controller) : Type 0 where
  pub opened : Controller
  pub gives_it : r ≡ gives opened
  pub same : Same c opened

module _ (x : Codec) where
  open_checks :
      (c : Controller) (boot : Option BootStamp) (t : ℕ → Moment) (g : Guard)
      → IsValidSetting c.node c.key
      → c.journal.version ≡ pos 1
      → c.journal.node ≡ c.node
      → length c.journal.records ≤ 10000
      → open_controller x c.node c.key (some c.journal) boot t g
        ≡ open_stamp x c.node c.key c.journal boot t g
  unfolding open_controller open_journal
  open_checks c boot t g set v n small =
      let a : eqb_ℤ c.journal.version (pos 1) ≡ true = (eqb_ℤ_iff c.journal.version (pos 1)).1 v in
      let b : bytes_eq c.journal.node c.node ≡ true = (bytes_eq_iff c.journal.node c.node).1 n in
      let d : ltb 10000 (length c.journal.records) ≡ false = ground arith in
      rw set (rw (a, b, d) refl)

  open_scanned :
      (c : Controller) (stamp : BootStamp) (t : ℕ → Moment) (g : Guard) (s : Scan) (o : Overlay)
      → bad_stamp stamp ≡ false
      → IsFresh g
      → scan x c.node c.key 1 c.journal.records fresh_scan ≡ gives s
      → restore x c.node c.key stamp t 0 s.pending ([], []) ≡ gives o
      → open_stamp x c.node c.key c.journal (some stamp) t g
        ≡ gives (record {
          guard = record g { seen = s.seen; leases = o.0 };
          node = c.node;
          key = c.key;
          journal = c.journal;
          poisoned = false;
          last_wall = s.last_wall;
          released = s.released;
          reconcile = o.1;
          cancelled = s.cancelled;
        })
  unfolding open_stamp open_scan take_over
  open_scanned c stamp t g s o good fresh scanned restored = rw good (
      ap (λ z. and_then z (open_scan x c.node c.key c.journal stamp t g)) scanned
      ∙ ap (λ z. and_then z (take_over x c.node c.key c.journal g s)) restored
      ∙ rw fresh refl)

  -- Whatever boot it is opened in, later in the same boot or in another one.
  pub Follows-Reopens :
      (boot_id : Bytes) (at : ℕ) (c : Controller) (stamp : BootStamp) (t : ℕ → Moment) (g : Guard)
      → Decodes x
      → Follows x boot_id at c
      → bad_stamp stamp ≡ false
      → All (IsBehind stamp) c.journal.records
      → IsFresh g
      → Reopens c (open_controller x c.node c.key (some c.journal) (some stamp) t g)
  Follows-Reopens boot_id at c stamp t g dec f good behind_ fresh =
      let s = view c f.pending f.previous in
      let k =
        (scan-Knows x c.node c.key (IsBehind stamp) 0 1 c.journal.records fresh_scan dec behind_
            (fresh-Knows x c.node c.key (IsBehind stamp))).holds
          s f.scanned in
      let counted = k.counted in
      let room = k.room in
      let o = restore-Gives x c.node c.key stamp t 0 f.pending ([], []) k.from_journal in
      record {
        opened = record {
          guard = record g { seen = s.seen; leases = o.value.0 };
          node = c.node;
          key = c.key;
          journal = c.journal;
          poisoned = false;
          last_wall = s.last_wall;
          released = s.released;
          reconcile = o.value.1;
          cancelled = s.cancelled;
        };
        gives_it =
            open_checks c (some stamp) t g f.is_set f.version_eq f.node_eq
              (omega (arith, counted, room))
            ∙ open_scanned c stamp t g s o.value good fresh f.scanned o.eq;
        same = record {
          seen_eq = refl;
          released_eq = refl;
          cancelled_eq = refl;
          wall_eq = refl;
          journal_eq = refl;
        };
      }
