-- ===== src/Persistence/Store.antt =====
-- The generations of internal/persistence/appendlog.go, and Recover of recover.go. A directory is the
-- bytes of its files; the calls of the operating system succeed, and a crash stops between two of them.
pub mod Files
pub mod Recovers
pub mod Installs
mod Tests
use memcore.Base.{
  ℕ, zero, suc, ◌+◌, ◌-◌, Bool, true, false, Option, none, some, List, [], ◌∷◌, ◌++◌, length, ltb,
  ◌==◌, if◌then◌else◌, Bytes, bytes_eq,
}
use memcore.Base.Int.{ℤ, pos, negsuc, pos_part}
use memcore.Persistence.Stream.{Read, ok, err, panics, read_uvarint, read_full}
use memcore.Persistence.Log.{int_of, write_command}
use memcore.Persistence.Segments as Replay
use memcore.Persistence.Segments.{Replayed, replay_segment}
use memcore.Persistence.Snapshot
use memcore.Persistence.Snapshot.{Loaded, Record, snapshot_magic}
use memcore.Persistence.Values.{ZSets}
use memcore.Value.Limits.{Limits}

-- The files of the data directory: the snapshot, its temporary file, and the segments by generation.
pub record Dir : Type 0 where
  pub snapshot : Option Bytes
  pub tmp : Option Bytes
  pub segments : List (ℕ × Bytes)

unfoldable pub segment_at : ℕ → List (ℕ × Bytes) → Option Bytes
segment_at g [] = none
segment_at g ((h, bs) ∷ rest) = if h == g then some bs else segment_at g rest

-- `os.OpenFile` with O_CREATE and O_APPEND, and a write of `more`.
unfoldable pub append_to : ℕ → Bytes → List (ℕ × Bytes) → List (ℕ × Bytes)
append_to g more [] = (g, more) ∷ []
append_to g more ((h, bs) ∷ rest) =
    if h == g then (h, bs ++ more) ∷ rest else (h, bs) ∷ append_to g more rest

unfoldable pub remove_segment : ℕ → List (ℕ × Bytes) → List (ℕ × Bytes)
remove_segment g [] = []
remove_segment g ((h, bs) ∷ rest) =
    if h == g then remove_segment g rest else (h, bs) ∷ remove_segment g rest

abbrev pub larger : ℕ → ℕ → ℕ
larger a b = if ltb b a then a else b

unfoldable pub highest_segment : List (ℕ × Bytes) → ℕ
highest_segment [] = 0
highest_segment ((g, bs) ∷ rest) = larger g (highest_segment rest)

-- `snapshotBaseGen`
abbrev pub gen_of : Read ℕ → Option ℤ
gen_of (ok n rest) = some (int_of n)
gen_of (err e) = none
gen_of panics = none

abbrev pub gen_behind : Read Bytes → Option ℤ
gen_behind (ok magic rest) =
    let gen = gen_of (read_uvarint rest) in if bytes_eq magic snapshot_magic then gen else none
gen_behind (err e) = none
gen_behind panics = none

abbrev pub base_gen_in : Option Bytes → Option ℤ
base_gen_in none = none
base_gen_in (some bs) = gen_behind (read_full (length snapshot_magic) bs)

unfoldable pub snapshot_base_gen : Dir → Option ℤ
snapshot_base_gen d = base_gen_in d.snapshot

-- The open store: `buffered` is what the writer of the segment holds, `always` the fsync policy.
pub record Store : Type 0 where
  pub dir : Dir
  pub always : Bool
  pub gen : ℕ
  pub buffered : Bytes

abbrev pub active_gen : ℕ → Option ℤ → ℕ
active_gen highest none = highest
active_gen highest (some base) = larger (pos_part base) highest

unfoldable pub open_segment : Dir → Bool → ℕ → Store
open_segment d always gen = record {
  dir = record d { segments = append_to gen [] d.segments };
  always = always;
  gen = gen;
  buffered = [];
}

unfoldable pub open_store : Dir → Bool → Store
unfolding open_segment
open_store d always =
    open_segment d always (active_gen (highest_segment d.segments) (snapshot_base_gen d))

unfoldable pub next_gen : Store → ℕ
next_gen s = s.gen + 1

unfoldable pub flush : Store → Store
flush s = record s {
  dir = record (s.dir) { segments = append_to s.gen s.buffered s.dir.segments };
  buffered = [];
}

unfoldable pub append : Store → ℕ → List Bytes → Store
unfolding flush
append s db args =
    let written = record s { buffered = s.buffered ++ write_command db args } in
    if s.always then flush written else written

unfoldable pub rotate : Store → Store
unfolding flush open_segment
rotate s = open_segment (flush s).dir s.always (s.gen + 1)

-- The calls of `InstallSnapshot`, one by one; a crash may leave any front of them.
pub data Effect : Type 0 where
  write_tmp : Bytes → Effect
  rename : Effect
  remove : ℕ → Effect

abbrev pub act : Effect → Dir → Dir
act (write_tmp bs) d = record d { tmp = some bs }
act rename d = record d { snapshot = d.tmp; tmp = none }
act (remove g) d = record d { segments = remove_segment g d.segments }

abbrev pub run : List Effect → Dir → Dir
run [] d = d
run (e ∷ es) d = run es (act e d)

-- The loop over the generations from `g` on.
abbrev pub removals : ℕ → ℕ → List Effect
removals zero g = []
removals (suc n) g = remove g ∷ removals n (g + 1)

-- `os.Create` leaves an empty file, which one write fills.
unfoldable pub install_snapshot : Bytes → ℕ → List Effect
install_snapshot snapshot base_gen =
    write_tmp [] ∷ write_tmp snapshot ∷ rename ∷ removals base_gen 0

-- How recovery ends: as the snapshot's load ends, or as the last replay.
pub data Outcome : Type 0 where
  snapshot_ended : Snapshot.Ending → Outcome
  log_ended : Replay.Ending → Outcome

-- `restore` and `replay` are the callbacks: the state that they leave and whether they succeeded.
module _ {Z S : Type 0} (zs : ZSets Z) (limits : Limits) (restore : S → Record Z → S × Bool)
    (replay : S → ℤ → List Bytes → S × Bool) where
  abbrev pub replay_at : S → Option Bytes → S × Replay.Ending
  replay_at st none = (st, Replay.finished)
  replay_at st (some bs) = let r = replay_segment replay bs st in (r.state, r.ending)

  -- The loop of `replaySegments` over `n` generations from `gen` on, up to the first error.
  abbrev pub go_on : (S → S × Replay.Ending) → S × Replay.Ending → S × Replay.Ending
  go_on next (st, Replay.finished) = next st
  go_on next (st, Replay.replay_failed) = (st, Replay.replay_failed)
  go_on next (st, Replay.read_failed) = (st, Replay.read_failed)
  go_on next (st, Replay.panicked) = (st, Replay.panicked)
  go_on next (st, Replay.out_of_fuel) = (st, Replay.out_of_fuel)

  unfoldable pub replay_segments : ℕ → ℕ → List (ℕ × Bytes) → S → S × Replay.Ending
  replay_segments zero gen segs st = (st, Replay.finished)
  replay_segments (suc n) gen segs st =
      go_on (λ st'. replay_segments n (gen + 1) segs st') (replay_at st (segment_at gen segs))

  -- Behind the snapshot. There are no segments below 0.
  abbrev pub replay_behind : List (ℕ × Bytes) → Loaded S → S × Outcome
  replay_behind segs l = elim l.ending [
    | Snapshot.finished ↦
        let base = pos_part l.base_gen in
        let r = replay_segments (highest_segment segs + 1 - base) base segs l.state in
        (r.0, log_ended r.1)
    | Snapshot.magic_mismatch ↦ (l.state, snapshot_ended Snapshot.magic_mismatch)
    | Snapshot.read_failed ↦ (l.state, snapshot_ended Snapshot.read_failed)
    | Snapshot.apply_failed ↦ (l.state, snapshot_ended Snapshot.apply_failed)
    | Snapshot.panicked ↦ (l.state, snapshot_ended Snapshot.panicked)
    | Snapshot.out_of_fuel ↦ (l.state, snapshot_ended Snapshot.out_of_fuel)
  ]

  -- A snapshot that is not there loads nothing, from generation 0 on.
  abbrev pub load_snapshot : Option Bytes → S → Loaded S
  load_snapshot none st = record { base_gen = pos 0; state = st; ending = Snapshot.finished }
  load_snapshot (some bs) st = Snapshot.read_snapshot zs limits restore bs st

  unfoldable pub recover : Dir → S → S × Outcome
  unfolding replay_segments segment_at highest_segment
  recover d st = replay_behind d.segments (load_snapshot d.snapshot st)
