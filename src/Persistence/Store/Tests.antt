-- ===== src/Persistence/Store/Tests.antt =====
-- Tests of snapshots and of the data directory: one counter is the state.
use memcore.Base.{
  ℕ, ◌+◌, ◌≡◌, refl, Bool, true, none, some, List, [], ◌∷◌, ◌++◌, arith, take, Bytes, bytes_eq,
  codes,
}
use memcore.Base.Int.{ℤ, pos, negsuc}
use memcore.Value.Limits.{Thresholds, Limits}
use memcore.Value.Pack.{pack_of}
use memcore.Value.Lists.{PackList}
use memcore.Value.Lists.Refines
use memcore.Value.Union
use memcore.Value.Union.{Value}
use memcore.Persistence.Stream.{read_uvarint, read_bytes, read_full}
use memcore.Persistence.Log.{read_command}
use memcore.Persistence.Segments as Replay
use memcore.Persistence.Segments.{replay_segment}
use memcore.Persistence.Values.{ZSets, read_value, little}
use memcore.Persistence.Values.Data.{Data, elements}
use memcore.Persistence.Values.RoundTrip.{ReadsBack, read_value-write_value}
use memcore.Persistence.Snapshot.{
  Record, snapshot_magic, write_snapshot, read_snapshot, read_record,
}
use memcore.Persistence.Snapshot.Loads.{Alike, dump, applied, read_snapshot-write_snapshot}
use memcore.Persistence.Store.{
  Dir, segment_at, highest_segment, run, install_snapshot, replay_segments, recover,
}
use memcore.Persistence.Store.Installs.{whole, install_snapshot_recovers}

abbrev small : Thresholds
small = record { max_entries = 2; max_bytes = 4 }

abbrev limits : Limits
limits = record { list = small; hash = small; set = small; zset = small }

-- Sorted sets that keep their members in the order in which they come.
abbrev Scores : Type 0
Scores = List (Bytes × ℕ)

abbrev scores : ZSets Scores
scores = record {
  new_zset = λ max. [];
  add_score = λ z member score. some (z ++ ((member, score) ∷ []));
  ranked = λ z. some z;
}

abbrev two : List Bytes
two = codes "a" ∷ codes "b" ∷ []

abbrev a_list : PackList
a_list = record { pack = pack_of two; count = 2; full = none; max = small }

a_list-Holds : Refines.Holds a_list two
a_list-Holds = record {
  fits = (omega arith, (omega arith, tt));
  packed = λ _. (refl, refl);
  linked = λ f e. cc;
  small = λ _. (omega arith, (omega arith, (omega arith, tt)));
}

read_value-write_value_example :
    ReadsBack scores limits (Union.list a_list) (elements two) (codes "rest")
read_value-write_value_example =
    read_value-write_value scores limits (Union.list a_list) (elements two) (codes "rest")
      (a_list, refl, a_list-Holds) (omega arith, (omega arith, (omega arith, tt)))

abbrev a_record : Record Scores
a_record = record { db = pos 3; key = codes "k"; expire_at = negsuc 4; value = Union.list a_list }

abbrev stored : List (Record Scores × Data)
stored = (a_record, elements two) ∷ []

abbrev count_record : ℕ → Record Scores → ℕ × Bool
count_record n r = (n + 1, true)

abbrev count_command : ℕ → ℤ → List Bytes → ℕ × Bool
count_command n db args = (n + 1, true)

read_snapshot-write_snapshot_example :
    (bs : Bytes) × (rs : List (Record Scores)) × (write_snapshot scores (pos 7) (dump stored)
      ≡ some bs)
    × Alike stored rs
    × (read_snapshot scores limits count_record bs 0 ≡ applied count_record (pos 7) rs 0)
read_snapshot-write_snapshot_example =
    read_snapshot-write_snapshot scores limits count_record (pos 7) stored 0
      (omega arith, omega arith)
      (
        (
          (omega arith, omega arith),
          omega arith,
          (omega arith, omega arith),
          (a_list, refl, a_list-Holds),
          (omega arith, (omega arith, (omega arith, tt))),
        ),
        tt,
      )

-- A snapshot of generation 1 with the string "v" under "k".
abbrev snap : Bytes
snap = snapshot_magic ++ (1 ∷ 0 ∷ 1 ∷ b'k' ∷ 0 ∷ 0 ∷ 0 ∷ 0 ∷ 0 ∷ 0 ∷ 0 ∷ 0 ∷ b's' ∷ 1 ∷ b'v' ∷ [])

-- One command in the segment of generation 0, and nothing in the one of generation 1.
abbrev directory : Dir
directory = record {
  snapshot = none;
  tmp = none;
  segments = (0, 3 ∷ 1 ∷ 1 ∷ b'x' ∷ []) ∷ (1, []) ∷ [];
}

snap_loads : read_snapshot scores limits count_record snap 0 ≡ whole 1 1
unfolding read_snapshot read_record read_value read_uvarint read_bytes read_full little bytes_eq
snap_loads = refl

replayed :
    replay_segments scores limits count_record count_command 1 0 directory.segments 0
    ≡ (1, Replay.finished)
unfolding replay_segments segment_at replay_segment read_command read_uvarint read_bytes read_full
replayed = refl

topped : (highest_segment directory.segments ≡ 1) × (segment_at 1 directory.segments ≡ some [])
unfolding highest_segment segment_at
topped = (refl, refl)

install_snapshot_recovers_example :
    recover scores limits count_record count_command
      (run (take 4 (install_snapshot snap 1)) directory)
      0
    ≡ recover scores limits count_record count_command directory 0
install_snapshot_recovers_example =
    install_snapshot_recovers scores limits count_record count_command directory snap [] 0 1 4 0 0 1
      refl (omega arith) topped replayed snap_loads
