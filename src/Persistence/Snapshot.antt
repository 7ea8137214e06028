-- ===== src/Persistence/Snapshot.antt =====
-- internal/persistence/snapshot.go: a dump of every key, with the generation of the log that it covers.
pub mod Loads
use memcore.Base.{
  ℕ, zero, suc, ◌-◌, ◌^◌, Bool, true, false, Option, none, some, List, [], ◌∷◌, ◌++◌, length,
  if◌then◌else◌, Bytes, bytes_eq, codes,
}
use memcore.Base.Int.{ℤ, pos, negsuc}
use memcore.Base.Varint.{put_uvarint}
use memcore.Value.Limits.{Limits}
use memcore.Value.Union.{Value}
use memcore.Persistence.Stream.{
  Read, ok, err, panics, eof, unexpected_eof, overflow, unknown_tag, ◌>>=◌, unexpected,
  read_uvarint, write_bytes, read_bytes, read_full,
}
use memcore.Persistence.Log.{int_of}
use memcore.Persistence.Values.{ZSets, put_little, little, write_value, read_value}

-- `snapshotMagic` ends in a line feed.
abbrev pub snapshot_magic : Bytes
snapshot_magic = codes "MEMCORE-SNAP1" ++ (10 ∷ [])

pub record Record (Z : Type 0) : Type 0 where
  pub db : ℤ
  pub key : Bytes
  pub expire_at : ℤ
  pub value : Value Z

-- `uint64` of an `int64` or an `int`.
abbrev pub uint64_of : ℤ → ℕ
uint64_of (pos n) = n
uint64_of (negsuc n) = 2 ^ 64 - 1 - n

-- How `ReadSnapshot` ends. `out_of_fuel` is no outcome of the code.
pub data Ending : Type 0 where
  finished magic_mismatch read_failed apply_failed panicked out_of_fuel : Ending

-- The generation, the callback's state, and the end.
pub record Loaded (S : Type 0) : Type 0 where
  pub base_gen : ℤ
  pub state : S
  pub ending : Ending

module _ {Z : Type 0} (zs : ZSets Z) where
  abbrev pub behind_head : Bytes → Option Bytes → Option Bytes
  behind_head head none = none
  behind_head head (some bs) = some (head ++ bs)

  unfoldable pub record_head : Record Z → Bytes
  record_head r =
      put_uvarint (uint64_of r.db) ++ (write_bytes r.key ++ put_little 8 (uint64_of r.expire_at))

  unfoldable pub write_record : Record Z → Option Bytes
  unfolding record_head
  write_record r = behind_head (record_head r) (write_value zs r.value)

  abbrev pub joined : Option Bytes → Option Bytes → Option Bytes
  joined none more = none
  joined (some bs) more = behind_head bs more

  -- `emit` passes these records, one after the other.
  unfoldable pub write_records : List (Record Z) → Option Bytes
  unfolding write_record
  write_records [] = some []
  write_records (r ∷ rs) = joined (write_record r) (write_records rs)

  unfoldable pub write_snapshot : ℤ → List (Record Z) → Option Bytes
  unfolding write_records
  write_snapshot base_gen rs =
      behind_head (snapshot_magic ++ put_uvarint (uint64_of base_gen)) (write_records rs)

  abbrev pub record_of : ℕ → Bytes → Bytes → Value Z → Record Z
  record_of d key ts v = record {
    db = int_of d;
    key = key;
    expire_at = int_of (little ts);
    value = v;
  }

  -- An end before the first byte marks the end of the records.
  unfoldable pub read_record : Limits → Bytes → Read (Record Z)
  read_record limits bs = read_uvarint bs >>= λ d r1. unexpected (read_bytes r1) >>= λ key r2.
      unexpected (read_full 8 r2) >>= λ ts r3.
      unexpected (read_value zs limits r3) >>= λ v left. ok (record_of d key ts v) left

  -- `apply` is the callback: the state that it leaves and whether it succeeded.
  module _ {S : Type 0} (limits : Limits) (apply : S → Record Z → S × Bool) where
    abbrev pub loaded : ℤ → S → Ending → Loaded S
    loaded gen st ending = record { base_gen = gen; state = st; ending = ending }

    abbrev pub after : ℤ → (S → Loaded S) → S × Bool → Loaded S
    after gen next (st, true) = next st
    after gen next (st, false) = loaded gen st apply_failed

    unfoldable pub load_loop : ℕ → ℤ → Bytes → S → Loaded S
    load_loop zero gen bs st = loaded gen st out_of_fuel
    load_loop (suc fuel) gen bs st = elim (read_record limits bs) [
      | ok r rest ↦ after gen (λ st'. load_loop fuel gen rest st') (apply st r)
      | err eof ↦ loaded gen st finished
      | err unexpected_eof ↦ loaded gen st read_failed
      | err overflow ↦ loaded gen st read_failed
      | err unknown_tag ↦ loaded gen st read_failed
      | panics ↦ loaded gen st panicked
    ]

    -- Behind the magic. A record takes a byte or more, so a round for each byte and one for the end
    -- are enough.
    abbrev pub load_from : Read ℕ → S → Loaded S
    load_from (ok gen rest) st = load_loop (suc (length rest)) (int_of gen) rest st
    load_from (err e) st = loaded (pos 0) st read_failed
    load_from panics st = loaded (pos 0) st panicked

    -- An empty stream loads nothing.
    abbrev pub load_magic : Read Bytes → S → Loaded S
    load_magic (ok magic rest) st =
        let body = load_from (read_uvarint rest) st in
        if bytes_eq magic snapshot_magic then body else loaded (pos 0) st magic_mismatch
    load_magic (err eof) st = loaded (pos 0) st finished
    load_magic (err unexpected_eof) st = loaded (pos 0) st read_failed
    load_magic (err overflow) st = loaded (pos 0) st read_failed
    load_magic (err unknown_tag) st = loaded (pos 0) st read_failed
    load_magic panics st = loaded (pos 0) st panicked

    unfoldable pub read_snapshot : Bytes → S → Loaded S
    unfolding load_loop
    read_snapshot bs st = load_magic (read_full (length snapshot_magic) bs) st
