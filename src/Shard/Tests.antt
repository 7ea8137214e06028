-- ===== src/Shard/Tests.antt =====
-- Tests of internal/shard: four shards, with the length of a key for its hash.
use memcore.Base.{
  get_or, ℕ, ◌+◌, ◌*◌, ◌≤◌, ◌≡◌, Bool, true, none, List, [], ◌∷◌, arith, length, if◌then◌else◌,
  Bytes, bytes_eq, codes,
}
use memcore.Base.Int.{pos}
use memcore.Keyspace
use memcore.Keyspace.{zero_time, live}
use memcore.Keyspace.Views.{stamp, volatile, is_some}
use memcore.Shard
use memcore.Shard.{Db, new, lookup, expire_cycle, len, shard_set, contains_index}
use memcore.Shard.Routing.{
  IsSharded, new-IsSharded, lookup-set, lookup-set_expire, lookup-persist, lookup-delete,
}
use memcore.Shard.Locks.{IsAscending, touches, shard_set_lem}
use memcore.Shard.Cycles.{expire_cycle_counts}

abbrev key_hash : Bytes → ℕ
key_hash key = length key

abbrev empty : Db ℕ
empty = new 4

abbrev one_key : Db ℕ
one_key = Shard.set key_hash empty (codes "k") 7

one_key-IsSharded : IsSharded one_key
one_key-IsSharded =
    (lookup-set key_hash empty (codes "k") (codes "k") 7 (pos 0) (new-IsSharded ℕ 4)).1

-- Another key of the same shard, and the key itself.

abbrev with_ttl : Db ℕ
with_ttl = (Shard.set_expire key_hash one_key (pos 5) (codes "k") (pos 10)).0

lookup-set_expire_example :
    ((Shard.set_expire key_hash one_key (pos 5) (codes "k") (pos 10)).1
      ≡ is_some (lookup key_hash one_key (pos 5) (codes "k")))
    × (lookup key_hash with_ttl (pos 12) (codes "k") ≡ (
        if bytes_eq (codes "k") (codes "k")
        then live (pos 12) (stamp (pos 10) (lookup key_hash one_key (pos 5) (codes "k")))
        else lookup key_hash one_key (pos 12) (codes "k")))
    × IsSharded with_ttl
lookup-set_expire_example =
    lookup-set_expire key_hash one_key (codes "k") (codes "k") (pos 10) (pos 5) (pos 12)
      one_key-IsSharded (omega arith)

with_ttl-IsSharded : IsSharded with_ttl
with_ttl-IsSharded =
    (lookup-set_expire key_hash one_key (codes "k") (codes "k") (pos 10) (pos 5) (pos 5)
      one_key-IsSharded (omega arith)).2

lookup-persist_example :
    ((Shard.persist key_hash with_ttl (pos 6) (codes "k")).1
      ≡ volatile (lookup key_hash with_ttl (pos 6) (codes "k")))
    × (lookup key_hash (Shard.persist key_hash with_ttl (pos 6) (codes "k")).0 (pos 12) (codes "k")
        ≡ (if bytes_eq (codes "k") (codes "k")
            then live (pos 12) (stamp zero_time (lookup key_hash with_ttl (pos 6) (codes "k")))
            else lookup key_hash with_ttl (pos 12) (codes "k")))
    × IsSharded (Shard.persist key_hash with_ttl (pos 6) (codes "k")).0
lookup-persist_example =
    lookup-persist key_hash with_ttl (codes "k") (codes "k") (pos 6) (pos 12) with_ttl-IsSharded
      (omega arith)

lookup-delete_example :
    ((Shard.delete key_hash with_ttl (pos 6) (codes "k")).1
      ≡ is_some (lookup key_hash with_ttl (pos 6) (codes "k")))
    × (lookup key_hash (Shard.delete key_hash with_ttl (pos 6) (codes "k")).0 (pos 7) (codes "k")
        ≡ (if bytes_eq (codes "k") (codes "k")
            then none
            else lookup key_hash with_ttl (pos 7) (codes "k")))
    × IsSharded (Shard.delete key_hash with_ttl (pos 6) (codes "k")).0
lookup-delete_example =
    lookup-delete key_hash with_ttl (codes "k") (codes "k") (pos 6) (pos 7) with_ttl-IsSharded

abbrev is_large : ℕ → Bool
is_large n = true

abbrev three_keys : List Bytes
three_keys = codes "kkk" ∷ codes "k" ∷ codes "jjj" ∷ []

shard_set_lem_example :
    IsAscending (shard_set key_hash empty three_keys)
    × (contains_index 3 (shard_set key_hash empty three_keys) ≡ touches key_hash empty three_keys 3)
shard_set_lem_example = shard_set_lem key_hash empty three_keys 3

expire_cycle_counts_example :
    ((expire_cycle with_ttl (pos 20) 5).1 ≤ length with_ttl.shards * 5)
    × ((expire_cycle with_ttl (pos 20) 5).2 ≤ (expire_cycle with_ttl (pos 20) 5).1)
    × (len (expire_cycle with_ttl (pos 20) 5).0 + (expire_cycle with_ttl (pos 20) 5).2
        ≡ len with_ttl)
    × (Keyspace.len (get_or with_ttl.shards 1 Keyspace.new)
        ≤ Keyspace.len (get_or (expire_cycle with_ttl (pos 20) 5).0.shards 1 Keyspace.new) + 5)
expire_cycle_counts_example = expire_cycle_counts (pos 20) 5 with_ttl 1
