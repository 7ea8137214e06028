-- ===== src/Shard.antt =====
-- internal/shard/shard.go: one logical database over several keyspaces, each behind its own lock.
-- `hash` stands for `maphash` under the seed of the process; `String` and `Bytes` hash alike.
pub mod Routing
pub mod Locks
pub mod Cycles
mod Tests
use memcore.Base.{
  ℕ, zero, suc, ◌+◌, ◌%◌, Bool, true, false, ◌&&◌, Option, none, some, List, [], ◌∷◌, ◌++◌, length,
  ltb, leb, ◌==◌, if◌then◌else◌, Bytes,
}
use memcore.Base.{get_or, set as set_at}
use memcore.Keyspace
use memcore.Keyspace.{Time, Entry, Keyspace, Sample}

pub record Db (V : Type 0) : Type 0 where
  pub shards : List (Keyspace V)
  -- whether a reaper is installed
  pub reap : Bool

module _ {V : Type 0} where
  abbrev pub fresh_shards : ℕ → List (Keyspace V)
  fresh_shards zero = []
  fresh_shards (suc n) = Keyspace.new ∷ fresh_shards n

  -- At least one shard.
  unfoldable pub new : ℕ → Db V
  new shards = record { shards = fresh_shards (if ltb shards 1 then 1 else shards); reap = false }

  abbrev pub space_at : Db V → ℕ → Keyspace V
  space_at db i = get_or db.shards i Keyspace.new

  abbrev pub store_at : Db V → ℕ → Keyspace V → Db V
  store_at db i k = record db { shards = set_at db.shards i k }

  unfoldable pub flush_all : List (Keyspace V) → List (Keyspace V)
  flush_all [] = []
  flush_all (k ∷ ks) = Keyspace.flush k ∷ flush_all ks

  unfoldable pub flush : Db V → Db V
  unfolding flush_all
  flush db = record db { shards = flush_all db.shards }

  unfoldable pub len_all : List (Keyspace V) → ℕ
  len_all [] = 0
  len_all (k ∷ ks) = Keyspace.len k + len_all ks

  unfoldable pub len : Db V → ℕ
  unfolding len_all
  len db = len_all db.shards

  -- The passes over the shards, with the totals examined and evicted.
  unfoldable pub cycle : Time → ℕ → List (Keyspace V) → List (Keyspace V) × ℕ × ℕ
  cycle now limit [] = ([], 0, 0)
  cycle now limit (k ∷ ks) =
      let s = Keyspace.sample_expired now k limit in
      let (rest, examined, evicted) = cycle now limit ks in
      (s.space ∷ rest, s.examined + examined, s.evicted + evicted)

  unfoldable pub expire_cycle : Db V → Time → ℕ → Db V × ℕ × ℕ
  unfolding cycle
  expire_cycle db now limit =
      let (shards, examined, evicted) = cycle now limit db.shards in
      (record db { shards = shards }, examined, evicted)

  unfoldable pub set_reaper : Db V → Db V
  set_reaper db = record db { reap = true }

unfoldable pub contains_index : ℕ → List ℕ → Bool
contains_index i [] = false
contains_index i (j ∷ js) = if i == j then true else contains_index i js

-- `sort.Ints`
unfoldable pub insert_sorted : ℕ → List ℕ → List ℕ
insert_sorted i [] = i ∷ []
insert_sorted i (j ∷ js) = if leb i j then i ∷ j ∷ js else j ∷ insert_sorted i js

unfoldable pub sort : List ℕ → List ℕ
unfolding insert_sorted
sort [] = []
sort (i ∷ is) = insert_sorted i (sort is)

module _ (hash : Bytes → ℕ) where
  -- `indexString`, `indexBytes` and `ShardOf`
  unfoldable pub index : {V : Type 0} → Db V → Bytes → ℕ
  index db key = hash key % length db.shards

  module _ {V : Type 0} where
    abbrev pub keyspace_for : Db V → Bytes → Keyspace V
    keyspace_for db key = space_at db (index db key)

    abbrev pub store : Db V → Bytes → Keyspace V → Db V
    store db key k = store_at db (index db key) k

    unfoldable pub get : Db V → Time → Bytes → Option V
    get db now key = Keyspace.get (keyspace_for db key) now key

    unfoldable pub get_bytes : Db V → Time → Bytes → Option V
    get_bytes db now key = Keyspace.get_bytes (keyspace_for db key) now key

    unfoldable pub exists_bytes : Db V → Time → Bytes → Bool
    exists_bytes db now key = Keyspace.exists_bytes (keyspace_for db key) now key

    unfoldable pub lookup : Db V → Time → Bytes → Option (Entry V)
    lookup db now key = Keyspace.lookup (keyspace_for db key) now key

    unfoldable pub exists : Db V → Time → Bytes → Bool
    exists db now key = Keyspace.exists (keyspace_for db key) now key

    unfoldable pub set : Db V → Bytes → V → Db V
    set db key v = store db key (Keyspace.set (keyspace_for db key) key v)

    unfoldable pub set_entry : Db V → Bytes → Entry V → Db V
    set_entry db key e = store db key (Keyspace.set_entry (keyspace_for db key) key e)

    unfoldable pub restore : Db V → Bytes → Entry V → Db V
    restore db key e = store db key (Keyspace.set_entry (keyspace_for db key) key e)

    -- A write through the pointer of the value that a lookup returned.
    unfoldable pub write_value : Db V → Bytes → V → Db V
    write_value db key v = store db key (Keyspace.write_value (keyspace_for db key) key v)

    unfoldable pub set_expire : Db V → Time → Bytes → Time → Db V × Bool
    set_expire db now key t =
        let (k, done) = Keyspace.set_expire (keyspace_for db key) now key t in
        (store db key k, done)

    unfoldable pub persist : Db V → Time → Bytes → Db V × Bool
    persist db now key =
        let (k, done) = Keyspace.persist (keyspace_for db key) now key in (store db key k, done)

    unfoldable pub delete : Db V → Time → Bytes → Db V × Bool
    delete db now key =
        let (k, done) = Keyspace.delete (keyspace_for db key) now key in (store db key k, done)

    -- What is handed to the reaper: a live collection, if a reaper is installed.
    abbrev pub reaped : (V → Bool) → Bool → Bool → Option (Entry V) → Option V
    reaped is_collection live reap none = none
    reaped is_collection live reap (some e) =
        if live && (reap && is_collection e.value) then some e.value else none

    unfoldable pub unlink : (V → Bool) → Db V → Time → Bytes → Db V × Bool × Option V
    unlink is_collection db now key =
        let (k, e, live) = Keyspace.take (keyspace_for db key) now key in
        (store db key k, live, reaped is_collection live db.reap e)

    -- The loop of `shardSet`: indices in the order in which they are first seen.
    unfoldable pub collect : Db V → List Bytes → List ℕ → List ℕ
    unfolding contains_index
    collect db [] idx = idx
    collect db (k ∷ ks) idx =
        let i = index db k in collect db ks (if contains_index i idx then idx else idx ++ (i ∷ []))

    unfoldable pub shard_set : Db V → List Bytes → List ℕ
    unfolding collect sort
    shard_set db [] = []
    shard_set db (k ∷ []) = index db k ∷ []
    shard_set db (k ∷ k' ∷ ks) = sort (collect db (k ∷ k' ∷ ks) [])
