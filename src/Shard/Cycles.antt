-- ===== src/Shard/Cycles.antt =====
-- `ExpireCycle`: a pass of active expiry over the shards of a database.
use memcore.Base.{
  ℕ, zero, suc, ◌+◌, ◌*◌, ◌%◌, ◌≤◌, ◌≡◌, refl, ap, ◌∙◌, List, [], ◌∷◌, arith, length, All, get_or,
  Bytes,
}
use memcore.Base.Int.{◌≤ℤ◌}
use memcore.Keyspace
use memcore.Keyspace.{Time, Keyspace, peek}
use memcore.Keyspace.Index.{IsValid}
use memcore.Keyspace.Sampling.{sample_expired_counts, sample_expired-IsValid}
use memcore.Keyspace.Expiry.{peek-sample_expired}
use memcore.Shard.{Db, cycle, expire_cycle, index, lookup, len, len_all}
use memcore.Shard.Routing.{IsSharded}

suc_mul : (a b : ℕ) → suc a * b ≡ a * b + b
suc_mul a b = omega arith

module _ {V : Type 0} (now : Time) (limit : ℕ) where
  length-cycle : (ks : List (Keyspace V)) → length (cycle now limit ks).0 ≡ length ks
  unfolding cycle
  length-cycle [] = refl
  length-cycle (k ∷ ks) = ap suc (length-cycle ks)

  cycle-IsValid : (ks : List (Keyspace V)) → All IsValid ks → All IsValid (cycle now limit ks).0
  unfolding cycle
  cycle-IsValid [] v = tt
  cycle-IsValid (k ∷ ks) v = (sample_expired-IsValid now k limit v.0, cycle-IsValid ks v.1)

  cycle_counts :
      (ks : List (Keyspace V))
      → ((cycle now limit ks).1 ≤ length ks * limit)
        × ((cycle now limit ks).2 ≤ (cycle now limit ks).1)
        × (len_all (cycle now limit ks).0 + (cycle now limit ks).2 ≡ len_all ks)
  unfolding cycle len_all
  cycle_counts [] = (omega arith, omega arith, omega arith)
  cycle_counts (k ∷ ks) =
      let (x, y, z) = sample_expired_counts now k limit in
      let (x', y', z') = cycle_counts ks in
      (omega (arith, x, x', suc_mul (length ks) limit), omega (arith, y, y'), omega (arith, z, z'))

  -- No shard loses more entries than the limit.
  cycle_evicts :
      (ks : List (Keyspace V)) (i : ℕ)
      → Keyspace.len (get_or ks i Keyspace.new)
        ≤ Keyspace.len (get_or (cycle now limit ks).0 i Keyspace.new) + limit
  unfolding cycle
  cycle_evicts [] i = omega arith
  cycle_evicts (k ∷ ks) zero =
      let (x, y, z) = sample_expired_counts now k limit in omega (arith, x, y, z)
  cycle_evicts (k ∷ ks) (suc i) = cycle_evicts ks i

  peek-cycle :
      (ks : List (Keyspace V)) (i : ℕ) (j : Bytes) (later : Time)
      → now ≤ℤ later
      → All IsValid ks
      → peek (get_or (cycle now limit ks).0 i Keyspace.new) later j
        ≡ peek (get_or ks i Keyspace.new) later j
  unfolding cycle
  peek-cycle [] i j later le v = refl
  peek-cycle (k ∷ ks) zero j later le v = peek-sample_expired now k limit j later le v.0
  peek-cycle (k ∷ ks) (suc i) j later le v = peek-cycle ks i j later le v.1

  -- A pass of active expiry over a well-formed sharded database leaves it well formed, and at the
  -- time of the pass and later every lookup finds what it found before, whatever the hash and the
  -- limit.
  pub lookup-expire_cycle :
      (hash : Bytes → ℕ) (db : Db V) (key : Bytes) (later : Time)
      → IsSharded db
      → now ≤ℤ later
      → (lookup hash (expire_cycle db now limit).0 later key ≡ lookup hash db later key)
        × IsSharded (expire_cycle db now limit).0
  unfolding lookup expire_cycle Keyspace.lookup index
  lookup-expire_cycle hash db key later v le = (
    ap (λ n. peek (get_or (cycle now limit db.shards).0 (hash key % n) Keyspace.new) later key)
          (length-cycle db.shards)
        ∙ peek-cycle db.shards (hash key % length db.shards) key later le v.each,
    record {
      some_shard = omega (arith, v.some_shard, length-cycle db.shards);
      each = cycle-IsValid db.shards v.each;
    },
  )

  -- A pass of active expiry examines in all at most its limit times the number of shards, evicts no
  -- more entries than it examines, the size of the database falls by what it evicts, and no shard
  -- loses more entries than the limit.
  pub expire_cycle_counts :
      (db : Db V) (i : ℕ)
      → ((expire_cycle db now limit).1 ≤ length db.shards * limit)
        × ((expire_cycle db now limit).2 ≤ (expire_cycle db now limit).1)
        × (len (expire_cycle db now limit).0 + (expire_cycle db now limit).2 ≡ len db)
        × (Keyspace.len (get_or db.shards i Keyspace.new)
            ≤ Keyspace.len (get_or (expire_cycle db now limit).0.shards i Keyspace.new) + limit)
  unfolding expire_cycle len
  expire_cycle_counts db i =
      let (examined, evicted, left) = cycle_counts db.shards in
      (examined, evicted, left, cycle_evicts db.shards i)
