-- ===== src/Expiry.antt =====
-- internal/expiry/expiry.go: a cycle of active expiry over every database. The ticker that starts the
-- cycles is not modelled.
mod Tests
use memcore.Base.{
  ℕ, zero, suc, ◌+◌, ◌≤◌, ◌≡◌, refl, ap, ◌∙◌, List, [], ◌∷◌, arith, length, All, Bytes, get_or,
}
use memcore.Base.Int.{ℤ, pos, negsuc, ◌≤ℤ◌}
use memcore.Keyspace.{Time}
use memcore.Shard.{Db, expire_cycle, lookup}
use memcore.Shard.Routing.{IsSharded}
use memcore.Shard.Cycles.{lookup-expire_cycle}

module _ {V : Type 0} where
  -- The loop over the databases, with the totals.
  unfoldable pub cycle_all : Time → ℕ → List (Db V) → List (Db V) × ℕ × ℕ
  cycle_all now limit [] = ([], 0, 0)
  cycle_all now limit (db ∷ dbs) =
      let (db', examined, evicted) = expire_cycle db now limit in
      let (rest, examined', evicted') = cycle_all now limit dbs in
      (db' ∷ rest, examined + examined', evicted + evicted')

  -- `cycle` of the runner; `limit` is what `SamplePerShard` returns. One that is not positive disables the cycle.
  unfoldable pub run_cycle : Time → ℤ → List (Db V) → List (Db V) × ℕ × ℕ
  unfolding cycle_all
  run_cycle now (negsuc n) dbs = (dbs, 0, 0)
  run_cycle now (pos zero) dbs = (dbs, 0, 0)
  run_cycle now (pos (suc n)) dbs = cycle_all now (suc n) dbs

module _ {V : Type 0} (hash : Bytes → ℕ) (now : Time) (d : Db V) where
  lookup-cycle_all :
      (limit : ℕ) (dbs : List (Db V)) (i : ℕ) (key : Bytes) (later : Time)
      → All IsSharded dbs
      → now ≤ℤ later
      → lookup hash (get_or (cycle_all now limit dbs).0 i d) later key
        ≡ lookup hash (get_or dbs i d) later key
  unfolding cycle_all
  lookup-cycle_all limit [] i key later v le = refl
  lookup-cycle_all limit (db ∷ dbs) zero key later v le =
      (lookup-expire_cycle now limit hash db key later v.0 le).0
  lookup-cycle_all limit (db ∷ dbs) (suc i) key later v le =
      lookup-cycle_all limit dbs i key later v.1 le

  -- If every database is well formed, at the time of a cycle of active expiry and later every
  -- lookup in every database finds what it found before the cycle, whatever the hash and the limit.
  pub lookup-run_cycle :
      (limit : ℤ) (dbs : List (Db V)) (i : ℕ) (key : Bytes) (later : Time)
      → All IsSharded dbs
      → now ≤ℤ later
      → lookup hash (get_or (run_cycle now limit dbs).0 i d) later key
        ≡ lookup hash (get_or dbs i d) later key
  unfolding run_cycle
  lookup-run_cycle (negsuc n) dbs i key later v le = refl
  lookup-run_cycle (pos zero) dbs i key later v le = refl
  lookup-run_cycle (pos (suc n)) dbs i key later v le =
      lookup-cycle_all (suc n) dbs i key later v le
