-- ===== src/Expiry/Tests.antt =====
-- A test of internal/expiry: a cycle over two databases.
use memcore.Base.{ℕ, ◌≡◌, List, [], ◌∷◌, arith, length, get_or, Bytes, codes}
use memcore.Base.Int.{pos}
use memcore.Shard.{Db, new, lookup}
use memcore.Shard.Routing.{new-IsSharded}
use memcore.Expiry.{run_cycle, lookup-run_cycle}

abbrev key_hash : Bytes → ℕ
key_hash key = length key

abbrev databases : List (Db ℕ)
databases = new 4 ∷ new 1 ∷ []

lookup-run_cycle_example :
    lookup key_hash (get_or (run_cycle (pos 20) (pos 5) databases).0 1 (new 1)) (pos 21) (codes "k")
    ≡ lookup key_hash (get_or databases 1 (new 1)) (pos 21) (codes "k")
lookup-run_cycle_example =
    lookup-run_cycle key_hash (pos 20) (new 1) (pos 5) databases 1 (codes "k") (pos 21)
      (new-IsSharded ℕ 4, (new-IsSharded ℕ 1, tt)) (omega arith)
