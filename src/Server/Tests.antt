-- ===== src/Server/Tests.antt =====
-- Tests of internal/server: a counter with a deadline, and the records of two databases.
use memcore.Base.{ℕ, ◌≡◌, refl, some, [], ◌∷◌, arith, length, Bytes, codes}
use memcore.Base.Int.{pos}
use memcore.Base.Decimal.{append_int}
use memcore.Base.GoMap
use memcore.Keyspace
use memcore.Keyspace.Views.{fresh}
use memcore.Shard
use memcore.Shard.{Db, new, lookup}
use memcore.Shard.Routing.{IsSharded, new-IsSharded}
use memcore.Value.Union.{Value, string}
use memcore.Command.Collections.{set-Changes}
use memcore.Command.Lifetimes.{cmd_expire, cmd_pexpireat}
use memcore.Server.{persist_args, emit_records}
use memcore.Server.Logged.{cut, expire_logged}

abbrev Data : Type 0
Data = Value (Unit {0})

abbrev key_hash : Bytes → ℕ
key_hash key = length key

abbrev v : Data
v = string (codes "v")

abbrev db_of : Db Data
db_of = Shard.set key_hash (new 1) (codes "k") v

stored : (lookup key_hash db_of (pos 5) (codes "k") ≡ some (fresh v)) × IsSharded db_of
stored =
    let (own, changes) =
      set-Changes key_hash (new 1) (codes "k") (codes "k") v (pos 5) (pos 5)
        (new-IsSharded Data 1) in
    (own, changes.sharded)

emitted :
    emit_records 0 (db_of ∷ new 1 ∷ [])
    ≡ record { db = pos 0; key = codes "k"; expire_at = pos 0; value = v } ∷ []
unfolding emit_records Shard.set new Shard.index Keyspace.set GoMap.put Keyspace.new
    Keyspace.has_expiry Keyspace.is_zero
emitted = refl

expire_logged_example :
    (lookup key_hash
        (cmd_expire key_hash db_of
          (pos 4)
          (pos 5)
          (codes "expire" ∷ codes "k" ∷ append_int (pos 7) ∷ [])).0
        (pos 5)
        (codes "k")
      ≡ some (record (fresh v) { expire_at = pos 7000000004 }))
    × (lookup key_hash
          (cmd_pexpireat key_hash db_of (pos 5) (
            persist_args
              (pos 1000009)
              (codes "expire")
              (codes "expire" ∷ codes "k" ∷ append_int (pos 7) ∷ []))).0
          (pos 5)
          (codes "k")
        ≡ some (record (fresh v) { expire_at = pos (cut 7001000009) }))
expire_logged_example =
    expire_logged key_hash db_of (codes "k") (fresh v) 4 5 1000009 7 stored.1 stored.0 (omega arith)
      (omega arith) (omega arith) (omega arith) (omega arith) (omega arith)
