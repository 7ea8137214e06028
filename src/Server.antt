-- ===== src/Server.antt =====
-- The durability side of internal/server: what server.go emits into a snapshot and restores from it, what
-- conn.go logs of a command, and recovery at boot. A database has a hash of its own.
pub mod Logged
mod Tests
use memcore.Base.{
  ℕ, suc, ◌+◌, ◌-◌, ◌*◌, ◌/◌, ◌%◌, ◌^◌, Bool, true, false, ◌&&◌, ◌||◌, Option, none, some, List, [],
  ◌∷◌, ◌++◌, length, get_or, set as set_at, ◌==◌, ltb, if◌then◌else◌, Bytes, bytes_eq, codes,
}
use memcore.Base.Int.{ℤ, pos, negsuc, ◌+ℤ◌, ltb_ℤ, leb_ℤ, pos_part}
use memcore.Base.Decimal.{parse_int, append_int}
use memcore.Base.GoMap.{GoMap}
use memcore.Keyspace.{Time, zero_time, Entry, Keyspace, has_expiry}
use memcore.Shard
use memcore.Shard.{Db}
use memcore.Value.Limits.{Limits}
use memcore.Value.Union.{Value}
use memcore.Command.Lifetimes.{seconds, int64_of}
use memcore.Persistence.Values.{ZSets}
use memcore.Persistence.Snapshot.{Record}
use memcore.Persistence.Store
use memcore.Persistence.Store.{Dir, Outcome}

-- `time.UnixMilli` of an instant, cut down.
unfoldable pub milli_of : Time → ℤ
milli_of (pos n) = pos (n / 10 ^ 6)
milli_of (negsuc n) = negsuc (n / 10 ^ 6)

abbrev pub logged_expire : Time → List Bytes → Option ℤ → List Bytes
logged_expire now args none = args
logged_expire now args (some secs) =
    codes "PEXPIREAT" ∷ get_or args 1 [] ∷ append_int (milli_of (now +ℤ seconds secs)) ∷ []

-- `now` is what the clock returns in the call, which is not the call that the handler made.
unfoldable pub persist_args : Time → Bytes → List Bytes → List Bytes
unfolding milli_of
persist_args now name args =
    let rewritten = logged_expire now args (parse_int (get_or args 2 [])) in
    if bytes_eq name (codes "expire") && (length args == 3) then rewritten else args

-- `UnixNano` wraps around.
abbrev pub unix_nano : Time → ℤ
unix_nano (pos n) = int64_of (n % 2 ^ 64)
unix_nano (negsuc n) = int64_of ((2 ^ 64 - suc n % 2 ^ 64) % 2 ^ 64)

module _ {Z : Type 0} where
  abbrev pub deadline_of : Entry (Value Z) → ℤ
  deadline_of e = if has_expiry e then unix_nano e.expire_at else pos 0

  -- `EachEntry` of a database, behind the records of the shards before.
  unfoldable pub records_of : ℕ → GoMap (Entry (Value Z)) → List (Record Z)
  records_of db [] = []
  records_of db ((key, e) ∷ rest) =
      record { db = pos db; key = key; expire_at = deadline_of e; value = e.value }
      ∷ records_of db rest

  unfoldable pub each_entry : ℕ → List (Keyspace (Value Z)) → List (Record Z)
  unfolding records_of
  each_entry db [] = []
  each_entry db (k ∷ ks) = records_of db k.entries ++ each_entry db ks

  -- The databases from the index `i` on.
  unfoldable pub emit_records : ℕ → List (Db (Value Z)) → List (Record Z)
  unfolding each_entry
  emit_records i [] = []
  emit_records i (db ∷ dbs) = each_entry i db.shards ++ emit_records (i + 1) dbs

  -- The callback of recovery for the snapshot; the Boolean says whether the database is in range.
  abbrev pub entry_of : Record Z → Entry (Value Z)
  entry_of r = record {
    value = r.value;
    expire_at =
        if leb_ℤ r.expire_at (pos 0) && leb_ℤ (pos 0) r.expire_at then zero_time else r.expire_at;
  }

  unfoldable pub restore :
      (ℕ → Bytes → ℕ) → List (Db (Value Z)) → Record Z → List (Db (Value Z)) × Bool
  restore hash dbs r =
      let i = pos_part r.db in
      let restored = Shard.restore (hash i) (get_or dbs i (Shard.new 1)) r.key (entry_of r) in
      if ltb_ℤ r.db (pos 0) || leb_ℤ (pos (length dbs)) r.db
      then (dbs, false)
      else (set_at dbs i restored, true)

  -- `recover`: `dispatch` runs a logged command against the database that it names, and says whether
  -- there is one.
  unfoldable pub recover_databases :
      ZSets Z
      → Limits
      → (ℕ → Bytes → ℕ)
      → (List (Db (Value Z)) → ℤ → List Bytes → List (Db (Value Z)) × Bool)
      → Dir
      → List (Db (Value Z))
      → List (Db (Value Z)) × Outcome
  unfolding restore
  recover_databases zs limits hash dispatch dir dbs =
      Store.recover zs limits (restore hash) dispatch dir dbs
