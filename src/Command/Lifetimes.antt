-- ===== src/Command/Lifetimes.antt =====
-- internal/command/keys.go: DEL, UNLINK, EXISTS, EXPIRE, PEXPIREAT, TTL, PERSIST and TYPE. The server
-- has checked the arity. `now` is what the clock returns in the call; EXPIRE and TTL read it twice.
use memcore.Base.{
  ℕ, suc, ◌+◌, ◌-◌, ◌*◌, ◌/◌, ◌%◌, ◌^◌, Bool, true, false, Option, none, some, List, [], ◌∷◌, drop,
  get_or, ltb, if◌then◌else◌, Bytes, codes,
}
use memcore.Base.Int.{ℤ, pos, negsuc, ◌+ℤ◌, sub_ℤ, pos_part}
use memcore.Base.Decimal.{parse_int}
use memcore.Keyspace.{Time, Entry, has_expiry}
use memcore.Resp.Reply.{Reply, error, int, simple}
use memcore.Shard
use memcore.Shard.{Db}
use memcore.Value.Union.{Value, kind, kind_name, is_collection}
use memcore.Command.Strings.{msg_not_integer}

-- An `int64` product wraps around.
abbrev pub int64_of : ℕ → ℤ
int64_of m = if ltb m (2 ^ 63) then pos m else negsuc (2 ^ 64 - m - 1)

-- `time.Duration(secs) * time.Second`
unfoldable pub seconds : ℤ → ℤ
seconds (pos n) = int64_of (n * 10 ^ 9 % 2 ^ 64)
seconds (negsuc n) = int64_of ((2 ^ 64 - suc n * 10 ^ 9 % 2 ^ 64) % 2 ^ 64)

-- `time.UnixMilli`
unfoldable pub unix_milli : ℤ → Time
unix_milli (pos n) = pos (n * 10 ^ 6)
unix_milli (negsuc n) = negsuc (suc n * 10 ^ 6 - 1)

-- The whole milliseconds of `t.Sub(now)`, which stops at the bounds of `int64`, with 0 for what is
-- below 0.
unfoldable pub milliseconds_left : Time → Time → ℕ
milliseconds_left t now =
    let d = pos_part (sub_ℤ t now) in (if ltb (2 ^ 63 - 1) d then 2 ^ 63 - 1 else d) / 10 ^ 6

abbrev pub flag : Bool → Reply
flag true = int (pos 1)
flag false = int (pos 0)

module _ {Z : Type 0} where
  abbrev pub ttl_reply : Time → Option (Entry (Value Z)) → Reply
  ttl_reply now none = int (negsuc 1)
  ttl_reply now (some e) =
      if has_expiry e
      then int (pos ((milliseconds_left e.expire_at now + 500) / 1000))
      else int (negsuc 0)

  abbrev pub type_reply : Option (Entry (Value Z)) → Reply
  type_reply none = simple (codes "none")
  type_reply (some e) = simple (kind_name (kind e.value))

module _ {Z : Type 0} (hash : Bytes → ℕ) where
  -- The loops of DEL, UNLINK and EXISTS over the keys, with the number of keys that were live.
  unfoldable pub del_loop : Db (Value Z) → Time → List Bytes → Db (Value Z) × ℕ
  del_loop db now [] = (db, 0)
  del_loop db now (key ∷ keys) =
      let (db', live) = Shard.delete hash db now key in
      let (db'', n) = del_loop db' now keys in (db'', if live then suc n else n)

  unfoldable pub cmd_del : Db (Value Z) → Time → List Bytes → Db (Value Z) × Reply
  unfolding del_loop
  cmd_del db now args = let (db', n) = del_loop db now (drop 1 args) in (db', int (pos n))

  unfoldable pub unlink_loop : Db (Value Z) → Time → List Bytes → Db (Value Z) × ℕ
  unlink_loop db now [] = (db, 0)
  unlink_loop db now (key ∷ keys) =
      let (db', live, reaped) = Shard.unlink hash is_collection db now key in
      let (db'', n) = unlink_loop db' now keys in (db'', if live then suc n else n)

  unfoldable pub cmd_unlink : Db (Value Z) → Time → List Bytes → Db (Value Z) × Reply
  unfolding unlink_loop
  cmd_unlink db now args = let (db', n) = unlink_loop db now (drop 1 args) in (db', int (pos n))

  unfoldable pub exists_loop : Db (Value Z) → Time → List Bytes → ℕ
  exists_loop db now [] = 0
  exists_loop db now (key ∷ keys) =
      let n = exists_loop db now keys in if Shard.exists_bytes hash db now key then suc n else n

  unfoldable pub cmd_exists : Db (Value Z) → Time → List Bytes → Reply
  unfolding exists_loop
  cmd_exists db now args = int (pos (exists_loop db now (drop 1 args)))

  abbrev pub expire_at : Db (Value Z) → Time → Bytes → Time → Db (Value Z) × Reply
  expire_at db now key t = let (db', done) = Shard.set_expire hash db now key t in (db', flag done)

  -- The handler reads the clock, `now`, and then the keyspace reads it, `seen`.
  abbrev pub expire_in : Db (Value Z) → Time → Time → Bytes → Option ℤ → Db (Value Z) × Reply
  expire_in db now seen key none = (db, error msg_not_integer)
  expire_in db now seen key (some secs) = expire_at db seen key (now +ℤ seconds secs)

  unfoldable pub cmd_expire : Db (Value Z) → Time → Time → List Bytes → Db (Value Z) × Reply
  unfolding seconds
  cmd_expire db now seen args =
      expire_in db now seen (get_or args 1 []) (parse_int (get_or args 2 []))

  abbrev pub expire_milli : Db (Value Z) → Time → Bytes → Option ℤ → Db (Value Z) × Reply
  expire_milli db now key none = (db, error msg_not_integer)
  expire_milli db now key (some ms) = expire_at db now key (unix_milli ms)

  unfoldable pub cmd_pexpireat : Db (Value Z) → Time → List Bytes → Db (Value Z) × Reply
  unfolding unix_milli
  cmd_pexpireat db now args = expire_milli db now (get_or args 1 []) (parse_int (get_or args 2 []))

  -- The keyspace reads the clock, `seen`, and then the handler reads it, `now`.
  unfoldable pub cmd_ttl : Db (Value Z) → Time → Time → List Bytes → Reply
  unfolding milliseconds_left
  cmd_ttl db seen now args = ttl_reply now (Shard.lookup hash db seen (get_or args 1 []))

  unfoldable pub cmd_persist : Db (Value Z) → Time → List Bytes → Db (Value Z) × Reply
  cmd_persist db now args =
      let (db', done) = Shard.persist hash db now (get_or args 1 []) in (db', flag done)

  unfoldable pub cmd_type : Db (Value Z) → Time → List Bytes → Reply
  cmd_type db now args = type_reply (Shard.lookup hash db now (get_or args 1 []))
