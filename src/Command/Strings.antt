-- ===== src/Command/Strings.antt =====
-- internal/command/strings.go: GET, SET, INCR and DECR. The server has checked the arity, so the
-- arguments that a handler reads are there. `now` is what the clock returns in the call.
use memcore.Base.{
  ℕ, ◌-◌, ◌^◌, Bool, ◌&&◌, ◌||◌, Option, none, some, List, [], get_or, if◌then◌else◌, Bytes, codes,
}
use memcore.Base.Int.{ℤ, pos, negsuc, ◌+ℤ◌, ltb_ℤ, sub_ℤ}
use memcore.Base.Decimal.{parse_int, append_int}
use memcore.Keyspace.{Time, Entry}
use memcore.Resp.Reply.{Reply, nil, error, int, bulk, ok_reply}
use memcore.Shard
use memcore.Shard.{Db}
use memcore.Value.Union
use memcore.Value.Union.{Value, string}

abbrev pub msg_wrong_type : Bytes
msg_wrong_type = codes "WRONGTYPE Operation against a key holding the wrong kind of value"

abbrev pub msg_not_integer : Bytes
msg_not_integer = codes "ERR value is not an integer or out of range"

-- The number that INCR starts from, or the error reply.
pub data Current : Type 0 where
  number : ℤ → Current
  refused : Reply → Current

abbrev pub parsed : Option ℤ → Current
parsed none = refused (error msg_not_integer)
parsed (some n) = number n

module _ {Z : Type 0} where
  abbrev pub get_reply : Option (Value Z) → Reply
  get_reply none = nil
  get_reply (some (string b)) = bulk b
  get_reply (some (Union.list l)) = error msg_wrong_type
  get_reply (some (Union.hash h)) = error msg_wrong_type
  get_reply (some (Union.set s)) = error msg_wrong_type
  get_reply (some (Union.zset z)) = error msg_wrong_type

  abbrev pub current : Option (Entry (Value Z)) → Current
  current none = number (pos 0)
  current (some e) = elim e.value [
    | string b ↦ parsed (parse_int b)
    | Union.list l ↦ refused (error msg_wrong_type)
    | Union.hash h ↦ refused (error msg_wrong_type)
    | Union.set s ↦ refused (error msg_wrong_type)
    | Union.zset z ↦ refused (error msg_wrong_type)
  ]

-- `math.MaxInt64` and `math.MinInt64` are 2 ^ 63 - 1 and -2 ^ 63; `delta` is 1 or -1.
abbrev pub would_overflow : ℤ → ℤ → Bool
would_overflow cur delta =
    (ltb_ℤ (pos 0) delta && ltb_ℤ (sub_ℤ (pos (2 ^ 63 - 1)) delta) cur)
    || (ltb_ℤ delta (pos 0) && ltb_ℤ cur (sub_ℤ (negsuc (2 ^ 63 - 1)) delta))

module _ {Z : Type 0} (hash : Bytes → ℕ) where
  unfoldable pub cmd_get : Db (Value Z) → Time → List Bytes → Reply
  cmd_get db now args = get_reply (Shard.get_bytes hash db now (get_or args 1 []))

  unfoldable pub cmd_set : Db (Value Z) → List Bytes → Db (Value Z) × Reply
  cmd_set db args = (Shard.set hash db (get_or args 1 []) (string (get_or args 2 [])), ok_reply)

  -- The new value goes into the entry that was there, with its deadline, or into a new one.
  abbrev pub put_number : Db (Value Z) → Bytes → ℤ → Option (Entry (Value Z)) → Db (Value Z)
  put_number db key n none = Shard.set hash db key (string (append_int n))
  put_number db key n (some e) =
      Shard.set_entry hash db key (record e { value = string (append_int n) })

  abbrev pub incr_current :
      Db (Value Z) → Bytes → ℤ → Option (Entry (Value Z)) → Current → Db (Value Z) × Reply
  incr_current db key delta e (refused r) = (db, r)
  incr_current db key delta e (number cur) =
      if would_overflow cur delta
      then (db, error (codes "ERR increment or decrement would overflow"))
      else (put_number db key (cur +ℤ delta) e, int (cur +ℤ delta))

  unfoldable pub incr_by : Db (Value Z) → Time → Bytes → ℤ → Db (Value Z) × Reply
  incr_by db now key delta =
      let e = Shard.lookup hash db now key in incr_current db key delta e (current e)

  unfoldable pub cmd_incr : Db (Value Z) → Time → List Bytes → Db (Value Z) × Reply
  unfolding incr_by
  cmd_incr db now args = incr_by db now (get_or args 1 []) (pos 1)

  unfoldable pub cmd_decr : Db (Value Z) → Time → List Bytes → Db (Value Z) × Reply
  unfolding incr_by
  cmd_decr db now args = incr_by db now (get_or args 1 []) (negsuc 0)
