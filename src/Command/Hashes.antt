-- ===== src/Command/Hashes.antt =====
-- internal/command/hashes.go: HSET, HGET, HDEL and HGETALL. `now` is what the clock returns in the call,
-- and `none` is a panic.
pub mod Fields
pub mod Writes
pub mod Deletes
pub mod Reads
use memcore.Base.{
  ℕ, zero, suc, ◌%◌, Bool, true, false, not, Option, none, some, List, [], ◌∷◌, drop, get_or,
  length, ◌==◌, if◌then◌else◌, Bytes, codes,
}
use memcore.Base.Int.{pos}
use memcore.Keyspace.{Time, Entry}
use memcore.Resp.Reply.{Reply, nil, error, int, bulk, array, bulks, done}
use memcore.Shard
use memcore.Shard.{Db}
use memcore.Value.Limits.{Limits}
use memcore.Value.Hash
use memcore.Value.Hash.{PackHash, new_hash}
use memcore.Value.Union.{Value, hash as hash_value, as_hash}
use memcore.Command.Strings.{msg_wrong_type}
use memcore.Command.Loops.{each_counted}

-- `args[i]` with `args[i+1]`, as the loop of `cmdHSet` takes them.
unfoldable pub field_values : List Bytes → List (Bytes × Bytes)
field_values [] = []
field_values (f ∷ []) = []
field_values (f ∷ v ∷ rest) = (f, v) ∷ field_values rest

abbrev pub set_pair : PackHash → Bytes × Bytes → Option (PackHash × Bool)
set_pair h (f, v) = Hash.set h f v

abbrev pub got : Option (Option Bytes) → Option Reply
got none = none
got (some none) = some nil
got (some (some v)) = some (bulk v)

abbrev pub listed : Option (List Bytes) → Option Reply
listed none = none
listed (some ps) = some (array (bulks ps))

module _ {Z : Type 0} where
  abbrev pub field_found : Bytes → Option (Entry (Value Z)) → Option Reply
  field_found f none = some nil
  field_found f (some e) = elim (as_hash e.value) [
    | none ↦ some (error msg_wrong_type)
    | some h ↦ got (Hash.get h f)
  ]

  abbrev pub pairs_found : Option (Entry (Value Z)) → Option Reply
  pairs_found none = some (array done)
  pairs_found (some e) = elim (as_hash e.value) [
    | none ↦ some (error msg_wrong_type)
    | some h ↦ listed (Hash.pairs h)
  ]

module _ {Z : Type 0} (hash : Bytes → ℕ) where
  -- What is done with the hash once the loop is over.
  abbrev pub set_added :
      Db (Value Z) → Bytes → Option (PackHash × ℕ) → Option (Db (Value Z) × Reply)
  set_added db key none = none
  set_added db key (some (h, n)) = some (Shard.set hash db key (hash_value h), int (pos n))

  abbrev pub grown : Db (Value Z) → Bytes → Option (PackHash × ℕ) → Option (Db (Value Z) × Reply)
  grown db key none = none
  grown db key (some (h, n)) = some (Shard.write_value hash db key (hash_value h), int (pos n))

  abbrev pub set_found :
      Limits
      → Db (Value Z)
      → Bytes
      → List (Bytes × Bytes)
      → Option (Entry (Value Z))
      → Option (Db (Value Z) × Reply)
  set_found limits db key fvs none =
      set_added db key (each_counted set_pair (new_hash limits.hash) fvs 0)
  set_found limits db key fvs (some e) = elim (as_hash e.value) [
    | none ↦ some (db, error msg_wrong_type)
    | some h ↦ grown db key (each_counted set_pair h fvs 0)
  ]

  unfoldable pub cmd_hset :
      Limits → Db (Value Z) → Time → List Bytes → Option (Db (Value Z) × Reply)
  unfolding field_values
  cmd_hset limits db now args =
      let key = get_or args 1 [] in
      let done =
        set_found limits db key (field_values (drop 2 args)) (Shard.lookup hash db now key) in
      if not (length args % 2 == 0)
      then some (db, error (codes "ERR wrong number of arguments for 'hset' command"))
      else done

  unfoldable pub cmd_hget : Db (Value Z) → Time → List Bytes → Option Reply
  cmd_hget db now args =
      field_found (get_or args 2 []) (Shard.lookup hash db now (get_or args 1 []))

  -- The key goes with its last field.
  abbrev pub shrunk :
      Db (Value Z) → Time → Bytes → Option (PackHash × ℕ) → Option (Db (Value Z) × Reply)
  shrunk db now key none = none
  shrunk db now key (some (h, n)) =
      let db' = Shard.write_value hash db key (hash_value h) in
      some (if Hash.len h == 0 then (Shard.delete hash db' now key).0 else db', int (pos n))

  abbrev pub delete_found :
      Db (Value Z)
      → Time
      → Bytes
      → List Bytes
      → Option (Entry (Value Z))
      → Option (Db (Value Z) × Reply)
  delete_found db now key fs none = some (db, int (pos 0))
  delete_found db now key fs (some e) = elim (as_hash e.value) [
    | none ↦ some (db, error msg_wrong_type)
    | some h ↦ shrunk db now key (each_counted Hash.delete h fs 0)
  ]

  unfoldable pub cmd_hdel : Db (Value Z) → Time → List Bytes → Option (Db (Value Z) × Reply)
  cmd_hdel db now args =
      let key = get_or args 1 [] in
      delete_found db now key (drop 2 args) (Shard.lookup hash db now key)

  unfoldable pub cmd_hgetall : Db (Value Z) → Time → List Bytes → Option Reply
  cmd_hgetall db now args = pairs_found (Shard.lookup hash db now (get_or args 1 []))
