-- ===== src/Command/Lists.antt =====
-- internal/command/lists.go: LPUSH, RPUSH, LPOP, RPOP, LRANGE and LLEN. `now` is what the clock returns
-- in the call, and `none` is a panic.
pub mod Pushes
pub mod Offs
pub mod Counts
pub mod Pops
pub mod Reads
use memcore.Base.{
  ℕ, zero, suc, Bool, true, false, not, Option, none, some, List, [], ◌∷◌, ◌++◌, drop, get_or,
  length, ltb, ◌==◌, if◌then◌else◌, Bytes, codes,
}
use memcore.Base.Int.{ℤ, pos, negsuc}
use memcore.Base.Decimal.{parse_int}
use memcore.Keyspace.{Time, Entry}
use memcore.Resp.Reply.{Reply, nil, error, int, bulk, array, bulks, done}
use memcore.Shard
use memcore.Shard.{Db}
use memcore.Value.Limits.{Limits}
use memcore.Value.Lists
use memcore.Value.Lists.{PackList, new_list}
use memcore.Value.Union.{Value, list, as_list}
use memcore.Command.Strings.{msg_wrong_type, msg_not_integer}

abbrev pub push : Bool → PackList → Bytes → Option PackList
push true l v = Lists.push_front l v
push false l v = Lists.push_back l v

unfoldable pub push_all : Bool → PackList → List Bytes → Option PackList
push_all front l [] = some l
push_all front l (v ∷ vs) = elim (push front l v) [ none ↦ none | some l' ↦ push_all front l' vs ]

abbrev pub pop : Bool → PackList → Option (PackList × Option Bytes)
pop true l = Lists.pop_front l
pop false l = Lists.pop_back l

-- The pops behind a count, which end at an empty list.
unfoldable pub pop_all : Bool → ℕ → PackList → List Bytes → Option (PackList × List Bytes)
pop_all front zero l out = some (l, out)
pop_all front (suc n) l out = elim (pop front l) [
  | none ↦ none
  | some (l', none) ↦ some (l', out)
  | some (l', some v) ↦ pop_all front n l' (out ++ (v ∷ []))
]

-- The count of LPOP and RPOP: none, a number, or the reply that refuses it.
pub data Count : Type 0 where
  single : Count
  many : ℕ → Count
  rejected : Reply → Count

abbrev pub count_of : Option ℤ → Count
count_of none = rejected (error msg_not_integer)
count_of (some (pos n)) = many n
count_of (some (negsuc n)) = rejected (error (codes "ERR value is out of range, must be positive"))

unfoldable pub parse_count : List Bytes → Count
parse_count args =
    if ltb 3 (length args)
    then rejected (
        error
          (codes "ERR wrong number of arguments for '" ++ (get_or args 0 [] ++ codes "' command")))
    else if length args == 3
    then count_of (parse_int (get_or args 2 []))
    else single

abbrev pub popped_or_nil : Option Bytes → Bytes
popped_or_nil none = []
popped_or_nil (some v) = v

abbrev pub listed : Option (List Bytes) → Option Reply
listed none = none
listed (some es) = some (array (bulks es))

module _ {Z : Type 0} where
  abbrev pub elements_found : ℤ → ℤ → Option (Entry (Value Z)) → Option Reply
  elements_found start stop none = some (array done)
  elements_found start stop (some e) = elim (as_list e.value) [
    | none ↦ some (error msg_wrong_type)
    | some l ↦ listed (Lists.range l start stop)
  ]

  abbrev pub length_found : Option (Entry (Value Z)) → Reply
  length_found none = int (pos 0)
  length_found (some e) = elim (as_list e.value) [
    | none ↦ error msg_wrong_type
    | some l ↦ int (pos (Lists.list_len l))
  ]

  -- The two indices of LRANGE; the first error that matters refuses both.
  abbrev pub range_of : Option ℤ → Option ℤ → Option (Entry (Value Z)) → Option Reply
  range_of none stop o = some (error msg_not_integer)
  range_of (some start) none o = some (error msg_not_integer)
  range_of (some start) (some stop) o = elements_found start stop o

module _ {Z : Type 0} (hash : Bytes → ℕ) where
  abbrev pub set_pushed : Db (Value Z) → Bytes → Option PackList → Option (Db (Value Z) × Reply)
  set_pushed db key none = none
  set_pushed db key (some l) = some (Shard.set hash db key (list l), int (pos (Lists.list_len l)))

  abbrev pub grown : Db (Value Z) → Bytes → Option PackList → Option (Db (Value Z) × Reply)
  grown db key none = none
  grown db key (some l) =
      some (Shard.write_value hash db key (list l), int (pos (Lists.list_len l)))

  abbrev pub push_found :
      Limits
      → Db (Value Z)
      → Bytes
      → List Bytes
      → Bool
      → Option (Entry (Value Z))
      → Option (Db (Value Z) × Reply)
  push_found limits db key vs front none =
      set_pushed db key (push_all front (new_list limits.list) vs)
  push_found limits db key vs front (some e) = elim (as_list e.value) [
    | none ↦ some (db, error msg_wrong_type)
    | some l ↦ grown db key (push_all front l vs)
  ]

  unfoldable pub list_push :
      Limits → Db (Value Z) → Time → List Bytes → Bool → Option (Db (Value Z) × Reply)
  unfolding push_all
  list_push limits db now args front =
      let key = get_or args 1 [] in
      push_found limits db key (drop 2 args) front (Shard.lookup hash db now key)

  -- The key goes with its last element.
  abbrev pub shrunk : Db (Value Z) → Time → Bytes → PackList → Db (Value Z)
  shrunk db now key l =
      let db' = Shard.write_value hash db key (list l) in
      if Lists.list_len l == 0 then (Shard.delete hash db' now key).0 else db'

  abbrev pub popped_one :
      Db (Value Z) → Time → Bytes → Option (PackList × Option Bytes) → Option (Db (Value Z) × Reply)
  popped_one db now key none = none
  popped_one db now key (some (l, v)) = some (shrunk db now key l, bulk (popped_or_nil v))

  abbrev pub popped_many :
      Db (Value Z) → Time → Bytes → Option (PackList × List Bytes) → Option (Db (Value Z) × Reply)
  popped_many db now key none = none
  popped_many db now key (some (l, out)) = some (shrunk db now key l, array (bulks out))

  -- `can_make` says for which capacities `make` of the replies does not panic.
  module _ (can_make : ℕ → Bool) where
    abbrev pub pop_list :
        Db (Value Z) → Time → Bytes → Bool → Count → Option PackList → Option (Db (Value Z) × Reply)
    pop_list db now key front count none = some (db, error msg_wrong_type)
    pop_list db now key front single (some l) = popped_one db now key (pop front l)
    pop_list db now key front (many n) (some l) =
        let out = popped_many db now key (pop_all front n l []) in if can_make n then out else none
    pop_list db now key front (rejected r) (some l) = some (db, r)

    abbrev pub pop_found :
        Db (Value Z)
        → Time
        → Bytes
        → Bool
        → Count
        → Option (Entry (Value Z))
        → Option (Db (Value Z) × Reply)
    pop_found db now key front count none = some (db, nil)
    pop_found db now key front count (some e) = pop_list db now key front count (as_list e.value)

    -- A count that is refused is refused before the lookup.
    abbrev pub pop_counted :
        Db (Value Z)
        → Time
        → Bytes
        → Bool
        → Count
        → Option (Entry (Value Z))
        → Option (Db (Value Z) × Reply)
    pop_counted db now key front (rejected r) o = some (db, r)
    pop_counted db now key front single o = pop_found db now key front single o
    pop_counted db now key front (many n) o = pop_found db now key front (many n) o

    unfoldable pub list_pop :
        Db (Value Z) → Time → List Bytes → Bool → Option (Db (Value Z) × Reply)
    unfolding parse_count pop_all
    list_pop db now args front =
        let key = get_or args 1 [] in
        pop_counted db now key front (parse_count args) (Shard.lookup hash db now key)

    unfoldable pub cmd_lpop : Db (Value Z) → Time → List Bytes → Option (Db (Value Z) × Reply)
    unfolding list_pop
    cmd_lpop db now args = list_pop db now args true

    unfoldable pub cmd_rpop : Db (Value Z) → Time → List Bytes → Option (Db (Value Z) × Reply)
    unfolding list_pop
    cmd_rpop db now args = list_pop db now args false

  unfoldable pub cmd_lpush :
      Limits → Db (Value Z) → Time → List Bytes → Option (Db (Value Z) × Reply)
  unfolding list_push
  cmd_lpush limits db now args = list_push limits db now args true

  unfoldable pub cmd_rpush :
      Limits → Db (Value Z) → Time → List Bytes → Option (Db (Value Z) × Reply)
  unfolding list_push
  cmd_rpush limits db now args = list_push limits db now args false

  unfoldable pub cmd_lrange : Db (Value Z) → Time → List Bytes → Option Reply
  cmd_lrange db now args =
      range_of (parse_int (get_or args 2 [])) (parse_int (get_or args 3 []))
        (Shard.lookup hash db now (get_or args 1 []))

  unfoldable pub cmd_llen : Db (Value Z) → Time → List Bytes → Reply
  cmd_llen db now args = length_found (Shard.lookup hash db now (get_or args 1 []))
