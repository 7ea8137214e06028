-- ===== src/Command/Sets.antt =====
-- internal/command/sets.go: SADD, SREM, SMEMBERS and SINTER. `now` is what the clock returns in the call,
-- and `none` is a panic.
pub mod Adds
pub mod Removes
pub mod Inters
use memcore.Base.{
  ℕ, zero, suc, ◌+◌, Bool, true, false, ◌&&◌, Option, none, some, List, [], ◌∷◌, ◌++◌, drop, get_or,
  ltb, ◌==◌, if◌then◌else◌, Bytes,
}
use memcore.Base.Int.{pos}
use memcore.Keyspace.{Time, Entry}
use memcore.Resp.Reply.{Reply, error, int, array, bulks, done}
use memcore.Shard
use memcore.Shard.{Db}
use memcore.Value.Limits.{Limits}
use memcore.Value.Set.{PackSet, new_set, add, remove, members, contains, len}
use memcore.Value.Union.{Value, set, as_set}
use memcore.Command.Strings.{msg_wrong_type}
use memcore.Command.Loops.{each_counted}

abbrev pub listed : Option (List Bytes) → Option Reply
listed none = none
listed (some ms) = some (array (bulks ms))

-- The index of the smallest set: `best` is the one so far, of `size` members, and `i` the next index.
unfoldable pub smallest_from : List PackSet → ℕ → ℕ → ℕ → ℕ
smallest_from [] i best size = best
smallest_from (s ∷ sets) i best size =
    if ltb (len s) size
    then smallest_from sets (i + 1) i (len s)
    else smallest_from sets (i + 1) best size

unfoldable pub smallest : List PackSet → ℕ
unfolding smallest_from
smallest [] = 0
smallest (s ∷ sets) = smallest_from (s ∷ sets) 0 0 (len s)

-- Whether each set but the one at index `skip` contains the member; `i` is the index of the first.
unfoldable pub in_all : List PackSet → ℕ → ℕ → Bytes → Option Bool
in_all [] i skip m = some true
in_all (s ∷ sets) i skip m =
    let rest = in_all sets (i + 1) skip m in
    if i == skip
    then rest
    else elim (contains s m) [ none ↦ none | some true ↦ rest | some false ↦ some false ]

-- The members that are kept, appended to `out`.
unfoldable pub keep_in_all : List PackSet → ℕ → List Bytes → List Bytes → Option (List Bytes)
unfolding in_all
keep_in_all sets skip [] out = some out
keep_in_all sets skip (m ∷ ms) out = elim (in_all sets 0 skip m) [
  | none ↦ none
  | some kept ↦ keep_in_all sets skip ms (if kept then out ++ (m ∷ []) else out)
]

abbrev pub kept_of : List PackSet → ℕ → Option (List Bytes) → Option (List Bytes)
kept_of sets skip none = none
kept_of sets skip (some ms) = keep_in_all sets skip ms []

-- `sets[smallest]` is out of range if there is no set.
unfoldable pub set_at : List PackSet → ℕ → Option PackSet
set_at [] i = none
set_at (s ∷ sets) zero = some s
set_at (s ∷ sets) (suc i) = set_at sets i

abbrev pub members_of : Option PackSet → Option (List Bytes)
members_of none = none
members_of (some s) = members s

unfoldable pub intersect : List PackSet → Option (List Bytes)
unfolding smallest keep_in_all set_at
intersect sets = kept_of sets (smallest sets) (members_of (set_at sets (smallest sets)))

-- The first loop of `cmdSInter`: the sets, or the reply that ends the command.
pub data Inputs : Type 0 where
  replied : Reply → Inputs
  inputs : List PackSet → Inputs

abbrev pub with_set : PackSet → Inputs → Inputs
with_set s (replied r) = replied r
with_set s (inputs sets) = inputs (s ∷ sets)

abbrev pub intersected : Inputs → Option Reply
intersected (replied r) = some r
intersected (inputs sets) = listed (intersect sets)

module _ {Z : Type 0} where
  abbrev pub members_found : Option (Entry (Value Z)) → Option Reply
  members_found none = some (array done)
  members_found (some e) = elim (as_set e.value) [
    | none ↦ some (error msg_wrong_type)
    | some s ↦ listed (members s)
  ]

module _ {Z : Type 0} (hash : Bytes → ℕ) where
  -- What is done with the set once the loop is over.
  abbrev pub set_added : Db (Value Z) → Bytes → Option (PackSet × ℕ) → Option (Db (Value Z) × Reply)
  set_added db key none = none
  set_added db key (some (s, n)) = some (Shard.set hash db key (set s), int (pos n))

  abbrev pub grown : Db (Value Z) → Bytes → Option (PackSet × ℕ) → Option (Db (Value Z) × Reply)
  grown db key none = none
  grown db key (some (s, n)) = some (Shard.write_value hash db key (set s), int (pos n))

  abbrev pub add_found :
      Limits
      → Db (Value Z)
      → Bytes
      → List Bytes
      → Option (Entry (Value Z))
      → Option (Db (Value Z) × Reply)
  add_found limits db key ms none = set_added db key (each_counted add (new_set limits.set) ms 0)
  add_found limits db key ms (some e) = elim (as_set e.value) [
    | none ↦ some (db, error msg_wrong_type)
    | some s ↦ grown db key (each_counted add s ms 0)
  ]

  unfoldable pub cmd_sadd :
      Limits → Db (Value Z) → Time → List Bytes → Option (Db (Value Z) × Reply)
  cmd_sadd limits db now args =
      let key = get_or args 1 [] in
      add_found limits db key (drop 2 args) (Shard.lookup hash db now key)

  -- The key goes with its last member.
  abbrev pub shrunk :
      Db (Value Z) → Time → Bytes → Option (PackSet × ℕ) → Option (Db (Value Z) × Reply)
  shrunk db now key none = none
  shrunk db now key (some (s, n)) =
      let db' = Shard.write_value hash db key (set s) in
      some (if len s == 0 then (Shard.delete hash db' now key).0 else db', int (pos n))

  abbrev pub remove_found :
      Db (Value Z)
      → Time
      → Bytes
      → List Bytes
      → Option (Entry (Value Z))
      → Option (Db (Value Z) × Reply)
  remove_found db now key ms none = some (db, int (pos 0))
  remove_found db now key ms (some e) = elim (as_set e.value) [
    | none ↦ some (db, error msg_wrong_type)
    | some s ↦ shrunk db now key (each_counted remove s ms 0)
  ]

  unfoldable pub cmd_srem : Db (Value Z) → Time → List Bytes → Option (Db (Value Z) × Reply)
  cmd_srem db now args =
      let key = get_or args 1 [] in
      remove_found db now key (drop 2 args) (Shard.lookup hash db now key)

  unfoldable pub cmd_smembers : Db (Value Z) → Time → List Bytes → Option Reply
  cmd_smembers db now args = members_found (Shard.lookup hash db now (get_or args 1 []))

  abbrev pub input_found : Inputs → Option (Entry (Value Z)) → Inputs
  input_found rest none = replied (array done)
  input_found rest (some e) = elim (as_set e.value) [
    | none ↦ replied (error msg_wrong_type)
    | some s ↦ with_set s rest
  ]

  unfoldable pub collect_sets : Db (Value Z) → Time → List Bytes → Inputs
  collect_sets db now [] = inputs []
  collect_sets db now (key ∷ keys) =
      let rest = collect_sets db now keys in input_found rest (Shard.lookup hash db now key)

  unfoldable pub cmd_sinter : Db (Value Z) → Time → List Bytes → Option Reply
  unfolding collect_sets intersect
  cmd_sinter db now args = intersected (collect_sets db now (drop 1 args))
