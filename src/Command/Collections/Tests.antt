-- ===== src/Command/Collections/Tests.antt =====
-- Tests of the handlers of hashes.go, sets.go and lists.go: on a key of each kind with two elements.
use memcore.Base.{
  ℕ, ltb, ◌≡◌, refl, true, false, Bool, none, some, List, [], ◌∷◌, arith, length, Bytes, bytes_eq,
  codes, All,
}
use memcore.Base.Int.{pos, negsuc}
use memcore.Base.Decimal.{append_int, parse_int, parse_int-append_int}
use memcore.Base.GoMap
use memcore.Base.GoMap.{GoMap}
use memcore.Keyspace.{zero_time}
use memcore.Keyspace.Views.{fresh}
use memcore.Resp.Reply.{int, array, bulks}
use memcore.Shard
use memcore.Shard.{Db, new, lookup}
use memcore.Shard.Routing.{IsSharded, new-IsSharded}
use memcore.Value.Limits.{Thresholds, Limits, normalize_range}
use memcore.Value.Pack.{pack_of, Fits}
use memcore.Value.Set.{PackSet}
use memcore.Value.Set.Refines
use memcore.Value.Hash.{PackHash, flat}
use memcore.Value.Hash.Represents
use memcore.Value.Lists.{PackList}
use memcore.Value.Lists.Refines as ListRefines
use memcore.Value.Lists.Slices.{selected}
use memcore.Value.Union
use memcore.Value.Union.{Value}
use memcore.Command.Sets.Inters.{among, common, intersect_refines}
use memcore.Command.Sets.{intersect}
use memcore.Command.Replays.{played, replay_resurrects}
use memcore.Command.Collections.{set-Changes}
use memcore.Command.Sets.Adds.{Added, cmd_sadd_refines}
use memcore.Command.Sets.Removes.{Removed, cmd_srem_refines}
use memcore.Command.Hashes.{cmd_hget, cmd_hgetall}
use memcore.Command.Hashes.Fields.{FitsPair}
use memcore.Command.Hashes.Writes.{Written, cmd_hset_refines}
use memcore.Command.Hashes.Deletes.{Deleted, cmd_hdel_refines}
use memcore.Command.Hashes.Reads.{value_reply, hash_reads_refine}
use memcore.Command.Lists.{many, cmd_lpush, cmd_rpush, cmd_lpop, cmd_rpop, cmd_lrange, cmd_llen}
use memcore.Command.Lists.Pushes.{Pushed, pushes_refine}
use memcore.Command.Lists.Counts.{Asked}
use memcore.Command.Lists.Pops.{PoppedOff, pops_refine}
use memcore.Command.Lists.Reads.{list_reads_refine}

abbrev small : Thresholds
small = record { max_entries = 2; max_bytes = 4 }

abbrev limits : Limits
limits = record { list = small; hash = small; set = small; zset = small }

abbrev Data : Type 0
Data = Value (Unit {0})

abbrev key_hash : Bytes → ℕ
key_hash key = length key

abbrev members : GoMap (Unit {0})
members = (codes "a", tt) ∷ (codes "b", tt) ∷ []

abbrev fields : GoMap Bytes
fields = (codes "f", codes "v") ∷ []

abbrev elements : List Bytes
elements = codes "a" ∷ codes "b" ∷ []

abbrev a_set : PackSet
a_set = record { pack = pack_of (codes "a" ∷ codes "b" ∷ []); count = 2; full = none; max = small }

abbrev a_hash : PackHash
a_hash = record { pack = pack_of (codes "f" ∷ codes "v" ∷ []); count = 1; full = none; max = small }

abbrev a_list : PackList
a_list = record { pack = pack_of elements; count = 2; full = none; max = small }

two_fit : All Fits (codes "a" ∷ codes "b" ∷ [])
two_fit = (omega arith, (omega arith, tt))

a_set-Holds : Refines.Holds a_set members
unfolding GoMap.get bytes_eq
a_set-Holds = record {
  distinct = (refl, (refl, tt));
  fits = two_fit;
  packed = λ _. (refl, refl);
  mapped = λ f e. cc;
  small = λ _. (omega arith, (omega arith, (omega arith, tt)));
}

a_hash-Holds : Represents.Holds a_hash fields
unfolding GoMap.get bytes_eq
a_hash-Holds = record {
  distinct = (refl, tt);
  fits = (omega arith, (omega arith, tt));
  packed = λ _. (refl, refl);
  mapped = λ f e. cc;
  small = λ _. (omega arith, (omega arith, (omega arith, tt)));
}

a_list-Holds : ListRefines.Holds a_list elements
a_list-Holds = record {
  fits = two_fit;
  packed = λ _. (refl, refl);
  linked = λ f e. cc;
  small = λ _. (omega arith, (omega arith, (omega arith, tt)));
}

-- A database with one value under the key "k".
abbrev db_of : Data → Db Data
db_of v = Shard.set key_hash (new 4) (codes "k") v

stored :
    (v : Data)
    → (lookup key_hash (db_of v) (pos 5) (codes "k") ≡ some (fresh v)) × IsSharded (db_of v)
stored v =
    let (own, changes) =
      set-Changes key_hash (new 4) (codes "k") (codes "k") v (pos 5) (pos 5)
        (new-IsSharded Data 4) in
    (own, changes.sharded)

abbrev request : Bytes → List Bytes
request name = name ∷ codes "k" ∷ codes "a" ∷ codes "b" ∷ []

abbrev set_db : Db Data
set_db = db_of (Union.set a_set)

abbrev hash_db : Db Data
hash_db = db_of (Union.hash a_hash)

abbrev list_db : Db Data
list_db = db_of (Union.list a_list)

cmd_sadd_refines_example :
    Added key_hash limits set_db
      (pos 5)
      zero_time
      (codes "j")
      (request (codes "sadd"))
      members
      (pos 9)
cmd_sadd_refines_example =
    cmd_sadd_refines key_hash limits set_db (pos 5) zero_time (pos 9) (codes "j")
      (request (codes "sadd")) members (stored (Union.set a_set)).1
      (rw (stored (Union.set a_set)).0 (omega arith, refl, (a_set, refl, a_set-Holds))) two_fit
      (omega arith)

cmd_srem_refines_example :
    Removed key_hash set_db (pos 5) zero_time (codes "j") (request (codes "srem")) members (pos 9)
cmd_srem_refines_example =
    cmd_srem_refines key_hash set_db (pos 5) zero_time (pos 9) (codes "j") (request (codes "srem"))
      members (stored (Union.set a_set)).1
      (rw (stored (Union.set a_set)).0 (omega arith, refl, (a_set, refl, a_set-Holds)))

-- A new field, a field that is there, and the new one once more.
abbrev new_pairs : List (Bytes × Bytes)
new_pairs = (codes "g", codes "w") ∷ (codes "f", codes "x") ∷ (codes "g", codes "y") ∷ []

pairs_fit : All FitsPair new_pairs
pairs_fit = omega arith

cmd_hset_refines_example :
    Written key_hash limits hash_db
      (pos 5)
      zero_time
      (codes "j")
      (codes "hset")
      (codes "k")
      new_pairs
      fields
      (pos 9)
cmd_hset_refines_example =
    cmd_hset_refines key_hash limits hash_db (pos 5) zero_time (pos 9) (codes "j") (codes "hset")
      (codes "k") new_pairs fields (stored (Union.hash a_hash)).1
      (rw (stored (Union.hash a_hash)).0 (omega arith, refl, (a_hash, refl, a_hash-Holds)))
      pairs_fit (omega arith)

cmd_hdel_refines_example :
    Deleted key_hash hash_db (pos 5) zero_time (codes "j") (request (codes "hdel")) fields (pos 9)
cmd_hdel_refines_example =
    cmd_hdel_refines key_hash hash_db (pos 5) zero_time (pos 9) (codes "j") (request (codes "hdel"))
      fields (stored (Union.hash a_hash)).1
      (rw (stored (Union.hash a_hash)).0 (omega arith, refl, (a_hash, refl, a_hash-Holds)))

hash_reads_refine_example :
    (cmd_hget key_hash hash_db (pos 5) (request (codes "hget"))
      ≡ some (value_reply (GoMap.get (codes "a") fields)))
    × (cmd_hgetall key_hash hash_db (pos 5) (request (codes "hget"))
        ≡ some (array (bulks (flat fields))))
hash_reads_refine_example =
    hash_reads_refine key_hash hash_db (pos 5) zero_time (request (codes "hget")) fields
      (rw (stored (Union.hash a_hash)).0 (omega arith, refl, (a_hash, refl, a_hash-Holds)))

pushes_refine_example :
    Pushed key_hash limits list_db
      (pos 5)
      zero_time
      (codes "j")
      (request (codes "push"))
      elements
      (pos 9)
      true
      (cmd_lpush key_hash limits list_db (pos 5) (request (codes "push")))
    × Pushed key_hash limits list_db
        (pos 5)
        zero_time
        (codes "j")
        (request (codes "push"))
        elements
        (pos 9)
        false
        (cmd_rpush key_hash limits list_db (pos 5) (request (codes "push")))
pushes_refine_example =
    pushes_refine key_hash limits list_db (pos 5) zero_time (pos 9) (codes "j")
      (request (codes "push")) elements (stored (Union.list a_list)).1
      (rw (stored (Union.list a_list)).0 (omega arith, refl, (a_list, refl, a_list-Holds))) two_fit
      (omega arith)

abbrev below_1000 : ℕ → Bool
below_1000 n = ltb n 1000

abbrev pop_request : List Bytes
pop_request = codes "pop" ∷ codes "k" ∷ codes "2" ∷ []

pop_request-Asked : Asked pop_request (many 2)
unfolding parse_int
pop_request-Asked = (refl, refl)

pops_refine_example :
    PoppedOff key_hash below_1000 list_db
      (pos 5)
      zero_time
      (codes "k")
      (codes "j")
      (many 2)
      elements
      (pos 9)
      true
      (cmd_lpop key_hash below_1000 list_db (pos 5) pop_request)
    × PoppedOff key_hash below_1000 list_db
        (pos 5)
        zero_time
        (codes "k")
        (codes "j")
        (many 2)
        elements
        (pos 9)
        false
        (cmd_rpop key_hash below_1000 list_db (pos 5) pop_request)
pops_refine_example =
    pops_refine key_hash below_1000 list_db (pos 5) zero_time (pos 9) (codes "j") pop_request
      elements (many 2) (stored (Union.list a_list)).1
      (rw (stored (Union.list a_list)).0 (omega arith, refl, (a_list, refl, a_list-Holds)))
      pop_request-Asked refl

abbrev range_request : List Bytes
range_request = codes "lrange" ∷ codes "k" ∷ append_int (pos 0) ∷ append_int (negsuc 0) ∷ []

list_reads_refine_example :
    (cmd_lrange key_hash list_db (pos 5) range_request
      ≡ some (array (bulks (selected elements (normalize_range (pos 0) (negsuc 0) 2)))))
    × (cmd_llen key_hash list_db (pos 5) range_request ≡ int (pos 2))
list_reads_refine_example =
    list_reads_refine key_hash list_db (pos 5) zero_time range_request elements (pos 0) (negsuc 0)
      (rw (stored (Union.list a_list)).0 (omega arith, refl, (a_list, refl, a_list-Holds)))
      (parse_int-append_int (pos 0) (omega arith, omega arith))
      (parse_int-append_int (negsuc 0) (omega arith, omega arith))

replay_resurrects_example :
    (lookup key_hash (played key_hash (new {V = Data} 4) (pos 5) (codes "n") 1) (pos 5) (codes "n")
      ≡ some (record { value = Union.string (append_int (pos 2)); expire_at = pos 1000000 }))
    × (lookup key_hash
          (played key_hash (new {V = Data} 4) (pos 1000000) (codes "n") 1)
          (pos 1000000)
          (codes "n")
        ≡ some (fresh (Union.string (append_int (pos 1)))))
replay_resurrects_example =
    replay_resurrects key_hash (new 4) (codes "n") 1 5 1000000 (new-IsSharded Data 4) (omega arith)
      (omega arith) (omega arith)

intersect_refines_example :
    (out : List Bytes) × (intersect (a_set ∷ a_set ∷ []) ≡ some out)
    × (among (codes "b") out ≡ common (codes "b") (members ∷ members ∷ []))
intersect_refines_example =
    intersect_refines a_set (a_set ∷ []) (members ∷ members ∷ []) (codes "b")
      (a_set-Holds, (a_set-Holds, tt))
