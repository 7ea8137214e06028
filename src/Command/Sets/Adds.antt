-- ===== src/Command/Sets/Adds.antt =====
-- SADD and SMEMBERS against the members that a key stands for.
use memcore.Base.{
  ℕ, ◌+◌, ◌≤◌, ◌≡◌, refl, sym, ap, ◌∙◌, Bool, not, Option, none, some, List, [], ◌∷◌, arith, length,
  drop, get_or, Bytes, All,
}
use memcore.Base.Int.{pos}
use memcore.Base.GoMap
use memcore.Base.GoMap.{GoMap, length-put}
use memcore.Keyspace.{Time, Entry}
use memcore.Resp.Reply.{int, array, bulks}
use memcore.Shard
use memcore.Shard.{Db, lookup}
use memcore.Shard.Routing.{IsSharded}
use memcore.Value.Limits.{Limits}
use memcore.Value.Pack.{Fits}
use memcore.Value.Set.{PackSet, new_set, add}
use memcore.Value.Set.Refines.{Holds, new_set-Holds, add_refines}
use memcore.Value.Set.Queries.{members_refines}
use memcore.Value.Union.{Value, set}
use memcore.Command.Loops.{fold, tally, each_counted_refines}
use memcore.Command.Collections.{Stored, Changes, set-Changes, write_value-Changes}
use memcore.Command.Sets.{
  set_added, grown, add_found, cmd_sadd, members_found, cmd_smembers, listed,
}

-- A value that is a set of the members `m`.
abbrev pub IsSetOf : {Z : Type 0} → Value Z → GoMap (Unit {0}) → Type 0
IsSetOf v m = (s : PackSet) × (v ≡ set s) × Holds s m

abbrev pub size : GoMap (Unit {0}) → ℕ
size m = length m

abbrev pub Members : {Z : Type 0} → Option (Entry (Value Z)) → Time → GoMap (Unit {0}) → Type 0
Members o t m = Stored IsSetOf size o t m

-- The members after SADD, and how many of its arguments are new, each beside the ones before it.
abbrev pub add_member : Bytes → GoMap (Unit {0}) → GoMap (Unit {0})
add_member x m = GoMap.put x tt m

abbrev pub is_new : Bytes → GoMap (Unit {0}) → Bool
is_new x m = not (GoMap.has x m)

abbrev pub put_all : List Bytes → GoMap (Unit {0}) → GoMap (Unit {0})
put_all xs m = fold add_member is_new xs m

abbrev pub new_among : List Bytes → GoMap (Unit {0}) → ℕ
new_among xs m = tally add_member is_new xs m

-- The count is by how much the set grows.
pub length-put_all :
    (xs : List Bytes) (m : GoMap (Unit {0})) → length (put_all xs m) ≡ new_among xs m + length m
length-put_all [] m = omega arith
length-put_all (x ∷ xs) m = ground (arith, length-put_all xs (GoMap.put x tt m), length-put x tt m)

put-some : (x : Bytes) (m : GoMap (Unit {0})) → 1 ≤ length (GoMap.put x tt m)
put-some x [] = unfold GoMap.put in omega arith
put-some x (y ∷ m) = ground (arith, length-put x tt (y ∷ m))

put_all-some : (xs : List Bytes) (m : GoMap (Unit {0})) → 1 ≤ length xs → 1 ≤ length (put_all xs m)
put_all-some [] m h = absurd (omega arith)
put_all-some (x ∷ xs) m h = omega (arith, length-put_all xs (GoMap.put x tt m), put-some x m)

pub no_members : (m : GoMap (Unit {0})) → size m ≡ 0 → [] ≡ m
no_members [] e = refl
no_members (x ∷ m) e = absurd (omega arith)

module _ {Z : Type 0} (hash : Bytes → ℕ) where
  -- The outcome of SADD: the database, the reply, and what the key holds then.
  abbrev pub Added :
      Limits → Db (Value Z) → Time → Time → Bytes → List Bytes → GoMap (Unit {0}) → Time → Type 0
  Added limits db now t j args m later =
      (db' : Db (Value Z)) × (cmd_sadd hash limits db now args
        ≡ some (db', int (pos (new_among (drop 2 args) m))))
      × Members (lookup hash db' now (get_or args 1 [])) t (put_all (drop 2 args) m)
      × Changes hash db db' (get_or args 1 []) j later

  sadd_at :
      (limits : Limits) (db : Db (Value Z)) (now t later : Time) (j : Bytes) (args : List Bytes)
      (m : GoMap (Unit {0})) (o : Option (Entry (Value Z)))
      → lookup hash db now (get_or args 1 []) ≡ o
      → IsSharded db
      → Members o t m
      → All Fits (drop 2 args)
      → 1 ≤ length (drop 2 args)
      → Added limits db now t j args m later
  unfolding cmd_sadd
  sadd_at limits db now t later j args m none found ok (empty, never) fits some_arg =
      let key = get_or args 1 [] in
      let (s, e, held) =
        each_counted_refines add add_member is_new Holds Fits add_refines (drop 2 args)
          (new_set limits.set) m (rw (← no_members m empty) (new_set-Holds limits.set)) fits in
      let (own, changes) = set-Changes hash db key j (set s) now later ok in
      (
        Shard.set hash db key (set s),
        ap (add_found hash limits db key (drop 2 args)) found ∙ ap (set_added hash db key) e,
        rw own (put_all-some (drop 2 args) m some_arg, sym never, (s, refl, held)),
        changes,
      )
  sadd_at limits db now t later j args m (some x) found ok (some_member, until, (s, kind, h)) fits
        some_arg =
      let key = get_or args 1 [] in
      let (s', e, held) =
        each_counted_refines add add_member is_new Holds Fits add_refines (drop 2 args) s m h
          fits in
      let (own, changes) = write_value-Changes hash db key j (set s') x now later ok found in
      (
        Shard.write_value hash db key (set s'),
        ap (add_found hash limits db key (drop 2 args)) found ∙ rw kind (ap (grown hash db key) e),
        rw own (put_all-some (drop 2 args) m some_arg, until, (s', refl, held)),
        changes,
      )

  -- SADD with at least one member, all of lengths that fit 64 bits, on a well-formed sharded
  -- database in which the key stands for the members `m` with the deadline `t` (with no members and
  -- no deadline if it is absent), does not panic, replies how many arguments are new, each beside
  -- those before it, leaves the key standing for `m` with the arguments put in and the same
  -- deadline, leaves what is under each other key at any time, and the database stays well formed,
  -- whatever the hash.
  pub cmd_sadd_refines :
      (limits : Limits) (db : Db (Value Z)) (now t later : Time) (j : Bytes) (args : List Bytes)
      (m : GoMap (Unit {0}))
      → IsSharded db
      → Members (lookup hash db now (get_or args 1 [])) t m
      → All Fits (drop 2 args)
      → 1 ≤ length (drop 2 args)
      → Added limits db now t j args m later
  cmd_sadd_refines limits db now t later j args m = sadd_at limits db now t later j args m _ refl

  -- SMEMBERS on a key that stands for the members `m`, or is absent and `m` empty, replies the members.
  pub cmd_smembers_refines :
      (db : Db (Value Z)) (now t : Time) (args : List Bytes) (m : GoMap (Unit {0}))
      → Members (lookup hash db now (get_or args 1 [])) t m
      → cmd_smembers hash db now args ≡ some (array (bulks (GoMap.keys m)))
  unfolding cmd_smembers
  cmd_smembers_refines db now t args m = smembers_found (lookup hash db now (get_or args 1 []))
    where
      smembers_found :
          (o : Option (Entry (Value Z)))
          → Members o t m
          → members_found o ≡ some (array (bulks (GoMap.keys m)))
      smembers_found none (empty, never) = rw (← no_members m empty) refl
      smembers_found (some x) (some_member, until, (s, kind, h)) =
          rw kind (ap listed (members_refines s m h))
