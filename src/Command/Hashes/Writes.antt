-- ===== src/Command/Hashes/Writes.antt =====
-- HSET against the map of fields that a key stands for.
use memcore.Base.{
  arith, ℕ, suc, ◌∷◌, ◌%◌, ◌≤◌, ◌≡◌, refl, sym, ap, ◌∙◌, true, Option, none, some, List, [], length,
  ◌==◌, Bytes, All,
}
use memcore.Base.Int.{pos}
use memcore.Base.GoMap.{GoMap}
use memcore.Keyspace.{Time, Entry}
use memcore.Resp.Reply.{int}
use memcore.Shard
use memcore.Shard.{Db, lookup}
use memcore.Shard.Routing.{IsSharded}
use memcore.Value.Limits.{Limits}
use memcore.Value.Hash.{new_hash}
use memcore.Value.Hash.Represents.{Holds, new_hash-Holds}
use memcore.Value.Union.{Value, hash as hash_value}
use memcore.Command.Loops.{each_counted_refines}
use memcore.Command.Collections.{Changes, set-Changes, write_value-Changes}
use memcore.Command.Hashes.{field_values, set_pair, set_added, grown, set_found, cmd_hset}
use memcore.Command.Hashes.Fields.{
  Fields, put_field, is_new, put_fields, new_among, put_fields-some, no_fields, FitsPair, set_step,
}

-- The arguments of HSET behind the key, for its fields with their values.
abbrev pub arguments_of : List (Bytes × Bytes) → List Bytes
arguments_of [] = []
arguments_of ((f, v) ∷ ps) = f ∷ v ∷ arguments_of ps

field_values-arguments : (ps : List (Bytes × Bytes)) → field_values (arguments_of ps) ≡ ps
unfolding field_values
field_values-arguments [] = refl
field_values-arguments ((f, v) ∷ ps) = ap (λ t. (f, v) ∷ t) (field_values-arguments ps)

arguments_even : (ps : List (Bytes × Bytes)) → length (arguments_of ps) % 2 ≡ 0
arguments_even [] = omega arith
arguments_even ((f, v) ∷ ps) = omega (arith, arguments_even ps)

module _ {Z : Type 0} (hash : Bytes → ℕ) where
  abbrev pub Written :
      Limits
      → Db (Value Z)
      → Time
      → Time
      → Bytes
      → Bytes
      → Bytes
      → List (Bytes × Bytes)
      → GoMap Bytes
      → Time
      → Type 0
  Written limits db now t j name key ps m later =
      (db' : Db (Value Z)) × (cmd_hset hash limits db now (name ∷ key ∷ arguments_of ps)
        ≡ some (db', int (pos (new_among ps m))))
      × Fields (lookup hash db' now key) t (put_fields ps m)
      × Changes hash db db' key j later

  -- Past the parity of the number of arguments.
  cmd_hset-arguments :
      (limits : Limits) (db : Db (Value Z)) (now : Time) (name key : Bytes)
      (ps : List (Bytes × Bytes))
      → cmd_hset hash limits db now (name ∷ key ∷ arguments_of ps)
        ≡ set_found hash limits db key ps (lookup hash db now key)
  unfolding cmd_hset
  cmd_hset-arguments limits db now name key ps =
      let even : (suc (suc (length (arguments_of ps))) % 2 == 0) ≡ true =
        ground (arith, arguments_even ps) in
      rw (even, field_values-arguments ps) refl

  hset_at :
      (limits : Limits) (db : Db (Value Z)) (now t later : Time) (j name key : Bytes)
      (ps : List (Bytes × Bytes)) (m : GoMap Bytes) (o : Option (Entry (Value Z)))
      → lookup hash db now key ≡ o
      → IsSharded db
      → Fields o t m
      → All FitsPair ps
      → 1 ≤ length ps
      → Written limits db now t j name key ps m later
  hset_at limits db now t later j name key ps m none found ok (empty, never) fits some_pair =
      let (h, e, held) =
        each_counted_refines set_pair put_field is_new Holds FitsPair set_step ps
          (new_hash limits.hash) m (rw (← no_fields m empty) (new_hash-Holds limits.hash)) fits in
      let (own, changes) = set-Changes hash db key j (hash_value h) now later ok in
      (
        Shard.set hash db key (hash_value h),
        cmd_hset-arguments limits db now name key ps
            ∙ ap (set_found hash limits db key ps) found
            ∙ ap (set_added hash db key) e,
        rw own (put_fields-some ps m some_pair, sym never, (h, refl, held)),
        changes,
      )
  hset_at limits db now t later j name key ps m (some x) found ok
        (some_field, until, (h, kind, held)) fits some_pair =
      let (h', e, held') =
        each_counted_refines set_pair put_field is_new Holds FitsPair set_step ps h m held fits in
      let (own, changes) = write_value-Changes hash db key j (hash_value h') x now later ok found in
      (
        Shard.write_value hash db key (hash_value h'),
        cmd_hset-arguments limits db now name key ps
            ∙ ap (set_found hash limits db key ps) found
            ∙ rw kind (ap (grown hash db key) e),
        rw own (put_fields-some ps m some_pair, until, (h', refl, held')),
        changes,
      )

  -- HSET of a key with one field and value or more behind it, each field before its value, all of
  -- lengths that fit 64 bits, on a well-formed sharded database in which the key stands for the
  -- fields `m` with the deadline `t` (with no fields and no deadline if it is absent), does not
  -- panic, replies how many of the fields are new, each beside those before it, leaves the key
  -- standing for `m` with each field put to its value in their order and the same deadline, leaves
  -- what is under each other key at any time, and the database stays well formed, whatever the
  -- hash.
  pub cmd_hset_refines :
      (limits : Limits) (db : Db (Value Z)) (now t later : Time) (j name key : Bytes)
      (ps : List (Bytes × Bytes)) (m : GoMap Bytes)
      → IsSharded db
      → Fields (lookup hash db now key) t m
      → All FitsPair ps
      → 1 ≤ length ps
      → Written limits db now t j name key ps m later
  cmd_hset_refines limits db now t later j name key ps m =
      hset_at limits db now t later j name key ps m _ refl
