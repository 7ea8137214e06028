-- ===== src/Command/Hashes/Deletes.antt =====
-- HDEL against the map of fields that a key stands for.
use memcore.Base.{
  ℕ, ◌≤◌, ◌≡◌, refl, ap, ◌∙◌, false, Option, none, some, List, [], arith, length, drop, get_or,
  if◌then◌else◌, ◌==◌, Bytes, Bool-cases, inl, inr,
}
use memcore.Base.Int.{pos}
use memcore.Base.GoMap.{GoMap}
use memcore.Keyspace.{Time, Entry}
use memcore.Resp.Reply.{int}
use memcore.Shard
use memcore.Shard.{Db, lookup}
use memcore.Shard.Routing.{IsSharded}
use memcore.Value.Hash
use memcore.Value.Hash.{PackHash, new_hash, flat}
use memcore.Value.Hash.Represents.{Holds}
use memcore.Value.Hash.Queries.{len_refines}
use memcore.Value.Union.{Value, hash as hash_value}
use memcore.Command.Loops.{each_counted_refines}
use memcore.Command.Collections.{
  Changes, deadline_left, any_good, write_value-Changes, removed-Changes,
}
use memcore.Command.Hashes.{shrunk, delete_found, cmd_hdel}
use memcore.Command.Hashes.Fields.{
  Fields, delete_field, is_field, delete_fields, there_among, no_fields, delete_fields-nil,
  there_among-nil, delete_step,
}

module _ {Z : Type 0} (hash : Bytes → ℕ) where
  abbrev pub Deleted : Db (Value Z) → Time → Time → Bytes → List Bytes → GoMap Bytes → Time → Type 0
  Deleted db now t j args m later =
      (db' : Db (Value Z)) × (cmd_hdel hash db now args
        ≡ some (db', int (pos (there_among (drop 2 args) m))))
      × Fields (lookup hash db' now (get_or args 1 []))
          (deadline_left t (length (delete_fields (drop 2 args) m))) (delete_fields (drop 2 args) m)
      × Changes hash db db' (get_or args 1 []) j later

  hdel_at :
      (db : Db (Value Z)) (now t later : Time) (j : Bytes) (args : List Bytes) (m : GoMap Bytes)
      (o : Option (Entry (Value Z)))
      → lookup hash db now (get_or args 1 []) ≡ o
      → IsSharded db
      → Fields o t m
      → Deleted db now t j args m later
  unfolding cmd_hdel
  hdel_at db now t later j args m none found ok (empty, never) =
      let key = get_or args 1 [] in
      rw (← no_fields m empty) (
        db,
        ap (delete_found hash db now key (drop 2 args)) found
            ∙ ap (λ n. some (db, int (pos n))) (there_among-nil (drop 2 args)),
        rw (found, ← delete_fields-nil (drop 2 args)) (refl, refl),
        record { others = refl; sharded = ok },
      )
  hdel_at db now t later j args m (some x) found ok (some_field, until, (h, kind, held)) =
      let key = get_or args 1 [] in
      let left = delete_fields (drop 2 args) m in
      let (h', e, held') =
        each_counted_refines Hash.delete delete_field is_field Holds (λ _. Unit {0}) delete_step
          (drop 2 args) h m held (any_good (drop 2 args)) in
      let db' : Db (Value Z) =
        if Hash.len h' == 0
        then (Shard.delete hash (Shard.write_value hash db key (hash_value h')) now key).0
        else Shard.write_value hash db key (hash_value h') in
      let run : cmd_hdel hash db now args ≡ some (db', int (pos (there_among (drop 2 args) m))) =
        ap (delete_found hash db now key (drop 2 args)) found
        ∙ rw kind (ap (shrunk hash db now key) e) in
      elim (Bool-cases (Hash.len h' == 0)) [
        | inl y ↦
            let gone : length left ≡ 0 = ground (arith, len_refines h' left held', y) in
            let (own, changes) =
              removed-Changes hash db key j (hash_value h') x now later ok found in
            (
              (Shard.delete hash (Shard.write_value hash db key (hash_value h')) now key).0,
              run ∙ rw y refl,
              rw (own, gone) (refl, refl),
              changes,
            )
        | inr n ↦
            let some_left : 1 ≤ length left = ground (arith, len_refines h' left held', n) in
            let keeps : (length left == 0) ≡ false = ground (arith, some_left) in
            let (own, changes) =
              write_value-Changes hash db key j (hash_value h') x now later ok found in
            (
              Shard.write_value hash db key (hash_value h'),
              run ∙ rw n refl,
              rw (own, keeps) (some_left, until, (h', refl, held')),
              changes,
            )
      ]

  -- HDEL on a well-formed sharded database in which the key stands for the fields `m` with the
  -- deadline `t` (with no fields and no deadline if it is absent) does not panic, replies how many
  -- arguments were fields, each behind those before it, and leaves the key standing for `m` without
  -- them: with the same deadline, or absent if no field is left. It leaves what is under each other
  -- key at any time, and the database stays well formed, whatever the hash.
  pub cmd_hdel_refines :
      (db : Db (Value Z)) (now t later : Time) (j : Bytes) (args : List Bytes) (m : GoMap Bytes)
      → IsSharded db
      → Fields (lookup hash db now (get_or args 1 [])) t m
      → Deleted db now t j args m later
  cmd_hdel_refines db now t later j args m = hdel_at db now t later j args m _ refl
