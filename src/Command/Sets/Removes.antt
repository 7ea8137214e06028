-- ===== src/Command/Sets/Removes.antt =====
-- SREM against the members that a key stands for.
use memcore.Base.{
  ℕ, ◌+◌, ◌≤◌, ◌≡◌, refl, ap, ◌∙◌, Bool, false, Option, none, some, List, [], ◌∷◌, arith, length,
  drop, get_or, if◌then◌else◌, ◌==◌, Bytes, Bool-cases, inl, inr,
}
use memcore.Base.Int.{pos}
use memcore.Base.GoMap
use memcore.Base.GoMap.{GoMap, length-delete}
use memcore.Keyspace.{Time, Entry}
use memcore.Resp.Reply.{int}
use memcore.Shard
use memcore.Shard.{Db, lookup}
use memcore.Shard.Routing.{IsSharded}
use memcore.Value.Set.{PackSet, remove, len}
use memcore.Value.Set.Refines.{Holds}
use memcore.Value.Set.Queries.{remove_refines, len_refines}
use memcore.Value.Union.{Value, set}
use memcore.Command.Loops.{fold, tally, each_counted_refines}
use memcore.Command.Collections.{
  Changes, deadline_left, any_good, write_value-Changes, removed-Changes,
}
use memcore.Command.Sets.{shrunk, remove_found, cmd_srem}
use memcore.Command.Sets.Adds.{Members, no_members}

-- The members after SREM, and how many of its arguments were there, each behind the ones before it.
abbrev pub delete_member : Bytes → GoMap (Unit {0}) → GoMap (Unit {0})
delete_member x m = GoMap.delete x m

abbrev pub is_member : Bytes → GoMap (Unit {0}) → Bool
is_member x m = GoMap.has x m

abbrev pub delete_all : List Bytes → GoMap (Unit {0}) → GoMap (Unit {0})
delete_all xs m = fold delete_member is_member xs m

abbrev pub there_among : List Bytes → GoMap (Unit {0}) → ℕ
there_among xs m = tally delete_member is_member xs m

-- The count is by how much the set shrinks.
pub length-delete_all :
    (xs : List Bytes) (m : GoMap (Unit {0}))
    → length m ≡ there_among xs m + length (delete_all xs m)
length-delete_all [] m = omega arith
length-delete_all (x ∷ xs) m =
    ground (arith, length-delete_all xs (GoMap.delete x m), length-delete x m)

remove_step :
    (s : PackSet) (m : GoMap (Unit {0})) (x : Bytes)
    → Holds s m
    → Unit {0}
    → (s' : PackSet) × (remove s x ≡ some (s', is_member x m)) × Holds s' (delete_member x m)
remove_step s m x h _ = remove_refines s m x h

delete_all-nil : (xs : List Bytes) → [] ≡ delete_all xs []
unfolding GoMap.delete
delete_all-nil [] = refl
delete_all-nil (x ∷ xs) = delete_all-nil xs

there_among-nil : (xs : List Bytes) → 0 ≡ there_among xs []
unfolding GoMap.delete GoMap.get
there_among-nil [] = refl
there_among-nil (x ∷ xs) = omega (arith, there_among-nil xs)

module _ {Z : Type 0} (hash : Bytes → ℕ) where
  abbrev pub Removed :
      Db (Value Z) → Time → Time → Bytes → List Bytes → GoMap (Unit {0}) → Time → Type 0
  Removed db now t j args m later =
      (db' : Db (Value Z)) × (cmd_srem hash db now args
        ≡ some (db', int (pos (there_among (drop 2 args) m))))
      × Members (lookup hash db' now (get_or args 1 []))
          (deadline_left t (length (delete_all (drop 2 args) m))) (delete_all (drop 2 args) m)
      × Changes hash db db' (get_or args 1 []) j later

  srem_at :
      (db : Db (Value Z)) (now t later : Time) (j : Bytes) (args : List Bytes)
      (m : GoMap (Unit {0})) (o : Option (Entry (Value Z)))
      → lookup hash db now (get_or args 1 []) ≡ o
      → IsSharded db
      → Members o t m
      → Removed db now t j args m later
  unfolding cmd_srem
  srem_at db now t later j args m none found ok (empty, never) =
      let key = get_or args 1 [] in
      rw (← no_members m empty) (
        db,
        ap (remove_found hash db now key (drop 2 args)) found
            ∙ ap (λ n. some (db, int (pos n))) (there_among-nil (drop 2 args)),
        rw (found, ← delete_all-nil (drop 2 args)) (refl, refl),
        record { others = refl; sharded = ok },
      )
  srem_at db now t later j args m (some x) found ok (some_member, until, (s, kind, h)) =
      let key = get_or args 1 [] in
      let left = delete_all (drop 2 args) m in
      let (s', e, held) =
        each_counted_refines remove delete_member is_member Holds (λ _. Unit {0}) remove_step
          (drop 2 args) s m h (any_good (drop 2 args)) in
      let db' : Db (Value Z) =
        if len s' == 0
        then (Shard.delete hash (Shard.write_value hash db key (set s')) now key).0
        else Shard.write_value hash db key (set s') in
      let run : cmd_srem hash db now args ≡ some (db', int (pos (there_among (drop 2 args) m))) =
        ap (remove_found hash db now key (drop 2 args)) found
        ∙ rw kind (ap (shrunk hash db now key) e) in
      elim (Bool-cases (len s' == 0)) [
        | inl y ↦
            let gone : length left ≡ 0 = ground (arith, len_refines s' left held, y) in
            let (own, changes) = removed-Changes hash db key j (set s') x now later ok found in
            (
              (Shard.delete hash (Shard.write_value hash db key (set s')) now key).0,
              run ∙ rw y refl,
              rw (own, gone) (refl, refl),
              changes,
            )
        | inr n ↦
            let some_left : 1 ≤ length left = ground (arith, len_refines s' left held, n) in
            let keeps : (length left == 0) ≡ false = ground (arith, some_left) in
            let (own, changes) = write_value-Changes hash db key j (set s') x now later ok found in
            (
              Shard.write_value hash db key (set s'),
              run ∙ rw n refl,
              rw (own, keeps) (some_left, until, (s', refl, held)),
              changes,
            )
      ]

  -- SREM on a well-formed sharded database in which the key stands for the members `m` with the
  -- deadline `t` (with no members and no deadline if it is absent) does not panic, replies how many
  -- arguments were members, each behind those before it, and leaves the key standing for `m`
  -- without them: with the same deadline, or absent if no member is left. It leaves what is under
  -- each other key at any time, and the database stays well formed, whatever the hash.
  pub cmd_srem_refines :
      (db : Db (Value Z)) (now t later : Time) (j : Bytes) (args : List Bytes)
      (m : GoMap (Unit {0}))
      → IsSharded db
      → Members (lookup hash db now (get_or args 1 [])) t m
      → Removed db now t j args m later
  cmd_srem_refines db now t later j args m = srem_at db now t later j args m _ refl
