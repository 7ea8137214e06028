-- ===== src/Command/Lists/Pops.antt =====
-- LPOP and RPOP against the elements that a key stands for.
use memcore.Base.{
  ℕ, zero, suc, ◌≤◌, ◌≡◌, refl, ap, Bool, true, false, Option, none, some, List, [], ◌∷◌, arith,
  length, get_or, ◌==◌, Bytes, Bool-cases, Option-cases, inl, inr,
}
use memcore.Keyspace.{Time, Entry}
use memcore.Resp.Reply.{Reply, nil, bulk, array, bulks}
use memcore.Shard.{Db, lookup}
use memcore.Shard.Routing.{IsSharded}
use memcore.Value.Lists
use memcore.Value.Lists.{PackList, new_list}
use memcore.Value.Lists.Refines.{Holds, len_refines}
use memcore.Value.Lists.Takes.{unsnoc, behind, Popped}
use memcore.Value.Union.{Value, list}
use memcore.Command.Collections.{Changes, deadline_left, write_value-Changes, removed-Changes}
use memcore.Command.Lists.{
  pop, Count, single, many, rejected, shrunk, popped_one, popped_many, pop_counted, cmd_lpop,
  cmd_rpop,
}
use memcore.Command.Lists.Counts.{Asked, parse_count-Asked}
use memcore.Command.Lists.Pushes.{Elements, no_elements}
use memcore.Command.Lists.Offs.{off, offs, offs-end, offs-step, pop_refines, pop_all_refines}

-- How many elements a count takes off at most, and the reply of a pop.
abbrev pub taken : Count → ℕ
taken single = 1
taken (many n) = n
taken (rejected r) = 0

abbrev pub first_of : List Bytes → Bytes
first_of [] = []
first_of (v ∷ vs) = v

abbrev pub reply_of : Count → List Bytes → Reply
reply_of single vs = bulk (first_of vs)
reply_of (many n) vs = array (bulks vs)
reply_of (rejected r) vs = r

-- The reply of a pop from the elements `es`, where a list without elements is an absent key.
abbrev pub pop_reply : Bool → Count → List Bytes → Reply
pop_reply front (rejected r) es = r
pop_reply front single [] = nil
pop_reply front (many n) [] = nil
pop_reply front single (e ∷ es) = bulk (first_of (offs front 1 (e ∷ es)).0)
pop_reply front (many n) (e ∷ es) = array (bulks (offs front n (e ∷ es)).0)

off-nil : (front : Bool) → off front [] ≡ none
off-nil true = refl
off-nil false = refl

offs-nil : (front : Bool) (n : ℕ) → offs front n [] ≡ ([], [])
offs-nil front zero = refl
offs-nil front (suc n) = offs-end front n [] (off-nil front)

off_cons :
    (front : Bool) (e : Bytes) (es : List Bytes)
    → (v : Bytes) × (rest : List Bytes) × (off front (e ∷ es) ≡ some (v, rest))
off_cons true e es = (e, es, refl)
off_cons false e es = elim (Option-cases (unsnoc es)) [
  | inl p ↦ (e, [], ap (behind e) p)
  | inr ((v, rest), p) ↦ (v, e ∷ rest, ap (behind e) p)
]

module _ {Z : Type 0} (hash : Bytes → ℕ) (can_make : ℕ → Bool) where
  abbrev pub PoppedOff :
      Db (Value Z)
      → Time
      → Time
      → Bytes
      → Bytes
      → Count
      → List Bytes
      → Time
      → Bool
      → Option (Db (Value Z) × Reply)
      → Type 0
  PoppedOff db now t key j count es later front outcome =
      (db' : Db (Value Z)) × (outcome ≡ some (db', pop_reply front count es))
      × Elements (lookup hash db' now key)
          (deadline_left t (length (offs front (taken count) es).1)) (offs front (taken count) es).1
      × Changes hash db db' key j later

  -- The key after a write of the list that is left.
  shrunk_lem :
      (db : Db (Value Z)) (now t later : Time) (key j : Bytes) (x : Entry (Value Z)) (l : PackList)
      (left : List Bytes)
      → lookup hash db now key ≡ some x
      → IsSharded db
      → x.expire_at ≡ t
      → Holds l left
      → Elements
          (lookup hash (shrunk hash db now key l) now key)
          (deadline_left t (length left))
          left
        × Changes hash db (shrunk hash db now key l) key j later
  shrunk_lem db now t later key j x l left found ok until held =
      elim (Bool-cases (Lists.list_len l == 0)) [
        | inl y ↦
            let gone : length left ≡ 0 = ground (arith, len_refines l left held, y) in
            let (own, changes) = removed-Changes hash db key j (list l) x now later ok found in
            rw y (rw (own, gone) (refl, refl), changes)
        | inr n ↦
            let some_left : 1 ≤ length left = ground (arith, len_refines l left held, n) in
            let keeps : (length left == 0) ≡ false = ground (arith, some_left) in
            let (own, changes) = write_value-Changes hash db key j (list l) x now later ok found in
            rw n (rw (own, keeps) (some_left, until, (l, refl, held)), changes)
      ]

  -- A key whose list is left as it is.
  unchanged :
      (db : Db (Value Z)) (now t later : Time) (key j : Bytes) (es : List Bytes)
      (o : Option (Entry (Value Z)))
      → lookup hash db now key ≡ o
      → IsSharded db
      → Elements o t es
      → Elements (lookup hash db now key) (deadline_left t (length es)) es
        × Changes hash db db key j later
  unchanged db now t later key j es none found ok (empty, never) =
      (rw (found, ← no_elements es empty) (refl, refl), record { others = refl; sharded = ok })
  unchanged db now t later key j es (some x) found ok (some_element, until, l) =
      let keeps : (length es == 0) ≡ false = ground (arith, some_element) in
      (rw (found, keeps) (some_element, until, l), record { others = refl; sharded = ok })

  pop_at :
      (db : Db (Value Z)) (now t later : Time) (key j : Bytes) (front : Bool) (count : Count)
      (es : List Bytes) (o : Option (Entry (Value Z)))
      → lookup hash db now key ≡ o
      → IsSharded db
      → Elements o t es
      → can_make (taken count) ≡ true
      → PoppedOff db now t key j count es later front
          (pop_counted hash can_make db now key front count o)
  pop_at db now t later key j front (rejected r) es o found ok h room =
      let (kept, same) = unchanged db now t later key j es o found ok h in (db, refl, kept, same)
  pop_at db now t later key j front single [] none found ok h room =
      let (kept, same) = unchanged db now t later key j [] none found ok h in
      (db, refl, rw (offs-nil front 1) kept, same)
  pop_at db now t later key j front (many n) [] none found ok h room =
      let (kept, same) = unchanged db now t later key j [] none found ok h in
      (db, refl, rw (offs-nil front n) kept, same)
  pop_at db now t later key j front single (e ∷ es) none found ok h room =
      absurd (omega (arith, h.0))
  pop_at db now t later key j front (many n) (e ∷ es) none found ok h room =
      absurd (omega (arith, h.0))
  pop_at db now t later key j front single [] (some x) found ok h room = absurd (omega (arith, h.0))
  pop_at db now t later key j front (many n) [] (some x) found ok h room =
      absurd (omega (arith, h.0))
  pop_at db now t later key j front single (e ∷ es) (some x) found ok (_, until, (l, kind, h))
        room =
      let (v, rest, p) = off_cons front e es in
      let popped : Popped l (pop front l) (some (v, rest)) =
        rw p at (pop_refines front l (e ∷ es) h) in
      let (l', r, held) = popped in
      let (kept, same) = shrunk_lem db now t later key j x l' rest found ok until held in
      rw (offs-step front 0 (e ∷ es) rest v p)
        (shrunk hash db now key l', rw kind (ap (popped_one hash db now key) r), kept, same)
  pop_at db now t later key j front (many n) (e ∷ es) (some x) found ok (_, until, (l, kind, h))
        room =
      let (l', r, held) = pop_all_refines front n l (e ∷ es) [] h in
      let (kept, same) = shrunk_lem db now t later key j x l' _ found ok until held in
      (
        shrunk hash db now key l',
        rw kind (rw room (ap (popped_many hash db now key) r)),
        kept,
        same,
      )

  -- LPOP and RPOP on a well-formed sharded database in which the key stands for the elements `es`
  -- with the deadline `t` (with no elements and no deadline if it is absent), with two arguments or
  -- more, the command's name among them, where `make` does not panic for the count: they do not
  -- panic; without a count they reply the element at their end, with a count `n` at most `n`
  -- elements in the order in which they go, on an absent key nil. A third argument that is a number
  -- from 0 on is the count; more arguments than three, and a third one that is no number or a
  -- negative one, are refused with the error for it. They leave the key standing for the other
  -- elements, with the same deadline, or absent if none is left, leave what is under each other key
  -- at any time, and the database stays well formed, whatever the hash.
  pub pops_refine :
      (db : Db (Value Z)) (now t later : Time) (j : Bytes) (args es : List Bytes) (count : Count)
      → IsSharded db
      → Elements (lookup hash db now (get_or args 1 [])) t es
      → Asked args count
      → can_make (taken count) ≡ true
      → PoppedOff db now t
          (get_or args 1 [])
          j
          count
          es
          later
          true
          (cmd_lpop hash can_make db now args)
        × PoppedOff db now t
            (get_or args 1 [])
            j
            count
            es
            later
            false
            (cmd_rpop hash can_make db now args)
  unfolding cmd_lpop cmd_rpop
  pops_refine db now t later j args es count ok h asked room =
      rw (parse_count-Asked args count asked) (
        pop_at db now t later (get_or args 1 []) j true count es _ refl ok h room,
        pop_at db now t later (get_or args 1 []) j false count es _ refl ok h room,
      )
