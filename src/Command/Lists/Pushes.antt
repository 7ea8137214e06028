-- ===== src/Command/Lists/Pushes.antt =====
-- LPUSH and RPUSH against the elements that a key stands for.
use memcore.Base.{
  ℕ, ◌+◌, ◌≤◌, ◌≡◌, refl, sym, ap, ◌∙◌, Bool, true, false, Option, none, some, List, [], ◌∷◌, ◌++◌,
  arith, length, length-append, drop, get_or, Bytes, All,
}
use memcore.Base.Int.{pos}
use memcore.Keyspace.{Time, Entry}
use memcore.Resp.Reply.{Reply, int}
use memcore.Shard
use memcore.Shard.{Db, lookup}
use memcore.Shard.Routing.{IsSharded}
use memcore.Value.Limits.{Limits}
use memcore.Value.Pack.{Fits}
use memcore.Value.Lists.{PackList, new_list}
use memcore.Value.Lists.Refines.{
  Holds, new_list-Holds, push_front_refines, push_back_refines, len_refines,
}
use memcore.Value.Union.{Value, list}
use memcore.Command.Collections.{Stored, Changes, set-Changes, write_value-Changes}
use memcore.Command.Lists.{
  push, push_all, set_pushed, grown, push_found, list_push, cmd_lpush, cmd_rpush,
}

-- A value that is a list of the elements `es`.
abbrev pub IsListOf : {Z : Type 0} → Value Z → List Bytes → Type 0
IsListOf v es = (l : PackList) × (v ≡ list l) × Holds l es

abbrev pub size : List Bytes → ℕ
size es = length es

abbrev pub Elements : {Z : Type 0} → Option (Entry (Value Z)) → Time → List Bytes → Type 0
Elements o t es = Stored IsListOf size o t es

-- The elements behind pushes at one end, one after the other.
abbrev pub put_end : Bool → Bytes → List Bytes → List Bytes
put_end true v es = v ∷ es
put_end false v es = es ++ (v ∷ [])

abbrev pub pushed : Bool → List Bytes → List Bytes → List Bytes
pushed front [] es = es
pushed front (v ∷ vs) es = pushed front vs (put_end front v es)

push_refines :
    (front : Bool) (l : PackList) (es : List Bytes) (v : Bytes)
    → Holds l es
    → Fits v
    → (l' : PackList) × (push front l v ≡ some l') × Holds l' (put_end front v es)
push_refines true l es v h fits = push_front_refines l es v h fits
push_refines false l es v h fits = push_back_refines l es v h fits

push_all-step :
    (front : Bool) (l l' : PackList) (v : Bytes) (vs : List Bytes)
    → push front l v ≡ some l'
    → push_all front l (v ∷ vs) ≡ push_all front l' vs
unfolding push_all
push_all-step front l l' v vs e = rw (e, push_all)

push_all-nil : (front : Bool) (l : PackList) → push_all front l [] ≡ some l
unfolding push_all
push_all-nil front l = refl

push_all_refines :
    (front : Bool) (vs : List Bytes) (l : PackList) (es : List Bytes)
    → Holds l es
    → All Fits vs
    → (l' : PackList) × (push_all front l vs ≡ some l') × Holds l' (pushed front vs es)
push_all_refines front [] l es h fits = (l, push_all-nil front l, h)
push_all_refines front (v ∷ vs) l es h fits =
    let (l', e, held) = push_refines front l es v h fits.0 in
    let (l'', rest, held') = push_all_refines front vs l' (put_end front v es) held fits.1 in
    (l'', push_all-step front l l' v vs e ∙ rest, held')

length-put_end :
    (front : Bool) (v : Bytes) (es : List Bytes) → length (put_end front v es) ≡ 1 + length es
length-put_end true v es = omega arith
length-put_end false v es = omega (arith, length-append es (v ∷ []))

pub length-pushed :
    (front : Bool) (vs es : List Bytes) → length (pushed front vs es) ≡ length vs + length es
length-pushed front [] es = omega arith
length-pushed front (v ∷ vs) es =
    omega (arith, length-pushed front vs (put_end front v es), length-put_end front v es)

pub no_elements : (es : List Bytes) → size es ≡ 0 → [] ≡ es
no_elements [] e = refl
no_elements (x ∷ es) e = absurd (omega arith)

module _ {Z : Type 0} (hash : Bytes → ℕ) where
  abbrev pub Pushed :
      Limits
      → Db (Value Z)
      → Time
      → Time
      → Bytes
      → List Bytes
      → List Bytes
      → Time
      → Bool
      → Option (Db (Value Z) × Reply)
      → Type 0
  Pushed limits db now t j args es later front outcome =
      (db' : Db (Value Z)) × (outcome ≡ some (db', int (pos (length (drop 2 args) + length es))))
      × Elements (lookup hash db' now (get_or args 1 [])) t (pushed front (drop 2 args) es)
      × Changes hash db db' (get_or args 1 []) j later

  list_push_at :
      (limits : Limits) (db : Db (Value Z)) (now t later : Time) (j : Bytes) (args : List Bytes)
      (front : Bool) (es : List Bytes) (o : Option (Entry (Value Z)))
      → lookup hash db now (get_or args 1 []) ≡ o
      → IsSharded db
      → Elements o t es
      → All Fits (drop 2 args)
      → 1 ≤ length (drop 2 args)
      → Pushed limits db now t j args es later front (list_push hash limits db now args front)
  unfolding list_push
  list_push_at limits db now t later j args front es none found ok (empty, never) fits some_arg =
      let key = get_or args 1 [] in
      let vs = drop 2 args in
      let (l, e, held) =
        push_all_refines front vs (new_list limits.list) es
          (rw (← no_elements es empty) (new_list-Holds limits.list)) fits in
      let (own, changes) = set-Changes hash db key j (list l) now later ok in
      let total = len_refines l _ held ∙ length-pushed front vs es in
      (
        Shard.set hash db key (list l),
        ap (push_found hash limits db key vs front) found
            ∙ ap (set_pushed hash db key) e
            ∙ ap (λ n. some (Shard.set hash db key (list l), int (pos n))) total,
        rw own (omega (arith, length-pushed front vs es, some_arg), sym never, (l, refl, held)),
        changes,
      )
  list_push_at limits db now t later j args front es (some x) found ok
        (some_element, until, (l, kind, h)) fits some_arg =
      let key = get_or args 1 [] in
      let vs = drop 2 args in
      let (l', e, held) = push_all_refines front vs l es h fits in
      let (own, changes) = write_value-Changes hash db key j (list l') x now later ok found in
      let total = len_refines l' _ held ∙ length-pushed front vs es in
      (
        Shard.write_value hash db key (list l'),
        ap (push_found hash limits db key vs front) found
            ∙ rw kind (ap (grown hash db key) e)
            ∙ ap (λ n. some (Shard.write_value hash db key (list l'), int (pos n))) total,
        rw own (omega (arith, length-pushed front vs es, some_arg), until, (l', refl, held)),
        changes,
      )

  -- LPUSH and RPUSH with at least one element, on a well-formed sharded database in which the key
  -- stands for the elements `es` with the deadline `t` (with no elements and no deadline if it is
  -- absent), do not panic, reply the new number of elements, leave the key standing for `es` with
  -- the arguments pushed one after the other at the front or at the back, with the same deadline,
  -- leave what is under each other key at any time, and the database stays well formed, whatever
  -- the hash.
  pub pushes_refine :
      (limits : Limits) (db : Db (Value Z)) (now t later : Time) (j : Bytes) (args : List Bytes)
      (es : List Bytes)
      → IsSharded db
      → Elements (lookup hash db now (get_or args 1 [])) t es
      → All Fits (drop 2 args)
      → 1 ≤ length (drop 2 args)
      → Pushed limits db now t j args es later true (cmd_lpush hash limits db now args)
        × Pushed limits db now t j args es later false (cmd_rpush hash limits db now args)
  unfolding cmd_lpush cmd_rpush
  pushes_refine limits db now t later j args es ok h fits some_arg = (
    list_push_at limits db now t later j args true es _ refl ok h fits some_arg,
    list_push_at limits db now t later j args false es _ refl ok h fits some_arg,
  )
