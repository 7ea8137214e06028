-- ===== src/Command/Collections.antt =====
-- What the handlers of hashes.go, sets.go and lists.go share: a collection that is stored under a key,
-- changed in place, and taken out when nothing is left in it.
mod Tests
use memcore.Base.{
  ℕ, ◌≤◌, ◌≡◌, refl, sym, ap, ◌∙◌, Bool, true, false, Option, none, some, List, [], ◌∷◌, All, arith,
  if◌then◌else◌, ◌==◌, Bytes, bytes_eq, bytes_eq_refl,
}
use memcore.Base.Int.{◌≤ℤ◌}
use memcore.Keyspace
use memcore.Keyspace.{Time, zero_time, Entry, live}
use memcore.Keyspace.Index.{write_value-IsValid}
use memcore.Keyspace.Views.{fresh, peek-write_value}
use memcore.Shard
use memcore.Shard.{Db, lookup, keyspace_for}
use memcore.Shard.Routing.{
  IsSharded, lookup-store, store-IsSharded, keyspace_for-IsValid, lookup-set, lookup-delete,
}
use memcore.Command.Counters.{looked_lives}

-- What is under another key than `key`.
abbrev pub apart : {V : Type 0} → Bytes → Bytes → Option (Entry V) → Option (Entry V)
apart key j o = if bytes_eq key j then none else o

-- The deadline of what is left: none if nothing is.
abbrev pub deadline_left : Time → ℕ → Time
deadline_left t n = if n == 0 then zero_time else t

pub any_good : (xs : List Bytes) → All (λ _. Unit {0}) xs
any_good [] = tt
any_good (x ∷ xs) = (tt, any_good xs)

module _ {V : Type 0} {A : Type 0} (Den : V → A → Type 0) (size : A → ℕ) where
  -- What a key holds stands for `a`, with the deadline `t`: nothing and no deadline if `a` is empty.
  abbrev pub Stored : Option (Entry V) → Time → A → Type 0
  Stored none t a = (size a ≡ 0) × (t ≡ zero_time)
  Stored (some e) t a = (1 ≤ size a) × (e.expire_at ≡ t) × Den e.value a

module _ {V : Type 0} (hash : Bytes → ℕ) where
  -- `db'` differs from `db` under the key alone, as a lookup of `j` at `later` sees it, and is well formed.
  pub record Changes (db db' : Db V) (key j : Bytes) (later : Time) : Type 0 where
    pub others : apart key j (lookup hash db' later j) ≡ apart key j (lookup hash db later j)
    pub sharded : IsSharded db'

  apart_if :
      (key j : Bytes) (x y o : Option (Entry V))
      → x ≡ (if bytes_eq key j then y else o)
      → apart key j x ≡ apart key j o
  apart_if key j x y o h = ground (arith, h)

  pub lookup-write_value :
      (db : Db V) (key j : Bytes) (v : V) (e : Entry V) (now later : Time)
      → IsSharded db
      → lookup hash db now key ≡ some e
      → (lookup hash (Shard.write_value hash db key v) later j ≡ (
          if bytes_eq key j
          then live later (some (record e { value = v }))
          else lookup hash db later j))
        × IsSharded (Shard.write_value hash db key v)
  unfolding Shard.write_value lookup Keyspace.lookup
  lookup-write_value db key j v e now later ok found = (
    lookup-store hash db key j _ later _ ok
        (peek-write_value (keyspace_for hash db key) key j v e now later found),
    store-IsSharded hash db key _ ok
        (write_value-IsValid _ key v (keyspace_for-IsValid hash db key ok)),
  )

  written_lives :
      (e : Entry V) (v : V) (now : Time)
      → Keyspace.expired e now ≡ false
      → live now (some (record e { value = v })) ≡ some (record e { value = v })
  unfolding Keyspace.expired Keyspace.has_expiry
  written_lives e v now h = rw h

  pub write_value-Changes :
      (db : Db V) (key j : Bytes) (v : V) (e : Entry V) (now later : Time)
      → IsSharded db
      → lookup hash db now key ≡ some e
      → (lookup hash (Shard.write_value hash db key v) now key ≡ some (record e { value = v }))
        × Changes db (Shard.write_value hash db key v) key j later
  write_value-Changes db key j v e now later ok found =
      let (own, _) = lookup-write_value db key key v e now now ok found in
      let (view, fine) = lookup-write_value db key j v e now later ok found in
      (
        own ∙ rw (bytes_eq_refl key) (written_lives e v now (looked_lives hash db now key e found)),
        record { others = apart_if key j _ _ _ view; sharded = fine },
      )

  pub set-Changes :
      (db : Db V) (key j : Bytes) (v : V) (now later : Time)
      → IsSharded db
      → (lookup hash (Shard.set hash db key v) now key ≡ some (fresh v))
        × Changes db (Shard.set hash db key v) key j later
  set-Changes db key j v now later ok =
      let (own, _) = lookup-set hash db key key v now ok in
      let (view, fine) = lookup-set hash db key j v later ok in
      (
        own ∙ rw (bytes_eq_refl key) refl,
        record { others = apart_if key j _ _ _ view; sharded = fine },
      )

  pub delete-Changes :
      (db : Db V) (key j : Bytes) (now later : Time)
      → IsSharded db
      → (lookup hash (Shard.delete hash db now key).0 now key ≡ none)
        × Changes db (Shard.delete hash db now key).0 key j later
  delete-Changes db key j now later ok =
      let (_, own, _) = lookup-delete hash db key key now now ok in
      let (_, view, fine) = lookup-delete hash db key j now later ok in
      (
        own ∙ rw (bytes_eq_refl key) refl,
        record { others = apart_if key j _ _ _ view; sharded = fine },
      )

  -- A write through the pointer, and then the key is deleted.
  pub removed-Changes :
      (db : Db V) (key j : Bytes) (v : V) (e : Entry V) (now later : Time)
      → IsSharded db
      → lookup hash db now key ≡ some e
      → (lookup hash (Shard.delete hash (Shard.write_value hash db key v) now key).0 now key ≡ none)
        × Changes db (Shard.delete hash (Shard.write_value hash db key v) now key).0 key j later
  removed-Changes db key j v e now later ok found =
      let (_, wrote) = write_value-Changes db key j v e now later ok found in
      let (own, gone) =
        delete-Changes (Shard.write_value hash db key v) key j now later wrote.sharded in
      (own, record { others = gone.others ∙ wrote.others; sharded = gone.sharded })
