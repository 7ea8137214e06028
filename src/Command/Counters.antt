-- ===== src/Command/Counters.antt =====
-- What INCR and DECR do to a number: in range, at its bounds, and with its deadline.
use memcore.Base.{
  ℕ, ◌≡◌, ap, ◌∙◌, false, Option, none, some, arith, if◌then◌else◌, Bytes, bytes_eq, Bool-cases,
  inl, inr,
}
use memcore.Base.Int.{ℤ, pos, negsuc, ◌+ℤ◌, IsInt64}
use memcore.Base.Decimal.{append_int, parse_int-append_int}
use memcore.Keyspace
use memcore.Keyspace.{Time, Entry, expired, live, peek}
use memcore.Keyspace.Index.{set_entry-IsValid}
use memcore.Keyspace.Views.{peek-set_entry}
use memcore.Resp.Reply.{int}
use memcore.Shard
use memcore.Shard.{Db, lookup, keyspace_for}
use memcore.Shard.Routing.{IsSharded, lookup-store, store-IsSharded, keyspace_for-IsValid}
use memcore.Value.Union.{Value, string}
use memcore.Command.Strings.{number, current, would_overflow, incr_by, incr_current}

module _ {V : Type 0} (hash : Bytes → ℕ) where
  lookup-set_entry :
      (db : Db V) (key j : Bytes) (e : Entry V) (later : Time)
      → IsSharded db
      → (lookup hash (Shard.set_entry hash db key e) later j
          ≡ (if bytes_eq key j then live later (some e) else lookup hash db later j))
        × IsSharded (Shard.set_entry hash db key e)
  unfolding Shard.set_entry
  lookup-set_entry db key j e later v = (
    lookup-store hash db key j _ later _ v
        (peek-set_entry (keyspace_for hash db key) key j e later),
    store-IsSharded hash db key _ v
        (set_entry-IsValid _ key e (keyspace_for-IsValid hash db key v)),
  )

room_above : (n : ℤ) → IsInt64 (n +ℤ pos 1) → would_overflow n (pos 1) ≡ false
unfolding ◌+ℤ◌
room_above (pos n) h = ground arith
room_above (negsuc n) h = ground arith

lives :
    {V : Type 0} (now : Time) (o : Option (Entry V)) (e : Entry V)
    → live now o ≡ some e
    → expired e now ≡ false
lives now none e h = cc
lives now (some x) e h = elim (Bool-cases (expired x now)) [
  | inl y ↦ cc (rw y at h)
  | inr n ↦ let same : some x ≡ some e = rw n at h in ground (arith, same, n)
]

pub looked_lives :
    {V : Type 0} (hash : Bytes → ℕ) (db : Db V) (now : Time) (key : Bytes) (e : Entry V)
    → lookup hash db now key ≡ some e
    → expired e now ≡ false
unfolding lookup Keyspace.lookup peek
looked_lives hash db now key e h = lives now _ e h

module _ {Z : Type 0} where
  current_number :
      (e : Entry (Value Z)) (n : ℤ)
      → e.value ≡ string (append_int n)
      → IsInt64 n
      → current (some e) ≡ number n
  current_number e n text h = rw text (rw (parse_int-append_int n h))

  numbered_lives :
      (e : Entry (Value Z)) (n : ℤ) (now : Time)
      → expired e now ≡ false
      → live now (some (record e { value = string (append_int n) }))
        ≡ some (record e { value = string (append_int n) })
  unfolding expired Keyspace.has_expiry
  numbered_lives e n now h = rw h

module _ {Z : Type 0} (hash : Bytes → ℕ) where
  -- On a well-formed sharded database in which a key holds the text of an int64 whose successor is
  -- an int64, `incrBy` with 1 replies the successor, puts its text under the key with the deadline
  -- that was there, leaves what is under each other key, and the database stays well formed,
  -- whatever the hash.
  pub lookup-incr_by :
      (db : Db (Value Z)) (now : Time) (key j : Bytes) (e : Entry (Value Z)) (n : ℤ)
      → IsSharded db
      → lookup hash db now key ≡ some e
      → e.value ≡ string (append_int n)
      → IsInt64 n
      → IsInt64 (n +ℤ pos 1)
      → ((incr_by hash db now key (pos 1)).1 ≡ int (n +ℤ pos 1))
        × (lookup hash (incr_by hash db now key (pos 1)).0 now j ≡ (
            if bytes_eq key j
            then some (record e { value = string (append_int (n +ℤ pos 1)) })
            else lookup hash db now j))
        × IsSharded (incr_by hash db now key (pos 1)).0
  unfolding incr_by
  lookup-incr_by db now key j e n v found text hn hm =
      let e' = record e { value = string (append_int (n +ℤ pos 1)) } in
      let fresh = numbered_lives e (n +ℤ pos 1) now (looked_lives hash db now key e found) in
      let step : incr_by hash db now key (pos 1)
          ≡ (Shard.set_entry hash db key e', int (n +ℤ pos 1)) =
        ap (λ o. incr_current hash db key (pos 1) o (current o)) found
        ∙ ap (incr_current hash db key (pos 1) (some e)) (current_number e n text hn)
        ∙ rw (room_above n hm) in
      let (view, ok) = lookup-set_entry hash db key j e' now v in
      (
        ap (λ t. t.1) step,
        ap (λ t. lookup hash t.0 now j) step
            ∙ view
            ∙ ap (λ o. if bytes_eq key j then o else lookup hash db now j) fresh,
        rw step ok,
      )
