-- ===== src/Shard/Routing.antt =====
-- Routing is invisible: a sharded database answers as one keyspace would, whatever the hash is.
use memcore.Base.{
  ℕ, zero, suc, ◌<◌, ◌%◌, ◌≡◌, ◌≢◌, refl, ap, Bool, false, Option, none, some, arith, length, All,
  if◌then◌else◌, ltb, ◌==◌, Bytes, bytes_eq, bytes_eq→eq, Bool-cases, inl, inr, length-set,
  get_or-set_self, get_or-set_ne, All-set, All-get_or,
}
use native.Mathlib.Nat.{mod-lt}
use memcore.Base.Int.{◌≤ℤ◌}
use memcore.Keyspace
use memcore.Keyspace.{Time, zero_time, Entry, Keyspace, live, peek}
use memcore.Keyspace.Index.{
  IsValid, new-IsValid, set-IsValid, set_expire-IsValid, persist-IsValid, delete-IsValid,
}
use memcore.Keyspace.Views.{
  fresh, stamp, volatile, is_some, peek-set, set_expire_view, persist_view, delete_view,
  take-delete,
}
use memcore.Shard.{
  Db, new, fresh_shards, index, keyspace_for, store, lookup, set, set_expire, persist, delete,
  unlink,
}

module _ {V : Type 0} where
  -- There is a shard, and every shard is valid.
  pub record IsSharded (db : Db V) : Type 0 where
    pub some_shard : 0 < length db.shards
    pub each : All IsValid db.shards

fresh_shards-IsValid : (V : Type 0) (n : ℕ) → All IsValid (fresh_shards {V = V} n)
fresh_shards-IsValid V zero = tt
fresh_shards-IsValid V (suc n) = (new-IsValid, fresh_shards-IsValid V n)

length-fresh_shards : (V : Type 0) (n : ℕ) → length (fresh_shards {V = V} n) ≡ n
length-fresh_shards V zero = refl
length-fresh_shards V (suc n) = ap suc (length-fresh_shards V n)

-- A new database has a shard, also when it is asked for none, and its shards are valid.
pub new-IsSharded : (V : Type 0) (n : ℕ) → IsSharded (new {V = V} n)
unfolding new
new-IsSharded V n = record {
  some_shard = ground (arith, length-fresh_shards V (if ltb n 1 then 1 else n));
  each = fresh_shards-IsValid V (if ltb n 1 then 1 else n);
}

module _ {V : Type 0} (hash : Bytes → ℕ) where
  index_in : (db : Db V) (key : Bytes) → IsSharded db → index hash db key < length db.shards
  unfolding index
  index_in db key v = mod-lt (hash key) v.some_shard

  pub keyspace_for-IsValid :
      (db : Db V) (key : Bytes) → IsSharded db → IsValid (keyspace_for hash db key)
  keyspace_for-IsValid db key v =
      All-get_or IsValid db.shards (index hash db key) _ new-IsValid v.each

  pub store-IsSharded :
      (db : Db V) (key : Bytes) (k : Keyspace V)
      → IsSharded db
      → IsValid k
      → IsSharded (store hash db key k)
  store-IsSharded db key k v w = record {
    some_shard = omega (arith, v.some_shard, length-set db.shards (index hash db key) k);
    each = All-set IsValid db.shards (index hash db key) k w v.each;
  }

  index-store :
      (db : Db V) (key j : Bytes) (k : Keyspace V)
      → index hash (store hash db key k) j ≡ index hash db j
  unfolding index
  index-store db key j k = ap (λ n. hash j % n) (length-set db.shards (index hash db key) k)

  other_key :
      (db : Db V) (key j : Bytes) → index hash db key ≢ index hash db j → bytes_eq key j ≡ false
  other_key db key j away = elim (Bool-cases (bytes_eq key j)) [
    | inl y ↦ absurd (away (ap (index hash db) (bytes_eq→eq key j y)))
    | inr n ↦ n
  ]

  -- What holds of the shard of the key holds of the database.
  pub lookup-store :
      (db : Db V) (key j : Bytes) (k : Keyspace V) (later : Time) (r : Option (Entry V))
      → IsSharded db
      → (peek k later j ≡ (if bytes_eq key j then r else peek (keyspace_for hash db key) later j))
      → lookup hash (store hash db key k) later j
        ≡ (if bytes_eq key j then r else lookup hash db later j)
  unfolding lookup Keyspace.lookup
  lookup-store db key j k later r v view =
      elim (Bool-cases (index hash db key == index hash db j)) [
        | inl y ↦
            let same : index hash db key ≡ index hash db j = ground (arith, y) in
            rw
              (
                index-store db key j k,
                ← same,
                get_or-set_self db.shards (index hash db key) k Keyspace.new (index_in db key v),
              )
              view
        | inr n ↦
            let away : index hash db key ≢ index hash db j = λ e. ground (arith, n, e) in
            rw
              (
                index-store db key j k,
                get_or-set_ne db.shards (index hash db key) (index hash db j) k Keyspace.new away,
              )
              (rw (other_key db key j away) refl)
      ]

  -- On a well-formed sharded database, whatever the hash, after `Set` a lookup at any time finds
  -- the value with no deadline under the key, and under each other key what was there; the database
  -- stays well formed.
  pub lookup-set :
      (db : Db V) (key j : Bytes) (x : V) (later : Time)
      → IsSharded db
      → (lookup hash (set hash db key x) later j
          ≡ (if bytes_eq key j then some (fresh x) else lookup hash db later j))
        × IsSharded (set hash db key x)
  unfolding set
  lookup-set db key j x later v = (
    lookup-store db key j _ later _ v (peek-set (keyspace_for hash db key) key j x later),
    store-IsSharded db key _ v (set-IsValid _ key x (keyspace_for-IsValid db key v)),
  )

  -- On a well-formed sharded database, whatever the hash, `SetExpire` answers whether the key is
  -- live; at that time and later every lookup finds under the key its entry with the new deadline,
  -- until that has passed, and under each other key what was there; the database stays well formed.
  pub lookup-set_expire :
      (db : Db V) (key j : Bytes) (t now later : Time)
      → IsSharded db
      → now ≤ℤ later
      → ((set_expire hash db now key t).1 ≡ is_some (lookup hash db now key))
        × (lookup hash (set_expire hash db now key t).0 later j ≡ (
            if bytes_eq key j
            then live later (stamp t (lookup hash db now key))
            else lookup hash db later j))
        × IsSharded (set_expire hash db now key t).0
  unfolding set_expire lookup Keyspace.lookup
  lookup-set_expire db key j t now later v le =
      let view = set_expire_view (keyspace_for hash db key) key j t now later le in
      (
        view.0,
        lookup-store db key j _ later _ v view.1,
        store-IsSharded db key _ v (set_expire-IsValid _ now key t (keyspace_for-IsValid db key v)),
      )

  -- On a well-formed sharded database, whatever the hash, `Persist` answers whether the key is live
  -- with a deadline; at that time and later every lookup finds under a key that was live its entry
  -- with no deadline, and under each other key what was there; the database stays well formed.
  pub lookup-persist :
      (db : Db V) (key j : Bytes) (now later : Time)
      → IsSharded db
      → now ≤ℤ later
      → ((persist hash db now key).1 ≡ volatile (lookup hash db now key))
        × (lookup hash (persist hash db now key).0 later j ≡ (
            if bytes_eq key j
            then live later (stamp zero_time (lookup hash db now key))
            else lookup hash db later j))
        × IsSharded (persist hash db now key).0
  unfolding persist lookup Keyspace.lookup
  lookup-persist db key j now later v le =
      let view = persist_view (keyspace_for hash db key) key j now later le in
      (
        view.0,
        lookup-store db key j _ later _ v view.1,
        store-IsSharded db key _ v (persist-IsValid _ now key (keyspace_for-IsValid db key v)),
      )

  -- On a well-formed sharded database, whatever the hash, `Delete` answers whether the key is live;
  -- afterwards no lookup finds it, at any time, and under each other key a lookup finds what was
  -- there; the database stays well formed.
  pub lookup-delete :
      (db : Db V) (key j : Bytes) (now later : Time)
      → IsSharded db
      → ((delete hash db now key).1 ≡ is_some (lookup hash db now key))
        × (lookup hash (delete hash db now key).0 later j
            ≡ (if bytes_eq key j then none else lookup hash db later j))
        × IsSharded (delete hash db now key).0
  unfolding delete lookup Keyspace.lookup
  lookup-delete db key j now later v =
      let view =
        delete_view (keyspace_for hash db key) key j now later (keyspace_for-IsValid db key v) in
      (
        view.0,
        lookup-store db key j _ later _ v view.1,
        store-IsSharded db key _ v (delete-IsValid _ now key (keyspace_for-IsValid db key v)),
      )

  -- `Unlink` leaves the database that `Delete` leaves and gives its answer, whatever the hash and
  -- whether or not a reaper is installed.
  pub unlink-delete :
      (is_collection : V → Bool) (db : Db V) (now : Time) (key : Bytes)
      → ((unlink hash is_collection db now key).0 ≡ (delete hash db now key).0)
        × ((unlink hash is_collection db now key).1 ≡ (delete hash db now key).1)
  unfolding unlink delete
  unlink-delete is_collection db now key =
      let same = take-delete (keyspace_for hash db key) now key in
      (ap (store hash db key) same.0, same.2)
