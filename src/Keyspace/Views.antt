-- ===== src/Keyspace/Views.antt =====
-- What a reader sees of a keyspace before and after each operation.
use memcore.Base.{
  ◌≡◌, refl, sym, ap, ◌∙◌, Bool, true, false, not, Option, none, some, arith, if◌then◌else◌, Bytes,
  bytes_eq, bytes_eq→eq, Bool-cases, inl, inr,
}
use memcore.Base.Int.{◌≤ℤ◌, eq_of_parts}
use memcore.Base.GoMap
use memcore.Base.GoMap.{GoMap, get-put, get-delete}
use memcore.Keyspace.{
  Time, zero_time, is_zero, Entry, has_expiry, expired, Keyspace, live, peek, get, get_bytes,
  exists_bytes, exists, set, set_entry, write_found, write_value, expire_found, set_expire,
  persist_found, persist, without, delete_found, delete, take_found, take,
}
use memcore.Keyspace.Index.{IsValid}

abbrev pub is_some {ℓ} : {A : Type ℓ} → Option A → Bool
is_some none = false
is_some (some a) = true

module _ {V : Type 0} where
  -- What has expired stays expired.
  pub expired_later :
      (e : Entry V) (now later : Time)
      → now ≤ℤ later
      → expired e now ≡ true
      → expired e later ≡ true
  unfolding expired
  expired_later e now later le h = ground arith

  live-live :
      (now later : Time) (o : Option (Entry V))
      → now ≤ℤ later
      → live later (live now o) ≡ live later o
  live-live now later none le = refl
  live-live now later (some e) le = elim (Bool-cases (expired e now)) [
    | inl y ↦ rw (y, expired_later e now later le y)
    | inr n ↦ rw n
  ]

  abbrev pub fresh : V → Entry V
  fresh v = record { value = v; expire_at = zero_time }

  fresh_lives : (v : V) (now : Time) → expired (fresh v) now ≡ false
  unfolding expired is_zero
  fresh_lives v now = refl

  abbrev pub stamp : Time → Option (Entry V) → Option (Entry V)
  stamp t none = none
  stamp t (some e) = some (record e { expire_at = t })

  abbrev pub volatile : Option (Entry V) → Bool
  volatile none = false
  volatile (some e) = has_expiry e

  -- `GetBytes` returns what `Get` returns for the same key at the same time.
  pub get_bytes-eq-get :
      (k : Keyspace V) (now : Time) (key : Bytes) → get_bytes k now key ≡ get k now key
  unfolding get_bytes get
  get_bytes-eq-get k now key = ground arith

  -- `ExistsBytes` answers what `Exists` answers for the same key at the same time.
  pub exists_bytes-eq-exists :
      (k : Keyspace V) (now : Time) (key : Bytes) → exists_bytes k now key ≡ exists k now key
  unfolding exists_bytes exists
  exists_bytes-eq-exists k now key = ground arith

  -- After `Set` every reader, at any time, finds the value with no deadline under the key, and under
  -- each other key what was there.
  pub peek-set :
      (k : Keyspace V) (key j : Bytes) (v : V) (now : Time)
      → peek (set k key v) now j ≡ (if bytes_eq key j then some (fresh v) else peek k now j)
  unfolding peek set
  peek-set k key j v now = elim (Bool-cases (bytes_eq key j)) [
    | inl y ↦ rw (get-put key j (fresh v) k.entries, y, fresh_lives v now)
    | inr n ↦ rw (get-put key j (fresh v) k.entries, n)
  ]

  -- After `SetEntry` a reader at any time finds the entry under the key, unless its deadline has
  -- passed, and under each other key what was there.
  pub peek-set_entry :
      (k : Keyspace V) (key j : Bytes) (e : Entry V) (now : Time)
      → peek (set_entry k key e) now j
        ≡ (if bytes_eq key j then live now (some e) else peek k now j)
  unfolding peek set_entry
  peek-set_entry k key j e now = elim (Bool-cases (bytes_eq key j)) [
    | inl y ↦ rw (get-put key j e k.entries, y)
    | inr n ↦ rw (get-put key j e k.entries, n)
  ]

  -- A live entry is in the map.
  stored_live :
      (k : Keyspace V) (key : Bytes) (e : Entry V) (now : Time)
      → peek k now key ≡ some e
      → GoMap.get key k.entries ≡ some e
  unfolding peek
  stored_live k key e now p = lives_in (GoMap.get key k.entries) p
    where
      lives_in : (o : Option (Entry V)) → live now o ≡ some e → o ≡ some e
      lives_in none q = cc
      lives_in (some x) q = elim (Bool-cases (expired x now)) [
        | inl y ↦ cc (rw y at q)
        | inr n ↦ rw n at q
      ]

  -- A put over a live entry, seen at a later time.
  peek-put :
      (k : Keyspace V) (key j : Bytes) (e : Entry V) (w : GoMap (Unit {0})) (later : Time)
      → peek (record { entries = GoMap.put key e k.entries; with_ttl = w }) later j
        ≡ (if bytes_eq key j then live later (some e) else peek k later j)
  unfolding peek
  peek-put k key j e w later = elim (Bool-cases (bytes_eq key j)) [
    | inl y ↦ rw (get-put key j e k.entries, y)
    | inr n ↦ rw (get-put key j e k.entries, n)
  ]

  -- After a write through the pointer of a live entry.
  pub peek-write_value :
      (k : Keyspace V) (key j : Bytes) (v : V) (e : Entry V) (now later : Time)
      → peek k now key ≡ some e
      → peek (write_value k key v) later j
        ≡ (if bytes_eq key j then live later (some (record e { value = v })) else peek k later j)
  unfolding write_value
  peek-write_value k key j v e now later p =
      ap (λ o. peek (write_found k key v o) later j) (stored_live k key e now p)
      ∙ peek-put k key j (record e { value = v }) k.with_ttl later

  -- A key that is dead now is dead later.
  peek_dead :
      (k : Keyspace V) (key j : Bytes) (now later : Time)
      → now ≤ℤ later
      → peek k now key ≡ none
      → peek k later j ≡ (if bytes_eq key j then none else peek k later j)
  unfolding peek
  peek_dead k key j now later le p = elim (Bool-cases (bytes_eq key j)) [
    | inl y ↦ rw y (
        let same : key ≡ j = bytes_eq→eq key j y in
        rw (← same) (sym (live-live now later (GoMap.get key k.entries) le) ∙ ap (live later) p))
    | inr n ↦ rw n
  ]

  expire_found_view :
      (k : Keyspace V) (key j : Bytes) (t now later : Time) (o : Option (Entry V))
      → now ≤ℤ later
      → peek k now key ≡ o
      → ((expire_found k key t o).1 ≡ is_some o)
        × (peek (expire_found k key t o).0 later j
            ≡ (if bytes_eq key j then live later (stamp t o) else peek k later j))
  expire_found_view k key j t now later none le p = (refl, peek_dead k key j now later le p)
  expire_found_view k key j t now later (some e) le p =
      (refl, peek-put k key j (record e { expire_at = t }) _ later)

  -- `SetExpire` answers whether the key is live; if it is, every later reader finds its entry with the
  -- new deadline, and under each other key what was there.
  pub set_expire_view :
      (k : Keyspace V) (key j : Bytes) (t now later : Time)
      → now ≤ℤ later
      → ((set_expire k now key t).1 ≡ is_some (peek k now key))
        × (peek (set_expire k now key t).0 later j
            ≡ (if bytes_eq key j then live later (stamp t (peek k now key)) else peek k later j))
  unfolding set_expire
  set_expire_view k key j t now later le =
      expire_found_view k key j t now later (peek k now key) le refl

  zero_only : (e : Entry V) → has_expiry e ≡ false → record e { expire_at = zero_time } ≡ e
  unfolding has_expiry is_zero
  zero_only e h =
      let same : zero_time ≡ e.expire_at = eq_of_parts zero_time e.expire_at (ground arith) in
      λ i. record e { expire_at = same i }

  entry_of_peek :
      (e : Entry V) (now : Time) (o : Option (Entry V)) → live now o ≡ some e → o ≡ some e
  entry_of_peek e now none h = cc
  entry_of_peek e now (some x) h = elim (Bool-cases (expired x now)) [
    | inl y ↦ cc (rw y at h)
    | inr n ↦ rw n at h
  ]

  keep_peek :
      (k : Keyspace V) (key j : Bytes) (now later : Time) (e : Entry V)
      → peek k now key ≡ some e
      → peek k later j ≡ (if bytes_eq key j then live later (some e) else peek k later j)
  unfolding peek
  keep_peek k key j now later e p = elim (Bool-cases (bytes_eq key j)) [
    | inl y ↦ rw y (
        let same : key ≡ j = bytes_eq→eq key j y in
        rw (← same) (ap (live later) (entry_of_peek e now _ p)))
    | inr n ↦ rw n
  ]

  persist_found_view :
      (k : Keyspace V) (key j : Bytes) (now later : Time) (o : Option (Entry V))
      → now ≤ℤ later
      → peek k now key ≡ o
      → ((persist_found k key o).1 ≡ volatile o)
        × (peek (persist_found k key o).0 later j
            ≡ (if bytes_eq key j then live later (stamp zero_time o) else peek k later j))
  persist_found_view k key j now later none le p = (refl, peek_dead k key j now later le p)
  persist_found_view k key j now later (some e) le p = elim (Bool-cases (has_expiry e)) [
    | inl y ↦ rw y (refl, peek-put k key j (record e { expire_at = zero_time }) _ later)
    | inr n ↦ rw (n, zero_only e n) (refl, keep_peek k key j now later e p)
  ]

  -- `Persist` answers whether the key is live with a deadline; every later reader finds the entry of a
  -- live key with no deadline, and under each other key what was there.
  pub persist_view :
      (k : Keyspace V) (key j : Bytes) (now later : Time)
      → now ≤ℤ later
      → ((persist k now key).1 ≡ volatile (peek k now key))
        × (peek (persist k now key).0 later j ≡ (
            if bytes_eq key j
            then live later (stamp zero_time (peek k now key))
            else peek k later j))
  unfolding persist
  persist_view k key j now later le = persist_found_view k key j now later (peek k now key) le refl

  pub peek-without :
      (k : Keyspace V) (key j : Bytes) (later : Time)
      → IsValid k
      → peek (without k key) later j ≡ (if bytes_eq key j then none else peek k later j)
  unfolding peek
  peek-without k key j later v = elim (Bool-cases (bytes_eq key j)) [
    | inl y ↦ rw (get-delete key j k.entries v.keys_once, y)
    | inr n ↦ rw (get-delete key j k.entries v.keys_once, n)
  ]

  peek_missing :
      (k : Keyspace V) (key j : Bytes) (later : Time)
      → GoMap.get key k.entries ≡ none
      → peek k later j ≡ (if bytes_eq key j then none else peek k later j)
  unfolding peek
  peek_missing k key j later p = elim (Bool-cases (bytes_eq key j)) [
    | inl y ↦ let same : key ≡ j = bytes_eq→eq key j y in rw y (ap (live later) (rw same at p))
    | inr n ↦ rw n
  ]

  lives_lem : (e : Entry V) (now : Time) → not (expired e now) ≡ is_some (live now (some e))
  lives_lem e now = ground arith

  delete_found_view :
      (k : Keyspace V) (key j : Bytes) (now later : Time) (o : Option (Entry V))
      → IsValid k
      → GoMap.get key k.entries ≡ o
      → ((delete_found k now key o).1 ≡ is_some (live now o))
        × (peek (delete_found k now key o).0 later j
            ≡ (if bytes_eq key j then none else peek k later j))
  delete_found_view k key j now later none v p = (refl, peek_missing k key j later p)
  delete_found_view k key j now later (some e) v p = (lives_lem e now, peek-without k key j later v)

  -- `Delete` answers whether the key is live; afterwards no reader finds it, at any time, and each other
  -- key is as it was.
  pub delete_view :
      (k : Keyspace V) (key j : Bytes) (now later : Time)
      → IsValid k
      → ((delete k now key).1 ≡ is_some (peek k now key))
        × (peek (delete k now key).0 later j ≡ (if bytes_eq key j then none else peek k later j))
  unfolding delete peek
  delete_view k key j now later v = delete_found_view k key j now later _ v refl

  take_found-delete :
      (k : Keyspace V) (now : Time) (key : Bytes) (o : Option (Entry V))
      → ((take_found k now key o).0 ≡ (delete_found k now key o).0)
        × ((take_found k now key o).1 ≡ o)
        × ((take_found k now key o).2 ≡ (delete_found k now key o).1)
  take_found-delete k now key none = (refl, refl, refl)
  take_found-delete k now key (some e) = (refl, refl, refl)

  -- `Take` leaves what `Delete` leaves and gives its answer, with the entry that was stored.
  pub take-delete :
      (k : Keyspace V) (now : Time) (key : Bytes)
      → ((take k now key).0 ≡ (delete k now key).0)
        × ((take k now key).1 ≡ GoMap.get key k.entries)
        × ((take k now key).2 ≡ (delete k now key).1)
  unfolding take delete
  take-delete k now key = take_found-delete k now key _
