-- ===== src/Keyspace/Index.antt =====
-- The TTL index lists every volatile key: the invariant of a keyspace and what preserves it.
use memcore.Base.{
  ◌≡◌, refl, sym, ap, ◌∙◌, bytes_eq, bytes_eq→eq, true, false, Option, none, some, arith, Bytes,
  Bool-cases, inl, inr,
}
use memcore.Base.GoMap
use memcore.Base.GoMap.{GoMap, get-put, get-delete, put-IsDistinct, delete-IsDistinct}
use memcore.Keyspace.{
  Time, zero_time, is_zero, Entry, has_expiry, Keyspace, new, set, set_entry, write_found,
  write_value, expire_found, set_expire, persist_found, persist, without, delete_found, delete,
  take_found, take, flush,
}

pub record IsValid {V : Type 0} (k : Keyspace V) : Type 0 where
  pub keys_once : GoMap.IsDistinct k.entries
  pub index_once : GoMap.IsDistinct k.with_ttl
  pub indexed :
      (key : Bytes) (e : Entry V)
      → GoMap.get key k.entries ≡ some e
      → has_expiry e ≡ true
      → GoMap.has key k.with_ttl ≡ true

module _ {V : Type 0} where
  pub new-IsValid : IsValid (new {V = V})
  unfolding new GoMap.get
  new-IsValid = record { keys_once = tt; index_once = tt; indexed = λ key e p q. cc }

  -- A put of an entry that does not expire, with the key taken out of the index.
  put_persistent :
      (k : Keyspace V) (key : Bytes) (e : Entry V)
      → has_expiry e ≡ false
      → IsValid k
      → IsValid
          (record { entries = GoMap.put key e k.entries; with_ttl = GoMap.delete key k.with_ttl })
  put_persistent k key e no_ttl v = record {
    keys_once = put-IsDistinct key e k.entries v.keys_once;
    index_once = delete-IsDistinct key k.with_ttl v.index_once;
    indexed = λ j x p q.
        rw (get-delete key j k.with_ttl v.index_once)
          (ground (arith, get-put key j e k.entries, p, q, v.indexed j x, no_ttl));
  }

  -- A put of an entry with the key put into the index.
  put_volatile :
      (k : Keyspace V) (key : Bytes) (e : Entry V)
      → IsValid k
      → IsValid
          (record { entries = GoMap.put key e k.entries; with_ttl = GoMap.put key tt k.with_ttl })
  put_volatile k key e v = record {
    keys_once = put-IsDistinct key e k.entries v.keys_once;
    index_once = put-IsDistinct key tt k.with_ttl v.index_once;
    indexed = λ j x p q.
        rw (get-put key j tt k.with_ttl)
          (ground (arith, get-put key j e k.entries, p, q, v.indexed j x));
  }

  pub without-IsValid : (k : Keyspace V) (key : Bytes) → IsValid k → IsValid (without k key)
  without-IsValid k key v = record {
    keys_once = delete-IsDistinct key k.entries v.keys_once;
    index_once = delete-IsDistinct key k.with_ttl v.index_once;
    indexed = λ j x p q.
        rw (get-delete key j k.with_ttl v.index_once)
          (ground (arith, get-delete key j k.entries v.keys_once, p, q, v.indexed j x));
  }

  zero_has_none : (v : V) → has_expiry {V = V} (record { value = v; expire_at = zero_time }) ≡ false
  unfolding has_expiry is_zero
  zero_has_none v = refl

  pub set-IsValid : (k : Keyspace V) (key : Bytes) (x : V) → IsValid k → IsValid (set k key x)
  unfolding set
  set-IsValid k key x v = put_persistent k key _ (zero_has_none x) v

  pub set_entry-IsValid :
      (k : Keyspace V) (key : Bytes) (e : Entry V) → IsValid k → IsValid (set_entry k key e)
  unfolding set_entry
  set_entry-IsValid k key e v = elim (Bool-cases (has_expiry e)) [
    | inl y ↦ rw y (put_volatile k key e v)
    | inr n ↦ rw n (put_persistent k key e n v)
  ]

  -- The written entry has the deadline of the old one.
  written_expiry :
      (e : Entry V) (x : V) (y : Entry V)
      → some (record e { value = x }) ≡ some y
      → has_expiry y ≡ true
      → has_expiry e ≡ true
  unfolding has_expiry
  written_expiry e x y put q =
      ap (λ (o : Option (Entry V)). elim o [ none ↦ true | some z ↦ has_expiry z ]) put ∙ q

  write_found-IsValid :
      (k : Keyspace V) (key : Bytes) (x : V) (o : Option (Entry V))
      → GoMap.get key k.entries ≡ o
      → IsValid k
      → IsValid (write_found k key x o)
  write_found-IsValid k key x none found v = v
  write_found-IsValid k key x (some e) found v = record {
    keys_once = put-IsDistinct key (record e { value = x }) k.entries v.keys_once;
    index_once = v.index_once;
    indexed = λ j y p q. elim (Bool-cases (bytes_eq key j)) [
      | inl same ↦
          let at : key ≡ j = bytes_eq→eq key j same in
          let put : some (record e { value = x }) ≡ some y =
            sym (get-put key j (record e { value = x }) k.entries ∙ rw same refl) ∙ p in
          v.indexed j e (rw (← at) found) (written_expiry e x y put q)
      | inr other ↦
          v.indexed j y (sym (get-put key j (record e { value = x }) k.entries ∙ rw other refl) ∙ p)
            q
    ];
  }

  pub write_value-IsValid :
      (k : Keyspace V) (key : Bytes) (x : V) → IsValid k → IsValid (write_value k key x)
  unfolding write_value
  write_value-IsValid k key x v = write_found-IsValid k key x (GoMap.get key k.entries) refl v

  expire_found-IsValid :
      (k : Keyspace V) (key : Bytes) (t : Time) (o : Option (Entry V))
      → IsValid k
      → IsValid (expire_found k key t o).0
  expire_found-IsValid k key t none v = v
  expire_found-IsValid k key t (some e) v = put_volatile k key _ v

  pub set_expire-IsValid :
      (k : Keyspace V) (now : Time) (key : Bytes) (t : Time)
      → IsValid k
      → IsValid (set_expire k now key t).0
  unfolding set_expire
  set_expire-IsValid k now key t v = expire_found-IsValid k key t _ v

  persist_found-IsValid :
      (k : Keyspace V) (key : Bytes) (o : Option (Entry V))
      → IsValid k
      → IsValid (persist_found k key o).0
  persist_found-IsValid k key none v = v
  persist_found-IsValid k key (some e) v = elim (Bool-cases (has_expiry e)) [
    | inl y ↦ rw y (put_persistent k key _ (zero_has_none e.value) v)
    | inr n ↦ rw n v
  ]

  pub persist-IsValid :
      (k : Keyspace V) (now : Time) (key : Bytes) → IsValid k → IsValid (persist k now key).0
  unfolding persist
  persist-IsValid k now key v = persist_found-IsValid k key _ v

  delete_found-IsValid :
      (k : Keyspace V) (now : Time) (key : Bytes) (o : Option (Entry V))
      → IsValid k
      → IsValid (delete_found k now key o).0
  delete_found-IsValid k now key none v = v
  delete_found-IsValid k now key (some e) v = without-IsValid k key v

  pub delete-IsValid :
      (k : Keyspace V) (now : Time) (key : Bytes) → IsValid k → IsValid (delete k now key).0
  unfolding delete
  delete-IsValid k now key v = delete_found-IsValid k now key _ v

  take_found-IsValid :
      (k : Keyspace V) (now : Time) (key : Bytes) (o : Option (Entry V))
      → IsValid k
      → IsValid (take_found k now key o).0
  take_found-IsValid k now key none v = v
  take_found-IsValid k now key (some e) v = without-IsValid k key v

  pub take-IsValid :
      (k : Keyspace V) (now : Time) (key : Bytes) → IsValid k → IsValid (take k now key).0
  unfolding take
  take-IsValid k now key v = take_found-IsValid k now key _ v

  pub flush-IsValid : (k : Keyspace V) → IsValid (flush k)
  unfolding flush GoMap.get
  flush-IsValid k = record { keys_once = tt; index_once = tt; indexed = λ key e p q. cc }
