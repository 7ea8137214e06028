-- ===== src/Keyspace/Sampling.antt =====
-- `SampleExpired`: its budget, what it leaves and that no reader notices it.
use memcore.Base.{
  ℕ, ◌+◌, ◌≤◌, ◌≡◌, refl, ◌∙◌, true, false, Option, none, some, List, [], ◌∷◌, arith, leb, Bytes,
  bytes_eq, bytes_eq→eq, Bool-cases, inl, inr,
}
use memcore.Base.GoMap
use memcore.Base.GoMap.{GoMap, get-delete, length-delete, delete-IsDistinct}
use memcore.Keyspace.{
  Time, Entry, has_expiry, expired, Keyspace, len, Sample, sample_found, sample_key, sample_loop,
  sample_expired,
}
use memcore.Keyspace.Index.{IsValid, without-IsValid}

module _ {V : Type 0} (now : Time) where
  -- One round: the counters, the size and what is left under the key.
  sample_found_counts :
      (s : Sample V) (key : Bytes) (o : Option (Entry V))
      → GoMap.get key s.space.entries ≡ o
      → s.evicted ≤ s.examined
      → ((sample_found now s key o).examined ≡ s.examined + 1)
        × ((sample_found now s key o).evicted ≤ s.examined + 1)
        × (len (sample_found now s key o).space + (sample_found now s key o).evicted
            ≡ len s.space + s.evicted)
  unfolding len
  sample_found_counts s key none p h = omega arith
  sample_found_counts s key (some e) p h = ground (arith, length-delete key s.space.entries, p)

  pub sample_key_counts :
      (s : Sample V) (key : Bytes)
      → s.evicted ≤ s.examined
      → ((sample_key now s key).examined ≡ s.examined + 1)
        × ((sample_key now s key).evicted ≤ s.examined + 1)
        × (len (sample_key now s key).space + (sample_key now s key).evicted
            ≡ len s.space + s.evicted)
  unfolding sample_key
  sample_key_counts s key h = sample_found_counts s key _ refl h

  pub loop-stop :
      (limit : ℕ) (key : Bytes) (rest : List Bytes) (s : Sample V)
      → leb limit s.examined ≡ true
      → sample_loop now limit (key ∷ rest) s ≡ s
  unfolding sample_loop
  loop-stop limit key rest s h = rw h

  pub loop-go :
      (limit : ℕ) (key : Bytes) (rest : List Bytes) (s : Sample V)
      → leb limit s.examined ≡ false
      → sample_loop now limit (key ∷ rest) s ≡ sample_loop now limit rest (sample_key now s key)
  unfolding sample_loop
  loop-go limit key rest s h = rw h

  sample_loop_counts :
      (limit : ℕ) (order : List Bytes) (s : Sample V)
      → s.evicted ≤ s.examined
      → s.examined ≤ limit
      → ((sample_loop now limit order s).examined ≤ limit)
        × ((sample_loop now limit order s).evicted ≤ (sample_loop now limit order s).examined)
        × (len (sample_loop now limit order s).space + (sample_loop now limit order s).evicted
            ≡ len s.space + s.evicted)
  sample_loop_counts limit [] s h b = unfold sample_loop in (b, h, refl)
  sample_loop_counts limit (key ∷ rest) s h b = elim (Bool-cases (leb limit s.examined)) [
    | inl y ↦ rw (loop-stop limit key rest s y) (b, h, refl)
    | inr n ↦
        let (examined, evicted, size) = sample_key_counts s key h in
        let (x, y, z) =
          sample_loop_counts limit rest (sample_key now s key) (omega arith) (ground arith) in
        rw (loop-go limit key rest s n) (x, y, z ∙ size)
  ]

  -- A pass over a keyspace examines no more keys than its limit, evicts no more entries than it
  -- examines, and the number of entries falls by what it evicts.
  pub sample_expired_counts :
      (k : Keyspace V) (limit : ℕ)
      → ((sample_expired now k limit).examined ≤ limit)
        × ((sample_expired now k limit).evicted ≤ (sample_expired now k limit).examined)
        × (len (sample_expired now k limit).space + (sample_expired now k limit).evicted ≡ len k)
  unfolding sample_expired
  sample_expired_counts k limit =
      let (x, y, z) =
        sample_loop_counts limit (GoMap.keys k.with_ttl)
          (record { space = k; examined = 0; evicted = 0 }) (omega arith) (omega arith) in
      (x, y, omega (arith, z))

  -- The index loses a key that no volatile entry has.
  unindex-IsValid :
      (k : Keyspace V) (key : Bytes)
      → IsValid k
      → ((e : Entry V) → GoMap.get key k.entries ≡ some e → has_expiry e ≡ false)
      → IsValid (record k { with_ttl = GoMap.delete key k.with_ttl })
  unindex-IsValid k key v none' = record {
    keys_once = v.keys_once;
    index_once = delete-IsDistinct key k.with_ttl v.index_once;
    indexed = λ j e p q. elim (Bool-cases (bytes_eq key j)) [
      | inl y ↦ let same : key ≡ j = bytes_eq→eq key j y in cc (q, none' e (rw same p))
      | inr n ↦ rw (get-delete key j k.with_ttl v.index_once, n) (v.indexed j e p q)
    ];
  }

  sample_found-IsValid :
      (s : Sample V) (key : Bytes) (o : Option (Entry V))
      → GoMap.get key s.space.entries ≡ o
      → IsValid s.space
      → IsValid (sample_found now s key o).space
  sample_found-IsValid s key none p v = unindex-IsValid s.space key v (λ e q. cc)
  sample_found-IsValid s key (some e) p v = elim (Bool-cases (has_expiry e)) [
    | inr n ↦ rw n (unindex-IsValid s.space key v (λ x q. ground (arith, n, p, q)))
    | inl y ↦ elim (Bool-cases (expired e now)) [
      | inl y' ↦ rw (y, y') (without-IsValid s.space key v)
      | inr n' ↦ rw (y, n') v
    ]
  ]

  pub sample_key-IsValid :
      (s : Sample V) (key : Bytes) → IsValid s.space → IsValid (sample_key now s key).space
  unfolding sample_key
  sample_key-IsValid s key v = sample_found-IsValid s key _ refl v

  sample_loop-IsValid :
      (limit : ℕ) (order : List Bytes) (s : Sample V)
      → IsValid s.space
      → IsValid (sample_loop now limit order s).space
  sample_loop-IsValid limit [] s v = unfold sample_loop in v
  sample_loop-IsValid limit (key ∷ rest) s v = elim (Bool-cases (leb limit s.examined)) [
    | inl y ↦ rw (loop-stop limit key rest s y) v
    | inr n ↦
        rw (loop-go limit key rest s n)
          (sample_loop-IsValid limit rest (sample_key now s key) (sample_key-IsValid s key v))
  ]

  pub sample_expired-IsValid :
      (k : Keyspace V) (limit : ℕ) → IsValid k → IsValid (sample_expired now k limit).space
  unfolding sample_expired
  sample_expired-IsValid k limit v = sample_loop-IsValid limit (GoMap.keys k.with_ttl) _ v
