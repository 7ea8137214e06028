-- ===== src/Keyspace/Expiry.antt =====
-- Active expiry is invisible to readers, and with budget enough it takes away all that has expired.
use memcore.Base.{
  ℕ, ◌+◌, ◌≤◌, ◌≡◌, refl, ◌∙◌, true, false, Option, none, some, List, [], ◌∷◌, arith, length, leb,
  Bytes, bytes_eq, bytes_eq→eq, Bool-cases, inl, inr,
}
use memcore.Base.Int.{◌≤ℤ◌}
use memcore.Base.GoMap
use memcore.Base.GoMap.{GoMap, get-delete}
use memcore.Keyspace.{
  Time, Entry, has_expiry, expired, Keyspace, peek, without, Sample, sample_found, sample_key,
  sample_loop, sample_expired,
}
use memcore.Keyspace.Index.{IsValid}
use memcore.Keyspace.Views.{expired_later, peek-without}
use memcore.Keyspace.Sampling.{loop-stop, loop-go, sample_key-IsValid, sample_key_counts}

module _ {V : Type 0} (now : Time) where
  -- Taking away an entry that has expired changes no later view.
  peek_evicted :
      (k : Keyspace V) (key j : Bytes) (later : Time) (e : Entry V)
      → now ≤ℤ later
      → IsValid k
      → GoMap.get key k.entries ≡ some e
      → expired e now ≡ true
      → peek (without k key) later j ≡ peek k later j
  peek_evicted k key j later e le v p x = elim (Bool-cases (bytes_eq key j)) [
    | inl y ↦
        let same : key ≡ j = bytes_eq→eq key j y in
        let dead : expired e later ≡ true = expired_later e now later le x in
        rw (peek-without k key j later v, y) (unfold peek in rw (← same, p, dead))
    | inr n ↦ rw (peek-without k key j later v, n)
  ]

  sample_found_view :
      (s : Sample V) (key j : Bytes) (later : Time) (o : Option (Entry V))
      → now ≤ℤ later
      → IsValid s.space
      → GoMap.get key s.space.entries ≡ o
      → peek (sample_found now s key o).space later j ≡ peek s.space later j
  sample_found_view s key j later none le v p = unfold peek in refl
  sample_found_view s key j later (some e) le v p = elim (Bool-cases (has_expiry e)) [
    | inr n ↦ rw n (unfold peek in refl)
    | inl y ↦ elim (Bool-cases (expired e now)) [
      | inl y' ↦ rw (y, y') (peek_evicted s.space key j later e le v p y')
      | inr n' ↦ rw (y, n')
    ]
  ]

  sample_loop_view :
      (limit : ℕ) (order : List Bytes) (s : Sample V) (j : Bytes) (later : Time)
      → now ≤ℤ later
      → IsValid s.space
      → peek (sample_loop now limit order s).space later j ≡ peek s.space later j
  sample_loop_view limit [] s j later le v = unfold sample_loop in refl
  sample_loop_view limit (key ∷ rest) s j later le v = elim (Bool-cases (leb limit s.examined)) [
    | inl y ↦ rw (loop-stop now limit key rest s y)
    | inr n ↦ rw (loop-go now limit key rest s n) (
        sample_loop_view limit rest (sample_key now s key) j later le
          (sample_key-IsValid now s key v)
        ∙ unfold sample_key in sample_found_view s key j later _ le v refl)
  ]

  -- On a valid keyspace, at the time of a pass of active expiry and later, every reader finds under
  -- every key what it found before the pass, whatever the limit.
  pub peek-sample_expired :
      (k : Keyspace V) (limit : ℕ) (j : Bytes) (later : Time)
      → now ≤ℤ later
      → IsValid k
      → peek (sample_expired now k limit).space later j ≡ peek k later j
  unfolding sample_expired
  peek-sample_expired k limit j later le v =
      sample_loop_view limit (GoMap.keys k.with_ttl) _ j later le v

  -- What a round leaves was there before, and under the key it is not expired.
  sample_found_left :
      (s : Sample V) (key j : Bytes) (o : Option (Entry V)) (e : Entry V)
      → IsValid s.space
      → GoMap.get key s.space.entries ≡ o
      → GoMap.get j (sample_found now s key o).space.entries ≡ some e
      → (GoMap.get j s.space.entries ≡ some e) × (bytes_eq key j ≡ true → expired e now ≡ false)
  unfolding expired
  sample_found_left s key j none e v p q =
      (q, λ y. let same : key ≡ j = bytes_eq→eq key j y in cc (p, rw (← same) at q))
  sample_found_left s key j (some x) e v p q = elim (Bool-cases (bytes_eq key j)) [
    | inl y ↦
        let same : key ≡ j = bytes_eq→eq key j y in
        let p' : GoMap.get j s.space.entries ≡ some x = rw (← same) p in
        ground (arith, q, p', y, get-delete key j s.space.entries v.keys_once)
    | inr n ↦ ground (arith, q, n, get-delete key j s.space.entries v.keys_once)
  ]

  sample_key_left :
      (s : Sample V) (key j : Bytes) (e : Entry V)
      → IsValid s.space
      → GoMap.get j (sample_key now s key).space.entries ≡ some e
      → (GoMap.get j s.space.entries ≡ some e) × (bytes_eq key j ≡ true → expired e now ≡ false)
  unfolding sample_key
  sample_key_left s key j e v q = sample_found_left s key j _ e v refl q

  sample_loop_left :
      (limit : ℕ) (order : List Bytes) (s : Sample V) (j : Bytes) (e : Entry V)
      → IsValid s.space
      → GoMap.get j (sample_loop now limit order s).space.entries ≡ some e
      → GoMap.get j s.space.entries ≡ some e
  sample_loop_left limit [] s j e v q = unfold sample_loop in q
  sample_loop_left limit (key ∷ rest) s j e v q = elim (Bool-cases (leb limit s.examined)) [
    | inl y ↦ rw (loop-stop now limit key rest s y) at q
    | inr n ↦
        (sample_key_left s key j e v (
          sample_loop_left limit rest (sample_key now s key) j e (sample_key-IsValid now s key v)
            (rw (loop-go now limit key rest s n) at q))).0
  ]

  -- With budget for all of the keys, none of them is left with an expired entry.
  sample_loop_cleans :
      (limit : ℕ) (m : GoMap (Unit {0})) (s : Sample V) (j : Bytes) (e : Entry V)
      → IsValid s.space
      → s.evicted ≤ s.examined
      → s.examined + length m ≤ limit
      → GoMap.has j m ≡ true
      → GoMap.get j (sample_loop now limit (GoMap.keys m) s).space.entries ≡ some e
      → expired e now ≡ false
  sample_loop_cleans limit [] s j e v w b h q = unfold GoMap.get in cc
  sample_loop_cleans limit ((key, u) ∷ m) s j e v w b h q =
      let n : leb limit s.examined ≡ false = ground arith in
      let q' = rw (loop-go now limit key (GoMap.keys m) s n) at q in
      let v' = sample_key-IsValid now s key v in
      let (examined, evicted, _) = sample_key_counts now s key w in
      elim (Bool-cases (bytes_eq key j)) [
        | inl y ↦
            (sample_key_left s key j e v
                (sample_loop_left limit (GoMap.keys m) (sample_key now s key) j e v' q')).1
              y
        | inr n' ↦
            sample_loop_cleans limit m (sample_key now s key) j e v' (omega arith) (omega arith)
              (rw (GoMap.get-skip j key u m n') at h) q'
      ]

  -- After a pass over a valid keyspace whose limit is not below the size of the TTL index, no entry
  -- that is left has expired at the time of the pass.
  pub sample_expired_cleans :
      (k : Keyspace V) (limit : ℕ) (j : Bytes) (e : Entry V)
      → IsValid k
      → length k.with_ttl ≤ limit
      → GoMap.get j (sample_expired now k limit).space.entries ≡ some e
      → expired e now ≡ false
  unfolding sample_expired
  sample_expired_cleans k limit j e v b q =
      let before = sample_loop_left limit (GoMap.keys k.with_ttl) _ j e v q in
      elim (Bool-cases (has_expiry e)) [
        | inl y ↦
            sample_loop_cleans limit k.with_ttl _ j e v (omega arith) (omega arith)
              (v.indexed j e before y) q
        | inr n ↦ unfold expired in rw n
      ]
