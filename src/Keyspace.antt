-- ===== src/Keyspace.antt =====
-- internal/keyspace: the keys of one shard of a database, with their deadlines.
pub mod Index
pub mod Views
pub mod Sampling
pub mod Expiry
mod Tests
use memcore.Base.{
  ℕ, zero, suc, ◌+◌, ◌*◌, ◌^◌, Bool, true, false, not, ◌&&◌, ◌||◌, Option, none, some, List, [],
  ◌∷◌, length, ltb, leb, if◌then◌else◌, Bytes,
}
use memcore.Base.Int.{ℤ, pos, negsuc, leb_ℤ, ltb_ℤ}
use memcore.Base.GoMap
use memcore.Base.GoMap.{GoMap}

-- A `time.Time` is an instant, in nanoseconds from the Unix epoch. The zero `time.Time` is the first
-- of January of the year 1.
abbrev pub Time : Type 0
Time = ℤ

abbrev pub zero_time : Time
zero_time = negsuc 62135596799999999999

unfoldable pub is_zero : Time → Bool
is_zero t = leb_ℤ t zero_time && leb_ℤ zero_time t

-- The values stay abstract here: no operation looks into one.
module _ (V : Type 0) where
  pub record Entry : Type 0 where
    pub value : V
    pub expire_at : Time

module _ {V : Type 0} where
  unfoldable pub has_expiry : Entry V → Bool
  has_expiry e = not (is_zero e.expire_at)

  unfoldable pub expired : Entry V → Time → Bool
  unfolding has_expiry
  expired e now = has_expiry e && not (ltb_ℤ now e.expire_at)

pub record Keyspace (V : Type 0) : Type 0 where
  pub entries : GoMap (Entry V)
  pub with_ttl : GoMap (Unit {0})

module _ {V : Type 0} where
  unfoldable pub new : Keyspace V
  new = record { entries = []; with_ttl = [] }

  -- An expired entry is hidden.
  abbrev pub live : Time → Option (Entry V) → Option (Entry V)
  live now none = none
  live now (some e) = if expired e now then none else some e

  -- `now` is what the clock returns in the call.
  unfoldable pub peek : Keyspace V → Time → Bytes → Option (Entry V)
  peek k now key = live now (GoMap.get key k.entries)

  abbrev pub value_of : Option (Entry V) → Option V
  value_of none = none
  value_of (some e) = some e.value

  unfoldable pub lookup : Keyspace V → Time → Bytes → Option (Entry V)
  unfolding peek
  lookup k now key = peek k now key

  unfoldable pub get : Keyspace V → Time → Bytes → Option V
  unfolding peek
  get k now key = value_of (peek k now key)

  abbrev pub bytes_found : Time → Option (Entry V) → Option V
  bytes_found now none = none
  bytes_found now (some e) = if expired e now then none else some e.value

  unfoldable pub get_bytes : Keyspace V → Time → Bytes → Option V
  get_bytes k now key = bytes_found now (GoMap.get key k.entries)

  abbrev pub is_live : Time → Option (Entry V) → Bool
  is_live now none = false
  is_live now (some e) = not (expired e now)

  unfoldable pub exists_bytes : Keyspace V → Time → Bytes → Bool
  exists_bytes k now key = is_live now (GoMap.get key k.entries)

  unfoldable pub exists : Keyspace V → Time → Bytes → Bool
  unfolding peek
  exists k now key = GoMap.is_some (peek k now key)

  unfoldable pub set : Keyspace V → Bytes → V → Keyspace V
  set k key v = record {
    entries = GoMap.put key (record { value = v; expire_at = zero_time }) k.entries;
    with_ttl = GoMap.delete key k.with_ttl;
  }

  unfoldable pub set_entry : Keyspace V → Bytes → Entry V → Keyspace V
  set_entry k key e = record {
    entries = GoMap.put key e k.entries;
    with_ttl = if has_expiry e then GoMap.put key tt k.with_ttl else GoMap.delete key k.with_ttl;
  }

  -- A write through the pointer that a value holds: the entry keeps its deadline, the index is as it was.
  abbrev pub write_found : Keyspace V → Bytes → V → Option (Entry V) → Keyspace V
  write_found k key v none = k
  write_found k key v (some e) = record k {
    entries = GoMap.put key (record e { value = v }) k.entries;
  }

  unfoldable pub write_value : Keyspace V → Bytes → V → Keyspace V
  write_value k key v = write_found k key v (GoMap.get key k.entries)

  abbrev pub expire_found : Keyspace V → Bytes → Time → Option (Entry V) → Keyspace V × Bool
  expire_found k key t none = (k, false)
  expire_found k key t (some e) = (
    record {
      entries = GoMap.put key (record e { expire_at = t }) k.entries;
      with_ttl = GoMap.put key tt k.with_ttl;
    },
    true,
  )

  unfoldable pub set_expire : Keyspace V → Time → Bytes → Time → Keyspace V × Bool
  unfolding peek
  set_expire k now key t = expire_found k key t (peek k now key)

  abbrev pub persist_found : Keyspace V → Bytes → Option (Entry V) → Keyspace V × Bool
  persist_found k key none = (k, false)
  persist_found k key (some e) = if not (has_expiry e) then (k, false) else (
    record {
      entries = GoMap.put key (record e { expire_at = zero_time }) k.entries;
      with_ttl = GoMap.delete key k.with_ttl;
    },
    true,
  )

  unfoldable pub persist : Keyspace V → Time → Bytes → Keyspace V × Bool
  unfolding peek
  persist k now key = persist_found k key (peek k now key)

  -- `delete` from both maps.
  abbrev pub without : Keyspace V → Bytes → Keyspace V
  without k key = record {
    entries = GoMap.delete key k.entries;
    with_ttl = GoMap.delete key k.with_ttl;
  }

  abbrev pub delete_found : Keyspace V → Time → Bytes → Option (Entry V) → Keyspace V × Bool
  delete_found k now key none = (k, false)
  delete_found k now key (some e) = (without k key, not (expired e now))

  unfoldable pub delete : Keyspace V → Time → Bytes → Keyspace V × Bool
  delete k now key = delete_found k now key (GoMap.get key k.entries)

  -- The entry comes back also when it has expired; the Boolean says whether it was live.
  abbrev pub take_found :
      Keyspace V → Time → Bytes → Option (Entry V) → Keyspace V × Option (Entry V) × Bool
  take_found k now key none = (k, none, false)
  take_found k now key (some e) = (without k key, some e, not (expired e now))

  unfoldable pub take : Keyspace V → Time → Bytes → Keyspace V × Option (Entry V) × Bool
  take k now key = take_found k now key (GoMap.get key k.entries)

  unfoldable pub len : Keyspace V → ℕ
  len k = length k.entries

  unfoldable pub flush : Keyspace V → Keyspace V
  flush k = record { entries = []; with_ttl = [] }

-- The variables of the loop of `SampleExpired`.
pub record Sample (V : Type 0) : Type 0 where
  pub space : Keyspace V
  pub examined : ℕ
  pub evicted : ℕ

module _ {V : Type 0} (now : Time) where
  -- One round behind the test of the budget.
  abbrev pub sample_found : Sample V → Bytes → Option (Entry V) → Sample V
  sample_found s key none = record s {
    space = record (s.space) { with_ttl = GoMap.delete key s.space.with_ttl };
    examined = s.examined + 1;
  }
  sample_found s key (some e) =
      if not (has_expiry e)
      then record s {
        space = record (s.space) { with_ttl = GoMap.delete key s.space.with_ttl };
        examined = s.examined + 1;
      }
      else if expired e now
      then record {
        space = without s.space key;
        examined = s.examined + 1;
        evicted = s.evicted + 1;
      }
      else record s { examined = s.examined + 1 }

  unfoldable pub sample_key : Sample V → Bytes → Sample V
  sample_key s key = sample_found s key (GoMap.get key s.space.entries)

  -- The keys are those of the index, in the order in which `range` visits them.
  unfoldable pub sample_loop : ℕ → List Bytes → Sample V → Sample V
  unfolding sample_key
  sample_loop limit [] s = s
  sample_loop limit (key ∷ rest) s =
      let next = sample_loop limit rest (sample_key s key) in
      if leb limit s.examined then s else next

  unfoldable pub sample_expired : Keyspace V → ℕ → Sample V
  sample_expired k limit =
      sample_loop limit (GoMap.keys k.with_ttl) (record { space = k; examined = 0; evicted = 0 })
