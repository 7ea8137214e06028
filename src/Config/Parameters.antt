-- ===== src/Config/Parameters.antt =====
-- CONFIG SET and CONFIG GET against the documented parameters and their values.
use memcore.Base.{
  ℕ, ◌*◌, ◌^◌, ◌<◌, ◌≡◌, ◌⊎◌, Bool, true, false, some, if◌then◌else◌, Bytes, bytes_eq, codes,
}
use memcore.Base.Int.{pos}
use memcore.Base.Decimal.{append_int, parse_int}
use memcore.Config.{Reloadable, get}

-- A parameter with a value of its type.
pub data Setting : Type 0 where
  threshold : ℕ → Setting
  sample : ℕ → Setting
  slow_log : Bool → Setting

abbrev pub name_of : Setting → Bytes
name_of (threshold ms) = codes "slowlog-threshold-ms"
name_of (sample n) = codes "expiry-sample-per-shard"
name_of (slow_log b) = codes "slowlog-enabled"

-- How CONFIG GET shows the value.
abbrev pub text_of : Setting → Bytes
text_of (threshold ms) = append_int (pos ms)
text_of (sample n) = append_int (pos n)
text_of (slow_log true) = codes "yes"
text_of (slow_log false) = codes "no"

-- The texts that CONFIG SET takes for the value. The nanoseconds of a threshold fit int64.
abbrev pub Means : Setting → Bytes → Type 0
Means (threshold ms) val = (parse_int val ≡ some (pos ms)) × (ms * 1000000 < 2 ^ 63)
Means (sample n) val = parse_int val ≡ some (pos n)
Means (slow_log true) val = (val ≡ codes "yes") ⊎ ((val ≡ codes "1") ⊎ (val ≡ codes "true"))
Means (slow_log false) val = (val ≡ codes "no") ⊎ ((val ≡ codes "0") ⊎ (val ≡ codes "false"))

module _ (r : Reloadable) (other : Bytes) where
  abbrev Shows : Setting → Reloadable → Type 0
  Shows s r' = get r' other ≡ (if bytes_eq other (name_of s) then some (text_of s) else get r other)
