-- ===== src/Config.antt =====
-- internal/config/settings.go: the parameters that CONFIG SET changes at run time. The atomic pointer
-- of `Settings` holds one `Reloadable`, which a set replaces whole.
pub mod Parameters
mod Tests
use memcore.Base.{
  ℕ, suc, ◌-◌, ◌*◌, ◌/◌, ◌%◌, ◌^◌, ◌≤◌, ◌≡◌, ◌≢◌, refl, ap, ◌∙◌, Bool, true, false, ◌||◌, Option,
  none, some, List, [], ◌∷◌, arith, ltb, if◌then◌else◌, Bytes, bytes_eq, codes, Bool-cases, inl,
  inr,
}
use memcore.Base.Int.{ℤ, pos, negsuc}
use memcore.Base.Decimal.{append_int, parse_int, parse_int-append_int}

-- `Reloadable`; the threshold is a `time.Duration` in nanoseconds.
pub record Reloadable : Type 0 where
  pub slow_threshold : ℤ
  pub expiry_sample : ℤ
  pub slow_log_enabled : Bool

abbrev pub param_slow_threshold : Bytes
param_slow_threshold = codes "slowlog-threshold-ms"

abbrev pub param_expiry_sample : Bytes
param_expiry_sample = codes "expiry-sample-per-shard"

abbrev pub param_slow_log : Bytes
param_slow_log = codes "slowlog-enabled"

-- `Duration.Milliseconds` drops the fraction.
abbrev pub milliseconds : ℤ → ℤ
milliseconds (pos n) = pos (n / 10 ^ 6)
milliseconds (negsuc n) = if ltb (suc n) (10 ^ 6) then pos 0 else negsuc (suc n / 10 ^ 6 - 1)

-- `time.Duration(ms) * time.Millisecond` wraps around.
abbrev pub duration : ℕ → ℤ
duration ms =
    let m = ms * 10 ^ 6 % 2 ^ 64 in if ltb m (2 ^ 63) then pos m else negsuc (2 ^ 64 - m - 1)

abbrev pub bool_param : Bool → Bytes
bool_param true = codes "yes"
bool_param false = codes "no"

unfoldable pub parse_bool_param : Bytes → Option Bool
parse_bool_param s =
    if bytes_eq s (codes "yes") || (bytes_eq s (codes "1") || bytes_eq s (codes "true"))
    then some true
    else if bytes_eq s (codes "no") || (bytes_eq s (codes "0") || bytes_eq s (codes "false"))
    then some false
    else none

unfoldable pub get : Reloadable → Bytes → Option Bytes
get r name =
    if bytes_eq name param_slow_threshold
    then some (append_int (milliseconds r.slow_threshold))
    else if bytes_eq name param_expiry_sample
    then some (append_int r.expiry_sample)
    else if bytes_eq name param_slow_log
    then some (bool_param r.slow_log_enabled)
    else none

unfoldable pub all : Reloadable → List (Bytes × Bytes)
all r =
    (param_slow_threshold, append_int (milliseconds r.slow_threshold))
    ∷ (param_expiry_sample, append_int r.expiry_sample)
    ∷ (param_slow_log, bool_param r.slow_log_enabled)
    ∷ []

-- The new settings, or the reason for which they are left as they are.
pub data Outcome : Type 0 where
  stored : Reloadable → Outcome
  not_a_number not_a_flag not_reloadable : Outcome

abbrev pub with_threshold : Reloadable → Option ℤ → Outcome
with_threshold r none = not_a_number
with_threshold r (some (negsuc n)) = not_a_number
with_threshold r (some (pos ms)) = stored (record r { slow_threshold = duration ms })

abbrev pub with_sample : Reloadable → Option ℤ → Outcome
with_sample r none = not_a_number
with_sample r (some (negsuc n)) = not_a_number
with_sample r (some (pos n)) = stored (record r { expiry_sample = pos n })

abbrev pub with_slow_log : Reloadable → Option Bool → Outcome
with_slow_log r none = not_a_flag
with_slow_log r (some b) = stored (record r { slow_log_enabled = b })

unfoldable pub set : Reloadable → Bytes → Bytes → Outcome
unfolding parse_bool_param
set r name val =
    if bytes_eq name param_slow_threshold
    then with_threshold r (parse_int val)
    else if bytes_eq name param_expiry_sample
    then with_sample r (parse_int val)
    else if bytes_eq name param_slow_log
    then with_slow_log r (parse_bool_param val)
    else not_reloadable
