-- ===== src/Value/Limits.antt =====
-- internal/value/limits.go and `normalizeRange` of internal/value/value.go.
use memcore.Base.{
  ◌≤◌, ◌≡◌, false, arith, ℕ, Bool, ◌||◌, ltb, Option, none, some, if◌then◌else◌, ◌==◌,
}
use memcore.Base.Int.{ℤ, pos, negsuc, ◌+ℤ◌, ltb_ℤ, leb_ℤ, pos_part}

-- `Thresholds`: the bounds of a compact collection.
pub record Thresholds : Type 0 where
  pub max_entries : ℕ
  pub max_bytes : ℕ

unfoldable pub exceeded : Thresholds → ℕ → ℕ → Bool
exceeded t count elem_size = ltb t.max_entries count || ltb t.max_bytes elem_size

-- `Limits`: the thresholds of each kind of collection.
pub record Limits : Type 0 where
  pub list : Thresholds
  pub hash : Thresholds
  pub set : Thresholds
  pub zset : Thresholds

-- `normalizeRange`: the inclusive bounds that the indices select, or nothing.
unfoldable pub normalize_range : ℤ → ℤ → ℕ → Option (ℕ × ℕ)
unfolding ◌+ℤ◌
normalize_range start stop length =
    let start1 = if ltb_ℤ start (pos 0) then pos length +ℤ start else start in
    let stop1 = if ltb_ℤ stop (pos 0) then pos length +ℤ stop else stop in
    let start2 = if ltb_ℤ start1 (pos 0) then pos 0 else start1 in
    let stop2 = if leb_ℤ (pos length) stop1 then pos length +ℤ negsuc 0 else stop1 in
    if length == 0
    then none
    else if ltb_ℤ stop2 start2 || leb_ℤ (pos length) start2
    then none
    else some (pos_part start2, pos_part stop2)

-- What is not exceeded is within both thresholds.
pub exceeded-false :
    (t : Thresholds) (count elem_size : ℕ)
    → exceeded t count elem_size ≡ false
    → (count ≤ t.max_entries) × (elem_size ≤ t.max_bytes)
unfolding exceeded
exceeded-false t count elem_size h = ground arith
