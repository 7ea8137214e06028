-- ===== src/Value/Ranges.antt =====
-- `normalizeRange` of internal/value/value.go against the Redis reading of two indices.
use memcore.Base.{
  ℕ, ◌≤◌, ◌<◌, ◌≡◌, Bool, false, ◌&&◌, leb, Option, none, some, arith, if◌then◌else◌,
}
use memcore.Base.Int.{ℤ, pos, negsuc, ◌+ℤ◌, ltb_ℤ, leb_ℤ}
use memcore.Value.Limits.{normalize_range}

-- An index below 0 counts back from the end.
abbrev pub resolve : ℤ → ℕ → ℤ
resolve i length = if ltb_ℤ i (pos 0) then pos length +ℤ i else i

abbrev pub selects : Option (ℕ × ℕ) → ℕ → Bool
selects none i = false
selects (some (lo, hi)) i = leb lo i && leb i hi

bounds_pos_pos :
    (a b length lo hi : ℕ)
    → normalize_range (pos a) (pos b) length ≡ some (lo, hi)
    → (lo ≤ hi) × (hi < length)
unfolding normalize_range
bounds_pos_pos a b length lo hi e = ground arith

bounds_pos_negsuc :
    (a b length lo hi : ℕ)
    → normalize_range (pos a) (negsuc b) length ≡ some (lo, hi)
    → (lo ≤ hi) × (hi < length)
unfolding normalize_range
bounds_pos_negsuc a b length lo hi e = ground arith

bounds_negsuc_pos :
    (a b length lo hi : ℕ)
    → normalize_range (negsuc a) (pos b) length ≡ some (lo, hi)
    → (lo ≤ hi) × (hi < length)
unfolding normalize_range
bounds_negsuc_pos a b length lo hi e = ground arith

bounds_negsuc_negsuc :
    (a b length lo hi : ℕ)
    → normalize_range (negsuc a) (negsuc b) length ≡ some (lo, hi)
    → (lo ≤ hi) × (hi < length)
unfolding normalize_range
bounds_negsuc_negsuc a b length lo hi e = ground arith

-- What is selected is a range inside the collection, not empty.
pub normalize_range_bounds :
    (start stop : ℤ) (length lo hi : ℕ)
    → normalize_range start stop length ≡ some (lo, hi)
    → (lo ≤ hi) × (hi < length)
normalize_range_bounds (pos a) (pos b) length lo hi e = bounds_pos_pos a b length lo hi e
normalize_range_bounds (pos a) (negsuc b) length lo hi e = bounds_pos_negsuc a b length lo hi e
normalize_range_bounds (negsuc a) (pos b) length lo hi e = bounds_negsuc_pos a b length lo hi e
normalize_range_bounds (negsuc a) (negsuc b) length lo hi e =
    bounds_negsuc_negsuc a b length lo hi e

-- The bounds that `normalizeRange` returns for two indices select an index of the collection
-- exactly if it lies between the two, each read from the end where it is negative.
pub normalize_range_exact :
    (start stop : ℤ) (length i : ℕ)
    → i < length
    → selects (normalize_range start stop length) i
      ≡ (leb_ℤ (resolve start length) (pos i) && leb_ℤ (pos i) (resolve stop length))
unfolding normalize_range
normalize_range_exact (pos a) (pos b) length i h = ground arith
normalize_range_exact (pos a) (negsuc b) length i h = ground arith
normalize_range_exact (negsuc a) (pos b) length i h = ground arith
normalize_range_exact (negsuc a) (negsuc b) length i h = ground arith
