-- ===== src/Persistence/Store/Files.antt =====
-- The segments of a directory by their generation.
use memcore.Base.{
  ℕ, ◌≤◌, ◌≡◌, refl, ◌∙◌, false, Bool-cases, inl, inr, Option, none, some, List, [], ◌∷◌, ◌++◌,
  arith, ◌==◌, if◌then◌else◌, Bytes,
}
use memcore.Persistence.Store.{segment_at, append_to, remove_segment, larger, highest_segment}

-- What is in a segment behind an append.
abbrev pub extended : Option Bytes → Bytes → Bytes
extended none more = more
extended (some bs) more = bs ++ more

pub segment_at-append_to :
    (g h : ℕ) (more : Bytes) (s : List (ℕ × Bytes))
    → segment_at h (append_to g more s)
      ≡ (if g == h then some (extended (segment_at g s) more) else segment_at h s)
unfolding segment_at append_to
segment_at-append_to g h more [] = ground arith
segment_at-append_to g h more ((k, bs) ∷ s) = ground (arith, segment_at-append_to g h more s)

pub segment_at-remove :
    (g h : ℕ) (s : List (ℕ × Bytes))
    → (g == h) ≡ false
    → segment_at h (remove_segment g s) ≡ segment_at h s
unfolding segment_at remove_segment
segment_at-remove g h [] n = refl
segment_at-remove g h ((k, bs) ∷ s) n = ground (arith, segment_at-remove g h s n, n)

pub highest-append_to :
    (g : ℕ) (more : Bytes) (s : List (ℕ × Bytes))
    → highest_segment (append_to g more s) ≡ larger g (highest_segment s)
unfolding highest_segment append_to
highest-append_to g more [] = ground arith
highest-append_to g more ((k, bs) ∷ s) = ground (arith, highest-append_to g more s)

highest-remove :
    (g : ℕ) (s : List (ℕ × Bytes)) → highest_segment (remove_segment g s) ≤ highest_segment s
unfolding highest_segment remove_segment
highest-remove g [] = omega arith
highest-remove g ((k, bs) ∷ s) = ground (arith, highest-remove g s)

highest-present :
    (h : ℕ) (b : Bytes) (s : List (ℕ × Bytes)) → segment_at h s ≡ some b → h ≤ highest_segment s
unfolding highest_segment segment_at
highest-present h b [] e = cc
highest-present h b ((k, bs) ∷ s) e = elim (Bool-cases (k == h)) [
  | inl y ↦ ground (arith, y)
  | inr n ↦
      let below : h ≤ highest_segment s = highest-present h b s (rw n at e) in ground (arith, below)
]

-- The highest segment stays the highest if another one is removed.
pub highest-remove_other :
    (g : ℕ) (b : Bytes) (s : List (ℕ × Bytes))
    → segment_at (highest_segment s) s ≡ some b
    → (g == highest_segment s) ≡ false
    → highest_segment (remove_segment g s) ≡ highest_segment s
highest-remove_other g b s e n = omega (
  arith,
  highest-remove g s,
  highest-present (highest_segment s) b (remove_segment g s)
      (segment_at-remove g (highest_segment s) s n ∙ e),
)
