-- ===== src/Value/Lists/Slices.antt =====
-- A list in either encoding, against the elements it stands for: ranges.
use memcore.Base.{
  ℕ, suc, ◌+◌, ◌-◌, ◌≤◌, ◌<◌, ◌≡◌, refl, sym, ap, ◌∙◌, Option, none, some, List, [], arith, length,
  take, drop, Bytes, All, inl, inr, Option-cases,
}
use memcore.Base.Int.{ℤ}
use memcore.Value.Limits.{normalize_range}
use memcore.Value.Ranges.{normalize_range_bounds}
use memcore.Value.Pack.{pack_each, pack_of, Fits, pack_each-pack}
use memcore.Value.Lists.{PackList, select, gathered, range_packed, range_from, range}
use memcore.Value.Lists.Nodes
use memcore.Value.Lists.Nodes.{FullList, gather_from, walk, range_of}
use memcore.Value.Lists.Linked.{length-values}
use memcore.Value.Lists.Ends
use memcore.Value.Lists.Ends.{Stands}
use memcore.Value.Lists.Packed.{select-take}
use memcore.Value.Lists.Walks.{walk-Stands}
use memcore.Value.Lists.Refines.{Holds}

-- The elements between two bounds.
abbrev pub selected : List Bytes → Option (ℕ × ℕ) → List Bytes
selected es none = []
selected es (some (lo, hi)) = take (hi - lo + 1) (drop lo es)

range_packed-Holds :
    (l : PackList) (es : List Bytes) (r : Option (ℕ × ℕ))
    → l.pack ≡ pack_of es
    → All Fits es
    → ((lo hi : ℕ) → r ≡ some (lo, hi) → lo ≤ hi)
    → range_packed l r ≡ some (selected es r)
range_packed-Holds l es none p fits h = refl
range_packed-Holds l es (some (lo, hi)) p fits h =
    let le : lo ≤ hi = h lo hi refl in
    ap (λ t. gathered (pack_each (select lo hi) t (0, []))) p
    ∙ ap gathered (pack_each-pack (select lo hi) es (0, []) fits)
    ∙ ap some (select-take es lo hi 0 lo (hi - lo) [] (omega arith) (omega arith))
    ∙ (let same : suc (hi - lo) ≡ hi - lo + 1 = omega arith in
        ap (λ n. some (take n (drop lo es))) same)

range_of-Holds :
    (f : FullList) (es : List Bytes) (r : Option (ℕ × ℕ))
    → Ends.Holds f es
    → ((lo hi : ℕ) → r ≡ some (lo, hi) → (lo ≤ hi) × (hi < length es))
    → range_of f r ≡ some (selected es r)
range_of-Holds f es none s h = refl
range_of-Holds f es (some (lo, hi)) (xs, s, eq) h =
    let within : (lo ≤ hi) × (hi < length es) = h lo hi refl in
    let same : length xs ≡ length es = sym (length-values xs) ∙ ap length eq in
    walk-Stands f xs lo (hi - lo + 1) s (omega (arith, within, same))
    ∙ ap (λ t. some (take (hi - lo + 1) (drop lo t))) eq

-- `Range` on a list that stands for elements, packed or linked, does not panic, and returns the
-- ones between the two indices, as `normalizeRange` reads them for that many elements.
pub range_refines :
    (l : PackList) (es : List Bytes) (start stop : ℤ)
    → Holds l es
    → range l start stop ≡ some (selected es (normalize_range start stop (length es)))
unfolding range Nodes.range_elems
range_refines l es start stop h = elim (Option-cases l.full) [
  | inl p ↦
      ap (range_from l start stop) p
      ∙ ap (λ n. range_packed l (normalize_range start stop n)) (h.packed p).1
      ∙ range_packed-Holds l es _ (h.packed p).0 h.fits
          (λ lo hi e. (normalize_range_bounds start stop (length es) lo hi e).0)
  | inr (f, p) ↦
      let (xs, s, eq) = h.linked f p in
      ap (range_from l start stop) p
      ∙ ap (λ n. range_of f (normalize_range start stop n))
          (s.counted ∙ sym (length-values xs) ∙ ap length eq)
      ∙ range_of-Holds f es _ (xs, s, eq)
          (λ lo hi e. normalize_range_bounds start stop (length es) lo hi e)
]
