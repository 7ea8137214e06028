-- ===== src/Value/Tests.antt =====
-- Tests of internal/value: sets and hashes at their thresholds, and index ranges.
use memcore.Base.{
  ◌≤◌, ◌≡◌, refl, ◌&&◌, none, some, List, [], ◌∷◌, arith, suc, Bytes, bytes_eq, codes,
}
use memcore.Base.Int.{pos, negsuc, leb_ℤ}
use memcore.Base.GoMap
use memcore.Base.GoMap.{GoMap}
use memcore.Value.Limits.{Thresholds, normalize_range}
use memcore.Value.Ranges.{resolve, selects, normalize_range_exact, normalize_range_bounds}
use memcore.Value.Pack.{pack_of}
use memcore.Value.Set.{PackSet}
use memcore.Value.Set.Refines
use memcore.Value.Set.Refines.{Adds, add_refines}
use memcore.Value.Hash.{PackHash}
use memcore.Value.Hash.Represents
use memcore.Value.Lists.{PackList, pop_back, range}
use memcore.Value.Lists.Refines as ListRefines
use memcore.Value.Lists.Refines.{PushesFront, PushesBack, push_front_refines, push_back_refines}
use memcore.Value.Lists.Takes.{Popped, unsnoc, pop_back_refines}
use memcore.Value.Lists.Slices.{selected, range_refines}
use memcore.Value.Hash.Sets.{Sets, set_refines}

abbrev small : Thresholds
small = record { max_entries = 2; max_bytes = 4 }

abbrev members : GoMap (Unit {0})
members = (codes "a", tt) ∷ (codes "b", tt) ∷ []

-- A packed set at its threshold.
abbrev packed_set : PackSet
packed_set = record {
  pack = pack_of (codes "a" ∷ codes "b" ∷ []);
  count = 2;
  full = none;
  max = small;
}

packed_set-Holds : Refines.Holds packed_set members
unfolding GoMap.get bytes_eq
packed_set-Holds = record {
  distinct = (refl, (refl, tt));
  fits = (omega arith, (omega arith, tt));
  packed = λ _. (refl, refl);
  mapped = λ f e. cc;
  small = λ _. (omega arith, (omega arith, (omega arith, tt)));
}

abbrev fields : GoMap Bytes
fields = (codes "f", codes "v") ∷ (codes "g", codes "w") ∷ []

-- A packed hash at its threshold.
abbrev packed_hash : PackHash
packed_hash = record {
  pack = pack_of (codes "f" ∷ codes "v" ∷ codes "g" ∷ codes "w" ∷ []);
  count = 2;
  full = none;
  max = small;
}

packed_hash-Holds : Represents.Holds packed_hash fields
unfolding GoMap.get bytes_eq
packed_hash-Holds = record {
  distinct = (refl, (refl, tt));
  fits = (omega arith, (omega arith, (omega arith, (omega arith, tt))));
  packed = λ _. (refl, refl);
  mapped = λ f e. cc;
  small = λ _. (omega arith, (omega arith, (omega arith, (omega arith, (omega arith, tt)))));
}

-- The third member promotes the set.
add_refines_example : Adds packed_set members (codes "c")
add_refines_example = add_refines packed_set members (codes "c") packed_set-Holds (omega arith)

-- A value beyond the threshold promotes the hash.
set_refines_example : Sets packed_hash fields (codes "f") (codes "long value")
set_refines_example =
    set_refines packed_hash fields (codes "f") (codes "long value") packed_hash-Holds (omega arith)
      (omega arith)

-- The last two of three.
normalize_range_exact_example :
    selects (normalize_range (negsuc 1) (negsuc 0) 3) 1
    ≡ (leb_ℤ (resolve (negsuc 1) 3) (pos 1) && leb_ℤ (pos 1) (resolve (negsuc 0) 3))
normalize_range_exact_example = normalize_range_exact (negsuc 1) (negsuc 0) 3 1 (omega arith)

range_is_some : normalize_range (pos 1) (pos 9) 3 ≡ some (1, 2)
unfolding normalize_range
range_is_some = refl

normalize_range_bounds_example : (1 ≤ 2) × (suc 2 ≤ 3)
normalize_range_bounds_example = normalize_range_bounds (pos 1) (pos 9) 3 1 2 range_is_some

abbrev elements : List Bytes
elements = codes "a" ∷ codes "b" ∷ []

-- A packed list at its threshold.
abbrev packed_list : PackList
packed_list = record { pack = pack_of elements; count = 2; full = none; max = small }

packed_list-Holds : ListRefines.Holds packed_list elements
packed_list-Holds = record {
  fits = (omega arith, (omega arith, tt));
  packed = λ _. (refl, refl);
  linked = λ f e. cc;
  small = λ _. (omega arith, (omega arith, (omega arith, tt)));
}

pop_back_refines_example : Popped packed_list (pop_back packed_list) (unsnoc elements)
pop_back_refines_example = pop_back_refines packed_list elements packed_list-Holds

range_refines_example :
    range packed_list (pos 0) (negsuc 0)
    ≡ some (selected elements (normalize_range (pos 0) (negsuc 0) 2))
range_refines_example = range_refines packed_list elements (pos 0) (negsuc 0) packed_list-Holds
