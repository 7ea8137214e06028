-- ===== src/Value/Set/Refines.antt =====
-- A set refines a map to `Unit`, in the packed and in the full encoding alike.
use memcore.Base.{
  ◌+◌, ◌≤◌, ◌≡◌, refl, sym, ap, ◌∙◌, true, false, not, none, some, [], ◌∷◌, ◌++◌, arith, length,
  Bytes, All, Bool-cases, Option-cases, inl, inr,
}
use memcore.Base.GoMap
use memcore.Base.GoMap.{
  GoMap, get-put, put-present, none_of_has, keys-append, All-put, All-delete, put-new, get-before,
  delete-absent, put-IsDistinct, length-put, delete-IsDistinct, length-delete, get-delete,
}
use memcore.Value.Limits.{Thresholds, exceeded, exceeded-false}
use memcore.Value.Set.Scans.{scan_contains-pack, each-collect}
use memcore.Value.Pack.{pack_append, pack_each, pack_of, Fits, pack_each-pack, pack_append-pack_of}
use memcore.Value.Set.{
  FullSet, PackSet, new_set, full_add, scan_contains, collect, promote, with_true, promoted, pushed,
  add_scanned, add_to, add,
}

abbrev pub IsShort : Thresholds → Bytes → Type 0
IsShort t e = length e ≤ t.max_bytes

-- The set `s` stands for the members `m`: the pack holds them, or the map does.
pub record Holds (s : PackSet) (m : GoMap (Unit {0})) : Type 0 where
  pub distinct : GoMap.IsDistinct m
  pub fits : All Fits (GoMap.keys m)
  pub packed : s.full ≡ none → (s.pack ≡ pack_of (GoMap.keys m)) × (s.count ≡ length m)
  pub mapped : (f : FullSet) → s.full ≡ some f → f.members ≡ m
  pub small : s.full ≡ none → (length m ≤ s.max.max_entries) × All (IsShort s.max) (GoMap.keys m)

pub new_set-Holds : (max : Thresholds) → Holds (new_set max) []
unfolding new_set
new_set-Holds max = record {
  distinct = tt;
  fits = tt;
  packed = λ _. (refl, refl);
  mapped = λ f e. cc;
  small = λ _. (omega arith, tt);
}

full_set : PackSet → GoMap (Unit {0}) → PackSet
full_set s m = record s { pack = []; count = 0; full = some (record { members = m }) }

promote-packed :
    (s : PackSet) (m : GoMap (Unit {0}))
    → s.pack ≡ pack_of (GoMap.keys m)
    → All Fits (GoMap.keys m)
    → GoMap.IsDistinct m
    → promote s ≡ some (full_set s m)
unfolding promote full_set
promote-packed s m p fits d =
    ap (λ t. promoted s (pack_each collect t [])) p
    ∙ ap (promoted s)
        (pack_each-pack collect (GoMap.keys m) [] fits ∙ ap some (each-collect m [] d))

full_set-Holds :
    (s : PackSet) (m : GoMap (Unit {0}))
    → GoMap.IsDistinct m
    → All Fits (GoMap.keys m)
    → Holds (full_set s m) m
unfolding full_set
full_set-Holds s m d fits = record {
  distinct = d;
  fits = fits;
  packed = λ p. cc;
  mapped = λ f p. ground (arith, p);
  small = λ p. cc;
}

add-packed :
    (s : PackSet) (m : GoMap (Unit {0})) (member : Bytes)
    → Holds s m
    → s.full ≡ none
    → add s member ≡ add_scanned s member (some (GoMap.has member m))
unfolding add
add-packed s m member h p =
    ap (add_to s member) p
    ∙ ap (λ t. add_scanned s member (scan_contains t member)) (h.packed p).0
    ∙ ap (add_scanned s member) (scan_contains-pack m member h.fits)

abbrev pub Adds : PackSet → GoMap (Unit {0}) → Bytes → Type 0
Adds s m member =
    (s' : PackSet) × (add s member ≡ some (s', not (GoMap.has member m)))
    × Holds s' (GoMap.put member tt m)

add-old :
    (s : PackSet) (m : GoMap (Unit {0})) (member : Bytes)
    → Holds s m
    → s.full ≡ none
    → GoMap.has member m ≡ true
    → Adds s m member
add-old s m member h p old =
    (s, rw old (rw old at (add-packed s m member h p)), rw (put-present member m old) h)

keys-put-new :
    (m : GoMap (Unit {0})) (member : Bytes)
    → GoMap.has member m ≡ false
    → GoMap.keys (GoMap.put member tt m) ≡ GoMap.keys m ++ (member ∷ [])
keys-put-new m member new =
    ap GoMap.keys (put-new member tt m (none_of_has member m new))
    ∙ keys-append m ((member, tt) ∷ [])

pushed-pack :
    (s : PackSet) (m : GoMap (Unit {0})) (member : Bytes)
    → Holds s m
    → s.full ≡ none
    → GoMap.has member m ≡ false
    → (pushed s member).pack ≡ pack_of (GoMap.keys (GoMap.put member tt m))
pushed-pack s m member h p new =
    ap (λ t. pack_append t member) (h.packed p).0
    ∙ pack_append-pack_of (GoMap.keys m) member
    ∙ ap pack_of (sym (keys-put-new m member new))

pushed-count :
    (s : PackSet) (m : GoMap (Unit {0})) (member : Bytes)
    → Holds s m
    → s.full ≡ none
    → GoMap.has member m ≡ false
    → s.count + 1 ≡ length (GoMap.put member tt m)
pushed-count s m member h p new = ground (arith, (h.packed p).1, length-put member tt m, new)

add_scanned-grows :
    (s s' : PackSet) (member : Bytes)
    → exceeded s.max (s.count + 1) (length member) ≡ true
    → promote (pushed s member) ≡ some s'
    → add_scanned s member (some false) ≡ some (s', true)
add_scanned-grows s s' member e p = rw e (ap with_true p)

add_scanned-stays :
    (s : PackSet) (member : Bytes)
    → exceeded s.max (s.count + 1) (length member) ≡ false
    → add_scanned s member (some false) ≡ some (pushed s member, true)
add_scanned-stays s member e = rw e

added :
    (s s' : PackSet) (m : GoMap (Unit {0})) (member : Bytes)
    → Holds s m
    → s.full ≡ none
    → GoMap.has member m ≡ false
    → add_scanned s member (some false) ≡ some (s', true)
    → add s member ≡ some (s', not (GoMap.has member m))
added s s' m member h p new e = rw new (rw new at (add-packed s m member h p) ∙ e)

add-new :
    (s : PackSet) (m : GoMap (Unit {0})) (member : Bytes)
    → Holds s m
    → s.full ≡ none
    → Fits member
    → GoMap.has member m ≡ false
    → Adds s m member
add-new s m member h p fits new = elim (Bool-cases (exceeded s.max (s.count + 1) (length member))) [
  | inl grows ↦
      let s' : PackSet = full_set (pushed s member) m' in
      let promoted_at = promote-packed (pushed s member) m' packed all_fit distinct in
      (
        s',
        added s s' m member h p new (add_scanned-grows s s' member grows promoted_at),
        full_set-Holds (pushed s member) m' distinct all_fit,
      )
  | inr stays ↦ (
    pushed s member,
    added s (pushed s member) m member h p new (add_scanned-stays s member stays),
    record {
      distinct = distinct;
      fits = all_fit;
      packed = λ _. (packed, pushed-count s m member h p new);
      mapped = λ f q. cc;
      small = λ _. (
        omega (arith, pushed-count s m member h p new, exceeded-false s.max _ _ stays),
        All-put (IsShort s.max) member tt m (exceeded-false s.max _ _ stays).1 (h.small p).1,
      );
    },
  )
]
  where
    m' : GoMap (Unit {0})
    m' = GoMap.put member tt m

    distinct : GoMap.IsDistinct m'
    distinct = put-IsDistinct member tt m h.distinct

    all_fit : All Fits (GoMap.keys m')
    all_fit = All-put Fits member tt m fits h.fits

    packed : (pushed s member).pack ≡ pack_of (GoMap.keys m')
    packed = pushed-pack s m member h p new

full_add-eq :
    (f : FullSet) (m : GoMap (Unit {0})) (member : Bytes)
    → f.members ≡ m
    → ((full_add f member).0.members ≡ GoMap.put member tt m)
      × ((full_add f member).1 ≡ not (GoMap.has member m))
unfolding full_add
full_add-eq f m member e = elim (Bool-cases (GoMap.has member f.members)) [
  | inl old ↦ rw (old, ← e) (sym (put-present member _ old), rw old)
  | inr new ↦ rw (new, ← e) (refl, rw new)
]

add-full :
    (s : PackSet) (m : GoMap (Unit {0})) (f : FullSet) (member : Bytes)
    → Holds s m
    → s.full ≡ some f
    → Fits member
    → Adds s m member
unfolding add
add-full s m f member h p fits = (
  record s { full = some (full_add f member).0 },
  ap (add_to s member) p
      ∙ ap (λ b. some (record s { full = some (full_add f member).0 }, b)) same.1,
  record {
    distinct = put-IsDistinct member tt m h.distinct;
    fits = All-put Fits member tt m fits h.fits;
    packed = λ q. cc;
    mapped = λ g q. ground (arith, q, same.0);
    small = λ q. cc;
  },
)
  where
    same :
        ((full_add f member).0.members ≡ GoMap.put member tt m)
        × ((full_add f member).1 ≡ not (GoMap.has member m))
    same = full_add-eq f m member (h.mapped f p)

-- `Add` on a set that stands for the members `m`, of a member whose length fits 64 bits, ends
-- without a panic, reports whether the member is new, and leaves a set that stands for `m` with the
-- member put in; a set that stands for its members is within its thresholds while it is packed.
pub add_refines :
    (s : PackSet) (m : GoMap (Unit {0})) (member : Bytes)
    → Holds s m
    → Fits member
    → Adds s m member
add_refines s m member h fits = elim (Option-cases s.full) [
  | inl p ↦ elim (Bool-cases (GoMap.has member m)) [
    | inl old ↦ add-old s m member h p old
    | inr new ↦ add-new s m member h p fits new
  ]
  | inr (f, p) ↦ add-full s m f member h p fits
]
