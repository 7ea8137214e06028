-- ===== src/Value/Set/Queries.antt =====
-- `Remove`, `Contains`, `Members` and `Len` of a set, in both encodings.
use memcore.Base.{
  ◌-◌, ◌≡◌, refl, sym, ap, ◌∙◌, true, false, none, some, [], arith, length, Bytes, Bool-cases,
  Option-cases, inl, inr,
}
use memcore.Base.GoMap
use memcore.Base.GoMap.{
  GoMap, none_of_has, All-delete, delete-IsDistinct, length-delete, delete-absent,
}
use memcore.Value.Set.Scans.{scan_contains-pack, each-strip, each-gather}
use memcore.Value.Set.Refines.{Holds, IsShort}
use memcore.Value.Pack.{pack_each, pack_of, Fits, pack_each-pack}
use memcore.Value.Set.{
  FullSet, PackSet, full_remove, full_contains, full_all, counted, len, strip, compact_remove,
  remove_from, remove, scan_contains, contained, contains, gather, listed, members,
}

abbrev pub Removes : PackSet → GoMap (Unit {0}) → Bytes → Type 0
Removes s m member =
    (s' : PackSet) × (remove s member ≡ some (s', GoMap.has member m))
    × Holds s' (GoMap.delete member m)

module _ (s : PackSet) (m : GoMap (Unit {0})) (member : Bytes) (h : Holds s m) where
  remove-packed :
      s.full ≡ none
      → remove s member
        ≡ compact_remove s (some (GoMap.has member m, pack_of (GoMap.keys (GoMap.delete member m))))
  unfolding remove
  remove-packed p =
      ap (remove_from s member) p
      ∙ ap (λ t. compact_remove s (pack_each (strip member) t (false, []))) (h.packed p).0
      ∙ ap (compact_remove s) (pack_each-pack (strip member) (GoMap.keys m) (false, []) h.fits)
      ∙ ap (λ r. compact_remove s (some r)) (each-strip member m false [] h.distinct)

  remove-found : s.full ≡ none → GoMap.has member m ≡ true → Removes s m member
  remove-found p found = (
    record s { pack = pack_of (GoMap.keys (GoMap.delete member m)); count = s.count - 1 },
    remove-packed p ∙ rw found,
    record {
      distinct = delete-IsDistinct member m h.distinct;
      fits = All-delete Fits member m h.fits;
      packed = λ _. (refl, ground (arith, length-delete member m, (h.packed p).1, found));
      mapped = λ f q. cc;
      small = λ _. (
        ground (arith, length-delete member m, (h.small p).0, found),
        All-delete (IsShort s.max) member m (h.small p).1,
      );
    },
  )

  remove-absent : s.full ≡ none → GoMap.has member m ≡ false → Removes s m member
  remove-absent p absent =
      (s, remove-packed p ∙ rw absent, rw (delete-absent member m (none_of_has member m absent)) h)

  full_remove-eq :
      (f : FullSet)
      → f.members ≡ m
      → ((full_remove f member).0.members ≡ GoMap.delete member m)
        × ((full_remove f member).1 ≡ GoMap.has member m)
  unfolding full_remove
  full_remove-eq f e = elim (Bool-cases (GoMap.has member f.members)) [
    | inl old ↦ rw (old, ← e) (refl, rw old)
    | inr new ↦ rw (new, ← e) (sym (delete-absent member _ (none_of_has member _ new)), rw new)
  ]

  remove-full : (f : FullSet) → s.full ≡ some f → Removes s m member
  unfolding remove
  remove-full f p =
      let same = full_remove-eq f (h.mapped f p) in
      (
        record s { full = some (full_remove f member).0 },
        ap (remove_from s member) p
            ∙ ap (λ b. some (record s { full = some (full_remove f member).0 }, b)) same.1,
        record {
          distinct = delete-IsDistinct member m h.distinct;
          fits = All-delete Fits member m h.fits;
          packed = λ q. cc;
          mapped = λ g q. ground (arith, q, same.0);
          small = λ q. cc;
        },
      )

  -- `Remove` on a set that stands for the members `m` ends without a panic, reports whether the
  -- member was there, and leaves a set that stands for `m` without it.
  pub remove_refines : Removes s m member
  remove_refines = elim (Option-cases s.full) [
    | inl p ↦ elim (Bool-cases (GoMap.has member m)) [
      | inl found ↦ remove-found p found
      | inr absent ↦ remove-absent p absent
    ]
    | inr (f, p) ↦ remove-full f p
  ]

  -- `Contains` on a set that stands for the members `m` ends without a panic and says whether `m`
  -- has the member.
  pub contains_refines : contains s member ≡ some (GoMap.has member m)
  unfolding contains full_contains
  contains_refines = elim (Option-cases s.full) [
    | inl p ↦
        ap (contained s member) p
        ∙ ap (λ t. scan_contains t member) (h.packed p).0
        ∙ scan_contains-pack m member h.fits
    | inr (f, p) ↦ ap (contained s member) p ∙ ap (λ t. some (GoMap.has member t)) (h.mapped f p)
  ]

module _ (s : PackSet) (m : GoMap (Unit {0})) (h : Holds s m) where
  -- `Members` on a set that stands for the members `m` ends without a panic, with the members of
  -- `m`, each once.
  pub members_refines : members s ≡ some (GoMap.keys m)
  unfolding members full_all
  members_refines = elim (Option-cases s.full) [
    | inl p ↦
        ap (listed s) p
        ∙ ap (λ t. pack_each gather t []) (h.packed p).0
        ∙ pack_each-pack gather (GoMap.keys m) [] h.fits
        ∙ ap some (each-gather (GoMap.keys m) [])
    | inr (f, p) ↦ ap (listed s) p ∙ ap (λ t. some (GoMap.keys t)) (h.mapped f p)
  ]

  pub len_refines : len s ≡ length m
  unfolding len
  len_refines = elim (Option-cases s.full) [
    | inl p ↦ ap (counted s) p ∙ (h.packed p).1
    | inr (f, p) ↦ ap (counted s) p ∙ ap length (h.mapped f p)
  ]
