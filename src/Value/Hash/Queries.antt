-- ===== src/Value/Hash/Queries.antt =====
-- `Get`, `Delete`, `Pairs` and `Len` of a hash, in both encodings.
use memcore.Base.{
  ◌-◌, ◌≡◌, refl, ap, ◌∙◌, true, false, none, some, [], ◌∷◌, arith, length, Bytes, bytes_eq, All,
  Bool-cases, Option-cases, inl, inr,
}
use memcore.Base.GoMap
use memcore.Base.GoMap.{GoMap, none_of_has, delete-IsDistinct, length-delete, delete-absent}
use memcore.Value.Pack.{pack_of, Fits}
use memcore.Value.Hash.{
  FullHash, PackHash, scan_pairs, seek, get_from, get, strip, delete_scanned, delete_from, delete,
  counted, len, gather, pairs_from, pairs, flat,
}
use memcore.Value.Hash.Represents.{IsShort, Holds}
use memcore.Value.Hash.Scans.{scan_pairs-pack}
use memcore.Value.Hash.Folds.{fold-seek, fold-strip, fold-gather}

All-flat-delete {κ} :
    (P : Bytes → Type κ) (k : Bytes) (m : GoMap Bytes)
    → All P (flat m)
    → All P (flat (GoMap.delete k m))
All-flat-delete P k [] h = unfold GoMap.delete in h
All-flat-delete P k ((i, w) ∷ m) h = elim (Bool-cases (bytes_eq i k)) [
  | inl e ↦ rw (GoMap.delete-head k i w m e) h.1.1
  | inr e ↦ rw (GoMap.delete-skip k i w m e) (h.0, (h.1.0, All-flat-delete P k m h.1.1))
]

abbrev pub Deletes : PackHash → GoMap Bytes → Bytes → Type 0
Deletes h m field =
    (h' : PackHash) × (delete h field ≡ some (h', GoMap.has field m))
    × Holds h' (GoMap.delete field m)

module _ (h : PackHash) (m : GoMap Bytes) (field : Bytes) (holds : Holds h m) where
  -- `Get` on a hash that stands for the map `m` ends without a panic, with the value of the field
  -- in `m` if there is one.
  pub get_refines : get h field ≡ some (GoMap.get field m)
  unfolding get
  get_refines = elim (Option-cases h.full) [
    | inl p ↦
        ap (get_from h field) p
        ∙ ap (λ t. scan_pairs (seek field) t none) (holds.packed p).0
        ∙ scan_pairs-pack (seek field) m none holds.fits
        ∙ ap some (fold-seek field m)
    | inr (f, p) ↦ ap (get_from h field) p ∙ ap (λ t. some (GoMap.get field t)) (holds.mapped f p)
  ]

  delete-packed :
      h.full ≡ none
      → delete h field
        ≡ delete_scanned h (some (GoMap.has field m, pack_of (flat (GoMap.delete field m))))
  unfolding delete
  delete-packed p =
      ap (delete_from h field) p
      ∙ ap (λ t. delete_scanned h (scan_pairs (strip field) t (false, []))) (holds.packed p).0
      ∙ ap (delete_scanned h) (
          scan_pairs-pack (strip field) m (false, []) holds.fits
          ∙ ap some (fold-strip field m false [] holds.distinct))

  delete-found : h.full ≡ none → GoMap.has field m ≡ true → Deletes h m field
  delete-found p found = (
    record h { pack = pack_of (flat (GoMap.delete field m)); count = h.count - 1 },
    delete-packed p ∙ rw found,
    record {
      distinct = delete-IsDistinct field m holds.distinct;
      fits = All-flat-delete Fits field m holds.fits;
      packed = λ _. (refl, ground (arith, length-delete field m, (holds.packed p).1, found));
      mapped = λ f q. cc;
      small = λ _. (
        ground (arith, length-delete field m, (holds.small p).0, found),
        All-flat-delete (IsShort h.max) field m (holds.small p).1,
      );
    },
  )

  delete-missing : h.full ≡ none → GoMap.has field m ≡ false → Deletes h m field
  delete-missing p absent = (
    h,
    delete-packed p ∙ rw absent,
    rw (delete-absent field m (none_of_has field m absent)) holds,
  )

  delete-full : (f : FullHash) → h.full ≡ some f → Deletes h m field
  unfolding delete
  delete-full f p = (
    record h { full = some (record { fields = GoMap.delete field f.fields }) },
    ap (delete_from h field) p
        ∙ ap
            (λ t. some (
              record h { full = some (record { fields = GoMap.delete field f.fields }) },
              GoMap.has field t,
            ))
            (holds.mapped f p),
    record {
      distinct = delete-IsDistinct field m holds.distinct;
      fits = All-flat-delete Fits field m holds.fits;
      packed = λ q. cc;
      mapped = λ g q. ground (arith, q, ap (GoMap.delete field) (holds.mapped f p));
      small = λ q. cc;
    },
  )

  -- `Delete` on a hash that stands for the map `m` ends without a panic, reports whether the field
  -- was there, and leaves a hash that stands for `m` without it.
  pub delete_refines : Deletes h m field
  delete_refines = elim (Option-cases h.full) [
    | inl p ↦ elim (Bool-cases (GoMap.has field m)) [
      | inl found ↦ delete-found p found
      | inr absent ↦ delete-missing p absent
    ]
    | inr (f, p) ↦ delete-full f p
  ]

module _ (h : PackHash) (m : GoMap Bytes) (holds : Holds h m) where
  -- `Pairs` on a hash that stands for the map `m` ends without a panic, with the fields and values
  -- of `m` in turn, each pair once.
  pub pairs_refines : pairs h ≡ some (flat m)
  unfolding pairs
  pairs_refines = elim (Option-cases h.full) [
    | inl p ↦
        ap (pairs_from h) p
        ∙ ap (λ t. scan_pairs gather t []) (holds.packed p).0
        ∙ scan_pairs-pack gather m [] holds.fits
        ∙ ap some (fold-gather m [])
    | inr (f, p) ↦ ap (pairs_from h) p ∙ ap (λ t. some (flat t)) (holds.mapped f p)
  ]

  pub len_refines : len h ≡ length m
  unfolding len
  len_refines = elim (Option-cases h.full) [
    | inl p ↦ ap (counted h) p ∙ (holds.packed p).1
    | inr (f, p) ↦ ap (counted h) p ∙ ap length (holds.mapped f p)
  ]
