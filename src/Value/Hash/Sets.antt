-- ===== src/Value/Hash/Sets.antt =====
-- `Set` of a hash refines `m[k] = v` of a map, in both encodings.
use memcore.Base.{
  ◌+◌, ◌≤◌, ◌≡◌, refl, sym, ap, ◌∙◌, true, false, not, none, some, [], ◌∷◌, arith, length, Bytes,
  All, Bool-cases, Option-cases, inl, inr,
}
use memcore.Base.GoMap
use memcore.Base.GoMap.{GoMap, put-new, none_of_has, put-IsDistinct, length-put}
use memcore.Value.Pack.{pack_append, pack_of, Fits}
use memcore.Value.Hash.{FullHash, PackHash, scan_pairs, replace, set_scanned, set_to, set, flat}
use memcore.Value.Hash.Scans.{each_pair, scan_pairs-pack}
use memcore.Value.Hash.Represents.{IsShort, Holds, All-flat-put, settled}
use memcore.Value.Hash.Folds.{pack_pair, flat-append, replace-absent, replace-present}

abbrev pub Sets : PackHash → GoMap Bytes → Bytes → Bytes → Type 0
Sets h m field val =
    (h' : PackHash) × (set h field val ≡ some (h', not (GoMap.has field m)))
    × Holds h' (GoMap.put field val m)

module _ (h : PackHash) (m : GoMap Bytes) (field val : Bytes) (holds : Holds h m) where
  set-packed :
      h.full ≡ none
      → set h field val
        ≡ set_scanned h field val (some (each_pair (replace field val) m (false, [])))
  unfolding set
  set-packed p =
      ap (set_to h field val) p
      ∙ ap (λ t. set_scanned h field val (scan_pairs (replace field val) t (false, [])))
          (holds.packed p).0
      ∙ ap (set_scanned h field val) (scan_pairs-pack (replace field val) m (false, []) holds.fits)

module _ (h : PackHash) (m : GoMap Bytes) (field val : Bytes) (holds : Holds h m) (ff : Fits field)
    (fv : Fits val) where
  flat-put-Fits : All Fits (flat (GoMap.put field val m))
  flat-put-Fits = All-flat-put Fits field val m ff fv holds.fits

  put-IsDistinct_lem : GoMap.IsDistinct (GoMap.put field val m)
  put-IsDistinct_lem = put-IsDistinct field val m holds.distinct

  flat-put-IsShort :
      h.full ≡ none
      → length field ≤ h.max.max_bytes
      → length val ≤ h.max.max_bytes
      → All (IsShort h.max) (flat (GoMap.put field val m))
  flat-put-IsShort p a b = All-flat-put (IsShort h.max) field val m a b (holds.small p).1

  set-old : h.full ≡ none → GoMap.has field m ≡ true → Sets h m field val
  set-old p old =
      let m' = GoMap.put field val m in
      let count : h.count ≡ length m' =
        ground (arith, (holds.packed p).1, length-put field val m, old) in
      let (h', e, holds') =
        settled (record h { pack = pack_of (flat m') }) m' (length field) (length val) false p refl
          count put-IsDistinct_lem flat-put-Fits (flat-put-IsShort p) in
      (
        h',
        rw old (
            set-packed h m field val holds p
            ∙ ap (λ t. set_scanned h field val (some t))
                (replace-present field val m false [] holds.distinct old)
            ∙ e),
        holds',
      )

  set-new : h.full ≡ none → GoMap.has field m ≡ false → Sets h m field val
  set-new p new =
      let m' = GoMap.put field val m in
      let count : h.count + 1 ≡ length m' =
        ground (arith, (holds.packed p).1, length-put field val m, new) in
      let gone = none_of_has field m new in
      let pack : pack_append (pack_append (pack_of (flat m)) field) val ≡ pack_of (flat m') =
        pack_pair (flat m) field val
        ∙ ap pack_of
            (sym (ap flat (put-new field val m gone) ∙ flat-append m ((field, val) ∷ []))) in
      let (h', e, holds') =
        settled
          (record h {
            pack = pack_append (pack_append (pack_of (flat m)) field) val;
            count = h.count + 1;
          })
          m' (length field) (length val) true p pack count put-IsDistinct_lem flat-put-Fits
          (flat-put-IsShort p) in
      (
        h',
        rw new (
            set-packed h m field val holds p
            ∙ ap (λ t. set_scanned h field val (some t)) (replace-absent field val m false [] gone)
            ∙ e),
        holds',
      )

  set-full : (f : FullHash) → h.full ≡ some f → Sets h m field val
  unfolding set
  set-full f p = (
    record h { full = some (record { fields = GoMap.put field val f.fields }) },
    ap (set_to h field val) p
        ∙ ap
            (λ t. some (
              record h { full = some (record { fields = GoMap.put field val f.fields }) },
              not (GoMap.has field t),
            ))
            (holds.mapped f p),
    record {
      distinct = put-IsDistinct_lem;
      fits = flat-put-Fits;
      packed = λ q. cc;
      mapped = λ g q. ground (arith, q, ap (GoMap.put field val) (holds.mapped f p));
      small = λ q. cc;
    },
  )

  -- `Set` on a hash that stands for the map `m`, of a field and a value whose lengths fit 64 bits,
  -- ends without a panic, reports whether the field is new, and leaves a hash that stands for `m`
  -- with the field put to the value; a hash that stands for its map is within its thresholds while
  -- it is packed.
  pub set_refines : Sets h m field val
  set_refines = elim (Option-cases h.full) [
    | inl p ↦ elim (Bool-cases (GoMap.has field m)) [
      | inl old ↦ set-old p old
      | inr new ↦ set-new p new
    ]
    | inr (f, p) ↦ set-full f p
  ]
