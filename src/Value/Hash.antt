-- ===== src/Value/Hash.antt =====
-- internal/value/hash.go: a hash is a pack of alternating fields and values until it crosses its
-- thresholds, then a map.
pub mod Scans
pub mod Folds
pub mod Represents
pub mod Sets
pub mod Queries
use memcore.Base.{
  ℕ, ◌+◌, ◌-◌, Bool, true, false, not, Option, none, some, List, [], ◌∷◌, ◌++◌, length, ltb,
  if◌then◌else◌, Bytes, bytes_eq,
}
use memcore.Base.GoMap
use memcore.Base.GoMap.{GoMap}
use memcore.Value.Limits.{Thresholds, exceeded}
use memcore.Value.Pack.{pack_append, pack_each}

-- `fullHash`
pub record FullHash : Type 0 where
  pub fields : GoMap Bytes

pub record PackHash : Type 0 where
  pub pack : Bytes
  pub count : ℕ
  pub full : Option FullHash
  pub max : Thresholds

unfoldable pub new_hash : Thresholds → PackHash
new_hash max = record { pack = []; count = 0; full = none; max = max }

-- The callback of `scanPairs`: a field is remembered until its value comes.
module _ {ℓ} {S : Type ℓ} (fn : S → Bytes → Bytes → S × Bool) where
  abbrev pub pair_step : (Bytes × Bool) × S → Bytes → ((Bytes × Bool) × S) × Bool
  pair_step ((field, false), s) e = (((e, true), s), true)
  pair_step ((field, true), s) e = (((field, false), (fn s field e).0), (fn s field e).1)

  abbrev pub captured : Option ((Bytes × Bool) × S) → Option S
  captured none = none
  captured (some (f, s)) = some s

  unfoldable pub scan_pairs : Bytes → S → Option S
  scan_pairs buf s = captured (pack_each pair_step buf (([], false), s))

abbrev pub counted : PackHash → Option FullHash → ℕ
counted h none = h.count
counted h (some f) = length f.fields

unfoldable pub len : PackHash → ℕ
len h = counted h h.full

-- The callback of `Get`: the value of the first equal field, which ends the scan.
abbrev pub seek : Bytes → Option Bytes → Bytes → Bytes → Option Bytes × Bool
seek field out f v = if bytes_eq f field then (some v, false) else (out, true)

abbrev pub get_from : PackHash → Bytes → Option FullHash → Option (Option Bytes)
get_from h field none = scan_pairs (seek field) h.pack none
get_from h field (some f) = some (GoMap.get field f.fields)

unfoldable pub get : PackHash → Bytes → Option (Option Bytes)
get h field = get_from h field h.full

-- The callback of `promote`.
abbrev pub collect : GoMap Bytes → Bytes → Bytes → GoMap Bytes × Bool
collect fields f v = (GoMap.put f v fields, true)

abbrev pub promoted : PackHash → Option (GoMap Bytes) → Option PackHash
promoted h none = none
promoted h (some m) = some (record h { pack = []; count = 0; full = some (record { fields = m }) })

unfoldable pub promote : PackHash → Option PackHash
promote h = promoted h (scan_pairs collect h.pack [])

unfoldable pub promote_if_needed : PackHash → ℕ → ℕ → Option PackHash
promote_if_needed h field_size val_size =
    let big = if ltb field_size val_size then val_size else field_size in
    let full = promote h in if exceeded h.max h.count big then full else some h

abbrev pub with_flag : Bool → Option PackHash → Option (PackHash × Bool)
with_flag fresh none = none
with_flag fresh (some h) = some (h, fresh)

-- The callback of `Set`: the pack is rebuilt with the value of the field replaced.
abbrev pub replace : Bytes → Bytes → Bool × Bytes → Bytes → Bytes → (Bool × Bytes) × Bool
replace field val (existed, rebuilt) f v =
    if bytes_eq f field
    then ((true, pack_append (pack_append rebuilt f) val), true)
    else ((existed, pack_append (pack_append rebuilt f) v), true)

abbrev pub set_scanned : PackHash → Bytes → Bytes → Option (Bool × Bytes) → Option (PackHash × Bool)
set_scanned h field val none = none
set_scanned h field val (some (true, rebuilt)) =
    with_flag false (promote_if_needed (record h { pack = rebuilt }) (length field) (length val))
set_scanned h field val (some (false, rebuilt)) = with_flag true (
    promote_if_needed
      (record h { pack = pack_append (pack_append rebuilt field) val; count = h.count + 1 })
      (length field) (length val))

abbrev pub set_to : PackHash → Bytes → Bytes → Option FullHash → Option (PackHash × Bool)
set_to h field val none =
    set_scanned h field val (scan_pairs (replace field val) h.pack (false, []))
set_to h field val (some f) = some (
  record h { full = some (record { fields = GoMap.put field val f.fields }) },
  not (GoMap.has field f.fields),
)

unfoldable pub set : PackHash → Bytes → Bytes → Option (PackHash × Bool)
set h field val = set_to h field val h.full

-- The callback of `Delete`.
abbrev pub strip : Bytes → Bool × Bytes → Bytes → Bytes → (Bool × Bytes) × Bool
strip field (found, rebuilt) f v =
    if bytes_eq f field
    then ((true, rebuilt), true)
    else ((found, pack_append (pack_append rebuilt f) v), true)

abbrev pub delete_scanned : PackHash → Option (Bool × Bytes) → Option (PackHash × Bool)
delete_scanned h none = none
delete_scanned h (some (false, rebuilt)) = some (h, false)
delete_scanned h (some (true, rebuilt)) =
    some (record h { pack = rebuilt; count = h.count - 1 }, true)

abbrev pub delete_from : PackHash → Bytes → Option FullHash → Option (PackHash × Bool)
delete_from h field none = delete_scanned h (scan_pairs (strip field) h.pack (false, []))
delete_from h field (some f) = some (
  record h { full = some (record { fields = GoMap.delete field f.fields }) },
  GoMap.has field f.fields,
)

unfoldable pub delete : PackHash → Bytes → Option (PackHash × Bool)
delete h field = delete_from h field h.full

abbrev pub gather : List Bytes → Bytes → Bytes → List Bytes × Bool
gather out f v = (out ++ (f ∷ v ∷ []), true)

-- The pairs of a map, flat.
abbrev pub flat : GoMap Bytes → List Bytes
flat [] = []
flat ((f, v) ∷ m) = f ∷ v ∷ flat m

abbrev pub pairs_from : PackHash → Option FullHash → Option (List Bytes)
pairs_from h none = scan_pairs gather h.pack []
pairs_from h (some f) = some (flat f.fields)

unfoldable pub pairs : PackHash → Option (List Bytes)
pairs h = pairs_from h h.full
