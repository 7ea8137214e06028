-- ===== src/Value/Set.antt =====
-- internal/value/set.go: a set is a pack of members until it crosses its thresholds, then a map.
pub mod Scans
pub mod Refines
pub mod Queries
use memcore.Base.{
  ℕ, ◌+◌, ◌-◌, Bool, true, false, not, Option, none, some, List, [], ◌∷◌, ◌++◌, length,
  if◌then◌else◌, Bytes, bytes_eq,
}
use memcore.Base.GoMap
use memcore.Base.GoMap.{GoMap}
use memcore.Value.Limits.{Thresholds, exceeded}
use memcore.Value.Pack.{pack_append, pack_each}

-- `fullSet`: the members are the keys of a map.
pub record FullSet : Type 0 where
  pub members : GoMap (Unit {0})

pub record PackSet : Type 0 where
  pub pack : Bytes
  pub count : ℕ
  pub full : Option FullSet
  pub max : Thresholds

unfoldable pub new_set : Thresholds → PackSet
new_set max = record { pack = []; count = 0; full = none; max = max }

unfoldable pub full_add : FullSet → Bytes → FullSet × Bool
full_add s member =
    if GoMap.has member s.members
    then (s, false)
    else (record s { members = GoMap.put member tt s.members }, true)

unfoldable pub full_remove : FullSet → Bytes → FullSet × Bool
full_remove s member =
    if not (GoMap.has member s.members)
    then (s, false)
    else (record s { members = GoMap.delete member s.members }, true)

unfoldable pub full_contains : FullSet → Bytes → Bool
full_contains s member = GoMap.has member s.members

unfoldable pub full_all : FullSet → List Bytes
full_all s = GoMap.keys s.members

abbrev pub counted : PackSet → Option FullSet → ℕ
counted s none = s.count
counted s (some f) = length f.members

unfoldable pub len : PackSet → ℕ
len s = counted s s.full

-- The scan of `scanContains`: `found` is set at the first equal element, which ends the scan.
abbrev pub seek : Bytes → Bool → Bytes → Bool × Bool
seek member found e = if bytes_eq e member then (true, false) else (found, true)

unfoldable pub scan_contains : Bytes → Bytes → Option Bool
scan_contains pack member = pack_each (seek member) pack false

-- The callback of `promote`.
abbrev pub collect : GoMap (Unit {0}) → Bytes → GoMap (Unit {0}) × Bool
collect members e = (GoMap.put e tt members, true)

abbrev pub promoted : PackSet → Option (GoMap (Unit {0})) → Option PackSet
promoted s none = none
promoted s (some m) = some (record s { pack = []; count = 0; full = some (record { members = m }) })

unfoldable pub promote : PackSet → Option PackSet
promote s = promoted s (pack_each collect s.pack [])

abbrev pub with_true : Option PackSet → Option (PackSet × Bool)
with_true none = none
with_true (some s) = some (s, true)

abbrev pub pushed : PackSet → Bytes → PackSet
pushed s member = record s { pack = pack_append s.pack member; count = s.count + 1 }

-- `Add` in the packed encoding, behind the scan for the member.
abbrev pub add_scanned : PackSet → Bytes → Option Bool → Option (PackSet × Bool)
add_scanned s member none = none
add_scanned s member (some true) = some (s, false)
add_scanned s member (some false) =
    let grown = with_true (promote (pushed s member)) in
    if exceeded s.max (s.count + 1) (length member) then grown else some (pushed s member, true)

abbrev pub add_to : PackSet → Bytes → Option FullSet → Option (PackSet × Bool)
add_to s member none = add_scanned s member (scan_contains s.pack member)
add_to s member (some f) =
    some (record s { full = some (full_add f member).0 }, (full_add f member).1)

unfoldable pub add : PackSet → Bytes → Option (PackSet × Bool)
add s member = add_to s member s.full

-- The scan of `Remove`: whether the member was found, and the pack without it.
abbrev pub strip : Bytes → Bool × Bytes → Bytes → (Bool × Bytes) × Bool
strip member (found, rebuilt) e =
    if bytes_eq e member then ((true, rebuilt), true) else ((found, pack_append rebuilt e), true)

abbrev pub compact_remove : PackSet → Option (Bool × Bytes) → Option (PackSet × Bool)
compact_remove s none = none
compact_remove s (some (true, rebuilt)) =
    some (record s { pack = rebuilt; count = s.count - 1 }, true)
compact_remove s (some (false, rebuilt)) = some (s, false)

abbrev pub remove_from : PackSet → Bytes → Option FullSet → Option (PackSet × Bool)
remove_from s member none = compact_remove s (pack_each (strip member) s.pack (false, []))
remove_from s member (some f) =
    some (record s { full = some (full_remove f member).0 }, (full_remove f member).1)

unfoldable pub remove : PackSet → Bytes → Option (PackSet × Bool)
remove s member = remove_from s member s.full

abbrev pub contained : PackSet → Bytes → Option FullSet → Option Bool
contained s member none = scan_contains s.pack member
contained s member (some f) = some (full_contains f member)

unfoldable pub contains : PackSet → Bytes → Option Bool
contains s member = contained s member s.full

abbrev pub gather : List Bytes → Bytes → List Bytes × Bool
gather out e = (out ++ (e ∷ []), true)

abbrev pub listed : PackSet → Option FullSet → Option (List Bytes)
listed s none = pack_each gather s.pack []
listed s (some f) = some (full_all f)

unfoldable pub members : PackSet → Option (List Bytes)
members s = listed s s.full
