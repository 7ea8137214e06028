-- ===== src/Value/Lists.antt =====
-- internal/value/list.go: a list is a pack of elements until it crosses its thresholds, then nodes
-- linked in both directions. `none` is a panic.
pub mod Nodes
pub mod Linked
pub mod Ends
pub mod Pops
pub mod Walks
pub mod Packed
pub mod Refines
pub mod Takes
pub mod Slices
use memcore.Base.{
  ℕ, zero, suc, ◌+◌, ◌-◌, Bool, true, false, Option, none, some, List, [], ◌∷◌, ◌++◌, length, take,
  ltb, leb, if◌then◌else◌, ◌==◌, Bytes,
}
use memcore.Base.Int.{ℤ}
use memcore.Value.Limits.{Thresholds, exceeded, normalize_range}
use memcore.Value.Pack.{pack_append, split_elem, pack_each}
use memcore.Value.Lists.Nodes
use memcore.Value.Lists.Nodes.{FullList}

pub record PackList : Type 0 where
  pub pack : Bytes
  pub count : ℕ
  pub full : Option FullList
  pub max : Thresholds

unfoldable pub new_list : Thresholds → PackList
new_list max = record { pack = []; count = 0; full = none; max = max }

abbrev pub counted : PackList → Option FullList → ℕ
counted l none = l.count
counted l (some f) = f.length

unfoldable pub list_len : PackList → ℕ
list_len l = counted l l.full

-- The callback of `promote`.
abbrev pub collect : FullList → Bytes → FullList × Bool
collect f e = (Nodes.push_back f e, true)

abbrev pub promoted : PackList → Option FullList → Option PackList
promoted l none = none
promoted l (some f) = some (record l { pack = []; count = 0; full = some f })

unfoldable pub promote : PackList → Option PackList
promote l = promoted l (pack_each collect l.pack Nodes.empty)

unfoldable pub promote_if_needed : PackList → ℕ → Option PackList
unfolding promote
promote_if_needed l elem_size =
    let full = promote l in if exceeded l.max l.count elem_size then full else some l

abbrev pub push_front_to : PackList → Bytes → Option FullList → Option PackList
push_front_to l b (some f) = some (record l { full = some (Nodes.push_front f b) })
push_front_to l b none =
    promote_if_needed (record l { pack = pack_append [] b ++ l.pack; count = l.count + 1 })
      (length b)

unfoldable pub push_front : PackList → Bytes → Option PackList
push_front l b = push_front_to l b l.full

abbrev pub push_back_to : PackList → Bytes → Option FullList → Option PackList
push_back_to l b (some f) = some (record l { full = some (Nodes.push_back f b) })
push_back_to l b none =
    promote_if_needed (record l { pack = pack_append l.pack b; count = l.count + 1 }) (length b)

unfoldable pub push_back : PackList → Bytes → Option PackList
push_back l b = push_back_to l b l.full

-- The element and the rest are `pack[w : w+n]` and `pack[w+n:]`.
abbrev pub first_cut : PackList → Option (Bytes × Bytes) → Option (PackList × Option Bytes)
first_cut l none = none
first_cut l (some (out, rest)) = some (record l { pack = rest; count = l.count - 1 }, some out)

abbrev pub with_full : PackList → FullList × Option Bytes → Option (PackList × Option Bytes)
with_full l (f, out) = some (record l { full = some f }, out)

abbrev pub pop_front_from : PackList → Option FullList → Option (PackList × Option Bytes)
pop_front_from l (some f) = with_full l (Nodes.pop_front f)
pop_front_from l none = if l.count == 0 then some (l, none) else first_cut l (split_elem l.pack)

unfoldable pub pop_front : PackList → Option (PackList × Option Bytes)
pop_front l = pop_front_from l l.full

-- The loop of `PopBack`: `off` is where `rest` begins, and `last` the last element with its offset. A
-- round that reads no byte never ends, which is `none` as a panic is.
unfoldable pub last_elem : ℕ → ℕ → Bytes → ℕ × Bytes → Option (ℕ × Bytes)
last_elem fuel off [] last = some last
last_elem zero off (b ∷ bs) last = none
last_elem (suc fuel) off (b ∷ bs) last = elim (split_elem (b ∷ bs)) [
  | none ↦ none
  | some (elem, rest) ↦ last_elem fuel (off + (length (b ∷ bs) - length rest)) rest (off, elem)
]

abbrev pub last_cut : PackList → Option (ℕ × Bytes) → Option (PackList × Option Bytes)
last_cut l none = none
last_cut l (some (off, out)) =
    some (record l { pack = take off l.pack; count = l.count - 1 }, some out)

abbrev pub pop_back_from : PackList → Option FullList → Option (PackList × Option Bytes)
pop_back_from l (some f) = with_full l (Nodes.pop_back f)
pop_back_from l none =
    if l.count == 0 then some (l, none) else last_cut l (last_elem (length l.pack) 0 l.pack (0, []))

unfoldable pub pop_back : PackList → Option (PackList × Option Bytes)
unfolding last_elem
pop_back l = pop_back_from l l.full

-- The callback of `Range`: the index of the element, and what is gathered.
abbrev pub select : ℕ → ℕ → ℕ × List Bytes → Bytes → (ℕ × List Bytes) × Bool
select lo hi (i, out) e = ((i + 1, if leb lo i then out ++ (e ∷ []) else out), leb (i + 1) hi)

abbrev pub gathered : Option (ℕ × List Bytes) → Option (List Bytes)
gathered none = none
gathered (some (i, out)) = some out

abbrev pub range_packed : PackList → Option (ℕ × ℕ) → Option (List Bytes)
range_packed l none = some []
range_packed l (some (lo, hi)) = gathered (pack_each (select lo hi) l.pack (0, []))

abbrev pub range_from : PackList → ℤ → ℤ → Option FullList → Option (List Bytes)
range_from l start stop (some f) = Nodes.range_elems f start stop
range_from l start stop none = range_packed l (normalize_range start stop l.count)

unfoldable pub range : PackList → ℤ → ℤ → Option (List Bytes)
range l start stop = range_from l start stop l.full
