-- ===== src/Value/Lists/Nodes.antt =====
-- The full encoding of a list in internal/value/list.go: nodes linked in both directions. The nodes of
-- a list are its own, so each list has a store of them: a cell for each address, the next free
-- address, and `none` for the nil pointer.
use memcore.Base.{
  ℕ, zero, suc, ◌+◌, ◌-◌, Option, none, some, List, [], ◌∷◌, ◌==◌, if◌then◌else◌, Bytes,
}
use memcore.Base.Int.{ℤ}
use memcore.Value.Limits.{normalize_range}

pub record Node : Type 0 where
  pub value : Bytes
  pub prev : Option ℕ
  pub next : Option ℕ

abbrev pub node : Bytes → Option ℕ → Option ℕ → Node
node v p n = record { value = v; prev = p; next = n }

abbrev pub Cells : Type 0
Cells = ℕ → Node

-- `*a = n`
unfoldable pub write : Cells → ℕ → Node → Cells
write c a n b = if b == a then n else c b

pub record FullList : Type 0 where
  pub cells : Cells
  pub fresh : ℕ
  pub head : Option ℕ
  pub tail : Option ℕ
  pub length : ℕ

abbrev pub empty : FullList
empty = record { cells = λ _. node [] none none; fresh = 0; head = none; tail = none; length = 0 }

-- `a.prev = p` and `a.next = n`
abbrev pub set_prev : Cells → ℕ → Option ℕ → Cells
set_prev c a p = write c a (record (c a) { prev = p })

abbrev pub set_next : Cells → ℕ → Option ℕ → Cells
set_next c a n = write c a (record (c a) { next = n })

-- `pushFront` behind the allocation of the node `n`, by the old head.
abbrev pub link_front : FullList → ℕ → Option ℕ → FullList
link_front l n none = record l { tail = some n; head = some n; length = l.length + 1 }
link_front l n (some h) = record l {
  cells = set_prev l.cells h (some n);
  head = some n;
  length = l.length + 1;
}

unfoldable pub push_front : FullList → Bytes → FullList
push_front l b =
    link_front
      (record l { cells = write l.cells l.fresh (node b none l.head); fresh = l.fresh + 1 }) l.fresh
      l.head

abbrev pub link_back : FullList → ℕ → Option ℕ → FullList
link_back l n none = record l { head = some n; tail = some n; length = l.length + 1 }
link_back l n (some t) = record l {
  cells = set_next l.cells t (some n);
  tail = some n;
  length = l.length + 1;
}

unfoldable pub push_back : FullList → Bytes → FullList
push_back l b =
    link_back (record l { cells = write l.cells l.fresh (node b l.tail none); fresh = l.fresh + 1 })
      l.fresh l.tail

-- `popFront` behind the test for a head, by the new head.
abbrev pub unlink_front : FullList → Option ℕ → FullList
unlink_front l none = record l { head = none; tail = none; length = l.length - 1 }
unlink_front l (some h) = record l {
  cells = set_prev l.cells h none;
  head = some h;
  length = l.length - 1;
}

abbrev pub pop_head : FullList → Option ℕ → FullList × Option Bytes
pop_head l none = (l, none)
pop_head l (some n) = (unlink_front l (l.cells n).next, some (l.cells n).value)

unfoldable pub pop_front : FullList → FullList × Option Bytes
pop_front l = pop_head l l.head

abbrev pub unlink_back : FullList → Option ℕ → FullList
unlink_back l none = record l { tail = none; head = none; length = l.length - 1 }
unlink_back l (some t) = record l {
  cells = set_next l.cells t none;
  tail = some t;
  length = l.length - 1;
}

abbrev pub pop_tail : FullList → Option ℕ → FullList × Option Bytes
pop_tail l none = (l, none)
pop_tail l (some n) = (unlink_back l (l.cells n).prev, some (l.cells n).value)

unfoldable pub pop_back : FullList → FullList × Option Bytes
pop_back l = pop_tail l l.tail

-- The two loops of `rangeElems`; a nil pointer that is followed panics, here `none`.
unfoldable pub walk : Cells → ℕ → Option ℕ → Option (Option ℕ)
walk c zero p = some p
walk c (suc i) none = none
walk c (suc i) (some a) = walk c i (c a).next

abbrev pub with_value : Bytes → Option (List Bytes) → Option (List Bytes)
with_value v none = none
with_value v (some vs) = some (v ∷ vs)

unfoldable pub gather : Cells → ℕ → Option ℕ → Option (List Bytes)
gather c zero p = some []
gather c (suc i) none = none
gather c (suc i) (some a) = with_value (c a).value (gather c i (c a).next)

abbrev pub gather_from : Cells → ℕ → Option (Option ℕ) → Option (List Bytes)
gather_from c n none = none
gather_from c n (some p) = gather c n p

abbrev pub range_of : FullList → Option (ℕ × ℕ) → Option (List Bytes)
range_of l none = some []
range_of l (some (lo, hi)) = gather_from l.cells (hi - lo + 1) (walk l.cells lo l.head)

unfoldable pub range_elems : FullList → ℤ → ℤ → Option (List Bytes)
unfolding walk gather
range_elems l start stop = range_of l (normalize_range start stop l.length)
