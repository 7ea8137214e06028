-- ===== src/Value/Lists/Takes.antt =====
-- A list in either encoding, against the elements it stands for: pops and ranges.
use memcore.Base.{
  ℕ, ◌+◌, ◌-◌, ◌≤◌, ◌≡◌, refl, sym, ap, ◌∙◌, true, false, Option, none, some, List, [], ◌∷◌, ◌++◌,
  arith, ◌==◌, length, length-append, take, drop, take-append, Bytes, All, ◌⊎◌, inl, inr,
  Option-cases,
}
use memcore.Value.Pack.{pack_of, Fits, split_elem, split_elem-pack}
use memcore.Value.Lists.{
  PackList, first_cut, with_full, pop_front_from, pop_front, last_elem, last_cut, pop_back_from,
  pop_back,
}
use memcore.Value.Lists.Nodes
use memcore.Value.Lists.Nodes.{FullList, gather_from, walk, range_of}
use memcore.Value.Lists.Linked.{Spine, values}
use memcore.Value.Lists.Pops.{pop_front_nil, pop_front_cons, pop_back_nil, pop_back_snoc}
use memcore.Value.Lists.Packed.{pack_of-append, last_elem-pack}
use memcore.Value.Lists.Refines.{Holds, IsShort, full-Holds}

-- The element at an end, and those that are left.
abbrev pub uncons : List Bytes → Option (Bytes × List Bytes)
uncons [] = none
uncons (e ∷ es) = some (e, es)

abbrev pub behind : Bytes → Option (Bytes × List Bytes) → Option (Bytes × List Bytes)
behind x none = some (x, [])
behind x (some (e, es)) = some (e, x ∷ es)

abbrev pub unsnoc : List Bytes → Option (Bytes × List Bytes)
unsnoc [] = none
unsnoc (x ∷ xs) = behind x (unsnoc xs)

-- The outcome `r` of a pop from `l`: nothing of an empty list, else the element and a list of the rest.
abbrev pub Popped :
    PackList → Option (PackList × Option Bytes) → Option (Bytes × List Bytes) → Type 0
Popped l r none = r ≡ some (l, none)
Popped l r (some (e, es)) = (l' : PackList) × (r ≡ some (l', some e)) × Holds l' es

-- Elements in their order but for the last one.
pub unsnoc_cases :
    (es : List Bytes)
    → ((es ≡ []) × (unsnoc es ≡ none))
      ⊎ ((ds : List Bytes) × (e : Bytes) × (es ≡ ds ++ (e ∷ [])) × (unsnoc es ≡ some (e, ds)))
unsnoc_cases [] = inl (refl, refl)
unsnoc_cases (x ∷ xs) = inr (elim (unsnoc_cases xs) [
  | inl (n, u) ↦ ([], x, ap (λ t. x ∷ t) n, ap (behind x) u)
  | inr (ds, e, n, u) ↦ (x ∷ ds, e, ap (λ t. x ∷ t) n, ap (behind x) u)
])

All-front : (P : Bytes → Type 0) (xs ys : List Bytes) → All P (xs ++ ys) → All P xs
All-front P [] ys h = tt
All-front P (x ∷ xs) ys h = (h.0, All-front P xs ys h.1)

-- A list that keeps the elements `es` packed.
packed-Holds :
    (l : PackList) (es : List Bytes)
    → l.full ≡ none
    → l.pack ≡ pack_of es
    → l.count ≡ length es
    → All Fits es
    → length es ≤ l.max.max_entries
    → All (IsShort l.max) es
    → Holds l es
packed-Holds l es p q n fits m short = record {
  fits = fits;
  packed = λ _. (q, n);
  linked = λ f r. cc;
  small = λ _. (m, short);
}

same_list : (l : PackList) (f : FullList) → l.full ≡ some f → record l { full = some f } ≡ l
same_list l f p = ap (λ (o : Option FullList). record l { full = o }) (sym p)

values_nil : (xs : Spine) → values xs ≡ [] → xs ≡ []
values_nil [] e = refl
values_nil ((a, v) ∷ xs) e = cc

-- A list of elements is the values of a spine with a first node.
values_cons :
    (xs : Spine) (e : Bytes) (es : List Bytes)
    → values xs ≡ e ∷ es
    → (a : ℕ) × (ys : Spine) × (xs ≡ (a, e) ∷ ys) × (values ys ≡ es)
values_cons [] e es p = cc
values_cons ((a, v) ∷ xs) e es p =
    (a, xs, ap (λ t. (a, t) ∷ xs) (ap (λ t. head_or t) p), ap (λ t. drop 1 t) p)
  where
    head_or : List Bytes → Bytes
    head_or [] = []
    head_or (x ∷ xs) = x

pop_front-packed :
    (l : PackList) (es : List Bytes)
    → Holds l es
    → l.full ≡ none
    → Popped l (pop_front l) (uncons es)
unfolding pop_front
pop_front-packed l [] h p =
    let zero_count : (l.count == 0) ≡ true = ground (arith, (h.packed p).1) in
    ap (pop_front_from l) p ∙ rw zero_count refl
pop_front-packed l (e ∷ es) h p =
    let some_count : (l.count == 0) ≡ false = ground (arith, (h.packed p).1) in
    (
      record l { pack = pack_of es; count = l.count - 1 },
      ap (pop_front_from l) p
          ∙ rw some_count (
              ap (λ t. first_cut l (split_elem t)) (h.packed p).0
              ∙ ap (first_cut l) (split_elem-pack e (pack_of es) h.fits.0)),
      packed-Holds _ es p refl (omega (arith, (h.packed p).1)) h.fits.1
          (omega (arith, (h.small p).0)) (h.small p).1.1,
    )

pop_front-full :
    (l : PackList) (es : List Bytes) (f : FullList)
    → Holds l es
    → l.full ≡ some f
    → Popped l (pop_front l) (uncons es)
unfolding pop_front
pop_front-full l [] f h p =
    let (xs, s, eq) = h.linked f p in
    ap (pop_front_from l) p
    ∙ ap (with_full l) (pop_front_nil f (rw (sym (values_nil xs eq)) s))
    ∙ ap (λ t. some (t, none)) (same_list l f p)
pop_front-full l (e ∷ es) f h p =
    let (xs, s, eq) = h.linked f p in
    let (a, ys, split, rest) = values_cons xs e es eq in
    let (popped, stands) = pop_front_cons f a e ys (rw (sym split) s) in
    (
      record l { full = some (Nodes.unlink_front f _) },
      ap (pop_front_from l) p ∙ ap (with_full l) popped,
      full-Holds _ _ es refl h.fits.1 (ys, stands, rest),
    )

-- `PopFront` on a list that stands for elements returns the first of them and leaves a list of the
-- rest, or finds the list empty and leaves it as it is; it does not panic.
pub pop_front_refines :
    (l : PackList) (es : List Bytes) → Holds l es → Popped l (pop_front l) (uncons es)
pop_front_refines l es h = elim (Option-cases l.full) [
  | inl p ↦ pop_front-packed l es h p
  | inr (f, p) ↦ pop_front-full l es f h p
]

-- A list of elements with a last one is the values of a spine with a last node.
values_snoc :
    (xs : Spine) (ds : List Bytes) (e : Bytes)
    → values xs ≡ ds ++ (e ∷ [])
    → (ys : Spine) × (a : ℕ) × (xs ≡ ys ++ ((a, e) ∷ [])) × (values ys ≡ ds)
values_snoc xs [] e p =
    let (a, ys, split, rest) = values_cons xs e [] p in
    ([], a, split ∙ ap (λ t. (a, e) ∷ t) (values_nil ys rest), refl)
values_snoc xs (d ∷ ds) e p =
    let (b, zs, split, rest) = values_cons xs d (ds ++ (e ∷ [])) p in
    let (ys, a, inner, left) = values_snoc zs ds e rest in
    ((b, d) ∷ ys, a, split ∙ ap (λ t. (b, d) ∷ t) inner, ap (λ t. d ∷ t) left)

pop_back_empty : (l : PackList) → Holds l [] → pop_back l ≡ some (l, none)
unfolding pop_back
pop_back_empty l h = elim (Option-cases l.full) [
  | inl p ↦
      let zero_count : (l.count == 0) ≡ true = ground (arith, (h.packed p).1) in
      ap (pop_back_from l) p ∙ rw zero_count refl
  | inr (f, p) ↦
      let (xs, s, eq) = h.linked f p in
      ap (pop_back_from l) p
      ∙ ap (with_full l) (pop_back_nil f (rw (sym (values_nil xs eq)) s))
      ∙ ap (λ t. some (t, none)) (same_list l f p)
]

zero_add : (n : ℕ) → 0 + n ≡ n
zero_add n = omega arith

last_of_pack :
    (l : PackList) (ds : List Bytes) (e : Bytes)
    → Holds l (ds ++ (e ∷ []))
    → l.full ≡ none
    → last_cut l (last_elem (length l.pack) 0 l.pack (0, []))
      ≡ some (record l { pack = pack_of ds; count = l.count - 1 }, some e)
last_of_pack l ds e h p =
    ap (λ t. last_cut l (last_elem (length t) 0 t (0, []))) (h.packed p).0
    ∙ ap (last_cut l) (
        last_elem-pack ds e _ 0 (0, []) h.fits (omega arith)
        ∙ ap (λ n. some (n, e)) (zero_add (length (pack_of ds))))
    ∙ ap (λ t. some (record l { pack = t; count = l.count - 1 }, some e))
        (ap (λ t. take (length (pack_of ds)) t) ((h.packed p).0 ∙ pack_of-append ds (e ∷ []))
          ∙ take-append (pack_of ds) (pack_of (e ∷ [])))

pop_back-packed :
    (l : PackList) (ds : List Bytes) (e : Bytes)
    → Holds l (ds ++ (e ∷ []))
    → l.full ≡ none
    → Popped l (pop_back l) (some (e, ds))
unfolding pop_back
pop_back-packed l ds e h p =
    let some_count : (l.count == 0) ≡ false =
      ground (arith, (h.packed p).1, length-append ds (e ∷ [])) in
    (
      record l { pack = pack_of ds; count = l.count - 1 },
      ap (pop_back_from l) p ∙ rw some_count (last_of_pack l ds e h p),
      packed-Holds _ ds p refl (omega (arith, (h.packed p).1, length-append ds (e ∷ [])))
          (All-front Fits ds (e ∷ []) h.fits)
          (omega (arith, (h.small p).0, length-append ds (e ∷ [])))
          (All-front (IsShort l.max) ds (e ∷ []) (h.small p).1),
    )

pop_back-full :
    (l : PackList) (ds : List Bytes) (e : Bytes) (f : FullList)
    → Holds l (ds ++ (e ∷ []))
    → l.full ≡ some f
    → Popped l (pop_back l) (some (e, ds))
unfolding pop_back
pop_back-full l ds e f h p =
    let (xs, s, eq) = h.linked f p in
    let (ys, a, split, left) = values_snoc xs ds e eq in
    let (popped, stands) = pop_back_snoc f ys a e (rw (sym split) s) in
    (
      record l { full = some (Nodes.unlink_back f _) },
      ap (pop_back_from l) p ∙ ap (with_full l) popped,
      full-Holds _ _ ds refl (All-front Fits ds (e ∷ []) h.fits) (ys, stands, left),
    )

-- `PopBack` on a list that stands for elements, packed or linked, returns the last of them and
-- leaves a list of those before it, or finds the list empty and leaves it as it is; it does not
-- panic.
pub pop_back_refines :
    (l : PackList) (es : List Bytes) → Holds l es → Popped l (pop_back l) (unsnoc es)
pop_back_refines l es h = elim (unsnoc_cases es) [
  | inl (n, u) ↦ rw u (pop_back_empty l (rw (sym n) h))
  | inr (ds, e, n, u) ↦ rw u (elim (Option-cases l.full) [
    | inl p ↦ pop_back-packed l ds e (rw (sym n) h) p
    | inr (f, p) ↦ pop_back-full l ds e f (rw (sym n) h) p
  ])
]
