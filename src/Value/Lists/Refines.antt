-- ===== src/Value/Lists/Refines.antt =====
-- A list in either encoding, against the elements it stands for: pushes.
use memcore.Base.{
  ℕ, ◌+◌, ◌≤◌, ◌≡◌, refl, sym, ap, ◌∙◌, false, none, some, List, [], ◌∷◌, ◌++◌, arith, length,
  length-append, Bytes, All, All-append, inl, inr, Bool-cases, Option-cases,
}
use memcore.Value.Limits.{Thresholds, exceeded, exceeded-false}
use memcore.Value.Pack.{
  pack_append, pack_each, pack_of, Fits, pack_append-pack_of, pack_each-pack, each,
}
use memcore.Value.Lists.{
  PackList, new_list, counted, list_len, collect, promoted, promote, promote_if_needed,
  push_front_to, push_front, push_back_to, push_back,
}
use memcore.Value.Lists.Nodes
use memcore.Value.Lists.Nodes.{FullList}
use memcore.Value.Lists.Linked.{values-append, length-values}
use memcore.Value.Lists.Ends
use memcore.Value.Lists.Ends.{Stands, empty-Stands, push_front-Stands, push_back-Stands}
use memcore.Value.Lists.Packed.{pack_of-push_front, collect-Stands}

abbrev pub IsShort : Thresholds → Bytes → Type 0
IsShort t e = length e ≤ t.max_bytes

-- The list `l` stands for the elements `es`: the pack holds them, or the linked nodes do. A packed
-- list is within its thresholds.
pub record Holds (l : PackList) (es : List Bytes) : Type 0 where
  pub fits : All Fits es
  pub packed : l.full ≡ none → (l.pack ≡ pack_of es) × (l.count ≡ length es)
  pub linked : (f : FullList) → l.full ≡ some f → Ends.Holds f es
  pub small : l.full ≡ none → (length es ≤ l.max.max_entries) × All (IsShort l.max) es

pub new_list-Holds : (max : Thresholds) → Holds (new_list max) []
unfolding new_list
new_list-Holds max = record {
  fits = tt;
  packed = λ _. (refl, refl);
  linked = λ f e. cc;
  small = λ _. (omega arith, tt);
}

-- A list in the full encoding.
pub full-Holds :
    (l : PackList) (f : FullList) (es : List Bytes)
    → l.full ≡ some f
    → All Fits es
    → Ends.Holds f es
    → Holds l es
full-Holds l f es p fits h = record {
  fits = fits;
  packed = λ q. cc;
  linked = λ g q. rw (some-inj g f (sym q ∙ p)) h;
  small = λ q. cc;
}
  where
    some-inj : (a b : FullList) → some a ≡ some b → a ≡ b
    some-inj a b e = ap (λ o. elim o [ none ↦ a | some c ↦ c ]) e

promote-packed :
    (l : PackList) (es : List Bytes)
    → l.pack ≡ pack_of es
    → All Fits es
    → promote l
      ≡ some (record l { pack = []; count = 0; full = some (each collect es Nodes.empty) })
unfolding promote
promote-packed l es p fits =
    ap (λ t. promoted l (pack_each collect t Nodes.empty)) p
    ∙ ap (promoted l) (pack_each-pack collect es Nodes.empty fits)

-- What a push onto the pack ends in, whether or not the list is promoted.
promote_if_needed-Holds :
    (l : PackList) (es : List Bytes) (elem_size : ℕ)
    → l.full ≡ none
    → l.pack ≡ pack_of es
    → l.count ≡ length es
    → All Fits es
    → (exceeded l.max l.count elem_size ≡ false → All (IsShort l.max) es)
    → (l' : PackList) × (promote_if_needed l elem_size ≡ some l') × Holds l' es
unfolding promote_if_needed
promote_if_needed-Holds l es elem_size p q n fits short =
    elim (Bool-cases (exceeded l.max l.count elem_size)) [
      | inl grows ↦ (
        record l { pack = []; count = 0; full = some (each collect es Nodes.empty) },
        rw grows (promote-packed l es q fits),
        full-Holds _ _ es refl fits (collect-Stands es Nodes.empty [] empty-Stands),
      )
      | inr stays ↦ (
        l,
        rw stays refl,
        record {
          fits = fits;
          packed = λ _. (q, n);
          linked = λ f r. cc;
          small = λ _. (omega (arith, n, exceeded-false l.max _ _ stays), short stays);
        },
      )
    ]

abbrev pub PushesFront : PackList → List Bytes → Bytes → Type 0
PushesFront l es b = (l' : PackList) × (push_front l b ≡ some l') × Holds l' (b ∷ es)

abbrev pub PushesBack : PackList → List Bytes → Bytes → Type 0
PushesBack l es b = (l' : PackList) × (push_back l b ≡ some l') × Holds l' (es ++ (b ∷ []))

push_front-packed :
    (l : PackList) (es : List Bytes) (b : Bytes)
    → Holds l es
    → Fits b
    → l.full ≡ none
    → PushesFront l es b
unfolding push_front
push_front-packed l es b h fits p =
    let (l', e, held) =
      promote_if_needed-Holds (record l { pack = pack_append [] b ++ l.pack; count = l.count + 1 })
        (b ∷ es) (length b) p
        (ap (λ t. pack_append [] b ++ t) (h.packed p).0 ∙ pack_of-push_front es b)
        (omega (arith, (h.packed p).1)) (fits, h.fits)
        (λ stays. ((exceeded-false l.max _ _ stays).1, (h.small p).1)) in
    (l', ap (push_front_to l b) p ∙ e, held)

push_front-full :
    (l : PackList) (es : List Bytes) (b : Bytes) (f : FullList)
    → Holds l es
    → Fits b
    → l.full ≡ some f
    → PushesFront l es b
unfolding push_front
push_front-full l es b f h fits p =
    let (xs, s, eq) = h.linked f p in
    (
      record l { full = some (Nodes.push_front f b) },
      ap (push_front_to l b) p,
      full-Holds _ _ (b ∷ es) refl (fits, h.fits)
          ((f.fresh, b) ∷ xs, push_front-Stands f xs b s, ap (λ t. b ∷ t) eq),
    )

-- `PushFront` on a list that stands for the elements `es` puts the new element before them, and does
-- not panic, whether the list is packed, full, or promoted by the push.
pub push_front_refines :
    (l : PackList) (es : List Bytes) (b : Bytes) → Holds l es → Fits b → PushesFront l es b
push_front_refines l es b h fits = elim (Option-cases l.full) [
  | inl p ↦ push_front-packed l es b h fits p
  | inr (f, p) ↦ push_front-full l es b f h fits p
]

push_back-packed :
    (l : PackList) (es : List Bytes) (b : Bytes)
    → Holds l es
    → Fits b
    → l.full ≡ none
    → PushesBack l es b
unfolding push_back
push_back-packed l es b h fits p =
    let (l', e, held) =
      promote_if_needed-Holds (record l { pack = pack_append l.pack b; count = l.count + 1 })
        (es ++ (b ∷ [])) (length b) p
        (ap (λ t. pack_append t b) (h.packed p).0 ∙ pack_append-pack_of es b)
        (omega (arith, (h.packed p).1, length-append es (b ∷ [])))
        (All-append Fits es (b ∷ []) h.fits (fits, tt))
        (λ stays.
          All-append (IsShort l.max) es (b ∷ []) (h.small p).1
            ((exceeded-false l.max _ _ stays).1, tt)) in
    (l', ap (push_back_to l b) p ∙ e, held)

push_back-full :
    (l : PackList) (es : List Bytes) (b : Bytes) (f : FullList)
    → Holds l es
    → Fits b
    → l.full ≡ some f
    → PushesBack l es b
unfolding push_back
push_back-full l es b f h fits p =
    let (xs, s, eq) = h.linked f p in
    (
      record l { full = some (Nodes.push_back f b) },
      ap (push_back_to l b) p,
      full-Holds _ _ (es ++ (b ∷ [])) refl (All-append Fits es (b ∷ []) h.fits (fits, tt)) (
        xs ++ ((f.fresh, b) ∷ []),
        push_back-Stands f xs b s,
        values-append xs ((f.fresh, b) ∷ []) ∙ ap (λ t. t ++ (b ∷ [])) eq,
      ),
    )

-- `PushBack` puts it behind them.
pub push_back_refines :
    (l : PackList) (es : List Bytes) (b : Bytes) → Holds l es → Fits b → PushesBack l es b
push_back_refines l es b h fits = elim (Option-cases l.full) [
  | inl p ↦ push_back-packed l es b h fits p
  | inr (f, p) ↦ push_back-full l es b f h fits p
]

-- `Len` is the number of elements.
pub len_refines : (l : PackList) (es : List Bytes) → Holds l es → list_len l ≡ length es
unfolding list_len
len_refines l es h = elim (Option-cases l.full) [
  | inl p ↦ ap (counted l) p ∙ (h.packed p).1
  | inr (f, p) ↦
      let (xs, s, eq) = h.linked f p in
      ap (counted l) p ∙ s.counted ∙ sym (length-values xs) ∙ ap length eq
]
