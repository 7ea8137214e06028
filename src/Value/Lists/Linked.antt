-- ===== src/Value/Lists/Linked.antt =====
-- What it means that the nodes of a list are linked, and what leaves them so.
use memcore.Base.{
  ℕ, suc, ◌+◌, ◌<◌, ◌≡◌, refl, sym, ap, ◌∙◌, Bool, true, false, Option, some, List, [], ◌∷◌, ◌++◌,
  arith, ◌==◌, if◌then◌else◌, Bytes, ◌⊎◌, inl, inr, Bool-cases, length,
}
use memcore.Value.Lists.Nodes.{Node, node, Cells, write}

-- Addresses with the values that their nodes hold.
abbrev pub Spine : Type 0
Spine = List (ℕ × Bytes)

abbrev pub values : Spine → List Bytes
values [] = []
values ((a, v) ∷ xs) = v ∷ values xs

abbrev pub has : ℕ → Spine → Bool
has a [] = false
has a ((b, v) ∷ xs) = if a == b then true else has a xs

abbrev pub Once : Spine → Type 0
Once [] = Unit
Once ((a, v) ∷ xs) = (has a xs ≡ false) × Once xs

abbrev pub Below : ℕ → Spine → Type 0
Below n [] = Unit
Below n ((a, v) ∷ xs) = (a < n) × Below n xs

-- The first address, or what comes behind; the last one, or what came before.
abbrev pub first : Spine → Option ℕ → Option ℕ
first [] q = q
first ((a, v) ∷ xs) q = some a

abbrev pub last : Option ℕ → Spine → Option ℕ
last p [] = p
last p ((a, v) ∷ xs) = last (some a) xs

-- The nodes of the spine are linked both ways, from the one before, `p`, to the one behind, `q`.
abbrev pub Linked : Cells → Option ℕ → Spine → Option ℕ → Type 0
Linked c p [] q = Unit
Linked c p ((a, v) ∷ xs) q = (c a ≡ node v p (first xs q)) × Linked c (some a) xs q

pub write-same : (c : Cells) (a : ℕ) (n : Node) → write c a n a ≡ n
unfolding write
write-same c a n = ground arith

pub write-other : (c : Cells) (a b : ℕ) (n : Node) → (b == a) ≡ false → write c a n b ≡ c b
unfolding write
write-other c a b n h = rw h

-- A write outside the spine is not seen.
pub Linked-write :
    (c : Cells) (a : ℕ) (n : Node) (p : Option ℕ) (xs : Spine) (q : Option ℕ)
    → has a xs ≡ false
    → Linked c p xs q
    → Linked (write c a n) p xs q
Linked-write c a n p [] q h l = tt
Linked-write c a n p ((b, v) ∷ xs) q h l = elim (Bool-cases (a == b)) [
  | inl y ↦ cc (rw y at h)
  | inr m ↦
      let other : (b == a) ≡ false = ground arith in
      (write-other c a b n other ∙ l.0, Linked-write c a n (some b) xs q (rw m at h) l.1)
]

pub first-append : (xs ys : Spine) (q : Option ℕ) → first (xs ++ ys) q ≡ first xs (first ys q)
first-append [] ys q = refl
first-append ((a, v) ∷ xs) ys q = refl

pub last-append : (p : Option ℕ) (xs ys : Spine) → last p (xs ++ ys) ≡ last (last p xs) ys
last-append p [] ys = refl
last-append p ((a, v) ∷ xs) ys = last-append (some a) xs ys

pub Linked-split :
    (c : Cells) (p : Option ℕ) (xs ys : Spine) (q : Option ℕ)
    → Linked c p (xs ++ ys) q
    → Linked c p xs (first ys q) × Linked c (last p xs) ys q
Linked-split c p [] ys q l = (tt, l)
Linked-split c p ((a, v) ∷ xs) ys q l =
    let (l', r) = Linked-split c (some a) xs ys q l.1 in
    ((l.0 ∙ ap (node v p) (first-append xs ys q), l'), r)

pub Linked-append :
    (c : Cells) (p : Option ℕ) (xs ys : Spine) (q : Option ℕ)
    → Linked c p xs (first ys q)
    → Linked c (last p xs) ys q
    → Linked c p (xs ++ ys) q
Linked-append c p [] ys q l r = r
Linked-append c p ((a, v) ∷ xs) ys q l r =
    (l.0 ∙ ap (node v p) (sym (first-append xs ys q)), Linked-append c (some a) xs ys q l.1 r)

pub has-append : (a : ℕ) (xs ys : Spine) → has a (xs ++ ys) ≡ (if has a xs then true else has a ys)
has-append a [] ys = refl
has-append a ((b, v) ∷ xs) ys = ground (arith, has-append a xs ys)

pub values-append : (xs ys : Spine) → values (xs ++ ys) ≡ values xs ++ values ys
values-append [] ys = refl
values-append ((a, v) ∷ xs) ys = ap (λ t. v ∷ t) (values-append xs ys)

pub length-values : (xs : Spine) → length (values xs) ≡ length xs
length-values [] = refl
length-values ((a, v) ∷ xs) = ap suc (length-values xs)

pub Below-fresh : (n : ℕ) (xs : Spine) → Below n xs → has n xs ≡ false
Below-fresh n [] h = refl
Below-fresh n ((a, v) ∷ xs) h = ground (arith, Below-fresh n xs h.1)

pub Below-suc : (n : ℕ) (xs : Spine) → Below n xs → Below (n + 1) xs
Below-suc n [] h = tt
Below-suc n ((a, v) ∷ xs) h = (omega arith, Below-suc n xs h.1)

pub Below-append : (n : ℕ) (xs ys : Spine) → Below n xs → Below n ys → Below n (xs ++ ys)
Below-append n [] ys h k = k
Below-append n ((a, v) ∷ xs) ys h k = (h.0, Below-append n xs ys h.1 k)

pub Below-front : (n : ℕ) (xs ys : Spine) → Below n (xs ++ ys) → Below n xs
Below-front n [] ys h = tt
Below-front n ((a, v) ∷ xs) ys h = (h.0, Below-front n xs ys h.1)

pub Below-last : (n : ℕ) (xs : Spine) (a : ℕ) (v : Bytes) → Below n (xs ++ ((a, v) ∷ [])) → a < n
Below-last n [] a v h = h.0
Below-last n ((b, w) ∷ xs) a v h = Below-last n xs a v h.1

pub Once-front : (xs ys : Spine) → Once (xs ++ ys) → Once xs
Once-front [] ys h = tt
Once-front ((a, v) ∷ xs) ys h = (ground (arith, h.0, has-append a xs ys), Once-front xs ys h.1)

-- The last address is not among those before it.
pub Once-last : (xs : Spine) (a : ℕ) (v : Bytes) → Once (xs ++ ((a, v) ∷ [])) → has a xs ≡ false
Once-last [] a v h = refl
Once-last ((b, w) ∷ xs) a v h =
    ground (arith, h.0, has-append b xs ((a, v) ∷ []), Once-last xs a v h.1)

pub Once-snoc :
    (xs : Spine) (a : ℕ) (v : Bytes) → Once xs → has a xs ≡ false → Once (xs ++ ((a, v) ∷ []))
Once-snoc [] a v h n = (refl, tt)
Once-snoc ((b, w) ∷ xs) a v h n = (
  ground (arith, h.0, n, has-append b xs ((a, v) ∷ [])),
  Once-snoc xs a v h.1 (ground (arith, n)),
)

-- A spine is empty or has a last node.
pub snoc_cases :
    (xs : Spine) → (xs ≡ []) ⊎ ((ys : Spine) × (a : ℕ) × (v : Bytes) × (xs ≡ ys ++ ((a, v) ∷ [])))
snoc_cases [] = inl refl
snoc_cases ((a, v) ∷ xs) = inr (elim (snoc_cases xs) [
  | inl e ↦ ([], a, v, ap (λ t. (a, v) ∷ t) e)
  | inr (ys, b, w, e) ↦ ((a, v) ∷ ys, b, w, ap (λ t. (a, v) ∷ t) e)
])
