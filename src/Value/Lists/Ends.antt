-- ===== src/Value/Lists/Ends.antt =====
-- The full encoding at its two ends: pushes and pops keep the nodes linked, and change the elements as
-- they should.
use memcore.Base.{
  ℕ, ◌+◌, ◌<◌, ◌≡◌, refl, sym, ap, ◌∙◌, false, Option, none, some, List, [], ◌∷◌, ◌++◌, arith,
  Bytes, inl, inr, length, length-append,
}
use memcore.Value.Lists.Nodes.{
  Node, node, Cells, write, set_next, FullList, empty, link_front, push_front, link_back, push_back,
}
use memcore.Value.Lists.Linked.{
  Spine, values, has, Once, Below, first, last, Linked, write-same, write-other, Linked-write,
  last-append, Linked-split, Linked-append, Below-fresh, Below-suc, Below-append, Below-front,
  Below-last, Once-last, Once-snoc, snoc_cases,
}

-- The list `l` has the nodes of the spine `xs`.
pub record Stands (l : FullList) (xs : Spine) : Type 0 where
  pub linked : Linked l.cells none xs none
  pub at_head : l.head ≡ first xs none
  pub at_tail : l.tail ≡ last none xs
  pub counted : l.length ≡ length xs
  pub below : Below l.fresh xs
  pub once : Once xs

pub empty-Stands : Stands empty []
empty-Stands = record {
  linked = tt;
  at_head = refl;
  at_tail = refl;
  counted = refl;
  below = tt;
  once = tt;
}

-- The list `l` stands for the elements `es`.
abbrev pub Holds : FullList → List Bytes → Type 0
Holds l es = (xs : Spine) × Stands l xs × (values xs ≡ es)

pub Stands-eq : (l l' : FullList) (xs : Spine) → l ≡ l' → Stands l' xs → Stands l xs
Stands-eq l l' xs e s = rw e s

-- A list with the new node `b` in its store.
abbrev grown : FullList → Node → FullList
grown l n = record l { cells = write l.cells l.fresh n; fresh = l.fresh + 1 }

push_front_at :
    (l : FullList) (b : Bytes) (o : Option ℕ)
    → l.head ≡ o
    → push_front l b ≡ link_front (grown l (node b none o)) l.fresh o
unfolding push_front
push_front_at l b o e = ap (λ t. link_front (grown l (node b none t)) l.fresh t) e

push_back_at :
    (l : FullList) (b : Bytes) (o : Option ℕ)
    → l.tail ≡ o
    → push_back l b ≡ link_back (grown l (node b o none)) l.fresh o
unfolding push_back
push_back_at l b o e = ap (λ t. link_back (grown l (node b t none)) l.fresh t) e

-- The new node beside the node `a`, which is set anew.
fresh_kept : (c : Cells) (f a : ℕ) (n m : Node) → a < f → write (write c f n) a m f ≡ n
fresh_kept c f a n m h = write-other (write c f n) a f m (ground arith) ∙ write-same c f n

-- A node of the spine is not the new one.
old_kept : (c : Cells) (f a : ℕ) (n : Node) → a < f → write c f n a ≡ c a
old_kept c f a n h = write-other c f a n (ground arith)

spine_kept :
    (c : Cells) (f a : ℕ) (n m : Node) (p : Option ℕ) (xs : Spine) (q : Option ℕ)
    → Below f xs
    → has a xs ≡ false
    → Linked c p xs q
    → Linked (write (write c f n) a m) p xs q
spine_kept c f a n m p xs q h out l =
    Linked-write (write c f n) a m p xs q out (Linked-write c f n p xs q (Below-fresh f xs h) l)

pub push_front-Stands :
    (l : FullList) (xs : Spine) (b : Bytes)
    → Stands l xs
    → Stands (push_front l b) ((l.fresh, b) ∷ xs)
push_front-Stands l [] b s =
    Stands-eq (push_front l b) _ _ (push_front_at l b none s.at_head) (record {
      linked = (write-same l.cells l.fresh (node b none none), tt);
      at_head = refl;
      at_tail = refl;
      counted = omega (arith, s.counted);
      below = (omega arith, tt);
      once = (refl, tt);
    })
push_front-Stands l ((a, v) ∷ xs) b s =
    Stands-eq (push_front l b) _ _ (push_front_at l b (some a) s.at_head) (record {
      linked = (
        fresh_kept l.cells l.fresh a _ _ s.below.0,
        (
          write-same _ a _
              ∙ ap (λ (m : Node). record m { prev = some l.fresh })
                  (old_kept l.cells l.fresh a _ s.below.0 ∙ s.linked.0),
          spine_kept l.cells l.fresh a _ _ (some a) xs none s.below.1 s.once.0 s.linked.1,
        ),
      );
      at_head = refl;
      at_tail = s.at_tail;
      counted = omega (arith, s.counted);
      below = (omega arith, (omega (arith, s.below.0), Below-suc l.fresh xs s.below.1));
      once = (Below-fresh l.fresh ((a, v) ∷ xs) s.below, s.once);
    })

pub last-snoc :
    (p : Option ℕ) (xs : Spine) (a : ℕ) (v : Bytes) → last p (xs ++ ((a, v) ∷ [])) ≡ some a
last-snoc p xs a v = last-append p xs ((a, v) ∷ [])

first-snoc :
    (xs : Spine) (a : ℕ) (v : Bytes) (ys : Spine) (q r : Option ℕ)
    → first ((xs ++ ((a, v) ∷ [])) ++ ys) q ≡ first (xs ++ ((a, v) ∷ [])) r
first-snoc [] a v ys q r = refl
first-snoc ((b, w) ∷ xs) a v ys q r = refl

push_back_last :
    (l : FullList) (ys : Spine) (a : ℕ) (v b : Bytes)
    → Stands l (ys ++ ((a, v) ∷ []))
    → Stands (push_back l b) ((ys ++ ((a, v) ∷ [])) ++ ((l.fresh, b) ∷ []))
push_back_last l ys a v b s =
    Stands-eq (push_back l b) _ _ (push_back_at l b (some a) (s.at_tail ∙ last-snoc none ys a v))
      (record {
        linked =
            Linked-append cells none (ys ++ ((a, v) ∷ [])) ((l.fresh, b) ∷ []) none
              (Linked-append cells none ys ((a, v) ∷ []) (some l.fresh)
                (spine_kept l.cells l.fresh a _ _ none ys (some a) ys_below
                  (Once-last ys a v s.once) parts.0)
                (
                  write-same _ a _
                      ∙ ap (λ (m : Node). record m { next = some l.fresh })
                          (old_kept l.cells l.fresh a _ a_below ∙ parts.1.0),
                  tt,
                ))
              (
                fresh_kept l.cells l.fresh a _ _ a_below
                    ∙ ap (λ p. node b p none) (sym (last-snoc none ys a v)),
                tt,
              );
        at_head = s.at_head ∙ sym (first-snoc ys a v ((l.fresh, b) ∷ []) none none);
        at_tail = sym (last-snoc none (ys ++ ((a, v) ∷ [])) l.fresh b);
        counted =
            omega (arith, s.counted, length-append {0} (ys ++ ((a, v) ∷ [])) ((l.fresh, b) ∷ []));
        below =
            Below-append (l.fresh + 1) (ys ++ ((a, v) ∷ [])) ((l.fresh, b) ∷ [])
              (Below-suc l.fresh _ s.below) (omega arith, tt);
        once = Once-snoc _ l.fresh b s.once (Below-fresh l.fresh _ s.below);
      })
  where
    n : Node
    n = node b (some a) none

    cells : Cells
    cells = set_next (write l.cells l.fresh n) a (some l.fresh)

    parts : Linked l.cells none ys (some a) × Linked l.cells (last none ys) ((a, v) ∷ []) none
    parts = Linked-split l.cells none ys ((a, v) ∷ []) none s.linked

    ys_below : Below l.fresh ys
    ys_below = Below-front l.fresh ys ((a, v) ∷ []) s.below

    a_below : a < l.fresh
    a_below = Below-last l.fresh ys a v s.below

push_back_first :
    (l : FullList) (b : Bytes) → Stands l [] → Stands (push_back l b) ((l.fresh, b) ∷ [])
push_back_first l b s = Stands-eq (push_back l b) _ _ (push_back_at l b none s.at_tail) (record {
  linked = (write-same l.cells l.fresh (node b none none), tt);
  at_head = refl;
  at_tail = refl;
  counted = omega (arith, s.counted);
  below = (omega arith, tt);
  once = (refl, tt);
})

pub push_back-Stands :
    (l : FullList) (xs : Spine) (b : Bytes)
    → Stands l xs
    → Stands (push_back l b) (xs ++ ((l.fresh, b) ∷ []))
push_back-Stands l xs b s = elim (snoc_cases xs) [
  | inl e ↦ rw e (push_back_first l b (rw e at s))
  | inr (ys, a, v, e) ↦ rw e (push_back_last l ys a v b (rw e at s))
]
