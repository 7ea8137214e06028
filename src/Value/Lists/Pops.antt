-- ===== src/Value/Lists/Pops.antt =====
-- Taking an element off either end of the full encoding.
use memcore.Base.{
  ℕ, ◌≡◌, refl, sym, ap, ◌∙◌, Option, none, some, [], ◌∷◌, ◌++◌, arith, Bytes, inl, inr,
  length-append,
}
use memcore.Value.Lists.Nodes.{
  Node, node, FullList, unlink_front, pop_head, pop_front, unlink_back, pop_tail, pop_back,
}
use memcore.Value.Lists.Linked.{
  Spine, first, last, Linked, write-same, Linked-write, Linked-split, Linked-append, Below-front,
  Once-front, Once-last, snoc_cases,
}
use memcore.Value.Lists.Ends.{Stands, last-snoc}

pub pop_front_nil : (l : FullList) → Stands l [] → pop_front l ≡ (l, none)
unfolding pop_front
pop_front_nil l s = ap (pop_head l) s.at_head

pop_front_at :
    (l : FullList) (a : ℕ) (v : Bytes) (o : Option ℕ)
    → l.head ≡ some a
    → l.cells a ≡ node v none o
    → pop_front l ≡ (unlink_front l o, some v)
unfolding pop_front
pop_front_at l a v o h c =
    ap (pop_head l) h ∙ ap (λ (n : Node). (unlink_front l n.next, some n.value)) c

unlinked_front :
    (l : FullList) (a : ℕ) (v : Bytes) (xs : Spine)
    → Stands l ((a, v) ∷ xs)
    → Stands (unlink_front l (first xs none)) xs
unlinked_front l a v [] s = record {
  linked = tt;
  at_head = refl;
  at_tail = refl;
  counted = omega (arith, s.counted);
  below = tt;
  once = tt;
}
unlinked_front l a v ((b, w) ∷ xs) s = record {
  linked = (
    write-same l.cells b _ ∙ ap (λ (m : Node). record m { prev = none }) s.linked.1.0,
    Linked-write l.cells b _ (some b) xs none s.once.1.0 s.linked.1.1,
  );
  at_head = refl;
  at_tail = s.at_tail;
  counted = omega (arith, s.counted);
  below = s.below.1;
  once = s.once.1;
}

pub pop_front_cons :
    (l : FullList) (a : ℕ) (v : Bytes) (xs : Spine)
    → Stands l ((a, v) ∷ xs)
    → (pop_front l ≡ (unlink_front l (first xs none), some v))
      × Stands (unlink_front l (first xs none)) xs
pop_front_cons l a v xs s =
    (pop_front_at l a v (first xs none) s.at_head s.linked.0, unlinked_front l a v xs s)

pub pop_back_nil : (l : FullList) → Stands l [] → pop_back l ≡ (l, none)
unfolding pop_back
pop_back_nil l s = ap (pop_tail l) s.at_tail

pop_back_at :
    (l : FullList) (a : ℕ) (v : Bytes) (o : Option ℕ)
    → l.tail ≡ some a
    → l.cells a ≡ node v o none
    → pop_back l ≡ (unlink_back l o, some v)
unfolding pop_back
pop_back_at l a v o h c =
    ap (pop_tail l) h ∙ ap (λ (n : Node). (unlink_back l n.prev, some n.value)) c

unlinked_back_only :
    (l : FullList) (a : ℕ) (v : Bytes) → Stands l ((a, v) ∷ []) → Stands (unlink_back l none) []
unlinked_back_only l a v s = record {
  linked = tt;
  at_head = refl;
  at_tail = refl;
  counted = omega (arith, s.counted);
  below = tt;
  once = tt;
}

first_of_snoc :
    (zs : Spine) (b : ℕ) (w : Bytes) (ys : Spine) (q r : Option ℕ)
    → first ((zs ++ ((b, w) ∷ [])) ++ ys) q ≡ first (zs ++ ((b, w) ∷ [])) r
first_of_snoc [] b w ys q r = refl
first_of_snoc ((c, u) ∷ zs) b w ys q r = refl

unlinked_back_more :
    (l : FullList) (zs : Spine) (b : ℕ) (w : Bytes) (a : ℕ) (v : Bytes)
    → Stands l ((zs ++ ((b, w) ∷ [])) ++ ((a, v) ∷ []))
    → Stands (unlink_back l (some b)) (zs ++ ((b, w) ∷ []))
unlinked_back_more l zs b w a v s = record {
  linked =
      Linked-append _ none zs ((b, w) ∷ []) none
        (Linked-write l.cells b _ none zs (some b)
          (Once-last zs b w (Once-front (zs ++ ((b, w) ∷ [])) ((a, v) ∷ []) s.once)) inner.0)
        (write-same l.cells b _ ∙ ap (λ (m : Node). record m { next = none }) inner.1.0, tt);
  at_head = s.at_head ∙ first_of_snoc zs b w ((a, v) ∷ []) none none;
  at_tail = sym (last-snoc none zs b w);
  counted = omega (arith, s.counted, length-append {0} (zs ++ ((b, w) ∷ [])) ((a, v) ∷ []));
  below = Below-front l.fresh (zs ++ ((b, w) ∷ [])) ((a, v) ∷ []) s.below;
  once = Once-front (zs ++ ((b, w) ∷ [])) ((a, v) ∷ []) s.once;
}
  where
    outer :
        Linked l.cells none (zs ++ ((b, w) ∷ [])) (some a)
        × Linked l.cells (last none (zs ++ ((b, w) ∷ []))) ((a, v) ∷ []) none
    outer = Linked-split l.cells none (zs ++ ((b, w) ∷ [])) ((a, v) ∷ []) none s.linked

    inner : Linked l.cells none zs (some b) × Linked l.cells (last none zs) ((b, w) ∷ []) (some a)
    inner = Linked-split l.cells none zs ((b, w) ∷ []) (some a) outer.0

unlinked_back :
    (l : FullList) (ys : Spine) (a : ℕ) (v : Bytes)
    → Stands l (ys ++ ((a, v) ∷ []))
    → Stands (unlink_back l (last none ys)) ys
unlinked_back l ys a v s = elim (snoc_cases ys) [
  | inl e ↦ rw e (unlinked_back_only l a v (rw e at s))
  | inr (zs, b, w, e) ↦ rw (e, last-snoc none zs b w) (unlinked_back_more l zs b w a v (rw e at s))
]

pub pop_back_snoc :
    (l : FullList) (ys : Spine) (a : ℕ) (v : Bytes)
    → Stands l (ys ++ ((a, v) ∷ []))
    → (pop_back l ≡ (unlink_back l (last none ys), some v))
      × Stands (unlink_back l (last none ys)) ys
pop_back_snoc l ys a v s = (
  pop_back_at l a v (last none ys) (s.at_tail ∙ last-snoc none ys a v)
      (Linked-split l.cells none ys ((a, v) ∷ []) none s.linked).1.0,
  unlinked_back l ys a v s,
)
