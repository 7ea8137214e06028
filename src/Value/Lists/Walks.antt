-- ===== src/Value/Lists/Walks.antt =====
-- The walk of `rangeElems` along the nodes.
use memcore.Base.{
  ℕ, zero, suc, ◌+◌, ◌≤◌, ◌≡◌, refl, ap, ◌∙◌, Option, none, some, [], ◌∷◌, arith, length, take,
  drop,
}
use memcore.Value.Lists.Nodes.{Node, Cells, FullList, walk, with_value, gather, gather_from}
use memcore.Value.Lists.Linked.{Spine, values, first, Linked}
use memcore.Value.Lists.Ends.{Stands}

gather-Linked :
    (c : Cells) (p : Option ℕ) (xs : Spine) (n : ℕ)
    → Linked c p xs none
    → n ≤ length xs
    → gather c n (first xs none) ≡ some (take n (values xs))
unfolding gather
gather-Linked c p [] zero l h = refl
gather-Linked c p ((a, v) ∷ xs) zero l h = refl
gather-Linked c p [] (suc n) l h = absurd (omega arith)
gather-Linked c p ((a, v) ∷ xs) (suc n) l h =
    ap (λ (m : Node). with_value m.value (gather c n m.next)) l.0
    ∙ ap (with_value v) (gather-Linked c (some a) xs n l.1 (omega arith))

walk-Linked :
    (c : Cells) (p : Option ℕ) (xs : Spine) (i n : ℕ)
    → Linked c p xs none
    → i + n ≤ length xs
    → gather_from c n (walk c i (first xs none)) ≡ some (take n (drop i (values xs)))
unfolding walk
walk-Linked c p xs zero n l h = gather-Linked c p xs n l (omega arith)
walk-Linked c p [] (suc i) n l h = absurd (omega arith)
walk-Linked c p ((a, v) ∷ xs) (suc i) n l h =
    ap (λ (m : Node). gather_from c n (walk c i m.next)) l.0
    ∙ walk-Linked c (some a) xs i n l.1 (omega arith)

pub walk-Stands :
    (f : FullList) (xs : Spine) (i n : ℕ)
    → Stands f xs
    → i + n ≤ length xs
    → gather_from f.cells n (walk f.cells i f.head) ≡ some (take n (drop i (values xs)))
walk-Stands f xs i n s h =
    ap (λ p. gather_from f.cells n (walk f.cells i p)) s.at_head
    ∙ walk-Linked f.cells none xs i n s.linked h
