-- ===== src/Command/Lists/Offs.antt =====
-- The elements that pops take off a list.
use memcore.Base.{
  ℕ, zero, suc, ◌≡◌, refl, sym, ap, ◌∙◌, Bool, true, false, Option, none, some, List, [], ◌∷◌, ◌++◌,
  take, drop, Bytes, Option-cases, inl, inr,
}
use mathlib.Core.List.{append_assoc, append-nil}
use memcore.Value.Lists.{PackList}
use memcore.Value.Lists.Refines.{Holds}
use memcore.Value.Lists.Takes.{uncons, unsnoc, Popped, pop_front_refines, pop_back_refines}
use memcore.Command.Lists.{pop, pop_all}

-- The element at the end, and those that are left.
abbrev pub off : Bool → List Bytes → Option (Bytes × List Bytes)
off true es = uncons es
off false es = unsnoc es

-- Elements taken off one end, at most `n`, in the order in which they go; and those that are left.
abbrev pub offs : Bool → ℕ → List Bytes → List Bytes × List Bytes
offs front zero es = ([], es)
offs front (suc n) es = elim (off front es) [
  | none ↦ ([], es)
  | some (v, rest) ↦ (v ∷ (offs front n rest).0, (offs front n rest).1)
]

pub offs-end :
    (front : Bool) (n : ℕ) (es : List Bytes)
    → off front es ≡ none
    → offs front (suc n) es ≡ ([], es)
offs-end front n es e = rw (e, offs)

pub offs-step :
    (front : Bool) (n : ℕ) (es rest : List Bytes) (v : Bytes)
    → off front es ≡ some (v, rest)
    → offs front (suc n) es ≡ (v ∷ (offs front n rest).0, (offs front n rest).1)
offs-step front n es rest v e = rw (e, offs)

-- At the front these are a prefix and the rest.
pub offs-front : (n : ℕ) (es : List Bytes) → offs true n es ≡ (take n es, drop n es)
offs-front zero es = refl
offs-front (suc n) [] = refl
offs-front (suc n) (e ∷ es) = ap (λ t. (e ∷ t.0, t.1)) (offs-front n es)

-- What a pop leaves.
pub pop_refines :
    (front : Bool) (l : PackList) (es : List Bytes)
    → Holds l es
    → Popped l (pop front l) (off front es)
pop_refines true l es h = pop_front_refines l es h
pop_refines false l es h = pop_back_refines l es h

pop_all-end :
    (front : Bool) (n : ℕ) (l l' : PackList) (out : List Bytes)
    → pop front l ≡ some (l', none)
    → pop_all front (suc n) l out ≡ some (l', out)
unfolding pop_all
pop_all-end front n l l' out e = rw (e, pop_all)

pop_all-step :
    (front : Bool) (n : ℕ) (l l' : PackList) (v : Bytes) (out : List Bytes)
    → pop front l ≡ some (l', some v)
    → pop_all front (suc n) l out ≡ pop_all front n l' (out ++ (v ∷ []))
unfolding pop_all
pop_all-step front n l l' v out e = rw (e, pop_all)

pop_all-zero :
    (front : Bool) (l : PackList) (out : List Bytes) → pop_all front zero l out ≡ some (l, out)
unfolding pop_all
pop_all-zero front l out = refl

-- The pops behind a count take off as many elements.
pub pop_all_refines :
    (front : Bool) (n : ℕ) (l : PackList) (es out : List Bytes)
    → Holds l es
    → (l' : PackList) × (pop_all front n l out ≡ some (l', out ++ (offs front n es).0))
      × Holds l' (offs front n es).1
pop_all_refines front zero l es out h =
    (l, pop_all-zero front l out ∙ ap (λ t. some (l, t)) (sym (append-nil out)), h)
pop_all_refines front (suc n) l es out h = elim (Option-cases (off front es)) [
  | inl p ↦
      let r : Popped l (pop front l) none = rw p at (pop_refines front l es h) in
      rw (offs-end front n es p)
        (l, pop_all-end front n l l out r ∙ ap (λ t. some (l, t)) (sym (append-nil out)), h)
  | inr ((v, rest), p) ↦
      let r : Popped l (pop front l) (some (v, rest)) = rw p at (pop_refines front l es h) in
      let (l', e, held) = r in
      let (l'', more, held') = pop_all_refines front n l' rest (out ++ (v ∷ [])) held in
      rw (offs-step front n es rest v p) (
        l'',
        pop_all-step front n l l' v out e
            ∙ more
            ∙ ap (λ t. some (l'', t)) (append_assoc out (v ∷ []) (offs front n rest).0),
        held',
      )
]
