-- ===== src/Command/Loops.antt =====
-- The counting loop of cmdSAdd, cmdSRem, cmdHSet and cmdHDel: each item changes the collection and is
-- counted if the change says so. `none` is a panic.
use memcore.Base.{
  ℕ, ◌+◌, ◌≡◌, refl, ap, ◌∙◌, Bool, Option, none, some, List, [], ◌∷◌, arith, if◌then◌else◌, All,
}

module _ {S X : Type 0} (fn : S → X → Option (S × Bool)) where
  unfoldable pub each_counted : S → List X → ℕ → Option (S × ℕ)
  each_counted s [] n = some (s, n)
  each_counted s (x ∷ xs) n = elim (fn s x) [
    | none ↦ none
    | some (s', counts) ↦ each_counted s' xs (if counts then n + 1 else n)
  ]

  each_counted-step :
      (s s' : S) (x : X) (xs : List X) (n : ℕ) (counts : Bool)
      → fn s x ≡ some (s', counts)
      → each_counted s (x ∷ xs) n ≡ each_counted s' xs (if counts then n + 1 else n)
  unfolding each_counted
  each_counted-step s s' x xs n counts e = rw (e, each_counted)

  each_counted-nil : (s : S) (n : ℕ) → each_counted s [] n ≡ some (s, n)
  unfolding each_counted
  each_counted-nil s n = refl

-- What the loop computes on the abstract collection.
module _ {X M : Type 0} (next : X → M → M) (flag : X → M → Bool) where
  abbrev pub fold : List X → M → M
  fold [] m = m
  fold (x ∷ xs) m = fold xs (next x m)

  abbrev pub tally : List X → M → ℕ
  tally [] m = 0
  tally (x ∷ xs) m = (if flag x m then 1 else 0) + tally xs (next x m)

counted_on : (b : Bool) (n t : ℕ) → (if b then n + 1 else n) + t ≡ n + ((if b then 1 else 0) + t)
counted_on b n t = ground arith

zero_add : (t : ℕ) → 0 + t ≡ t
zero_add t = omega arith

-- If each change refines one of the abstract collection, the loop refines the loop.
module _ {S X M : Type 0} (fn : S → X → Option (S × Bool)) (next : X → M → M) (flag : X → M → Bool)
    (Den : S → M → Type 0) (Good : X → Type 0)
    (step : (s : S) (m : M) (x : X)
      → Den s m
      → Good x
      → (s' : S) × (fn s x ≡ some (s', flag x m)) × Den s' (next x m)) where
  each_counted_from :
      (xs : List X) (s : S) (m : M) (n : ℕ)
      → Den s m
      → All Good xs
      → (s' : S) × (each_counted fn s xs n ≡ some (s', n + tally next flag xs m))
        × Den s' (fold next flag xs m)
  each_counted_from [] s m n h good =
      let nothing : n ≡ n + 0 = omega arith in
      (s, each_counted-nil fn s n ∙ ap (λ t. some (s, t)) nothing, h)
  each_counted_from (x ∷ xs) s m n h good =
      let (s', e, held) = step s m x h good.0 in
      let (s'', rest, held') = each_counted_from xs s' (next x m) _ held good.1 in
      (
        s'',
        each_counted-step fn s s' x xs n (flag x m) e
            ∙ rest
            ∙ ap (λ t. some (s'', t)) (counted_on (flag x m) n (tally next flag xs (next x m))),
        held',
      )

  pub each_counted_refines :
      (xs : List X) (s : S) (m : M)
      → Den s m
      → All Good xs
      → (s' : S) × (each_counted fn s xs 0 ≡ some (s', tally next flag xs m))
        × Den s' (fold next flag xs m)
  each_counted_refines xs s m h good =
      let (s', e, held) = each_counted_from xs s m 0 h good in
      (s', e ∙ ap (λ t. some (s', t)) (zero_add (tally next flag xs m)), held)
