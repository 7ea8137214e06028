-- ===== src/Persistence/Values/Rounds.antt =====
-- The counted loops of the value codec read back what was written, item by item.
use mathlib.Core.List.{append_assoc}
use memcore.Base.{ℕ, suc, ◌≡◌, refl, ap, ◌∙◌, Option, some, List, [], ◌∷◌, ◌++◌, length, Bytes, All}
use memcore.Base.Varint.{IsU64, put_uvarint}
use memcore.Persistence.Stream.{Read, ok, ◌>>=◌, read_uvarint, read_uvarint-put}
use memcore.Persistence.Values.{write_each, added, read_rounds, read_elements}

abbrev pub fold : {X M : Type 0} → (X → M → M) → List X → M → M
fold next [] m = m
fold next (x ∷ xs) m = fold next xs (next x m)

-- Items that are read back one by one, and added as the abstract collection grows.
module _ {S X M : Type 0} (enc : X → Bytes) (item : Bytes → Read X) (add : S → X → Option S)
    (next : X → M → M) (Den : S → M → Type 0) (Good : X → Type 0)
    (back : (x : X) (rest : Bytes) → Good x → item (enc x ++ rest) ≡ ok x rest)
    (step : (s : S) (m : M) (x : X)
      → Den s m
      → Good x
      → (s' : S) × (add s x ≡ some s') × Den s' (next x m)) where
  read_rounds-nil : (s : S) (bs : Bytes) → read_rounds item add 0 s bs ≡ ok s bs
  unfolding read_rounds
  read_rounds-nil s bs = refl

  read_rounds-step :
      (n : ℕ) (s s' : S) (x : X) (bs rest : Bytes)
      → item bs ≡ ok x rest
      → add s x ≡ some s'
      → read_rounds item add (suc n) s bs ≡ read_rounds item add n s' rest
  unfolding read_rounds
  read_rounds-step n s s' x bs rest e a =
      ap (λ r. r >>= λ y left. added item add (λ t. read_rounds item add n t left) (add s y)) e
      ∙ ap (added item add (λ t. read_rounds item add n t rest)) a

  write_each-cons :
      (x : X) (xs : List X) (rest : Bytes)
      → write_each enc (x ∷ xs) ++ rest ≡ enc x ++ (write_each enc xs ++ rest)
  unfolding write_each
  write_each-cons x xs rest = append_assoc (enc x) (write_each enc xs) rest

  write_each-nil : (rest : Bytes) → write_each enc [] ++ rest ≡ rest
  unfolding write_each
  write_each-nil rest = refl

  pub read_rounds-write :
      (xs : List X) (s : S) (m : M) (rest : Bytes)
      → Den s m
      → All Good xs
      → (s' : S) × (read_rounds item add (length xs) s (write_each enc xs ++ rest) ≡ ok s' rest)
        × Den s' (fold next xs m)
  read_rounds-write [] s m rest h good =
      (s, ap (read_rounds item add 0 s) (write_each-nil rest) ∙ read_rounds-nil s rest, h)
  read_rounds-write (x ∷ xs) s m rest h good =
      let (s', a, held) = step s m x h good.0 in
      let (s'', more, held') = read_rounds-write xs s' (next x m) rest held good.1 in
      (
        s'',
        ap (read_rounds item add (suc (length xs)) s) (write_each-cons x xs rest)
            ∙ read_rounds-step (length xs) s s' x _ _ (back x _ good.0) a
            ∙ more,
        held',
      )

  pub read_elements-write :
      (xs : List X) (s : S) (m : M) (rest : Bytes)
      → IsU64 (length xs)
      → Den s m
      → All Good xs
      → (s' : S) × (read_elements item add s
            ((put_uvarint (length xs) ++ write_each enc xs) ++ rest)
          ≡ ok s' rest)
        × Den s' (fold next xs m)
  unfolding read_elements
  read_elements-write xs s m rest few h good =
      let (s', e, held) = read_rounds-write xs s m rest h good in
      (
        s',
        ap (λ t. read_uvarint t >>= λ n left. read_rounds item add n s left)
              (append_assoc (put_uvarint (length xs)) (write_each enc xs) rest)
            ∙ ap (λ t. t >>= λ n left. read_rounds item add n s left)
                (read_uvarint-put (length xs) (write_each enc xs ++ rest) few)
            ∙ e,
        held,
      )
