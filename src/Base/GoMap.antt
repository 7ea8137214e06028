-- ===== src/Base/GoMap.antt =====
-- A Go map from strings: an association list in which a key stands once. The order of the list is
-- one of the orders in which `range` may visit the map.
use memcore.Base.{
  suc, ◌+◌, ◌≡◌, refl, ap, ◌∙◌, Bool, true, false, Option, none, some, List, [], ◌∷◌, ◌++◌, arith,
  length, if◌then◌else◌, Bytes, bytes_eq, bytes_eq_iff, Bool-cases, Option-cases, inl, inr, All,
}

abbrev pub GoMap {ℓ} : Type ℓ → Type ℓ
GoMap V = List (Bytes × V)

module _ {ℓ} {V : Type ℓ} where
  -- `v, ok := m[k]`
  unfoldable pub get : Bytes → GoMap V → Option V
  get k [] = none
  get k ((j, v) ∷ m) = if bytes_eq j k then some v else get k m

  -- `m[k] = v`
  unfoldable pub put : Bytes → V → GoMap V → GoMap V
  put k v [] = (k, v) ∷ []
  put k v ((j, w) ∷ m) = if bytes_eq j k then (j, v) ∷ m else (j, w) ∷ put k v m

  -- `delete(m, k)`
  unfoldable pub delete : Bytes → GoMap V → GoMap V
  delete k [] = []
  delete k ((j, w) ∷ m) = if bytes_eq j k then m else (j, w) ∷ delete k m

  abbrev pub is_some : Option V → Bool
  is_some none = false
  is_some (some v) = true

  -- `_, ok := m[k]`
  abbrev pub has : Bytes → GoMap V → Bool
  has k m = is_some (get k m)

  abbrev pub keys : GoMap V → List Bytes
  keys [] = []
  keys ((k, v) ∷ m) = k ∷ keys m

  abbrev pub IsDistinct : GoMap V → Type ℓ
  IsDistinct [] = Unit
  IsDistinct ((k, v) ∷ m) = (get k m ≡ none) × IsDistinct m

module _ {ℓ} {V : Type ℓ} where
  pub get-put :
      (k j : Bytes) (v : V) (m : GoMap V)
      → get j (put k v m) ≡ (if bytes_eq k j then some v else get j m)
  unfolding get put
  get-put k j v [] = refl
  get-put k j v ((i, w) ∷ m) =
      ground (arith, bytes_eq_iff k j, bytes_eq_iff i k, bytes_eq_iff i j, get-put k j v m)

  pub put-IsDistinct : (k : Bytes) (v : V) (m : GoMap V) → IsDistinct m → IsDistinct (put k v m)
  unfolding put get
  put-IsDistinct k v [] h = (refl, tt)
  put-IsDistinct k v ((i, w) ∷ m) h = elim (Bool-cases (bytes_eq i k)) [
    | inl e ↦ rw e h
    | inr e ↦ rw e (
      get-put k i v m ∙ ground (arith, bytes_eq_iff i k, bytes_eq_iff k i, h.0),
      put-IsDistinct k v m h.1,
    )
  ]

  pub get-delete :
      (k j : Bytes) (m : GoMap V)
      → IsDistinct m
      → get j (delete k m) ≡ (if bytes_eq k j then none else get j m)
  unfolding get delete
  get-delete k j [] h = ground arith
  get-delete k j ((i, w) ∷ m) h =
      ground
        (arith, bytes_eq_iff k j, bytes_eq_iff i k, bytes_eq_iff i j, get-delete k j m h.1, h.0)

  pub delete-IsDistinct : (k : Bytes) (m : GoMap V) → IsDistinct m → IsDistinct (delete k m)
  unfolding delete get
  delete-IsDistinct k [] h = h
  delete-IsDistinct k ((i, w) ∷ m) h = elim (Bool-cases (bytes_eq i k)) [
    | inl e ↦ rw e h.1
    | inr e ↦ rw e (get-delete k i m h.1 ∙ ground (arith, h.0), delete-IsDistinct k m h.1)
  ]

  pub length-put :
      (k : Bytes) (v : V) (m : GoMap V)
      → length (put k v m) ≡ (if has k m then length m else length m + 1)
  unfolding put get
  length-put k v [] = omega arith
  length-put k v ((i, w) ∷ m) = ground (arith, length-put k v m)

  pub length-delete :
      (k : Bytes) (m : GoMap V)
      → length m ≡ (if has k m then length (delete k m) + 1 else length (delete k m))
  unfolding delete get
  length-delete k [] = refl
  length-delete k ((i, w) ∷ m) = ground (arith, length-delete k m)

  -- A new key is put at the end.
  pub put-new : (k : Bytes) (v : V) (m : GoMap V) → get k m ≡ none → put k v m ≡ m ++ ((k, v) ∷ [])
  unfolding put get
  put-new k v [] h = refl
  put-new k v ((i, w) ∷ m) h = elim (Bool-cases (bytes_eq i k)) [
    | inl e ↦ cc (rw e at h)
    | inr e ↦ rw e (ap (λ t. (i, w) ∷ t) (put-new k v m (rw e at h)))
  ]

  pub delete-absent : (k : Bytes) (m : GoMap V) → get k m ≡ none → delete k m ≡ m
  unfolding delete get
  delete-absent k [] h = refl
  delete-absent k ((i, w) ∷ m) h = elim (Bool-cases (bytes_eq i k)) [
    | inl e ↦ cc (rw e at h)
    | inr e ↦ rw e (ap (λ t. (i, w) ∷ t) (delete-absent k m (rw e at h)))
  ]

  pub get-append_absent :
      (k : Bytes) (a b : GoMap V) → get k (a ++ b) ≡ none → (get k a ≡ none) × (get k b ≡ none)
  unfolding get
  get-append_absent k [] b h = (refl, h)
  get-append_absent k ((i, w) ∷ a) b h = elim (Bool-cases (bytes_eq i k)) [
    | inl e ↦ cc (rw e at h)
    | inr e ↦ rw e (get-append_absent k a b (rw e at h))
  ]

  -- In a list with no key twice, the key at a later place is not in the part before it.
  pub get-before :
      (k : Bytes) (v : V) (a b : GoMap V) → IsDistinct (a ++ ((k, v) ∷ b)) → get k a ≡ none
  unfolding get
  get-before k v [] b h = refl
  get-before k v ((i, w) ∷ a) b h =
      let away : get i ((k, v) ∷ b) ≡ none = (get-append_absent i a ((k, v) ∷ b) h.0).1 in
      ground (arith, away, bytes_eq_iff i k, bytes_eq_iff k i, get-before k v a b h.1)

  pub keys-append : (a b : GoMap V) → keys (a ++ b) ≡ keys a ++ keys b
  keys-append [] b = refl
  keys-append ((k, v) ∷ a) b = ap (λ t. k ∷ t) (keys-append a b)

  pub length-keys : (m : GoMap V) → length (keys m) ≡ length m
  length-keys [] = refl
  length-keys ((k, v) ∷ m) = ap suc (length-keys m)

  pub All-put {κ} :
      (P : Bytes → Type κ) (k : Bytes) (v : V) (m : GoMap V)
      → P k
      → All P (keys m)
      → All P (keys (put k v m))
  unfolding put
  All-put P k v [] pk h = (pk, h)
  All-put P k v ((i, w) ∷ m) pk h = elim (Bool-cases (bytes_eq i k)) [
    | inl e ↦ rw e h
    | inr e ↦ rw e (h.0, All-put P k v m pk h.1)
  ]

  pub All-delete {κ} :
      (P : Bytes → Type κ) (k : Bytes) (m : GoMap V) → All P (keys m) → All P (keys (delete k m))
  unfolding delete
  All-delete P k [] h = h
  All-delete P k ((i, w) ∷ m) h = elim (Bool-cases (bytes_eq i k)) [
    | inl e ↦ rw e h.1
    | inr e ↦ rw e (h.0, All-delete P k m h.1)
  ]

-- A set of keys does not change by putting a key that it has.
pub put-present : (k : Bytes) (m : GoMap (Unit {0})) → has k m ≡ true → put k tt m ≡ m
unfolding put get
put-present k [] h = cc
put-present k ((i, tt) ∷ m) h = elim (Bool-cases (bytes_eq i k)) [
  | inl e ↦ rw e
  | inr e ↦ rw e (ap (λ t. (i, tt) ∷ t) (put-present k m (rw e at h)))
]

module _ {ℓ} {V : Type ℓ} where
  pub none_of_has : (k : Bytes) (m : GoMap V) → has k m ≡ false → get k m ≡ none
  none_of_has k m h = ground (arith, Option-cases (get k m))

  -- The head of the list is the key, or is another one.
  pub get-head :
      (k j : Bytes) (v : V) (m : GoMap V) → bytes_eq j k ≡ true → get k ((j, v) ∷ m) ≡ some v
  unfolding get
  get-head k j v m e = rw e

  pub get-skip :
      (k j : Bytes) (v : V) (m : GoMap V) → bytes_eq j k ≡ false → get k ((j, v) ∷ m) ≡ get k m
  unfolding get
  get-skip k j v m e = rw e

  pub delete-head :
      (k j : Bytes) (v : V) (m : GoMap V) → bytes_eq j k ≡ true → delete k ((j, v) ∷ m) ≡ m
  unfolding delete
  delete-head k j v m e = rw e

  pub delete-skip :
      (k j : Bytes) (v : V) (m : GoMap V)
      → bytes_eq j k ≡ false
      → delete k ((j, v) ∷ m) ≡ (j, v) ∷ delete k m
  unfolding delete
  delete-skip k j v m e = rw e

  pub put-head :
      (k j : Bytes) (w v : V) (m : GoMap V)
      → bytes_eq j k ≡ true
      → put k v ((j, w) ∷ m) ≡ (j, v) ∷ m
  unfolding put
  put-head k j w v m e = rw e

  pub put-skip :
      (k j : Bytes) (w v : V) (m : GoMap V)
      → bytes_eq j k ≡ false
      → put k v ((j, w) ∷ m) ≡ (j, w) ∷ put k v m
  unfolding put
  put-skip k j w v m e = rw e
