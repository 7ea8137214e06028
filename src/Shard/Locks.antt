-- ===== src/Shard/Locks.antt =====
-- `shardSet`: the shards that a command on several keys locks, and the order in which it locks them.
use memcore.Base.{
  ℕ, ◌<◌, ◌≡◌, refl, ap, ◌∙◌, Bool, true, false, ◌||◌, List, [], ◌∷◌, ◌++◌, arith, leb, ◌==◌,
  if◌then◌else◌, Bytes, All, Bool-cases, inl, inr,
}
use memcore.Shard.{Db, index, contains_index, insert_sorted, sort, collect, shard_set}

-- Each shard has a smaller index than all that follow.
abbrev pub IsAscending : List ℕ → Type 0
IsAscending [] = Unit
IsAscending (i ∷ is) = All (λ j. i < j) is × IsAscending is

-- No shard stands twice.
abbrev IsOnce : List ℕ → Type 0
IsOnce [] = Unit
IsOnce (i ∷ is) = (contains_index i is ≡ false) × IsOnce is

contains-insert_sorted :
    (k i : ℕ) (js : List ℕ) → contains_index k (insert_sorted i js) ≡ contains_index k (i ∷ js)
unfolding contains_index insert_sorted
contains-insert_sorted k i [] = refl
contains-insert_sorted k i (j ∷ js) = ground (arith, contains-insert_sorted k i js)

All-insert_sorted :
    (k i : ℕ) (js : List ℕ) → k < i → All (λ j. k < j) js → All (λ j. k < j) (insert_sorted i js)
unfolding insert_sorted
All-insert_sorted k i [] lt h = (lt, tt)
All-insert_sorted k i (j ∷ js) lt h = elim (Bool-cases (leb i j)) [
  | inl y ↦ rw y (lt, h)
  | inr n ↦ rw n (h.0, All-insert_sorted k i js lt h.1)
]

All-trans : (i j : ℕ) (js : List ℕ) → i < j → All (λ k. j < k) js → All (λ k. i < k) js
All-trans i j [] lt h = tt
All-trans i j (k ∷ js) lt h = (omega arith, All-trans i j js lt h.1)

insert_sorted-IsAscending :
    (i : ℕ) (js : List ℕ)
    → contains_index i js ≡ false
    → IsAscending js
    → IsAscending (insert_sorted i js)
unfolding insert_sorted contains_index
insert_sorted-IsAscending i [] n h = (tt, tt)
insert_sorted-IsAscending i (j ∷ js) n h = elim (Bool-cases (i == j)) [
  | inl y ↦ cc (rw y at n)
  | inr m ↦ elim (Bool-cases (leb i j)) [
    | inl y ↦ rw y ((ground arith, All-trans i j js (ground arith) h.0), h)
    | inr x ↦ rw x (
      All-insert_sorted j i js (ground arith) h.0,
      insert_sorted-IsAscending i js (rw m at n) h.1,
    )
  ]
]

contains-sort : (k : ℕ) (is : List ℕ) → contains_index k (sort is) ≡ contains_index k is
unfolding sort contains_index
contains-sort k [] = refl
contains-sort k (i ∷ is) =
    contains-insert_sorted k i (sort is) ∙ ap (λ b. if k == i then true else b) (contains-sort k is)

sort-IsAscending : (is : List ℕ) → IsOnce is → IsAscending (sort is)
unfolding sort
sort-IsAscending [] h = tt
sort-IsAscending (i ∷ is) h =
    insert_sorted-IsAscending i (sort is) (contains-sort i is ∙ h.0) (sort-IsAscending is h.1)

contains-append :
    (k : ℕ) (is js : List ℕ)
    → contains_index k (is ++ js) ≡ contains_index k is || contains_index k js
unfolding contains_index
contains-append k [] js = refl
contains-append k (i ∷ is) js = ground (arith, contains-append k is js)

append-IsOnce :
    (is : List ℕ) (i : ℕ) → IsOnce is → contains_index i is ≡ false → IsOnce (is ++ (i ∷ []))
unfolding contains_index
append-IsOnce [] i h n = (refl, tt)
append-IsOnce (j ∷ is) i h n = (
  ground (arith, h.0, contains-append j is (i ∷ []), n),
  append-IsOnce is i h.1 (ground (arith, n)),
)

old_index :
    (i j : ℕ) (is : List ℕ) (t : Bool)
    → contains_index j is ≡ true
    → contains_index i is || t ≡ contains_index i is || (if i == j then true else t)
old_index i j is t h = elim (Bool-cases (i == j)) [
  | inl y ↦
      let same : j ≡ i = ground arith in
      let seen : contains_index i is ≡ true = rw (← same) h in ground (arith, seen, y)
  | inr n ↦ ground (arith, n)
]

new_index :
    (i j : ℕ) (is : List ℕ) (t : Bool)
    → contains_index i (is ++ (j ∷ [])) || t ≡ contains_index i is || (if i == j then true else t)
new_index i j is t =
    ap (λ b. b || t) (contains-append i is (j ∷ [])) ∙ unfold contains_index in ground arith

module _ {V : Type 0} (hash : Bytes → ℕ) (db : Db V) where
  -- One of the keys is in the shard `i`.
  abbrev pub touches : List Bytes → ℕ → Bool
  touches [] i = false
  touches (k ∷ ks) i = if i == index hash db k then true else touches ks i

  collect-IsOnce : (ks : List Bytes) (idx : List ℕ) → IsOnce idx → IsOnce (collect hash db ks idx)
  unfolding collect
  collect-IsOnce [] idx h = h
  collect-IsOnce (k ∷ ks) idx h = elim (Bool-cases (contains_index (index hash db k) idx)) [
    | inl y ↦ rw y (collect-IsOnce ks idx h)
    | inr n ↦ rw n (collect-IsOnce ks _ (append-IsOnce idx (index hash db k) h n))
  ]

  contains-collect :
      (i : ℕ) (ks : List Bytes) (idx : List ℕ)
      → contains_index i (collect hash db ks idx) ≡ contains_index i idx || touches ks i
  unfolding collect contains_index
  contains-collect i [] idx = ground arith
  contains-collect i (k ∷ ks) idx = elim (Bool-cases (contains_index (index hash db k) idx)) [
    | inl y ↦ rw y (contains-collect i ks idx ∙ old_index i (index hash db k) idx (touches ks i) y)
    | inr n ↦ rw n (contains-collect i ks _ ∙ new_index i (index hash db k) idx (touches ks i))
  ]

  -- Whatever keys a command names, the shards that it locks are in strictly ascending order, and
  -- the shard `i` is among them exactly if one of the keys is there.
  pub shard_set_lem :
      (ks : List Bytes) (i : ℕ)
      → IsAscending (shard_set hash db ks)
        × (contains_index i (shard_set hash db ks) ≡ touches ks i)
  unfolding shard_set contains_index
  shard_set_lem [] i = (tt, refl)
  shard_set_lem (k ∷ []) i = ((tt, tt), refl)
  shard_set_lem (k ∷ k' ∷ ks) i = (
    sort-IsAscending (collect hash db (k ∷ k' ∷ ks) []) (collect-IsOnce (k ∷ k' ∷ ks) [] tt),
    contains-sort i (collect hash db (k ∷ k' ∷ ks) []) ∙ contains-collect i (k ∷ k' ∷ ks) [],
  )
