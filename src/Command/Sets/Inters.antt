-- ===== src/Command/Sets/Inters.antt =====
-- SINTER against the members that the sets stand for.
use memcore.Base.{
  ℕ, zero, suc, ◌+◌, ◌<◌, ◌≡◌, refl, sym, ap, ◌∙◌, Bool, true, false, ◌&&◌, some, List, [], ◌∷◌,
  ◌++◌, arith, length, ltb, ◌==◌, if◌then◌else◌, Bytes, bytes_eq, bytes_eq→eq, Bool-cases, inl, inr,
}
use mathlib.Core.List.{append_assoc, append-nil}
use memcore.Base.GoMap
use memcore.Base.GoMap.{GoMap}
use memcore.Value.Set
use memcore.Value.Set.{PackSet, contains, members}
use memcore.Value.Set.Refines.{Holds}
use memcore.Value.Set.Queries.{contains_refines, members_refines}
use memcore.Command.Sets.{
  smallest_from, smallest, in_all, keep_in_all, kept_of, set_at, members_of, intersect,
}

abbrev pub Members : Type 0
Members = GoMap (Unit {0})

-- The sets stand for the members, one by one.
abbrev pub AllHold : List PackSet → List Members → Type 0
AllHold [] [] = Unit
AllHold [] (m ∷ ms) = true ≡ false
AllHold (s ∷ ss) [] = true ≡ false
AllHold (s ∷ ss) (m ∷ ms) = Holds s m × AllHold ss ms

-- Whether the member is in each of the sets; whether it is among those listed.
abbrev pub common : Bytes → List Members → Bool
common x [] = true
common x (m ∷ ms) = GoMap.has x m && common x ms

abbrev pub among : Bytes → List Bytes → Bool
among x [] = false
among x (y ∷ ys) = if bytes_eq y x then true else among x ys

-- Whether it is in each but the one at `skip`.
abbrev others : List Members → ℕ → ℕ → Bytes → Bool
others [] i skip x = true
others (m ∷ ms) i skip x =
    if i == skip then others ms (i + 1) skip x else (GoMap.has x m && others ms (i + 1) skip x)

in_all-others :
    (ss : List PackSet) (ms : List Members) (i skip : ℕ) (x : Bytes)
    → AllHold ss ms
    → in_all ss i skip x ≡ some (others ms i skip x)
unfolding in_all
in_all-others [] [] i skip x h = refl
in_all-others [] (m ∷ ms) i skip x h = cc
in_all-others (s ∷ ss) [] i skip x h = cc
in_all-others (s ∷ ss) (m ∷ ms) i skip x h = elim (Bool-cases (i == skip)) [
  | inl y ↦ rw y (in_all-others ss ms (i + 1) skip x h.1)
  | inr n ↦ elim (Bool-cases (GoMap.has x m)) [
    | inl there ↦
        let found : contains s x ≡ some true = contains_refines s m x h.0 ∙ ap some there in
        rw (n, found, there) (in_all-others ss ms (i + 1) skip x h.1)
    | inr gone ↦
        let missing : contains s x ≡ some false = contains_refines s m x h.0 ∙ ap some gone in
        rw (n, missing, gone) refl
  ]
]

abbrev filter : (Bytes → Bool) → List Bytes → List Bytes
filter p [] = []
filter p (x ∷ xs) = if p x then x ∷ filter p xs else filter p xs

keep_in_all-step :
    (ss : List PackSet) (skip : ℕ) (x : Bytes) (xs out : List Bytes) (b : Bool)
    → in_all ss 0 skip x ≡ some b
    → keep_in_all ss skip (x ∷ xs) out ≡ keep_in_all ss skip xs (if b then out ++ (x ∷ []) else out)
unfolding keep_in_all
keep_in_all-step ss skip x xs out b e = rw (e, keep_in_all)

keep_in_all-filter :
    (ss : List PackSet) (ms : List Members) (skip : ℕ) (xs out : List Bytes)
    → AllHold ss ms
    → keep_in_all ss skip xs out ≡ some (out ++ filter (others ms 0 skip) xs)
unfolding keep_in_all
keep_in_all-filter ss ms skip [] out h = ap some (sym (append-nil out))
keep_in_all-filter ss ms skip (x ∷ xs) out h = elim (Bool-cases (others ms 0 skip x)) [
  | inl y ↦
      let kept : in_all ss 0 skip x ≡ some true = in_all-others ss ms 0 skip x h ∙ ap some y in
      rw y (
        keep_in_all-step ss skip x xs out true kept
        ∙ keep_in_all-filter ss ms skip xs (out ++ (x ∷ [])) h
        ∙ ap some (append_assoc out (x ∷ []) (filter (others ms 0 skip) xs)))
  | inr n ↦
      let dropped : in_all ss 0 skip x ≡ some false = in_all-others ss ms 0 skip x h ∙ ap some n in
      rw n
        (keep_in_all-step ss skip x xs out false dropped ∙ keep_in_all-filter ss ms skip xs out h)
]

among-filter :
    (p : Bytes → Bool) (x : Bytes) (xs : List Bytes) → among x (filter p xs) ≡ (among x xs && p x)
among-filter p x [] = refl
among-filter p x (y ∷ ys) = elim (Bool-cases (bytes_eq y x)) [
  | inl e ↦
      let same : y ≡ x = bytes_eq→eq y x e in
      let alike : p y ≡ p x = ap p same in ground (arith, e, alike, among-filter p x ys)
  | inr n ↦ ground (arith, n, among-filter p x ys)
]

among-keys : (x : Bytes) (m : Members) → among x (GoMap.keys m) ≡ GoMap.has x m
unfolding GoMap.get
among-keys x [] = refl
among-keys x ((k, v) ∷ m) = ground (arith, among-keys x m)

others_past :
    (ms : List Members) (i skip : ℕ) (x : Bytes) → skip < i → others ms i skip x ≡ common x ms
others_past [] i skip x h = refl
others_past (m ∷ ms) i skip x h =
    let past : (i == skip) ≡ false = ground arith in
    rw past (ap (λ b. GoMap.has x m && b) (others_past ms (i + 1) skip x (omega arith)))

-- The members of the set at the index, with its members elsewhere, are those of all.
common_split :
    (ms : List Members) (ss : List PackSet) (i k : ℕ) (x : Bytes)
    → AllHold ss ms
    → k < length ss
    → (s : PackSet) × (m : Members) × (set_at ss k ≡ some s)
      × Holds s m
      × ((GoMap.has x m && others ms i (i + k) x) ≡ common x ms)
unfolding set_at
common_split [] [] i k x h lt = absurd (omega arith)
common_split [] (s ∷ ss) i k x h lt = cc
common_split (m ∷ ms) [] i k x h lt = cc
common_split (m ∷ ms) (s ∷ ss) i zero x h lt =
    let here : (i == i + 0) ≡ true = ground arith in
    (
      s,
      m,
      refl,
      h.0,
      rw here (ap (λ b. GoMap.has x m && b) (others_past ms (i + 1) (i + 0) x (omega arith))),
    )
common_split (m ∷ ms) (s ∷ ss) i (suc k) x h lt =
    let away : (i == i + suc k) ≡ false = ground arith in
    let next : (i + 1) + k ≡ i + suc k = omega arith in
    let (s', m', at, held, split) = common_split ms ss (i + 1) k x h.1 (omega arith) in
    let moved : (GoMap.has x m' && others ms (i + 1) (i + suc k) x) ≡ common x ms =
      ap (λ n. GoMap.has x m' && others ms (i + 1) n x) (sym next) ∙ split in
    (s', m', at, held, rw away (ground (arith, moved)))

smallest_from_in :
    (ss : List PackSet) (i best size : ℕ)
    → best < i + length ss
    → smallest_from ss i best size < i + length ss
unfolding smallest_from
smallest_from_in [] i best size h = h
smallest_from_in (s ∷ ss) i best size h = elim (Bool-cases (ltb (Set.len s) size)) [
  | inl y ↦ rw y (omega (arith, smallest_from_in ss (i + 1) i (Set.len s) (omega arith)))
  | inr n ↦ rw n (omega (arith, smallest_from_in ss (i + 1) best size (omega arith)))
]

smallest_in : (s : PackSet) (ss : List PackSet) → smallest (s ∷ ss) < length (s ∷ ss)
unfolding smallest
smallest_in s ss = omega (arith, smallest_from_in (s ∷ ss) 0 0 (Set.len s) (omega arith))

-- The intersection that SINTER replies, of one set or more that stand for their members, is found
-- without a panic, and lists a member exactly if it is in every set.
pub intersect_refines :
    (s : PackSet) (ss : List PackSet) (ms : List Members) (x : Bytes)
    → AllHold (s ∷ ss) ms
    → (out : List Bytes) × (intersect (s ∷ ss) ≡ some out) × (among x out ≡ common x ms)
unfolding intersect
intersect_refines s ss ms x h =
    let k = smallest (s ∷ ss) in
    let (s', m, at, held, split) = common_split ms (s ∷ ss) 0 k x h (smallest_in s ss) in
    let zero_more : 0 + k ≡ k = omega arith in
    let p = others ms 0 k in
    (
      filter p (GoMap.keys m),
      ap (λ o. kept_of (s ∷ ss) k (members_of o)) at
          ∙ ap (kept_of (s ∷ ss) k) (members_refines s' m held)
          ∙ keep_in_all-filter (s ∷ ss) ms k (GoMap.keys m) [] h,
      among-filter p x (GoMap.keys m)
          ∙ ap (λ b. b && p x) (among-keys x m)
          ∙ ap (λ n. GoMap.has x m && others ms 0 n x) (sym zero_more)
          ∙ split,
    )
