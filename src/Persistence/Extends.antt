-- ===== src/Persistence/Extends.antt =====
-- A reader that did not meet the end of its input returns the same on a longer one.
use memcore.Base.{
  ℕ, zero, suc, ◌+◌, ◌*◌, ◌%◌, ◌^◌, ◌≤◌, ◌≡◌, refl, ap, true, ◌&&◌, [], ◌∷◌, ◌++◌, arith, length,
  length-append, take, drop, ltb, leb, ◌==◌, Bytes, Bool-cases, inl, inr,
}
use memcore.Persistence.Stream.{
  eof, unexpected_eof, overflow, unknown_tag, Read, ok, err, panics, ◌>>=◌, unexpected,
  read_uvarint_loop, read_uvarint, read_full, read_body, read_bytes, max_alloc,
}

-- `r'` is `r` with `more` behind the input, unless `r` met the end.
abbrev pub Ext : {A : Type 0} → Bytes → Read A → Read A → Type 0
Ext more (ok a rest) r' = r' ≡ ok a (rest ++ more)
Ext more (err eof) r' = Unit
Ext more (err unexpected_eof) r' = Unit
Ext more (err overflow) r' = r' ≡ err overflow
Ext more (err unknown_tag) r' = r' ≡ err unknown_tag
Ext more panics r' = r' ≡ panics

pub Ext-refl :
    {A : Type 0} (more : Bytes) (r : Read A)
    → ((a : A) (rest : Bytes) → r ≡ ok a rest → ⊥)
    → Ext more r r
Ext-refl more (ok a rest) h = absurd (h a rest refl)
Ext-refl more (err eof) h = tt
Ext-refl more (err unexpected_eof) h = tt
Ext-refl more (err overflow) h = refl
Ext-refl more (err unknown_tag) h = refl
Ext-refl more panics h = refl

pub Ext-bind :
    {A B : Type 0} (more : Bytes) (m m' : Read A) (f : A → Bytes → Read B)
    → Ext more m m'
    → ((a : A) (rest : Bytes) → Ext more (f a rest) (f a (rest ++ more)))
    → Ext more (m >>= f) (m' >>= f)
Ext-bind more (ok a rest) m' f h k = rw h (k a rest)
Ext-bind more (err eof) m' f h k = tt
Ext-bind more (err unexpected_eof) m' f h k = tt
Ext-bind more (err overflow) m' f h k = rw h
Ext-bind more (err unknown_tag) m' f h k = rw h
Ext-bind more panics m' f h k = rw h

pub Ext-unexpected :
    {A : Type 0} (more : Bytes) (r r' : Read A)
    → Ext more r r'
    → Ext more (unexpected r) (unexpected r')
Ext-unexpected more (ok a rest) r' h = rw h
Ext-unexpected more (err eof) r' h = tt
Ext-unexpected more (err unexpected_eof) r' h = tt
Ext-unexpected more (err overflow) r' h = rw h
Ext-unexpected more (err unknown_tag) r' h = rw h
Ext-unexpected more panics r' h = rw h

read_uvarint_loop-Ext :
    (left s x : ℕ) (bs more : Bytes)
    → Ext more (read_uvarint_loop left s x bs) (read_uvarint_loop left s x (bs ++ more))
unfolding read_uvarint_loop
read_uvarint_loop-Ext zero s x bs more = refl
read_uvarint_loop-Ext (suc left) s x [] more = elim (Bool-cases (left == 9)) [
  | inl y ↦ rw y tt
  | inr n ↦ rw n tt
]
read_uvarint_loop-Ext (suc left) s x (b ∷ bs) more = elim (Bool-cases (ltb b 128)) [
  | inr n ↦ rw n (read_uvarint_loop-Ext left (s + 7) (x + b % 128 * 2 ^ s) bs more)
  | inl y ↦ elim (Bool-cases ((left == 0) && ltb 1 b)) [
    | inl y' ↦ rw (y, y') refl
    | inr n' ↦ rw (y, n') refl
  ]
]

pub read_uvarint-Ext : (bs more : Bytes) → Ext more (read_uvarint bs) (read_uvarint (bs ++ more))
unfolding read_uvarint
read_uvarint-Ext bs more = read_uvarint_loop-Ext 10 0 0 bs more

take_front : (n : ℕ) (bs more : Bytes) → n ≤ length bs → take n (bs ++ more) ≡ take n bs
take_front zero bs more h = refl
take_front (suc n) [] more h = absurd (omega arith)
take_front (suc n) (b ∷ bs) more h = ap (λ t. b ∷ t) (take_front n bs more (omega arith))

drop_front : (n : ℕ) (bs more : Bytes) → n ≤ length bs → drop n (bs ++ more) ≡ drop n bs ++ more
drop_front zero bs more h = refl
drop_front (suc n) [] more h = absurd (omega arith)
drop_front (suc n) (b ∷ bs) more h = drop_front n bs more (omega arith)

zero_full : (bs : Bytes) → read_full 0 bs ≡ ok [] bs
unfolding read_full
zero_full [] = refl
zero_full (b ∷ bs) = ground arith

read_full-Ext : (n : ℕ) (bs more : Bytes) → Ext more (read_full n bs) (read_full n (bs ++ more))
unfolding read_full
read_full-Ext n [] more = elim (Bool-cases (n == 0)) [
  | inl y ↦ let e : n ≡ 0 = ground arith in rw (y, e) (zero_full more)
  | inr m ↦ rw m tt
]
read_full-Ext n (b ∷ bs) more = elim (Bool-cases (leb n (length (b ∷ bs)))) [
  | inl y ↦
      let le : n ≤ length (b ∷ bs) = ground arith in
      let y' : leb n (length (b ∷ (bs ++ more))) ≡ true = ground (arith, length-append bs more) in
      rw (y, y') (rw (take_front n (b ∷ bs) more le, drop_front n (b ∷ bs) more le) refl)
  | inr m ↦ rw m tt
]

pub read_bytes-Ext : (bs more : Bytes) → Ext more (read_bytes bs) (read_bytes (bs ++ more))
unfolding read_bytes
read_bytes-Ext bs more =
    Ext-bind more (read_uvarint bs) (read_uvarint (bs ++ more)) read_body (read_uvarint-Ext bs more)
      λ n rest. elim (Bool-cases (ltb max_alloc n)) [
        | inl y ↦ rw y refl
        | inr m ↦ rw m (read_full-Ext n rest more)
      ]
