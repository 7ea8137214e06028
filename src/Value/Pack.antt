-- ===== src/Value/Pack.antt =====
-- internal/value/pack.go: a flat byte slice of length-prefixed elements.
use mathlib.Core.List.{append_assoc, append-nil}
use memcore.Base.{
  ℕ, zero, suc, ◌≤◌, ◌<◌, ◌≡◌, refl, ap, ◌∙◌, Bool, true, false, Option, none, some, List, [], ◌∷◌,
  ◌++◌, arith, leb, if◌then◌else◌, length, length-append, take, drop, take-append, drop-append,
  Bytes, All,
}
use memcore.Base.Varint.{
  IsU64, Varint, done, short, overflow, put_uvarint, uvarint, uvarint-put, length-put_uvarint,
}

unfoldable pub pack_append : Bytes → Bytes → Bytes
pack_append buf elem = buf ++ (put_uvarint (length elem) ++ elem)

-- `n, w := Uvarint(buf); buf = buf[w:]; elem := buf[:n]; buf = buf[n:]` gives `elem` and the rest.
-- A number that is cut off has `n` and `w` 0. A slice bound out of range panics, here `none`.
elem_after : Bytes → Varint → Option (Bytes × Bytes)
elem_after buf (done n rest) = if leb n (length rest) then some (take n rest, drop n rest) else none
elem_after buf short = some ([], buf)
elem_after buf overflow = none

unfoldable pub split_elem : Bytes → Option (Bytes × Bytes)
unfolding elem_after
split_elem buf = elem_after buf (uvarint buf)

-- The callback's captured variables are the state `S`; its Boolean says whether to go on. `none` is
-- a panic, or a loop that never ends: an element takes a byte at least, so `length buf` rounds do.
module _ {ℓ} {S : Type ℓ} (fn : S → Bytes → S × Bool) where
  unfoldable pub each_elem : ℕ → Bytes → S → Option S
  each_elem fuel [] s = some s
  each_elem zero (b ∷ bs) s = none
  each_elem (suc fuel) (b ∷ bs) s = elim (split_elem (b ∷ bs)) [
    | none ↦ none
    | some (elem, rest) ↦ elim (fn s elem).1 [
      | true ↦ each_elem fuel rest (fn s elem).0
      | false ↦ some (fn s elem).0
    ]
  ]

  unfoldable pub pack_each : Bytes → S → Option S
  pack_each buf s = each_elem (length buf) buf s

-- The elements of a pack, one after the other.
abbrev pub pack_of : List Bytes → Bytes
pack_of [] = []
pack_of (e ∷ es) = put_uvarint (length e) ++ (e ++ pack_of es)

-- A Go slice is shorter than 2 ^ 63; a length that fits `uint64` is enough here.
abbrev pub Fits : Bytes → Type 0
Fits e = IsU64 (length e)

pub pack_append-pack_of :
    (es : List Bytes) (e : Bytes) → pack_append (pack_of es) e ≡ pack_of (es ++ (e ∷ []))
unfolding pack_append
pack_append-pack_of [] e = simp append-nil
pack_append-pack_of (x ∷ es) e = simp (append_assoc, ← pack_append-pack_of es e)

le-append : (e rest : Bytes) → leb (length e) (length (e ++ rest)) ≡ true
le-append e rest = ground (arith, length-append e rest)

pub split_elem-pack :
    (e : Bytes) (rest : Bytes)
    → Fits e
    → split_elem (put_uvarint (length e) ++ (e ++ rest)) ≡ some (e, rest)
unfolding split_elem
split_elem-pack e rest h =
    rw (uvarint-put _ (e ++ rest) h) (rw (le-append, take-append, drop-append))

-- A pack is cut at its first element, whatever the fuel beyond its length.
module _ {ℓ} {S : Type ℓ} (fn : S → Bytes → S × Bool) where
  -- The loop over the elements themselves, with the early stop.
  unfoldable pub each : List Bytes → S → S
  each [] s = s
  each (e ∷ es) s = elim (fn s e).1 [ true ↦ each es (fn s e).0 | false ↦ (fn s e).0 ]

  each_elem_step :
      (fuel : ℕ) (buf : Bytes) (s : S) {e rest : Bytes}
      → 1 ≤ length buf
      → split_elem buf ≡ some (e, rest)
      → each_elem fn (suc fuel) buf s
        ≡ elim (fn s e).1 [ true ↦ each_elem fn fuel rest (fn s e).0 | false ↦ some (fn s e).0 ]
  unfolding each_elem
  each_elem_step fuel [] s h p = absurd (omega arith)
  each_elem_step fuel (b ∷ bs) s h p = rw (p, each_elem)

  length-pack_cons :
      (e : Bytes) (es : List Bytes)
      → (1 ≤ length (pack_of (e ∷ es))) × (length (pack_of es) < length (pack_of (e ∷ es)))
  length-pack_cons e es = omega (
    arith,
    length-put_uvarint (length e),
    length-append (put_uvarint (length e)) (e ++ pack_of es),
    length-append e (pack_of es),
  )

  each_elem-pack :
      (es : List Bytes) (fuel : ℕ) (s : S)
      → All Fits es
      → length (pack_of es) ≤ fuel
      → each_elem fn fuel (pack_of es) s ≡ some (each es s)
  unfolding each
  each_elem-pack [] zero s h hf = unfold each_elem in refl
  each_elem-pack [] (suc fuel) s h hf = unfold each_elem in refl
  each_elem-pack (e ∷ es) zero s h hf = absurd (omega (arith, length-pack_cons e es))
  each_elem-pack (e ∷ es) (suc fuel) s h hf =
      each_elem_step fuel _ s (length-pack_cons e es).0 (split_elem-pack e (pack_of es) h.0)
      ∙ elim (fn s e).1
          as (λ more.
            ◌≡◌ {A = Option S}
              (elim more [
                | true ↦ each_elem fn fuel (pack_of es) (fn s e).0
                | false ↦ some (fn s e).0
              ])
              (some (elim more [ true ↦ each es (fn s e).0 | false ↦ (fn s e).0 ]))) [
                | true ↦
                    each_elem-pack es fuel (fn s e).0 h.1 (omega (arith, length-pack_cons e es))
                | false ↦ refl
              ]

  -- On a pack the scan ends, panics nowhere, and is the loop over the elements.
  pub pack_each-pack :
      (es : List Bytes) (s : S) → All Fits es → pack_each fn (pack_of es) s ≡ some (each es s)
  unfolding pack_each
  pack_each-pack es s h = each_elem-pack es _ s h (omega arith)

  -- One round, on a callback that goes on, and on one that stops.
  pub each-go :
      (e : Bytes) (es : List Bytes) (s s' : S) → fn s e ≡ (s', true) → each (e ∷ es) s ≡ each es s'
  unfolding each
  each-go e es s s' p =
      let again : (fn s e).1 ≡ true = ap (λ t. t.1) p in
      let next : (fn s e).0 ≡ s' = ap (λ t. t.0) p in rw (again, next, each)

  pub each-stop :
      (e : Bytes) (es : List Bytes) (s s' : S) → fn s e ≡ (s', false) → each (e ∷ es) s ≡ s'
  unfolding each
  each-stop e es s s' p =
      let halt : (fn s e).1 ≡ false = ap (λ t. t.1) p in
      let next : (fn s e).0 ≡ s' = ap (λ t. t.0) p in rw (halt, next, each)
