-- ===== src/Value/Lists/Packed.antt =====
-- The packed encoding of a list: its scans are loops over the elements.
use mathlib.Core.List.{append_assoc, append-nil}
use memcore.Base.{
  ℕ, zero, suc, ◌+◌, ◌-◌, ◌≤◌, ◌≡◌, refl, sym, ap, ◌∙◌, some, List, [], ◌∷◌, ◌++◌, arith, length,
  length-append, take, drop, Bytes, All,
}
use memcore.Base.Varint.{put_uvarint, length-put_uvarint}
use memcore.Value.Pack.{
  pack_append, pack_of, Fits, split_elem, split_elem-pack, each, each-go, each-stop,
}
use memcore.Value.Lists.{collect, select, last_elem}
use memcore.Value.Lists.Nodes.{FullList, push_back}
use memcore.Value.Lists.Linked.{Spine, values, values-append}
use memcore.Value.Lists.Ends.{Stands, push_back-Stands}

pub pack_of-append : (es fs : List Bytes) → pack_of (es ++ fs) ≡ pack_of es ++ pack_of fs
pack_of-append [] fs = refl
pack_of-append (e ∷ es) fs = simp (append_assoc, pack_of-append es fs)

pub pack_of-push_front :
    (es : List Bytes) (b : Bytes) → pack_append [] b ++ pack_of es ≡ pack_of (b ∷ es)
unfolding pack_append
pack_of-push_front es b = simp append_assoc

-- Promotion puts the elements behind those that are there.
pub collect-Stands :
    (es : List Bytes) (f : FullList) (xs : Spine)
    → Stands f xs
    → (ys : Spine) × Stands (each collect es f) ys × (values ys ≡ values xs ++ es)
collect-Stands [] f xs s = (xs, unfold each in s, sym (append-nil (values xs)))
collect-Stands (e ∷ es) f xs s =
    let (ys, stands, eq) =
      collect-Stands es (push_back f e) (xs ++ ((f.fresh, e) ∷ [])) (push_back-Stands f xs e s) in
    (
      ys,
      rw (each-go collect e es f (push_back f e) refl) stands,
      eq
          ∙ ap (λ t. t ++ es) (values-append xs ((f.fresh, e) ∷ []))
          ∙ append_assoc (values xs) (e ∷ []) es,
    )

length-pack_cons : (e : Bytes) (rest : Bytes) → 1 ≤ length (put_uvarint (length e) ++ (e ++ rest))
length-pack_cons e rest =
    omega (arith, length-put_uvarint (length e), length-append (put_uvarint (length e)) (e ++ rest))

length-pack_rest :
    (e : Bytes) (es : List Bytes)
    → length (pack_of (e ∷ es)) ≡ (length (put_uvarint (length e)) + length e) + length (pack_of es)
length-pack_rest e es =
    omega (
      arith,
      length-append (put_uvarint (length e)) (e ++ pack_of es),
      length-append e (pack_of es),
    )

last_elem-step :
    (fuel off : ℕ) (buf : Bytes) (last : ℕ × Bytes) {elem rest : Bytes}
    → 1 ≤ length buf
    → split_elem buf ≡ some (elem, rest)
    → last_elem (suc fuel) off buf last
      ≡ last_elem fuel (off + (length buf - length rest)) rest (off, elem)
unfolding last_elem
last_elem-step fuel off [] last h p = absurd (omega arith)
last_elem-step fuel off (b ∷ bs) last h p = rw (p, last_elem)

last_elem-nil : (fuel off : ℕ) (last : ℕ × Bytes) → last_elem fuel off [] last ≡ some last
unfolding last_elem
last_elem-nil zero off last = refl
last_elem-nil (suc fuel) off last = refl

-- The loop of `PopBack` finds the last element and its offset.
pub last_elem-pack :
    (es : List Bytes) (e : Bytes) (fuel off : ℕ) (last : ℕ × Bytes)
    → All Fits (es ++ (e ∷ []))
    → length (pack_of (es ++ (e ∷ []))) ≤ fuel
    → last_elem fuel off (pack_of (es ++ (e ∷ []))) last ≡ some (off + length (pack_of es), e)
last_elem-pack [] e zero off last h hf = absurd (omega (arith, length-pack_cons e []))
last_elem-pack [] e (suc fuel) off last h hf =
    last_elem-step fuel off (pack_of (e ∷ [])) last (length-pack_cons e [])
      (split_elem-pack e [] h.0)
    ∙ last_elem-nil fuel _ (off, e)
    ∙ ap (λ n. some (n, e)) (omega arith)
last_elem-pack (x ∷ es) e zero off last h hf =
    absurd (omega (arith, length-pack_cons x (pack_of (es ++ (e ∷ [])))))
last_elem-pack (x ∷ es) e (suc fuel) off last h hf =
    last_elem-step fuel off (pack_of (x ∷ (es ++ (e ∷ [])))) last
      (length-pack_cons x (pack_of (es ++ (e ∷ []))))
      (split_elem-pack x (pack_of (es ++ (e ∷ []))) h.0)
    ∙ last_elem-pack es e fuel _ (off, x) h.1
        (omega (arith, length-pack_rest x (es ++ (e ∷ [])), length-put_uvarint (length x)))
    ∙ ap (λ n. some (n, e))
        (omega (arith, length-pack_rest x (es ++ (e ∷ [])), length-pack_rest x es))

-- The callback of `Range`, from the first index that is wanted on.
select_tail :
    (es : List Bytes) (lo hi i n : ℕ) (out : List Bytes)
    → lo ≤ i
    → i + n ≡ hi
    → (each (select lo hi) es (i, out)).1 ≡ out ++ take (suc n) es
select_tail [] lo hi i n out hl hn = unfold each in sym (append-nil out)
select_tail (e ∷ es) lo hi i zero out hl hn =
    ap (λ t. t.1) (each-stop (select lo hi) e es (i, out) (i + 1, out ++ (e ∷ [])) (ground arith))
select_tail (e ∷ es) lo hi i (suc n) out hl hn =
    ap (λ t. t.1) (each-go (select lo hi) e es (i, out) (i + 1, out ++ (e ∷ [])) (ground arith))
    ∙ select_tail es lo hi (i + 1) n (out ++ (e ∷ [])) (omega arith) (omega arith)
    ∙ append_assoc out (e ∷ []) (take (suc n) es)

pub select-take :
    (es : List Bytes) (lo hi i k n : ℕ) (out : List Bytes)
    → i + k ≡ lo
    → lo + n ≡ hi
    → (each (select lo hi) es (i, out)).1 ≡ out ++ take (suc n) (drop k es)
select-take es lo hi i zero n out hk hn = select_tail es lo hi i n out (omega arith) (omega arith)
select-take [] lo hi i (suc k) n out hk hn = unfold each in sym (append-nil out)
select-take (e ∷ es) lo hi i (suc k) n out hk hn =
    ap (λ t. t.1) (each-go (select lo hi) e es (i, out) (i + 1, out) (ground arith))
    ∙ select-take es lo hi (i + 1) k n out (omega arith) (omega arith)
