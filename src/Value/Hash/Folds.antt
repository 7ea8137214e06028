-- ===== src/Value/Hash/Folds.antt =====
-- What the callbacks of the operations of a hash compute over the pairs of a map.
use mathlib.Core.List.{append_assoc, append-nil}
use memcore.Base.{
  ◌≡◌, refl, sym, ap, ◌∙◌, Bool, true, ◌||◌, none, some, List, [], ◌∷◌, ◌++◌, arith, Bytes,
  bytes_eq, bytes_eq→eq, Bool-cases, inl, inr,
}
use memcore.Base.GoMap
use memcore.Base.GoMap.{GoMap, put-new, get-before, delete-absent}
use memcore.Value.Pack.{pack_append, pack_of, pack_append-pack_of}
use memcore.Value.Hash.{seek, collect, replace, strip, gather, flat}
use memcore.Value.Hash.Scans.{each_pair, each_pair-go, each_pair-stop}

pub pack_pair :
    (xs : List Bytes) (f v : Bytes)
    → pack_append (pack_append (pack_of xs) f) v ≡ pack_of (xs ++ (f ∷ v ∷ []))
pack_pair xs f v =
    ap (λ t. pack_append t v) (pack_append-pack_of xs f)
    ∙ pack_append-pack_of (xs ++ (f ∷ [])) v
    ∙ ap pack_of (append_assoc xs (f ∷ []) (v ∷ []))

pub flat-append : (a b : GoMap Bytes) → flat (a ++ b) ≡ flat a ++ flat b
flat-append [] b = refl
flat-append ((f, v) ∷ a) b = ap (λ t. f ∷ v ∷ t) (flat-append a b)

pub fold-seek :
    (field : Bytes) (m : GoMap Bytes) → each_pair (seek field) m none ≡ GoMap.get field m
fold-seek field [] = unfold each_pair GoMap.get in refl
fold-seek field ((f, v) ∷ m) = elim (Bool-cases (bytes_eq f field)) [
  | inl e ↦
      rw (GoMap.get-head field f v m e) (each_pair-stop (seek field) f v m none (some v) (rw e))
  | inr e ↦
      rw (GoMap.get-skip field f v m e)
        (each_pair-go (seek field) f v m none none (rw e) ∙ fold-seek field m)
]

pub fold-collect : (m a : GoMap Bytes) → GoMap.IsDistinct (a ++ m) → each_pair collect m a ≡ a ++ m
fold-collect [] a h = unfold each_pair in sym (append-nil a)
fold-collect ((f, v) ∷ m) a h =
    each_pair-go collect f v m a (GoMap.put f v a) refl
    ∙ ap (each_pair collect m) (put-new f v a (get-before f v a m h))
    ∙ fold-collect m (a ++ ((f, v) ∷ [])) (rw (append_assoc a ((f, v) ∷ []) m) h)
    ∙ append_assoc a ((f, v) ∷ []) m

module _ (field val : Bytes) where
  pub replace-absent :
      (m : GoMap Bytes) (b : Bool) (xs : List Bytes)
      → GoMap.get field m ≡ none
      → each_pair (replace field val) m (b, pack_of xs) ≡ (b, pack_of (xs ++ flat m))
  replace-absent [] b xs h = unfold each_pair in rw append-nil
  replace-absent ((f, v) ∷ m) b xs h = elim (Bool-cases (bytes_eq f field)) [
    | inl e ↦ cc (h, GoMap.get-head field f v m e)
    | inr e ↦
        each_pair-go (replace field val) f v m (b, pack_of xs) (b, pack_of (xs ++ (f ∷ v ∷ [])))
          (rw (e, pack_pair xs f v))
        ∙ replace-absent m b (xs ++ (f ∷ v ∷ [])) (rw (GoMap.get-skip field f v m e) at h)
        ∙ ap (λ t. (b, pack_of t)) (append_assoc xs (f ∷ v ∷ []) (flat m))
  ]

  pub replace-present :
      (m : GoMap Bytes) (b : Bool) (xs : List Bytes)
      → GoMap.IsDistinct m
      → GoMap.has field m ≡ true
      → each_pair (replace field val) m (b, pack_of xs)
        ≡ (true, pack_of (xs ++ flat (GoMap.put field val m)))
  replace-present [] b xs d h = unfold GoMap.get in cc
  replace-present ((f, v) ∷ m) b xs d h = elim (Bool-cases (bytes_eq f field)) [
    | inl e ↦
        let same : f ≡ field = bytes_eq→eq f field e in
        rw (GoMap.put-head field f v val m e) (
          each_pair-go (replace field val) f v m (b, pack_of xs)
            (true, pack_of (xs ++ (f ∷ val ∷ []))) (rw (e, pack_pair xs f val))
          ∙ replace-absent m true (xs ++ (f ∷ val ∷ [])) (rw same at d.0)
          ∙ ap (λ t. (true, pack_of t)) (append_assoc xs (f ∷ val ∷ []) (flat m)))
    | inr e ↦ rw (GoMap.put-skip field f v val m e) (
        each_pair-go (replace field val) f v m (b, pack_of xs) (b, pack_of (xs ++ (f ∷ v ∷ [])))
          (rw (e, pack_pair xs f v))
        ∙ replace-present m b (xs ++ (f ∷ v ∷ [])) d.1 (rw (GoMap.get-skip field f v m e) at h)
        ∙ ap (λ t. (true, pack_of t)) (append_assoc xs (f ∷ v ∷ []) _))
  ]

pub fold-strip :
    (field : Bytes) (m : GoMap Bytes) (b : Bool) (xs : List Bytes)
    → GoMap.IsDistinct m
    → each_pair (strip field) m (b, pack_of xs)
      ≡ (b || GoMap.has field m, pack_of (xs ++ flat (GoMap.delete field m)))
fold-strip field [] b xs h = unfold each_pair GoMap.get GoMap.delete in rw append-nil (ground arith)
fold-strip field ((f, v) ∷ m) b xs h = elim (Bool-cases (bytes_eq f field)) [
  | inl e ↦
      let same : f ≡ field = bytes_eq→eq f field e in
      let gone : GoMap.get field m ≡ none = rw same at h.0 in
      rw
        (
          each_pair-go (strip field) f v m (b, pack_of xs) (true, pack_of xs) (rw e),
          fold-strip field m true xs h.1,
          delete-absent field m gone,
          GoMap.delete-head field f v m e,
          GoMap.get-head field f v m e,
        )
        (ground arith)
  | inr e ↦ rw (
    each_pair-go (strip field) f v m (b, pack_of xs) (b, pack_of (xs ++ (f ∷ v ∷ [])))
        (rw (e, pack_pair xs f v)),
    fold-strip field m b (xs ++ (f ∷ v ∷ [])) h.1,
    GoMap.delete-skip field f v m e,
    GoMap.get-skip field f v m e,
    append_assoc,
  )
]

pub fold-gather : (m : GoMap Bytes) (out : List Bytes) → each_pair gather m out ≡ out ++ flat m
fold-gather [] out = unfold each_pair in sym (append-nil out)
fold-gather ((f, v) ∷ m) out =
    each_pair-go gather f v m out (out ++ (f ∷ v ∷ [])) refl
    ∙ fold-gather m (out ++ (f ∷ v ∷ []))
    ∙ append_assoc out (f ∷ v ∷ []) (flat m)
