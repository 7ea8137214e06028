-- ===== src/Value/Set/Scans.antt =====
-- What the scans over the pack of a set compute, when the pack holds the keys of a map.
use mathlib.Core.List.{append_assoc, append-nil}
use memcore.Base.{
  ◌≡◌, refl, sym, ap, ◌∙◌, Bool, true, false, ◌||◌, none, some, List, [], ◌∷◌, ◌++◌, arith,
  if◌then◌else◌, Bytes, bytes_eq, bytes_eq→eq, All, Bool-cases, inl, inr,
}
use memcore.Base.GoMap
use memcore.Base.GoMap.{
  GoMap, get-put, put-new, get-before, delete-absent, put-IsDistinct, length-put, delete-IsDistinct,
  length-delete, get-delete,
}
use memcore.Value.Pack.{
  pack_append, pack_of, Fits, each, each-go, pack_each-pack, pack_append-pack_of,
}
use memcore.Value.Set.{seek, scan_contains, collect, strip, gather}

each-seek :
    (member : Bytes) (m : GoMap (Unit {0})) (b : Bool)
    → each (seek member) (GoMap.keys m) b ≡ (if GoMap.has member m then true else b)
unfolding each GoMap.get
each-seek member [] b = refl
each-seek member ((k, v) ∷ m) b = ground (arith, each-seek member m b)

pub scan_contains-pack :
    (m : GoMap (Unit {0})) (member : Bytes)
    → All Fits (GoMap.keys m)
    → scan_contains (pack_of (GoMap.keys m)) member ≡ some (GoMap.has member m)
unfolding scan_contains
scan_contains-pack m member h =
    pack_each-pack (seek member) (GoMap.keys m) false h
    ∙ ap some (each-seek member m false ∙ ground arith)

pub each-collect :
    (m a : GoMap (Unit {0})) → GoMap.IsDistinct (a ++ m) → each collect (GoMap.keys m) a ≡ a ++ m
unfolding each
each-collect [] a h = sym (append-nil a)
each-collect ((k, tt) ∷ m) a h = rw (put-new k tt a (get-before k tt a m h)) (
    each-collect m (a ++ ((k, tt) ∷ [])) (rw (append_assoc a ((k, tt) ∷ []) m) h)
    ∙ append_assoc a ((k, tt) ∷ []) m)

pub each-strip :
    (member : Bytes) (m : GoMap (Unit {0})) (b : Bool) (xs : List Bytes)
    → GoMap.IsDistinct m
    → each (strip member) (GoMap.keys m) (b, pack_of xs)
      ≡ (b || GoMap.has member m, pack_of (xs ++ GoMap.keys (GoMap.delete member m)))
each-strip member [] b xs h = unfold each GoMap.get GoMap.delete in rw append-nil (ground arith)
each-strip member ((k, v) ∷ m) b xs h = elim (Bool-cases (bytes_eq k member)) [
  | inl e ↦
      let same : k ≡ member = bytes_eq→eq k member e in
      let gone : GoMap.get member m ≡ none = rw same at h.0 in
      rw
        (
          each-go (strip member) k (GoMap.keys m) (b, pack_of xs) (true, pack_of xs) (rw e),
          each-strip member m true xs h.1,
          delete-absent member m gone,
          GoMap.delete-head member k v m e,
          GoMap.get-head member k v m e,
        )
        (ground arith)
  | inr e ↦ rw (
    each-go (strip member) k (GoMap.keys m) (b, pack_of xs) (b, pack_append (pack_of xs) k) (rw e),
    pack_append-pack_of xs k,
    each-strip member m b (xs ++ (k ∷ [])) h.1,
    GoMap.delete-skip member k v m e,
    GoMap.get-skip member k v m e,
    append_assoc,
  )
]

pub each-gather : (es out : List Bytes) → each gather es out ≡ out ++ es
unfolding each
each-gather [] out = sym (append-nil out)
each-gather (e ∷ es) out = each-gather es (out ++ (e ∷ [])) ∙ append_assoc out (e ∷ []) es
