-- ===== src/Persistence/Values/Data.antt =====
-- What the values of the codec are worth, and what reading an item after the other builds.
use mathlib.Core.List.{append_assoc, append-nil}
use memcore.Base.{
  ℕ, suc, ◌+◌, ◌-◌, ◌*◌, ◌≤◌, ◌≡◌, refl, sym, ap, ◌∙◌, some, List, [], ◌∷◌, ◌++◌, arith, length,
  take, Bytes, All,
}
use memcore.Base.Int.{pos, negsuc}
use memcore.Base.GoMap
use memcore.Base.GoMap.{GoMap, put-new, get-before, keys-append}
use memcore.Base.Varint.{IsU64}
use memcore.Value.Limits.{normalize_range}
use memcore.Value.Pack.{Fits}
use memcore.Value.Lists.{PackList}
use memcore.Value.Lists.Refines as ListRefines
use memcore.Value.Lists.Refines.{PushesBack, new_list-Holds, push_back_refines}
use memcore.Value.Lists.Slices.{selected}
use memcore.Value.Hash.{PackHash, flat}
use memcore.Value.Hash.Represents
use memcore.Value.Hash.Represents.{new_hash-Holds}
use memcore.Value.Set.{PackSet}
use memcore.Value.Set.Refines
use memcore.Value.Set.Refines.{new_set-Holds, add_refines}
use memcore.Value.Union
use memcore.Value.Union.{Value, string}
use memcore.Persistence.Stream.{ok, max_alloc, write_bytes, read_bytes-write}
use memcore.Persistence.Values.{write_each, read_pair}
use memcore.Persistence.Values.Rounds.{fold}

-- What a value is worth, whatever its encoding.
pub data Data : Type 0 where
  text : Bytes → Data
  elements : List Bytes → Data
  fields : GoMap Bytes → Data
  members : GoMap (Unit {0}) → Data

abbrev pub Means : {Z : Type 0} → Value Z → Data → Type 0
Means v (text b) = v ≡ string b
Means v (elements es) = (l : PackList) × (v ≡ Union.list l) × ListRefines.Holds l es
Means v (fields m) = (h : PackHash) × (v ≡ Union.hash h) × Represents.Holds h m
Means v (members m) = (s : PackSet) × (v ≡ Union.set s) × Refines.Holds s m

-- What one `make` can take.
abbrev pub IsSmall : Bytes → Type 0
IsSmall b = length b ≤ max_alloc

-- Data that fits memory.
abbrev pub IsWritable : Data → Type 0
IsWritable (text b) = IsSmall b
IsWritable (elements es) = IsU64 (length es) × All IsSmall es
IsWritable (fields m) = IsU64 (length m) × All IsSmall (flat m)
IsWritable (members m) = IsU64 (length m) × All IsSmall (GoMap.keys m)

pub small-Fits : (b : Bytes) → IsSmall b → Fits b
small-Fits b h = omega (arith, h)

take_all : (es : List Bytes) → take (length es) es ≡ es
take_all [] = refl
take_all (e ∷ es) = ap (λ t. e ∷ t) (take_all es)

whole_range : (n : ℕ) → normalize_range (pos 0) (negsuc 0) (suc n) ≡ some (0, n)
unfolding normalize_range
whole_range n = ground arith

-- `Range(0, -1)` is every element.
pub range_all :
    (es : List Bytes) → selected es (normalize_range (pos 0) (negsuc 0) (length es)) ≡ es
range_all [] = unfold normalize_range in refl
range_all (e ∷ es) =
    let count : length es - 0 + 1 ≡ suc (length es) = omega arith in
    ap (selected (e ∷ es)) (whole_range (length es))
    ∙ ap (λ n. take n (e ∷ es)) count
    ∙ take_all (e ∷ es)

abbrev pub snoc : Bytes → List Bytes → List Bytes
snoc e es = es ++ (e ∷ [])

pub fold-snoc : (xs es : List Bytes) → fold snoc xs es ≡ es ++ xs
fold-snoc [] es = sym (append-nil es)
fold-snoc (x ∷ xs) es = fold-snoc xs (es ++ (x ∷ [])) ∙ append_assoc es (x ∷ []) xs

abbrev pub put_member : Bytes → GoMap (Unit {0}) → GoMap (Unit {0})
put_member x m = GoMap.put x tt m

pub fold-put_member :
    (m a : GoMap (Unit {0})) → GoMap.IsDistinct (a ++ m) → fold put_member (GoMap.keys m) a ≡ a ++ m
fold-put_member [] a h = sym (append-nil a)
fold-put_member ((k, v) ∷ m) a h =
    ap (fold put_member (GoMap.keys m)) (put-new k tt a (get-before k v a m h))
    ∙ fold-put_member m (a ++ ((k, v) ∷ [])) (rw (append_assoc a ((k, v) ∷ []) m) h)
    ∙ append_assoc a ((k, v) ∷ []) m

abbrev pub put_pair : Bytes × Bytes → GoMap Bytes → GoMap Bytes
put_pair (f, v) m = GoMap.put f v m

pub fold-put_pair : (m a : GoMap Bytes) → GoMap.IsDistinct (a ++ m) → fold put_pair m a ≡ a ++ m
fold-put_pair [] a h = sym (append-nil a)
fold-put_pair ((f, v) ∷ m) a h =
    ap (fold put_pair m) (put-new f v a (get-before f v a m h))
    ∙ fold-put_pair m (a ++ ((f, v) ∷ [])) (rw (append_assoc a ((f, v) ∷ []) m) h)
    ∙ append_assoc a ((f, v) ∷ []) m

abbrev pub write_pair : Bytes × Bytes → Bytes
write_pair (f, v) = write_bytes f ++ write_bytes v

-- The flat pairs are written as the pairs are.
pub write_flat : (m : GoMap Bytes) → write_each write_bytes (flat m) ≡ write_each write_pair m
unfolding write_each
write_flat [] = refl
write_flat ((f, v) ∷ m) =
    ap (λ t. write_bytes f ++ (write_bytes v ++ t)) (write_flat m)
    ∙ sym (append_assoc (write_bytes f) (write_bytes v) (write_each write_pair m))

pub half_flat : (m : GoMap Bytes) → length (flat m) ≡ 2 * length m
half_flat [] = omega arith
half_flat ((f, v) ∷ m) = omega (arith, half_flat m)

abbrev pub IsSmallPair : Bytes × Bytes → Type 0
IsSmallPair (f, v) = IsSmall f × IsSmall v

pub small_pairs : (m : GoMap Bytes) → All IsSmall (flat m) → All IsSmallPair m
small_pairs [] h = tt
small_pairs ((f, v) ∷ m) h = ((h.0, h.1.0), small_pairs m h.1.1)

pub read_pair-write :
    (x : Bytes × Bytes) (rest : Bytes)
    → IsSmallPair x
    → read_pair (write_pair x ++ rest) ≡ ok x rest
read_pair-write (f, v) rest (hf, hv) =
    rw
      (
        append_assoc (write_bytes f) (write_bytes v) rest,
        read_bytes-write f (write_bytes v ++ rest) hf,
        read_bytes-write v rest hv,
      )
      refl
