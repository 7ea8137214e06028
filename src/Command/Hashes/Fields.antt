-- ===== src/Command/Hashes/Fields.antt =====
-- HSET, HGET, HDEL and HGETALL against the map of fields that a key stands for.
use memcore.Base.{
  ℕ, ◌+◌, ◌≤◌, ◌≡◌, refl, Bool, not, Option, some, List, [], ◌∷◌, arith, length, Bytes,
}
use memcore.Base.GoMap
use memcore.Base.GoMap.{GoMap, length-put, length-delete}
use memcore.Keyspace.{Time, Entry}
use memcore.Value.Pack.{Fits}
use memcore.Value.Hash
use memcore.Value.Hash.{PackHash, new_hash, flat}
use memcore.Value.Hash.Represents.{Holds}
use memcore.Value.Hash.Sets.{set_refines}
use memcore.Value.Hash.Queries.{delete_refines}
use memcore.Value.Union.{Value, hash as hash_value}
use memcore.Command.Loops.{fold, tally}
use memcore.Command.Collections.{Stored}
use memcore.Command.Hashes.{set_pair}

-- A value that is a hash of the fields `m`.
abbrev pub IsHashOf : {Z : Type 0} → Value Z → GoMap Bytes → Type 0
IsHashOf v m = (h : PackHash) × (v ≡ hash_value h) × Holds h m

abbrev pub size : GoMap Bytes → ℕ
size m = length m

abbrev pub Fields : {Z : Type 0} → Option (Entry (Value Z)) → Time → GoMap Bytes → Type 0
Fields o t m = Stored IsHashOf size o t m

-- The fields after HSET, and how many of its pairs have a new field, each beside the ones before it.
abbrev pub put_field : Bytes × Bytes → GoMap Bytes → GoMap Bytes
put_field (f, v) m = GoMap.put f v m

abbrev pub is_new : Bytes × Bytes → GoMap Bytes → Bool
is_new (f, v) m = not (GoMap.has f m)

abbrev pub put_fields : List (Bytes × Bytes) → GoMap Bytes → GoMap Bytes
put_fields fvs m = fold put_field is_new fvs m

abbrev pub new_among : List (Bytes × Bytes) → GoMap Bytes → ℕ
new_among fvs m = tally put_field is_new fvs m

-- The fields after HDEL, and how many of its arguments were there.
abbrev pub delete_field : Bytes → GoMap Bytes → GoMap Bytes
delete_field f m = GoMap.delete f m

abbrev pub is_field : Bytes → GoMap Bytes → Bool
is_field f m = GoMap.has f m

abbrev pub delete_fields : List Bytes → GoMap Bytes → GoMap Bytes
delete_fields fs m = fold delete_field is_field fs m

abbrev pub there_among : List Bytes → GoMap Bytes → ℕ
there_among fs m = tally delete_field is_field fs m

-- The counts are by how much the hash grows and shrinks.
pub length-put_fields :
    (fvs : List (Bytes × Bytes)) (m : GoMap Bytes)
    → length (put_fields fvs m) ≡ new_among fvs m + length m
length-put_fields [] m = omega arith
length-put_fields ((f, v) ∷ fvs) m =
    ground (arith, length-put_fields fvs (GoMap.put f v m), length-put f v m)

pub length-delete_fields :
    (fs : List Bytes) (m : GoMap Bytes) → length m ≡ there_among fs m + length (delete_fields fs m)
length-delete_fields [] m = omega arith
length-delete_fields (f ∷ fs) m =
    ground (arith, length-delete_fields fs (GoMap.delete f m), length-delete f m)

put-some : (f v : Bytes) (m : GoMap Bytes) → 1 ≤ length (GoMap.put f v m)
put-some f v [] = unfold GoMap.put in omega arith
put-some f v (y ∷ m) = ground (arith, length-put f v (y ∷ m))

pub put_fields-some :
    (fvs : List (Bytes × Bytes)) (m : GoMap Bytes) → 1 ≤ length fvs → 1 ≤ length (put_fields fvs m)
put_fields-some [] m h = absurd (omega arith)
put_fields-some ((f, v) ∷ fvs) m h =
    omega (arith, length-put_fields fvs (GoMap.put f v m), put-some f v m)

pub no_fields : (m : GoMap Bytes) → size m ≡ 0 → [] ≡ m
no_fields [] e = refl
no_fields (x ∷ m) e = absurd (omega arith)

pub delete_fields-nil : (fs : List Bytes) → [] ≡ delete_fields fs []
unfolding GoMap.delete
delete_fields-nil [] = refl
delete_fields-nil (f ∷ fs) = delete_fields-nil fs

pub there_among-nil : (fs : List Bytes) → 0 ≡ there_among fs []
unfolding GoMap.delete GoMap.get
there_among-nil [] = refl
there_among-nil (f ∷ fs) = omega (arith, there_among-nil fs)

abbrev pub FitsPair : Bytes × Bytes → Type 0
FitsPair (f, v) = Fits f × Fits v

pub set_step :
    (h : PackHash) (m : GoMap Bytes) (x : Bytes × Bytes)
    → Holds h m
    → FitsPair x
    → (h' : PackHash) × (set_pair h x ≡ some (h', is_new x m)) × Holds h' (put_field x m)
set_step h m (f, v) held (hf, hv) = set_refines h m f v held hf hv

pub delete_step :
    (h : PackHash) (m : GoMap Bytes) (f : Bytes)
    → Holds h m
    → Unit {0}
    → (h' : PackHash) × (Hash.delete h f ≡ some (h', is_field f m)) × Holds h' (delete_field f m)
delete_step h m f held _ = delete_refines h m f held
