-- ===== src/Value/Hash/Represents.antt =====
-- What it means that a hash stands for a map, and how a hash is promoted.
use memcore.Base.{
  ℕ, ◌≤◌, ◌≡◌, refl, ap, ◌∙◌, Bool, true, false, ltb, none, some, [], ◌∷◌, arith, length,
  if◌then◌else◌, Bytes, bytes_eq, All, Bool-cases, inl, inr,
}
use memcore.Base.GoMap
use memcore.Base.GoMap.{GoMap, put-new, none_of_has, put-IsDistinct, length-put}
use memcore.Value.Limits.{Thresholds, exceeded, exceeded-false}
use memcore.Value.Pack.{pack_of, Fits}
use memcore.Value.Hash.{
  FullHash, PackHash, new_hash, scan_pairs, collect, promoted, promote, promote_if_needed,
  with_flag, flat,
}
use memcore.Value.Hash.Scans.{scan_pairs-pack}
use memcore.Value.Hash.Folds.{fold-collect}

abbrev pub IsShort : Thresholds → Bytes → Type 0
IsShort t e = length e ≤ t.max_bytes

-- The hash `h` stands for the map `m`: the pack holds its pairs, or the map is it.
pub record Holds (h : PackHash) (m : GoMap Bytes) : Type 0 where
  pub distinct : GoMap.IsDistinct m
  pub fits : All Fits (flat m)
  pub packed : h.full ≡ none → (h.pack ≡ pack_of (flat m)) × (h.count ≡ length m)
  pub mapped : (f : FullHash) → h.full ≡ some f → f.fields ≡ m
  pub small : h.full ≡ none → (length m ≤ h.max.max_entries) × All (IsShort h.max) (flat m)

pub new_hash-Holds : (max : Thresholds) → Holds (new_hash max) []
unfolding new_hash
new_hash-Holds max = record {
  distinct = tt;
  fits = tt;
  packed = λ _. (refl, refl);
  mapped = λ f e. cc;
  small = λ _. (omega arith, tt);
}

pub All-flat-put {κ} :
    (P : Bytes → Type κ) (k v : Bytes) (m : GoMap Bytes)
    → P k
    → P v
    → All P (flat m)
    → All P (flat (GoMap.put k v m))
All-flat-put P k v [] pk pv h = unfold GoMap.put in (pk, (pv, h))
All-flat-put P k v ((i, w) ∷ m) pk pv h = elim (Bool-cases (bytes_eq i k)) [
  | inl e ↦ rw (GoMap.put-head k i w v m e) (h.0, (pv, h.1.1))
  | inr e ↦ rw (GoMap.put-skip k i w v m e) (h.0, (h.1.0, All-flat-put P k v m pk pv h.1.1))
]

full_hash : PackHash → GoMap Bytes → PackHash
full_hash h m = record h { pack = []; count = 0; full = some (record { fields = m }) }

promote-packed :
    (h : PackHash) (m : GoMap Bytes)
    → h.pack ≡ pack_of (flat m)
    → All Fits (flat m)
    → GoMap.IsDistinct m
    → promote h ≡ some (full_hash h m)
unfolding promote full_hash
promote-packed h m p fits d =
    ap (λ t. promoted h (scan_pairs collect t [])) p
    ∙ ap (promoted h) (scan_pairs-pack collect m [] fits ∙ ap some (fold-collect m [] d))

full_hash-Holds :
    (h : PackHash) (m : GoMap Bytes)
    → GoMap.IsDistinct m
    → All Fits (flat m)
    → Holds (full_hash h m) m
unfolding full_hash
full_hash-Holds h m d fits = record {
  distinct = d;
  fits = fits;
  packed = λ p. cc;
  mapped = λ f p. ground (arith, p);
  small = λ p. cc;
}

abbrev bigger : ℕ → ℕ → ℕ
bigger a b = if ltb a b then b else a

promote_if-grows :
    (h h' : PackHash) (a b : ℕ)
    → exceeded h.max h.count (bigger a b) ≡ true
    → promote h ≡ some h'
    → promote_if_needed h a b ≡ some h'
unfolding promote_if_needed
promote_if-grows h h' a b e p = rw e p

promote_if-stays :
    (h : PackHash) (a b : ℕ)
    → exceeded h.max h.count (bigger a b) ≡ false
    → promote_if_needed h a b ≡ some h
unfolding promote_if_needed
promote_if-stays h a b e = rw e

within :
    (t : Thresholds) (count a b : ℕ)
    → exceeded t count (bigger a b) ≡ false
    → (count ≤ t.max_entries) × (a ≤ t.max_bytes) × (b ≤ t.max_bytes)
within t count a b e = ground (arith, exceeded-false t count (bigger a b) e)

-- A packed hash that holds `m'`, behind the test for promotion.
pub settled :
    (h : PackHash) (m' : GoMap Bytes) (a b : ℕ) (fresh : Bool)
    → h.full ≡ none
    → h.pack ≡ pack_of (flat m')
    → h.count ≡ length m'
    → GoMap.IsDistinct m'
    → All Fits (flat m')
    → (a ≤ h.max.max_bytes → b ≤ h.max.max_bytes → All (IsShort h.max) (flat m'))
    → (h' : PackHash) × (with_flag fresh (promote_if_needed h a b) ≡ some (h', fresh)) × Holds h' m'
settled h m' a b fresh none' p c d fits short =
    elim (Bool-cases (exceeded h.max h.count (bigger a b))) [
      | inl e ↦ (
        full_hash h m',
        ap (with_flag fresh)
            (promote_if-grows h (full_hash h m') a b e (promote-packed h m' p fits d)),
        full_hash-Holds h m' d fits,
      )
      | inr e ↦ (
        h,
        ap (with_flag fresh) (promote_if-stays h a b e),
        record {
          distinct = d;
          fits = fits;
          packed = λ _. (p, c);
          mapped = λ f q. cc;
          small = λ _.
              let (count, la, lb) = within h.max h.count a b e in (rw (← c) count, short la lb);
        },
      )
    ]
