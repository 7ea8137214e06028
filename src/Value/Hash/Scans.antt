-- ===== src/Value/Hash/Scans.antt =====
-- What the scans over the pack of a hash compute, when the pack holds the pairs of a map.
use memcore.Base.{
  ◌≡◌, refl, sym, ap, ◌∙◌, Bool, true, false, some, [], ◌∷◌, Bytes, All, Bool-cases, inl, inr,
}
use memcore.Base.GoMap.{GoMap}
use memcore.Value.Pack.{pack_of, Fits, each, each-go, each-stop, pack_each-pack}
use memcore.Value.Hash.{pair_step, captured, scan_pairs, flat}

module _ {ℓ} {S : Type ℓ} (fn : S → Bytes → Bytes → S × Bool) where
  -- The loop over the pairs themselves.
  unfoldable pub each_pair : GoMap Bytes → S → S
  each_pair [] s = s
  each_pair ((f, v) ∷ m) s = elim (fn s f v).1 [
    | true ↦ each_pair m (fn s f v).0
    | false ↦ (fn s f v).0
  ]

  pub each_pair-go :
      (f v : Bytes) (m : GoMap Bytes) (s s' : S)
      → fn s f v ≡ (s', true)
      → each_pair ((f, v) ∷ m) s ≡ each_pair m s'
  unfolding each_pair
  each_pair-go f v m s s' p =
      let again : (fn s f v).1 ≡ true = ap (λ t. t.1) p in
      let next : (fn s f v).0 ≡ s' = ap (λ t. t.0) p in rw (again, next, each_pair)

  pub each_pair-stop :
      (f v : Bytes) (m : GoMap Bytes) (s s' : S)
      → fn s f v ≡ (s', false)
      → each_pair ((f, v) ∷ m) s ≡ s'
  unfolding each_pair
  each_pair-stop f v m s s' p =
      let halt : (fn s f v).1 ≡ false = ap (λ t. t.1) p in
      let next : (fn s f v).0 ≡ s' = ap (λ t. t.0) p in rw (halt, next, each_pair)

  each-pairs :
      (m : GoMap Bytes) (field : Bytes) (s : S)
      → (each (pair_step fn) (flat m) ((field, false), s)).1 ≡ each_pair m s
  each-pairs [] field s = unfold each each_pair in refl
  each-pairs ((f, v) ∷ m) field s =
      ap (λ t. t.1) (each-go (pair_step fn) f (v ∷ flat m) ((field, false), s) ((f, true), s) refl)
      ∙ elim (Bool-cases (fn s f v).1) [
        | inl e ↦
            ap (λ t. t.1)
              (each-go (pair_step fn) v (flat m) ((f, true), s) ((f, false), (fn s f v).0) (rw e))
            ∙ each-pairs m f (fn s f v).0
            ∙ sym (each_pair-go f v m s (fn s f v).0 (ap (λ t. ((fn s f v).0, t)) e))
        | inr e ↦
            ap (λ t. t.1)
              (each-stop (pair_step fn) v (flat m) ((f, true), s) ((f, false), (fn s f v).0) (rw e))
            ∙ sym (each_pair-stop f v m s (fn s f v).0 (ap (λ t. ((fn s f v).0, t)) e))
      ]

  -- On a pack of pairs the scan ends, panics nowhere, and is the loop over the pairs.
  pub scan_pairs-pack :
      (m : GoMap Bytes) (s : S)
      → All Fits (flat m)
      → scan_pairs fn (pack_of (flat m)) s ≡ some (each_pair m s)
  unfolding scan_pairs
  scan_pairs-pack m s h =
      ap (captured fn) (pack_each-pack (pair_step fn) (flat m) (([], false), s) h)
      ∙ ap some (each-pairs m [] s)
