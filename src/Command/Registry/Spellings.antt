-- ===== src/Command/Registry/Spellings.antt =====
-- Lookup in the command table against the names that a client may send.
use memcore.Base.{
  ℕ, suc, ◌+◌, ◌≤◌, ◌<◌, ◌≡◌, ◌⊎◌, refl, ap, ◌∙◌, true, some, List, [], ◌∷◌, ◌++◌, arith, length,
  Bytes, inl, inr,
}
use memcore.Base.Int.{ℤ, pos, negsuc}
use memcore.Base.GoMap
use memcore.Command.{Command, accepts_arity, accepts}
use memcore.Command.Registry.{
  fold_byte, fold, Registry, found, register, resolve, resolve_found, register-get, lookup_fold-get,
}

-- The byte `b` spells the byte `k` of a command's name: it is the same byte, not an upper-case ASCII
-- letter, or `k` is a lower-case letter and `b` the upper-case one.
abbrev pub SameLetter : ℕ → ℕ → Type 0
SameLetter b k = ((b ≡ k) × ((k < 65) ⊎ (90 < k))) ⊎ ((97 ≤ k) × (k ≤ 122) × (b + 32 ≡ k))

-- Byte by byte.
abbrev pub Spells : Bytes → Bytes → Type 0
Spells [] [] = Unit {0}
Spells [] (k ∷ ks) = ⊥
Spells (b ∷ bs) [] = ⊥
Spells (b ∷ bs) (k ∷ ks) = SameLetter b k × Spells bs ks

-- `n` arguments, the name among them, for an arity: exactly so many, or for -m at least m.
abbrev pub Suits : ℤ → ℕ → Type 0
Suits (pos a) n = n ≡ a
Suits (negsuc a) n = suc a ≤ n

fold_byte-SameLetter : (b k : ℕ) → SameLetter b k → fold_byte b ≡ k
fold_byte-SameLetter b k (inl (same, inl low)) = ground arith
fold_byte-SameLetter b k (inl (same, inr high)) = ground arith
fold_byte-SameLetter b k (inr (lo, hi, up)) = ground arith

fold-Spells : (name known : Bytes) → Spells name known → fold name ≡ known
fold-Spells [] [] h = refl
fold-Spells [] (k ∷ ks) h = absurd h
fold-Spells (b ∷ bs) [] h = absurd h
fold-Spells (b ∷ bs) (k ∷ ks) (letter, rest) =
    ap (λ t. t ∷ fold bs) (fold_byte-SameLetter b k letter)
    ∙ ap (λ t. k ∷ t) (fold-Spells bs ks rest)

accepts_arity-Suits : (arity : ℤ) (n : ℕ) → Suits arity n → accepts_arity arity n ≡ true
accepts_arity-Suits (pos a) n h = ground arith
accepts_arity-Suits (negsuc a) n h = ground arith

module _ {H : Type 0} where
  -- A command of the list that the table was built from without a panic is what `Resolve` finds for
  -- a request of a name of 1 to 32 bytes that spells the command's name byte by byte, each
  -- lower-case letter of it in either case and each other byte, which is no upper-case letter, as
  -- it is, with as many arguments as the arity asks for: exactly so many, or for a negative arity
  -- at least so many.
  pub resolve-register :
      (before after : List (Command H)) (c : Command H) (r r' : Registry H) (name : Bytes)
      (args : List Bytes)
      → register r (before ++ (c ∷ after)) ≡ some r'
      → Spells name c.name
      → 1 ≤ length name
      → length name ≤ 32
      → Suits c.arity (length (name ∷ args))
      → resolve r' (name ∷ args) ≡ found c
  unfolding resolve accepts
  resolve-register before after c r r' name args e spelled one few suits =
      ap (λ o. resolve_found o name (length (name ∷ args)))
        (lookup_fold-get r' name one few
          ∙ ap (λ k. GoMap.get k r') (fold-Spells name c.name spelled)
          ∙ register-get before after c r r' e)
      ∙ rw (accepts_arity-Suits c.arity (length (name ∷ args)) suits)
