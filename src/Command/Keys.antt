-- ===== src/Command/Keys.antt =====
-- The keys that the executor locks for a command: the fast path for one key, and the whole list.
use memcore.Base.{
  ℕ, zero, suc, ◌+◌, ◌≤◌, ◌<◌, ◌≡◌, refl, sym, ap, ◌∙◌, true, false, ◌||◌, some, List, [], ◌∷◌,
  arith, length, drop, get_or, ltb, ◌==◌, Bytes, Bool-cases, inl, inr,
}
use memcore.Base.Int.{ℤ, pos, negsuc, eq_of_parts, ltb_ℤ}
use memcore.Command.{
  Command, single_key, keys_from, last_index, keys_to, keys, read_keys, write_keys,
}
use memcore.Shard.{Db, index, shard_set}

drop_at :
    (i : ℕ) (args : List Bytes)
    → i < length args
    → drop i args ≡ get_or args i [] ∷ drop (i + 1) args
drop_at i [] h = absurd (omega arith)
drop_at zero (a ∷ args) h = refl
drop_at (suc i) (a ∷ args) h =
    let next : suc (i + 1) ≡ suc i + 1 = omega arith in
    drop_at i args (omega arith) ∙ ap (λ n. get_or args i [] ∷ drop n (a ∷ args)) next

drop_all : (i : ℕ) (args : List Bytes) → length args ≤ i → [] ≡ drop i args
drop_all zero [] h = refl
drop_all (suc i) [] h = refl
drop_all zero (a ∷ args) h = absurd (omega arith)
drop_all (suc i) (a ∷ args) h = drop_all i args (omega arith)

keys_from-stop :
    (fuel i last : ℕ) (args : List Bytes) → last < i → keys_from fuel i last 1 args ≡ []
unfolding keys_from
keys_from-stop zero i last args h = refl
keys_from-stop (suc fuel) i last args h = let y : ltb last i ≡ true = ground arith in rw y

keys_from-go :
    (fuel i last : ℕ) (args : List Bytes)
    → i ≤ last
    → keys_from (suc fuel) i last 1 args ≡ get_or args i [] ∷ keys_from fuel (i + 1) last 1 args
unfolding keys_from
keys_from-go fuel i last args h = let n : ltb last i ≡ false = ground arith in rw n

-- The loop with step 1 over all of the indices gives the end of the arguments.
keys_from-drop :
    (fuel i last : ℕ) (args : List Bytes)
    → length args ≡ suc last
    → suc last ≤ fuel + i
    → keys_from fuel i last 1 args ≡ drop i args
keys_from-drop zero i last args e f =
    keys_from-stop zero i last args (omega arith) ∙ drop_all i args (omega arith)
keys_from-drop (suc fuel) i last args e f = elim (Bool-cases (ltb last i)) [
  | inl y ↦ keys_from-stop (suc fuel) i last args (ground arith) ∙ drop_all i args (ground arith)
  | inr n ↦
      keys_from-go fuel i last args (ground arith)
      ∙ ap (λ t. get_or args i [] ∷ t) (keys_from-drop fuel (i + 1) last args e (omega arith))
      ∙ sym (drop_at i args (ground arith))
]

last_of_all : (n : ℕ) → last_index (negsuc 0) (suc n) ≡ pos n
unfolding last_index
last_of_all n = ground arith

last_of_one : (n : ℕ) → 2 ≤ n → last_index (pos 1) n ≡ pos 1
unfolding last_index
last_of_one n h = ground arith

keys_to-span :
    (args : List Bytes) (last : ℕ)
    → length args ≡ suc last
    → keys_to false 1 (pos last) 1 args ≡ some (drop 1 args)
keys_to-span args last e = elim (Bool-cases (ltb_ℤ (pos last) (pos 1))) [
  | inl y ↦ rw y (ap some (drop_all 1 args (ground arith)))
  | inr n ↦ rw n (ap some (keys_from-drop (suc last) 1 last args e (omega arith)))
]

keys_to-one : (args : List Bytes) → keys_to false 1 (pos 1) 1 args ≡ some (get_or args 1 [] ∷ [])
keys_to-one args = ap some (
    keys_from-go 1 1 1 args (omega arith)
    ∙ ap (λ t. get_or args 1 [] ∷ t) (keys_from-stop 1 2 1 args (omega arith)))

module _ {H : Type 0} where
  -- An entry of `readKeys` or `writeKeys` touches exactly the arguments behind the command's name,
  -- in their order, without a panic.
  pub keys-spans :
      (name : Bytes) (arity : ℤ) (run : H) (args : List Bytes)
      → (keys (read_keys name arity run) args ≡ some (drop 1 args))
        × (keys (write_keys name arity run) args ≡ some (drop 1 args))
  unfolding keys read_keys write_keys
  keys-spans name arity run [] = unfold last_index in (refl, refl)
  keys-spans name arity run (a ∷ args) =
      let e =
        ap (λ t. keys_to false 1 t 1 (a ∷ args)) (last_of_all (length args))
        ∙ keys_to-span (a ∷ args) (length args) refl in
      (e, e)

  -- For a command of the executor's fast path, with two arguments at least, the general path
  -- touches the key at index 1 and no other, and locks the one shard that owns it, whatever the
  -- hash.
  pub single_key-keys :
      {V : Type 0} (hash : Bytes → ℕ) (db : Db V) (c : Command H) (args : List Bytes)
      → single_key c ≡ true
      → 2 ≤ length args
      → (keys c args ≡ some (get_or args 1 [] ∷ []))
        × (shard_set hash db (get_or args 1 [] ∷ []) ≡ index hash db (get_or args 1 []) ∷ [])
  unfolding keys single_key shard_set
  single_key-keys hash db c args one two =
      let first : c.first_key ≡ 1 = ground arith in
      let last : c.last_key ≡ pos 1 = eq_of_parts c.last_key (pos 1) (ground arith) in
      let step : c.key_step ≡ 1 = ground arith in
      let part : c.whole_db ≡ false = ground arith in
      (
        ap
              (λ f.
                keys_to ((f == 0) || c.whole_db) f (last_index c.last_key (length args)) c.key_step
                  args)
              first
            ∙ ap (λ w. keys_to w 1 (last_index c.last_key (length args)) c.key_step args) part
            ∙ ap (λ s. keys_to false 1 (last_index c.last_key (length args)) s args) step
            ∙ ap (λ l. keys_to false 1 (last_index l (length args)) 1 args) last
            ∙ ap (λ l. keys_to false 1 l 1 args) (last_of_one (length args) two)
            ∙ keys_to-one args,
        refl,
      )
