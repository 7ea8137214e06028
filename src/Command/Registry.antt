-- ===== src/Command/Registry.antt =====
-- internal/command/registry.go: the command table, built at boot and read-only afterwards.
pub mod Spellings
use memcore.Base.{
  ℕ, suc, ◌+◌, ◌≤◌, ◌≡◌, refl, ap, ◌∙◌, true, false, ◌&&◌, Option, none, some, List, [], ◌∷◌, ◌++◌,
  arith, length, leb, ltb, if◌then◌else◌, Bytes, bytes_eq, bytes_eq_refl, bytes_eq→eq, codes,
  Bool-cases, inl, inr,
}
use memcore.Base.GoMap
use memcore.Base.GoMap.{GoMap, get-put, none_of_has}
use memcore.Command.{Command, accepts}
use memcore.Resp.Reply.{Reply, error}

abbrev pub max_command_name_len : ℕ
max_command_name_len = 32

-- One byte of the name, an upper-case ASCII letter made lower-case.
abbrev pub fold_byte : ℕ → ℕ
fold_byte b = if leb b'A' b && leb b b'Z' then b + 32 else b

abbrev pub fold : Bytes → Bytes
fold [] = []
fold (b ∷ bs) = fold_byte b ∷ fold bs

module _ (H : Type 0) where
  abbrev pub Registry : Type 0
  Registry = GoMap (Command H)

  -- `Resolve`: the command, or the error reply.
  pub data Resolved : Type 0 where
    found : Command H → Resolved
    refused : Reply → Resolved

module _ {H : Type 0} where
  -- A name that is there already panics, here `none`.
  unfoldable pub register : Registry H → List (Command H) → Option (Registry H)
  register r [] = some r
  register r (c ∷ cs) =
      let rest = register (GoMap.put c.name c r) cs in if GoMap.has c.name r then none else rest

  unfoldable pub lookup_fold : Registry H → Bytes → Option (Command H)
  lookup_fold r [] = none
  lookup_fold r (b ∷ bs) =
      if ltb max_command_name_len (length (b ∷ bs)) then none else GoMap.get (fold (b ∷ bs)) r

  abbrev pub resolve_found : Option (Command H) → Bytes → ℕ → Resolved H
  resolve_found none name n = refused (error (codes "ERR unknown command '" ++ (name ++ codes "'")))
  resolve_found (some c) name n =
      if accepts c n
      then found c
      else refused
          (error (codes "ERR wrong number of arguments for '" ++ (c.name ++ codes "' command")))

  unfoldable pub resolve : Registry H → List Bytes → Resolved H
  unfolding lookup_fold
  resolve r [] = refused (error (codes "ERR empty command"))
  resolve r (name ∷ args) = resolve_found (lookup_fold r name) name (length (name ∷ args))

module _ {H D : Type 0} (run : H → D → List Bytes → D × Reply) where
  abbrev pub dispatched : D → List Bytes → Resolved H → D × Reply
  dispatched d args (refused reply) = (d, reply)
  dispatched d args (found c) = run c.run d args

  -- `Dispatch`: `D` is what the handlers work on.
  unfoldable pub dispatch : Registry H → D → List Bytes → D × Reply
  unfolding resolve
  dispatch r d args = dispatched d args (resolve r args)

fold_byte-fold_byte : (b : ℕ) → fold_byte (fold_byte b) ≡ fold_byte b
fold_byte-fold_byte b = ground arith

fold-fold : (bs : Bytes) → fold (fold bs) ≡ fold bs
fold-fold [] = refl
fold-fold (b ∷ bs) =
    ap (λ t. t ∷ fold (fold bs)) (fold_byte-fold_byte b) ∙ ap (λ t. fold_byte b ∷ t) (fold-fold bs)

length-fold : (bs : Bytes) → length (fold bs) ≡ length bs
length-fold [] = refl
length-fold (b ∷ bs) = ap suc (length-fold bs)

module _ {H : Type 0} where
  -- A name in any case finds what it finds in lower case.
  lookup_fold-fold :
      (r : Registry H) (name : Bytes) → lookup_fold r (fold name) ≡ lookup_fold r name
  unfolding lookup_fold
  lookup_fold-fold r [] = refl
  lookup_fold-fold r (b ∷ bs) = rw (length-fold bs, fold_byte-fold_byte b, fold-fold bs)

  register_step :
      (c : Command H) (cs : List (Command H)) (r r' : Registry H)
      → register r (c ∷ cs) ≡ some r'
      → (GoMap.has c.name r ≡ false) × (register (GoMap.put c.name c r) cs ≡ some r')
  unfolding register
  register_step c cs r r' e = elim (Bool-cases (GoMap.has c.name r)) [
    | inl y ↦ cc (rw y at e)
    | inr n ↦ (n, rw n at e)
  ]

  put_elsewhere :
      (k : Bytes) (x c : Command H) (r : Registry H)
      → GoMap.has x.name r ≡ false
      → GoMap.get k r ≡ some c
      → GoMap.get k (GoMap.put x.name x r) ≡ some c
  put_elsewhere k x c r n g = elim (Bool-cases (bytes_eq x.name k)) [
    | inl y ↦
        let same : x.name ≡ k = bytes_eq→eq x.name k y in cc (none_of_has k r (rw (← same) n), g)
    | inr m ↦ get-put x.name k x r ∙ rw m g
  ]

  register-keeps :
      (cs : List (Command H)) (r r' : Registry H) (k : Bytes) (c : Command H)
      → register r cs ≡ some r'
      → GoMap.get k r ≡ some c
      → GoMap.get k r' ≡ some c
  register-keeps [] r r' k c e g =
      let same : r ≡ r' = unfold register in ground (arith, e) in rw (← same) g
  register-keeps (x ∷ cs) r r' k c e g =
      let (new, rest) = register_step x cs r r' e in
      register-keeps cs (GoMap.put x.name x r) r' k c rest (put_elsewhere k x c r new g)

  pub register-get :
      (before after : List (Command H)) (c : Command H) (r r' : Registry H)
      → register r (before ++ (c ∷ after)) ≡ some r'
      → GoMap.get c.name r' ≡ some c
  register-get [] after c r r' e =
      let (new, rest) = register_step c after r r' e in
      register-keeps after (GoMap.put c.name c r) r' c.name c rest
        (get-put c.name c.name c r ∙ rw (bytes_eq_refl c.name))
  register-get (x ∷ before) after c r r' e =
      register-get before after c (GoMap.put x.name x r) r'
        (register_step x (before ++ (c ∷ after)) r r' e).1

  pub lookup_fold-get :
      (r : Registry H) (name : Bytes)
      → 1 ≤ length name
      → length name ≤ max_command_name_len
      → lookup_fold r name ≡ GoMap.get (fold name) r
  unfolding lookup_fold
  lookup_fold-get r [] one few = absurd (omega arith)
  lookup_fold-get r (b ∷ bs) one few =
      let fits : ltb max_command_name_len (length (b ∷ bs)) ≡ false = ground arith in rw fits

  resolve_found_only :
      (o : Option (Command H)) (name : Bytes) (n : ℕ) (c : Command H)
      → resolve_found o name n ≡ found c
      → (o ≡ some c) × (accepts c n ≡ true)
  resolve_found_only none name n c e = cc
  resolve_found_only (some x) name n c e = elim (Bool-cases (accepts x n)) [
    | inl y ↦ let same : found x ≡ found c = rw y at e in ground (arith, same, y)
    | inr m ↦ cc (rw m at e)
  ]

  -- What `Resolve` finds is the command under the folded name, and the number of arguments satisfies
  -- its arity.
  pub resolve-found :
      (r : Registry H) (name : Bytes) (args : List Bytes) (c : Command H)
      → resolve r (name ∷ args) ≡ found c
      → (lookup_fold r (fold name) ≡ some c) × (accepts c (length (name ∷ args)) ≡ true)
  unfolding resolve
  resolve-found r name args c e =
      let (o, ok) = resolve_found_only (lookup_fold r name) name (length (name ∷ args)) c e in
      (lookup_fold-fold r name ∙ o, ok)
