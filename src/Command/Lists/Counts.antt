-- ===== src/Command/Lists/Counts.antt =====
-- What the arguments of LPOP and RPOP ask for.
use memcore.Base.{
  ℕ, ◌≤◌, ◌<◌, ◌≡◌, refl, ap, ◌∙◌, true, Option, none, some, List, [], ◌∷◌, ◌++◌, arith, length,
  get_or, ltb, Bytes, codes,
}
use memcore.Base.Int.{ℤ, pos, negsuc}
use memcore.Base.Decimal.{parse_int}
use memcore.Resp.Reply.{Reply, error}
use memcore.Command.Lists.{Count, single, many, rejected, count_of, parse_count}

-- The arguments, the command's name among them, that are refused, with the reply.
pub data Refused (args : List Bytes) (r : Reply) : Type 0 where
  too_many :
      3 < length args
      → r
        ≡ error
            (codes "ERR wrong number of arguments for '" ++ (get_or args 0 [] ++ codes "' command"))
      → Refused args r
  not_a_number :
      length args ≡ 3
      → parse_int (get_or args 2 []) ≡ none
      → r ≡ error (codes "ERR value is not an integer or out of range")
      → Refused args r
  below_zero :
      (n : ℕ)
      → length args ≡ 3
      → parse_int (get_or args 2 []) ≡ some (negsuc n)
      → r ≡ error (codes "ERR value is out of range, must be positive")
      → Refused args r

-- The name and the key ask for one element; a third argument that is the text of a number from 0 on
-- asks for so many; all else is refused.
abbrev pub Asked : List Bytes → Count → Type 0
Asked args single = length args ≡ 2
Asked args (many n) = (length args ≡ 3) × (parse_int (get_or args 2 []) ≡ some (pos n))
Asked args (rejected r) = Refused args r

parse_count-three :
    (args : List Bytes)
    → length args ≡ 3
    → parse_count args ≡ count_of (parse_int (get_or args 2 []))
unfolding parse_count
parse_count-three args e = rw e refl

parse_count-Refused :
    (args : List Bytes) (r : Reply) → Refused args r → parse_count args ≡ rejected r
parse_count-Refused args r (too_many more e) =
    let many_args : ltb 3 (length args) ≡ true = ground arith in
    unfold parse_count in rw (many_args, e) refl
parse_count-Refused args r (not_a_number three p e) =
    parse_count-three args three ∙ ap count_of p ∙ ap rejected (rw e refl)
parse_count-Refused args r (below_zero n three p e) =
    parse_count-three args three ∙ ap count_of p ∙ ap rejected (rw e refl)

pub parse_count-Asked :
    (args : List Bytes) (count : Count) → Asked args count → parse_count args ≡ count
parse_count-Asked args single two = unfold parse_count in rw two refl
parse_count-Asked args (many n) (three, p) = parse_count-three args three ∙ ap count_of p
parse_count-Asked args (rejected r) refused = parse_count-Refused args r refused

asks_three :
    (args : List Bytes) (o : Option ℤ)
    → parse_int (get_or args 2 []) ≡ o
    → length args ≡ 3
    → (count : Count) × Asked args count
asks_three args none p three = (
  rejected (error (codes "ERR value is not an integer or out of range")),
  not_a_number three p refl,
)
asks_three args (some (pos n)) p three = (many n, (three, p))
asks_three args (some (negsuc n)) p three = (
  rejected (error (codes "ERR value is out of range, must be positive")),
  below_zero n three p refl,
)

-- Every request that passes the arity check asks for something.
pub asks : (args : List Bytes) → 2 ≤ length args → (count : Count) × Asked args count
asks [] h = absurd (omega arith)
asks (a ∷ []) h = absurd (omega arith)
asks (a ∷ b ∷ []) h = (single, refl)
asks (a ∷ b ∷ c ∷ []) h = asks_three (a ∷ b ∷ c ∷ []) (parse_int c) refl refl
asks (a ∷ b ∷ c ∷ d ∷ rest) h = (
  rejected (error (codes "ERR wrong number of arguments for '" ++ (a ++ codes "' command"))),
  too_many (omega arith) refl,
)
