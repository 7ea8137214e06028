-- ===== src/Base/Decimal.antt =====
-- Decimal numbers of Go's strconv: `append_int` is `AppendInt` in base 10, and `parse_int` is `Atoi`,
-- which on 64 bits is `ParseInt` in base 10.
use memcore.Base.{
  ℕ, zero, suc, ◌+◌, ◌-◌, ◌*◌, ◌/◌, ◌%◌, ◌^◌, ◌≤◌, ◌<◌, ◌≡◌, refl, ap, ◌∙◌, Bool, ◌&&◌, Option,
  none, some, [], ◌∷◌, ◌++◌, arith, ltb, leb, ◌==◌, if◌then◌else◌, length, length-append,
  Bool-cases, inl, inr, Bytes, All, All-append,
}
use memcore.Base.Int.{ℤ, pos, negsuc, IsInt64}

-- The digits of a number below 10 ^ (k + 1).
unfoldable pub put_digits : ℕ → ℕ → Bytes
put_digits zero n = (48 + n % 10) ∷ []
put_digits (suc k) n =
    let front = put_digits k (n / 10) in
    if ltb n 10 then (48 + n) ∷ [] else front ++ ((48 + n % 10) ∷ [])

-- Twenty digits hold 64 bits.
unfoldable pub append_uint : ℕ → Bytes
unfolding put_digits
append_uint n = put_digits 19 n

unfoldable pub append_int : ℤ → Bytes
unfolding append_uint
append_int (pos n) = append_uint n
append_int (negsuc n) = b'-' ∷ append_uint (suc n)

is_digit : ℕ → Bool
is_digit b = leb b'0' b && leb b b'9'

-- The digits behind what is read so far.
unfoldable pub digits : ℕ → Bytes → Option ℕ
unfolding is_digit
digits n [] = some n
digits n (b ∷ bs) = let rest = digits (n * 10 + (b - 48)) bs in if is_digit b then rest else none

unfoldable pub parse_digits : Bytes → Option ℕ
unfolding digits
parse_digits [] = none
parse_digits (b ∷ bs) = digits 0 (b ∷ bs)

abbrev pub positive : Option ℕ → Option ℤ
positive none = none
positive (some n) = if ltb n (2 ^ 63) then some (pos n) else none

abbrev pub negative : Option ℕ → Option ℤ
negative none = none
negative (some zero) = some (pos 0)
negative (some (suc n)) = if ltb n (2 ^ 63) then some (negsuc n) else none

unfoldable pub parse_int : Bytes → Option ℤ
unfolding parse_digits
parse_int [] = none
parse_int (b ∷ bs) =
    if b == b'-'
    then negative (parse_digits bs)
    else if b == b'+'
    then positive (parse_digits bs)
    else positive (parse_digits (b ∷ bs))

abbrev pub IsDigit : ℕ → Type 0
IsDigit b = (48 ≤ b) × (b ≤ 57)

abbrev snoc : Option ℕ → ℕ → Option ℕ
snoc none d = none
snoc (some n) d = some (n * 10 + d)

digits-snoc :
    (bs : Bytes) (a d : ℕ) → d < 10 → digits a (bs ++ ((48 + d) ∷ [])) ≡ snoc (digits a bs) d
unfolding digits
digits-snoc [] a d h = ground arith
digits-snoc (b ∷ bs) a d h = ground (arith, digits-snoc bs (a * 10 + (b - 48)) d h)

digits_one : (n : ℕ) → n < 10 → digits 0 ((48 + n) ∷ []) ≡ some n
unfolding digits
digits_one n h = ground arith

digits-put : (k n : ℕ) → n < 10 ^ suc k → digits 0 (put_digits k n) ≡ some n
unfolding put_digits
digits-put zero n h = unfold digits in ground arith
digits-put (suc k) n h = ground (
  arith,
  digits-put k (n / 10) (omega arith),
  digits-snoc (put_digits k (n / 10)) 0 (n % 10) (omega arith),
  digits_one n,
)

-- What is written is digits, one at least.
pub put_digits-IsDigit :
    (k n : ℕ)
    → All IsDigit (put_digits k n)
      × (1 ≤ length (put_digits k n))
      × (length (put_digits k n) ≤ suc k)
unfolding put_digits
put_digits-IsDigit zero n = (omega arith, omega arith, omega arith)
put_digits-IsDigit (suc k) n = elim (Bool-cases (ltb n 10)) [
  | inl y ↦ rw y (ground arith, omega arith, omega arith)
  | inr m ↦
      let (front, lo, hi) = put_digits-IsDigit k (n / 10) in
      let size = length-append (put_digits k (n / 10)) ((48 + n % 10) ∷ []) in
      rw m (
        All-append IsDigit (put_digits k (n / 10)) ((48 + n % 10) ∷ []) front (omega arith),
        omega (arith, size),
        omega (arith, size),
      )
]

-- Text that starts with a digit is read as digits.
parse_int-digits :
    (bs : Bytes) → 1 ≤ length bs → All IsDigit bs → parse_int bs ≡ positive (digits 0 bs)
unfolding parse_int
parse_int-digits [] l h = absurd (omega arith)
parse_int-digits (b ∷ bs) l h = ground (arith, h.0)

parse_int-minus : (bs : Bytes) → 1 ≤ length bs → parse_int (b'-' ∷ bs) ≡ negative (digits 0 bs)
unfolding parse_int
parse_int-minus [] l = absurd (omega arith)
parse_int-minus (b ∷ bs) l = refl

-- `Atoi` reads back the `int64` that `AppendInt` wrote.
pub parse_int-append_int : (n : ℤ) → IsInt64 n → parse_int (append_int n) ≡ some n
unfolding append_int append_uint
parse_int-append_int (pos n) h =
    let (all, lo, _) = put_digits-IsDigit 19 n in
    parse_int-digits (put_digits 19 n) lo all
    ∙ ap positive (digits-put 19 n (omega arith))
    ∙ ground arith
parse_int-append_int (negsuc n) h =
    let (_, lo, _) = put_digits-IsDigit 19 (suc n) in
    parse_int-minus (put_digits 19 (suc n)) lo
    ∙ ap negative (digits-put 19 (suc n) (omega arith))
    ∙ ground arith
