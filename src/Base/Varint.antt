-- ===== src/Base/Varint.antt =====
-- Unsigned varints of Go's encoding/binary: seven bits a byte, lowest group first, with the top
-- bit set on every byte but the last. `put_uvarint` is `PutUvarint` and `uvarint` is `Uvarint`.
use native.Mathlib.Numerals.{towards_suc}
use native.Mathlib.Nat.{div-add-mod}
use memcore.Base.{
  ℕ, zero, suc, ◌+◌, ◌*◌, ◌/◌, ◌%◌, ◌^◌, ◌≤◌, ◌<◌, ◌≡◌, ap, [], ◌∷◌, ◌++◌, arith, ltb, ◌==◌, ◌&&◌,
  if◌then◌else◌, length, Bytes,
}

abbrev pub IsU64 : ℕ → Type 0
IsU64 v = v < 2 ^ 64

-- The rounds that are left bound the recursion: ten bytes hold 64 bits.
unfoldable pub put_loop : ℕ → ℕ → Bytes
put_loop zero x = x % 256 ∷ []
put_loop (suc k) x =
    let rest = put_loop k (x / 128) in if ltb x 128 then x ∷ [] else (x % 128 + 128) ∷ rest

unfoldable pub put_uvarint : ℕ → Bytes
unfolding put_loop
put_uvarint x = put_loop 9 x

-- A number with the bytes behind it; the input ended inside it; it does not fit 64 bits.
pub data Varint : Type 0 where
  done : ℕ → Bytes → Varint
  short : Varint
  overflow : Varint

-- `i` counts the bytes read, `s` is the shift of the next group, `x` what is read so far.
unfoldable pub uvarint_loop : Bytes → ℕ → ℕ → ℕ → Varint
uvarint_loop [] i s x = short
uvarint_loop (b ∷ bs) i s x =
    let more = uvarint_loop bs (i + 1) (s + 7) (x + b % 128 * 2 ^ s) in
    if i == 10
    then overflow
    else if ltb b 128
    then (if (i == 9) && ltb 1 b then overflow else done (x + b * 2 ^ s) bs)
    else more

unfoldable pub uvarint : Bytes → Varint
unfolding uvarint_loop
uvarint buf = uvarint_loop buf 0 0 0

-- A number shifted by `e` is its low seven bits shifted by `e`, and the rest by seven more.
pub shifted_groups : (e v : ℕ) → v % 128 * 2 ^ e + v / 128 * 2 ^ (e + 7) ≡ v * 2 ^ e
shifted_groups e v =
    let more : 2 ^ (e + 7) ≡ 128 * 2 ^ e = simp towards_suc (omega arith) in
    let whole = ap (λ (n : ℕ). n * 2 ^ e) (div-add-mod v 128) in
    omega (arith, whole, ap (λ (n : ℕ). v / 128 * n) more)

-- One round on a last byte, and on a byte with the top bit set over the group `g`.
last_byte :
    (w i s x : ℕ) (rest : Bytes)
    → w < 128
    → i ≤ 9
    → s ≡ 7 * i
    → IsU64 (x + w * 2 ^ s)
    → uvarint_loop (w ∷ rest) i s x ≡ done (x + w * 2 ^ s) rest
unfolding uvarint_loop
last_byte w i s x rest hw hi hs fits = ground arith

inner_byte :
    (g i s x : ℕ) (rest : Bytes)
    → g < 128
    → i < 9
    → uvarint_loop ((g + 128) ∷ rest) i s x ≡ uvarint_loop rest (i + 1) (s + 7) (x + g * 2 ^ s)
unfolding uvarint_loop
inner_byte g i s x rest hg hi = ground arith

uvarint_loop-put :
    (k w i s x : ℕ) (rest : Bytes)
    → w < 128 ^ suc k
    → i + k ≤ 9
    → s ≡ 7 * i
    → IsU64 (x + w * 2 ^ s)
    → uvarint_loop (put_loop k w ++ rest) i s x ≡ done (x + w * 2 ^ s) rest
unfolding put_loop
uvarint_loop-put zero w i s x rest hw hi hs fits =
    ground (arith, last_byte w i s x rest (omega arith) (omega arith) hs fits)
uvarint_loop-put (suc k) w i s x rest hw hi hs fits = ground (
  arith,
  last_byte w i s x rest,
  shifted_groups s w,
  inner_byte (w % 128) i s x (put_loop k (w / 128) ++ rest),
  uvarint_loop-put k (w / 128) (i + 1) (s + 7) (x + w % 128 * 2 ^ s) rest (omega arith),
)

-- `Uvarint` reads back the number that `PutUvarint` wrote, and leaves what follows.
pub uvarint-put : (v : ℕ) (rest : Bytes) → IsU64 v → uvarint (put_uvarint v ++ rest) ≡ done v rest
unfolding uvarint put_uvarint
uvarint-put v rest h = ground (arith, uvarint_loop-put 9 v 0 0 0 rest)

pub length-put_loop : (k v : ℕ) → (1 ≤ length (put_loop k v)) × (length (put_loop k v) ≤ k + 1)
unfolding put_loop
length-put_loop zero v = omega arith
length-put_loop (suc k) v = ground (arith, length-put_loop k (v / 128))

pub length-put_uvarint : (v : ℕ) → (1 ≤ length (put_uvarint v)) × (length (put_uvarint v) ≤ 10)
unfolding put_uvarint
length-put_uvarint v = length-put_loop 9 v
