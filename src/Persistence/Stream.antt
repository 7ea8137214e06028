-- ===== src/Persistence/Stream.antt =====
-- The byte readers and writers of internal/persistence/codec.go, and what they use of Go's
-- encoding/binary and io. A file is the bytes that are left of it.
use memcore.Base.{
  ℕ, zero, suc, ◌+◌, ◌*◌, ◌/◌, ◌%◌, ◌^◌, ◌≤◌, ◌<◌, ◌≡◌, refl, ap, ◌∙◌, true, false, ◌&&◌, [], ◌∷◌,
  ◌++◌, arith, length, length-append, take, drop, take-append, drop-append, ltb, leb, ◌==◌,
  if◌then◌else◌, Bytes,
}
use mathlib.Core.List.{append_assoc}
use memcore.Base.Varint.{IsU64, put_uvarint, put_loop, shifted_groups}

pub data ReadError : Type 0 where
  eof unexpected_eof overflow unknown_tag : ReadError

-- A value with the rest of the file, an error, or a panic of `make`.
pub data Read {ℓ} (A : Type ℓ) : Type ℓ where
  ok : A → Bytes → Read A
  err : ReadError → Read A
  panics : Read A

infixl 5 ◌>>=◌
abbrev pub ◌>>=◌ {ℓ κ} : {A : Type ℓ} {B : Type κ} → Read A → (A → Bytes → Read B) → Read B
ok a rest >>= f = f a rest
err e >>= f = err e
panics >>= f = panics

-- `unexpectedEOF`
abbrev pub unexpected {ℓ} : {A : Type ℓ} → Read A → Read A
unexpected (ok a rest) = ok a rest
unexpected (err eof) = err unexpected_eof
unexpected (err unexpected_eof) = err unexpected_eof
unexpected (err overflow) = err overflow
unexpected (err unknown_tag) = err unknown_tag
unexpected panics = panics

-- `binary.ReadUvarint`: `left` rounds of ten are left, `s` is the shift, `x` what is read so far. An
-- end behind the first byte is unexpected.
unfoldable pub read_uvarint_loop : ℕ → ℕ → ℕ → Bytes → Read ℕ
read_uvarint_loop zero s x bs = err overflow
read_uvarint_loop (suc left) s x [] = if left == 9 then err eof else err unexpected_eof
read_uvarint_loop (suc left) s x (b ∷ bs) =
    let more = read_uvarint_loop left (s + 7) (x + b % 128 * 2 ^ s) bs in
    if ltb b 128
    then (if (left == 0) && ltb 1 b then err overflow else ok (x + b * 2 ^ s) bs)
    else more

unfoldable pub read_uvarint : Bytes → Read ℕ
unfolding read_uvarint_loop
read_uvarint bs = read_uvarint_loop 10 0 0 bs

-- `io.ReadFull` into n bytes.
unfoldable pub read_full : ℕ → Bytes → Read Bytes
read_full n [] = if n == 0 then ok [] [] else err eof
read_full n (b ∷ bs) =
    if leb n (length (b ∷ bs)) then ok (take n (b ∷ bs)) (drop n (b ∷ bs)) else err unexpected_eof

-- The memory that one `make` can take on a 64-bit machine; beyond it `make` panics.
abbrev pub max_alloc : ℕ
max_alloc = 2 ^ 48

unfoldable pub write_bytes : Bytes → Bytes
write_bytes b = put_uvarint (length b) ++ b

abbrev pub read_body : ℕ → Bytes → Read Bytes
read_body n bs = if ltb max_alloc n then panics else read_full n bs

unfoldable pub read_bytes : Bytes → Read Bytes
unfolding read_uvarint read_full
read_bytes bs = read_uvarint bs >>= read_body

-- One round of the loop on a last byte, and on a byte with the top bit set over the group `g`.
last_byte :
    (w left s x : ℕ) (rest : Bytes)
    → w < 128
    → s + 7 * left ≡ 63
    → IsU64 (x + w * 2 ^ s)
    → read_uvarint_loop (suc left) s x (w ∷ rest) ≡ ok (x + w * 2 ^ s) rest
unfolding read_uvarint_loop
last_byte w left s x rest hw hs fits = ground arith

inner_byte :
    (g left s x : ℕ) (rest : Bytes)
    → g < 128
    → read_uvarint_loop (suc left) s x ((g + 128) ∷ rest)
      ≡ read_uvarint_loop left (s + 7) (x + g * 2 ^ s) rest
unfolding read_uvarint_loop
inner_byte g left s x rest hg = ground arith

read_loop-put :
    (k w s x : ℕ) (rest : Bytes)
    → w < 128 ^ suc k
    → s + 7 * k ≡ 63
    → IsU64 (x + w * 2 ^ s)
    → read_uvarint_loop (suc k) s x (put_loop k w ++ rest) ≡ ok (x + w * 2 ^ s) rest
unfolding put_loop
read_loop-put zero w s x rest hw hs fits =
    ground (arith, last_byte w 0 s x rest (omega arith) hs fits)
read_loop-put (suc k) w s x rest hw hs fits = ground (
  arith,
  last_byte w (suc k) s x rest,
  shifted_groups s w,
  inner_byte (w % 128) (suc k) s x (put_loop k (w / 128) ++ rest),
  read_loop-put k (w / 128) (s + 7) (x + w % 128 * 2 ^ s) rest (omega arith),
)

-- `ReadUvarint` reads back the number that `PutUvarint` wrote.
pub read_uvarint-put :
    (v : ℕ) (rest : Bytes) → IsU64 v → read_uvarint (put_uvarint v ++ rest) ≡ ok v rest
unfolding read_uvarint put_uvarint
read_uvarint-put v rest h = ground (arith, read_loop-put 9 v 0 0 rest)

pub read_full-append : (b rest : Bytes) → read_full (length b) (b ++ rest) ≡ ok b rest
unfolding read_full
read_full-append [] [] = refl
read_full-append [] (x ∷ rest) = ground arith
read_full-append (b ∷ bs) rest =
    let fits : leb (length (b ∷ bs)) (length (b ∷ (bs ++ rest))) ≡ true =
      ground (arith, length-append bs rest) in
    rw (fits, take-append, drop-append)

-- `readBytes` reads back what `writeBytes` wrote.
pub read_bytes-write :
    (b rest : Bytes) → length b ≤ max_alloc → read_bytes (write_bytes b ++ rest) ≡ ok b rest
unfolding read_bytes write_bytes
read_bytes-write b rest h =
    let fits : ltb max_alloc (length b) ≡ false = ground arith in
    ap (λ t. read_uvarint t >>= read_body) (append_assoc (put_uvarint (length b)) b rest)
    ∙ ap (λ t. t >>= read_body) (read_uvarint-put (length b) (b ++ rest) (omega arith))
    ∙ rw fits (read_full-append b rest)
