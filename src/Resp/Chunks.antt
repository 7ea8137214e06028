-- ===== src/Resp/Chunks.antt =====
-- `readN` reads a large body in chunks; what it returns is what one read would.
use mathlib.Core.List.{append_assoc, append-nil}
use memcore.Base.{
  ℕ, zero, suc, ◌+◌, ◌-◌, ◌≤◌, ◌<◌, ◌≡◌, refl, sym, ap, ◌∙◌, true, false, [], ◌∷◌, ◌++◌, arith,
  length, length-append, length-take, length-drop, take-add, drop-add, ltb, leb, take, drop, Bytes,
  if◌then◌else◌, Bool-cases, inl, inr,
}
use memcore.Resp.Reader.{
  Read, ok, err, unexpected_eof, ◌>>=◌, eof_is_unexpected, read_full, chunk_len, read_chunks,
  read_n, direct_read_limit,
}

-- A read that is whole or ends the stream.
abbrev pub whole : ℕ → Bytes → Read Bytes
whole n bs = if leb n (length bs) then ok (take n bs) (drop n bs) else err unexpected_eof

pub read_full-whole : (n : ℕ) (bs : Bytes) → eof_is_unexpected (read_full n bs) ≡ whole n bs
unfolding read_full
read_full-whole n [] = ground arith
read_full-whole n (b ∷ bs) = ground arith

-- A read of two parts is the two reads.
whole-add :
    (a b : ℕ) (bs : Bytes)
    → whole (a + b) bs ≡ (whole a bs >>= λ c rest. whole b rest >>= λ d left. ok (c ++ d) left)
whole-add a b bs = elim (Bool-cases (leb a (length bs))) [
  | inr n ↦ let n' : leb (a + b) (length bs) ≡ false = ground arith in rw (n, n')
  | inl y ↦ elim (Bool-cases (leb b (length (drop a bs)))) [
    | inl y' ↦
        let y'' : leb (a + b) (length bs) ≡ true = ground (arith, length-drop a bs) in
        rw (y, y'', y', take-add, drop-add)
    | inr n' ↦
        let n'' : leb (a + b) (length bs) ≡ false = ground (arith, length-drop a bs) in
        rw (y, n'', n')
  ]
]

-- What is read is put behind what is there.
abbrev behind : Bytes → Read Bytes → Read Bytes
behind buf r = r >>= λ c rest. ok (buf ++ c) rest

behind-bind :
    (buf c : Bytes) (r : Read Bytes)
    → behind (buf ++ c) r ≡ behind buf (r >>= λ d left. ok (c ++ d) left)
behind-bind buf c (ok d left) = ap (λ t. ok t left) (append_assoc buf c d)
behind-bind buf c (err e) = refl

chunk_len_bounds :
    (n : ℕ) (buf : Bytes)
    → length buf < n
    → (1 ≤ chunk_len n buf) × (chunk_len n buf + length buf ≤ n)
unfolding chunk_len
chunk_len_bounds n buf h = ground arith

chunk_step :
    (fuel n : ℕ) (buf bs : Bytes)
    → ltb (length buf) n ≡ true
    → read_chunks (suc fuel) n buf bs
      ≡ (whole (chunk_len n buf) bs >>= λ chunk rest. read_chunks fuel n (buf ++ chunk) rest)
chunk_step fuel n buf bs h =
    rw (← read_full-whole (chunk_len n buf) bs) (unfold read_chunks in rw h)

chunk_stop :
    (fuel n : ℕ) (buf bs : Bytes)
    → ltb (length buf) n ≡ false
    → read_chunks (suc fuel) n buf bs ≡ ok buf bs
unfolding read_chunks
chunk_stop fuel n buf bs h = rw h

whole-zero : (buf bs : Bytes) (n : ℕ) → n ≡ 0 → ok buf bs ≡ behind buf (whole n bs)
whole-zero buf bs n e =
    let enough : leb 0 (length bs) ≡ true = ground arith in
    rw (e, enough) (ap (λ t. ok t bs) (sym (append-nil buf)))

chunks-whole :
    (fuel n : ℕ) (buf bs : Bytes)
    → length buf ≤ n
    → n - length buf ≤ fuel
    → read_chunks fuel n buf bs ≡ behind buf (whole (n - length buf) bs)
chunks-whole zero n buf bs le f = unfold read_chunks in whole-zero buf bs _ (omega arith)
chunks-whole (suc fuel) n buf bs le f = elim (Bool-cases (ltb (length buf) n)) [
  | inr stop ↦ chunk_stop fuel n buf bs stop ∙ whole-zero buf bs _ (ground arith)
  | inl go ↦
      let w = chunk_len n buf in
      let (lo, hi) = chunk_len_bounds n buf (ground arith) in
      let split : n - length buf ≡ w + (n - length buf - w) = omega arith in
      chunk_step fuel n buf bs go ∙ elim (Bool-cases (leb w (length bs))) [
        | inr short ↦
            let all : leb (n - length buf) (length bs) ≡ false = ground arith in rw (short, all)
        | inl enough ↦
            let taken : length (take w bs) ≡ w = ground (arith, length-take w bs) in
            let size = length-append buf (take w bs) in
            let left : n - length (buf ++ take w bs) ≡ n - length buf - w = omega arith in
            rw enough
              (chunks-whole fuel n (buf ++ take w bs) (drop w bs) (omega arith) (omega arith))
            ∙ ap (λ t. behind (buf ++ take w bs) (whole t (drop w bs))) left
            ∙ behind-bind buf (take w bs) (whole (n - length buf - w) (drop w bs))
            ∙ ap (behind buf)
                (sym (ap (λ t. whole t bs) split ∙ whole-add w (n - length buf - w) bs ∙ rw enough))
      ]
]

behind-nil : (r : Read Bytes) → behind [] r ≡ r
behind-nil (ok c rest) = refl
behind-nil (err e) = refl

-- `readN` returns the next n bytes and leaves the rest of the stream, or reports an unexpected end
-- if there are fewer, whether it reads them at once or in chunks.
pub read_n-whole : (n : ℕ) (bs : Bytes) → read_n n bs ≡ whole n bs
unfolding read_n
read_n-whole n bs = elim (Bool-cases (leb n direct_read_limit)) [
  | inl small ↦ rw small (read_full-whole n bs)
  | inr large ↦ rw large (
      chunks-whole n n [] bs (omega arith) (omega arith)
      ∙ behind-nil (whole (n - 0) bs)
      ∙ ap (λ t. whole t bs) (omega arith))
]
