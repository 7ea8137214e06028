-- ===== src/Resp/Lines.antt =====
-- What the reader's helpers return on well-formed input.
use memcore.Base.{
  ℕ, zero, suc, ◌+◌, ◌≤◌, ◌<◌, ◌≡◌, ◌≢◌, refl, sym, ap, ◌∙◌, true, some, [], ◌∷◌, ◌++◌, arith,
  length, length-append, leb, take-append, drop-append, Bytes, All,
}
use mathlib.Core.List.{append_assoc}
use memcore.Base.Int.{ℤ, pos, negsuc, IsInt64}
use memcore.Base.Decimal.{
  append_int, append_uint, parse_int-append_int, IsDigit, put_digits, put_digits-IsDigit,
}
use memcore.Resp.Reader.{
  ok, found, read_slice, strip_cr, line_of, scanned, read_line, read_count, read_full, expect_crlf,
  read_buffer_size,
}

abbrev pub NoFeed : Bytes → Type 0
NoFeed = All (λ b. b ≢ 10)

read_slice-line :
    (line rest : Bytes) (room : ℕ)
    → NoFeed line
    → length line < room
    → read_slice room (line ++ (10 ∷ rest)) ≡ found line rest
unfolding read_slice
read_slice-line line rest zero h l = absurd (omega arith)
read_slice-line [] rest (suc room) h l = refl
read_slice-line (b ∷ line) rest (suc room) h l =
    ground (arith, h.0, read_slice-line line rest room h.1 (omega arith))

strip_cr-snoc : (line : Bytes) → strip_cr (line ++ (13 ∷ [])) ≡ some line
unfolding strip_cr
strip_cr-snoc [] = refl
strip_cr-snoc (b ∷ []) = refl
strip_cr-snoc (b ∷ c ∷ line) = rw (strip_cr-snoc (c ∷ line), strip_cr)

NoFeed-snoc : (line : Bytes) → NoFeed line → NoFeed (line ++ (13 ∷ []))
NoFeed-snoc [] h = omega arith
NoFeed-snoc (b ∷ line) h = (h.0, NoFeed-snoc line h.1)

pub read_line-crlf :
    (line rest : Bytes)
    → NoFeed line
    → length line + 1 < read_buffer_size
    → read_line (line ++ (13 ∷ 10 ∷ rest)) ≡ ok line rest
unfolding read_line
read_line-crlf line rest h l =
    ap (λ t. scanned (read_slice read_buffer_size t))
      (sym (append_assoc line (13 ∷ []) (10 ∷ rest)))
    ∙ ap scanned (
        read_slice-line (line ++ (13 ∷ [])) rest read_buffer_size (NoFeed-snoc line h)
          (omega (arith, length-append line (13 ∷ []))))
    ∙ ap (λ t. line_of t rest) (strip_cr-snoc line)

digits-NoFeed : (bs : Bytes) → All IsDigit bs → NoFeed bs
digits-NoFeed [] h = tt
digits-NoFeed (b ∷ bs) h = (omega arith, digits-NoFeed bs h.1)

append_int-NoFeed : (n : ℤ) → NoFeed (append_int n) × (length (append_int n) ≤ 21)
unfolding append_int append_uint
append_int-NoFeed (pos n) =
    let (all, lo, hi) = put_digits-IsDigit 19 n in
    (digits-NoFeed (put_digits 19 n) all, omega arith)
append_int-NoFeed (negsuc n) =
    let (all, lo, hi) = put_digits-IsDigit 19 (suc n) in
    ((omega arith, digits-NoFeed (put_digits 19 (suc n)) all), omega arith)

-- A count that `AppendInt` wrote is read back.
pub read_count-append_int :
    (n : ℤ) (rest : Bytes) → IsInt64 n → read_count (append_int n ++ (13 ∷ 10 ∷ rest)) ≡ ok n rest
unfolding read_count
read_count-append_int n rest h =
    let (text, size) = append_int-NoFeed n in
    rw (read_line-crlf (append_int n) rest text (omega arith), parse_int-append_int n h)

pub read_full-append : (b rest : Bytes) → read_full (length b) (b ++ rest) ≡ ok b rest
unfolding read_full
read_full-append b rest =
    let fits : leb (length b) (length (b ++ rest)) ≡ true = ground (arith, length-append b rest) in
    rw (fits, take-append, drop-append)

pub expect_crlf-crlf : (rest : Bytes) → expect_crlf (13 ∷ 10 ∷ rest) ≡ ok tt rest
unfolding expect_crlf
expect_crlf-crlf rest = refl
