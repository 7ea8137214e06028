-- ===== src/Resp/Reader.antt =====
-- internal/resp/reader.go over the bytes that the connection will deliver. How they come in packets
-- does not show: `bufio.Reader` waits for what it is asked for. An error ends the connection, so what
-- is left of the stream is not kept behind one.
use memcore.Base.{
  ℕ, zero, suc, ◌-◌, ◌*◌, ◌^◌, ◌||◌, not, Option, none, some, List, [], ◌∷◌, ◌++◌, length, take,
  drop, ltb, leb, ◌==◌, if◌then◌else◌, Bytes,
}
use memcore.Base.Int.{ℤ, pos, negsuc}
use memcore.Base.Decimal.{parse_int}
use memcore.Resp.Fields.{fields}

abbrev pub max_bulk_len : ℕ
max_bulk_len = 512 * 2 ^ 20

abbrev pub max_multi_bulk_len : ℕ
max_multi_bulk_len = 2 ^ 20

abbrev pub direct_read_limit : ℕ
direct_read_limit = 64 * 2 ^ 10

abbrev pub read_buffer_size : ℕ
read_buffer_size = 16 * 2 ^ 10

-- What `ErrProtocol` wraps.
pub data Violation : Type 0 where
  count_too_large : ℕ → Violation
  expected_dollar : ℕ → Violation
  bulk_out_of_range : ℤ → Violation
  invalid_count : Bytes → Violation
  line_too_long line_not_crlf bulk_not_crlf : Violation

pub data ReadError : Type 0 where
  eof unexpected_eof : ReadError
  protocol : Violation → ReadError

-- A value with the rest of the stream, or an error.
pub data Read {ℓ} (A : Type ℓ) : Type ℓ where
  ok : A → Bytes → Read A
  err : ReadError → Read A

infixl 5 ◌>>=◌
abbrev pub ◌>>=◌ {ℓ κ} : {A : Type ℓ} {B : Type κ} → Read A → (A → Bytes → Read B) → Read B
ok a rest >>= f = f a rest
err e >>= f = err e

-- `eofIsUnexpected`
abbrev pub eof_is_unexpected {ℓ} : {A : Type ℓ} → Read A → Read A
eof_is_unexpected (ok a rest) = ok a rest
eof_is_unexpected (err eof) = err unexpected_eof
eof_is_unexpected (err unexpected_eof) = err unexpected_eof
eof_is_unexpected (err (protocol v)) = err (protocol v)

unfoldable pub read_byte : Bytes → Read ℕ
read_byte [] = err eof
read_byte (b ∷ bs) = ok b bs

-- `io.ReadFull` into n bytes.
unfoldable pub read_full : ℕ → Bytes → Read Bytes
read_full n bs =
    if leb n (length bs)
    then ok (take n bs) (drop n bs)
    else elim bs [ [] ↦ err eof | b ∷ rest ↦ err unexpected_eof ]

-- `ReadSlice('\n')`: the line feed is looked for in a buffer of `room` bytes.
pub data Scan : Type 0 where
  found : Bytes → Bytes → Scan
  full ended : Scan

abbrev pub before : ℕ → Scan → Scan
before b (found line rest) = found (b ∷ line) rest
before b full = full
before b ended = ended

unfoldable pub read_slice : ℕ → Bytes → Scan
read_slice zero bs = full
read_slice (suc room) [] = ended
read_slice (suc room) (b ∷ bs) =
    let rest = before b (read_slice room bs) in if b == 10 then found [] bs else rest

-- The line without the carriage return that must end it.
unfoldable pub strip_cr : Bytes → Option Bytes
strip_cr [] = none
strip_cr (b ∷ []) = if b == 13 then some [] else none
strip_cr (b ∷ c ∷ bs) = elim (strip_cr (c ∷ bs)) [ none ↦ none | some line ↦ some (b ∷ line) ]

abbrev pub line_of : Option Bytes → Bytes → Read Bytes
line_of none rest = err (protocol line_not_crlf)
line_of (some line) rest = ok line rest

abbrev pub scanned : Scan → Read Bytes
scanned (found line rest) = line_of (strip_cr line) rest
scanned full = err (protocol line_too_long)
scanned ended = err unexpected_eof

unfoldable pub read_line : Bytes → Read Bytes
unfolding read_slice strip_cr
read_line bs = scanned (read_slice read_buffer_size bs)

abbrev pub count_of : Bytes → Option ℤ → Bytes → Read ℤ
count_of line none rest = err (protocol (invalid_count line))
count_of line (some n) rest = ok n rest

unfoldable pub read_count : Bytes → Read ℤ
unfolding read_line
read_count bs = read_line bs >>= λ line rest. count_of line (parse_int line) rest

unfoldable pub expect_crlf : Bytes → Read (Unit {0})
unfolding read_byte
expect_crlf bs = eof_is_unexpected (read_byte bs) >>= λ cr rest.
    eof_is_unexpected (read_byte rest) >>= λ lf rest'.
    if not (cr == 13) || not (lf == 10) then err (protocol bulk_not_crlf) else ok tt rest'

-- The bytes that the next chunk wants.
unfoldable pub chunk_len : ℕ → Bytes → ℕ
chunk_len n buf =
    if ltb direct_read_limit (n - length buf) then direct_read_limit else n - length buf

-- The loop of `readN` over chunks; `n` rounds are enough, as a round reads a byte or more.
unfoldable pub read_chunks : ℕ → ℕ → Bytes → Bytes → Read Bytes
unfolding read_full chunk_len
read_chunks zero n buf bs = ok buf bs
read_chunks (suc fuel) n buf bs =
    let next = eof_is_unexpected (read_full (chunk_len n buf) bs) >>= λ chunk rest.
    read_chunks fuel n (buf ++ chunk) rest in
    if ltb (length buf) n then next else ok buf bs

unfoldable pub read_n : ℕ → Bytes → Read Bytes
unfolding read_full
read_n n bs =
    let large = read_chunks n n [] bs in
    if leb n direct_read_limit then eof_is_unexpected (read_full n bs) else large

abbrev pub bulk_body : ℤ → Bytes → Read Bytes
bulk_body (negsuc n) bs = err (protocol (bulk_out_of_range (negsuc n)))
bulk_body (pos n) bs =
    if ltb max_bulk_len n
    then err (protocol (bulk_out_of_range (pos n)))
    else (read_n n bs >>= λ body rest. expect_crlf rest >>= λ _ rest'. ok body rest')

unfoldable pub read_bulk : Bytes → Read Bytes
unfolding read_count read_n expect_crlf
read_bulk bs = read_count bs >>= bulk_body

-- The loop over the arguments of a multi-bulk request.
unfoldable pub read_args : ℕ → Bytes → Read (List Bytes)
unfolding read_byte read_bulk
read_args zero bs = ok [] bs
read_args (suc n) bs = eof_is_unexpected (read_byte bs) >>= λ marker rest.
    if not (marker == b'$')
    then err (protocol (expected_dollar marker))
    else (read_bulk rest >>= λ arg rest'. read_args n rest' >>= λ args left. ok (arg ∷ args) left)

abbrev pub args_of : ℤ → Bytes → Read (List Bytes)
args_of (negsuc n) bs = ok [] bs
args_of (pos n) bs =
    if ltb max_multi_bulk_len n then err (protocol (count_too_large n)) else read_args n bs

unfoldable pub read_multi_bulk : Bytes → Read (List Bytes)
unfolding read_count read_args
read_multi_bulk bs = read_count bs >>= args_of

unfoldable pub read_inline : Bytes → Read (List Bytes)
unfolding read_line fields
read_inline bs = read_line bs >>= λ line rest. ok (fields line) rest

-- `ReadRequest`. No arguments, an empty line or a null array, is the nil that the server skips.
unfoldable pub read_request : Bytes → Read (List Bytes)
unfolding read_multi_bulk read_inline
read_request [] = err eof
read_request (b ∷ bs) = if b == b'*' then read_multi_bulk bs else read_inline (b ∷ bs)
