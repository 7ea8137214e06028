-- ===== src/Resp/RoundTrip.antt =====
-- A request that is written as an array of bulk strings is read back.
use mathlib.Core.List.{append_assoc}
use memcore.Base.{
  ℕ, suc, ◌≤◌, ◌≡◌, refl, ap, ◌∙◌, true, false, List, [], ◌∷◌, ◌++◌, arith, length, length-append,
  ltb, leb, take-append, drop-append, Bytes, All,
}
use memcore.Base.Int.{pos}
use memcore.Base.Decimal.{append_int}
use memcore.Resp.Reply.{bulk, array, bulks}
use memcore.Resp.Writer.{crlf, count, write_reply}
use memcore.Resp.Writes.{encode, encode_all, keep, holding, write_reply-encode}
use memcore.Resp.Reader.{
  ok, ◌>>=◌, max_bulk_len, max_multi_bulk_len, read_bulk, bulk_body, read_n, read_args, args_of,
  read_request, expect_crlf,
}
use memcore.Resp.Lines.{read_count-append_int, expect_crlf-crlf}
use memcore.Resp.Chunks.{whole, read_n-whole}

-- The reader takes no larger bulk.
abbrev pub IsBulk : Bytes → Type 0
IsBulk b = length b ≤ max_bulk_len

whole-append : (b rest : Bytes) → whole (length b) (b ++ rest) ≡ ok b rest
whole-append b rest =
    let fits : leb (length b) (length (b ++ rest)) ≡ true = ground (arith, length-append b rest) in
    rw (fits, take-append, drop-append)

read_body :
    (b rest : Bytes)
    → (read_n (length b) (b ++ (crlf ++ rest)) >>= λ body left.
        expect_crlf left >>= λ _ left'. ok body left')
      ≡ ok b rest
read_body b rest = rw (read_n-whole, whole-append b (crlf ++ rest), expect_crlf-crlf rest)

body_of_bulk :
    (b rest : Bytes) → IsBulk b → bulk_body (pos (length b)) (b ++ (crlf ++ rest)) ≡ ok b rest
body_of_bulk b rest h =
    let fits : ltb max_bulk_len (length b) ≡ false = ground arith in rw fits (read_body b rest)

read_bulk-encode :
    (b rest : Bytes)
    → IsBulk b
    → read_bulk (append_int (pos (length b)) ++ (crlf ++ (b ++ (crlf ++ rest)))) ≡ ok b rest
unfolding read_bulk
read_bulk-encode b rest h =
    ap (λ t. t >>= bulk_body)
      (read_count-append_int (pos (length b)) (b ++ (crlf ++ rest)) (omega arith))
    ∙ body_of_bulk b rest h

encode_bulk :
    (b rest : Bytes)
    → encode (bulk b) ++ rest
      ≡ b'$' ∷ (append_int (pos (length b)) ++ (crlf ++ (b ++ (crlf ++ rest))))
unfolding encode
encode_bulk b rest = simp append_assoc

read_args_step :
    (n : ℕ) (t rest' left : Bytes) (arg : Bytes) (args : List Bytes)
    → read_bulk t ≡ ok arg rest'
    → read_args n rest' ≡ ok args left
    → read_args (suc n) (b'$' ∷ t) ≡ ok (arg ∷ args) left
unfolding read_args
read_args_step n t rest' left arg args p q = rw (p, q)

encode_all-cons :
    (b : Bytes) (args : List Bytes) (rest : Bytes)
    → encode_all (bulks (b ∷ args)) ++ rest
      ≡ b'$'
        ∷ (append_int (pos (length b))
            ++ (crlf ++ (b ++ (crlf ++ (encode_all (bulks args) ++ rest)))))
unfolding encode_all
encode_all-cons b args rest =
    append_assoc (encode (bulk b)) (encode_all (bulks args)) rest
    ∙ encode_bulk b (encode_all (bulks args) ++ rest)

read_args-encode :
    (args : List Bytes) (rest : Bytes)
    → All IsBulk args
    → read_args (length args) (encode_all (bulks args) ++ rest) ≡ ok args rest
read_args-encode [] rest h = unfold read_args encode_all in refl
read_args-encode (b ∷ args) rest h =
    ap (read_args (suc (length args))) (encode_all-cons b args rest)
    ∙ read_args_step (length args) _ (encode_all (bulks args) ++ rest) rest b args
        (read_bulk-encode b (encode_all (bulks args) ++ rest) h.0) (read_args-encode args rest h.1)

count-bulks : (args : List Bytes) → count (bulks args) ≡ length args
count-bulks [] = refl
count-bulks (b ∷ args) = ap suc (count-bulks args)

args_of-encode :
    (args : List Bytes) (rest : Bytes)
    → length args ≤ max_multi_bulk_len
    → All IsBulk args
    → args_of (pos (length args)) (encode_all (bulks args) ++ rest) ≡ ok args rest
args_of-encode args rest few h =
    let fits : ltb max_multi_bulk_len (length args) ≡ false = ground arith in
    rw fits (read_args-encode args rest h)

encode_array :
    (args : List Bytes) (rest : Bytes)
    → encode (array (bulks args)) ++ rest
      ≡ b'*' ∷ (append_int (pos (length args)) ++ (crlf ++ (encode_all (bulks args) ++ rest)))
unfolding encode
encode_array args rest = simp (append_assoc, count-bulks)

read_request-encode :
    (args : List Bytes) (rest : Bytes)
    → length args ≤ max_multi_bulk_len
    → All IsBulk args
    → read_request (encode (array (bulks args)) ++ rest) ≡ ok args rest
read_request-encode args rest few h =
    ap read_request (encode_array args rest)
    ∙ unfold read_request in
      ap (λ t. t >>= args_of)
        (read_count-append_int (pos (length args)) (encode_all (bulks args) ++ rest) (omega arith))
      ∙ args_of-encode args rest few h

-- What the writer puts on a stream in memory for an array of at most 2^20 bulk strings of at most
-- 512 MiB each is read by `ReadRequest` as those strings, and what follows on the stream is left.
pub read_request-write_reply :
    (args : List Bytes) (rest : Bytes)
    → length args ≤ max_multi_bulk_len
    → All IsBulk args
    → read_request ((write_reply (keep {E = Unit {0}}) (array (bulks args)) (holding [])).w ++ rest)
      ≡ ok args rest
read_request-write_reply args rest few h =
    ap (λ t. read_request (t.w ++ rest)) (write_reply-encode {E = Unit {0}} (array (bulks args)) [])
    ∙ read_request-encode args rest few h
