-- ===== src/Resp/Tests.antt =====
-- Tests of internal/resp: a request on the wire, a body read in chunks, a writer behind an error.
use memcore.Base.{ℕ, ◌≡◌, refl, some, List, [], ◌∷◌, ◌++◌, arith, Bytes, codes}
use memcore.Base.Int.{pos}
use memcore.Resp.Reply.{Reply, nil, int, bulk, array, more, done, bulks}
use memcore.Resp.Writer.{Writer, write_reply}
use memcore.Resp.Writes.{keep, holding, encode, write_reply-encode, write_reply-sticky}
use memcore.Resp.Reader.{ok, read_request, read_n}
use memcore.Resp.Chunks.{whole, read_n-whole}
use memcore.Resp.RoundTrip.{read_request-write_reply}

abbrev get_key : List Bytes
get_key = codes "GET" ∷ (b'k' ∷ 13 ∷ 10 ∷ []) ∷ []

read_request-write_reply_example :
    read_request
      ((write_reply (keep {E = Unit {0}}) (array (bulks get_key)) (holding [])).w ++ codes "PING")
    ≡ ok get_key (codes "PING")
read_request-write_reply_example =
    read_request-write_reply get_key (codes "PING") (omega arith) (omega arith, (omega arith, tt))

read_n-whole_example : read_n 100000 (codes "short") ≡ whole 100000 (codes "short")
read_n-whole_example = read_n-whole 100000 (codes "short")

abbrev nested : Reply
nested = array (more (int (pos 7)) (more (array (more nil done)) (more (bulk (codes "v")) done)))

write_reply-encode_example :
    write_reply (keep {E = ℕ}) nested (holding (codes "+OK"))
    ≡ holding (codes "+OK" ++ encode nested)
write_reply-encode_example = write_reply-encode nested (codes "+OK")

-- A writer whose stream failed with the error 32.
abbrev broken : Writer Bytes ℕ
broken = record { w = codes "+O"; err = some 32 }

write_reply-sticky_example : write_reply (keep {E = ℕ}) nested broken ≡ broken
write_reply-sticky_example = write_reply-sticky (keep {E = ℕ}) nested broken 32 refl
