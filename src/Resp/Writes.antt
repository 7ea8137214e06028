-- ===== src/Resp/Writes.antt =====
-- What the writer puts on a stream that takes everything, and what it does behind an error.
use mathlib.Core.List.{append_assoc, append-nil}
use memcore.Base.{◌≡◌, refl, ap, ◌∙◌, Option, none, some, [], ◌∷◌, ◌++◌, length, Bytes, codes}
use memcore.Base.Int.{ℤ, pos}
use memcore.Base.Decimal.{append_int}
use memcore.Resp.Reply.{Reply, Replies, nil, simple, error, int, bulk, array, done, more}
use memcore.Resp.Writer.{
  crlf, count, Writer, write_if, write, write_int, write_frame, write_bulk, write_reply,
  write_replies,
}

-- The RESP2 text of a reply.
unfoldable mutual
  pub encode : Reply → Bytes
  encode nil = codes "$-1" ++ crlf
  encode (simple s) = b'+' ∷ (s ++ crlf)
  encode (error s) = b'-' ∷ (s ++ crlf)
  encode (int n) = b':' ∷ (append_int n ++ crlf)
  encode (bulk b) = b'$' ∷ (append_int (pos (length b)) ++ (crlf ++ (b ++ crlf)))
  encode (array rs) = b'*' ∷ (append_int (pos (count rs)) ++ (crlf ++ encode_all rs))

  pub encode_all : Replies → Bytes
  encode_all done = []
  encode_all (more r rs) = encode r ++ encode_all rs

-- A stream in memory.
abbrev pub keep : {E : Type 0} → Bytes → Bytes → Bytes × Option E
keep out p = (out ++ p, none)

abbrev pub holding : {E : Type 0} → Bytes → Writer Bytes E
holding out = record { w = out; err = none }

module _ {E : Type 0} where
  mutual
    unfolding write_reply write_replies write_int write_frame write_bulk write encode encode_all

    kept :
        (r : Reply) (out : Bytes)
        → write_reply (keep {E = E}) r (holding out) ≡ holding (out ++ encode r)
    kept nil out = refl
    kept (simple s) out = simp append_assoc
    kept (error s) out = simp append_assoc
    kept (int n) out = simp append_assoc
    kept (bulk b) out = simp append_assoc
    kept (array rs) out =
        kept_all rs (((out ++ (b'*' ∷ [])) ++ append_int (pos (count rs))) ++ crlf)
        ∙ simp append_assoc

    kept_all :
        (rs : Replies) (out : Bytes)
        → write_replies (keep {E = E}) rs (holding out) ≡ holding (out ++ encode_all rs)
    kept_all done out = simp append-nil
    kept_all (more r rs) out =
        ap (write_replies (keep {E = E}) rs) (kept r out)
        ∙ kept_all rs (out ++ encode r)
        ∙ simp append_assoc

  -- On a stream in memory, a reply, arrays inside arrays included, appends its RESP2 text and
  -- leaves no error.
  pub write_reply-encode :
      (r : Reply) (out : Bytes)
      → write_reply (keep {E = E}) r (holding out) ≡ holding (out ++ encode r)
  write_reply-encode r out = kept r out

module _ {W E : Type 0} (sink : W → Bytes → W × Option E) where
  write-stuck : (w : Writer W E) (p : Bytes) (e : E) → w.err ≡ some e → write sink w p ≡ w
  unfolding write
  write-stuck w p e h = ap (write_if sink w p) h

  header_stuck :
      (prefix : Bytes) (n : ℤ) (w : Writer W E) (e : E)
      → w.err ≡ some e
      → write sink (write_int sink (write sink w prefix) n) crlf ≡ w
  unfolding write_int
  header_stuck prefix n w e h = simp (write-stuck w _ e h)

  mutual
    unfolding write_reply write_replies write_int write_frame write_bulk

    stuck : (r : Reply) (w : Writer W E) (e : E) → w.err ≡ some e → write_reply sink r w ≡ w
    stuck nil w e h = write-stuck w _ e h
    stuck (simple s) w e h = simp (write-stuck w _ e h)
    stuck (error s) w e h = simp (write-stuck w _ e h)
    stuck (int n) w e h = simp (write-stuck w _ e h)
    stuck (bulk b) w e h = simp (write-stuck w _ e h)
    stuck (array rs) w e h =
        ap (write_replies sink rs) (header_stuck (b'*' ∷ []) (pos (count rs)) w e h)
        ∙ stuck_all rs w e h

    stuck_all :
        (rs : Replies) (w : Writer W E) (e : E) → w.err ≡ some e → write_replies sink rs w ≡ w
    stuck_all done w e h = refl
    stuck_all (more r rs) w e h = ap (write_replies sink rs) (stuck r w e h) ∙ stuck_all rs w e h

  -- Behind an error the writer writes nothing, whatever the stream: a reply leaves the stream and
  -- the error as they are.
  pub write_reply-sticky :
      (r : Reply) (w : Writer W E) (e : E) → w.err ≡ some e → write_reply sink r w ≡ w
  write_reply-sticky r w e h = stuck r w e h
