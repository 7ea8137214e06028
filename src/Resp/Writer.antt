-- ===== src/Resp/Writer.antt =====
-- internal/resp/writer.go. What the buffered stream does with a write is a parameter: `sink` takes the
-- bytes and may answer with an error.
use memcore.Base.{ℕ, suc, Option, none, some, [], ◌∷◌, ◌++◌, length, Bytes, codes}
use memcore.Base.Int.{ℤ, pos}
use memcore.Base.Decimal.{append_int}
use memcore.Resp.Reply.{Reply, Replies, nil, simple, error, int, bulk, array, done, more}

abbrev pub crlf : Bytes
crlf = 13 ∷ 10 ∷ []

-- `len(r.array)`
abbrev pub count : Replies → ℕ
count done = 0
count (more r rs) = suc (count rs)

module _ (W E : Type 0) where
  -- `Writer`: the stream and the first error.
  pub record Writer : Type 0 where
    pub w : W
    pub err : Option E

module _ {W E : Type 0} (sink : W → Bytes → W × Option E) where
  -- `write`, `writeString` and `writeByte`: nothing is written behind an error.
  abbrev pub write_if : Writer W E → Bytes → Option E → Writer W E
  write_if w p (some e) = w
  write_if w p none = record { w = (sink w.w p).0; err = (sink w.w p).1 }

  unfoldable pub write : Writer W E → Bytes → Writer W E
  write w p = write_if w p w.err

  unfoldable pub write_int : Writer W E → ℤ → Writer W E
  write_int w n = write w (append_int n)

  unfoldable pub write_frame : Writer W E → ℕ → Bytes → Writer W E
  write_frame w prefix s = write (write (write w (prefix ∷ [])) s) crlf

  unfoldable pub write_bulk : Writer W E → Bytes → Writer W E
  unfolding write_int
  write_bulk w b =
      write (write (write (write_int (write w (b'$' ∷ [])) (pos (length b))) crlf) b) crlf

  unfoldable mutual
    unfolding write_int write_frame write_bulk

    pub write_reply : Reply → Writer W E → Writer W E
    write_reply nil w = write w (codes "$-1" ++ crlf)
    write_reply (simple s) w = write_frame w b'+' s
    write_reply (error s) w = write_frame w b'-' s
    write_reply (int n) w = write (write_int (write w (b':' ∷ [])) n) crlf
    write_reply (bulk b) w = write_bulk w b
    write_reply (array rs) w =
        write_replies rs (write (write_int (write w (b'*' ∷ [])) (pos (count rs))) crlf)

    pub write_replies : Replies → Writer W E → Writer W E
    write_replies done w = w
    write_replies (more r rs) w = write_replies rs (write_reply r w)
