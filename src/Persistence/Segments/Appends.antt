-- ===== src/Persistence/Segments/Appends.antt =====
-- What happens to a torn record when the log is opened again: `Open` appends behind it.
use mathlib.Core.List.{append_assoc, append-nil}
use memcore.Base.{
  ℕ, zero, suc, ◌+◌, ◌≤◌, ◌≡◌, refl, sym, ap, ◌∙◌, List, [], ◌∷◌, ◌++◌, arith, length,
  length-append, take, drop, length-take, Bytes,
}
use memcore.Base.Int.{pos}
use memcore.Base.Varint.{put_uvarint}
use memcore.Persistence.Stream.{ok, write_bytes}
use memcore.Persistence.Log.{
  write_command, write_args, read_command, IsLoggable, read_command-write,
}

-- The record of a command whose last argument was to be `n` bytes, cut off behind `start`.
pub cut_record : ℕ → List Bytes → ℕ → Bytes → Bytes
cut_record db args n start =
    put_uvarint db
    ++ (put_uvarint (length args + 1) ++ (write_args args ++ (put_uvarint n ++ start)))

take-append-drop : (n : ℕ) (bs : Bytes) → take n bs ++ drop n bs ≡ bs
take-append-drop zero bs = refl
take-append-drop (suc n) [] = refl
take-append-drop (suc n) (b ∷ bs) = ap (λ t. b ∷ t) (take-append-drop n bs)

write_args-snoc :
    (args : List Bytes) (a : Bytes)
    → write_args (args ++ (a ∷ [])) ≡ write_args args ++ write_bytes a
unfolding write_args
write_args-snoc [] a = append-nil (write_bytes a)
write_args-snoc (b ∷ args) a = simp (write_args-snoc args a, append_assoc)

pub cut_record-append :
    (db : ℕ) (args : List Bytes) (n : ℕ) (start fill : Bytes)
    → length start + length fill ≡ n
    → cut_record db args n start ++ fill ≡ write_command db (args ++ ((start ++ fill) ∷ []))
unfolding cut_record write_command write_bytes
cut_record-append db args n start fill e =
    let size : n ≡ length (start ++ fill) = omega (arith, length-append start fill) in
    let few : length args + 1 ≡ length (args ++ ((start ++ fill) ∷ [])) =
      omega (arith, length-append args ((start ++ fill) ∷ [])) in
    rw (write_args-snoc args (start ++ fill), ← few, size) (simp append_assoc)

-- If a record was cut off `missing` bytes before the end of its last argument and at least as many
-- bytes were appended behind it, and the command with its last argument filled up from those bytes
-- is loggable, then `readCommand` reads that command, which nobody sent, and leaves the rest of the
-- appended bytes.
pub read_command_swallows :
    (db : ℕ) (args : List Bytes) (n missing : ℕ) (start later : Bytes)
    → length start + missing ≡ n
    → missing ≤ length later
    → IsLoggable db (args ++ ((start ++ take missing later) ∷ []))
    → read_command (cut_record db args n start ++ later)
      ≡ ok (pos db, args ++ ((start ++ take missing later) ∷ [])) (drop missing later)
read_command_swallows db args n missing start later e enough h =
    ap (λ t. read_command (cut_record db args n start ++ t)) (sym (take-append-drop missing later))
    ∙ ap read_command
        (sym (append_assoc (cut_record db args n start) (take missing later) (drop missing later)))
    ∙ ap (λ t. read_command (t ++ drop missing later))
        (cut_record-append db args n start (take missing later)
          (omega (arith, length-take missing later)))
    ∙ read_command-write db (args ++ ((start ++ take missing later) ∷ [])) (drop missing later) h
