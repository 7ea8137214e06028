-- ===== src/Persistence/Torn.antt =====
-- A record that a crash cut off: the reader tells it from the end of the log and from a whole record.
use mathlib.Core.List.{append-nil}
use memcore.Base.{
  ℕ, zero, suc, ◌+◌, ◌*◌, ◌%◌, ◌^◌, ◌≤◌, ◌≡◌, refl, sym, ap, ◌∙◌, false, ◌&&◌, List, [], ◌∷◌, ◌++◌,
  arith, length-append, ltb, ◌==◌, Bytes, Bool-cases, inl, inr,
}
use memcore.Base.Int.{ℤ, pos}
use memcore.Persistence.Stream.{
  eof, unexpected_eof, overflow, unknown_tag, Read, ok, err, panics, ◌>>=◌, unexpected,
  read_uvarint_loop, read_uvarint, read_bytes, max_alloc,
}
use memcore.Persistence.Extends.{Ext, Ext-bind, Ext-unexpected, read_uvarint-Ext, read_bytes-Ext}
use memcore.Persistence.Log.{
  write_command, read_args, args_of, read_command, IsLoggable, read_command-write,
}

read_args-Ext : (n : ℕ) (bs more : Bytes) → Ext more (read_args n bs) (read_args n (bs ++ more))
unfolding read_args
read_args-Ext zero bs more = refl
read_args-Ext (suc n) bs more =
    Ext-bind more (unexpected (read_bytes bs)) (unexpected (read_bytes (bs ++ more))) _
      (Ext-unexpected more (read_bytes bs) (read_bytes (bs ++ more)) (read_bytes-Ext bs more))
      λ a rest.
        Ext-bind more (read_args n rest) (read_args n (rest ++ more)) _ (read_args-Ext n rest more)
          (λ args left. refl)

args_of-Ext : (d n : ℕ) (bs more : Bytes) → Ext more (args_of d n bs) (args_of d n (bs ++ more))
args_of-Ext d n bs more = elim (Bool-cases (ltb max_alloc (24 * n))) [
  | inl y ↦ rw y refl
  | inr m ↦ rw m (
      Ext-bind more (read_args n bs) (read_args n (bs ++ more)) _ (read_args-Ext n bs more)
        (λ args left. refl))
]

read_command-Ext : (bs more : Bytes) → Ext more (read_command bs) (read_command (bs ++ more))
unfolding read_command
read_command-Ext bs more =
    Ext-bind more (read_uvarint bs) (read_uvarint (bs ++ more)) _ (read_uvarint-Ext bs more)
      λ d rest.
        Ext-bind more (unexpected (read_uvarint rest)) (unexpected (read_uvarint (rest ++ more)))
          (args_of d)
          (Ext-unexpected more (read_uvarint rest) (read_uvarint (rest ++ more))
            (read_uvarint-Ext rest more))
          (λ n left. args_of-Ext d n left more)

-- A clean end comes only where a record would begin.
abbrev IsInside : {A : Type 0} → Read A → Type 0
IsInside (ok a rest) = Unit
IsInside (err eof) = ⊥
IsInside (err unexpected_eof) = Unit
IsInside (err overflow) = Unit
IsInside (err unknown_tag) = Unit
IsInside panics = Unit

IsInside-unexpected : {A : Type 0} (r : Read A) → IsInside (unexpected r)
IsInside-unexpected (ok a rest) = tt
IsInside-unexpected (err eof) = tt
IsInside-unexpected (err unexpected_eof) = tt
IsInside-unexpected (err overflow) = tt
IsInside-unexpected (err unknown_tag) = tt
IsInside-unexpected panics = tt

IsInside-bind :
    {A B : Type 0} (m : Read A) (f : A → Bytes → Read B)
    → IsInside m
    → ((a : A) (rest : Bytes) → IsInside (f a rest))
    → IsInside (m >>= f)
IsInside-bind (ok a rest) f h k = k a rest
IsInside-bind (err eof) f h k = absurd h
IsInside-bind (err unexpected_eof) f h k = tt
IsInside-bind (err overflow) f h k = tt
IsInside-bind (err unknown_tag) f h k = tt
IsInside-bind panics f h k = tt

loop-IsInside : (left s x : ℕ) (bs : Bytes) → left ≤ 9 → IsInside (read_uvarint_loop left s x bs)
unfolding read_uvarint_loop
loop-IsInside zero s x bs h = tt
loop-IsInside (suc left) s x [] h = let n : (left == 9) ≡ false = ground arith in rw n tt
loop-IsInside (suc left) s x (b ∷ bs) h = elim (Bool-cases (ltb b 128)) [
  | inr n ↦ rw n (loop-IsInside left (s + 7) (x + b % 128 * 2 ^ s) bs (omega arith))
  | inl y ↦ elim (Bool-cases ((left == 0) && ltb 1 b)) [
    | inl y' ↦ rw (y, y') tt
    | inr n' ↦ rw (y, n') tt
  ]
]

read_uvarint-IsInside : (b : ℕ) (bs : Bytes) → IsInside (read_uvarint (b ∷ bs))
unfolding read_uvarint read_uvarint_loop
read_uvarint-IsInside b bs = elim (Bool-cases (ltb b 128)) [
  | inr n ↦ rw n (loop-IsInside 9 7 (0 + b % 128 * 2 ^ 0) bs (omega arith))
  | inl y ↦ rw y tt
]

read_args-IsInside : (n : ℕ) (bs : Bytes) → IsInside (read_args n bs)
unfolding read_args
read_args-IsInside zero bs = tt
read_args-IsInside (suc n) bs =
    IsInside-bind (unexpected (read_bytes bs)) _ (IsInside-unexpected (read_bytes bs))
      λ a rest. IsInside-bind (read_args n rest) _ (read_args-IsInside n rest) (λ args left. tt)

args_of-IsInside : (d n : ℕ) (bs : Bytes) → IsInside (args_of d n bs)
args_of-IsInside d n bs = elim (Bool-cases (ltb max_alloc (24 * n))) [
  | inl y ↦ rw y tt
  | inr m ↦ rw m (IsInside-bind (read_args n bs) _ (read_args-IsInside n bs) (λ args left. tt))
]

read_command-IsInside : (b : ℕ) (bs : Bytes) → IsInside (read_command (b ∷ bs))
unfolding read_command
read_command-IsInside b bs =
    IsInside-bind (read_uvarint (b ∷ bs)) _ (read_uvarint-IsInside b bs) λ d rest.
      IsInside-bind (unexpected (read_uvarint rest)) (args_of d)
        (IsInside-unexpected (read_uvarint rest)) (args_of-IsInside d)

cut_off :
    (r whole : Read (ℤ × List Bytes)) (v : ℤ × List Bytes) (x : ℕ) (back : Bytes)
    → whole ≡ ok v []
    → Ext (x ∷ back) r whole
    → IsInside r
    → r ≡ err unexpected_eof
cut_off (ok a rest) whole v x back w h i = ground (arith, w, h, length-append rest (x ∷ back))
cut_off (err eof) whole v x back w h i = absurd i
cut_off (err unexpected_eof) whole v x back w h i = refl
cut_off (err overflow) whole v x back w h i = cc
cut_off (err unknown_tag) whole v x back w h i = cc
cut_off panics whole v x back w h i = cc

-- Of the record of a loggable command (database index below 2^63, at most 2^48 bytes of slices and
-- of each argument), every prefix that is neither empty nor the whole of it reads as an unexpected
-- end of the file.
pub read_command_torn :
    (db : ℕ) (args : List Bytes) (b x : ℕ) (front back : Bytes)
    → IsLoggable db args
    → write_command db args ≡ (b ∷ front) ++ (x ∷ back)
    → read_command (b ∷ front) ≡ err unexpected_eof
read_command_torn db args b x front back h e =
    cut_off (read_command (b ∷ front)) (read_command ((b ∷ front) ++ (x ∷ back))) (pos db, args) x
      back whole (read_command-Ext (b ∷ front) (x ∷ back)) (read_command-IsInside b front)
  where
    whole : read_command ((b ∷ front) ++ (x ∷ back)) ≡ ok (pos db, args) []
    whole =
        ap read_command (sym e ∙ sym (append-nil (write_command db args)))
        ∙ read_command-write db args [] h

-- The log's end reads as a clean end.
pub read_command_end : read_command [] ≡ err eof
unfolding read_command read_uvarint read_uvarint_loop
read_command_end = refl
