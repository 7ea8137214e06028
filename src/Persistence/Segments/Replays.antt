-- ===== src/Persistence/Segments/Replays.antt =====
-- Replaying a log gives the commands that were appended, a torn last record left out.
use mathlib.Core.List.{append_assoc, append-nil}
use memcore.Base.{
  ℕ, zero, suc, ◌+◌, ◌≤◌, ◌<◌, ◌≡◌, ◌⊎◌, inl, inr, refl, sym, ap, ◌∙◌, Bool, true, false,
  if◌then◌else◌, List, [], ◌∷◌, ◌++◌, arith, length, length-append, Bytes, All,
}
use mathlib.Core.Path.{fun_ext}
use memcore.Base.Int.{ℤ, pos}
use memcore.Base.Varint.{put_uvarint, length-put_uvarint}
use memcore.Persistence.Stream.{ok, err, eof, unexpected_eof}
use memcore.Persistence.Log.{
  write_command, write_args, read_command, IsLoggable, read_command-write,
}
use memcore.Persistence.Torn.{read_command_torn, read_command_end}
use memcore.Persistence.Segments.{
  Replayed, finished, replay_failed, ended, after, replay_loop, replay_segment,
}

abbrev pub Command : Type 0
Command = ℕ × List Bytes

-- A log of commands, one record after the other.
abbrev pub write_all : List Command → Bytes
write_all [] = []
write_all ((db, args) ∷ cs) = write_command db args ++ write_all cs

abbrev pub AreLoggable : List Command → Type 0
AreLoggable = All (λ c. IsLoggable c.0 c.1)

length-write_all : (cs : List Command) → length cs ≤ length (write_all cs)
unfolding write_command
length-write_all [] = omega arith
length-write_all ((db, args) ∷ cs) = omega (
  arith,
  length-write_all cs,
  length-append (write_command db args) (write_all cs),
  length-append (put_uvarint db) (put_uvarint (length args) ++ write_args args),
  length-put_uvarint db,
)

module _ {S : Type 0} (replay : S → ℤ → List Bytes → S × Bool) where
  -- The commands themselves, run one after the other until one fails, which is not counted.
  pub run : ℕ → S → List Command → Replayed S
  run count st [] = record { state = st; count = count; ending = finished }
  run count st ((db, args) ∷ cs) =
      let (st', succeeded) = replay st (pos db) args in
      if succeeded
      then run (count + 1) st' cs
      else record { state = st'; count = count; ending = replay_failed }

  after-if :
      (next : S → Replayed S) (count : ℕ) (o : S × Bool)
      → after replay next count o
        ≡ (if o.1 then next o.0 else record { state = o.0; count = count; ending = replay_failed })
  after-if next count (st, true) = refl
  after-if next count (st, false) = refl

  loop-ok :
      (fuel count : ℕ) (bs rest : Bytes) (st : S) (db : ℤ) (args : List Bytes)
      → read_command bs ≡ ok (db, args) rest
      → replay_loop replay (suc fuel) bs count st
        ≡ after replay
            (λ st'. replay_loop replay fuel rest (count + 1) st')
            count
            (replay st db args)
  unfolding replay_loop
  loop-ok fuel count bs rest st db args p = rw (p, replay_loop)

  loop-end :
      (fuel count : ℕ) (bs : Bytes) (st : S)
      → (read_command bs ≡ err eof) ⊎ (read_command bs ≡ err unexpected_eof)
      → replay_loop replay (suc fuel) bs count st ≡ ended replay st count finished
  unfolding replay_loop
  loop-end fuel count bs st (inl p) = rw (p, replay_loop)
  loop-end fuel count bs st (inr p) = rw (p, replay_loop)

  loop-write_all :
      (cs : List Command) (tail : Bytes) (fuel count : ℕ) (st : S)
      → AreLoggable cs
      → (read_command tail ≡ err eof) ⊎ (read_command tail ≡ err unexpected_eof)
      → length cs < fuel
      → replay_loop replay fuel (write_all cs ++ tail) count st ≡ run count st cs
  loop-write_all cs tail zero count st h t f = absurd (omega arith)
  loop-write_all [] tail (suc fuel) count st h t f =
      loop-end fuel count tail st t ∙ unfold run in refl
  loop-write_all ((db, args) ∷ cs) tail (suc fuel) count st h t f =
      ap (λ bs. replay_loop replay (suc fuel) bs count st)
        (append_assoc (write_command db args) (write_all cs) tail)
      ∙ loop-ok fuel count _ (write_all cs ++ tail) st (pos db) args
          (read_command-write db args (write_all cs ++ tail) h.0)
      ∙ ap (λ k. after replay k count (replay st (pos db) args))
          (fun_ext (λ st'. loop-write_all cs tail fuel (count + 1) st' h.1 t (omega arith)))
      ∙ after-if (λ st'. run (count + 1) st' cs) count (replay st (pos db) args)
      ∙ unfold run in refl

  replay_whole :
      (cs : List Command) (tail : Bytes) (st : S)
      → AreLoggable cs
      → (read_command tail ≡ err eof) ⊎ (read_command tail ≡ err unexpected_eof)
      → replay_segment replay (write_all cs ++ tail) st ≡ run 0 st cs
  unfolding replay_segment
  replay_whole cs tail st h t =
      loop-write_all cs tail (suc (length (write_all cs ++ tail))) 0 st h t
        (omega (arith, length-write_all cs, length-append (write_all cs) tail))

  -- A log of loggable commands (database index below 2^63, at most 2^48 bytes of slices and of each
  -- argument) replays as those commands run one after the other until one fails: same state, same
  -- count, same end.
  pub replay_segment-write_all :
      (cs : List Command) (st : S)
      → AreLoggable cs
      → replay_segment replay (write_all cs) st ≡ run 0 st cs
  replay_segment-write_all cs st h =
      ap (λ bs. replay_segment replay bs st) (sym (append-nil (write_all cs)))
      ∙ replay_whole cs [] st h (inl read_command_end)

  -- A log of loggable commands (database index below 2^63, at most 2^48 bytes of slices and of each
  -- argument) followed by a record that a crash cut off, anywhere but before its first byte and
  -- behind its last, replays as those commands run one after the other: same state, same count,
  -- same end.
  pub replay_segment_torn :
      (cs : List Command) (db : ℕ) (args : List Bytes) (b x : ℕ) (front back : Bytes) (st : S)
      → AreLoggable cs
      → IsLoggable db args
      → write_command db args ≡ (b ∷ front) ++ (x ∷ back)
      → replay_segment replay (write_all cs ++ (b ∷ front)) st ≡ run 0 st cs
  replay_segment_torn cs db args b x front back st h h' e =
      replay_whole cs (b ∷ front) st h (inr (read_command_torn db args b x front back h' e))
