-- ===== src/Persistence/Tests.antt =====
-- Tests of internal/persistence: a log of two commands, whole, torn, and appended to behind a tear.
use memcore.Base.{
  ℕ, ◌+◌, ◌≤◌, ◌≡◌, refl, Bool, true, List, [], ◌∷◌, ◌++◌, arith, length, take, drop, Bytes, codes,
}
use memcore.Base.Int.{ℤ, pos}
use memcore.Base.Varint.{put_uvarint, put_loop}
use memcore.Persistence.Stream.{ok, err, unexpected_eof, write_bytes}
use memcore.Persistence.Log.{write_command, write_args, read_command, IsLoggable}
use memcore.Persistence.Torn.{read_command_torn}
use memcore.Persistence.Segments.{replay_segment}
use memcore.Persistence.Segments.Replays.{
  Command, write_all, AreLoggable, run, replay_segment-write_all, replay_segment_torn,
}
use memcore.Persistence.Segments.Appends.{cut_record, read_command_swallows}

-- A callback that counts the arguments it is given.
abbrev count_args : ℕ → ℤ → List Bytes → ℕ × Bool
count_args n db args = (n + length args, true)

abbrev set_k : List Bytes
set_k = codes "set" ∷ codes "k" ∷ codes "v" ∷ []

abbrev del_k : List Bytes
del_k = codes "del" ∷ codes "k" ∷ []

abbrev log : List Command
log = (0, set_k) ∷ (3, del_k) ∷ []

set_k-IsLoggable : IsLoggable 0 set_k
set_k-IsLoggable = record {
  index = omega arith;
  few = omega arith;
  fit = (omega arith, (omega arith, (omega arith, tt)));
}

del_k-IsLoggable : IsLoggable 3 del_k
del_k-IsLoggable = record {
  index = omega arith;
  few = omega arith;
  fit = (omega arith, (omega arith, tt));
}

log-AreLoggable : AreLoggable log
log-AreLoggable = (set_k-IsLoggable, (del_k-IsLoggable, tt))

-- The record of DEL k, cut off behind its first four bytes.
cut : write_command 3 del_k ≡ (3 ∷ 2 ∷ 3 ∷ b'd' ∷ []) ++ (b'e' ∷ b'l' ∷ 1 ∷ b'k' ∷ [])
unfolding write_command write_args write_bytes put_uvarint put_loop
cut = refl

replay_segment_torn_example :
    replay_segment count_args (write_all log ++ (3 ∷ 2 ∷ 3 ∷ b'd' ∷ [])) 0 ≡ run count_args 0 0 log
replay_segment_torn_example =
    replay_segment_torn count_args log 3 del_k 3 b'e' (2 ∷ 3 ∷ b'd' ∷ []) (b'l' ∷ 1 ∷ b'k' ∷ []) 0
      log-AreLoggable del_k-IsLoggable cut

replay_segment-write_all_example :
    replay_segment count_args (write_all log) 0 ≡ run count_args 0 0 log
replay_segment-write_all_example = replay_segment-write_all count_args log 0 log-AreLoggable

read_command_torn_example : read_command (3 ∷ 2 ∷ 3 ∷ b'd' ∷ []) ≡ err unexpected_eof
read_command_torn_example =
    read_command_torn 3 del_k 3 b'e' (2 ∷ 3 ∷ b'd' ∷ []) (b'l' ∷ 1 ∷ b'k' ∷ []) del_k-IsLoggable cut

-- DEL and a key of 4 bytes, of which 1 was written; SET k v is appended.
swallowed-IsLoggable :
    IsLoggable 0 ((codes "del" ∷ []) ++ ((codes "x" ++ take 3 (write_command 0 set_k)) ∷ []))
unfolding write_command write_args write_bytes put_uvarint put_loop
swallowed-IsLoggable = record {
  index = omega arith;
  few = omega arith;
  fit = (omega arith, (omega arith, tt));
}

long_enough : 3 ≤ length (write_command 0 set_k)
unfolding write_command write_args write_bytes put_uvarint put_loop
long_enough = omega arith

read_command_swallows_example :
    read_command (cut_record 0 (codes "del" ∷ []) 4 (codes "x") ++ write_command 0 set_k)
    ≡ ok
        (pos 0, (codes "del" ∷ []) ++ ((codes "x" ++ take 3 (write_command 0 set_k)) ∷ []))
        (drop 3 (write_command 0 set_k))
read_command_swallows_example =
    read_command_swallows 0 (codes "del" ∷ []) 4 3 (codes "x") (write_command 0 set_k) (omega arith)
      long_enough swallowed-IsLoggable
