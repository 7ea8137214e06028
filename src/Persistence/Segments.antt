-- ===== src/Persistence/Segments.antt =====
-- `replaySegment` of internal/persistence/recover.go.
pub mod Replays
pub mod Appends
use memcore.Base.{ℕ, zero, suc, ◌+◌, Bool, true, false, List, [], ◌∷◌, length, Bytes}
use memcore.Base.Int.{ℤ}
use memcore.Persistence.Stream.{
  Read, ReadError, ok, err, panics, eof, unexpected_eof, overflow, unknown_tag,
}
use memcore.Persistence.Log.{read_command}

-- How a replay ends: at the end of the log or a torn record; with an error of the callback or of the
-- reader; with a panic. `out_of_fuel` is no outcome of the code.
pub data Ending : Type 0 where
  finished replay_failed read_failed panicked out_of_fuel : Ending

-- The callback's state, the number of commands replayed, and the end.
pub record Replayed (S : Type 0) : Type 0 where
  pub state : S
  pub count : ℕ
  pub ending : Ending

-- `replay` is the callback: the state that it leaves and whether it succeeded.
module _ {S : Type 0} (replay : S → ℤ → List Bytes → S × Bool) where
  abbrev pub ended : S → ℕ → Ending → Replayed S
  ended st count ending = record { state = st; count = count; ending = ending }

  -- The loop goes on behind a command that succeeded.
  abbrev pub after : (S → Replayed S) → ℕ → S × Bool → Replayed S
  after next count (st, true) = next st
  after next count (st, false) = ended st count replay_failed

  unfoldable pub replay_loop : ℕ → Bytes → ℕ → S → Replayed S
  replay_loop zero bs count st = ended st count out_of_fuel
  replay_loop (suc fuel) bs count st = elim (read_command bs) [
    | ok (db, args) rest ↦
        after (λ st'. replay_loop fuel rest (count + 1) st') count (replay st db args)
    | err eof ↦ ended st count finished
    | err unexpected_eof ↦ ended st count finished
    | err overflow ↦ ended st count read_failed
    | err unknown_tag ↦ ended st count read_failed
    | panics ↦ ended st count panicked
  ]

  -- A record takes a byte or more, so a round for each byte and one for the end are enough.
  unfoldable pub replay_segment : Bytes → S → Replayed S
  unfolding replay_loop
  replay_segment bs st = replay_loop (suc (length bs)) bs 0 st
