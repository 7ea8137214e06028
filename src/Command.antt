-- ===== src/Command.antt =====
-- internal/command/command.go: the command table's entries, their arity rules and the keys they touch.
-- What a handler is stays open: `H` is the type of the handlers.
pub mod Keys
pub mod Registry
pub mod Strings
pub mod Counters
pub mod Lifetimes
pub mod Deadlines
pub mod Session
pub mod Collections
pub mod Replays
pub mod Loops
pub mod Sets
pub mod Hashes
pub mod Lists
pub mod Tables
mod Tests
use memcore.Base.{
  ℕ, zero, suc, ◌+◌, Bool, true, false, not, ◌&&◌, ◌||◌, Option, none, some, List, [], ◌∷◌, length,
  get_or, ltb, ◌==◌, if◌then◌else◌, Bytes,
}
use memcore.Base.Int.{ℤ, pos, negsuc, ◌+ℤ◌, leb_ℤ, ltb_ℤ, pos_part}

module _ (H : Type 0) where
  -- `first_key` and `key_step` are never below 0 in the table.
  pub record Command : Type 0 where
    pub name : Bytes
    pub arity : ℤ
    pub run : H
    pub read_only : Bool
    pub whole_db : Bool
    pub first_key : ℕ
    pub last_key : ℤ
    pub key_step : ℕ

-- The loop of `Keys`, over the indices from `i` to `last`; a round for each of them is enough.
unfoldable pub keys_from : ℕ → ℕ → ℕ → ℕ → List Bytes → List Bytes
keys_from zero i last step args = []
keys_from (suc fuel) i last step args =
    let rest = keys_from fuel (i + step) last step args in
    if ltb last i then [] else get_or args i [] ∷ rest

-- The index of the last key, clamped to the arguments.
unfoldable pub last_index : ℤ → ℕ → ℤ
unfolding ◌+ℤ◌
last_index last n =
    let last1 = if ltb_ℤ last (pos 0) then pos n +ℤ last else last in
    if leb_ℤ (pos n) last1 then pos n +ℤ negsuc 0 else last1

-- `Keys` behind the test for keys. The capacity divides by the step, so a step of 0 panics, here
-- `none`.
abbrev pub keys_to : Bool → ℕ → ℤ → ℕ → List Bytes → Option (List Bytes)
keys_to true first last step args = some []
keys_to false first last step args =
    if ltb_ℤ last (pos first)
    then some []
    else if step == 0
    then none
    else some (keys_from (suc (pos_part last)) first (pos_part last) step args)

-- `accepts`
abbrev pub accepts_arity : ℤ → ℕ → Bool
accepts_arity (pos a) n = n == a
accepts_arity (negsuc a) n = ltb a n

module _ {H : Type 0} where
  unfoldable pub single_key : Command H → Bool
  single_key c =
      (c.first_key == 1)
      && ((leb_ℤ c.last_key (pos 1) && leb_ℤ (pos 1) c.last_key)
          && ((c.key_step == 1) && not c.whole_db))

  unfoldable pub keys : Command H → List Bytes → Option (List Bytes)
  unfolding last_index keys_from
  keys c args =
      keys_to ((c.first_key == 0) || c.whole_db) c.first_key (last_index c.last_key (length args))
        c.key_step args

  unfoldable pub accepts : Command H → ℕ → Bool
  accepts c n = accepts_arity c.arity n

  -- The constructors of the table's entries.
  unfoldable pub plain : Bytes → ℤ → H → Command H
  plain name arity run = record {
    name = name;
    arity = arity;
    run = run;
    read_only = false;
    whole_db = false;
    first_key = 0;
    last_key = pos 0;
    key_step = 0;
  }

  unfoldable pub read_key : Bytes → ℤ → H → Command H
  read_key name arity run = record {
    name = name;
    arity = arity;
    run = run;
    read_only = true;
    whole_db = false;
    first_key = 1;
    last_key = pos 1;
    key_step = 1;
  }

  unfoldable pub write_key : Bytes → ℤ → H → Command H
  write_key name arity run = record {
    name = name;
    arity = arity;
    run = run;
    read_only = false;
    whole_db = false;
    first_key = 1;
    last_key = pos 1;
    key_step = 1;
  }

  unfoldable pub read_keys : Bytes → ℤ → H → Command H
  read_keys name arity run = record {
    name = name;
    arity = arity;
    run = run;
    read_only = true;
    whole_db = false;
    first_key = 1;
    last_key = negsuc 0;
    key_step = 1;
  }

  unfoldable pub write_keys : Bytes → ℤ → H → Command H
  write_keys name arity run = record {
    name = name;
    arity = arity;
    run = run;
    read_only = false;
    whole_db = false;
    first_key = 1;
    last_key = negsuc 0;
    key_step = 1;
  }

  unfoldable pub whole_db_command : Bytes → ℤ → H → Command H
  whole_db_command name arity run = record {
    name = name;
    arity = arity;
    run = run;
    read_only = false;
    whole_db = true;
    first_key = 0;
    last_key = pos 0;
    key_step = 0;
  }
