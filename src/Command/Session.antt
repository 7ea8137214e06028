-- ===== src/Command/Session.antt =====
-- `Context` of internal/command/command.go: the databases of a connection and the selected one. `D` is
-- a database; the clock, limits and settings of the context are passed where they are used.
use memcore.Base.{ℕ, ◌||◌, Bool, true, false, List, [], ◌∷◌, length, get_or, if◌then◌else◌}
use memcore.Base.Int.{ℤ, pos, ltb_ℤ, leb_ℤ, pos_part}

pub record Context (D : Type 0) : Type 0 where
  pub selected : D
  pub databases : List D
  pub at : ℕ

module _ {D : Type 0} where
  -- `Keyspace` starts as `databases[0]`, or as nil, here `none_selected`, if there is none.
  abbrev pub new_context : D → List D → Context D
  new_context none_selected [] = record { selected = none_selected; databases = []; at = 0 }
  new_context none_selected (d ∷ ds) = record { selected = d; databases = d ∷ ds; at = 0 }

  -- The Boolean says whether the index was in range; if not, nothing changes.
  unfoldable pub select : Context D → ℤ → Context D × Bool
  select c i = if ltb_ℤ i (pos 0) || leb_ℤ (pos (length c.databases)) i then (c, false) else (
    record c { selected = get_or c.databases (pos_part i) c.selected; at = pos_part i },
    true,
  )
