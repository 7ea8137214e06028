-- ===== src/Command/Tests.antt =====
-- Tests of internal/command: a table of two commands, and the keys of each.
use memcore.Base.{inl, inr, Option, none, ◌++◌}
use memcore.Command.{read_key, write_key}
use memcore.Base.{
  ℕ, ◌≡◌, refl, true, false, some, List, [], ◌∷◌, arith, length, Bytes, bytes_eq, codes,
}
use memcore.Base.Int.{pos, negsuc, ◌+ℤ◌, IsInt64}
use memcore.Base.{◌∙◌, if◌then◌else◌, bytes_eq_refl}
use memcore.Base.Decimal.{append_int}
use memcore.Resp.Reply.{int}
use memcore.Keyspace.Views.{fresh}
use memcore.Command.Tables.{
  string_commands, key_commands, hash_commands, list_commands, set_commands,
}
use memcore.Shard
use memcore.Shard.{Db, lookup}
use memcore.Shard.Routing.{IsSharded, new-IsSharded, lookup-set}
use memcore.Value.Union.{Value, string}
use memcore.Command.Strings.{incr_by}
use memcore.Command.Counters.{lookup-incr_by}
use memcore.Command.Lifetimes.{cmd_expire, cmd_ttl}
use memcore.Command.Deadlines.{cmd_ttl-cmd_expire}
use memcore.Base.GoMap
use memcore.Command.{Command, single_key, keys, read_keys, write_keys}
use memcore.Command.Keys.{single_key-keys}
use memcore.Command.Registry.{Registry, register, resolve, found}
use memcore.Command.Registry.Spellings.{Spells, resolve-register}
use memcore.Shard.{new, index, shard_set}

-- The handlers are numbers here.
abbrev get_command : Command ℕ
get_command = record {
  name = codes "get";
  arity = pos 2;
  run = 1;
  read_only = true;
  whole_db = false;
  first_key = 1;
  last_key = pos 1;
  key_step = 1;
}

abbrev zadd_command : Command ℕ
zadd_command = record {
  name = codes "zadd";
  arity = negsuc 3;
  run = 2;
  read_only = false;
  whole_db = false;
  first_key = 1;
  last_key = pos 1;
  key_step = 1;
}

abbrev table : Registry ℕ
table = (codes "get", get_command) ∷ (codes "zadd", zadd_command) ∷ []

registered : register [] (get_command ∷ zadd_command ∷ []) ≡ some table
unfolding register GoMap.get GoMap.put bytes_eq
registered = refl

abbrev zadd_args : List Bytes
zadd_args = codes "k" ∷ codes "1" ∷ codes "m" ∷ []

spelled : Spells (codes "ZaDd") (codes "zadd")
spelled = (
  inr (omega arith),
  (inl (refl, inr (omega arith)), (inr (omega arith), (inl (refl, inr (omega arith)), tt))),
)

resolve-register_example : resolve table (codes "ZaDd" ∷ zadd_args) ≡ found zadd_command
resolve-register_example =
    resolve-register (get_command ∷ []) [] zadd_command [] table (codes "ZaDd") zadd_args registered
      spelled (omega arith) (omega arith) (omega arith)

abbrev key_hash : Bytes → ℕ
key_hash key = length key

is_single : single_key get_command ≡ true
unfolding single_key
is_single = refl

single_key-keys_example :
    (keys get_command (codes "get" ∷ codes "k" ∷ []) ≡ some (codes "k" ∷ []))
    × (shard_set key_hash (new {V = ℕ} 4) (codes "k" ∷ [])
        ≡ index key_hash (new {V = ℕ} 4) (codes "k") ∷ [])
single_key-keys_example =
    single_key-keys key_hash (new {V = ℕ} 4) get_command (codes "get" ∷ codes "k" ∷ []) is_single
      (omega arith)

abbrev handler : ℕ
handler = 3

abbrev request : List Bytes
request = codes "exists" ∷ codes "a" ∷ codes "b" ∷ []

abbrev Data : Type 0
Data = Value (Unit {0})

abbrev counter : Data
counter = string (append_int (pos 41))

-- A database with a counter at 41.
abbrev counting : Db Data
counting = Shard.set key_hash (new 4) (codes "n") counter

counting_view :
    (lookup key_hash counting (pos 5) (codes "n") ≡ (
      if bytes_eq (codes "n") (codes "n")
      then some (fresh counter)
      else lookup key_hash (new {V = Data} 4) (pos 5) (codes "n")))
    × IsSharded counting
counting_view =
    lookup-set key_hash (new 4) (codes "n") (codes "n") counter (pos 5) (new-IsSharded Data 4)

counter_found : lookup key_hash counting (pos 5) (codes "n") ≡ some (fresh counter)
counter_found = counting_view.0 ∙ rw (bytes_eq_refl (codes "n"))

next-IsInt64 : IsInt64 (pos 41 +ℤ pos 1)
unfolding ◌+ℤ◌
next-IsInt64 = (omega arith, omega arith)

lookup-incr_by_example :
    ((incr_by key_hash counting (pos 5) (codes "n") (pos 1)).1 ≡ int (pos 41 +ℤ pos 1))
    × (lookup key_hash (incr_by key_hash counting (pos 5) (codes "n") (pos 1)).0 (pos 5) (codes "n")
        ≡ (if bytes_eq (codes "n") (codes "n")
            then some (record (fresh counter) { value = string (append_int (pos 41 +ℤ pos 1)) })
            else lookup key_hash counting (pos 5) (codes "n")))
    × IsSharded (incr_by key_hash counting (pos 5) (codes "n") (pos 1)).0
lookup-incr_by_example =
    lookup-incr_by key_hash counting (pos 5) (codes "n") (codes "n") (fresh counter) (pos 41)
      counting_view.1 counter_found refl (omega arith, omega arith) next-IsInt64

abbrev hundred : List Bytes
hundred = codes "expire" ∷ codes "n" ∷ append_int (pos 100) ∷ []

cmd_ttl-cmd_expire_example :
    ((cmd_expire key_hash counting (pos 4) (pos 5) hundred).1 ≡ int (pos 1))
    × (cmd_ttl key_hash
          (cmd_expire key_hash counting (pos 4) (pos 5) hundred).0
          (pos 400000000)
          (pos 500000000)
          (codes "ttl" ∷ codes "n" ∷ [])
        ≡ int (pos 100))
cmd_ttl-cmd_expire_example =
    cmd_ttl-cmd_expire key_hash counting 4 5 400000000 500000000 100 (codes "expire") (codes "ttl")
      (codes "n") (fresh counter) counting_view.1 counter_found (omega arith) (omega arith)
      (omega arith) (omega arith) (omega arith) (omega arith)

abbrev registered_or : {H : Type 0} → Option (Registry H) → Registry H
registered_or none = []
registered_or (some r) = r

-- The five tables of the source can be registered, and hold twenty-six names.
tables_registered :
    length (
      GoMap.keys (
        registered_or (
          register [] (
            string_commands
            ++ (key_commands ++ (hash_commands ++ (list_commands ++ set_commands)))))))
    ≡ 26
unfolding register GoMap.get GoMap.put bytes_eq string_commands key_commands hash_commands
    list_commands set_commands read_key write_key read_keys write_keys
tables_registered = refl
