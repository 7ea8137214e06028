-- ===== src/Command/Tables.antt =====
-- The tables of internal/command/strings.go, keys.go, hashes.go, lists.go and sets.go: a handler is named by its function.
use memcore.Base.{List, [], ◌∷◌, codes}
use memcore.Base.Int.{pos, negsuc}
use memcore.Command.{Command, read_key, write_key, read_keys, write_keys}

pub data Handler : Type 0 where
  get_handler set_handler incr_handler decr_handler : Handler
  del_handler unlink_handler exists_handler expire_handler pexpireat_handler : Handler
  ttl_handler persist_handler type_handler : Handler
  hset_handler hget_handler hdel_handler hgetall_handler : Handler
  lpush_handler rpush_handler lpop_handler rpop_handler lrange_handler llen_handler : Handler
  sadd_handler srem_handler smembers_handler sinter_handler : Handler

unfoldable pub string_commands : List (Command Handler)
string_commands =
    read_key (codes "get") (pos 2) get_handler
    ∷ write_key (codes "set") (pos 3) set_handler
    ∷ write_key (codes "incr") (pos 2) incr_handler
    ∷ write_key (codes "decr") (pos 2) decr_handler
    ∷ []

unfoldable pub key_commands : List (Command Handler)
key_commands =
    write_keys (codes "del") (negsuc 1) del_handler
    ∷ write_keys (codes "unlink") (negsuc 1) unlink_handler
    ∷ read_keys (codes "exists") (negsuc 1) exists_handler
    ∷ write_key (codes "expire") (pos 3) expire_handler
    ∷ write_key (codes "pexpireat") (pos 3) pexpireat_handler
    ∷ read_key (codes "ttl") (pos 2) ttl_handler
    ∷ write_key (codes "persist") (pos 2) persist_handler
    ∷ read_key (codes "type") (pos 2) type_handler
    ∷ []

unfoldable pub hash_commands : List (Command Handler)
hash_commands =
    write_key (codes "hset") (negsuc 3) hset_handler
    ∷ read_key (codes "hget") (pos 3) hget_handler
    ∷ write_key (codes "hdel") (negsuc 2) hdel_handler
    ∷ read_key (codes "hgetall") (pos 2) hgetall_handler
    ∷ []

unfoldable pub list_commands : List (Command Handler)
list_commands =
    write_key (codes "lpush") (negsuc 2) lpush_handler
    ∷ write_key (codes "rpush") (negsuc 2) rpush_handler
    ∷ write_key (codes "lpop") (negsuc 1) lpop_handler
    ∷ write_key (codes "rpop") (negsuc 1) rpop_handler
    ∷ read_key (codes "lrange") (pos 4) lrange_handler
    ∷ read_key (codes "llen") (pos 2) llen_handler
    ∷ []

unfoldable pub set_commands : List (Command Handler)
set_commands =
    write_key (codes "sadd") (negsuc 2) sadd_handler
    ∷ write_key (codes "srem") (negsuc 2) srem_handler
    ∷ read_key (codes "smembers") (pos 2) smembers_handler
    ∷ read_keys (codes "sinter") (negsuc 1) sinter_handler
    ∷ []
