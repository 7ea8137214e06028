-- ===== src/Persistence/Log.antt =====
-- `writeCommand` and `readCommand` of internal/persistence/appendlog.go.
use mathlib.Core.List.{append_assoc}
use memcore.Base.{
  ℕ, zero, suc, ◌-◌, ◌*◌, ◌^◌, ◌≤◌, ◌<◌, ◌≡◌, refl, true, false, List, [], ◌∷◌, ◌++◌, arith, length,
  ltb, if◌then◌else◌, Bytes, All,
}
use memcore.Base.Int.{ℤ, pos, negsuc}
use memcore.Base.Varint.{put_uvarint}
use memcore.Persistence.Stream.{
  Read, ok, panics, ◌>>=◌, unexpected, read_uvarint, read_uvarint-put, write_bytes, read_bytes,
  read_bytes-write, max_alloc,
}

unfoldable pub write_args : List Bytes → Bytes
write_args [] = []
write_args (a ∷ args) = write_bytes a ++ write_args args

unfoldable pub write_command : ℕ → List Bytes → Bytes
unfolding write_args
write_command db args = put_uvarint db ++ (put_uvarint (length args) ++ write_args args)

-- `int(d)` of a `uint64` wraps.
abbrev pub int_of : ℕ → ℤ
int_of d = if ltb d (2 ^ 63) then pos d else negsuc (2 ^ 64 - d - 1)

unfoldable pub read_args : ℕ → Bytes → Read (List Bytes)
read_args zero bs = ok [] bs
read_args (suc n) bs =
    unexpected (read_bytes bs) >>= λ a rest. read_args n rest >>= λ args left. ok (a ∷ args) left

-- `make([][]byte, n)` takes 24 bytes for each slice.
abbrev pub args_of : ℕ → ℕ → Bytes → Read (ℤ × List Bytes)
args_of d n bs =
    let args = read_args n bs >>= λ args left. ok (int_of d, args) left in
    if ltb max_alloc (24 * n) then panics else args

unfoldable pub read_command : Bytes → Read (ℤ × List Bytes)
unfolding read_args
read_command bs = read_uvarint bs >>= λ d rest. unexpected (read_uvarint rest) >>= args_of d

-- What the append log can hold: an index of a database, and arguments that fit memory.
pub record IsLoggable (db : ℕ) (args : List Bytes) : Type 0 where
  pub index : db < 2 ^ 63
  pub few : 24 * length args ≤ max_alloc
  pub fit : All (λ a. length a ≤ max_alloc) args

read_args-write :
    (args : List Bytes) (rest : Bytes)
    → All (λ a. length a ≤ max_alloc) args
    → read_args (length args) (write_args args ++ rest) ≡ ok args rest
unfolding read_args write_args
read_args-write [] rest h = refl
read_args-write (a ∷ args) rest h =
    rw (
      append_assoc,
      read_bytes-write a (write_args args ++ rest) h.0,
      read_args-write args rest h.1,
    )

args_of-write :
    (db : ℕ) (args : List Bytes) (rest : Bytes)
    → IsLoggable db args
    → args_of db (length args) (write_args args ++ rest) ≡ ok (pos db, args) rest
args_of-write db args rest h =
    let few : ltb max_alloc (24 * length args) ≡ false = ground (arith, h.few) in
    let index : ltb db (2 ^ 63) ≡ true = ground (arith, h.index) in
    rw (few, index, read_args-write args rest h.fit)

-- `readCommand` reads back a loggable command (database index below 2^63, at most 2^48 bytes of
-- slices and of each argument) that `writeCommand` wrote, and leaves what follows in the file.
pub read_command-write :
    (db : ℕ) (args : List Bytes) (rest : Bytes)
    → IsLoggable db args
    → read_command (write_command db args ++ rest) ≡ ok (pos db, args) rest
unfolding read_command write_command
read_command-write db args rest h =
    rw
      (
        append_assoc,
        append_assoc,
        read_uvarint-put db (put_uvarint (length args) ++ (write_args args ++ rest))
            (omega (arith, h.index)),
        read_uvarint-put (length args) (write_args args ++ rest) (omega (arith, h.few)),
      )
      (args_of-write db args rest h)
