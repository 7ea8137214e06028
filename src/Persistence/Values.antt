-- ===== src/Persistence/Values.antt =====
-- The value codec of internal/persistence/codec.go. What it uses of sorted sets is a parameter; a score
-- is its `Float64bits`.
pub mod Rounds
pub mod Data
pub mod RoundTrip
use memcore.Base.{
  ℕ, zero, suc, ◌*◌, ◌+◌, ◌/◌, ◌%◌, Bool, Option, none, some, List, [], ◌∷◌, ◌++◌, length, ◌==◌,
  if◌then◌else◌, Bytes,
}
use memcore.Base.Int.{pos, negsuc}
use memcore.Base.Varint.{put_uvarint}
use memcore.Value.Limits.{Thresholds, Limits}
use memcore.Value.Lists
use memcore.Value.Lists.{new_list}
use memcore.Value.Hash
use memcore.Value.Hash.{PackHash, new_hash}
use memcore.Value.Set
use memcore.Value.Set.{PackSet, new_set}
use memcore.Value.Union
use memcore.Value.Union.{Value, string}
use memcore.Persistence.Stream.{
  Read, ok, err, panics, eof, unknown_tag, ◌>>=◌, read_uvarint, write_bytes, read_bytes, read_full,
}

-- What the codec uses of a sorted set: `NewZSet`, `Add` and `Range(0, -1)`. `none` is a panic.
pub record ZSets (Z : Type 0) : Type 0 where
  pub new_zset : Thresholds → Z
  pub add_score : Z → Bytes → ℕ → Option Z
  pub ranked : Z → Option (List (Bytes × ℕ))

-- `LittleEndian.PutUint64` of eight bytes, and back.
unfoldable pub put_little : ℕ → ℕ → Bytes
put_little zero n = []
put_little (suc k) n = n % 256 ∷ put_little k (n / 256)

unfoldable pub little : Bytes → ℕ
little [] = 0
little (b ∷ bs) = b + 256 * little bs

unfoldable pub write_each {ℓ} : {X : Type ℓ} → (X → Bytes) → List X → Bytes
write_each enc [] = []
write_each enc (x ∷ xs) = enc x ++ write_each enc xs

unfoldable pub write_elements : ℕ → List Bytes → Bytes
unfolding write_each
write_elements tag elems = tag ∷ (put_uvarint (length elems) ++ write_each write_bytes elems)

-- `writeBytes` of the member and `writeScore`.
abbrev pub write_scored : Bytes × ℕ → Bytes
write_scored (member, score) = write_bytes member ++ put_little 8 score

abbrev pub elements_written : ℕ → Option (List Bytes) → Option Bytes
elements_written tag none = none
elements_written tag (some es) = some (write_elements tag es)

abbrev pub pairs_written : Option (List Bytes) → Option Bytes
pairs_written none = none
pairs_written (some ps) = some (b'h' ∷ (put_uvarint (length ps / 2) ++ write_each write_bytes ps))

abbrev pub scored_written : Option (List (Bytes × ℕ)) → Option Bytes
scored_written none = none
scored_written (some ms) = some (b'z' ∷ (put_uvarint (length ms) ++ write_each write_scored ms))

-- The loops of `readValue`: a count of items, each of which is added. `none` of `add` is a panic.
module _ {S X : Type 0} (item : Bytes → Read X) (add : S → X → Option S) where
  abbrev pub added : (S → Read S) → Option S → Read S
  added next none = panics
  added next (some s) = next s

  unfoldable pub read_rounds : ℕ → S → Bytes → Read S
  read_rounds zero s bs = ok s bs
  read_rounds (suc n) s bs = item bs >>= λ x rest. added (λ s'. read_rounds n s' rest) (add s x)

  unfoldable pub read_elements : S → Bytes → Read S
  unfolding read_rounds
  read_elements s bs = read_uvarint bs >>= λ n rest. read_rounds n s rest

abbrev pub read_pair : Bytes → Read (Bytes × Bytes)
read_pair bs = read_bytes bs >>= λ field rest. read_bytes rest >>= λ val left. ok (field, val) left

-- `readBytes` of the member and `readScore`.
abbrev pub read_scored : Bytes → Read (Bytes × ℕ)
read_scored bs =
    read_bytes bs >>= λ member rest. read_full 8 rest >>= λ sb left. ok (member, little sb) left

abbrev pub without_flag : {S : Type 0} → Option (S × Bool) → Option S
without_flag none = none
without_flag (some (s, flag)) = some s

abbrev pub set_pair : PackHash → Bytes × Bytes → Option PackHash
set_pair h (f, v) = without_flag (Hash.set h f v)

abbrev pub add_member : PackSet → Bytes → Option PackSet
add_member s m = without_flag (Set.add s m)

module _ {Z : Type 0} (zs : ZSets Z) where
  unfoldable pub write_value : Value Z → Option Bytes
  unfolding write_elements
  write_value (string b) = some (b's' ∷ write_bytes b)
  write_value (Union.list l) = elements_written b'l' (Lists.range l (pos 0) (negsuc 0))
  write_value (Union.hash h) = pairs_written (Hash.pairs h)
  write_value (Union.set s) = elements_written b'p' (Set.members s)
  write_value (Union.zset z) = scored_written (zs.ranked z)

  abbrev pub add_scored : Z → Bytes × ℕ → Option Z
  add_scored z (member, score) = zs.add_score z member score

  abbrev pub made : {A : Type 0} → (A → Value Z) → Read A → Read (Value Z)
  made make r = r >>= λ a rest. ok (make a) rest

  abbrev pub read_tagged : Limits → ℕ → Bytes → Read (Value Z)
  read_tagged limits tag bs =
      if tag == b's'
      then made string (read_bytes bs)
      else if tag == b'l'
      then made Union.list (read_elements read_bytes Lists.push_back (new_list limits.list) bs)
      else if tag == b'h'
      then made Union.hash (read_elements read_pair set_pair (new_hash limits.hash) bs)
      else if tag == b'p'
      then made Union.set (read_elements read_bytes add_member (new_set limits.set) bs)
      else if tag == b'z'
      then made Union.zset (read_elements read_scored add_scored (zs.new_zset limits.zset) bs)
      else err unknown_tag

  unfoldable pub read_value : Limits → Bytes → Read (Value Z)
  unfolding read_elements
  read_value limits [] = err eof
  read_value limits (tag ∷ bs) = read_tagged limits tag bs
