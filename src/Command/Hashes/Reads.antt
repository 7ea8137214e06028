-- ===== src/Command/Hashes/Reads.antt =====
-- HGET and HGETALL against the map of fields that a key stands for.
use memcore.Base.{ℕ, ◌≡◌, refl, ap, ◌∙◌, Option, none, some, List, [], get_or, Bytes}
use memcore.Base.GoMap
use memcore.Base.GoMap.{GoMap}
use memcore.Keyspace.{Time, Entry}
use memcore.Resp.Reply.{Reply, nil, bulk, array, bulks}
use memcore.Shard.{Db, lookup}
use memcore.Value.Hash.{flat}
use memcore.Value.Hash.Queries.{get_refines, pairs_refines}
use memcore.Value.Union.{Value}
use memcore.Command.Hashes.{got, listed, field_found, pairs_found, cmd_hget, cmd_hgetall}
use memcore.Command.Hashes.Fields.{Fields, no_fields}

abbrev pub value_reply : Option Bytes → Reply
value_reply none = nil
value_reply (some v) = bulk v

module _ {Z : Type 0} where
  field_found_lem :
      (f : Bytes) (t : Time) (m : GoMap Bytes) (o : Option (Entry (Value Z)))
      → Fields o t m
      → field_found f o ≡ some (value_reply (GoMap.get f m))
  field_found_lem f t m none (empty, never) = rw (← no_fields m empty) (unfold GoMap.get in refl)
  field_found_lem f t m (some x) (some_field, until, (h, kind, held)) =
      rw kind (ap got (get_refines h m f held) ∙ got_lem (GoMap.get f m))
    where
      got_lem : (o : Option Bytes) → got (some o) ≡ some (value_reply o)
      got_lem none = refl
      got_lem (some v) = refl

  pairs_found_lem :
      (t : Time) (m : GoMap Bytes) (o : Option (Entry (Value Z)))
      → Fields o t m
      → pairs_found o ≡ some (array (bulks (flat m)))
  pairs_found_lem t m none (empty, never) = rw (← no_fields m empty) refl
  pairs_found_lem t m (some x) (some_field, until, (h, kind, held)) =
      rw kind (ap listed (pairs_refines h m held))

  -- On a key that stands for the fields `m`, or is absent and `m` empty, HGET replies the value of
  -- the field in `m`, or nil, and HGETALL replies the fields of `m` with their values; neither
  -- panics.
  pub hash_reads_refine :
      (hash : Bytes → ℕ) (db : Db (Value Z)) (now t : Time) (args : List Bytes) (m : GoMap Bytes)
      → Fields (lookup hash db now (get_or args 1 [])) t m
      → (cmd_hget hash db now args ≡ some (value_reply (GoMap.get (get_or args 2 []) m)))
        × (cmd_hgetall hash db now args ≡ some (array (bulks (flat m))))
  unfolding cmd_hget cmd_hgetall
  hash_reads_refine hash db now t args m h =
      (field_found_lem (get_or args 2 []) t m _ h, pairs_found_lem t m _ h)
