-- ===== src/Value/Union.antt =====
-- The tagged union of internal/value/value.go and string.go. The payload of sorted sets is the
-- parameter `Z`: nothing here looks into it.
use memcore.Base.{Bool, true, false, Option, none, some, Bytes, codes}
use memcore.Value.Set.{PackSet}
use memcore.Value.Hash.{PackHash}
use memcore.Value.Lists.{PackList}

module _ (Z : Type 0) where
  -- A value that a constructor of the package makes; the zero `Value` is stored nowhere.
  pub data Value : Type 0 where
    string : Bytes → Value
    list : PackList → Value
    hash : PackHash → Value
    set : PackSet → Value
    zset : Z → Value

pub data Kind : Type 0 where
  none_kind string_kind list_kind hash_kind set_kind zset_kind : Kind

-- `Kind.String`
unfoldable pub kind_name : Kind → Bytes
kind_name none_kind = codes "none"
kind_name string_kind = codes "string"
kind_name list_kind = codes "list"
kind_name hash_kind = codes "hash"
kind_name set_kind = codes "set"
kind_name zset_kind = codes "zset"

module _ {Z : Type 0} where
  unfoldable pub kind : Value Z → Kind
  kind (string b) = string_kind
  kind (list l) = list_kind
  kind (hash h) = hash_kind
  kind (set s) = set_kind
  kind (zset z) = zset_kind

  unfoldable pub is_collection : Value Z → Bool
  is_collection (string b) = false
  is_collection (list l) = true
  is_collection (hash h) = true
  is_collection (set s) = true
  is_collection (zset z) = true

  -- The test of the kind with the accessor behind it: the payload, or nothing of another kind.
  abbrev pub as_list : Value Z → Option PackList
  as_list (string b) = none
  as_list (list l) = some l
  as_list (hash h) = none
  as_list (set s) = none
  as_list (zset z) = none

  abbrev pub as_hash : Value Z → Option PackHash
  as_hash (string b) = none
  as_hash (list l) = none
  as_hash (hash h) = some h
  as_hash (set s) = none
  as_hash (zset z) = none

  abbrev pub as_set : Value Z → Option PackSet
  as_set (string b) = none
  as_set (list l) = none
  as_set (hash h) = none
  as_set (set s) = some s
  as_set (zset z) = none
