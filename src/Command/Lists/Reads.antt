-- ===== src/Command/Lists/Reads.antt =====
-- LRANGE and LLEN against the elements that a key stands for.
use memcore.Base.{ℕ, ◌≡◌, refl, ap, ◌∙◌, Option, none, some, List, [], length, get_or, Bytes}
use memcore.Base.Int.{ℤ, pos}
use memcore.Base.Decimal.{parse_int}
use memcore.Keyspace.{Time, Entry}
use memcore.Resp.Reply.{int, array, bulks}
use memcore.Shard.{Db, lookup}
use memcore.Value.Limits.{normalize_range}
use memcore.Value.Lists.Refines.{len_refines}
use memcore.Value.Lists.Slices.{selected, range_refines}
use memcore.Value.Union.{Value}
use memcore.Command.Lists.{listed, elements_found, length_found, range_of, cmd_lrange, cmd_llen}
use memcore.Command.Lists.Pushes.{Elements, no_elements}

module _ {Z : Type 0} where
  elements_found_lem :
      (t : Time) (start stop : ℤ) (es : List Bytes) (o : Option (Entry (Value Z)))
      → Elements o t es
      → elements_found start stop o
        ≡ some (array (bulks (selected es (normalize_range start stop (length es)))))
  elements_found_lem t start stop es none (empty, never) =
      rw (← no_elements es empty) (unfold normalize_range in refl)
  elements_found_lem t start stop es (some x) (some_element, until, (l, kind, h)) =
      rw kind (ap listed (range_refines l es start stop h))

  length_found_lem :
      (t : Time) (es : List Bytes) (o : Option (Entry (Value Z)))
      → Elements o t es
      → length_found o ≡ int (pos (length es))
  length_found_lem t es none (empty, never) = rw (← no_elements es empty) refl
  length_found_lem t es (some x) (some_element, until, (l, kind, h)) =
      rw kind (ap (λ n. int (pos n)) (len_refines l es h))

  -- On a key that stands for the elements `es`, or is absent and `es` empty, LRANGE with the texts
  -- of two int64 indices replies the elements between them, as `normalizeRange` reads them, and
  -- LLEN replies their number; neither panics.
  pub list_reads_refine :
      (hash : Bytes → ℕ) (db : Db (Value Z)) (now t : Time) (args : List Bytes) (es : List Bytes)
      (start stop : ℤ)
      → Elements (lookup hash db now (get_or args 1 [])) t es
      → parse_int (get_or args 2 []) ≡ some start
      → parse_int (get_or args 3 []) ≡ some stop
      → (cmd_lrange hash db now args
          ≡ some (array (bulks (selected es (normalize_range start stop (length es))))))
        × (cmd_llen hash db now args ≡ int (pos (length es)))
  unfolding cmd_lrange cmd_llen
  list_reads_refine hash db now t args es start stop h p q = (
    ap (λ a. range_of a (parse_int (get_or args 3 [])) (lookup hash db now (get_or args 1 []))) p
        ∙ ap (λ a. range_of (some start) a (lookup hash db now (get_or args 1 []))) q
        ∙ elements_found_lem t start stop es _ h,
    length_found_lem t es _ h,
  )
