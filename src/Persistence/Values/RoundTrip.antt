-- ===== src/Persistence/Values/RoundTrip.antt =====
-- The value codec reads back strings, lists, hashes and sets.
use memcore.Base.{
  suc, ◌/◌, ◌≡◌, refl, sym, ap, ◌∙◌, some, List, [], ◌∷◌, ◌++◌, arith, length, Bytes,
}
use memcore.Base.Int.{pos, negsuc}
use memcore.Base.GoMap
use memcore.Base.GoMap.{GoMap, put-new, get-before, keys-append}
use memcore.Base.Varint.{put_uvarint}
use memcore.Value.Limits.{Limits}
use memcore.Value.Lists
use memcore.Value.Lists.{PackList, new_list}
use memcore.Value.Lists.Refines as ListRefines
use memcore.Value.Lists.Refines.{PushesBack, new_list-Holds, push_back_refines}
use memcore.Value.Lists.Slices.{range_refines}
use memcore.Value.Hash.{PackHash, new_hash, flat}
use memcore.Value.Hash.Represents
use memcore.Value.Hash.Represents.{new_hash-Holds}
use memcore.Value.Hash.Sets.{set_refines}
use memcore.Value.Hash.Queries.{pairs_refines}
use memcore.Value.Set.{PackSet, new_set}
use memcore.Value.Set.Refines
use memcore.Value.Set.Refines.{new_set-Holds, add_refines}
use memcore.Value.Set.Queries.{members_refines}
use memcore.Value.Union
use memcore.Value.Union.{Value, string}
use memcore.Persistence.Stream.{ok, write_bytes, read_bytes, read_bytes-write}
use memcore.Persistence.Values.{
  ZSets, write_each, write_elements, elements_written, pairs_written, read_pair, set_pair,
  add_member, without_flag, write_value, made, read_value,
}
use memcore.Persistence.Values.Rounds.{read_elements-write}
use memcore.Persistence.Values.Data.{
  Data, text, elements, fields, members, Means, IsSmall, IsWritable, small-Fits, range_all, snoc,
  fold-snoc, put_member, fold-put_member, put_pair, fold-put_pair, write_pair, write_flat,
  half_flat, IsSmallPair, small_pairs, read_pair-write,
}

push_step :
    (l : PackList) (es : List Bytes) (b : Bytes)
    → ListRefines.Holds l es
    → IsSmall b
    → (l' : PackList) × (Lists.push_back l b ≡ some l') × ListRefines.Holds l' (snoc b es)
push_step l es b h small = push_back_refines l es b h (small-Fits b small)

member_step :
    (s : PackSet) (m : GoMap (Unit {0})) (x : Bytes)
    → Refines.Holds s m
    → IsSmall x
    → (s' : PackSet) × (add_member s x ≡ some s') × Refines.Holds s' (put_member x m)
member_step s m x h small =
    let (s', e, held) = add_refines s m x h (small-Fits x small) in (s', ap without_flag e, held)

pair_step :
    (h : PackHash) (m : GoMap Bytes) (x : Bytes × Bytes)
    → Represents.Holds h m
    → IsSmallPair x
    → (h' : PackHash) × (set_pair h x ≡ some h') × Represents.Holds h' (put_pair x m)
pair_step h m (f, v) held (hf, hv) =
    let (h', e, held') = set_refines h m f v held (small-Fits f hf) (small-Fits v hv) in
    (h', ap without_flag e, held')

length-keys : {V : Type 0} (m : GoMap V) → length (GoMap.keys m) ≡ length m
length-keys [] = refl
length-keys ((k, v) ∷ m) = ap suc (length-keys m)

module _ {Z : Type 0} (zs : ZSets Z) (limits : Limits) where
  -- What is written is read back as a value of the same worth.
  abbrev pub ReadsBack : Value Z → Data → Bytes → Type 0
  ReadsBack v d rest =
      (bs : Bytes) × (v' : Value Z) × (write_value zs v ≡ some bs)
      × (read_value zs limits (bs ++ rest) ≡ ok v' rest)
      × Means v' d

  text_back : (b rest : Bytes) → IsSmall b → ReadsBack (string b) (text b) rest
  unfolding write_value read_value
  text_back b rest small = (
    b's' ∷ write_bytes b,
    string b,
    refl,
    ap (made zs string) (read_bytes-write b rest small),
    refl,
  )

  list_back :
      (l : PackList) (es : List Bytes) (rest : Bytes)
      → ListRefines.Holds l es
      → IsWritable (elements es)
      → ReadsBack (Union.list l) (elements es) rest
  unfolding write_value read_value write_elements
  list_back l es rest h (few, small) =
      let (l', e, held) =
        read_elements-write write_bytes read_bytes Lists.push_back snoc ListRefines.Holds IsSmall
          read_bytes-write push_step es (new_list limits.list) [] rest few
          (new_list-Holds limits.list) small in
      (
        write_elements b'l' es,
        Union.list l',
        ap (elements_written b'l')
            (range_refines l es (pos 0) (negsuc 0) h ∙ ap some (range_all es)),
        ap (made zs Union.list) e,
        (l', refl, rw (sym (fold-snoc es [])) held),
      )

  set_back :
      (s : PackSet) (m : GoMap (Unit {0})) (rest : Bytes)
      → Refines.Holds s m
      → IsWritable (members m)
      → ReadsBack (Union.set s) (members m) rest
  unfolding write_value read_value write_elements
  set_back s m rest h (few, small) =
      let (s', e, held) =
        read_elements-write write_bytes read_bytes add_member put_member Refines.Holds IsSmall
          read_bytes-write member_step (GoMap.keys m) (new_set limits.set) [] rest
          (omega (arith, few, length-keys m)) (new_set-Holds limits.set) small in
      (
        write_elements b'p' (GoMap.keys m),
        Union.set s',
        ap (elements_written b'p') (members_refines s m h),
        ap (made zs Union.set) e,
        (s', refl, rw (sym (fold-put_member m [] h.distinct)) held),
      )

  hash_back :
      (x : PackHash) (m : GoMap Bytes) (rest : Bytes)
      → Represents.Holds x m
      → IsWritable (fields m)
      → ReadsBack (Union.hash x) (fields m) rest
  unfolding write_value read_value
  hash_back x m rest h (few, small) =
      let (x', e, held) =
        read_elements-write write_pair read_pair set_pair put_pair Represents.Holds IsSmallPair
          read_pair-write pair_step m (new_hash limits.hash) [] rest few
          (new_hash-Holds limits.hash) (small_pairs m small) in
      let half : length (flat m) / 2 ≡ length m = omega (arith, half_flat m) in
      (
        b'h' ∷ (put_uvarint (length m) ++ write_each write_pair m),
        Union.hash x',
        ap pairs_written (pairs_refines x m h)
            ∙ ap (λ n. some (b'h' ∷ (put_uvarint n ++ write_each write_bytes (flat m)))) half
            ∙ ap (λ t. some (b'h' ∷ (put_uvarint (length m) ++ t))) (write_flat m),
        ap (made zs Union.hash) e,
        (x', refl, rw (sym (fold-put_pair m [] h.distinct)) held),
      )

  -- A string, list, hash or set whose parts fit memory is written without a panic, whatever its
  -- encoding, and `readValue` reads back a value of the same worth, under any limits, and leaves
  -- what follows.
  pub read_value-write_value :
      (v : Value Z) (d : Data) (rest : Bytes) → Means v d → IsWritable d → ReadsBack v d rest
  read_value-write_value v (text b) rest kind small = rw kind (text_back b rest small)
  read_value-write_value v (elements es) rest (l, kind, h) small =
      rw kind (list_back l es rest h small)
  read_value-write_value v (fields m) rest (x, kind, h) small = rw kind (hash_back x m rest h small)
  read_value-write_value v (members m) rest (s, kind, h) small = rw kind (set_back s m rest h small)
