-- ===== src/Persistence/Snapshot/Loads.antt =====
-- A snapshot that was written loads as its records, in their order.
use mathlib.Core.List.{append_assoc}
use memcore.Base.{
  ℕ, zero, suc, ◌/◌, ◌^◌, ◌≤◌, ◌<◌, ◌≡◌, refl, sym, ap, ◌∙◌, Bool, true, false, some, List, [], ◌∷◌,
  ◌++◌, if◌then◌else◌, arith, length, length-append, Bytes, bytes_eq_refl,
}
use memcore.Base.Int.{ℤ, pos, negsuc, IsInt64}
use memcore.Base.Varint.{IsU64, put_uvarint, length-put_uvarint}
use memcore.Value.Limits.{Limits}
use memcore.Value.Union.{Value}
use memcore.Persistence.Stream.{
  ok, ◌>>=◌, unexpected, read_uvarint, read_uvarint-put, write_bytes, read_bytes-write, read_full,
  read_full-append,
}
use memcore.Persistence.Log.{int_of}
use memcore.Persistence.Values.{ZSets, put_little, little, read_value}
use memcore.Persistence.Values.Data.{Data, Means, IsSmall, IsWritable}
use memcore.Persistence.Values.RoundTrip.{read_value-write_value}
use memcore.Persistence.Snapshot.{
  snapshot_magic, Record, uint64_of, finished, apply_failed, Loaded, behind_head, record_head,
  write_record, joined, write_records, write_snapshot, record_of, read_record, loaded, after,
  load_loop, load_from, load_magic, read_snapshot,
}

little-put_little : (k n : ℕ) → n < 256 ^ k → little (put_little k n) ≡ n
unfolding little put_little
little-put_little zero n h = omega arith
little-put_little (suc k) n h = omega (arith, little-put_little k (n / 256) (omega arith))

length-put_little : (k n : ℕ) → length (put_little k n) ≡ k
unfolding put_little
length-put_little zero n = refl
length-put_little (suc k) n = ap suc (length-put_little k (n / 256))

int_of-uint64_of : (i : ℤ) → IsInt64 i → int_of (uint64_of i) ≡ i
int_of-uint64_of (pos n) h = ground arith
int_of-uint64_of (negsuc n) h = ground arith

uint64_of-IsU64 : (i : ℤ) → IsInt64 i → IsU64 (uint64_of i)
uint64_of-IsU64 (pos n) h = omega (arith, h)
uint64_of-IsU64 (negsuc n) h = omega (arith, h)

length-head : (b rest : Bytes) → 1 ≤ length b → 1 ≤ length (b ++ rest)
length-head b rest h = omega (arith, length-append b rest)

module _ {Z : Type 0} where
  -- A record that fits the format and memory, and the worth of its value.
  abbrev pub IsStored : Record Z × Data → Type 0
  IsStored (r, d) =
      IsInt64 r.db × IsSmall r.key × IsInt64 r.expire_at × Means r.value d × IsWritable d

  abbrev pub dump : List (Record Z × Data) → List (Record Z)
  dump [] = []
  dump ((r, d) ∷ xs) = r ∷ dump xs

  -- The records with values of the same worth.
  abbrev pub Alike : List (Record Z × Data) → List (Record Z) → Type 0
  Alike [] [] = Unit
  Alike [] (r' ∷ rs') = true ≡ false
  Alike ((r, d) ∷ xs) [] = true ≡ false
  Alike ((r, d) ∷ xs) (r' ∷ rs') =
      ((v : Value Z) × (r' ≡ record r { value = v }) × Means v d) × Alike xs rs'

  abbrev pub AllStored : List (Record Z × Data) → Type 0
  AllStored [] = Unit
  AllStored (x ∷ xs) = IsStored x × AllStored xs

module _ {Z : Type 0} (zs : ZSets Z) (limits : Limits) where
  read_head :
      (r : Record Z) (bs : Bytes)
      → IsInt64 r.db
      → IsSmall r.key
      → read_record zs limits (record_head zs r ++ bs) ≡ (
          unexpected (read_value zs limits bs) >>= λ v left.
          ok (record_of zs (uint64_of r.db) r.key (put_little 8 (uint64_of r.expire_at)) v) left)
  unfolding read_record record_head
  read_head r bs hd hk =
      let d = uint64_of r.db in
      let t = put_little 8 (uint64_of r.expire_at) in
      let eight : read_full 8 (t ++ bs) ≡ ok t bs =
        ap (λ n. read_full n (t ++ bs)) (sym (length-put_little 8 (uint64_of r.expire_at)))
        ∙ read_full-append t bs in
      rw
        (
          append_assoc,
          append_assoc,
          read_uvarint-put d (write_bytes r.key ++ (t ++ bs)) (uint64_of-IsU64 r.db hd),
          read_bytes-write r.key (t ++ bs) hk,
          eight,
        )
        refl

  record_back :
      (r : Record Z) (v : Value Z)
      → IsInt64 r.db
      → IsInt64 r.expire_at
      → record_of zs (uint64_of r.db) r.key (put_little 8 (uint64_of r.expire_at)) v
        ≡ record r { value = v }
  record_back r v hd he =
      let fits : uint64_of r.expire_at < 256 ^ 8 = omega (arith, uint64_of-IsU64 r.expire_at he) in
      ap
        (λ i. record {
          db = i;
          key = r.key;
          expire_at = int_of (little (put_little 8 (uint64_of r.expire_at)));
          value = v;
        })
        (int_of-uint64_of r.db hd)
      ∙ ap (λ n. record { db = r.db; key = r.key; expire_at = int_of n; value = v })
          (little-put_little 8 (uint64_of r.expire_at) fits)
      ∙ ap (λ i. record { db = r.db; key = r.key; expire_at = i; value = v })
          (int_of-uint64_of r.expire_at he)

  some_head : (r : Record Z) → 1 ≤ length (record_head zs r)
  unfolding record_head
  some_head r =
      length-head (put_uvarint (uint64_of r.db)) _
        (omega (arith, length-put_uvarint (uint64_of r.db)))

  -- A record is read back with a value of the same worth.
  pub read_record-write :
      (r : Record Z) (d : Data) (rest : Bytes)
      → IsStored (r, d)
      → (bs : Bytes) × (v : Value Z) × (write_record zs r ≡ some bs)
        × (read_record zs limits (bs ++ rest) ≡ ok (record r { value = v }) rest)
        × Means v d
        × (1 ≤ length bs)
  unfolding write_record
  read_record-write r d rest (hd, hk, he, means, small) =
      let (bs, v, wrote, back, means') =
        read_value-write_value zs limits r.value d rest means small in
      (
        record_head zs r ++ bs,
        v,
        ap (behind_head zs (record_head zs r)) wrote,
        ap (read_record zs limits) (append_assoc (record_head zs r) bs rest)
            ∙ read_head r (bs ++ rest) hd hk
            ∙ ap
                (λ t. unexpected t >>= λ w left.
                  ok (record_of zs (uint64_of r.db) r.key (put_little 8 (uint64_of r.expire_at)) w)
                    left)
                back
            ∙ ap (λ t. ok t rest) (record_back r v hd he),
        means',
        length-head (record_head zs r) bs (some_head r),
      )

-- What the callback makes of the records, up to the first that it refuses.
abbrev pub applied : {Z S : Type 0} → (S → Record Z → S × Bool) → ℤ → List (Record Z) → S → Loaded S
applied apply gen [] st = record { base_gen = gen; state = st; ending = finished }
applied apply gen (r ∷ rs) st =
    let (st', accepted) = apply st r in
    if accepted
    then applied apply gen rs st'
    else record { base_gen = gen; state = st'; ending = apply_failed }

module _ {Z S : Type 0} (zs : ZSets Z) (limits : Limits) (apply : S → Record Z → S × Bool)
    (gen : ℤ) where
  after-applied :
      (next : S → Loaded S) (rs : List (Record Z)) (o : S × Bool)
      → ((st : S) → next st ≡ applied apply gen rs st)
      → after zs limits apply gen next o ≡ (
          if o.1
          then applied apply gen rs o.0
          else record { base_gen = gen; state = o.0; ending = apply_failed })
  after-applied next rs (st, true) e = e st
  after-applied next rs (st, false) e = refl

  load_loop-end :
      (fuel : ℕ) (st : S)
      → load_loop zs limits apply (suc fuel) gen [] st ≡ loaded zs limits apply gen st finished
  unfolding load_loop read_record
  load_loop-end fuel st = unfold read_uvarint in refl

  load_loop-step :
      (fuel : ℕ) (bs rest : Bytes) (r : Record Z) (st : S)
      → read_record zs limits bs ≡ ok r rest
      → load_loop zs limits apply (suc fuel) gen bs st
        ≡ after zs limits apply gen
            (λ st'. load_loop zs limits apply fuel gen rest st')
            (apply st r)
  unfolding load_loop
  load_loop-step fuel bs rest r st e = rw (e, load_loop)

  -- The loop over the records that were written.
  load_loop-write :
      (xs : List (Record Z × Data))
      → AllStored xs
      → (bs : Bytes) × (rs : List (Record Z)) × (write_records zs (dump xs) ≡ some bs)
        × Alike xs rs
        × ((fuel : ℕ) (st : S)
            → length bs < fuel
            → load_loop zs limits apply fuel gen bs st ≡ applied apply gen rs st)
  unfolding write_records
  load_loop-write [] h = ([], [], refl, tt, ended)
    where
      ended :
          (fuel : ℕ) (st : S)
          → 0 < fuel
          → load_loop zs limits apply fuel gen [] st ≡ applied apply gen [] st
      ended zero st lt = absurd (omega arith)
      ended (suc fuel) st lt = load_loop-end fuel st
  load_loop-write ((r, d) ∷ xs) h =
      let (more, rs, wrote, alike, loads) = load_loop-write xs h.1 in
      let (bs, v, wrote', back, means, some_byte) = read_record-write zs limits r d more h.0 in
      (
        bs ++ more,
        record r { value = v } ∷ rs,
        ap (λ o. joined zs o (write_records zs (dump xs))) wrote' ∙ ap (behind_head zs bs) wrote,
        ((v, refl, means), alike),
        stepped r v bs more rs back some_byte loads,
      )
    where
      stepped :
          (r : Record Z) (v : Value Z) (bs more : Bytes) (rs : List (Record Z))
          → read_record zs limits (bs ++ more) ≡ ok (record r { value = v }) more
          → 1 ≤ length bs
          → ((fuel : ℕ) (st : S)
              → length more < fuel
              → load_loop zs limits apply fuel gen more st ≡ applied apply gen rs st)
          → (fuel : ℕ) (st : S) → length (bs ++ more) < fuel
          → load_loop zs limits apply fuel gen (bs ++ more) st
            ≡ applied apply gen (record r { value = v } ∷ rs) st
      stepped r v bs more rs back some_byte loads zero st lt = absurd (omega arith)
      stepped r v bs more rs back some_byte loads (suc fuel) st lt =
          load_loop-step fuel (bs ++ more) more (record r { value = v }) st back
          ∙ after-applied _ rs (apply st (record r { value = v }))
              (λ st'. loads fuel st' (omega (arith, length-append bs more)))

  head_back :
      (bs : Bytes) (st : S)
      → IsInt64 gen
      → read_snapshot zs limits apply ((snapshot_magic ++ put_uvarint (uint64_of gen)) ++ bs) st
        ≡ load_loop zs limits apply (suc (length bs)) gen bs st
  unfolding read_snapshot
  head_back bs st h =
      ap (λ t. load_magic zs limits apply (read_full (length snapshot_magic) t) st)
        (append_assoc snapshot_magic (put_uvarint (uint64_of gen)) bs)
      ∙ ap (λ t. load_magic zs limits apply t st)
          (read_full-append snapshot_magic (put_uvarint (uint64_of gen) ++ bs))
      ∙ rw (bytes_eq_refl snapshot_magic) (
          ap (λ t. load_from zs limits apply t st)
            (read_uvarint-put (uint64_of gen) bs (uint64_of-IsU64 gen h))
          ∙ ap (λ g. load_loop zs limits apply (suc (length bs)) g bs st) (int_of-uint64_of gen h))

  -- Records that fit the format and memory, of strings, lists, hashes and sets, are written by
  -- `WriteSnapshot` without a panic; `ReadSnapshot` of the stream returns the generation and passes
  -- to its callback, one after the other until it refuses one, the records with values of the same
  -- worth.
  pub read_snapshot-write_snapshot :
      (xs : List (Record Z × Data)) (st : S)
      → IsInt64 gen
      → AllStored xs
      → (bs : Bytes) × (rs : List (Record Z)) × (write_snapshot zs gen (dump xs) ≡ some bs)
        × Alike xs rs
        × (read_snapshot zs limits apply bs st ≡ applied apply gen rs st)
  unfolding write_snapshot
  read_snapshot-write_snapshot xs st hg h =
      let (bs, rs, wrote, alike, loads) = load_loop-write xs h in
      (
        (snapshot_magic ++ put_uvarint (uint64_of gen)) ++ bs,
        rs,
        ap (behind_head zs (snapshot_magic ++ put_uvarint (uint64_of gen))) wrote,
        alike,
        head_back bs st hg ∙ loads (suc (length bs)) st (omega arith),
      )
