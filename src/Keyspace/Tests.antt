-- ===== src/Keyspace/Tests.antt =====
-- Tests of internal/keyspace: a keyspace with a key that has expired and one that has not.
use memcore.Base.{ℕ, ◌≡◌, refl, false, some, [], ◌∷◌, arith, bytes_eq, codes}
use memcore.Base.Int.{pos}
use memcore.Base.GoMap
use memcore.Keyspace
use memcore.Keyspace.{
  Time, Entry, Keyspace, zero_time, expired, is_zero, peek, live, sample_expired,
}
use memcore.Keyspace.Index.{IsValid, new-IsValid, set_entry-IsValid}
use memcore.Keyspace.Expiry.{peek-sample_expired, sample_expired_cleans}

abbrev old : Entry ℕ
old = record { value = 7; expire_at = pos 10 }

abbrev young : Entry ℕ
young = record { value = 8; expire_at = pos 30 }

-- At time 20 the key `a` has expired and `b` has not.
abbrev keyspace : Keyspace ℕ
keyspace = record {
  entries = (codes "a", old) ∷ (codes "b", young) ∷ [];
  with_ttl = (codes "a", tt) ∷ (codes "b", tt) ∷ [];
}

built :
    Keyspace.set_entry (Keyspace.set_entry Keyspace.new (codes "a") old) (codes "b") young
    ≡ keyspace
unfolding bytes_eq Keyspace.set_entry Keyspace.new GoMap.put Keyspace.has_expiry is_zero
built = refl

keyspace-IsValid : IsValid keyspace
keyspace-IsValid =
    rw (← built)
      (set_entry-IsValid _ (codes "b") young (set_entry-IsValid _ (codes "a") old new-IsValid))

peek-sample_expired_example :
    peek (sample_expired (pos 20) keyspace 5).space (pos 25) (codes "b")
    ≡ peek keyspace (pos 25) (codes "b")
peek-sample_expired_example =
    peek-sample_expired (pos 20) keyspace 5 (codes "b") (pos 25) (omega arith) keyspace-IsValid

left_young : GoMap.get (codes "b") (sample_expired (pos 20) keyspace 5).space.entries ≡ some young
unfolding bytes_eq sample_expired Keyspace.sample_loop Keyspace.sample_key expired
    Keyspace.has_expiry is_zero GoMap.get GoMap.delete
left_young = refl

sample_expired_cleans_example : expired young (pos 20) ≡ false
sample_expired_cleans_example =
    sample_expired_cleans (pos 20) keyspace 5 (codes "b") young keyspace-IsValid (omega arith)
      left_young
