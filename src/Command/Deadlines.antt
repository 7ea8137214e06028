-- ===== src/Command/Deadlines.antt =====
-- EXPIRE and TTL together: what a client reads back of the seconds that it set.
use memcore.Base.{
  ℕ, ◌+◌, ◌*◌, ◌/◌, ◌^◌, ◌≤◌, ◌<◌, ◌≡◌, ap, ◌∙◌, some, [], ◌∷◌, arith, if◌then◌else◌, Bytes,
  bytes_eq, bytes_eq_refl,
}
use memcore.Base.Int.{pos, ◌+ℤ◌}
use memcore.Base.Decimal.{append_int, parse_int, parse_int-append_int}
use memcore.Keyspace.{Entry, expired, has_expiry, is_zero, live}
use memcore.Keyspace.Views.{stamp, is_some}
use memcore.Resp.Reply.{int}
use memcore.Shard.{Db, lookup}
use memcore.Shard.Routing.{IsSharded, lookup-set_expire}
use memcore.Value.Union.{Value}
use memcore.Command.Lifetimes.{
  seconds, milliseconds_left, cmd_expire, expire_in, expire_at, cmd_ttl, ttl_reply, flag,
}

pub seconds_small : (n : ℕ) → n ≤ 9 * 10 ^ 9 → seconds (pos n) ≡ pos (n * 10 ^ 9)
unfolding seconds
seconds_small n h = ground arith

pub add_pos : (a b : ℕ) → pos a +ℤ pos b ≡ pos (a + b)
unfolding ◌+ℤ◌
add_pos a b = ground arith

rounded :
    (t read n : ℕ)
    → n ≤ 9 * 10 ^ 9
    → t ≤ read
    → read ≤ t + 500000000
    → (milliseconds_left (pos (t + n * 10 ^ 9)) (pos read) + 500) / 1000 ≡ n
unfolding milliseconds_left
rounded t read n h from to = ground arith

module _ {Z : Type 0} where
  stamped_lives :
      (e : Entry (Value Z)) (at seen : ℕ)
      → seen < at
      → live (pos seen) (stamp (pos at) (some e)) ≡ some (record e { expire_at = pos at })
  unfolding expired has_expiry is_zero
  stamped_lives e at seen before = ground arith

  ttl_of_stamped :
      (e : Entry (Value Z)) (t read n : ℕ)
      → n ≤ 9 * 10 ^ 9
      → t ≤ read
      → read ≤ t + 500000000
      → ttl_reply (pos read) (some (record e { expire_at = pos (t + n * 10 ^ 9) })) ≡ int (pos n)
  unfolding has_expiry is_zero
  ttl_of_stamped e t read n h from to = ground (arith, rounded t read n h from to)

  -- On a well-formed sharded database, EXPIRE of a live key with the text of n seconds, n from 1 to
  -- 9 * 10^9, at a time not before the Unix epoch replies 1, and TTL of the key behind it replies
  -- n, as long as no reading of the clock, of which each command makes two, is more than half a
  -- second later than the first, and whatever the hash.
  pub cmd_ttl-cmd_expire :
      (hash : Bytes → ℕ) (db : Db (Value Z)) (t seen looked read n : ℕ) (expire ttl key : Bytes)
      (e : Entry (Value Z))
      → IsSharded db
      → lookup hash db (pos seen) key ≡ some e
      → 1 ≤ n
      → n ≤ 9 * 10 ^ 9
      → t ≤ seen
      → seen ≤ looked
      → looked ≤ read
      → read ≤ t + 500000000
      → ((cmd_expire hash db (pos t) (pos seen) (expire ∷ key ∷ append_int (pos n) ∷ [])).1
          ≡ int (pos 1))
        × (cmd_ttl hash
              (cmd_expire hash db (pos t) (pos seen) (expire ∷ key ∷ append_int (pos n) ∷ [])).0
              (pos looked)
              (pos read)
              (ttl ∷ key ∷ [])
            ≡ int (pos n))
  unfolding cmd_expire cmd_ttl
  cmd_ttl-cmd_expire hash db t seen looked read n expire ttl key e v found some_time few from next
        last to =
      let at = t + n * 10 ^ 9 in
      let step : expire_in hash db (pos t) (pos seen) key (parse_int (append_int (pos n)))
          ≡ expire_at hash db (pos seen) key (pos at) =
        ap (expire_in hash db (pos t) (pos seen) key) (parse_int-append_int (pos n) (omega arith))
        ∙ ap (λ d. expire_at hash db (pos seen) key (pos t +ℤ d)) (seconds_small n few)
        ∙ ap (expire_at hash db (pos seen) key) (add_pos t (n * 10 ^ 9)) in
      let (done, view, ok) =
        lookup-set_expire hash db key key (pos at) (pos seen) (pos looked) v (omega arith) in
      let shown : (if bytes_eq key key
            then live (pos looked) (stamp (pos at) (lookup hash db (pos seen) key))
            else lookup hash db (pos looked) key)
          ≡ some (record e { expire_at = pos at }) =
        rw (bytes_eq_refl key, found) (stamped_lives e at looked (omega arith)) in
      (
        ap (λ r. r.1) step ∙ ap flag (done ∙ ap is_some found),
        ap (λ r. ttl_reply (pos read) (lookup hash r.0 (pos looked) key)) step
            ∙ ap (ttl_reply (pos read)) (view ∙ shown)
            ∙ ttl_of_stamped e t read n few (omega arith) to,
      )
