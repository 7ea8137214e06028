-- ===== src/Server/Logged.antt =====
-- What the log says of an EXPIRE, against what the handler did.
use memcore.Base.{
  ℕ, ◌+◌, ◌*◌, ◌/◌, ◌^◌, ◌≤◌, ◌<◌, ◌≡◌, refl, ap, ◌∙◌, some, [], ◌∷◌, arith, Bytes, bytes_eq_refl,
  codes,
}
use memcore.Base.Int.{pos, ◌+ℤ◌}
use memcore.Base.Decimal.{append_int, parse_int, parse_int-append_int}
use memcore.Keyspace.{Entry, expired, has_expiry, is_zero, live}
use memcore.Shard
use memcore.Shard.{Db, lookup}
use memcore.Shard.Routing.{IsSharded, lookup-set_expire}
use memcore.Value.Union.{Value}
use memcore.Command.Lifetimes.{
  seconds, cmd_expire, expire_in, expire_at, cmd_pexpireat, expire_milli, unix_milli,
}
use memcore.Command.Deadlines.{seconds_small, add_pos}
use memcore.Server.{milli_of, logged_expire, persist_args}

-- The last whole millisecond.
abbrev pub cut : ℕ → ℕ
cut t = t / 10 ^ 6 * 10 ^ 6

milli_of-pos : (n : ℕ) → unix_milli (milli_of (pos n)) ≡ pos (cut n)
unfolding unix_milli milli_of
milli_of-pos n = refl

module _ {Z : Type 0} (hash : Bytes → ℕ) where
  set_view :
      (db : Db (Value Z)) (key : Bytes) (e : Entry (Value Z)) (t at : ℕ)
      → IsSharded db
      → lookup hash db (pos t) key ≡ some e
      → t < at
      → lookup hash (Shard.set_expire hash db (pos t) key (pos at)).0 (pos t) key
        ≡ some (record e { expire_at = pos at })
  unfolding expired has_expiry is_zero
  set_view db key e t at ok found before =
      let (_, view, _) =
        lookup-set_expire hash db key key (pos at) (pos t) (pos t) ok (omega arith) in
      let seen : live (pos t) (some (record e { expire_at = pos at }))
          ≡ some (record e { expire_at = pos at }) =
        ground (arith, before) in
      view ∙ rw (bytes_eq_refl key, found) seen

  -- On a well-formed sharded database with a key that is live at the time `seen`, EXPIRE of it with
  -- the text of n seconds, n from 1 to 9 * 10^9, whose handler reads the time `t` from the Unix
  -- epoch on and whose keyspace the time `seen`, not before `t` and less than n seconds behind it,
  -- leaves the deadline `t` plus n seconds. The record that is logged for it under a further
  -- reading `t'` of the clock, not before `seen` and below 2^63, sets, applied at `seen`, the
  -- deadline to `t'` plus n seconds, cut down to whole milliseconds.
  pub expire_logged :
      (db : Db (Value Z)) (key : Bytes) (e : Entry (Value Z)) (t seen t' n : ℕ)
      → IsSharded db
      → lookup hash db (pos seen) key ≡ some e
      → 1 ≤ n
      → n ≤ 9 * 10 ^ 9
      → t ≤ seen
      → seen < t + n * 10 ^ 9
      → seen ≤ t'
      → t' < 2 ^ 63
      → (lookup hash
            (cmd_expire hash db
              (pos t)
              (pos seen)
              (codes "expire" ∷ key ∷ append_int (pos n) ∷ [])).0
            (pos seen)
            key
          ≡ some (record e { expire_at = pos (t + n * 10 ^ 9) }))
        × (lookup hash
              (cmd_pexpireat hash db (pos seen) (
                persist_args
                  (pos t')
                  (codes "expire")
                  (codes "expire" ∷ key ∷ append_int (pos n) ∷ []))).0
              (pos seen)
              key
            ≡ some (record e { expire_at = pos (cut (t' + n * 10 ^ 9)) }))
  unfolding cmd_expire cmd_pexpireat persist_args
  expire_logged db key e t seen t' n ok found some_time few from before later fits =
      let number : parse_int (append_int (pos n)) ≡ some (pos n) =
        parse_int-append_int (pos n) (omega arith, omega arith) in
      let sum : (s : ℕ) → pos s +ℤ seconds (pos n) ≡ pos (s + n * 10 ^ 9) =
        λ s. ap (λ d. pos s +ℤ d) (seconds_small n few) ∙ add_pos s (n * 10 ^ 9) in
      let ms = milli_of (pos (t' + n * 10 ^ 9)) in
      let text : parse_int (append_int ms) ≡ some ms =
        unfold milli_of in
        parse_int-append_int (pos ((t' + n * 10 ^ 9) / 10 ^ 6)) (omega arith, omega arith) in
      (
        ap (λ o. lookup hash (expire_in hash db (pos t) (pos seen) key o).0 (pos seen) key) number
            ∙ ap (λ at. lookup hash (expire_at hash db (pos seen) key at).0 (pos seen) key) (sum t)
            ∙ set_view db key e seen (t + n * 10 ^ 9) ok found before,
        rw (bytes_eq_refl (codes "expire")) (
            ap
              (λ o.
                lookup hash
                  (cmd_pexpireat hash db (pos seen)
                    (logged_expire (pos t') (codes "expire" ∷ key ∷ append_int (pos n) ∷ []) o)).0
                  (pos seen) key)
              number
            ∙ ap
                (λ s.
                  lookup hash
                    (expire_milli hash db (pos seen) key (parse_int (append_int (milli_of s)))).0
                    (pos seen) key)
                (sum t')
            ∙ ap (λ o. lookup hash (expire_milli hash db (pos seen) key o).0 (pos seen) key) text
            ∙ ap (λ at. lookup hash (expire_at hash db (pos seen) key at).0 (pos seen) key)
                (milli_of-pos (t' + n * 10 ^ 9))
            ∙ set_view db key e seen (cut (t' + n * 10 ^ 9)) ok found (omega arith)),
      )
