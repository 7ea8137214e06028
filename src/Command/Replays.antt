-- ===== src/Command/Replays.antt =====
-- What a replay of the log makes of commands that are logged as they came: the handlers run again under
-- the clock of the recovery, as `recover` of internal/server/server.go lets them.
use memcore.Base.{
  ℕ, ◌*◌, ◌^◌, ◌≤◌, ◌<◌, ◌≡◌, refl, ap, ◌∙◌, none, some, [], ◌∷◌, arith, Bytes, bytes_eq_refl,
  codes,
}
use memcore.Base.Int.{pos, ◌+ℤ◌}
use memcore.Base.Decimal.{append_int, parse_int-append_int}
use memcore.Keyspace.{Time, Entry, expired, has_expiry, is_zero, live}
use memcore.Keyspace.Views.{fresh, stamp}
use memcore.Shard
use memcore.Shard.{Db, lookup}
use memcore.Shard.Routing.{IsSharded, lookup-set, lookup-set_expire}
use memcore.Value.Union.{Value, string}
use memcore.Command.Strings.{cmd_set, cmd_incr, current, incr_by, incr_current}
use memcore.Command.Counters.{lookup-incr_by}
use memcore.Command.Lifetimes.{cmd_pexpireat, expire_milli, expire_at, unix_milli}

one_and_one : pos 1 +ℤ pos 1 ≡ pos 2
unfolding ◌+ℤ◌
one_and_one = refl

zero_and_one : pos 0 +ℤ pos 1 ≡ pos 1
unfolding ◌+ℤ◌
zero_and_one = refl

milli : (ms : ℕ) → unix_milli (pos ms) ≡ pos (ms * 10 ^ 6)
unfolding unix_milli
milli ms = refl

module _ {Z : Type 0} (hash : Bytes → ℕ) where
  -- SET of "1", PEXPIREAT and INCR of one key, all at the time `now`.
  abbrev pub stamped : Db (Value Z) → Time → Bytes → ℕ → Db (Value Z)
  stamped db now key ms =
      let db' = (cmd_set hash db (codes "set" ∷ key ∷ append_int (pos 1) ∷ [])).0 in
      (cmd_pexpireat hash db' now (codes "pexpireat" ∷ key ∷ append_int (pos ms) ∷ [])).0

  abbrev pub played : Db (Value Z) → Time → Bytes → ℕ → Db (Value Z)
  played db now key ms = (cmd_incr hash (stamped db now key ms) now (codes "incr" ∷ key ∷ [])).0

  abbrev one : Value Z
  one = string (append_int (pos 1))

  before_deadline :
      (at now : ℕ)
      → now < at
      → live (pos now) (stamp (pos at) (some (fresh one)))
        ≡ some (record { value = one; expire_at = pos at })
  unfolding expired has_expiry is_zero
  before_deadline at now h = ground arith

  past_deadline :
      (at now : ℕ) → at ≤ now → live (pos now) (stamp (pos at) (some (fresh one))) ≡ none
  unfolding expired has_expiry is_zero
  past_deadline at now h = ground arith

  stamped_view :
      (db : Db (Value Z)) (key : Bytes) (ms now : ℕ)
      → IsSharded db
      → ms < 2 ^ 63
      → (lookup hash (stamped db (pos now) key ms) (pos now) key
          ≡ live (pos now) (stamp (pos (ms * 10 ^ 6)) (some (fresh one))))
        × IsSharded (stamped db (pos now) key ms)
  unfolding cmd_set cmd_pexpireat
  stamped_view db key ms now ok fits =
      let at = ms * 10 ^ 6 in
      let (own, ok') = lookup-set hash db key key one (pos now) ok in
      let db' = Shard.set hash db key one in
      let found : lookup hash db' (pos now) key ≡ some (fresh one) =
        own ∙ rw (bytes_eq_refl key) refl in
      let step : stamped db (pos now) key ms
          ≡ (Shard.set_expire hash db' (pos now) key (pos at)).0 =
        ap (λ o. (expire_milli hash db' (pos now) key o).0)
          (parse_int-append_int (pos ms) (fits, omega arith))
        ∙ ap (λ t. (expire_at hash db' (pos now) key t).0) (milli ms) in
      let (_, view, fine) =
        lookup-set_expire hash db' key key (pos at) (pos now) (pos now) ok' (omega arith) in
      (
        ap (λ d. lookup hash d (pos now) key) step
            ∙ view
            ∙ rw (bytes_eq_refl key) (ap (λ o. live (pos now) (stamp (pos at) o)) found),
        rw step fine,
      )

  -- INCR where there is nothing, or what is there has expired.
  incr_new :
      (db : Db (Value Z)) (now : Time) (key : Bytes)
      → lookup hash db now key ≡ none
      → (incr_by hash db now key (pos 1)).0
        ≡ Shard.set hash db key (string (append_int (pos 0 +ℤ pos 1)))
  unfolding incr_by ◌+ℤ◌
  incr_new db now key gone = ap (λ o. (incr_current hash db key (pos 1) o (current o)).0) gone

  -- SET of "1", PEXPIREAT with a deadline and INCR of one key, run on a well-formed sharded
  -- database before the deadline, leave "2" under the key with that deadline; the same commands run
  -- in a replay at the deadline or later leave "1" with no deadline.
  pub replay_resurrects :
      (db : Db (Value Z)) (key : Bytes) (ms now later : ℕ)
      → IsSharded db
      → ms < 2 ^ 63
      → now < ms * 10 ^ 6
      → ms * 10 ^ 6 ≤ later
      → (lookup hash (played db (pos now) key ms) (pos now) key
          ≡ some (record { value = string (append_int (pos 2)); expire_at = pos (ms * 10 ^ 6) }))
        × (lookup hash (played db (pos later) key ms) (pos later) key
            ≡ some (fresh (string (append_int (pos 1)))))
  unfolding cmd_incr
  replay_resurrects db key ms now later ok fits before past =
      let e : Entry (Value Z) = record { value = one; expire_at = pos (ms * 10 ^ 6) } in
      let (seen, ok') = stamped_view db key ms now ok fits in
      let (_, view, _) =
        lookup-incr_by hash (stamped db (pos now) key ms) (pos now) key key e (pos 1) ok'
          (seen ∙ before_deadline (ms * 10 ^ 6) now before) refl (omega arith, omega arith)
          (rw one_and_one (omega arith, omega arith)) in
      let (gone, ok'') = stamped_view db key ms later ok fits in
      let (own, _) =
        lookup-set hash (stamped db (pos later) key ms) key key
          (string (append_int (pos 0 +ℤ pos 1))) (pos later) ok'' in
      (
        view
            ∙ rw (bytes_eq_refl key)
                (ap (λ n. some (record e { value = string (append_int n) })) one_and_one),
        ap (λ d. lookup hash d (pos later) key)
              (incr_new (stamped db (pos later) key ms) (pos later) key
                (gone ∙ past_deadline (ms * 10 ^ 6) later past))
            ∙ own
            ∙ rw (bytes_eq_refl key) (ap (λ n. some (fresh (string (append_int n)))) zero_and_one),
      )
