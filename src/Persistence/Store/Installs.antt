-- ===== src/Persistence/Store/Installs.antt =====
-- A crash inside `InstallSnapshot` changes nothing that recovery finds.
use memcore.Base.{
  ℕ, zero, suc, ◌+◌, ◌-◌, ◌≤◌, ◌≡◌, refl, sym, ap, ◌∙◌, Bool, false, ◌==◌, none, some, List, arith,
  take, Bytes,
}
use memcore.Base.Int.{ℤ, pos}
use memcore.Value.Limits.{Limits}
use memcore.Persistence.Segments as Replay
use memcore.Persistence.Snapshot
use memcore.Persistence.Snapshot.{Loaded, Record, read_snapshot}
use memcore.Persistence.Values.{ZSets}
use memcore.Persistence.Store
use memcore.Persistence.Store.{
  Dir, segment_at, remove_segment, highest_segment, Effect, act, run, removals, install_snapshot,
  Outcome, log_ended, replay_at, go_on, replay_segments, replay_behind, load_snapshot, recover,
}
use memcore.Persistence.Store.Files.{segment_at-remove, highest-remove_other}
use memcore.Persistence.Store.Recovers.{replay_segments-one, replay_segments-suc}

-- A snapshot that loads whole.
abbrev pub whole : {S : Type 0} → ℕ → S → Loaded S
whole gen st = record { base_gen = pos gen; state = st; ending = Snapshot.finished }

-- The directory has the segment `top` with the bytes `bs`, and none above it.
abbrev pub Tops : Dir → ℕ → Bytes → Type 0
Tops d top bs = (highest_segment d.segments ≡ top) × (segment_at top d.segments ≡ some bs)

remove-Tops :
    (d : Dir) (g top : ℕ) (bs : Bytes)
    → (g == top) ≡ false
    → Tops d top bs
    → Tops (act (Store.remove g) d) top bs
remove-Tops d g top bs other (high, at) = (
  highest-remove_other g bs d.segments (ap (λ h. segment_at h d.segments) high ∙ at)
        (ap (λ h. g == h) high ∙ other)
      ∙ high,
  segment_at-remove g top d.segments other ∙ at,
)

module _ {Z S : Type 0} (zs : ZSets Z) (limits : Limits) (restore : S → Record Z → S × Bool)
    (replay : S → ℤ → List Bytes → S × Bool) where
  -- What recovery gives once everything below the segment `bs` has led to `st`.
  abbrev ends : S → Bytes → S × Outcome
  ends st bs = let r = replay_at zs limits restore replay st (some bs) in (r.0, log_ended r.1)

  -- Behind the new snapshot only the top segment is replayed.
  recover_new :
      (d : Dir) (snap bs : Bytes) (top : ℕ) (init st : S)
      → d.snapshot ≡ some snap
      → Tops d top bs
      → read_snapshot zs limits restore snap init ≡ whole top st
      → recover zs limits restore replay d init ≡ ends st bs
  unfolding recover
  recover_new d snap bs top init st at (high, present) loads =
      let one : top + 1 - top ≡ 1 = omega arith in
      ap
        (λ o.
          replay_behind zs limits restore replay d.segments
            (load_snapshot zs limits restore replay o init))
        at
      ∙ ap (replay_behind zs limits restore replay d.segments) loads
      ∙ ap
          (λ h.
            let r = replay_segments zs limits restore replay (h + 1 - top) top d.segments st in
            (r.0, log_ended r.1))
          high
      ∙ ap
          (λ n.
            let r = replay_segments zs limits restore replay n top d.segments st in
            (r.0, log_ended r.1))
          one
      ∙ ap (λ r. (r.0, log_ended r.1))
          (replay_segments-one zs limits restore replay top d.segments st
            ∙ ap (replay_at zs limits restore replay st) present)

  -- Behind the old one the segments up to the top.
  recover_old :
      (d : Dir) (bs : Bytes) (base top : ℕ) (init start st : S)
      → load_snapshot zs limits restore replay d.snapshot init ≡ whole base start
      → base ≤ top
      → Tops d top bs
      → replay_segments zs limits restore replay (top - base) base d.segments start
        ≡ (st, Replay.finished)
      → recover zs limits restore replay d init ≡ ends st bs
  unfolding recover
  recover_old d bs base top init start st loads le (high, present) log =
      let count : top + 1 - base ≡ suc (top - base) = omega arith in
      let last : base + (top - base) ≡ top = omega arith in
      ap (replay_behind zs limits restore replay d.segments) loads
      ∙ ap
          (λ h.
            let r = replay_segments zs limits restore replay (h + 1 - base) base d.segments start in
            (r.0, log_ended r.1))
          high
      ∙ ap
          (λ n.
            let r = replay_segments zs limits restore replay n base d.segments start in
            (r.0, log_ended r.1))
          count
      ∙ ap (λ r. (r.0, log_ended r.1))
          (replay_segments-suc zs limits restore replay (top - base) base d.segments start
            ∙ ap
                (go_on zs limits restore replay (λ st'.
                  replay_at zs limits restore replay st'
                    (segment_at (base + (top - base)) d.segments)))
                log
            ∙ ap (λ g. replay_at zs limits restore replay st (segment_at g d.segments)) last
            ∙ ap (replay_at zs limits restore replay st) present)

  -- Any front of the removals of the segments below the top.
  recover-removals :
      (n k g : ℕ) (d : Dir) (snap bs : Bytes) (top : ℕ) (init st : S)
      → g + n ≤ top
      → d.snapshot ≡ some snap
      → Tops d top bs
      → read_snapshot zs limits restore snap init ≡ whole top st
      → recover zs limits restore replay (run (take k (removals n g)) d) init ≡ ends st bs
  recover-removals zero zero g d snap bs top init st lt at tops loads =
      recover_new d snap bs top init st at tops loads
  recover-removals zero (suc k) g d snap bs top init st lt at tops loads =
      recover_new d snap bs top init st at tops loads
  recover-removals (suc n) zero g d snap bs top init st lt at tops loads =
      recover_new d snap bs top init st at tops loads
  recover-removals (suc n) (suc k) g d snap bs top init st lt at tops loads =
      recover-removals n k (g + 1) (act (Store.remove g) d) snap bs top init st (omega arith) at
        (remove-Tops d g top bs (ground arith) tops) loads

  -- A directory whose snapshot covers the generations below `base`, whose segments from there up to
  -- the one below the highest, `top`, replay without an error to the state `st`, and a new snapshot
  -- that loads to that state for the generation `top`: whatever the highest segment holds, and
  -- after whatever number of the calls of `InstallSnapshot` a crash comes, `Recover` gives the
  -- state and the end that it gave before.
  pub install_snapshot_recovers :
      (d : Dir) (snap bs : Bytes) (base top k : ℕ) (init start st : S)
      → load_snapshot zs limits restore replay d.snapshot init ≡ whole base start
      → base ≤ top
      → Tops d top bs
      → replay_segments zs limits restore replay (top - base) base d.segments start
        ≡ (st, Replay.finished)
      → read_snapshot zs limits restore snap init ≡ whole top st
      → recover zs limits restore replay (run (take k (install_snapshot snap top)) d) init
        ≡ recover zs limits restore replay d init
  unfolding install_snapshot
  install_snapshot_recovers d snap bs base top zero init start st old le tops log new = refl
  install_snapshot_recovers d snap bs base top (suc zero) init start st old le tops log new =
      unfold recover in refl
  install_snapshot_recovers d snap bs base top (suc (suc zero)) init start st old le tops log new =
      unfold recover in refl
  install_snapshot_recovers d snap bs base top (suc (suc (suc k))) init start st old le tops log
        new =
      recover-removals top k 0 (record d { snapshot = some snap; tmp = none }) snap bs top init st
        (omega arith) refl tops new
      ∙ sym (recover_old d bs base top init start st old le tops log)
