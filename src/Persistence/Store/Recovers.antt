-- ===== src/Persistence/Store/Recovers.antt =====
-- Replays of a range of generations: one generation more, and what they depend on.
use memcore.Base.{ℕ, zero, suc, ◌+◌, ◌≡◌, refl, ap, ◌∙◌, Bool, List, arith, Bytes}
use memcore.Base.Int.{ℤ}
use memcore.Value.Limits.{Limits}
use memcore.Persistence.Segments as Replay
use memcore.Persistence.Snapshot.{Record}
use memcore.Persistence.Values.{ZSets}
use memcore.Persistence.Store.{segment_at, replay_at, go_on, replay_segments}

module _ {Z S : Type 0} (zs : ZSets Z) (limits : Limits) (restore : S → Record Z → S × Bool)
    (replay : S → ℤ → List Bytes → S × Bool) where
  go_on-finished :
      (r : S × Replay.Ending) → go_on zs limits restore replay (λ st. (st, Replay.finished)) r ≡ r
  go_on-finished (st, Replay.finished) = refl
  go_on-finished (st, Replay.replay_failed) = refl
  go_on-finished (st, Replay.read_failed) = refl
  go_on-finished (st, Replay.panicked) = refl
  go_on-finished (st, Replay.out_of_fuel) = refl

  go_on-go_on :
      (f g : S → S × Replay.Ending) (h : S → S × Replay.Ending) (r : S × Replay.Ending)
      → ((st : S) → h st ≡ go_on zs limits restore replay f (g st))
      → go_on zs limits restore replay h r
        ≡ go_on zs limits restore replay f (go_on zs limits restore replay g r)
  go_on-go_on f g h (st, Replay.finished) e = e st
  go_on-go_on f g h (st, Replay.replay_failed) e = refl
  go_on-go_on f g h (st, Replay.read_failed) e = refl
  go_on-go_on f g h (st, Replay.panicked) e = refl
  go_on-go_on f g h (st, Replay.out_of_fuel) e = refl

  -- One generation.
  pub replay_segments-one :
      (gen : ℕ) (segs : List (ℕ × Bytes)) (st : S)
      → replay_segments zs limits restore replay 1 gen segs st
        ≡ replay_at zs limits restore replay st (segment_at gen segs)
  unfolding replay_segments
  replay_segments-one gen segs st =
      go_on-finished (replay_at zs limits restore replay st (segment_at gen segs))

  -- One generation more at the end.
  pub replay_segments-suc :
      (n gen : ℕ) (segs : List (ℕ × Bytes)) (st : S)
      → replay_segments zs limits restore replay (suc n) gen segs st
        ≡ go_on zs limits restore replay
            (λ st'. replay_at zs limits restore replay st' (segment_at (gen + n) segs))
            (replay_segments zs limits restore replay n gen segs st)
  unfolding replay_segments
  replay_segments-suc zero gen segs st =
      let same : gen ≡ gen + 0 = omega arith in
      replay_segments-one gen segs st
      ∙ ap (λ g. replay_at zs limits restore replay st (segment_at g segs)) same
  replay_segments-suc (suc n) gen segs st =
      let same : gen + 1 + n ≡ gen + suc n = omega arith in
      go_on-go_on (λ st'. replay_at zs limits restore replay st' (segment_at (gen + suc n) segs))
        (λ st'. replay_segments zs limits restore replay n (gen + 1) segs st')
        (λ st'. replay_segments zs limits restore replay (suc n) (gen + 1) segs st')
        (replay_at zs limits restore replay st (segment_at gen segs))
        (λ st'.
          replay_segments-suc n (gen + 1) segs st'
          ∙ ap
              (λ g.
                go_on zs limits restore replay
                  (λ st''. replay_at zs limits restore replay st'' (segment_at g segs))
                  (replay_segments zs limits restore replay n (gen + 1) segs st'))
              same)
