-- ===== src/Queue/Drains.antt =====
-- Drain, and the calls that the metrics recorder gets.
use ping_santo.Prelude.{
  ℕ, ◌≡◌, refl, ◌∙◌, ◌++◌, arith, length, length-take, take-append-drop, min, if◌then◌else◌, ltb,
  ◌&&◌, ◌==◌,
}
use ping_santo.Queue.{Queue, drain}

drained_count :
    (max n : ℕ)
    → min (if ltb 0 max && ltb max n then max else n) n ≡ (if max == 0 then n else min max n)
drained_count max n = ground arith

module _ {R S : Type 0} where
  -- Drain hands out the oldest items, in order, and keeps the others: all of them if `max` is not
  -- positive, and else at most `max`. Counters and store stay.
  pub drain_splits :
      (max : ℕ) (q : Queue R S)
      → let (drained, q') = drain max q in
        (drained ++ q'.items ≡ q.items)
        × (length drained ≡ (if max == 0 then length q.items else min max (length q.items)))
        × (q'.spill ≡ q.spill)
        × (q'.dropped ≡ q.dropped)
        × (q'.spilled ≡ q.spilled)
  unfolding drain
  drain_splits max q = (
    take-append-drop _ q.items,
    length-take _ q.items ∙ drained_count max (length q.items),
    refl,
    refl,
    refl,
  )
