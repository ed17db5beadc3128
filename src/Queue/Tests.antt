-- ===== src/Queue/Tests.antt =====
-- The queue at concrete inputs, over a store that is a list of the results that it took.
use Prim.Native.String.{String}
use ping_santo.Prelude.{
  ℕ, ◌≤◌, ◌≡◌, refl, true, false, none, some, List, [], ◌∷◌, ◌++◌, arith, length, map,
}
use ping_santo.Queue.{
  Spill, Queue, enqueue, drain, stats, free_slot, spill_down, spill_loop, spill_oldest, hand_over,
}
use ping_santo.Queue.Fifo.{
  Fate, bump, count_spilt, count_lost, item_of, note_all, event_of, Answers, enqueue-Accounts,
}
use ping_santo.Queue.Bounds.{IsBounded, enqueue-IsBounded}
use ping_santo.Queue.Reliable.{enqueue_reliable, enqueue_refused}
use ping_santo.Queue.Drains.{drain_splits}

abbrev keeps : Spill ℕ (List ℕ)
keeps = record { append = λ r s. (true, s ++ (r ∷ [])) }

abbrev refuses : Spill ℕ (List ℕ)
refuses = record { append = λ r s. (false, s) }

abbrev monitor : ℕ → String
monitor n = "monitor"

-- Two of four places are taken, and the store is asked from the second item on.
abbrev busy : Queue ℕ (List ℕ)
busy = record {
  capacity = 4;
  items = 1 ∷ 2 ∷ [];
  spill = some [];
  threshold = 2;
  spilled = 0;
  dropped = 0;
  events = some [];
  metrics = none;
}

busy-IsBounded : IsBounded busy
busy-IsBounded = ground arith

-- The oldest item is spilled.
spills : stats (enqueue keeps monitor 3 busy).0 ≡ record { len = 2; dropped = 0; spilled = 1 }
unfolding stats enqueue free_slot spill_down spill_loop spill_oldest hand_over
spills = refl

enqueue-Accounts_example :
    let q' = (enqueue keeps monitor 3 busy).0 in
    (gone : List (ℕ × Fate)) × (map item_of gone ++ q'.items ≡ 1 ∷ 2 ∷ 3 ∷ [])
    × (q'.spilled ≡ bump (count_spilt gone) 0)
    × (q'.dropped ≡ bump (count_lost gone) 0)
    × (q'.events ≡ note_all (map (event_of keeps monitor) gone) (some []))
    × Answers keeps monitor (some []) gone q'.spill
    × (q'.capacity ≡ 4)
    × (q'.threshold ≡ 2)
enqueue-Accounts_example = enqueue-Accounts keeps monitor 3 busy

enqueue-IsBounded_example : IsBounded (enqueue refuses monitor 3 busy).0
enqueue-IsBounded_example = enqueue-IsBounded refuses monitor 3 busy busy-IsBounded

enqueue_reliable_example :
    let (q', dropped) = enqueue keeps monitor 3 busy in
    (q'.dropped ≡ 0) × (dropped ≡ false) × (length q'.items ≤ 2)
enqueue_reliable_example =
    enqueue_reliable keeps monitor (λ r s. refl) 3 busy [] refl (omega arith) (omega arith)

enqueue_refused_example :
    let (q', dropped) = enqueue refuses monitor 3 busy in
    (dropped ≡ false) × (q'.dropped ≡ 1) × (q'.items ≡ 2 ∷ 3 ∷ [])
enqueue_refused_example =
    enqueue_refused refuses monitor 3 1 (2 ∷ []) busy [] refl refl (omega arith) (omega arith)
      (omega arith) refl

drain_splits_example :
    let (drained, q') = drain 1 busy in
    (drained ++ q'.items ≡ 1 ∷ 2 ∷ [])
    × (length drained ≡ 1)
    × (q'.spill ≡ some [])
    × (q'.dropped ≡ 0)
    × (q'.spilled ≡ 0)
drain_splits_example = drain_splits 1 busy
