-- ===== src/Metrics/Tests.antt =====
-- The metrics at concrete inputs.
use Prim.Native.String.{String}
use ping_santo.Prelude.{ℕ, ◌≡◌, refl, true, false, none, some, List, [], ◌∷◌}
use ping_santo.Queue.{Spill, Queue, observe_depth, enqueue}
use ping_santo.Metrics.{
  Metrics, ObserveStep, Observation, begins, does_next, interleave, operations, advance, perform,
  Category, new_metrics, record_calls, record_call, dedupe_categories, normalized,
  normalize_severity, normalize_category_name, is_seen,
}
use ping_santo.Metrics.Tallies.{Tallies, is_add_ready, is_add_not_ready, is_add_alert, gains, loses}
use ping_santo.Metrics.Interleavings.{alone, interleave-Tallies}
use ping_santo.Metrics.Sync.{IsMeasured, enqueue-IsMeasured}

abbrev plain : String → String
plain s = s

abbrev keeps : Spill ℕ (List ℕ)
keeps = record { append = λ r s. (true, r ∷ s) }

abbrev monitor : ℕ → String
monitor n = "monitor"

abbrev queue : Queue ℕ (List ℕ)
queue = record {
  capacity = 4;
  items = 1 ∷ 2 ∷ [];
  spill = some [];
  threshold = 2;
  spilled = 0;
  dropped = 0;
  events = none;
  metrics = some (observe_depth 1 ∷ observe_depth 2 ∷ []);
}

queue-IsMeasured : IsMeasured queue
unfolding record_calls record_call new_metrics
queue-IsMeasured = (observe_depth 1 ∷ observe_depth 2 ∷ [], refl, refl, refl, refl)

enqueue-IsMeasured_example : IsMeasured (enqueue keeps monitor 3 queue).0
enqueue-IsMeasured_example = enqueue-IsMeasured keeps monitor 3 queue queue-IsMeasured

abbrev category : String → String → Category
category name severity = record { name = name; severity = severity }

deduped :
    dedupe_categories plain plain []
      (category "A" "warn" ∷ category "A" "warning" ∷ category "" "info" ∷ [])
    ≡ category "A" "warning" ∷ []
unfolding dedupe_categories normalized normalize_severity normalize_category_name is_seen
deduped = refl

-- Two calls find the agent not ready and observe that it is; the second begins before the first has
-- stored that.
abbrev overlapping : List ObserveStep
overlapping =
    begins true []
    ∷ begins true []
    ∷ does_next 0
    ∷ does_next 1
    ∷ does_next 1
    ∷ does_next 0
    ∷ does_next 0
    ∷ does_next 1
    ∷ []

abbrev overlapped : List Observation × Metrics
overlapped = interleave plain plain overlapping ([], new_metrics)

-- The agent became ready once, and that is counted twice.
counted_twice : (overlapped.1.ready_transitions ≡ 2) × (overlapped.1.ready ≡ true)
unfolding interleave operations advance perform new_metrics
counted_twice = (refl, refl)

interleave-Tallies_example :
    Tallies (λ n. n.ready_transitions) is_add_ready gains new_metrics.ready_transitions overlapped
    × Tallies
        (λ n. n.not_ready_transitions)
        is_add_not_ready
        loses
        new_metrics.not_ready_transitions
        overlapped
    × Tallies (λ n. n.ready_alerts) is_add_alert loses new_metrics.ready_alerts overlapped
    × let (cs', m') =
        interleave plain plain
          (alone plain plain overlapped.1.ready false (category "A" "warn" ∷ []))
          overlapped in
      (cs' ≡ record { prev = overlapped.1.ready; observes = false; rest = [] } ∷ overlapped.0)
      × (m'.ready ≡ false)
interleave-Tallies_example =
    interleave-Tallies plain plain overlapping new_metrics false (category "A" "warn" ∷ [])
