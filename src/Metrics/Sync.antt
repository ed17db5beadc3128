-- ===== src/Metrics/Sync.antt =====
-- The queue and the metrics that its recorder feeds.
use Prim.Native.String.{String}
use ping_santo.Prelude.{
  ℕ, ◌≡◌, refl, ap, ◌∙◌, Option, some, List, [], ◌∷◌, ◌++◌, append_assoc, length,
}
use mathlib.Core.Path.{subst}
use ping_santo.Queue.{
  Spill, Queue, QueueCall, observe_depth, inc_drops, inc_spills, inc64, note, observe, lose,
  hand_over, drain, enqueue, free_slot,
}
use ping_santo.Queue.Fifo.{Fate, Leaves, stay, free_slot-Ends}
use ping_santo.Metrics.{Metrics, new_metrics, record_call, record_calls}

record_calls-append :
    (l k : List QueueCall) (m : Metrics)
    → record_calls (l ++ k) m ≡ record_calls k (record_calls l m)
unfolding record_calls
record_calls-append [] k m = refl
record_calls-append (c ∷ l) k m = record_calls-append l k (record_call c m)

two_notes :
    (a b : QueueCall) (l : List QueueCall) (log : Option (List QueueCall))
    → log ≡ some l
    → note b (note a log) ≡ some (l ++ (a ∷ b ∷ []))
two_notes a b l log on = ap (λ o. note b (note a o)) on ∙ ap some (append_assoc l (a ∷ []) (b ∷ []))

module _ {R S : Type 0} where
  -- The queue has a recorder, and a new metrics store that got the recorder's calls shows the queue's
  -- length and its counters.
  abbrev pub IsMeasured : Queue R S → Type 0
  IsMeasured q =
      (l : List QueueCall) × (q.metrics ≡ some l)
      × ((record_calls l new_metrics).queue_depth ≡ length q.items)
      × ((record_calls l new_metrics).queue_drops ≡ q.dropped)
      × ((record_calls l new_metrics).queue_spills ≡ q.spilled)

  observe-IsMeasured :
      (q : Queue R S) (items : List R)
      → IsMeasured q
      → IsMeasured (observe (record q { items = items }))
  unfolding record_calls record_call
  observe-IsMeasured q items (l, on, depth, drops, spills) =
      let more = record_calls-append l (observe_depth (length items) ∷ []) new_metrics in
      (
        l ++ (observe_depth (length items) ∷ []),
        ap (note (observe_depth (length items))) on,
        ap (λ m. m.queue_depth) more,
        ap (λ m. m.queue_drops) more ∙ drops,
        ap (λ m. m.queue_spills) more ∙ spills,
      )

module _ {R S : Type 0} (ops : Spill R S) (monitor_id : R → String) where
  lose-IsMeasured :
      (x : R) (xs : List R) (q : Queue R S) → IsMeasured q → IsMeasured (lose ops monitor_id x xs q)
  unfolding lose record_calls record_call
  lose-IsMeasured x xs q (l, on, depth, drops, spills) =
      let calls = inc_drops ∷ observe_depth (length xs) ∷ [] in
      let more = record_calls-append l calls new_metrics in
      (
        l ++ calls,
        two_notes inc_drops (observe_depth (length xs)) l q.metrics on,
        ap (λ m. m.queue_depth) more,
        ap (λ m. m.queue_drops) more ∙ ap inc64 drops,
        ap (λ m. m.queue_spills) more ∙ spills,
      )

  hand_over-IsMeasured :
      (x : R) (xs : List R) (q : Queue R S)
      → IsMeasured q
      → IsMeasured (hand_over ops monitor_id x xs q)
  unfolding hand_over record_calls record_call
  hand_over-IsMeasured x xs q (l, on, depth, drops, spills) =
      let calls = inc_spills ∷ observe_depth (length xs) ∷ [] in
      let more = record_calls-append l calls new_metrics in
      (
        l ++ calls,
        two_notes inc_spills (observe_depth (length xs)) l q.metrics on,
        ap (λ m. m.queue_depth) more,
        ap (λ m. m.queue_drops) more ∙ drops,
        ap (λ m. m.queue_spills) more ∙ ap inc64 spills,
      )

  Leaves-IsMeasured :
      {q' q : Queue R S} {gone : List (R × Fate)}
      → Leaves ops monitor_id q' q gone
      → IsMeasured q
      → IsMeasured q'
  Leaves-IsMeasured (stay e) v = subst IsMeasured e v
  Leaves-IsMeasured {q = q} (Leaves.spilt {x = x} {xs = xs} {s = s} e at a l) v =
      Leaves-IsMeasured l
        (hand_over-IsMeasured x xs (record q { spill = some (ops.append x s).1 }) v)
  Leaves-IsMeasured {q = q} (Leaves.refused {x = x} {xs = xs} {s = s} e at a l) v =
      Leaves-IsMeasured l (lose-IsMeasured x xs (record q { spill = some (ops.append x s).1 }) v)
  Leaves-IsMeasured {q = q} (Leaves.evicted {x = x} {xs = xs} e l) v =
      Leaves-IsMeasured l (lose-IsMeasured x xs q v)

  -- Enqueue keeps the metrics in step with the queue: if the gauge was the queue's length and the two
  -- counters were the queue's counters, they are so afterwards, whatever was spilled or dropped.
  pub enqueue-IsMeasured :
      (r : R) (q : Queue R S) → IsMeasured q → IsMeasured (enqueue ops monitor_id r q).0
  unfolding enqueue
  enqueue-IsMeasured r q v =
      let (gone, leaves) = free_slot-Ends ops monitor_id q in
      let slot = (free_slot ops monitor_id q).0 in
      observe-IsMeasured slot (slot.items ++ (r ∷ [])) (Leaves-IsMeasured leaves v)

-- So does Drain.
pub drain-IsMeasured :
    {R S : Type 0} (max : ℕ) (q : Queue R S) → IsMeasured q → IsMeasured (drain max q).1
unfolding drain
drain-IsMeasured max q v = observe-IsMeasured q (drain max q).1.items v
