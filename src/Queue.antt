-- ===== src/Queue.antt =====
-- agent/internal/queue/result_queue.go: the bounded queue of probe results, with its spill store and
-- its recorders (agent/internal/events/recorder.go, agent/internal/metrics/queue.go).
pub mod Fifo
pub mod Bounds
pub mod Reliable
pub mod Drains
mod Tests
use Prim.Native.String.{String}
use ping_santo.Prelude.{
  ℕ, ◌+◌, ◌%◌, ◌^◌, leb, ltb, ◌&&◌, if◌then◌else◌, Bool, true, false, Option, none, some, List, [],
  ◌∷◌, ◌++◌, length, take, drop, ◌==◌,
}

-- What the queue asks of its spill store (`persist.Store`): `Append`, which tells whether it failed.
pub record Spill (R S : Type 0) : Type 0 where
  pub append : R → S → Bool × S

-- `types.EventType`
pub data EventType : Type 0 where
  queue_spill queue_drop backfill_start backfill_end reconnect gap rate_limit : EventType
  cert_expiring : EventType

-- `types.Event`, without its timestamp
pub record Event : Type 0 where
  pub type : EventType
  pub monitor_id : String

-- A call of `metrics.QueueRecorder`.
pub data QueueCall : Type 0 where
  observe_depth : ℕ → QueueCall
  inc_drops inc_spills : QueueCall

-- `ResultQueue`. A recorder that is not nil is the list of the calls that it has had, oldest first.
pub record Queue (R S : Type 0) : Type 0 where
  pub capacity : ℕ
  pub items : List R
  pub spill : Option S
  pub threshold : ℕ
  pub spilled : ℕ
  pub dropped : ℕ
  pub events : Option (List Event)
  pub metrics : Option (List QueueCall)

-- `Stats`
pub record Stats : Type 0 where
  pub len : ℕ
  pub dropped : ℕ
  pub spilled : ℕ

-- A call of a recorder that may be nil.
abbrev pub note {ℓ} : {A : Type ℓ} → A → Option (List A) → Option (List A)
note a none = none
note a (some l) = some (l ++ (a ∷ []))

-- `++` on a uint64
abbrev pub inc64 : ℕ → ℕ
inc64 n = (n + 1) % 2 ^ 64

-- `float64` products as far as `AttachSpill` uses them: `scale cap ratio` is int(float64(cap)*ratio).
pub record Ratio : Type 1 where
  pub Float : Type 0
  pub is_fraction : Float → Bool
  pub four_fifths : Float
  pub scale : ℕ → Float → ℕ

-- `q.spill != nil && q.threshold > 0`
abbrev pub may_spill : {S : Type 0} → Option S → ℕ → Bool
may_spill none threshold = false
may_spill (some s) threshold = ltb 0 threshold

module _ {R S : Type 0} where
  -- `NewResultQueue`; a capacity of 0 stands for every one that is not positive
  unfoldable pub new_queue : ℕ → Queue R S
  new_queue capacity = record {
    capacity = if capacity == 0 then 1 else capacity;
    items = [];
    spill = none;
    threshold = 0;
    spilled = 0;
    dropped = 0;
    events = none;
    metrics = none;
  }

  -- `AttachSpill`
  unfoldable pub attach_spill : (f : Ratio) → Option S → f.Float → Queue R S → Queue R S
  attach_spill f store ratio q =
      let threshold = f.scale q.capacity (if f.is_fraction ratio then ratio else f.four_fifths) in
      record q { spill = store; threshold = if ltb threshold 1 then q.capacity else threshold }

  -- `SetEventRecorder` and `SetMetricsRecorder`, with a recorder that has had no calls
  unfoldable pub set_event_recorder : Queue R S → Queue R S
  set_event_recorder q = record q { events = some [] }

  unfoldable pub set_metrics_recorder : Queue R S → Queue R S
  set_metrics_recorder q = record q { metrics = some [] }

  -- `observeDepthLocked`
  abbrev pub observe : Queue R S → Queue R S
  observe q = record q { metrics = note (observe_depth (length q.items)) q.metrics }

  -- `Drain`; a `max` of 0 stands for every one that is not positive
  unfoldable pub drain : ℕ → Queue R S → List R × Queue R S
  drain max q =
      let n = if ltb 0 max && ltb max (length q.items) then max else length q.items in
      (take n q.items, observe (record q { items = drop n q.items }))

  -- `Len` and `Stats`
  abbrev pub len : Queue R S → ℕ
  len q = length q.items

  unfoldable pub stats : Queue R S → Stats
  stats q = record { len = length q.items; dropped = q.dropped; spilled = q.spilled }

  -- `appendResult`
  abbrev pub append_result : R → Queue R S → Queue R S
  append_result r q = observe (record q { items = q.items ++ (r ∷ []) })

  module _ (ops : Spill R S) (monitor_id : R → String) where
    -- The oldest item, `x`, leaves the queue and is lost: the lines that the drop in `Enqueue` and
    -- the failure branch of `spillOldestLocked` share.
    unfoldable pub lose : R → List R → Queue R S → Queue R S
    lose x xs q = observe (record q {
      items = xs;
      dropped = inc64 q.dropped;
      events = note (record { type = queue_drop; monitor_id = monitor_id x }) q.events;
      metrics = note inc_drops q.metrics;
    })

    -- The oldest item leaves the queue for the store.
    unfoldable pub hand_over : R → List R → Queue R S → Queue R S
    hand_over x xs q = observe (record q {
      items = xs;
      spilled = inc64 q.spilled;
      events = note (record { type = queue_spill; monitor_id = monitor_id x }) q.events;
      metrics = note inc_spills q.metrics;
    })

    -- `spillOldestLocked`, at the store and the items
    unfoldable pub spill_oldest : Option S → List R → Queue R S → Queue R S × Bool
    spill_oldest none xs q = (q, false)
    spill_oldest (some s) [] q = (q, false)
    spill_oldest (some s) (x ∷ xs) q =
        let (done, s') = ops.append x s in
        let q' = record q { spill = some s' } in
        if done then (hand_over x xs q', true) else (lose x xs q', false)

    -- The loop of `Enqueue`; the list is `q.items`, which each round makes shorter.
    unfoldable pub spill_loop : List R → Queue R S → Queue R S
    spill_loop [] q = q
    spill_loop (x ∷ xs) q =
        let (q', spilt) = spill_oldest q.spill (x ∷ xs) q in
        let rest = spill_loop xs q' in
        if leb q.threshold (length (x ∷ xs)) then (if spilt then rest else q') else q

    -- `Enqueue`'s first part: down to the threshold, as long as the store takes the items
    unfoldable pub spill_down : Queue R S → Queue R S
    spill_down q = if may_spill q.spill q.threshold then spill_loop q.items q else q

    -- The drop in `Enqueue`, which tells whether there was an item to drop.
    unfoldable pub drop_oldest : List R → Queue R S → Queue R S × Bool
    drop_oldest [] q = (q, false)
    drop_oldest (x ∷ xs) q = (lose x xs q, true)

    -- What `Enqueue` does when the queue is full; `goto appendResult` skips the drop.
    unfoldable pub make_room : Queue R S → Queue R S × Bool
    make_room q =
        let (q', spilt) = spill_oldest q.spill q.items q in
        if spilt && ltb (length q'.items) q.capacity then (q', false) else drop_oldest q'.items q'

    -- `Enqueue` up to `appendResult`
    unfoldable pub free_slot : Queue R S → Queue R S × Bool
    free_slot q =
        let q₁ = spill_down q in
        if leb q₁.capacity (length q₁.items) then make_room q₁ else (q₁, false)

    -- `Enqueue`, with its result `dropped`
    unfoldable pub enqueue : R → Queue R S → Queue R S × Bool
    enqueue r q = (append_result r (free_slot q).0, (free_slot q).1)
