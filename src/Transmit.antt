-- ===== src/Transmit.antt =====
-- agent/internal/transmit/transmitter.go: the loop that sends the queue's results, and the spilled
-- ones when the queue is empty. The queue and the backfill controller share one spill store, as
-- agent/cmd/agent/main.go and agent/internal/runtime/runtime.go connect them.
pub mod Live
pub mod Spilled
pub mod Loop
pub mod Burst
mod Tests
use Prim.Native.String.{String}
use ping_santo.Prelude.{
  ℕ, ltb, if◌then◌else◌, Bool, true, false, Option, none, some, List, [], ◌∷◌, ◌++◌, ◌⊎◌, inl, inr,
}
use ping_santo.Persist.Frame.{Codec}
use ping_santo.Persist.State.{Store, Faults, Error, Result, ok, err}
use ping_santo.Persist.Writer.{append}
use ping_santo.Queue.{Spill, Queue, drain, enqueue}
use ping_santo.Backfill.{RateLimit, Controller, ReplayBatch, NextError, next, ack_replay}

abbrev pub is_ok : {A : Type 0} → Result A → Bool
is_ok (ok a) = true
is_ok (err e) = false

-- Why `Run` returns.
pub data Stop : Type 0 where
  cancelled : Stop
  next_failed : NextError → Stop
  ack_failed : Error → Stop

module _ (rate : RateLimit) {R : Type 0} (codec : Codec R) (monitor_id : R → String) where
  open rate use {Moment}

  -- The store as the queue sees it.
  abbrev pub spill_to : Faults → Spill R Store
  spill_to io = record { append = λ r s. let (a, t) = append codec io r s in (is_ok a, t) }

  -- `Transmitter`, with what the sink has taken, oldest first.
  pub record Transmitter : Type 0 where
    pub queue : Queue R Store
    pub backfill : Option (Controller rate)
    pub batch_size : ℕ
    pub delivered : List R

  -- What happens during one round of the loop of `Run`: whether the context is done at its start,
  -- whether `Send` fails, and which results the workers enqueue: during `Send`; before each of the
  -- results that a failed `Send` gives back to the queue; and then, during the sleeps and until the
  -- next round.
  pub record Turn : Type 0 where
    pub is_done : Bool
    pub send_fails : Bool
    pub arrivals : List R
    pub between : List (List R)
    pub sleeping : List R
    pub io : Faults
    pub moment : Moment

  -- `WithBatchSize`, and `New` with that option and `WithBackfill`
  unfoldable pub with_batch_size : ℕ → Transmitter → Transmitter
  with_batch_size size t = if ltb 0 size then record t { batch_size = size } else t

  unfoldable pub new_transmitter : Queue R Store → Option (Controller rate) → ℕ → Transmitter
  new_transmitter q ctrl size =
      with_batch_size size (record { queue = q; backfill = ctrl; batch_size = 256; delivered = [] })

  unfoldable pub enqueue_all : Faults → List R → Queue R Store → Queue R Store
  enqueue_all io [] q = q
  enqueue_all io (r ∷ rs) q = enqueue_all io rs (enqueue (spill_to io) monitor_id r q).0

  -- What `Enqueue` gets while the loop of `flushQueue` gives back the results
  unfoldable pub interleaved : List (List R) → List R → List R
  interleaved [] rs = rs
  interleaved (ls ∷ rest) [] = []
  interleaved (ls ∷ rest) (r ∷ rs) = ls ++ (r ∷ interleaved rest rs)

  -- `flushQueue`, behind `Drain`
  unfoldable pub send_live : Turn → List R → Transmitter → Bool × Transmitter
  send_live turn [] t = (false, t)
  send_live turn (r ∷ rs) t =
      let q = enqueue_all turn.io turn.arrivals t.queue in
      if turn.send_fails
      then (true, record t { queue = enqueue_all turn.io (interleaved turn.between (r ∷ rs)) q })
      else (true, record t { queue = q; delivered = t.delivered ++ (r ∷ rs) })

  -- `flushQueue`
  unfoldable pub flush_queue : Turn → Transmitter → Bool × Transmitter
  flush_queue turn t =
      let (results, q) = drain t.batch_size t.queue in
      send_live turn results (record t { queue = q })

  abbrev pub acked : Result {0} Unit → Stop ⊎ Bool
  acked (ok x) = inr true
  acked (err e) = inl (ack_failed e)

  -- `flushBackfill`, behind a `Send` that succeeds; without a store there is nothing to acknowledge
  unfoldable pub settle :
      Turn
      → Option Store
      → ReplayBatch R
      → Controller rate
      → Transmitter
      → (Stop ⊎ Bool) × Transmitter
  settle turn none b c t = (inr true, t)
  settle turn (some s) b c t =
      let (r, (s', c')) = ack_replay rate codec turn.io b s c in
      (acked r, record t { queue = record t.queue { spill = some s' }; backfill = some c' })

  -- `flushBackfill`, behind `Next`
  unfoldable pub send_replay :
      Turn → List R → ReplayBatch R → Controller rate → Transmitter → (Stop ⊎ Bool) × Transmitter
  send_replay turn [] b c t = (inr false, t)
  send_replay turn (r ∷ rs) b c t =
      let q = enqueue_all turn.io turn.arrivals t.queue in
      if turn.send_fails
      then (inr true, record t { queue = q })
      else settle turn q.spill b c (record t { queue = q; delivered = t.delivered ++ (r ∷ rs) })

  unfoldable pub replay_or_stop :
      Turn → NextError ⊎ ReplayBatch R → Controller rate → Transmitter → (Stop ⊎ Bool) × Transmitter
  replay_or_stop turn (inl e) c t = (inl (next_failed e), t)
  replay_or_stop turn (inr b) c t = send_replay turn b.results b c t

  unfoldable pub flush_with :
      Turn → Option (Controller rate) → Transmitter → (Stop ⊎ Bool) × Transmitter
  flush_with turn none t = (inr false, t)
  flush_with turn (some c) t =
      let (r, (store, c')) = next rate codec turn.io turn.moment t.batch_size t.queue.spill c in
      replay_or_stop turn r c'
        (record t { queue = record t.queue { spill = store }; backfill = some c' })

  -- `flushBackfill`
  unfoldable pub flush_backfill : Turn → Transmitter → (Stop ⊎ Bool) × Transmitter
  flush_backfill turn t = flush_with turn t.backfill t

  -- What arrives until the next round, if there is one
  unfoldable pub asleep : Turn → (Stop ⊎ Bool) × Transmitter → (Stop ⊎ Bool) × Transmitter
  asleep turn (inl stop, t) = (inl stop, t)
  asleep turn (inr flushed, t) =
      (inr flushed, record t { queue = enqueue_all turn.io turn.sleeping t.queue })

  -- One round of the loop of `Run`
  unfoldable pub round : Turn → Transmitter → (Stop ⊎ Bool) × Transmitter
  round turn t =
      let (sent, t') = flush_queue turn t in
      if turn.is_done
      then (inl cancelled, t)
      else asleep turn (if sent then (inr true, t') else flush_backfill turn t')

  abbrev pub or_stop :
      Stop ⊎ Bool → Option Stop × Transmitter → Transmitter → Option Stop × Transmitter
  or_stop (inl stop) rest t = (some stop, t)
  or_stop (inr flushed) rest t = rest

  -- The loop of `Run`, for as many rounds as are given; none if it has not returned by then. A
  -- context that is done ends the idle and retry sleeps, and the next round.
  unfoldable pub run : List Turn → Transmitter → Option Stop × Transmitter
  run [] t = (none, t)
  run (turn ∷ turns) t = let (r, t') = round turn t in let rest = run turns t' in or_stop r rest t'
