-- ===== src/Backfill.antt =====
-- agent/internal/backfill/controller.go: the spilled results are read in batches, at a limited rate.
-- The limiter is golang.org/x/time/rate, a parameter.
pub mod Replays
use ping_santo.Prelude.{
  ℕ, ◌==◌, ltb, ◌||◌, if◌then◌else◌, Bool, true, false, Option, none, some, List, [], ◌∷◌, ◌++◌,
  length, ◌⊎◌, inl, inr,
}
use ping_santo.Persist.Frame.{Codec}
use ping_santo.Persist.State.{Store, Faults, Batch, Error, Result, ok, err}
use ping_santo.Persist.Reader.{read_batch}
use ping_santo.Persist.Acker.{ack, size_bytes}
use ping_santo.Queue.{note}

-- `rate.Limiter`, with the moments at which it is asked. `wait_n` tells whether `WaitN` returned an
-- error, `allow_n` what `AllowN` answered.
pub record RateLimit : Type 1 where
  pub Rate : Type 0
  pub Limiter : Type 0
  pub Moment : Type 0
  pub is_positive : Rate → Bool
  pub to_int : Rate → ℕ
  pub one : Rate
  pub fifty : Rate
  pub new_limiter : Rate → ℕ → Limiter
  pub wait_n : Moment → Limiter → ℕ → Bool × Limiter
  pub allow_n : Moment → Limiter → ℕ → Bool × Limiter

-- What `Next` fails with: the store's error, or the limiter's.
pub data NextError : Type 0 where
  of_store : Error → NextError
  rate_limited : NextError

-- `Batch` of the controller; the closure `ack` is the store's batch that it acknowledges.
pub record ReplayBatch (R : Type 0) : Type 0 where
  pub results : List R
  pub ack : Option (Batch R)

module _ (rate : RateLimit) where
  open rate use {
    Rate, Limiter, Moment, is_positive, to_int, one, fifty, new_limiter, wait_n, allow_n,
  }

  -- `Controller`. The store is handed to each call, since the queue writes to it too. `metrics` is
  -- the list of the values that the recorder has observed, none for `NoopBackfillRecorder`.
  pub record Controller : Type 0 where
    pub limiter : Limiter
    pub max_batch : ℕ
    pub metrics : Option (List ℕ)

  -- `WithRate`; a burst of 0 stands for every one that is not positive
  unfoldable pub with_rate : Rate → ℕ → Controller → Controller
  with_rate ops_per_second burst c =
      if is_positive ops_per_second
      then record c {
        limiter = new_limiter ops_per_second (if burst == 0 then to_int ops_per_second else burst);
      }
      else c

  -- `WithMaxBatch`
  unfoldable pub with_max_batch : ℕ → Controller → Controller
  with_max_batch size c = if ltb 0 size then record c { max_batch = size } else c

  -- `WithMetrics`
  unfoldable pub with_metrics : Option (List ℕ) → Controller → Controller
  with_metrics none c = c
  with_metrics (some calls) c = record c { metrics = some calls }

  -- `recordPending`
  unfoldable pub record_pending : Option Store → Controller → Controller
  record_pending none c = c
  record_pending (some s) c = record c { metrics = note (size_bytes s) c.metrics }

  abbrev pub apply_options : List (Controller → Controller) → Controller → Controller
  apply_options [] c = c
  apply_options (o ∷ os) c = apply_options os (o c)

  -- `New`
  unfoldable pub new_controller : Option Store → List (Controller → Controller) → Controller
  new_controller store opts = record_pending store (
      apply_options opts
        (record { limiter = new_limiter fifty 100; max_batch = 256; metrics = none }))

  -- `SetLimiter`
  unfoldable pub set_limiter : Rate → ℕ → Controller → Controller
  set_limiter rate_per_second burst c =
      let r = if is_positive rate_per_second then rate_per_second else one in
      record c { limiter = new_limiter r (if burst == 0 then to_int r else burst) }

  -- `SetMetrics`
  unfoldable pub set_metrics : Option Store → Option (List ℕ) → Controller → Controller
  set_metrics store rec c = record_pending store (record c { metrics = rec })

  -- `PendingBytes`
  unfoldable pub pending_bytes : Option Store → ℕ
  pending_bytes none = 0
  pending_bytes (some s) = size_bytes s

  -- `AllowAt`
  unfoldable pub allow_at : Moment → ℕ → Controller → Bool × Controller
  allow_at t n c = let (allowed, l) = allow_n t c.limiter n in (allowed, record c { limiter = l })

  module _ {R : Type 0} (codec : Codec R) where
    abbrev pub no_replay : ReplayBatch R
    no_replay = record { results = []; ack = none }

    -- What `Next` asks `ReadBatch` for.
    unfoldable pub batch_limit : ℕ → Controller → ℕ
    batch_limit max c = if max == 0 || ltb c.max_batch max then c.max_batch else max

    -- `Next`, behind `ReadBatch` and `recordPending`
    unfoldable pub admit : Moment → Batch R → Controller → Option (ReplayBatch R) × Controller
    admit t b c = elim b.results [
      | [] ↦ (some no_replay, c)
      | r ∷ rs ↦
          let (limited, l) = wait_n t c.limiter (length (r ∷ rs)) in
          let c' = record c { limiter = l } in
          if limited then (none, c') else (some (record { results = r ∷ rs; ack = some b }), c')
    ]

    abbrev pub answer : Option (ReplayBatch R) → NextError ⊎ ReplayBatch R
    answer none = inl rate_limited
    answer (some b) = inr b

    -- `Next`, behind `ReadBatch`
    unfoldable pub next_read :
        Moment
        → Result (Batch R)
        → Store
        → Controller
        → (NextError ⊎ ReplayBatch R) × (Option Store × Controller)
    next_read t (err e) s c = (inl (of_store e), (some s, c))
    next_read t (ok b) s c =
        let (r, c') = admit t b (record_pending (some s) c) in (answer r, (some s, c'))

    -- `Next`
    unfoldable pub next :
        Faults
        → Moment
        → ℕ
        → Option Store
        → Controller
        → (NextError ⊎ ReplayBatch R) × (Option Store × Controller)
    next io t max none c = (inr no_replay, (none, c))
    next io t max (some s) c =
        let (r, s') = read_batch codec io (batch_limit max c) s in next_read t r s' c

    -- `Ack`, behind the closure
    unfoldable pub ack_done :
        Result {0} Unit → Store → Controller → Result {0} Unit × (Store × Controller)
    ack_done (err e) s c = (err e, (s, c))
    ack_done (ok x) s c = (ok x, (s, record_pending (some s) c))

    -- `Ack`; the closure exists only where there is a store
    unfoldable pub ack_replay :
        Faults → ReplayBatch R → Store → Controller → Result {0} Unit × (Store × Controller)
    ack_replay io b s c = elim b.ack [
      | none ↦ (ok tt, (s, c))
      | some batch ↦ let (r, s') = ack io batch s in ack_done r s' c
    ]
