-- ===== src/Worker.antt =====
-- agent/internal/worker/pool.go: the workers that take jobs from a channel, run them and put their
-- results into a sink. The goroutines are turns of workers, in any order. What a batch of requests
-- gives is a parameter, which may differ at every moment; a timeout is in nanoseconds.
pub mod Accounts
pub mod Runs
pub mod Shifts
mod Tests
use Prim.Native.String.{String}
use ping_santo.Prelude.{
  ℕ, zero, suc, ◌==◌, if◌then◌else◌, Bool, true, false, ◌&&◌, not, Option, none, some, List, [],
  ◌∷◌, ◌++◌,
}
use ping_santo.Scheduler.{Job}

-- `probe.Request`
pub record Request : Type 0 where
  pub monitor_id : String
  pub protocol : String
  pub targets : List String
  pub timeout : ℕ

-- `ResultSink`: `Enqueue`, with the state of the sink
pub record ResultSink (R S : Type 0) : Type 0 where
  pub enqueue : R → S → S × Bool

-- Where a worker is: at the `select`, in the loop of `handleJob` with the results that it has still
-- to enqueue, or returned.
pub data Worker (R : Type 0) : Type 0 where
  idle : Worker R
  at_work : List R → Worker R
  ended : Worker R

-- What happens: a job is sent, the channel is closed, the context is cancelled; a worker takes a job,
-- whose batch runs at a moment, or enqueues its next result, or leaves.
pub data WorkerTurn : Type 0 where
  submit : Job → WorkerTurn
  close cancel : WorkerTurn
  take_job : ℕ → ℕ → WorkerTurn
  put_result : ℕ → WorkerTurn
  leave : ℕ → WorkerTurn

-- `Pool`, with its channel and its workers
pub record Pool (R S : Type 0) : Type 0 where
  pub jobs : List Job
  pub closed : Bool
  pub cancelled : Bool
  pub workers : List (Worker R)
  pub results : S

-- `PoolOption`, of which `WithBatcher` is the parameter `batcher` below; a count of 0 stands for
-- every one that is not positive
unfoldable pub with_worker_count : ℕ → ℕ → ℕ
with_worker_count n count = if n == 0 then count else n

unfoldable pub with_options : List ℕ → ℕ → ℕ
unfolding with_worker_count
with_options [] count = count
with_options (n ∷ options) count = with_options options (with_worker_count n count)

-- The request of a job
unfoldable pub request_of : Job → Request
request_of job = record {
  monitor_id = job.monitor_id;
  protocol = job.protocol;
  targets = job.targets;
  timeout = job.timeout;
}

module _ {R : Type 0} where
  abbrev pub replicate_idle : ℕ → List (Worker R)
  replicate_idle zero = []
  replicate_idle (suc n) = idle ∷ replicate_idle n

  -- The worker of a number, and the workers with another one in its place
  abbrev pub worker_at : ℕ → List (Worker R) → Worker R
  worker_at i [] = ended
  worker_at zero (w ∷ ws) = w
  worker_at (suc i) (w ∷ ws) = worker_at i ws

  abbrev pub replace : ℕ → Worker R → List (Worker R) → List (Worker R)
  replace i w [] = []
  replace zero w (_ ∷ ws) = w ∷ ws
  replace (suc i) w (w' ∷ ws) = w' ∷ replace i w ws

  -- The loop over the results goes on, or the worker is back at the `select`.
  abbrev pub goes_on : List R → Worker R
  goes_on [] = idle
  goes_on (r ∷ rs) = at_work (r ∷ rs)

  -- `results, err := p.batcher(...)`: an error drops the job.
  abbrev pub batched : Option (List R) → List R
  batched none = []
  batched (some rs) = rs

  -- `NewPool` and `Start`: `cpus` is the number of processors, `queue` the queue of 1024 results that
  -- is made where no sink is given.
  unfoldable pub new_pool : {S : Type 0} → ℕ → List ℕ → S → Option S → Pool R S
  unfolding with_options
  new_pool cpus options queue results =
      let count = with_options options cpus in
      record {
        jobs = [];
        closed = false;
        cancelled = false;
        workers = replicate_idle (if count == 0 then 1 else count);
        results = elim results [ none ↦ queue | some sink ↦ sink ];
      }

  -- `handleJob` up to its loop
  unfoldable pub handle_job : (ℕ → List Request → Option (List R)) → ℕ → Job → Worker R
  unfolding request_of
  handle_job batcher moment job = goes_on (batched (batcher moment (request_of job ∷ [])))

  module _ {S : Type 0} (sink : ResultSink R S) (batcher : ℕ → List Request → Option (List R)) where
    -- `case job, ok := <-p.jobs`; a turn of a worker that cannot take a job changes nothing.
    unfoldable pub receive : ℕ → ℕ → Worker R → List Job → Pool R S → Pool R S
    unfolding handle_job
    receive i moment idle (job ∷ jobs) p = record p {
      jobs = jobs;
      workers = replace i (handle_job batcher moment job) p.workers;
    }
    receive i moment w jobs p = p

    -- A round of the loop over the results
    unfoldable pub enqueue_next : ℕ → Worker R → Pool R S → Pool R S
    enqueue_next i (at_work (r ∷ rs)) p = record p {
      workers = replace i (goes_on rs) p.workers;
      results = (sink.enqueue r p.results).0;
    }
    enqueue_next i w p = p

    -- The context is done, or the channel is closed and empty.
    abbrev pub may_leave : List Job → Pool R S → Bool
    may_leave [] p = if p.cancelled then true else p.closed
    may_leave (job ∷ jobs) p = p.cancelled

    unfoldable pub return_from : ℕ → Worker R → Pool R S → Pool R S
    return_from i idle p =
        if may_leave p.jobs p then record p { workers = replace i ended p.workers } else p
    return_from i w p = p

    -- A job is sent, which a closed channel does not take.
    abbrev pub send_job : Bool → Job → Pool R S → Pool R S
    send_job true job p = p
    send_job false job p = record p { jobs = p.jobs ++ (job ∷ []) }

    -- `runWorker`, a turn at a time
    unfoldable pub turn : WorkerTurn → Pool R S → Pool R S
    unfolding receive enqueue_next return_from
    turn (submit job) p = send_job p.closed job p
    turn close p = record p { closed = true }
    turn cancel p = record p { cancelled = true }
    turn (take_job i moment) p = receive i moment (worker_at i p.workers) p.jobs p
    turn (put_result i) p = enqueue_next i (worker_at i p.workers) p
    turn (leave i) p = return_from i (worker_at i p.workers) p

    unfoldable pub run_workers : List WorkerTurn → Pool R S → Pool R S
    unfolding turn
    run_workers [] p = p
    run_workers (t ∷ ts) p = run_workers ts (turn t p)
