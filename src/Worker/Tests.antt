-- ===== src/Worker/Tests.antt =====
-- Runs of a pool whose sink is the result queue.
use ping_santo.Prelude.{
  if◌then◌else◌, ◌==◌, ℕ, ◌≡◌, refl, Option, none, some, List, [], ◌∷◌, false, ◌+◌,
}
use ping_santo.Queue.{Queue, Spill, new_queue, enqueue, free_slot, spill_down}
use ping_santo.Scheduler.{Job}
use ping_santo.Worker.{
  Request, ResultSink, Pool, WorkerTurn, submit, close, cancel, take_job, put_result, leave, ended,
  at_work, new_pool, run_workers, with_options,
}
use ping_santo.Worker.Shifts.{shift, deliver, shift_delivers}
use ping_santo.Worker.Accounts.{Accounts}
use ping_santo.Worker.Runs.{run_workers-Accounts}

-- A result is a number; there is no spill store.
abbrev no_store : Spill ℕ ℕ
no_store = record { append = λ r s. (false, s) }

abbrev sink : ResultSink ℕ (Queue ℕ ℕ)
sink = record { enqueue = enqueue no_store (λ r. "a") }

-- A batch gives its moment and the one after; at 9 it fails.
abbrev batcher : ℕ → List Request → Option (List ℕ)
batcher moment reqs = if moment == 9 then none else some (moment ∷ (moment + 1) ∷ [])

abbrev job : ℕ → Job
job n = record {
  monitor_id = "a";
  protocol = "icmp";
  targets = "10.0.0.1" ∷ [];
  cadence = 1;
  timeout = 1;
  scheduled_for = n;
  configuration = "";
}

-- Two workers; the second takes its job while the first still holds a result, and the context is
-- cancelled under them.
abbrev turns : List WorkerTurn
turns =
    submit (job 1)
    ∷ submit (job 2)
    ∷ take_job 0 3
    ∷ put_result 0
    ∷ take_job 1 6
    ∷ put_result 1
    ∷ cancel
    ∷ put_result 0
    ∷ leave 0
    ∷ close
    ∷ submit (job 3)
    ∷ []

abbrev pool : Pool ℕ (Queue ℕ ℕ)
pool = new_pool 8 (2 ∷ 0 ∷ []) (new_queue 1024) none

run_workers-Accounts_example :
    Accounts sink batcher
      (new_queue 1024)
      (job 1 ∷ job 2 ∷ [])
      (run_workers sink batcher turns pool)
unfolding new_pool
run_workers-Accounts_example =
    run_workers-Accounts sink batcher 8 (2 ∷ 0 ∷ []) (new_queue 1024) none turns

items_after : (run_workers sink batcher turns pool).results.items ≡ 3 ∷ 6 ∷ 4 ∷ []
unfolding run_workers new_pool with_options new_queue enqueue free_slot spill_down
items_after = refl

workers_after : (run_workers sink batcher turns pool).workers ≡ ended ∷ at_work (7 ∷ []) ∷ []
unfolding run_workers new_pool with_options
workers_after = refl

abbrev waiting : Pool ℕ (Queue ℕ ℕ)
waiting = record pool { jobs = job 1 ∷ job 2 ∷ [] }

shift_delivers_example :
    run_workers sink batcher (shift sink batcher 0 8 (job 1 ∷ job 2 ∷ [])) waiting
    ≡ record waiting { jobs = []; results = deliver sink (8 ∷ 9 ∷ []) waiting.results }
unfolding new_pool
shift_delivers_example = shift_delivers sink batcher 0 8 (job 1 ∷ job 2 ∷ []) waiting refl refl
