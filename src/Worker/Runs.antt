-- ===== src/Worker/Runs.antt =====
-- Whole runs of agent/internal/worker/pool.go.
use ping_santo.Prelude.{
  ℕ, ◌==◌, ◌≡◌, refl, sym, ap, ◌∙◌, Bool, true, false, if◌then◌else◌, Option, List, [], ◌∷◌, ◌++◌,
  append-nil, append_assoc, arith,
}
use mathlib.Core.Path.{subst}
use ping_santo.Scheduler.{Job}
use ping_santo.Worker.{
  Request, ResultSink, WorkerTurn, submit, close, cancel, take_job, put_result, leave, Pool,
  worker_at, with_options, send_job, turn, run_workers, new_pool,
}
use ping_santo.Worker.Accounts.{
  sent, Accounts, pending-replicate_idle, receive-Accounts, enqueue_next-Accounts,
  return_from-Accounts,
}

module _ {R S : Type 0} (sink : ResultSink R S) (batcher : ℕ → List Request → Option (List R)) where
  -- A run from a pool whose ledger is known
  run_workers-Accounts_from :
      (s : S) (ts : List WorkerTurn) (closed : Bool) (jobs : List Job) (p : Pool R S)
      → p.closed ≡ closed
      → Accounts sink batcher s jobs p
      → Accounts sink batcher s (jobs ++ sent closed ts) (run_workers sink batcher ts p)
  unfolding run_workers turn
  run_workers-Accounts_from s [] closed jobs p e known = rw (append-nil jobs) known
  run_workers-Accounts_from s (submit job ∷ ts) true jobs p e known =
      subst
        (λ c.
          Accounts sink batcher s (jobs ++ sent true ts)
            (run_workers sink batcher ts (send_job sink batcher c job p)))
        (sym e) (run_workers-Accounts_from s ts true jobs p e known)
  run_workers-Accounts_from s (submit job ∷ ts) false jobs p e (taken, done, js, res, cnt) =
      let longer = ap (λ l. l ++ (job ∷ [])) js ∙ append_assoc _ p.jobs (job ∷ []) in
      let q : Pool R S = record p { jobs = p.jobs ++ (job ∷ []) } in
      subst
        (λ c.
          Accounts sink batcher s (jobs ++ (job ∷ sent false ts))
            (run_workers sink batcher ts (send_job sink batcher c job p)))
        (sym e)
        (subst (λ l. Accounts sink batcher s l (run_workers sink batcher ts q))
          (append_assoc jobs (job ∷ []) (sent false ts))
          (run_workers-Accounts_from s ts false (jobs ++ (job ∷ [])) q e
            (taken, done, longer, res, cnt)))
  run_workers-Accounts_from s (close ∷ ts) closed jobs p e known =
      run_workers-Accounts_from s ts true jobs (record p { closed = true }) refl known
  run_workers-Accounts_from s (cancel ∷ ts) closed jobs p e known =
      run_workers-Accounts_from s ts closed jobs (record p { cancelled = true }) e known
  run_workers-Accounts_from s (take_job i moment ∷ ts) closed jobs p e known =
      let (kept, same_as) =
        receive-Accounts sink batcher s jobs i moment (worker_at i p.workers) p.jobs p refl refl
          known in
      run_workers-Accounts_from s ts closed jobs _ (same_as ∙ e) kept
  run_workers-Accounts_from s (put_result i ∷ ts) closed jobs p e known =
      let (kept, same_as) =
        enqueue_next-Accounts sink batcher s jobs i (worker_at i p.workers) p refl known in
      run_workers-Accounts_from s ts closed jobs _ (same_as ∙ e) kept
  run_workers-Accounts_from s (leave i ∷ ts) closed jobs p e known =
      let (kept, same_as) =
        return_from-Accounts sink batcher s jobs i (worker_at i p.workers) p refl known in
      run_workers-Accounts_from s ts closed jobs _ (same_as ∙ e) kept

  -- However the workers of a new pool alternate, whenever the context is cancelled and the channel
  -- closed: the jobs that were sent before the closing are, in their order, those that workers took
  -- and those that wait; and the sink has been given a list of results that, with what the workers
  -- still hold, has each result of the batches of the jobs taken as often as these batches gave it.
  pub run_workers-Accounts :
      (cpus : ℕ) (options : List ℕ) (queue : S) (results : Option S) (ts : List WorkerTurn)
      → let p = new_pool cpus options queue results in
        Accounts sink batcher p.results (sent false ts) (run_workers sink batcher ts p)
  unfolding new_pool
  run_workers-Accounts cpus options queue results ts =
      let n = with_options options cpus in
      let p = new_pool {R = R} cpus options queue results in
      run_workers-Accounts_from p.results ts false [] p refl (
        [],
        [],
        refl,
        refl,
        λ passes.
            let none_held = pending-replicate_idle passes (if n == 0 then 1 else n) in
            omega (arith, none_held),
      )
