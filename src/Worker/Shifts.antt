-- ===== src/Worker/Shifts.antt =====
-- A worker of agent/internal/worker/pool.go that works off the jobs that wait.
use ping_santo.Prelude.{
  ℕ, zero, suc, ◌≡◌, refl, sym, ap, ◌∙◌, Bool, true, false, Option, List, [], ◌∷◌, ◌++◌, arith,
}
use ping_santo.Scheduler.{Job}
use ping_santo.Worker.{
  Request, ResultSink, Worker, idle, at_work, ended, WorkerTurn, take_job, put_result, Pool,
  request_of, worker_at, replace, goes_on, batched, handle_job, receive, enqueue_next, turn,
  run_workers,
}

-- The worker of that number is one that has not returned.
abbrev pub is_here : {R : Type 0} → Worker R → Bool
is_here idle = true
is_here (at_work rs) = true
is_here ended = false

-- The results that a batch gives for a job
abbrev pub outcome : {R : Type 0} → (ℕ → List Request → Option (List R)) → ℕ → Job → List R
outcome batcher moment job = batched (batcher moment (request_of job ∷ []))

abbrev pub deliver : {R S : Type 0} → ResultSink R S → List R → S → S
deliver sink [] s = s
deliver sink (r ∷ rs) s = deliver sink rs (sink.enqueue r s).0

module _ {R : Type 0} where
  pub worker_at-replace :
      (i : ℕ) (w : Worker R) (ws : List (Worker R))
      → is_here (worker_at i ws) ≡ true
      → worker_at i (replace i w ws) ≡ w
  worker_at-replace i w [] here = absurd (ground (arith, here))
  worker_at-replace zero w (w' ∷ ws) here = refl
  worker_at-replace (suc i) w (w' ∷ ws) here = worker_at-replace i w ws here

  replace_twice :
      (i : ℕ) (w w' : Worker R) (ws : List (Worker R))
      → replace i w (replace i w' ws) ≡ replace i w ws
  replace_twice i w w' [] = refl
  replace_twice zero w w' (v ∷ ws) = refl
  replace_twice (suc i) w w' (v ∷ ws) = ap (λ l. v ∷ l) (replace_twice i w w' ws)

  replace_same :
      (i : ℕ) (w : Worker R) (ws : List (Worker R)) → worker_at i ws ≡ w → replace i w ws ≡ ws
  replace_same i w [] e = refl
  replace_same zero w (v ∷ ws) e = ap (λ x. x ∷ ws) (sym e)
  replace_same (suc i) w (v ∷ ws) e = ap (λ l. v ∷ l) (replace_same i w ws e)

module _ {R S : Type 0} (sink : ResultSink R S) (batcher : ℕ → List Request → Option (List R)) where
  run_workers-append :
      (ts us : List WorkerTurn) (p : Pool R S)
      → run_workers sink batcher (ts ++ us) p
        ≡ run_workers sink batcher us (run_workers sink batcher ts p)
  unfolding run_workers
  run_workers-append [] us p = refl
  run_workers-append (t ∷ ts) us p = run_workers-append ts us (turn sink batcher t p)

  -- The turns of a worker for one job after its batch, and for all jobs that wait
  abbrev pub put_all : ℕ → List R → List WorkerTurn
  put_all i [] = []
  put_all i (r ∷ rs) = put_result i ∷ put_all i rs

  abbrev pub shift : ℕ → ℕ → List Job → List WorkerTurn
  shift i moment [] = []
  shift i moment (job ∷ jobs) =
      take_job i moment ∷ (put_all i (outcome batcher moment job) ++ shift i (suc moment) jobs)

  abbrev pub outcomes : ℕ → List Job → List R
  outcomes moment [] = []
  outcomes moment (job ∷ jobs) = outcome batcher moment job ++ outcomes (suc moment) jobs

  pub deliver-append :
      (rs rs' : List R) (s : S) → deliver sink (rs ++ rs') s ≡ deliver sink rs' (deliver sink rs s)
  deliver-append [] rs' s = refl
  deliver-append (r ∷ rs) rs' s = deliver-append rs rs' (sink.enqueue r s).0

  run_workers-put_all :
      (i : ℕ) (rs : List R) (p : Pool R S)
      → is_here (worker_at i p.workers) ≡ true
      → run_workers sink batcher
          (put_all i rs)
          (record p { workers = replace i (goes_on rs) p.workers })
        ≡ record p { workers = replace i idle p.workers; results = deliver sink rs p.results }
  unfolding run_workers turn enqueue_next
  run_workers-put_all i [] p here = refl
  run_workers-put_all i (r ∷ rs) p here =
      let busy : Pool R S = record p { workers = replace i (at_work (r ∷ rs)) p.workers } in
      ap (λ w. run_workers sink batcher (put_all i rs) (enqueue_next sink batcher i w busy))
        (worker_at-replace i (at_work (r ∷ rs)) p.workers here)
      ∙ ap
          (λ ws.
            run_workers sink batcher (put_all i rs)
              (record p { workers = ws; results = (sink.enqueue r p.results).0 }))
          (replace_twice i (goes_on rs) (at_work (r ∷ rs)) p.workers)
      ∙ run_workers-put_all i rs (record p { results = (sink.enqueue r p.results).0 }) here

  -- A worker at the select, on its own, works off all jobs that wait, whatever the others are at:
  -- after its turns no job waits, and the sink has been given the results of every batch that did
  -- not fail, job by job, each once and in the order of the batch. Nothing else has changed.
  pub shift_delivers :
      (i moment : ℕ) (jobs : List Job) (p : Pool R S)
      → worker_at i p.workers ≡ idle
      → p.jobs ≡ jobs
      → run_workers sink batcher (shift i moment jobs) p
        ≡ record p { jobs = []; results = deliver sink (outcomes moment jobs) p.results }
  unfolding run_workers turn receive handle_job
  shift_delivers i moment [] p e jobs_of = ap (λ l. record p { jobs = l }) jobs_of
  shift_delivers i moment (job ∷ jobs) p e jobs_of =
      let rs = outcome batcher moment job in
      let q : Pool R S = record p { jobs = jobs } in
      let here : is_here (worker_at i p.workers) ≡ true = ap is_here e in
      let next : Pool R S = record q { results = deliver sink rs p.results } in
      ap
        (λ l.
          run_workers sink batcher (put_all i rs ++ shift i (suc moment) jobs)
            (receive sink batcher i moment (worker_at i p.workers) l p))
        jobs_of
      ∙ ap
          (λ w.
            run_workers sink batcher (put_all i rs ++ shift i (suc moment) jobs)
              (receive sink batcher i moment w (job ∷ jobs) p))
          e
      ∙ run_workers-append (put_all i rs) (shift i (suc moment) jobs)
          (record q { workers = replace i (goes_on rs) p.workers })
      ∙ ap (run_workers sink batcher (shift i (suc moment) jobs)) (run_workers-put_all i rs q here)
      ∙ ap
          (λ ws.
            run_workers sink batcher (shift i (suc moment) jobs) (record next { workers = ws }))
          (replace_same i idle p.workers e)
      ∙ shift_delivers i (suc moment) jobs next e refl
      ∙ ap (λ s. record p { jobs = []; results = s })
          (sym (deliver-append rs (outcomes (suc moment) jobs) p.results))
