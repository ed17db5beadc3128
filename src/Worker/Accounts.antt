-- ===== src/Worker/Accounts.antt =====
-- What becomes of the jobs and results of agent/internal/worker/pool.go, however its workers alternate.
use ping_santo.Prelude.{
  count, count-append, ℕ, zero, suc, ◌+◌, ◌≡◌, refl, sym, ap, ◌∙◌, Bool, true, false, Bool-cases,
  inl, inr, if◌then◌else◌, Option, List, [], ◌∷◌, ◌++◌, map, arith,
}
use ping_santo.Scheduler.{Job}
use ping_santo.Worker.{
  Request, ResultSink, Worker, idle, at_work, ended, WorkerTurn, submit, close, cancel, take_job,
  put_result, leave, Pool, worker_at, replace, replicate_idle, goes_on, handle_job, receive,
  enqueue_next, may_leave, return_from,
}
use ping_santo.Worker.Shifts.{is_here, outcome, deliver, deliver-append}

-- The jobs that are sent before the channel is closed, which it is at the start or not
abbrev pub sent : Bool → List WorkerTurn → List Job
sent closed [] = []
sent closed (submit job ∷ ts) = if closed then sent true ts else job ∷ sent false ts
sent closed (close ∷ ts) = sent true ts
sent closed (cancel ∷ ts) = sent closed ts
sent closed (take_job i moment ∷ ts) = sent closed ts
sent closed (put_result i ∷ ts) = sent closed ts
sent closed (leave i ∷ ts) = sent closed ts

-- The results that a worker has still to enqueue
abbrev pub held : {R : Type 0} → Worker R → List R
held idle = []
held (at_work rs) = rs
held ended = []

abbrev pub pending : {R : Type 0} → List (Worker R) → List R
pending [] = []
pending (w ∷ ws) = held w ++ pending ws

module _ {R : Type 0} (passes : R → Bool) where
  pending-replace :
      (i : ℕ) (w : Worker R) (ws : List (Worker R))
      → is_here (worker_at i ws) ≡ true
      → count passes (pending (replace i w ws)) + count passes (held (worker_at i ws))
        ≡ count passes (pending ws) + count passes (held w)
  pending-replace i w [] here = absurd (ground (arith, here))
  pending-replace zero w (v ∷ ws) here =
      omega (
        arith,
        count-append passes (held w) (pending ws),
        count-append passes (held v) (pending ws),
      )
  pending-replace (suc i) w (v ∷ ws) here = omega (
    arith,
    count-append passes (held v) (pending (replace i w ws)),
    count-append passes (held v) (pending ws),
    pending-replace i w ws here,
  )

  pub pending-replicate_idle : (n : ℕ) → count passes (pending (replicate_idle {R = R} n)) ≡ 0
  pending-replicate_idle zero = refl
  pending-replicate_idle (suc n) = pending-replicate_idle n

held-goes_on : {R : Type 0} (rs : List R) → held (goes_on rs) ≡ rs
held-goes_on [] = refl
held-goes_on (r ∷ rs) = refl

module _ {R S : Type 0} (sink : ResultSink R S) (batcher : ℕ → List Request → Option (List R)) where
  -- The results of the batches of the jobs that were taken, each at its moment
  abbrev pub given : List (ℕ × Job) → List R
  given [] = []
  given ((moment, job) ∷ taken) = outcome batcher moment job ++ given taken

  abbrev pub job_of : ℕ × Job → Job
  job_of (moment, job) = job

  -- The jobs of the channel were taken in their order, the rest wait, and the sink has had a list of
  -- results that makes up, with those that the workers still hold, the results of the jobs taken.
  abbrev pub Accounts : S → List Job → Pool R S → Type 0
  Accounts s jobs p =
      (taken : List (ℕ × Job)) × (done : List R) × (jobs ≡ map job_of taken ++ p.jobs)
      × (p.results ≡ deliver sink done s)
      × ((passes : R → Bool)
          → count passes done + count passes (pending p.workers) ≡ count passes (given taken))

  given-append :
      (passes : R → Bool) (taken : List (ℕ × Job)) (moment : ℕ) (job : Job)
      → count passes (given (taken ++ ((moment, job) ∷ [])))
        ≡ count passes (given taken) + count passes (outcome batcher moment job)
  given-append passes [] moment job =
      omega (arith, count-append passes (outcome batcher moment job) [])
  given-append passes ((m, j) ∷ taken) moment job = omega (
    arith,
    given-append passes taken moment job,
    count-append passes (outcome batcher m j) (given taken),
    count-append passes (outcome batcher m j) (given (taken ++ ((moment, job) ∷ []))),
  )

  took :
      (taken : List (ℕ × Job)) (moment : ℕ) (job : Job) (l : List Job)
      → map job_of taken ++ (job ∷ l) ≡ map job_of (taken ++ ((moment, job) ∷ [])) ++ l
  took [] moment job l = refl
  took ((m, j) ∷ taken) moment job l = ap (λ x. j ∷ x) (took taken moment job l)

  pub receive-Accounts :
      (s : S) (jobs : List Job) (i moment : ℕ) (w : Worker R) (l : List Job) (p : Pool R S)
      → worker_at i p.workers ≡ w
      → p.jobs ≡ l
      → Accounts s jobs p
      → Accounts s jobs (receive sink batcher i moment w l p)
        × ((receive sink batcher i moment w l p).closed ≡ p.closed)
  unfolding receive handle_job
  receive-Accounts s jobs i moment idle (job ∷ l) p e e' (taken, done, js, res, cnt) = (
    (
      taken ++ ((moment, job) ∷ []),
      done,
      js ∙ ap (λ x. map job_of taken ++ x) e' ∙ took taken moment job l,
      res,
      λ passes.
          let rs = outcome batcher moment job in
          let held_now = ap (λ x. count passes x) (held-goes_on rs) in
          let held_then = ap (λ v. count passes (held v)) e in
          omega (
            arith,
            cnt passes,
            given-append passes taken moment job,
            held_now,
            held_then,
            pending-replace passes i (goes_on rs) p.workers (ap is_here e),
          ),
    ),
    refl,
  )
  receive-Accounts s jobs i moment idle [] p e e' known = (known, refl)
  receive-Accounts s jobs i moment (at_work rs) l p e e' known = (known, refl)
  receive-Accounts s jobs i moment ended l p e e' known = (known, refl)

  pub enqueue_next-Accounts :
      (s : S) (jobs : List Job) (i : ℕ) (w : Worker R) (p : Pool R S)
      → worker_at i p.workers ≡ w
      → Accounts s jobs p
      → Accounts s jobs (enqueue_next sink batcher i w p)
        × ((enqueue_next sink batcher i w p).closed ≡ p.closed)
  unfolding enqueue_next
  enqueue_next-Accounts s jobs i (at_work (r ∷ rs)) p e (taken, done, js, res, cnt) = (
    (
      taken,
      done ++ (r ∷ []),
      js,
      ap (λ x. (sink.enqueue r x).0) res ∙ sym (deliver-append sink batcher done (r ∷ []) s),
      λ passes.
          let held_now = ap (λ x. count passes x) (held-goes_on rs) in
          let held_then = ap (λ v. count passes (held v)) e in
          omega (
            arith,
            cnt passes,
            held_now,
            held_then,
            count-append passes done (r ∷ []),
            pending-replace passes i (goes_on rs) p.workers (ap is_here e),
          ),
    ),
    refl,
  )
  enqueue_next-Accounts s jobs i (at_work []) p e known = (known, refl)
  enqueue_next-Accounts s jobs i idle p e known = (known, refl)
  enqueue_next-Accounts s jobs i ended p e known = (known, refl)

  pub return_from-Accounts :
      (s : S) (jobs : List Job) (i : ℕ) (w : Worker R) (p : Pool R S)
      → worker_at i p.workers ≡ w
      → Accounts s jobs p
      → Accounts s jobs (return_from sink batcher i w p)
        × ((return_from sink batcher i w p).closed ≡ p.closed)
  unfolding return_from
  return_from-Accounts s jobs i idle p e (taken, done, js, res, cnt) =
      elim (Bool-cases (may_leave sink batcher p.jobs p)) [
        | inr stays ↦ rw stays ((taken, done, js, res, cnt), refl)
        | inl leaves ↦ rw leaves (
          (
            taken,
            done,
            js,
            res,
            λ passes.
                let held_then = ap (λ v. count passes (held v)) e in
                omega (
                  arith,
                  cnt passes,
                  held_then,
                  pending-replace passes i ended p.workers (ap is_here e),
                ),
          ),
          refl,
        )
      ]
  return_from-Accounts s jobs i (at_work rs) p e known = (known, refl)
  return_from-Accounts s jobs i ended p e known = (known, refl)
