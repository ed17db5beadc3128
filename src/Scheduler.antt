-- ===== src/Scheduler.antt =====
-- agent/internal/scheduler/scheduler.go: which monitors get a job at a tick. Times and durations are
-- nanoseconds; a cadence of 0 stands for every one that is not positive.
pub mod Grid
pub mod Ticks
pub mod Updates
mod Tests
use Prim.Native.String.{String}
use ping_santo.Prelude.Maps.{insert}
use ping_santo.Prelude.{
  ℕ, zero, suc, ◌+◌, ◌-◌, ◌==◌, ltb, if◌then◌else◌, Bool, true, false, List, [], ◌∷◌, ◌++◌, ◌&&◌,
  not,
}

-- `MonitorSpec`
pub record MonitorSpec : Type 0 where
  pub monitor_id : String
  pub protocol : String
  pub targets : List String
  pub cadence : ℕ
  pub timeout : ℕ
  pub configuration : String

-- `worker.Job`
pub record Job : Type 0 where
  pub monitor_id : String
  pub protocol : String
  pub targets : List String
  pub cadence : ℕ
  pub timeout : ℕ
  pub scheduled_for : ℕ
  pub configuration : String

-- `entry`
pub record Entry : Type 0 where
  pub spec : MonitorSpec
  pub next : ℕ
  pub paused : Bool

-- `Scheduler`: `entries` is a map, as the list of its pairs in the order in which a range over it
-- meets them, and `sent` is what the job channel has taken, oldest first.
pub record Scheduler : Type 0 where
  pub entries : List (String × Entry)
  pub sent : List Job

-- `if interval <= 0 { interval = 3 * time.Second }`
abbrev pub interval_of : MonitorSpec → ℕ
interval_of spec = if spec.cadence == 0 then 3000000000 else spec.cadence

-- The loop of `Update`
unfoldable pub add_specs : ℕ → List MonitorSpec → List (String × Entry) → List (String × Entry)
add_specs now [] es = es
add_specs now (spec ∷ specs) es = add_specs now specs (
    insert spec.monitor_id (record { spec = spec; next = now + interval_of spec; paused = false })
      es)

-- `Update`
unfoldable pub update : ℕ → List MonitorSpec → Scheduler → Scheduler
update now specs s = record s { entries = add_specs now specs [] }

-- `for !now.Before(e.next) { e.next = e.next.Add(interval) }`, on fuel
unfoldable pub skip : ℕ → ℕ → ℕ → ℕ → ℕ
skip zero now interval next = next
skip (suc fuel) now interval next =
    let rest = skip fuel now interval (next + interval) in if ltb now next then next else rest

-- Each round adds at least 1, so that as many rounds as this are enough.
abbrev pub fuel_of : ℕ → ℕ → ℕ
fuel_of now next = suc now - next

abbrev pub job_of : Entry → Job
job_of e = record {
  monitor_id = e.spec.monitor_id;
  protocol = e.spec.protocol;
  targets = e.spec.targets;
  cadence = e.spec.cadence;
  timeout = e.spec.timeout;
  scheduled_for = e.next;
  configuration = e.spec.configuration;
}

-- `!e.paused` and `!now.Before(e.next)`
unfoldable pub is_due : ℕ → Entry → Bool
is_due now e = not e.paused && not (ltb now e.next)

-- One round of the loop of `tick`; `takes` tells whether the channel has room for the job.
unfoldable pub tick_entry : ℕ → Bool → Entry → List Job × Entry
tick_entry now takes e =
    if is_due now e
    then (
      if takes then job_of e ∷ [] else [],
      record e { next = skip (fuel_of now e.next) now (interval_of e.spec) e.next },
    )
    else ([], e)

-- The loop of `tick`
unfoldable pub tick_entries :
    ℕ → (String → Bool) → List (String × Entry) → List Job × List (String × Entry)
tick_entries now takes [] = ([], [])
tick_entries now takes ((id, e) ∷ es) =
    let (jobs, e') = tick_entry now (takes id) e in
    let (more, es') = tick_entries now takes es in (jobs ++ more, (id, e') ∷ es')

-- `tick`
unfoldable pub tick : ℕ → (String → Bool) → Scheduler → Scheduler
tick now takes s =
    let (jobs, es) = tick_entries now takes s.entries in
    record { entries = es; sent = s.sent ++ jobs }
