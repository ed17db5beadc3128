-- ===== src/Monitors/Loop.antt =====
-- The rounds of runMonitorSync, with the uplink that it fetches from, the health checker that it reports
-- to, and the scheduler that it keeps up to date.
pub mod Step
mod Tests
use Prim.Native.String.{String}
use ping_santo.Prelude.{ℕ, if◌then◌else◌, Bool, Option, none, some, List, [], ◌∷◌}
use ping_santo.Prelude.Texts.{same}
use ping_santo.Scheduler.{Scheduler, tick}
use ping_santo.Health.{Checker, observe_monitor_sync}
use ping_santo.Uplink.{Reply, MonitorAnswer, modified, not_modified, fetch_failed, fetch_monitors}
use ping_santo.Monitors.{MonitorSnapshot, SpecMap, sync_modified}

-- The variables of `runMonitorSync`, and the collaborators' states
pub record Sync : Type 0 where
  pub etag : String
  pub state : SpecMap
  pub sched : Scheduler
  pub health : Checker

-- `if result.ETag != "" { etag = result.ETag }`
unfoldable pub keep_etag : String → String → String
keep_etag old new = if same new "" then old else new

-- `syncOnce`, behind the fetch. One text stands for those of all errors.
unfoldable pub take_answer : ℕ → MonitorAnswer → Sync → Sync
unfolding sync_modified observe_monitor_sync keep_etag
take_answer now fetch_failed s = record s {
  health = observe_monitor_sync now (some "monitor sync failed") s.health;
}
take_answer now (not_modified etag) s = record s {
  etag = keep_etag s.etag etag;
  health = observe_monitor_sync now none s.health;
}
take_answer now (modified snapshot etag) s =
    let next = sync_modified now snapshot (s.state, s.sched) in
    record {
      etag = keep_etag s.etag etag;
      state = next.0;
      sched = next.1;
      health = observe_monitor_sync now none s.health;
    }

-- `syncOnce`, at the time `now`, with the reply to its request
unfoldable pub sync_once : ℕ → Option (Reply MonitorSnapshot) → Sync → Sync
unfolding take_answer fetch_monitors
sync_once now reply s = take_answer now (fetch_monitors s.etag reply) s

-- What happens while the agent runs: a round of the sync, or a tick of the scheduler, which share the
-- scheduler's mutex.
pub data Event : Type 0 where
  syncs : ℕ → Option (Reply MonitorSnapshot) → Event
  ticks : ℕ → (String → Bool) → Event

-- The loop of `runMonitorSync` beside that of the scheduler
unfoldable pub run_events : List Event → Sync → Sync
unfolding sync_once tick
run_events [] s = s
run_events (syncs now reply ∷ events) s = run_events events (sync_once now reply s)
run_events (ticks now takes ∷ events) s =
    run_events events (record s { sched = tick now takes s.sched })
