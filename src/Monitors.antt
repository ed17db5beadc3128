-- ===== src/Monitors.antt =====
-- agent/cmd/agent/main.go, runMonitorSync: the monitors that the controller assigns, as full or
-- incremental snapshots, become the scheduler's specs.
pub mod Snapshots
pub mod Loop
mod Tests
use Prim.Native.String.{String}
use ping_santo.Prelude.{
  ℕ, ◌+◌, ◌*◌, ◌%◌, ◌^◌, ◌==◌, leb, ◌||◌, if◌then◌else◌, Bool, true, false, Option, none, some,
  List, [], ◌∷◌, length,
}
use ping_santo.Prelude.Texts.{same}
use ping_santo.Prelude.Maps.{find, insert, remove}
use ping_santo.Scheduler.{MonitorSpec, Scheduler, update}

-- `types.MonitorAssignment`; a number of milliseconds is 0 for every one that is not positive
pub record MonitorAssignment : Type 0 where
  pub monitor_id : String
  pub protocol : String
  pub targets : List String
  pub cadence_millis : ℕ
  pub timeout_millis : ℕ
  pub configuration : String
  pub disabled : Bool

-- `types.MonitorSnapshot`, as far as it is applied
pub record MonitorSnapshot : Type 0 where
  pub monitors : List MonitorAssignment
  pub incremental : Bool
  pub removed : List String

-- `map[string]scheduler.MonitorSpec`; a nil map is empty too
abbrev pub SpecMap : Type 0
SpecMap = List (String × MonitorSpec)

-- `time.Duration(millis) * time.Millisecond`, an int64 that wraps, or the default if not positive
unfoldable pub duration_or : ℕ → ℕ → ℕ
duration_or default millis =
    let d = millis * 1000000 % 2 ^ 64 in if d == 0 || leb (2 ^ 63) d then default else d

-- `monitorAssignmentToSpec`
unfoldable pub assignment_to_spec : MonitorAssignment → Option MonitorSpec
assignment_to_spec mon =
    if mon.disabled || same mon.monitor_id ""
    then none
    else some (record {
      monitor_id = mon.monitor_id;
      protocol = mon.protocol;
      targets = mon.targets;
      cadence = duration_or 3000000000 mon.cadence_millis;
      timeout = duration_or 1000000000 mon.timeout_millis;
      configuration = mon.configuration;
    })

-- The loop of `snapshotToSpecMap`
unfoldable pub add_assignments : List MonitorAssignment → SpecMap → SpecMap
add_assignments [] state = state
add_assignments (mon ∷ mons) state = elim (assignment_to_spec mon) [
  | none ↦ add_assignments mons state
  | some spec ↦ add_assignments mons (insert spec.monitor_id spec state)
]

-- `snapshotToSpecMap`
unfoldable pub snapshot_to_spec_map : MonitorSnapshot → SpecMap
snapshot_to_spec_map snapshot = add_assignments snapshot.monitors []

-- `specsFromState`, in the order in which the range meets the pairs
unfoldable pub specs_from_state : SpecMap → List MonitorSpec
specs_from_state [] = []
specs_from_state ((id, spec) ∷ state) = spec ∷ specs_from_state state

-- A map with the counters `upserts` and `removed`
pub record Applied : Type 0 where
  pub state : SpecMap
  pub upserts : ℕ
  pub removed : ℕ

-- `if _, exists := state[id]; exists { delete(state, id); removed++ }`
unfoldable pub delete_counted : String → Applied → Applied
delete_counted id a = elim (find id a.state) [
  | none ↦ a
  | some spec ↦ record a { state = remove id a.state; removed = a.removed + 1 }
]

-- The first loop of `applyIncrementalSnapshot`
unfoldable pub apply_assignments : List MonitorAssignment → Applied → Applied
apply_assignments [] a = a
apply_assignments (mon ∷ mons) a =
    if same mon.monitor_id "" then apply_assignments mons a else elim (assignment_to_spec mon) [
      | some spec ↦
          apply_assignments mons
            (record a { state = insert spec.monitor_id spec a.state; upserts = a.upserts + 1 })
      | none ↦ apply_assignments mons (delete_counted mon.monitor_id a)
    ]

-- The second loop of `applyIncrementalSnapshot`
unfoldable pub apply_removals : List String → Applied → Applied
apply_removals [] a = a
apply_removals (id ∷ ids) a =
    if same id "" then apply_removals ids a else apply_removals ids (delete_counted id a)

-- `applyIncrementalSnapshot`
unfoldable pub apply_incremental_snapshot : SpecMap → MonitorSnapshot → Applied
apply_incremental_snapshot state snapshot =
    apply_removals snapshot.removed
      (apply_assignments snapshot.monitors (record { state = state; upserts = 0; removed = 0 }))

-- `syncOnce`, behind a fetch that returned a new snapshot at the time `now`
unfoldable pub sync_modified : ℕ → MonitorSnapshot → SpecMap × Scheduler → SpecMap × Scheduler
sync_modified now snapshot (state, sched) =
    let next =
      if snapshot.incremental
      then (apply_incremental_snapshot state snapshot).state
      else snapshot_to_spec_map snapshot in
    (next, update now (specs_from_state next) sched)
