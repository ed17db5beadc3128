-- ===== src/Monitors/Tests.antt =====
-- Snapshots at concrete inputs.
use Prim.Native.String.{String}
use ping_santo.Prelude.{◌≡◌, refl, Bool, true, false, [], ◌∷◌, none, if◌then◌else◌}
use ping_santo.Prelude.Maps.{find, insert, remove}
use ping_santo.Scheduler.{MonitorSpec}
use ping_santo.Monitors.{
  MonitorAssignment, MonitorSnapshot, SpecMap, assignment_to_spec, duration_or,
  snapshot_to_spec_map, apply_incremental_snapshot, apply_assignments, apply_removals,
  delete_counted,
}
use ping_santo.Monitors.Snapshots.{
  names, decided, listed, find-apply_incremental_snapshot, find-snapshot_to_spec_map,
}

abbrev mon : String → Bool → MonitorAssignment
mon id disabled = record {
  monitor_id = id;
  protocol = "icmp";
  targets = [];
  cadence_millis = 0;
  timeout_millis = 5;
  configuration = "";
  disabled = disabled;
}

abbrev spec : String → MonitorSpec
spec id = record {
  monitor_id = id;
  protocol = "icmp";
  targets = [];
  cadence = 3000000000;
  timeout = 5000000;
  configuration = "";
}

abbrev known : SpecMap
known = ("a", spec "a") ∷ ("b", spec "b") ∷ ("c", spec "c") ∷ []

-- "a" is disabled, "b" removed, "d" new.
abbrev change : MonitorSnapshot
change = record {
  monitors = mon "a" true ∷ mon "d" false ∷ [];
  incremental = true;
  removed = "b" ∷ "e" ∷ [];
}

changed :
    apply_incremental_snapshot known change
    ≡ record { state = ("c", spec "c") ∷ ("d", spec "d") ∷ []; upserts = 1; removed = 2 }
unfolding apply_incremental_snapshot apply_assignments apply_removals delete_counted
    assignment_to_spec duration_or find insert remove
changed = refl

find-apply_incremental_snapshot_example :
    find "a" (apply_incremental_snapshot known change).state ≡ (
      if names "a" ("b" ∷ "e" ∷ [])
      then none
      else decided "a" (mon "a" true ∷ mon "d" false ∷ []) (find "a" known))
find-apply_incremental_snapshot_example = find-apply_incremental_snapshot "a" refl known change

find-snapshot_to_spec_map_example :
    find "d" (snapshot_to_spec_map change) ≡ listed "d" (mon "a" true ∷ mon "d" false ∷ []) none
find-snapshot_to_spec_map_example = find-snapshot_to_spec_map "d" change
