-- ===== src/Monitors/Loop/Step.antt =====
-- The scheduler runs the monitors that the sync has.
use Prim.Native.String.{String}
use ping_santo.Prelude.{
  ℕ, ◌≡◌, refl, ap, ◌∙◌, inl, inr, Bool, true, false, Bool-cases, Option-cases, Option, none, some,
  List, [], ◌∷◌, All,
}
use ping_santo.Prelude.Texts.{same, same_iff}
use ping_santo.Prelude.Maps.{
  find, insert, Distinct, insert-Distinct, remove-Distinct, insert-All, remove-All,
}
use ping_santo.Scheduler.{
  MonitorSpec, Entry, Scheduler, update, tick, tick_entry, tick_entries, is_due,
}
use ping_santo.Scheduler.Updates.{newest, update-find}
use ping_santo.Uplink.{
  Reply, MonitorAnswer, modified, not_modified, fetch_failed, fetch_monitors, decoded,
}
use ping_santo.Health.{Checker}
use ping_santo.Monitors.{
  MonitorAssignment, MonitorSnapshot, SpecMap, Applied, assignment_to_spec, add_assignments,
  snapshot_to_spec_map, specs_from_state, delete_counted, apply_assignments, apply_removals,
  apply_incremental_snapshot, sync_modified,
}
use ping_santo.Monitors.Loop.{Sync, take_answer, sync_once, Event, syncs, ticks, run_events}

abbrev pub spec_of : Option Entry → Option MonitorSpec
spec_of none = none
spec_of (some e) = some e.spec

abbrev HasKey : String × MonitorSpec → Type 0
HasKey (id, spec) = spec.monitor_id ≡ id

-- Each monitor stands in the map once, under its id.
abbrev IsMap : SpecMap → Type 0
IsMap m = Distinct m × All HasKey m

insert-IsMap : (spec : MonitorSpec) (m : SpecMap) → IsMap m → IsMap (insert spec.monitor_id spec m)
insert-IsMap spec m (d, k) =
    (insert-Distinct spec.monitor_id spec m d, insert-All HasKey spec.monitor_id spec m refl k)

add_assignments-IsMap :
    (mons : List MonitorAssignment) (m : SpecMap) → IsMap m → IsMap (add_assignments mons m)
unfolding add_assignments
add_assignments-IsMap [] m h = h
add_assignments-IsMap (mon ∷ mons) m h = elim (Option-cases (assignment_to_spec mon)) [
  | inl e ↦ rw (e, add_assignments) (add_assignments-IsMap mons m h)
  | inr (spec, e) ↦
      rw (e, add_assignments)
        (add_assignments-IsMap mons (insert spec.monitor_id spec m) (insert-IsMap spec m h))
]

delete_counted-IsMap :
    (id : String) (a : Applied) → IsMap a.state → IsMap (delete_counted id a).state
unfolding delete_counted
delete_counted-IsMap id a h = elim (Option-cases (find id a.state)) [
  | inl e ↦ rw (e, delete_counted) h
  | inr (spec, e) ↦
      rw (e, delete_counted) (remove-Distinct id a.state h.0, remove-All HasKey id a.state h.1)
]

apply_assignments-IsMap :
    (mons : List MonitorAssignment) (a : Applied)
    → IsMap a.state
    → IsMap (apply_assignments mons a).state
unfolding apply_assignments
apply_assignments-IsMap [] a h = h
apply_assignments-IsMap (mon ∷ mons) a h = elim (Bool-cases (same mon.monitor_id "")) [
  | inl blank ↦ rw blank (apply_assignments-IsMap mons a h)
  | inr named ↦ elim (Option-cases (assignment_to_spec mon)) [
    | inl e ↦
        rw (named, e, apply_assignments)
          (apply_assignments-IsMap mons (delete_counted mon.monitor_id a)
            (delete_counted-IsMap mon.monitor_id a h))
    | inr (spec, e) ↦
        rw (named, e, apply_assignments)
          (apply_assignments-IsMap mons _ (insert-IsMap spec a.state h))
  ]
]

apply_removals-IsMap :
    (ids : List String) (a : Applied) → IsMap a.state → IsMap (apply_removals ids a).state
unfolding apply_removals
apply_removals-IsMap [] a h = h
apply_removals-IsMap (id ∷ ids) a h = elim (Bool-cases (same id "")) [
  | inl blank ↦ rw blank (apply_removals-IsMap ids a h)
  | inr named ↦
      rw named (apply_removals-IsMap ids (delete_counted id a) (delete_counted-IsMap id a h))
]

-- What is due next may change, the specs do not.
tick_entry-spec : (now : ℕ) (takes : Bool) (e : Entry) → (tick_entry now takes e).1.spec ≡ e.spec
unfolding tick_entry
tick_entry-spec now takes e = elim (Bool-cases (is_due now e)) [
  | inl due ↦ rw due refl
  | inr early ↦ rw early refl
]

tick_entries-spec :
    (now : ℕ) (takes : String → Bool) (id : String) (es : List (String × Entry))
    → spec_of (find id (tick_entries now takes es).1) ≡ spec_of (find id es)
unfolding tick_entries find
tick_entries-spec now takes id [] = refl
tick_entries-spec now takes id ((j, e) ∷ es) = elim (Bool-cases (same j id)) [
  | inl here ↦ rw here (ap some (tick_entry-spec now (takes j) e))
  | inr elsewhere ↦ rw elsewhere (tick_entries-spec now takes id es)
]

abbrev or_else : Option MonitorSpec → Option MonitorSpec → Option MonitorSpec
or_else none o = o
or_else (some s) o = some s

newest-specs :
    (now : ℕ) (id : String) (m : SpecMap) (o : Option Entry)
    → IsMap m
    → spec_of (newest now id (specs_from_state m) o) ≡ or_else (find id m) (spec_of o)
unfolding newest specs_from_state find
newest-specs now id [] o h = refl
newest-specs now id ((j, spec) ∷ m) o ((fresh, d), (key, keys)) = elim (Bool-cases (same j id)) [
  | inl here ↦
      let e : j ≡ id = (same_iff j id).0 here in
      let gone : find id m ≡ none = rw (← e) fresh in
      let own : same spec.monitor_id id ≡ true = rw key here in
      rw (here, own, newest) (newest-specs now id m _ (d, keys) ∙ rw gone refl)
  | inr elsewhere ↦
      let other : same spec.monitor_id id ≡ false = rw key elsewhere in
      rw (elsewhere, other, newest) (newest-specs now id m o (d, keys))
]

or_else-none : (o : Option MonitorSpec) → or_else o none ≡ o
or_else-none none = refl
or_else-none (some s) = refl

-- The map is one, and the scheduler has its monitors.
abbrev Tracks : SpecMap × Scheduler → Type 0
Tracks (m, sched) = IsMap m × ((id : String) → spec_of (find id sched.entries) ≡ find id m)

update-Tracks :
    (now : ℕ) (m : SpecMap) (sched : Scheduler)
    → IsMap m
    → Tracks (m, update now (specs_from_state m) sched)
update-Tracks now m sched h = (
  h,
  λ id.
      ap spec_of (update-find now id (specs_from_state m) sched).0
      ∙ newest-specs now id m none h
      ∙ or_else-none (find id m),
)

sync_modified-Tracks :
    (now : ℕ) (snapshot : MonitorSnapshot) (x : SpecMap × Scheduler)
    → Tracks x
    → Tracks (sync_modified now snapshot x)
unfolding sync_modified snapshot_to_spec_map apply_incremental_snapshot
sync_modified-Tracks now snapshot (m, sched) (h, _) = elim (Bool-cases snapshot.incremental) [
  | inl e ↦ rw e (
      update-Tracks now _ sched (
        apply_removals-IsMap snapshot.removed _ (
          apply_assignments-IsMap snapshot.monitors (record { state = m; upserts = 0; removed = 0 })
            h)))
  | inr e ↦ rw e (update-Tracks now _ sched (add_assignments-IsMap snapshot.monitors [] (tt, tt)))
]

abbrev SyncTracks : Sync → Type 0
SyncTracks s = Tracks (s.state, s.sched)

take_answer-Tracks :
    (now : ℕ) (answer : MonitorAnswer) (s : Sync)
    → SyncTracks s
    → SyncTracks (take_answer now answer s)
unfolding take_answer
take_answer-Tracks now fetch_failed s h = h
take_answer-Tracks now (not_modified etag) s h = h
take_answer-Tracks now (modified snapshot etag) s h =
    sync_modified-Tracks now snapshot (s.state, s.sched) h

run_events-Tracks :
    (events : List Event) (s : Sync) → SyncTracks s → SyncTracks (run_events events s)
unfolding run_events sync_once tick
run_events-Tracks [] s h = h
run_events-Tracks (syncs now reply ∷ events) s h =
    run_events-Tracks events _ (take_answer-Tracks now (fetch_monitors s.etag reply) s h)
run_events-Tracks (ticks now takes ∷ events) s h =
    run_events-Tracks events _ (h.0, λ id. tick_entries-spec now takes id s.sched.entries ∙ h.1 id)

-- The state at the start
abbrev pub started : Checker → Sync
started health = record {
  etag = "";
  state = [];
  sched = record { entries = []; sent = [] };
  health = health;
}

-- A reply with a full snapshot.
abbrev pub full_reply : String → MonitorSnapshot → Option (Reply MonitorSnapshot)
full_reply etag snapshot =
    some
      (record { status = 200; etag = etag; body = some (record snapshot { incremental = false }) })

-- At every moment of a run, whatever the service replied and however rounds and ticks alternated, the
-- scheduler has the monitors that the sync's map has, each with the map's spec, and no others. After a
-- next round with a full snapshot these are the snapshot's monitors, whatever was before.
pub run_events-InStep :
    (health : Checker) (events : List Event) (now : ℕ) (etag : String) (snapshot : MonitorSnapshot)
    → (id : String)
    → let s = run_events events (started health) in
      let s' = sync_once now (full_reply etag snapshot) s in
      (spec_of (find id s.sched.entries) ≡ find id s.state)
      × (spec_of (find id s'.sched.entries) ≡ find id (snapshot_to_spec_map snapshot))
unfolding sync_once take_answer fetch_monitors decoded sync_modified snapshot_to_spec_map
run_events-InStep health events now etag snapshot id =
    let s = run_events events (started health) in
    (
      (run_events-Tracks events (started health) ((tt, tt), λ i. unfold find in refl)).1 id,
      (update-Tracks now (add_assignments snapshot.monitors []) s.sched
            (add_assignments-IsMap snapshot.monitors [] (tt, tt))).1
          id,
    )
