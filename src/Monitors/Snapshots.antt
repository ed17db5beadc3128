-- ===== src/Monitors/Snapshots.antt =====
-- Which monitors there are after a snapshot.
use Prim.Native.String.{String}
use ping_santo.Prelude.{
  ℕ, ◌+◌, ◌*◌, ◌%◌, ◌^◌, ltb, ◌&&◌, not, ◌≡◌, inl, inr, refl, sym, ap, ◌∙◌, ◌||◌, Bool, true, false,
  Bool-cases, Option-cases, arith, if◌then◌else◌, List, [], ◌∷◌, Option, none, some,
}
use ping_santo.Prelude.Texts.{same, same_iff}
use ping_santo.Prelude.Maps.{find, insert, find-insert, find-remove}
use ping_santo.Scheduler.{MonitorSpec}
use ping_santo.Monitors.{
  MonitorAssignment, MonitorSnapshot, SpecMap, Applied, duration_or, assignment_to_spec,
  add_assignments, snapshot_to_spec_map, delete_counted, apply_assignments, apply_removals,
  apply_incremental_snapshot,
}

-- The id is one of those listed.
unfoldable pub names : String → List String → Bool
names id [] = false
names id (j ∷ ids) = same j id || names id ids

-- The duration of so many milliseconds: the number of nanoseconds as an int64 if it is positive, and
-- else the default
abbrev pub lasting : ℕ → ℕ → ℕ
lasting default millis =
    let d = millis * 1000000 % 2 ^ 64 in if ltb 0 d && ltb d (2 ^ 63) then d else default

-- What the assignment asks for: 3 seconds and 1 second are the defaults.
abbrev pub asked : MonitorAssignment → MonitorSpec
asked mon = record {
  monitor_id = mon.monitor_id;
  protocol = mon.protocol;
  targets = mon.targets;
  cadence = lasting 3000000000 mon.cadence_millis;
  timeout = lasting 1000000000 mon.timeout_millis;
  configuration = mon.configuration;
}

-- What the assignments make of a monitor: the last that names it decides, and one that is disabled
-- takes it away.
unfoldable pub decided : String → List MonitorAssignment → Option MonitorSpec → Option MonitorSpec
decided id [] o = o
decided id (mon ∷ mons) o =
    decided id mons
      (if same mon.monitor_id id then (if mon.disabled then none else some (asked mon)) else o)

-- The same of a full snapshot, where an assignment that is disabled or has no id is passed over.
unfoldable pub listed : String → List MonitorAssignment → Option MonitorSpec → Option MonitorSpec
listed id [] o = o
listed id (mon ∷ mons) o =
    let counts = same mon.monitor_id id && not (mon.disabled || same mon.monitor_id "") in
    listed id mons (if counts then some (asked mon) else o)

duration_or-lasting : (default millis : ℕ) → duration_or default millis ≡ lasting default millis
unfolding duration_or
duration_or-lasting default millis = ground arith

-- An assignment with an id
assigned :
    (mon : MonitorAssignment)
    → same mon.monitor_id "" ≡ false
    → assignment_to_spec mon ≡ (if mon.disabled then none else some (asked mon))
unfolding assignment_to_spec
assigned mon given = elim (Bool-cases mon.disabled) [
  | inl off ↦ rw off refl
  | inr on ↦
      rw
        (
          on,
          given,
          duration_or-lasting 3000000000 mon.cadence_millis,
          duration_or-lasting 1000000000 mon.timeout_millis,
        )
        refl
]

unassigned :
    (mon : MonitorAssignment) → same mon.monitor_id "" ≡ true → assignment_to_spec mon ≡ none
unfolding assignment_to_spec
unassigned mon blank = elim (Bool-cases mon.disabled) [
  | inl off ↦ rw off refl
  | inr on ↦ rw (on, blank) refl
]

find-delete_counted :
    (k id : String) (a : Applied)
    → find k (delete_counted id a).state ≡ (if same id k then none else find k a.state)
unfolding delete_counted
find-delete_counted k id a = elim (Option-cases (find id a.state)) [
  | inr (spec, e) ↦ rw (e, delete_counted) (find-remove k id a.state)
  | inl e ↦
      rw (e, delete_counted)
        (elim (Bool-cases (same id k)) [
          | inl s ↦ rw s (ap (λ j. find j a.state) (sym ((same_iff id k).0 s)) ∙ e)
          | inr d ↦ rw d refl
        ])
]

either_way :
    {A : Type 0} (a b : Bool) (o : Option A)
    → (if b then none else (if a then none else o)) ≡ (if a || b then none else o)
either_way true true o = refl
either_way true false o = refl
either_way false true o = refl
either_way false false o = refl

or_true : (b : Bool) → b || true ≡ true
or_true true = refl
or_true false = refl

module _ {A : Type 0} (x o : A) where
  off_or_blank : (a b c : Bool) → b || c ≡ true → o ≡ (if a && not (b || c) then x else o)
  off_or_blank true b c e = rw e refl
  off_or_blank false b c e = refl

  on_and_given : (a : Bool) → (if a then x else o) ≡ (if a && true then x else o)
  on_and_given true = refl
  on_and_given false = refl

find-add_assignments :
    (k : String) (mons : List MonitorAssignment) (state : SpecMap)
    → find k (add_assignments mons state) ≡ listed k mons (find k state)
unfolding add_assignments listed
find-add_assignments k [] state = refl
find-add_assignments k (mon ∷ mons) state = elim (Bool-cases (same mon.monitor_id "")) [
  | inl blank ↦
      rw (unassigned mon blank, add_assignments)
        (find-add_assignments k mons state
          ∙ ap (listed k mons) (
              off_or_blank (some (asked mon)) (find k state) (same mon.monitor_id k) mon.disabled
                (same mon.monitor_id "") (rw blank (or_true mon.disabled))))
  | inr given ↦ elim (Bool-cases mon.disabled) [
    | inl off ↦
        rw (assigned mon given, add_assignments, off)
          (find-add_assignments k mons state
            ∙ ap (listed k mons) (
                off_or_blank (some (asked mon)) (find k state) (same mon.monitor_id k) true
                  (same mon.monitor_id "") refl))
    | inr on ↦
        rw (assigned mon given, add_assignments, on, given)
          (find-add_assignments k mons (insert mon.monitor_id (asked mon) state)
            ∙ ap (listed k mons) (
                find-insert k mon.monitor_id (asked mon) state
                ∙ on_and_given (some (asked mon)) (find k state) (same mon.monitor_id k)))
  ]
]

module _ (k : String) (named : same k "" ≡ false) where
  not_named : (id : String) → same id "" ≡ true → same id k ≡ false
  not_named id e = ground (arith, same_iff id "", same_iff k "", same_iff id k)

  find-apply_assignments :
      (mons : List MonitorAssignment) (a : Applied)
      → find k (apply_assignments mons a).state ≡ decided k mons (find k a.state)
  unfolding apply_assignments decided
  find-apply_assignments [] a = refl
  find-apply_assignments (mon ∷ mons) a = elim (Bool-cases (same mon.monitor_id "")) [
    | inl blank ↦ rw (blank, not_named mon.monitor_id blank) (find-apply_assignments mons a)
    | inr given ↦
        rw (given, assigned mon given)
          (elim (Bool-cases mon.disabled) [
            | inl off ↦ rw off (
                find-apply_assignments mons (delete_counted mon.monitor_id a)
                ∙ ap (decided k mons) (find-delete_counted k mon.monitor_id a))
            | inr on ↦ rw on (
                find-apply_assignments mons (record a {
                  state = insert mon.monitor_id (asked mon) a.state;
                  upserts = a.upserts + 1;
                })
                ∙ ap (decided k mons) (find-insert k mon.monitor_id (asked mon) a.state))
          ])
  ]

  find-apply_removals :
      (ids : List String) (a : Applied)
      → find k (apply_removals ids a).state ≡ (if names k ids then none else find k a.state)
  unfolding apply_removals names
  find-apply_removals [] a = refl
  find-apply_removals (id ∷ ids) a = elim (Bool-cases (same id "")) [
    | inl blank ↦ rw (blank, not_named id blank) (find-apply_removals ids a)
    | inr given ↦ rw given (
        find-apply_removals ids (delete_counted id a)
        ∙ ap (λ o. if names k ids then none else o) (find-delete_counted k id a)
        ∙ either_way (same id k) (names k ids) (find k a.state))
  ]

  -- After an incremental snapshot a monitor is gone if the snapshot lists it as removed. Else the
  -- last assignment that names it decides: a disabled one takes it away, and another one sets what it
  -- asks for: its protocol, targets and configuration, its cadence or 3 seconds, and its timeout or 1
  -- second. A monitor that no assignment names is as it was. The id is not empty.
  pub find-apply_incremental_snapshot :
      (state : SpecMap) (snapshot : MonitorSnapshot)
      → find k (apply_incremental_snapshot state snapshot).state
        ≡ (if names k snapshot.removed then none else decided k snapshot.monitors (find k state))
  unfolding apply_incremental_snapshot
  find-apply_incremental_snapshot state snapshot =
      let a : Applied = record { state = state; upserts = 0; removed = 0 } in
      find-apply_removals snapshot.removed (apply_assignments snapshot.monitors a)
      ∙ ap (λ o. if names k snapshot.removed then none else o)
          (find-apply_assignments snapshot.monitors a)

-- After a full snapshot there are the monitors with an assignment that has an id and is not disabled,
-- each with what the last of these asks for, and no others. What it asks for is its protocol, targets
-- and configuration, its cadence or 3 seconds, and its timeout or 1 second.
pub find-snapshot_to_spec_map :
    (k : String) (snapshot : MonitorSnapshot)
    → find k (snapshot_to_spec_map snapshot) ≡ listed k snapshot.monitors none
unfolding snapshot_to_spec_map find
find-snapshot_to_spec_map k snapshot = find-add_assignments k snapshot.monitors []
