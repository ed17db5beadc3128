-- ===== src/Scheduler/Tests.antt =====
-- The scheduler at concrete inputs.
use Prim.Native.String.{String}
use ping_santo.Prelude.{ℕ, ◌≡◌, refl, true, false, [], ◌∷◌, none, arith}
use ping_santo.Prelude.Maps.{find}
use ping_santo.Scheduler.{
  MonitorSpec, Scheduler, update, skip, is_due, tick_entry, tick_entries, tick, job_of,
}
use ping_santo.Scheduler.Ticks.{tick_once}
use ping_santo.Scheduler.Updates.{newest, update-find, updates, ticks, after, updates_starve}

abbrev spec : String → ℕ → MonitorSpec
spec id cadence = record {
  monitor_id = id;
  protocol = "icmp";
  targets = "example.org" ∷ [];
  cadence = cadence;
  timeout = 1;
  configuration = "";
}

abbrev empty : Scheduler
empty = record { entries = []; sent = [] }

-- "a" was due at 10 and at 13, "b" is due at 20.
abbrev two : Scheduler
two = record {
  entries =
      ("a", record { spec = spec "a" 3; next = 10; paused = false })
      ∷ ("b", record { spec = spec "b" 5; next = 20; paused = false })
      ∷ [];
  sent = [];
}

ticked_at_14 : tick 14 (λ id. true) two ≡ record {
  entries =
      ("a", record { spec = spec "a" 3; next = 16; paused = false })
      ∷ ("b", record { spec = spec "b" 5; next = 20; paused = false })
      ∷ [];
  sent = job_of (record { spec = spec "a" 3; next = 10; paused = false }) ∷ [];
}
unfolding tick tick_entries tick_entry skip is_due
ticked_at_14 = refl

tick_once_example : tick 12 (λ id. true) (tick 14 (λ id. false) two) ≡ tick 14 (λ id. false) two
tick_once_example = tick_once 14 12 (λ id. false) (λ id. true) two (omega arith)

update_finds_last :
    (find "a" (update 7 (spec "a" 3 ∷ spec "b" 5 ∷ spec "a" 4 ∷ []) two).entries
      ≡ newest 7 "a" (spec "a" 3 ∷ spec "b" 5 ∷ spec "a" 4 ∷ []) none)
    × ((update 7 (spec "a" 3 ∷ spec "b" 5 ∷ spec "a" 4 ∷ []) two).sent ≡ [])
update_finds_last = update-find 7 "a" (spec "a" 3 ∷ spec "b" 5 ∷ spec "a" 4 ∷ []) two

-- Updates at 0, 4 and 8, a tick behind each, and no job of a monitor with a cadence of 5.
updates_starve_example :
    (after
      (ticks 4 (λ id. true)
        ∷ updates 4 (spec "a" 5 ∷ [])
        ∷ ticks 8 (λ id. true)
        ∷ updates 8 (spec "a" 5 ∷ [])
        ∷ ticks 12 (λ id. true)
        ∷ [])
      (update 0 (spec "a" 5 ∷ []) empty)).sent
    ≡ []
updates_starve_example =
    updates_starve 5 0 (spec "a" 5 ∷ [])
      (ticks 4 (λ id. true)
        ∷ updates 4 (spec "a" 5 ∷ [])
        ∷ ticks 8 (λ id. true)
        ∷ updates 8 (spec "a" 5 ∷ [])
        ∷ ticks 12 (λ id. true)
        ∷ [])
      empty (omega arith, tt)
      (omega arith, ((omega arith, tt), (omega arith, ((omega arith, tt), (omega arith, tt)))))
