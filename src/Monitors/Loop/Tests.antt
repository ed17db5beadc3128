-- ===== src/Monitors/Loop/Tests.antt =====
-- A run of the sync: a full snapshot, a failure, a tick, and an incremental snapshot.
use Prim.Native.String.{String}
use ping_santo.Prelude.{ℕ, ◌≡◌, refl, Bool, true, false, Option, none, some, List, [], ◌∷◌}
use ping_santo.Prelude.Maps.{find}
use ping_santo.Health.{Checker}
use ping_santo.Uplink.{Reply, Client, send, join_url}
use ping_santo.Monitors.{MonitorAssignment, MonitorSnapshot, snapshot_to_spec_map}
use ping_santo.Monitors.Loop.{Event, syncs, ticks, run_events, sync_once}
use ping_santo.Monitors.Loop.Step.{spec_of, started, full_reply, run_events-InStep}

abbrev mon : String → Bool → MonitorAssignment
mon id disabled = record {
  monitor_id = id;
  protocol = "icmp";
  targets = [];
  cadence_millis = 1000;
  timeout_millis = 5;
  configuration = "";
  disabled = disabled;
}

abbrev reply : ℕ → Bool → List MonitorAssignment → List String → Option (Reply MonitorSnapshot)
reply status incremental monitors removed = some (record {
  status = status;
  etag = "e";
  body = some (record { monitors = monitors; incremental = incremental; removed = removed });
})

abbrev health : Checker
health = record {
  queue_capacity = 10;
  stale_after = 100;
  last_monitor_success = none;
  monitor_err = "";
  last_monitor_error = none;
  cert_expiry = none;
}

abbrev events : List Event
events =
    syncs 1 (reply 200 false (mon "a" false ∷ mon "b" false ∷ []) [])
    ∷ syncs 2 (reply 500 false [] [])
    ∷ ticks 1000000005 (λ id. true)
    ∷ syncs 3 (reply 200 true (mon "c" false ∷ []) ("a" ∷ []))
    ∷ []

abbrev again : MonitorSnapshot
again = record { monitors = mon "b" true ∷ mon "d" false ∷ []; incremental = true; removed = [] }

run_events-InStep_example :
    let s = run_events events (started health) in
    let s' = sync_once 4 (full_reply "f" again) s in
    (spec_of (find "b" s.sched.entries) ≡ find "b" s.state)
    × (spec_of (find "b" s'.sched.entries) ≡ find "b" (snapshot_to_spec_map again))
run_events-InStep_example = run_events-InStep health events 4 "f" again "b"

abbrev client : Client
client = record {
  agent_id = "a1";
  labels = [];
  results_url = "";
  heartbeat_url = "";
  monitor_url = "";
  seq = 7;
}

-- The number of an envelope is used up, whatever comes of it.
sent_run :
    (send {R = ℕ} {B = ℕ} 5
      (λ envelope. some (record { status = 503; etag = ""; body = none }))
      (1 ∷ 2 ∷ [])
      client).2
    ≡ record client { seq = 8 }
unfolding send
sent_run = refl

urls : join_url "https://host/" "api" ≡ "https://host/api"
unfolding join_url
urls = refl
