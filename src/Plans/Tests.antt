-- ===== src/Plans/Tests.antt =====
-- The store of plans at concrete inputs, with texts that need no trimming.
use Prim.Native.String.{String}
use ping_santo.Prelude.{
  ℕ, ◌≡◌, ◌⊎◌, refl, true, false, none, some, List, [], ◌∷◌, All, length, if◌then◌else◌,
}
use ping_santo.Prelude.Texts.{same}
use ping_santo.Prelude.Maps.{find, insert}
use ping_santo.Plans.{
  PlanInput, UpgradeReport, MemoryStore, Texts, channel_plan_key, channel_or_stable,
  normalize_channel, default_string, fetch_upgrade_plan, plan_key, plan_of, upsert_upgrade_plan,
  list_upgrade_history, reports_of, sort_reports, insert_report,
}
use ping_santo.Plans.Lookup.{target, issued, scaffold, tagged, planned, fetch-upsert}
use ping_santo.Plans.History.{IsOf, ShowsLatest, list_upgrade_history-IsLatestFirst}

abbrev plain : Texts
plain = record { trim_space = λ s. s; to_lower = λ s. s; etag = λ p. p.artifact.version }

abbrev input : PlanInput
input = record {
  agent_id = "";
  channel = "beta";
  artifact = record {
    version = "2.0";
    url = "";
    sha256 = "";
    signature_url = "";
    force_apply = false;
  };
  schedule = record { earliest = none; latest = none };
  paused = false;
  notes = "";
}

abbrev store : MemoryStore
store = record { plans = []; reports = []; notify_on_publish = true; notify_updated_at = 0 }

-- A plan for a channel reaches an agent of the channel.
reaches :
    (fetch_upgrade_plan plain 9 "agent" "beta" (upsert_upgrade_plan plain 5 input store).1).1
    ≡ "2.0"
unfolding fetch_upgrade_plan upsert_upgrade_plan plan_key plan_of channel_plan_key channel_or_stable
    normalize_channel default_string find insert
reaches = refl

fetch-upsert_example :
    let (answer, m') = upsert_upgrade_plan plain 5 input store in
    let plan = tagged plain (issued plain 5 input) in
    ((same "2.0" "" ≡ true) × (answer ≡ none) × (m' ≡ store))
    ⊎ ((answer ≡ some plan)
        × (fetch_upgrade_plan plain 9 "agent" "beta" m' ≡ (
            if same (target plain input) "agent"
            then plan
            else planned plain (find "agent" []) (
                if same (target plain input) "channel:beta"
                then plan
                else planned plain
                    (find "channel:beta" [])
                    (tagged plain (scaffold plain 9 "agent" "beta"))))))
fetch-upsert_example = fetch-upsert plain 5 9 input "agent" "beta" store

abbrev report : String → ℕ → UpgradeReport
report id at = record {
  agent_id = id;
  current_version = "2.0";
  previous_version = "1.0";
  channel = "beta";
  status = "success";
  started_at = 0;
  completed_at = at;
  message = "";
}

abbrev three : List UpgradeReport
three = report "a" 3 ∷ report "b" 9 ∷ report "a" 7 ∷ report "a" 5 ∷ []

shows :
    list_upgrade_history "a" 2 (record store { reports = three }) ≡ report "a" 7 ∷ report "a" 5 ∷ []
unfolding list_upgrade_history reports_of sort_reports insert_report
shows = refl

list_upgrade_history-IsLatestFirst_example :
    let shown = list_upgrade_history "a" 2 (record store { reports = three }) in
    ShowsLatest "a" three shown × All (IsOf "a") shown × (length shown ≡ 2)
list_upgrade_history-IsLatestFirst_example =
    list_upgrade_history-IsLatestFirst "a" 2 (record store { reports = three })
