-- ===== src/Plans.antt =====
-- controller/internal/store/store.go: the controller's store of upgrade plans and reports, in memory.
-- Go's strings.TrimSpace and strings.ToLower, and the ETag (SHA-256 over JSON), are parameters. Times
-- are nanoseconds.
pub mod Lookup
pub mod History
mod Tests
use Prim.Native.String.{String}
use ping_santo.Prelude.{
  ℕ, ltb, leb, ◌&&◌, if◌then◌else◌, Bool, true, false, Option, none, some, List, [], ◌∷◌, ◌++◌,
  length, take,
}
use ping_santo.Prelude.Texts.{same, join}
use ping_santo.Prelude.Maps.{find, insert}

-- `Artifact`
pub record Artifact : Type 0 where
  pub version : String
  pub url : String
  pub sha256 : String
  pub signature_url : String
  pub force_apply : Bool

-- `Schedule`
pub record Schedule : Type 0 where
  pub earliest : Option ℕ
  pub latest : Option ℕ

-- `UpgradePlanResponse`
pub record UpgradePlan : Type 0 where
  pub agent_id : String
  pub generated_at : ℕ
  pub channel : String
  pub artifact : Artifact
  pub schedule : Schedule
  pub paused : Bool
  pub notes : String

-- `PlanInput`
pub record PlanInput : Type 0 where
  pub agent_id : String
  pub channel : String
  pub artifact : Artifact
  pub schedule : Schedule
  pub paused : Bool
  pub notes : String

-- `UpgradeReport`, without its details
pub record UpgradeReport : Type 0 where
  pub agent_id : String
  pub current_version : String
  pub previous_version : String
  pub channel : String
  pub status : String
  pub started_at : ℕ
  pub completed_at : ℕ
  pub message : String

-- `NotificationSettings`
pub record NotificationSettings : Type 0 where
  pub notify_on_publish : Bool
  pub updated_at : ℕ

-- `memoryStore`
pub record MemoryStore : Type 0 where
  pub plans : List (String × UpgradePlan)
  pub reports : List UpgradeReport
  pub notify_on_publish : Bool
  pub notify_updated_at : ℕ

-- `NewMemoryStore`
unfoldable pub new_memory_store : ℕ → MemoryStore
new_memory_store now = record {
  plans = [];
  reports = [];
  notify_on_publish = true;
  notify_updated_at = now;
}

-- `RecordUpgradeReport`
unfoldable pub record_upgrade_report : UpgradeReport → MemoryStore → MemoryStore
record_upgrade_report r m = record m { reports = m.reports ++ (r ∷ []) }

-- `GetNotificationSettings`
unfoldable pub get_notification_settings : MemoryStore → NotificationSettings
get_notification_settings m = record {
  notify_on_publish = m.notify_on_publish;
  updated_at = m.notify_updated_at;
}

-- `UpdateNotificationSettings`
unfoldable pub update_notification_settings :
    ℕ → Bool → MemoryStore → NotificationSettings × MemoryStore
update_notification_settings now notify m =
    let m' = record m { notify_on_publish = notify; notify_updated_at = now } in
    (record { notify_on_publish = notify; updated_at = now }, m')

-- The loop of `ListUpgradeHistory`
unfoldable pub reports_of : String → List UpgradeReport → List UpgradeReport
reports_of id [] = []
reports_of id (r ∷ rs) =
    let rest = reports_of id rs in if same r.agent_id id then r ∷ rest else rest

-- `sort.Slice` by the time of completion, the latest first. Reports of one time keep their order,
-- which Go leaves open.
unfoldable pub insert_report : UpgradeReport → List UpgradeReport → List UpgradeReport
insert_report r [] = r ∷ []
insert_report r (q ∷ qs) =
    let rest = insert_report r qs in
    if ltb r.completed_at q.completed_at then q ∷ rest else r ∷ q ∷ qs

unfoldable pub sort_reports : List UpgradeReport → List UpgradeReport
sort_reports [] = []
sort_reports (r ∷ rs) = insert_report r (sort_reports rs)

-- `ListUpgradeHistory`; a limit of 0 stands for every one that is not positive
unfoldable pub list_upgrade_history : String → ℕ → MemoryStore → List UpgradeReport
list_upgrade_history id limit m =
    let results = sort_reports (reports_of id m.reports) in
    if ltb 0 limit && ltb limit (length results) then take limit results else results

-- What the store asks of libraries.
pub record Texts : Type 0 where
  pub trim_space : String → String
  pub to_lower : String → String
  pub etag : UpgradePlan → String

module _ (t : Texts) where
  -- `defaultString`
  unfoldable pub default_string : String → String → String
  default_string v default = if same (t.trim_space v) "" then default else v

  -- `normalizeChannel`, and the default that its callers put for the empty text
  unfoldable pub normalize_channel : String → String
  normalize_channel channel = t.to_lower (t.trim_space channel)

  unfoldable pub channel_or_stable : String → String
  channel_or_stable channel =
      if same (normalize_channel channel) "" then "stable" else normalize_channel channel

  -- `channelPlanKey`
  unfoldable pub channel_plan_key : String → String
  channel_plan_key channel = join "channel:" (channel_or_stable channel)

  -- `defaultPlan`
  unfoldable pub default_plan : ℕ → String → String → UpgradePlan
  default_plan now id channel = record {
    agent_id = id;
    generated_at = now;
    channel = channel_or_stable channel;
    artifact = record {
      version = "1.0.0";
      url = "https://artifacts.example.com/pingsanto/agent/1.0.0/pingsanto-agent.tgz";
      sha256 = "deadbeef";
      signature_url = "https://artifacts.example.com/pingsanto/agent/1.0.0/pingsanto-agent.sig";
      force_apply = false;
    };
    schedule = record { earliest = none; latest = none };
    paused = false;
    notes = "scaffolding plan";
  }

  abbrev pub with_etag : UpgradePlan → UpgradePlan × String
  with_etag plan = (plan, t.etag plan)

  -- `FetchUpgradePlan`; the key of a channel is never empty
  unfoldable pub fetch_upgrade_plan : ℕ → String → String → MemoryStore → UpgradePlan × String
  fetch_upgrade_plan now id channel m = elim (find id m.plans) [
    | some plan ↦ with_etag plan
    | none ↦ elim (find (channel_plan_key channel) m.plans) [
      | some plan ↦ with_etag plan
      | none ↦ with_etag (default_plan now id channel)
    ]
  ]

  -- The key in `UpsertUpgradePlan`
  unfoldable pub plan_key : PlanInput → String
  plan_key input =
      if same (t.trim_space input.agent_id) ""
      then channel_plan_key (default_string input.channel "stable")
      else t.trim_space input.agent_id

  -- `plan` in `UpsertUpgradePlan`
  unfoldable pub plan_of : ℕ → PlanInput → UpgradePlan
  plan_of now input = record {
    agent_id = plan_key input;
    generated_at = now;
    channel = default_string input.channel "stable";
    artifact = input.artifact;
    schedule = input.schedule;
    paused = input.paused;
    notes = input.notes;
  }

  -- `UpsertUpgradePlan`; none is the error "version required"
  unfoldable pub upsert_upgrade_plan :
      ℕ → PlanInput → MemoryStore → Option (UpgradePlan × String) × MemoryStore
  upsert_upgrade_plan now input m =
      if same (t.trim_space input.artifact.version) "" then (none, m) else (
        some (with_etag (plan_of now input)),
        record m { plans = insert (plan_key input) (plan_of now input) m.plans },
      )
