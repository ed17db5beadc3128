-- ===== src/Server/Memory.antt =====
-- The stores in memory, as the server's collaborators: the defaults in New.
use Prim.Native.String.{String}
use ping_santo.Prelude.{ℕ, false, Option, none, some, List}
use ping_santo.Plans.{
  UpgradePlan, MemoryStore, Texts, fetch_upgrade_plan, upsert_upgrade_plan, record_upgrade_report,
  list_upgrade_history, get_notification_settings, update_notification_settings,
}
use ping_santo.Artifacts.Names
use ping_santo.Artifacts.Memory
use ping_santo.Server.{
  Formats, Fetched, found, Upserted, upserted, rejected, PlanStore, ArtifactStore,
}

abbrev pub found_plan : UpgradePlan × String → Fetched
found_plan (plan, etag) = found plan etag

abbrev pub upserted_or : Option (UpgradePlan × String) × MemoryStore → Upserted × MemoryStore
upserted_or (none, m) = (rejected "version required", m)
upserted_or (some (plan, etag), m) = (upserted plan etag, m)

-- The handlers trim and lower texts as the store does.
abbrev pub formats_of : Texts → Formats
formats_of t = record { trim_space = t.trim_space; to_lower = t.to_lower }

-- `store.NewMemoryStore()`, with the reading of the clock that each operation takes
abbrev pub memory_plans : Texts → ℕ → PlanStore MemoryStore
memory_plans t now = record {
  fetch_plan = λ id channel m. found_plan (fetch_upgrade_plan t now id channel m);
  record_report = λ report m. (false, record_upgrade_report report m);
  upsert_plan = λ input m. upserted_or (upsert_upgrade_plan t now input m);
  list_history = λ id limit m. some (list_upgrade_history id limit m);
  get_settings = λ m. some (get_notification_settings m);
  update_settings = λ notify m.
      let (settings, m') = update_notification_settings now notify m in (some settings, m');
}

-- `artifacts.NewMemoryStore()`
abbrev pub memory_artifacts :
    Names.Formats → (List ℕ → String) → ℕ → ℕ → ArtifactStore Memory.MemoryStore
memory_artifacts t sha256 stamp now = record {
  save = Memory.save t sha256 stamp now;
  open_artifact = Memory.open_artifact now;
}
