-- ===== src/Server.antt =====
-- controller/internal/server/server.go: the controller's HTTP handlers.
-- The router and the JSON and form decoders are libraries: a request comes with its decoded parts.
-- A handler gives the response and the state that it leaves; log lines are left out.
pub mod Access
pub mod Agents
pub mod Admin
pub mod Uploads
pub mod Routes
pub mod Guards
pub mod Memory
pub mod Reports
pub mod Flows
pub mod Tests
use Prim.Native.String.{String}
use ping_santo.Prelude.{ℕ, Bool, Option, List}
use ping_santo.Plans.{UpgradePlan, PlanInput, UpgradeReport, NotificationSettings}
use ping_santo.Artifacts.{SaveRequest, Saved, Opened}

-- `Config`, without the server's address and timeouts
pub record Config : Type 0 where
  pub agent_auth_mode : String
  pub admin_bearer_token : String
  pub public_base_url : String
  pub artifact_path : String

-- What the handlers ask of the packages strings and strconv.
pub record Formats : Type 0 where
  pub trim_space : String → String
  pub to_lower : String → String

-- What the handlers read of an `http.Request`. A header or a query parameter that is missing is the
-- empty text. `tls` has the common names of the peer's certificates on a TLS connection.
pub record Request : Type 0 where
  pub tls : Option (List String)
  pub host : String
  pub agent_header : String
  pub authorization : String
  pub if_none_match : String
  pub channel : String
  pub limit : String

-- The body of a response. Messages are told apart by their text alone.
pub data Body : Type 0 where
  no_body : Body
  message : String → Body
  plan_body : UpgradePlan → Body
  history_body : String → List UpgradeReport → Body
  settings_body : NotificationSettings → Body
  artifact_body : String → String → String → ℕ → Option String → Body
  content_body : String → List ℕ → Body

-- A response: its status, its ETag header, which is empty where there is none, and its body.
pub record Response : Type 0 where
  pub status : ℕ
  pub etag : String
  pub body : Body

-- What `FetchUpgradePlan` returns: `ErrPlanNotFound` is apart from every other error.
pub data Fetched : Type 0 where
  found : UpgradePlan → String → Fetched
  not_found failed : Fetched

-- What `UpsertUpgradePlan` returns: the text of an error is sent to the caller.
pub data Upserted : Type 0 where
  upserted : UpgradePlan → String → Upserted
  rejected : String → Upserted

-- `store.Store`, on a state `S`. An operation that fails gives none, or true.
pub record PlanStore (S : Type 0) : Type 0 where
  pub fetch_plan : String → String → S → Fetched
  pub record_report : UpgradeReport → S → Bool × S
  pub upsert_plan : PlanInput → S → Upserted × S
  pub list_history : String → ℕ → S → Option (List UpgradeReport)
  pub get_settings : S → Option NotificationSettings
  pub update_settings : Bool → S → Option NotificationSettings × S

-- `artifacts.Store`, on a state `A`.
pub record ArtifactStore (A : Type 0) : Type 0 where
  pub save : SaveRequest → A → Saved × A
  pub open_artifact : String → A → Opened

-- `http.Error`
abbrev pub http_error : ℕ → String → Response
http_error code text = record { status = code; etag = ""; body = message text }

-- A response that is written with status 200.
abbrev pub respond : String → Body → Response
respond etag body = record { status = 200; etag = etag; body = body }
