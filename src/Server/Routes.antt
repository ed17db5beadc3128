-- ===== src/Server/Routes.antt =====
-- The routes of New, and the defaults that it puts for an empty configuration.
use Prim.Native.String.{String}
use ping_santo.Prelude.{if◌then◌else◌, Bool, Option}
use ping_santo.Prelude.Texts.{same}
use ping_santo.Plans.{UpgradeReport}
use ping_santo.Server.{Config, Formats, Request, Response, no_body, PlanStore, ArtifactStore}
use ping_santo.Server.Agents.{plan_handler, report_handler}
use ping_santo.Server.Admin.{
  PlanRequest, admin_upsert_plan_handler, admin_history_handler,
  admin_get_notification_settings_handler, admin_update_notification_settings_handler,
}
use ping_santo.Server.Uploads.{Form, admin_upload_artifact_handler, artifact_download_handler}

-- The defaults in `New`
unfoldable pub with_defaults : Config → Config
with_defaults cfg = record {
  agent_auth_mode = if same cfg.agent_auth_mode "" then "header" else cfg.agent_auth_mode;
  admin_bearer_token = cfg.admin_bearer_token;
  public_base_url = cfg.public_base_url;
  artifact_path = if same cfg.artifact_path "" then "/artifacts" else cfg.artifact_path;
}

-- The routes, with the variables of the path and the decoded body.
pub data Call : Type 0 where
  get_plan : Call
  post_report : Option UpgradeReport → Call
  post_plan : Option PlanRequest → Call
  get_history : String → Call
  get_settings : Call
  post_settings : Option (Option Bool) → Call
  post_artifact : Option Form → Call
  get_artifact : String → Call
  get_health : Call

-- The routes below /api/admin
abbrev pub IsAdmin : Call → Type 0
IsAdmin (post_plan _) = Unit
IsAdmin (get_history _) = Unit
IsAdmin get_settings = Unit
IsAdmin (post_settings _) = Unit
IsAdmin (post_artifact _) = Unit
IsAdmin _ = ⊥

-- The collaborators' states
pub record State (S A : Type 0) : Type 0 where
  pub plans : S
  pub artifacts : A

module _ {S A : Type 0} (t : Formats) (cfg : Config) (plans : PlanStore S)
    (artifacts : ArtifactStore A) where
  abbrev keeping : State S A → Response → Response × State S A
  keeping s response = (response, s)

  abbrev in_plans : State S A → Response × S → Response × State S A
  in_plans s (response, p) = (response, record s { plans = p })

  abbrev in_artifacts : State S A → Response × A → Response × State S A
  in_artifacts s (response, a) = (response, record s { artifacts = a })

  -- The router of `New`: a request on one of the routes.
  unfoldable pub serve : Request → Call → State S A → Response × State S A
  unfolding plan_handler report_handler admin_upsert_plan_handler admin_history_handler
      admin_get_notification_settings_handler admin_update_notification_settings_handler
      admin_upload_artifact_handler artifact_download_handler
  serve r get_plan s = keeping s (plan_handler t cfg plans r s.plans)
  serve r (post_report body) s = in_plans s (report_handler t cfg plans r body s.plans)
  serve r (post_plan body) s = in_plans s (admin_upsert_plan_handler t cfg plans r body s.plans)
  serve r (get_history id) s = keeping s (admin_history_handler t cfg plans r id s.plans)
  serve r get_settings s = keeping s (admin_get_notification_settings_handler t cfg plans r s.plans)
  serve r (post_settings body) s =
      in_plans s (admin_update_notification_settings_handler t cfg plans r body s.plans)
  serve r (post_artifact form) s =
      in_artifacts s (admin_upload_artifact_handler t cfg artifacts r form s.artifacts)
  serve r (get_artifact name) s =
      keeping s (artifact_download_handler t cfg artifacts name s.artifacts)
  serve r get_health s = keeping s (record { status = 200; etag = ""; body = no_body })
