-- ===== src/Server/Admin.antt =====
-- What administrators call about plans, histories and settings.
use Prim.Native.String.{String}
use ping_santo.Prelude.{ℕ, suc, if◌then◌else◌, Bool, Option, none, some, List}
use ping_santo.Prelude.Texts.{same, codes}
use ping_santo.Prelude.Decimals.{parse_int}
use ping_santo.Plans.{Artifact, Schedule, PlanInput, UpgradeReport, NotificationSettings}
use ping_santo.Server.{
  Config, Formats, Request, Response, plan_body, history_body, settings_body, Upserted, upserted,
  rejected, PlanStore, http_error, respond,
}
use ping_santo.Server.Access.{authorize_admin}

-- `req` in `adminUpsertPlanHandler`
pub record PlanRequest : Type 0 where
  pub agent_id : String
  pub channel : String
  pub artifact : Artifact
  pub schedule : Schedule
  pub paused : Bool
  pub notes : String

-- `input` in `adminUpsertPlanHandler`
unfoldable pub input_of : PlanRequest → PlanInput
input_of req = record {
  agent_id = req.agent_id;
  channel = req.channel;
  artifact = req.artifact;
  schedule = req.schedule;
  paused = req.paused;
  notes = req.notes;
}

unfoldable pub answer_upsert : {S : Type 0} → Upserted × S → Response × S
answer_upsert (upserted plan etag, s) = (respond etag (plan_body plan), s)
answer_upsert (rejected text, s) = (http_error 400 text, s)

-- `strconv.Atoi` and the test on its result
unfoldable pub positive_or_default : Option ℕ → ℕ
positive_or_default (some (suc n)) = suc n
positive_or_default _ = 50

-- `limit` in `adminHistoryHandler`
unfoldable pub limit_of : String → ℕ
unfolding positive_or_default parse_int
limit_of raw = if same raw "" then 50 else positive_or_default (parse_int (codes raw))

unfoldable pub answer_history : String → Option (List UpgradeReport) → Response
answer_history id none = http_error 500 "internal error"
answer_history id (some reports) = respond "" (history_body id reports)

unfoldable pub answer_settings : Option NotificationSettings → Response
answer_settings none = http_error 500 "internal error"
answer_settings (some settings) = respond "" (settings_body settings)

module _ {S : Type 0} (t : Formats) (cfg : Config) (store : PlanStore S) where
  unfoldable pub upsert_decoded : Option PlanRequest → S → Response × S
  unfolding answer_upsert input_of
  upsert_decoded none s = (http_error 400 "invalid json", s)
  upsert_decoded (some req) s = answer_upsert (store.upsert_plan (input_of req) s)

  -- `adminUpsertPlanHandler`
  unfoldable pub admin_upsert_plan_handler : Request → Option PlanRequest → S → Response × S
  unfolding upsert_decoded authorize_admin
  admin_upsert_plan_handler r body s =
      if authorize_admin t r cfg.admin_bearer_token
      then upsert_decoded body s
      else (http_error 401 "unauthorized", s)

  -- `adminHistoryHandler`, with the variable `agent_id` of the route
  unfoldable pub admin_history_handler : Request → String → S → Response
  unfolding answer_history limit_of authorize_admin
  admin_history_handler r id s =
      if authorize_admin t r cfg.admin_bearer_token
      then (if same id ""
          then http_error 400 "agent_id required"
          else answer_history id (store.list_history id (limit_of r.limit) s))
      else http_error 401 "unauthorized"

  -- `adminGetNotificationSettingsHandler`
  unfoldable pub admin_get_notification_settings_handler : Request → S → Response
  unfolding answer_settings authorize_admin
  admin_get_notification_settings_handler r s =
      if authorize_admin t r cfg.admin_bearer_token
      then answer_settings (store.get_settings s)
      else http_error 401 "unauthorized"

  -- The body of a request to change the settings: none where it does not decode, and then the field
  -- notify_on_publish, which may be missing.
  unfoldable pub update_decoded : Option (Option Bool) → S → Response × S
  unfolding answer_settings
  update_decoded none s = (http_error 400 "invalid json", s)
  update_decoded (some none) s = (http_error 400 "notify_on_publish is required", s)
  update_decoded (some (some notify)) s =
      let (answer, s') = store.update_settings notify s in (answer_settings answer, s')

  -- `adminUpdateNotificationSettingsHandler`
  unfoldable pub admin_update_notification_settings_handler :
      Request → Option (Option Bool) → S → Response × S
  unfolding update_decoded authorize_admin
  admin_update_notification_settings_handler r body s =
      if authorize_admin t r cfg.admin_bearer_token
      then update_decoded body s
      else (http_error 401 "unauthorized", s)
