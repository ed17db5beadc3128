-- ===== src/Server/Agents.antt =====
-- What the agents call: planHandler and reportHandler.
use Prim.Native.String.{String}
use ping_santo.Prelude.{if◌then◌else◌, ◌&&◌, not, Bool, true, false, Option, none, some}
use ping_santo.Prelude.Texts.{same}
use ping_santo.Plans.{UpgradeReport}
use ping_santo.Server.{
  Config, Formats, Request, Response, no_body, plan_body, Fetched, found, not_found, failed,
  PlanStore, http_error, respond,
}
use ping_santo.Server.Access.{Caller, agent, unknown, extract_agent_id}

-- What `planHandler` writes when the plan is fetched, by the header If-None-Match.
unfoldable pub answer_plan : String → Fetched → Response
answer_plan match_ not_found = http_error 404 "plan not found"
answer_plan match_ failed = http_error 500 "internal error"
answer_plan match_ (found plan etag) =
    if not (same match_ "") && same match_ etag
    then record { status = 304; etag = ""; body = no_body }
    else respond etag (plan_body plan)

-- What `reportHandler` writes when the store has the report.
unfoldable pub answer_report : {S : Type 0} → Bool × S → Response × S
answer_report (true, s) = (http_error 500 "unable to record report", s)
answer_report (false, s) = (record { status = 204; etag = ""; body = no_body }, s)

module _ {S : Type 0} (t : Formats) (cfg : Config) (store : PlanStore S) where
  -- `planHandler`, for the caller
  unfoldable pub plan_for : Request → Caller → S → Response
  unfolding answer_plan
  plan_for r (unknown text) s = http_error 401 text
  plan_for r (agent id) s = answer_plan r.if_none_match (store.fetch_plan id r.channel s)

  -- `planHandler`
  unfoldable pub plan_handler : Request → S → Response
  unfolding plan_for extract_agent_id
  plan_handler r s = plan_for r (extract_agent_id t r cfg.agent_auth_mode) s

  -- `reportHandler`, for the caller; the report is none where the body does not decode
  unfoldable pub report_for : Caller → Option UpgradeReport → S → Response × S
  unfolding answer_report
  report_for (unknown text) body s = (http_error 401 text, s)
  report_for (agent id) none s = (http_error 400 "invalid json", s)
  report_for (agent id) (some req) s =
      answer_report (store.record_report (record req { agent_id = id }) s)

  -- `reportHandler`
  unfoldable pub report_handler : Request → Option UpgradeReport → S → Response × S
  unfolding report_for extract_agent_id
  report_handler r body s = report_for (extract_agent_id t r cfg.agent_auth_mode) body s
