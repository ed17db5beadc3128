-- ===== src/Upgrade/Client.antt =====
-- agent/internal/upgrade/client.go: what the agent asks the controller, and what it makes of the answer.
-- The connection is a function from requests to responses; the body of a response stands for what
-- its JSON decodes to.
pub mod Exchange
mod Tests
use Prim.Native.String.{String}
use ping_santo.Prelude.{ℕ, ◌==◌, ltb, leb, ◌||◌, if◌then◌else◌, Bool, true, Option, none, some}
use ping_santo.Prelude.Texts.{same}
use ping_santo.Plans.{UpgradeReport}
use ping_santo.Server.{Request, Response, Body, plan_body}

-- `PlanArtifact`, `PlanSchedule` and `Plan`
pub record PlanArtifact : Type 0 where
  pub version : String
  pub url : String
  pub sha256 : String
  pub signature_url : String
  pub force_apply : Bool

pub record PlanSchedule : Type 0 where
  pub earliest : Option ℕ
  pub latest : Option ℕ

pub record Plan : Type 0 where
  pub agent_id : String
  pub generated_at : ℕ
  pub channel : String
  pub artifact : PlanArtifact
  pub schedule : PlanSchedule
  pub paused : Bool
  pub notes : String

-- `planArtifact`, `planSchedule` and `planEnvelope`
pub record ArtifactEnvelope : Type 0 where
  pub version : String
  pub url : String
  pub sha256 : String
  pub signature_url : String
  pub force_apply : Bool

pub record ScheduleEnvelope : Type 0 where
  pub earliest : Option ℕ
  pub latest : Option ℕ

pub record PlanEnvelope : Type 0 where
  pub agent_id : String
  pub generated_at : ℕ
  pub channel : String
  pub artifact : ArtifactEnvelope
  pub schedule : ScheduleEnvelope
  pub paused : Bool
  pub notes : String

-- What `FetchPlan` returns: a plan with its ETag, the same ETag where it is not modified, or an error
-- by its text; `ErrPlanNotFound` is apart.
pub data PlanAnswer : Type 0 where
  fetched : Plan → String → PlanAnswer
  unmodified : String → PlanAnswer
  no_plan unauthorized failed : PlanAnswer

-- The connection to the controller: none is an error of the client, before or after it is sent.
abbrev pub Connection : Type 0
Connection = Request → Option Response

-- The decoding of `planEnvelope`: the tags of its fields are those of the controller's plan.
unfoldable pub decode_plan : Body → Option PlanEnvelope
decode_plan (plan_body plan) = some (record {
  agent_id = plan.agent_id;
  generated_at = plan.generated_at;
  channel = plan.channel;
  artifact = record {
    version = plan.artifact.version;
    url = plan.artifact.url;
    sha256 = plan.artifact.sha256;
    signature_url = plan.artifact.signature_url;
    force_apply = plan.artifact.force_apply;
  };
  schedule = record { earliest = plan.schedule.earliest; latest = plan.schedule.latest };
  paused = plan.paused;
  notes = plan.notes;
})
decode_plan _ = none

-- The plan that `FetchPlan` makes of the envelope
unfoldable pub result_plan : PlanEnvelope → Plan
result_plan envelope = record {
  agent_id = envelope.agent_id;
  generated_at = envelope.generated_at;
  channel = envelope.channel;
  artifact = record {
    version = envelope.artifact.version;
    url = envelope.artifact.url;
    sha256 = envelope.artifact.sha256;
    signature_url = envelope.artifact.signature_url;
    force_apply = envelope.artifact.force_apply;
  };
  schedule = record { earliest = envelope.schedule.earliest; latest = envelope.schedule.latest };
  paused = envelope.paused;
  notes = envelope.notes;
}

unfoldable pub fetched_or_failed : Option PlanEnvelope → String → PlanAnswer
unfolding result_plan
fetched_or_failed none etag = failed
fetched_or_failed (some envelope) etag = fetched (result_plan envelope) etag

-- The switch on the status in `FetchPlan`
unfoldable pub read_answer : String → Option Response → PlanAnswer
unfolding decode_plan fetched_or_failed
read_answer etag none = failed
read_answer etag (some response) =
    if response.status == 304
    then unmodified etag
    else if response.status == 200
    then fetched_or_failed (decode_plan response.body) response.etag
    else if response.status == 404
    then no_plan
    else if (response.status == 403) || (response.status == 401)
    then unauthorized
    else failed

-- What `NewClient` gives the client: the agent's id, and the request that its calls start from,
-- with the host of the base URL and the client's certificates.
pub record Client : Type 0 where
  pub agent_id : String
  pub base : Request

module _ (trim_space : String → String) where
  -- The request of `FetchPlan`; a header that is not set is the empty text.
  unfoldable pub plan_request : Client → String → String → Request
  plan_request c channel etag =
      let trimmed = trim_space channel in
      record c.base {
        agent_header = c.agent_id;
        if_none_match = etag;
        channel = if same trimmed "" then "stable" else trimmed;
      }

  -- `FetchPlan`
  unfoldable pub fetch_plan : Client → Connection → String → String → PlanAnswer
  unfolding plan_request read_answer
  fetch_plan c connection channel etag = read_answer etag (connection (plan_request c channel etag))

-- The request of `ReportUpgrade`, with the report that its body is
unfoldable pub report_request : Client → UpgradeReport → Request × UpgradeReport
report_request c report =
    (record c.base { agent_header = c.agent_id }, record report { agent_id = c.agent_id })

-- `ReportUpgrade`; `true` is an error
unfoldable pub report_upgrade : Client → (Request → UpgradeReport → Option ℕ) → UpgradeReport → Bool
unfolding report_request
report_upgrade c send report =
    let (request, payload) = report_request c report in
    elim (send request payload) [ none ↦ true | some status ↦ ltb status 200 || leb 300 status ]
