-- ===== src/Server/Tests.antt =====
-- Requests at the server, with texts that need no trimming, but for one token.
use Prim.Native.String.{String}
use ping_santo.Prelude.{
  ℕ, ◌≡◌, ◌≢◌, ◌↔◌, refl, ◌∙◌, true, false, if◌then◌else◌, none, some, List, [], ◌∷◌, arith,
}
use ping_santo.Prelude.Texts.{same, same_iff, join}
use ping_santo.Plans.{MemoryStore, UpgradePlan, UpgradeReport, Texts, plan_of}
use ping_santo.Artifacts.{Reader, SaveRequest}
use ping_santo.Artifacts.Names
use ping_santo.Artifacts.Memory
use ping_santo.Artifacts.Memory.{meta_of, signature_of}
use ping_santo.Server.{Config, Formats, Request, artifact_body, content_body, respond, http_error}
use ping_santo.Server.Access.{agent, extract_agent_id, authorize_admin}
use ping_santo.Server.Agents.{report_handler}
use ping_santo.Server.Admin.{PlanRequest, input_of, limit_of, admin_history_handler}
use ping_santo.Server.Uploads.{
  Form, no_signature, save_request, with_signature, artifact_download_handler,
  admin_upload_artifact_handler, build_artifact_url, signature_url,
}
use ping_santo.Server.Routes.{get_settings, State, serve}
use ping_santo.Server.Memory.{memory_plans, memory_artifacts}
use ping_santo.Server.Guards.{serve-IsUnauthorized, authorize_admin_iff}
use ping_santo.Server.Reports.{history_isolated}
use ping_santo.Server.Flows.{IsUpload, uploaded_meta, uploaded_artifact_served}

-- Only the token " t " has white space to trim.
abbrev pub trim : String → String
trim s = if same s " t " then "t" else s

abbrev pub texts : Texts
texts = record { trim_space = trim; to_lower = λ s. s; etag = λ p. p.artifact.version }

abbrev formats : Formats
formats = record { trim_space = trim; to_lower = λ s. s }

abbrev names : Names.Formats
names = record { trim_space = trim; to_lower = λ s. s; decimal = λ n. "7" }

abbrev digest : List ℕ → String
digest bytes = "digest"

abbrev pub cfg : Config
cfg = record {
  agent_auth_mode = "header";
  admin_bearer_token = "t";
  public_base_url = "";
  artifact_path = "/artifacts/";
}

abbrev pub request : Request
request = record {
  tls = none;
  host = "controller";
  agent_header = "a1";
  authorization = "Bearer t";
  if_none_match = "";
  channel = "";
  limit = "";
}

abbrev stranger : Request
stranger = record request { authorization = "Basic t" }

abbrev pub store : MemoryStore
store = record { plans = []; reports = []; notify_on_publish = true; notify_updated_at = 0 }

abbrev no_artifacts : Memory.MemoryStore
no_artifacts = record { files = []; metadata = [] }

abbrev state : State MemoryStore Memory.MemoryStore
state = record { plans = store; artifacts = no_artifacts }

-- The limits "20", "-5" and "many"
limits : limit_of "20" ∷ limit_of "-5" ∷ limit_of "many" ∷ [] ≡ 20 ∷ 50 ∷ 50 ∷ []
unfolding limit_of
limits = refl

-- Slashes at the ends are trimmed.
url : build_artifact_url formats cfg request "x.tgz" ≡ "http://controller/artifacts/x.tgz"
unfolding build_artifact_url
url = refl

serve-IsUnauthorized_example :
    serve formats cfg
      (memory_plans texts 5)
      (memory_artifacts names digest 1 2)
      stranger
      get_settings
      state
    ≡ (http_error 401 "unauthorized", state)
unfolding authorize_admin
serve-IsUnauthorized_example =
    serve-IsUnauthorized formats cfg (memory_plans texts 5) (memory_artifacts names digest 1 2)
      stranger get_settings state tt refl

authorize_admin_iff_example : (authorize_admin formats request "t" ≡ true) ↔ (
    (same (trim "t") "" ≡ false)
    × (value : String) × ("Bearer t" ≡ join "Bearer " value)
    × (trim value ≡ "t"))
authorize_admin_iff_example = authorize_admin_iff formats request "t"

abbrev pub wanted : PlanRequest
wanted = record {
  agent_id = "a1";
  channel = "beta";
  artifact = record {
    version = "2.0";
    url = "";
    sha256 = "";
    signature_url = "";
    force_apply = false;
  };
  schedule = record { earliest = none; latest = none };
  paused = false;
  notes = "";
}

abbrev plan : UpgradePlan
plan = plan_of texts 5 (input_of wanted)

abbrev report : UpgradeReport
report = record {
  agent_id = "a2";
  current_version = "2.0";
  previous_version = "1.0";
  channel = "stable";
  status = "applied";
  started_at = 1;
  completed_at = 2;
  message = "";
}

apart : (id : String) → extract_agent_id formats request "header" ≡ agent id → id ≢ "a2"
unfolding extract_agent_id
apart id e f =
    let own : ◌≡◌ {A = String} "a1" id = cc in
    let clash : ◌≡◌ {A = String} "a1" "a2" = own ∙ f in ground (arith, (same_iff "a1" "a2").1 clash)

other_history :
    admin_history_handler formats cfg
      (memory_plans texts 6)
      request
      "a2"
      (report_handler formats cfg (memory_plans texts 5) request (some report) store).1
    ≡ admin_history_handler formats cfg (memory_plans texts 6) request "a2" store
other_history = history_isolated texts cfg 5 request (some report) store "a2" 6 request apart

abbrev form : Form
form = record {
  file = some ("agent.tgz", record { bytes = 1 ∷ 2 ∷ []; broken = false });
  version = "2.0";
  signature = no_signature;
}

abbrev file : Reader
file = record { bytes = 1 ∷ 2 ∷ []; broken = false }

abbrev up : SaveRequest
up = save_request "2.0" "agent.tgz" file

form-IsUpload :
    IsUpload names formats digest cfg 1 2 9 request form "agent.tgz" file up no_artifacts
unfolding with_signature save_request
form-IsUpload = record {
  has_file = refl;
  has_version = refl;
  is_request = refl;
  whole = refl;
  whole_signature = refl;
}

names_differ :
    let meta =
      uploaded_meta names formats digest cfg 1 2 9 request form "agent.tgz" file up no_artifacts in
    meta.signature_name ≢ meta.artifact_name
unfolding meta_of signature_of save_request Names.artifact_name
names_differ e = ground (arith, (same_iff "" "2-7.tgz").1 e)

uploaded_artifact_served_example :
    let meta = meta_of names digest 1 2 up (1 ∷ 2 ∷ []) in
    let (answer, m') =
      admin_upload_artifact_handler formats cfg
        (memory_artifacts names digest 1 2)
        request
        (some form)
        no_artifacts in
    (answer
      ≡ respond "" (
          artifact_body meta.artifact_name
            (build_artifact_url formats cfg request meta.artifact_name)
            "digest"
            2
            (signature_url formats cfg request meta)))
    × (artifact_download_handler formats cfg
          (memory_artifacts names digest 1 9)
          meta.artifact_name
          m'
        ≡ respond "" (content_body meta.artifact_name (1 ∷ 2 ∷ [])))
unfolding authorize_admin
uploaded_artifact_served_example =
    uploaded_artifact_served names formats digest cfg 1 2 9 request form "agent.tgz" file up
      no_artifacts refl form-IsUpload names_differ
