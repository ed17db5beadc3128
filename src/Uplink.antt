-- ===== src/Uplink.antt =====
-- agent/internal/uplink/client.go: what the agent sends to the central service, and the monitors that it
-- fetches. Marshalling and the requests are libraries: a request comes to a reply or to none.
use Prim.Native.String.{String}
use ping_santo.Prelude.{
  ℕ, ◌+◌, ◌%◌, ◌^◌, ◌==◌, ltb, leb, ◌||◌, if◌then◌else◌, Bool, true, false, Option, none, some,
  List, [], ◌∷◌,
}
use ping_santo.Prelude.Texts.{same, join, after_prefix, trim_right}
use ping_santo.Monitors.{MonitorSnapshot}

-- `Client`, with what its operations change: `seq` is the atomic uint64.
pub record Client : Type 0 where
  pub agent_id : String
  pub labels : List (String × String)
  pub results_url : String
  pub heartbeat_url : String
  pub monitor_url : String
  pub seq : ℕ

-- `types.ResultEnvelope`
pub record Envelope (R : Type 0) : Type 0 where
  pub agent_id : String
  pub sent_at : ℕ
  pub batch_seq : ℕ
  pub labels : List (String × String)
  pub results : List R

-- A reply: its status, its ETag header, and what its body decodes to, if it does.
pub record Reply (B : Type 0) : Type 0 where
  pub status : ℕ
  pub etag : String
  pub body : Option B

abbrev is_slash : ℕ → Bool
is_slash c = c == 47

-- `joinURL`
unfoldable pub join_url : String → String → String
unfolding trim_right after_prefix
join_url base path =
    if same base ""
    then path
    else join (trim_right is_slash base)
        (elim (after_prefix "/" path) [ none ↦ join "/" path | some _ ↦ path ])

abbrev default_path : String → String → String
default_path path default = if same path "" then default else path

-- `NewClient`, with an HTTP client; none is an error. An empty path stands for its default.
unfoldable pub new_client :
    String → String → List (String × String) → String → String → String → Option Client
unfolding join_url
new_client server agent_id labels results heartbeat monitors =
    if same server "" || same agent_id ""
    then none
    else some (record {
      agent_id = agent_id;
      labels = labels;
      results_url = join_url server (default_path results "/api/agent/v1/results");
      heartbeat_url = join_url server (default_path heartbeat "/api/agent/v1/heartbeat");
      monitor_url = join_url server (default_path monitors "/api/agent/v1/monitors");
      seq = 0;
    })

-- The test on the status of a reply
abbrev pub is_error : {B : Type 0} → Option (Reply B) → Bool
is_error none = true
is_error (some r) = ltb r.status 200 || leb 300 r.status

-- `Send`: the envelope that is posted, if there is one, whether it fails, and the client.
unfoldable pub send :
    {R B : Type 0}
    → ℕ
    → (Envelope R → Option (Reply B))
    → List R
    → Client
    → Option (Envelope R) × Bool × Client
send now post [] c = (none, false, c)
send now post (r ∷ rs) c =
    let seq = (c.seq + 1) % 2 ^ 64 in
    let envelope : Envelope _ = record {
      agent_id = c.agent_id;
      sent_at = now;
      batch_seq = seq;
      labels = c.labels;
      results = r ∷ rs;
    } in
    (some envelope, is_error (post envelope), record c { seq = seq })

-- `MonitorSnapshotResult`, or an error
pub data MonitorAnswer : Type 0 where
  modified : MonitorSnapshot → String → MonitorAnswer
  not_modified : String → MonitorAnswer
  fetch_failed : MonitorAnswer

unfoldable pub decoded : String → Option MonitorSnapshot → MonitorAnswer
decoded etag none = fetch_failed
decoded etag (some snapshot) = modified snapshot etag

-- `FetchMonitors`, with the ETag that is sent, and the reply; a body that breaks off is none.
unfoldable pub fetch_monitors : String → Option (Reply MonitorSnapshot) → MonitorAnswer
unfolding decoded
fetch_monitors etag none = fetch_failed
fetch_monitors etag (some r) =
    if r.status == 304
    then not_modified etag
    else if ltb r.status 200 || leb 300 r.status
    then fetch_failed
    else decoded r.etag r.body
