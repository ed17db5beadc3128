-- ===== src/Upgrade/Client/Exchange.antt =====
-- The client against the controller's handlers: what is published is what the agent fetches.
use Prim.Native.String.{String}
use ping_santo.Prelude.{
  ℕ, ◌≡◌, ◌≢◌, refl, ap, ◌∙◌, true, false, none, some, ◌⊎◌, if◌then◌else◌, arith,
}
use ping_santo.Prelude.Texts.{same, join, same_iff, same_refl}
use ping_santo.Prelude.Maps.{find}
use ping_santo.Plans.{
  UpgradePlan, PlanInput, MemoryStore, Texts, with_etag, fetch_upgrade_plan, plan_of, plan_key,
  channel_plan_key, channel_or_stable, normalize_channel, default_string,
}
use ping_santo.Plans.Lookup.{channel_name, given_channel, target, issued}
use ping_santo.Server.{Config, Formats, Request, plan_body, found, respond}
use ping_santo.Server.Access.{agent, extract_agent_id, authorize_admin}
use ping_santo.Server.Agents.{plan_handler, plan_for, answer_plan}
use ping_santo.Server.Admin.{PlanRequest, input_of, admin_upsert_plan_handler}
use ping_santo.Server.Memory.{found_plan, memory_plans, formats_of}
use ping_santo.Server.Flows.{published_plan_found, published_plan_answered, plan_served}
use ping_santo.Upgrade.Client.{
  Client, Connection, fetched, unmodified, fetch_plan, plan_request, read_answer, decode_plan,
  fetched_or_failed, result_plan, Plan,
}

-- The header of the client names the agent.
caller_lem :
    (f : Formats) (c : Client) (mode channel etag : String)
    → same (f.to_lower mode) "mtls" ≡ false
    → same (f.trim_space c.agent_id) "" ≡ false
    → extract_agent_id f (plan_request f.trim_space c channel etag) mode ≡ agent c.agent_id
unfolding extract_agent_id plan_request
caller_lem f c mode channel etag by_header named = rw (by_header, named) refl

-- What the handler answers for a plan with a tag that is sent back.
unmodified_lem :
    (plan : UpgradePlan) (etag : String)
    → etag ≢ ""
    → read_answer etag (some (answer_plan etag (found plan etag))) ≡ unmodified etag
unfolding read_answer answer_plan
unmodified_lem plan etag tagged =
    let sent : same etag "" ≡ false = ground (arith, same_iff etag "") in
    rw (sent, same_refl etag) refl

module _ (t : Texts) (cfg : Config) (now later : ℕ) (admin : Request) (c : Client)
    (channel : String) (req : PlanRequest) (m : MemoryStore) where
  -- The controller, with the store in memory
  abbrev pub controller : MemoryStore → Connection
  controller m' r = some (plan_handler (formats_of t) cfg (memory_plans t later) r m')

  -- The first request for a plan
  abbrev pub first : Request
  first = plan_request t.trim_space c channel ""

  -- What the administrator asks for, and the controller's plan of it
  abbrev pub wanted : PlanInput
  wanted = record {
    agent_id = req.agent_id;
    channel = req.channel;
    artifact = req.artifact;
    schedule = req.schedule;
    paused = req.paused;
    notes = req.notes;
  }

  abbrev pub published : UpgradePlan
  published = issued t now wanted

  -- The agent's plan with all that the administrator asked for
  abbrev pub received : Plan
  received = record {
    agent_id = target t wanted;
    generated_at = now;
    channel = given_channel t wanted;
    artifact = record {
      version = req.artifact.version;
      url = req.artifact.url;
      sha256 = req.artifact.sha256;
      signature_url = req.artifact.signature_url;
      force_apply = req.artifact.force_apply;
    };
    schedule = record { earliest = req.schedule.earliest; latest = req.schedule.latest };
    paused = req.paused;
    notes = req.notes;
  }

  -- The agent's channel: as it is configured, trimmed, and "stable" where it is blank
  abbrev pub own_channel : String
  own_channel = if same (t.trim_space channel) "" then "stable" else t.trim_space channel

  -- The plan names the agent, or it names none and is for the agent's channel, and the agent has no
  -- plan of its own.
  abbrev pub IsFor : Type 0
  IsFor =
      (target t wanted ≡ c.agent_id)
      ⊎ ((find c.agent_id m.plans ≡ none)
          × (target t wanted ≡ join "channel:" (channel_name t own_channel)))

  fetched_lem :
      (m' : MemoryStore)
      → plan_handler (formats_of t) cfg (memory_plans t later) first m'
        ≡ respond (t.etag published) (plan_body published)
      → fetch_plan t.trim_space c (controller m') channel "" ≡ fetched received (t.etag published)
  unfolding fetch_plan read_answer decode_plan fetched_or_failed result_plan
  fetched_lem m' e = ap (λ r. read_answer "" (some r)) e

  again_lem :
      (m' : MemoryStore)
      → same (t.to_lower cfg.agent_auth_mode) "mtls" ≡ false
      → same (t.trim_space c.agent_id) "" ≡ false
      → t.etag published ≢ ""
      → fetch_upgrade_plan t later c.agent_id first.channel m' ≡ with_etag t published
      → fetch_plan t.trim_space c (controller m') channel (t.etag published)
        ≡ unmodified (t.etag published)
  unfolding fetch_plan plan_request plan_handler plan_for
  again_lem m' by_header named tagged e =
      ap
        (λ a. read_answer (t.etag published) (
          some (
            plan_for (formats_of t) cfg (memory_plans t later)
              (plan_request t.trim_space c channel (t.etag published)) a m')))
        (caller_lem (formats_of t) c cfg.agent_auth_mode channel (t.etag published) by_header named)
      ∙ ap
          (λ p.
            read_answer (t.etag published) (some (answer_plan (t.etag published) (found_plan p))))
          e
      ∙ unmodified_lem published (t.etag published) tagged

  -- What an administrator publishes is what the agent's client fetches: a plan with all that the
  -- request asked for, and its ETag. When the client asks again with that ETag, the plan is not
  -- modified. The plan has a version; it names the agent, or it names none and is for the channel
  -- that the client asks for, and the agent has no plan of its own. Agents are told by their header,
  -- the agent's id is not blank, and the ETag is not empty.
  pub published_plan_fetched :
      authorize_admin (formats_of t) admin cfg.admin_bearer_token ≡ true
      → same (t.trim_space req.artifact.version) "" ≡ false
      → same (t.to_lower cfg.agent_auth_mode) "mtls" ≡ false
      → same (t.trim_space c.agent_id) "" ≡ false
      → t.etag published ≢ ""
      → IsFor
      → let m' =
          (admin_upsert_plan_handler
            (formats_of t)
            cfg
            (memory_plans t now)
            admin
            (some req)
            m).1 in
        (fetch_plan t.trim_space c (controller m') channel "" ≡ fetched received (t.etag published))
        × (fetch_plan t.trim_space c (controller m') channel (t.etag published)
            ≡ unmodified (t.etag published))
  unfolding plan_request input_of plan_of plan_key channel_plan_key channel_or_stable
      normalize_channel default_string
  published_plan_fetched allowed versioned by_header named tagged applies =
      let caller = caller_lem (formats_of t) c cfg.agent_auth_mode channel "" by_header named in
      let answered =
        published_plan_answered t cfg now later admin first req c.agent_id m allowed versioned
          applies in
      let (_, gets) =
        published_plan_found t cfg now later admin first req c.agent_id m versioned applies in
      rw answered (
        fetched_lem _ (plan_served t cfg now later admin first req c.agent_id m _ caller refl gets),
        again_lem _ by_header named tagged gets,
      )
