-- ===== src/Plans/Lookup.antt =====
-- Which plan an agent gets.
use Prim.Native.String.{String}
use ping_santo.Prelude.{
  ℕ, ◌≡◌, ◌⊎◌, inl, inr, refl, ap, ◌∙◌, Bool, true, false, Bool-cases, Option-cases, if◌then◌else◌,
  Option, none, some,
}
use ping_santo.Prelude.Texts.{same, join}
use ping_santo.Prelude.Maps.{find, insert, find-insert}
use ping_santo.Plans.{
  UpgradePlan, PlanInput, MemoryStore, Texts, with_etag, channel_plan_key, default_plan,
  fetch_upgrade_plan, channel_or_stable, normalize_channel, default_string, plan_key, plan_of,
  upsert_upgrade_plan,
}

module _ (t : Texts) where
  -- The name that a channel goes by: trimmed, in lower case, and "stable" where that leaves nothing
  abbrev pub channel_name : String → String
  channel_name channel =
      let name = t.to_lower (t.trim_space channel) in if same name "" then "stable" else name

  -- The channel that a plan is given: as it was spelled, or "stable" where it is blank
  abbrev pub given_channel : PlanInput → String
  given_channel input = if same (t.trim_space input.channel) "" then "stable" else input.channel

  -- Whom a plan is for: the agent, or every agent of the channel where the agent's id is blank
  abbrev pub target : PlanInput → String
  target input =
      if same (t.trim_space input.agent_id) ""
      then join "channel:" (channel_name (given_channel input))
      else t.trim_space input.agent_id

  -- The plan with all that was asked for
  abbrev pub issued : ℕ → PlanInput → UpgradePlan
  issued now input = record {
    agent_id = target input;
    generated_at = now;
    channel = given_channel input;
    artifact = record {
      version = input.artifact.version;
      url = input.artifact.url;
      sha256 = input.artifact.sha256;
      signature_url = input.artifact.signature_url;
      force_apply = input.artifact.force_apply;
    };
    schedule = record { earliest = input.schedule.earliest; latest = input.schedule.latest };
    paused = input.paused;
    notes = input.notes;
  }

  -- The plan that an agent gets where none was stored, of version 1.0.0
  abbrev pub scaffold : ℕ → String → String → UpgradePlan
  scaffold now id channel = record {
    agent_id = id;
    generated_at = now;
    channel = channel_name channel;
    artifact = record {
      version = "1.0.0";
      url = "https://artifacts.example.com/pingsanto/agent/1.0.0/pingsanto-agent.tgz";
      sha256 = "deadbeef";
      signature_url = "https://artifacts.example.com/pingsanto/agent/1.0.0/pingsanto-agent.sig";
      force_apply = false;
    };
    schedule = record { earliest = none; latest = none };
    paused = false;
    notes = "scaffolding plan";
  }

  -- A plan with its own ETag
  abbrev pub tagged : UpgradePlan → UpgradePlan × String
  tagged plan = (plan, t.etag plan)

  -- The plan of an agent or a channel, where there is one, and else another.
  abbrev pub planned : Option UpgradePlan → UpgradePlan × String → UpgradePlan × String
  planned none other = other
  planned (some plan) other = tagged plan

  fetch-planned :
      (now : ℕ) (id channel : String) (m : MemoryStore)
      → fetch_upgrade_plan t now id channel m
        ≡ planned (find id m.plans) (
            planned
              (find (channel_plan_key t channel) m.plans)
              (with_etag t (default_plan t now id channel)))
  unfolding fetch_upgrade_plan
  fetch-planned now id channel m = elim (Option-cases (find id m.plans)) [
    | inr (p, e) ↦ rw (e, fetch_upgrade_plan) refl
    | inl e ↦ elim (Option-cases (find (channel_plan_key t channel) m.plans)) [
      | inr (p, f) ↦ rw (e, f, fetch_upgrade_plan) refl
      | inl f ↦ rw (e, f, fetch_upgrade_plan) refl
    ]
  ]

  choose :
      (b : Bool) (p : UpgradePlan) (o : Option UpgradePlan) (other : UpgradePlan × String)
      → planned (if b then some p else o) other ≡ (if b then with_etag t p else planned o other)
  choose true p o other = refl
  choose false p o other = refl

  upsert-planned :
      (now later : ℕ) (input : PlanInput) (id channel : String) (m : MemoryStore)
      → let (answer, m') = upsert_upgrade_plan t now input m in
        let plan = plan_of t now input in
        let key = plan_key t input in
        ((same (t.trim_space input.artifact.version) "" ≡ true) × (answer ≡ none) × (m' ≡ m))
        ⊎ ((answer ≡ some (with_etag t plan))
            × (fetch_upgrade_plan t later id channel m' ≡ (
                if same key id
                then with_etag t plan
                else planned (find id m.plans) (
                    if same key (channel_plan_key t channel)
                    then with_etag t plan
                    else planned
                        (find (channel_plan_key t channel) m.plans)
                        (with_etag t (default_plan t later id channel))))))
  unfolding upsert_upgrade_plan
  upsert-planned now later input id channel m =
      let plan = plan_of t now input in
      let key = plan_key t input in
      let ck = channel_plan_key t channel in
      let other = with_etag t (default_plan t later id channel) in
      let stored =
        ap (λ o. planned o (planned (find ck (insert key plan m.plans)) other))
          (find-insert id key plan m.plans)
        ∙ choose (same key id) plan (find id m.plans)
            (planned (find ck (insert key plan m.plans)) other)
        ∙ ap (λ x. if same key id then with_etag t plan else planned (find id m.plans) x)
            (ap (λ o. planned o other) (find-insert ck key plan m.plans)
              ∙ choose (same key ck) plan (find ck m.plans) other) in
      elim (Bool-cases (same (t.trim_space input.artifact.version) "")) [
        | inl blank ↦ rw blank (inl (refl, refl, refl))
        | inr given ↦ rw given (
            inr (
              refl,
              fetch-planned later id channel (record m { plans = insert key plan m.plans })
                  ∙ stored,
            ))
      ]

  -- After a plan was stored, an agent gets that plan if it is for the agent: if the plan names the
  -- agent. Else it gets the agent's own plan, if there is one; else the stored one, if it names no
  -- agent and is for the agent's channel; and else what it got before: the channel's plan, or a
  -- default of version 1.0.0. The stored plan has all that was asked for. Each plan comes with its
  -- own ETag, and what Upsert returned is what is stored. A plan without a version is refused, and
  -- the store stays. A channel is named in lower case and without white space around it, and is
  -- "stable" where it is blank; the plan of a channel is kept like that of an agent whose id is
  -- "channel:" and the channel's name.
  pub fetch-upsert :
      (now later : ℕ) (input : PlanInput) (id channel : String) (m : MemoryStore)
      → let (answer, m') = upsert_upgrade_plan t now input m in
        let plan = tagged (issued now input) in
        let default = tagged (scaffold later id channel) in
        let channel_key = join "channel:" (channel_name channel) in
        ((same (t.trim_space input.artifact.version) "" ≡ true) × (answer ≡ none) × (m' ≡ m))
        ⊎ ((answer ≡ some plan)
            × (fetch_upgrade_plan t later id channel m' ≡ (
                if same (target input) id
                then plan
                else planned (find id m.plans) (
                    if same (target input) channel_key
                    then plan
                    else planned (find channel_key m.plans) default))))
  unfolding plan_of plan_key channel_plan_key channel_or_stable normalize_channel default_string
      default_plan
  fetch-upsert = upsert-planned
