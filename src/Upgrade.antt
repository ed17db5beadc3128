-- ===== src/Upgrade.antt =====
-- agent/internal/upgrade/manager.go: how the agent polls for an upgrade plan and applies it. Every
-- dependency is configured, as agent/cmd/agent/main.go does; what they answer during a poll is input.
pub mod Applier
pub mod Client
pub mod Installer
pub mod Outcomes
pub mod Window
mod Tests
use Prim.Native.String.{String}
use ping_santo.Prelude.{
  ℕ, ltb, ◌&&◌, ◌||◌, not, ◌⊎◌, inl, inr, if◌then◌else◌, Bool, true, false, Option, none, some,
  List, [], ◌∷◌, ◌++◌,
}
use ping_santo.Prelude.Texts.{same}

-- `Plan`, as far as the manager reads it
pub record Plan : Type 0 where
  pub agent_id : String
  pub channel : String
  pub version : String
  pub force_apply : Bool
  pub earliest : Option ℕ
  pub paused : Bool

-- `config.State`: what it says of upgrades, and of the stored plan only the ETag
pub record AppliedState : Type 0 where
  pub version : String
  pub path : String
  pub applied_at : ℕ
  pub last_attempt : ℕ
  pub last_error : String

pub record State : Type 0 where
  pub agent_id : String
  pub channel : String
  pub paused : Bool
  pub plan_etag : String
  pub applied : AppliedState

-- What `FetchPlan` answers.
pub data Fetch : Type 0 where
  no_plan not_modified : Fetch
  fetch_failed : String → Fetch
  fetched : Plan → String → Fetch

-- `ApplyResult`
pub record ApplyResult : Type 0 where
  pub bundle_path : String
  pub binary_path : String
  pub applied_at : ℕ

-- One poll: the time, the server as a function of the channel and the ETag, whether the state file can
-- be loaded and written at each point, and what the applier, the installer and the restarter answer.
pub record Env : Type 0 where
  pub now : ℕ
  pub fetch : String → String → Fetch
  pub reload_fails : Bool
  pub load_fails : Bool
  pub save_plan_fails : Bool
  pub save_fails : Bool
  pub save_rollback_fails : Bool
  pub apply : String ⊎ ApplyResult
  pub install : String → String ⊎ String
  pub restart : String → Option String

-- `Report`, as far as it varies
pub record Report : Type 0 where
  pub current_version : String
  pub previous_version : String
  pub failure : Option String

-- `Manager`, with the state file, the reports that were sent, and the paths that were rolled back
pub record Manager : Type 0 where
  pub channel : String
  pub paused : Bool
  pub plan_etag : String
  pub file : State
  pub reports : List Report
  pub rollbacks : List String

-- `reload`
unfoldable pub reload : Env → Manager → Manager
reload env m = if env.reload_fails then m else record m {
  channel = if same m.file.channel "" then "stable" else m.file.channel;
  paused = m.file.paused;
  plan_etag = m.file.plan_etag;
}

-- `UpdateState`
abbrev pub save : Bool → State → Manager → Manager
save fails st m = if fails then m else record m { file = st }

-- `report`
abbrev pub send_report : Report → Manager → Manager
send_report r m = record m { reports = m.reports ++ (r ∷ []) }

abbrev pub is_early : ℕ → Option ℕ → Bool
is_early now none = false
is_early now (some earliest) = ltb now earliest

-- The early returns of `applyPlan`
unfoldable pub skips : ℕ → Plan → State → Bool → Bool
skips now plan st locally_paused =
    same plan.version ""
    || ((locally_paused && not plan.force_apply)
        || ((plan.paused && not plan.force_apply)
            || (is_early now plan.earliest
                || (same plan.version st.applied.version && not plan.force_apply))))

-- `applyPlan`, where Apply or Install failed
unfoldable pub fail_apply : Env → Plan → State → String → Manager → Option String × Manager
fail_apply env plan st e m =
    let st' = record st {
      applied = record st.applied { last_attempt = env.now; last_error = e };
    } in
    (
      some e,
      send_report
          (record {
            current_version = plan.version;
            previous_version = st.applied.version;
            failure = some e;
          })
          (save env.save_fails st' m),
    )

-- The state behind an installation
unfoldable pub installed : Env → Plan → State → ApplyResult → String → State
installed env plan st r target = record st {
  applied = record {
    version = plan.version;
    path = target;
    applied_at = r.applied_at;
    last_attempt = env.now;
    last_error = "";
  };
}

-- `applyPlan`, behind the restart
unfoldable pub finish :
    Env → Plan → State → State → String → Option String → Manager → Option String × Manager
finish env plan st st' target none m = (none, m)
finish env plan st st' target (some e) m =
    let back = record st' {
      applied = record st'.applied { last_error = e; version = st.applied.version };
    } in
    (
      some e,
      send_report
          (record {
            current_version = plan.version;
            previous_version = st.applied.version;
            failure = some e;
          })
          (save env.save_rollback_fails back
            (record m { rollbacks = m.rollbacks ++ (target ∷ []) })),
    )

-- `applyPlan`, behind Install
unfoldable pub complete :
    Env → Plan → State → ApplyResult → String → Manager → Option String × Manager
complete env plan st r target m =
    let st' = installed env plan st r target in
    let m' =
      send_report
        (record {
          current_version = plan.version;
          previous_version = st.applied.version;
          failure = none;
        })
        (save env.save_fails st' m) in
    finish env plan st st' target (if same target "" then none else env.restart target) m'

-- `applyPlan`, with the answer of Install
unfoldable pub install_or_fail :
    Env → Plan → State → ApplyResult → String ⊎ String → Manager → Option String × Manager
install_or_fail env plan st r (inl e) m = fail_apply env plan st e m
install_or_fail env plan st r (inr target) m =
    complete env plan st r (if same target "" then r.binary_path else target) m

-- `applyPlan`, with the answer of Apply
unfoldable pub attempt :
    Env → Plan → State → String ⊎ ApplyResult → Manager → Option String × Manager
attempt env plan st (inl e) m = fail_apply env plan st e m
attempt env plan st (inr r) m = install_or_fail env plan st r (env.install r.binary_path) m

-- `applyPlan`
unfoldable pub apply_plan : Env → Plan → State → Bool → Manager → Option String × Manager
apply_plan env plan st locally_paused m =
    let st' = if same st.agent_id "" then record st { agent_id = plan.agent_id } else st in
    if skips env.now plan st locally_paused then (none, m) else attempt env plan st' env.apply m

-- `poll`, behind a fetch that returned a plan, with `persistPlan`. The text of an error of the state
-- file is not modelled: "state" stands for it.
unfoldable pub take_plan : Env → Plan → String → Manager → Option String × Manager
take_plan env plan etag m =
    let st = record m.file { plan_etag = etag } in
    if env.load_fails || env.save_plan_fails
    then (some "state", m)
    else apply_plan env plan st m.paused (record m { file = st; plan_etag = etag })

-- `poll`
unfoldable pub poll : Env → Manager → Option String × Manager
poll env m = elim (env.fetch m.channel m.plan_etag) [
  | no_plan ↦ (none, m)
  | not_modified ↦ (none, m)
  | fetch_failed e ↦ (some e, m)
  | fetched plan etag ↦ take_plan env plan etag m
]

-- `Run`, for as many polls as are given
unfoldable pub polls : List Env → Manager → Manager
polls [] m = m
polls (env ∷ envs) m = polls envs (poll env (reload env m)).1
