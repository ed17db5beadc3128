-- ===== src/Upgrade/Tests.antt =====
-- Polls at concrete inputs.
use Prim.Native.String.{String}
use ping_santo.Prelude.{ℕ, ◌≡◌, inr, refl, false, Option, none, some, [], ◌∷◌, arith, if◌then◌else◌}
use ping_santo.Prelude.Texts.{same}
use ping_santo.Upgrade.{
  Plan, State, Env, Manager, fetched, not_modified, skips, apply_plan, attempt, install_or_fail,
  complete, finish, installed, poll, take_plan, polls, reload,
}
use ping_santo.Upgrade.Window.{early_plan_is_lost}

abbrev plan : Plan
plan = record {
  agent_id = "agent";
  channel = "stable";
  version = "2.0";
  force_apply = false;
  earliest = some 100;
  paused = false;
}

-- A poll at a time, with a restart that succeeds or fails.
abbrev env : ℕ → Option String → Env
env now broken = record {
  now = now;
  fetch = λ channel tag. if same tag "tag" then not_modified else fetched plan "tag";
  reload_fails = false;
  load_fails = false;
  save_plan_fails = false;
  save_fails = false;
  save_rollback_fails = false;
  apply = inr (record { bundle_path = "bundle"; binary_path = "binary"; applied_at = now });
  install = λ path. inr "target";
  restart = λ path. broken;
}

abbrev state : State
state = record {
  agent_id = "agent";
  channel = "";
  paused = false;
  plan_etag = "";
  applied = record {
    version = "1.0";
    path = "";
    applied_at = 0;
    last_attempt = 0;
    last_error = "";
  };
}

abbrev manager : Manager
manager = record {
  channel = "stable";
  paused = false;
  plan_etag = "";
  file = state;
  reports = [];
  rollbacks = [];
}

-- In its window the plan is applied.
in_window : (polls (env 200 none ∷ []) manager).file.applied.version ≡ "2.0"
unfolding polls poll take_plan reload apply_plan attempt install_or_fail complete finish installed
    skips
in_window = refl

-- A restart that fails is rolled back.
rolled_back : (polls (env 200 (some "exec") ∷ []) manager).rollbacks ≡ "target" ∷ []
unfolding polls poll take_plan reload apply_plan attempt install_or_fail complete finish installed
    skips
rolled_back = refl

-- The window opens at 100; polls at 50, 150 and 250.
early_plan_is_lost_example :
    (polls (env 50 none ∷ env 150 none ∷ env 250 none ∷ []) manager).file.applied ≡ state.applied
unfolding reload
early_plan_is_lost_example =
    early_plan_is_lost plan "tag" 100 (env 50 none) (env 150 none ∷ env 250 none ∷ []) manager
      (λ channel tag. refl) ((λ channel tag. refl), ((λ channel tag. refl), tt)) refl refl refl
      (omega arith) refl
