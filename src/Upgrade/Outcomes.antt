-- ===== src/Upgrade/Outcomes.antt =====
-- What applying a plan leaves in the state file and in the reports.
use Prim.Native.String.{String}
use ping_santo.Prelude.{◌≡◌, false, Option, none, some, List, [], ◌∷◌, ◌++◌}
use ping_santo.Upgrade.{Plan, State, Env, Report, Manager}

-- The report on a plan, where the version `v` was applied before.
abbrev pub report_of : Plan → String → Option String → Report
report_of plan v failure = record {
  current_version = plan.version;
  previous_version = v;
  failure = failure;
}

-- The two ways in which an attempt to apply a plan ends, where the version `v` was applied before.
pub data Ends (env : Env) (plan : Plan) (v : String) (m m' : Manager) : Option String → Type 0 where
  failed :
      {e : String}
      → (before : List Report) → m'.file.applied.version ≡ v
      → m'.file.applied.last_error ≡ e
      → m'.file.applied.last_attempt ≡ env.now
      → m'.reports ≡ before ++ (report_of plan v (some e) ∷ [])
      → Ends env plan v m m' (some e)
  applied :
      m'.file.applied.version ≡ plan.version
      → m'.file.applied.last_error ≡ ""
      → m'.file.applied.last_attempt ≡ env.now
      → m'.reports ≡ m.reports ++ (report_of plan v none ∷ [])
      → m'.rollbacks ≡ m.rollbacks
      → Ends env plan v m m' none

module _ (env : Env) (plan : Plan) (m : Manager) (saves : env.save_fails ≡ false)
    (saves_back : env.save_rollback_fails ≡ false) where
  abbrev EndsIn : State → Option String × Manager → Type 0
  EndsIn st (r, m') = Ends env plan st.applied.version m m' r
