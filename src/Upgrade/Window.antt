-- ===== src/Upgrade/Window.antt =====
-- A plan that comes before its rollout window.
use Prim.Native.String.{String}
use ping_santo.Prelude.{
  ℕ, ◌<◌, ◌≡◌, refl, ap, ◌∙◌, Bool, true, false, if◌then◌else◌, none, some, List, [], ◌∷◌, All,
  lt→ltb, arith,
}
use ping_santo.Prelude.Texts.{same, same_refl}
use ping_santo.Upgrade.{
  Plan, State, Env, Manager, reload, skips, apply_plan, take_plan, poll, polls, fetched,
  not_modified, is_early,
}

-- The server has one plan, and answers that it is not modified to whoever sends its ETag.
abbrev pub Serves : Plan → String → Env → Type 0
Serves plan etag env =
    (channel : String) (tag : String)
    → env.fetch channel tag ≡ (if same tag etag then not_modified else fetched plan etag)

-- The ETag of the plan is known, in memory and in the file.
pub record IsKnown (etag : String) (m : Manager) : Type 0 where
  pub in_memory : m.plan_etag ≡ etag
  pub in_file : m.file.plan_etag ≡ etag

reload-IsKnown :
    (etag : String) (env : Env) (m : Manager) → IsKnown etag m → IsKnown etag (reload env m)
unfolding reload
reload-IsKnown etag env m v = ground (arith, v.in_memory, v.in_file)

reload_file : (env : Env) (m : Manager) → (reload env m).file ≡ m.file
unfolding reload
reload_file env m = ground arith

poll_known :
    (plan : Plan) (etag : String) (env : Env) (m : Manager)
    → Serves plan etag env
    → IsKnown etag m
    → poll env m ≡ (none, m)
unfolding poll
poll_known plan etag env m serves v =
    let answer =
      serves m.channel m.plan_etag
      ∙ ap (λ tag. if same tag etag then not_modified else fetched plan etag) v.in_memory
      ∙ ap (λ b. if b then not_modified else fetched plan etag) (same_refl etag) in
    rw (answer, poll) refl

polls_known :
    (plan : Plan) (etag : String) (envs : List Env) (m : Manager)
    → All (Serves plan etag) envs
    → IsKnown etag m
    → (polls envs m).file ≡ m.file
unfolding polls
polls_known plan etag [] m hs v = refl
polls_known plan etag (env ∷ envs) m (h, hs) v =
    let known = reload-IsKnown etag env m v in
    ap (λ x. (polls envs x.1).file) (poll_known plan etag env (reload env m) h known)
    ∙ polls_known plan etag envs (reload env m) hs known
    ∙ reload_file env m

-- The manager behind a poll that stored the plan and did not apply it.
abbrev noted : String → Manager → Manager
noted etag m = record m { file = record m.file { plan_etag = etag }; plan_etag = etag }

early_skips :
    (now e : ℕ) (plan : Plan) (st : State) (paused : Bool)
    → plan.earliest ≡ some e
    → now < e
    → skips now plan st paused ≡ true
unfolding skips
early_skips now e plan st paused at early =
    let is_so = ap (is_early now) at ∙ lt→ltb now e early in ground (arith, is_so)

poll_early :
    (plan : Plan) (etag : String) (e : ℕ) (env : Env) (m : Manager)
    → Serves plan etag env
    → env.load_fails ≡ false
    → env.save_plan_fails ≡ false
    → plan.earliest ≡ some e
    → env.now < e
    → same m.plan_etag etag ≡ false
    → poll env m ≡ (none, noted etag m)
unfolding poll take_plan apply_plan
poll_early plan etag e env m serves loads saves at early new =
    let answer =
      serves m.channel m.plan_etag ∙ ap (λ b. if b then not_modified else fetched plan etag) new in
    let skipped =
      early_skips env.now e plan (record m.file { plan_etag = etag }) m.paused at early in
    rw (answer, poll, loads, saves, skipped) refl

-- A plan that the agent first sees before its window opens is never applied: the poll stores its
-- ETag, and from then on, at whatever time, the server answers that the plan is not modified. The
-- applied version stays what it was.
pub early_plan_is_lost :
    (plan : Plan) (etag : String) (e : ℕ) (env : Env) (envs : List Env) (m : Manager)
    → Serves plan etag env
    → All (Serves plan etag) envs
    → env.load_fails ≡ false
    → env.save_plan_fails ≡ false
    → plan.earliest ≡ some e
    → env.now < e
    → same (reload env m).plan_etag etag ≡ false
    → (polls (env ∷ envs) m).file.applied ≡ m.file.applied
unfolding polls
early_plan_is_lost plan etag e env envs m serves all loads saves at early new =
    ap (λ x. (polls envs x.1).file.applied)
      (poll_early plan etag e env (reload env m) serves loads saves at early new)
    ∙ ap (λ f. f.applied)
        (polls_known plan etag envs (noted etag (reload env m)) all
          (record { in_memory = refl; in_file = refl }))
    ∙ ap (λ f. f.applied) (reload_file env m)
