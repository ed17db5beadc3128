-- ===== src/Server/Guards.antt =====
-- Administrators' tokens, and conditional requests for a plan.
use Prim.Native.String.{String}
use ping_santo.Prelude.{◌≡◌, ◌↔◌, inl, inr, refl, true, false, Bool-cases, Option-cases}
use ping_santo.Prelude.Texts.{
  same, same_iff, after_prefix, join, after_prefix-join, join-after_prefix,
}
use ping_santo.Server.{Config, Formats, Request, PlanStore, ArtifactStore, http_error}
use ping_santo.Server.Access.{authorize_admin, is_token}
use ping_santo.Server.Admin.{
  admin_upsert_plan_handler, admin_history_handler, admin_get_notification_settings_handler,
  admin_update_notification_settings_handler,
}
use ping_santo.Server.Uploads.{admin_upload_artifact_handler}
use ping_santo.Server.Routes.{
  Call, get_plan, post_report, post_plan, get_history, get_settings, post_settings, post_artifact,
  get_artifact, get_health, IsAdmin, State, serve,
}

-- Every route below /api/admin answers 401 to a request without the administrators' token, and
-- leaves both stores as they are, whatever the stores do.
pub serve-IsUnauthorized :
    {S A : Type 0} (t : Formats) (cfg : Config) (plans : PlanStore S) (artifacts : ArtifactStore A)
    → (r : Request) (call : Call) (s : State S A) → IsAdmin call
    → authorize_admin t r cfg.admin_bearer_token ≡ false
    → serve t cfg plans artifacts r call s ≡ (http_error 401 "unauthorized", s)
unfolding serve admin_upsert_plan_handler admin_history_handler
    admin_get_notification_settings_handler admin_update_notification_settings_handler
    admin_upload_artifact_handler
serve-IsUnauthorized t cfg plans artifacts r (post_plan body) s h e = rw e refl
serve-IsUnauthorized t cfg plans artifacts r (get_history id) s h e = rw e refl
serve-IsUnauthorized t cfg plans artifacts r get_settings s h e = rw e refl
serve-IsUnauthorized t cfg plans artifacts r (post_settings body) s h e = rw e refl
serve-IsUnauthorized t cfg plans artifacts r (post_artifact form) s h e = rw e refl
serve-IsUnauthorized t cfg plans artifacts r get_plan s h e = absurd h
serve-IsUnauthorized t cfg plans artifacts r (post_report body) s h e = absurd h
serve-IsUnauthorized t cfg plans artifacts r (get_artifact name) s h e = absurd h
serve-IsUnauthorized t cfg plans artifacts r get_health s h e = absurd h

module _ (t : Formats) where
  is_token_iff :
      (token header : String)
      → (is_token t token (after_prefix "Bearer " header) ≡ true)
        ↔ ((value : String) × (header ≡ join "Bearer " value) × (t.trim_space value ≡ token))
  unfolding is_token
  is_token_iff token header = (
    λ e. elim (Option-cases (after_prefix "Bearer " header)) [
      | inl f ↦ let clash : false ≡ true = rw f at e in absurd cc
      | inr (value, f) ↦
          let own : same (t.trim_space value) token ≡ true = rw f at e in
          (
            value,
            after_prefix-join "Bearer " header value f,
            (same_iff (t.trim_space value) token).0 own,
          )
    ],
    λ (value, f, e).
        rw (f, join-after_prefix "Bearer " value) ((same_iff (t.trim_space value) token).1 e),
  )

  -- A request is an administrator's just when the configured token is not blank, and the header
  -- Authorization is "Bearer " followed by a text that is trimmed to the token.
  pub authorize_admin_iff :
      (r : Request) (token : String)
      → (authorize_admin t r token ≡ true) ↔ (
          (same (t.trim_space token) "" ≡ false)
          × (value : String) × (r.authorization ≡ join "Bearer " value)
          × (t.trim_space value ≡ token))
  unfolding authorize_admin
  authorize_admin_iff r token =
      let (to, back) = is_token_iff token r.authorization in
      elim (Bool-cases (same (t.trim_space token) "")) [
        | inl blank ↦ rw blank (λ e. absurd cc, λ b. absurd cc)
        | inr some_token ↦ rw some_token (
          λ e. let (value, header, own) = to e in (refl, value, header, own),
          λ (_, value, header, own). back (value, header, own),
        )
      ]
