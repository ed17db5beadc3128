-- ===== src/Server/Flows.antt =====
-- Whole exchanges with the stores in memory: a plan that is published reaches its agent, and an
-- artifact that is uploaded can be downloaded.
use Prim.Native.String.{String}
use ping_santo.Prelude.{
  ℕ, ◌≡◌, ◌≢◌, length, ◌⊎◌, inl, inr, refl, sym, ap, ◌∙◌, Bool, true, false, if◌then◌else◌, none,
  some, List,
}
use ping_santo.Prelude.Texts.{same, same_refl}
use ping_santo.Prelude.Maps.{find}
use ping_santo.Plans.{
  UpgradePlan, MemoryStore, Texts, with_etag, channel_plan_key, channel_or_stable,
  normalize_channel, default_string, fetch_upgrade_plan, plan_key, plan_of, upsert_upgrade_plan,
}
use ping_santo.Plans.Lookup.{planned, fetch-upsert}
use ping_santo.Artifacts.{Reader, SaveRequest, Meta}
use ping_santo.Artifacts.Saves.{is_broken, save-stores, open-own}
use ping_santo.Artifacts.Names
use ping_santo.Artifacts.Names.{artifact_name}
use ping_santo.Artifacts.Memory
use ping_santo.Artifacts.Memory.{
  meta_of, store_files, save, save_read, save_signed, open_artifact, meta_or_new, signature_of,
}
use ping_santo.Server.{
  Config, Formats, Request, ArtifactStore, plan_body, artifact_body, content_body, found, respond,
}
use ping_santo.Server.Access.{agent, extract_agent_id, authorize_admin}
use ping_santo.Server.Agents.{plan_handler, plan_for, answer_plan}
use ping_santo.Server.Admin.{
  PlanRequest, input_of, answer_upsert, upsert_decoded, admin_upsert_plan_handler,
}
use ping_santo.Server.Uploads.{
  Form, SignatureField, no_signature, invalid_signature, signature_file, with_signature,
  save_request, save_upload, upload_file, upload_form, answer_save, answer_open,
  admin_upload_artifact_handler, artifact_download_handler, build_artifact_url, signature_url,
}
use ping_santo.Server.Memory.{found_plan, upserted_or, memory_plans, memory_artifacts, formats_of}

module _ (t : Texts) (cfg : Config) (now later : ℕ) (admin r : Request) (req : PlanRequest)
    (id : String) (m : MemoryStore) where
  -- The plan is for the agent, or for the agent's channel, and the agent has none of its own.
  abbrev pub Applies : Type 0
  Applies =
      (plan_key t (input_of req) ≡ id)
      ⊎ ((find id m.plans ≡ none) × (plan_key t (input_of req) ≡ channel_plan_key t r.channel))

  abbrev pub stored_plan : UpgradePlan
  stored_plan = plan_of t now (input_of req)

  abbrev pub after : MemoryStore
  after = (upsert_upgrade_plan t now (input_of req) m).1

  fetched :
      (key channel_key : String)
      → (key ≡ id) ⊎ ((find id m.plans ≡ none) × (key ≡ channel_key))
      → (other : UpgradePlan × String)
      → (if same key id
          then with_etag t stored_plan
          else planned t
              (find id m.plans)
              (if same key channel_key then with_etag t stored_plan else other))
        ≡ with_etag t stored_plan
  fetched key channel_key (inl e) other = rw (e, same_refl id) refl
  fetched key channel_key (inr (e, f)) other =
      rw (e, f, same_refl channel_key) (absorb (same channel_key id))
    where
      absorb :
          (b : Bool)
          → (if b then with_etag t stored_plan else with_etag t stored_plan)
            ≡ with_etag t stored_plan
      absorb true = refl
      absorb false = refl

  upsert_allowed :
      authorize_admin (formats_of t) admin cfg.admin_bearer_token ≡ true
      → admin_upsert_plan_handler (formats_of t) cfg (memory_plans t now) admin (some req) m
        ≡ answer_upsert (upserted_or (upsert_upgrade_plan t now (input_of req) m))
  unfolding admin_upsert_plan_handler upsert_decoded
  upsert_allowed e = rw e refl

  pub plan_served :
      (m' : MemoryStore)
      → extract_agent_id (formats_of t) r cfg.agent_auth_mode ≡ agent id
      → r.if_none_match ≡ ""
      → fetch_upgrade_plan t later id r.channel m' ≡ with_etag t stored_plan
      → plan_handler (formats_of t) cfg (memory_plans t later) r m'
        ≡ respond (t.etag stored_plan) (plan_body stored_plan)
  unfolding plan_handler plan_for answer_plan
  plan_served m' caller fresh gets =
      ap (λ c. plan_for (formats_of t) cfg (memory_plans t later) r c m') caller
      ∙ ap (λ p. answer_plan r.if_none_match (found_plan p)) gets
      ∙ ap (λ s. answer_plan s (found stored_plan (t.etag stored_plan))) fresh

  -- The store after the plan was published: what it answered, and what the agent gets of it.
  pub published_plan_found :
      same (t.trim_space req.artifact.version) "" ≡ false
      → Applies
      → let (answer, m') = upsert_upgrade_plan t now (input_of req) m in
        (answer ≡ some (with_etag t stored_plan))
        × (fetch_upgrade_plan t later id r.channel m' ≡ with_etag t stored_plan)
  unfolding input_of plan_of plan_key default_string channel_plan_key channel_or_stable
      normalize_channel
  published_plan_found versioned applies =
      elim (fetch-upsert t now later (input_of req) id r.channel m) [
        | inl (blank, _, _) ↦ let clash : true ≡ false = sym blank ∙ versioned in absurd cc
        | inr (answered, gets) ↦ (
          answered,
          gets ∙ fetched (plan_key t (input_of req)) (channel_plan_key t r.channel) applies _,
        )
      ]

  pub published_plan_answered :
      authorize_admin (formats_of t) admin cfg.admin_bearer_token ≡ true
      → same (t.trim_space req.artifact.version) "" ≡ false
      → Applies
      → admin_upsert_plan_handler (formats_of t) cfg (memory_plans t now) admin (some req) m
        ≡ (respond (t.etag stored_plan) (plan_body stored_plan), after)
  unfolding answer_upsert
  published_plan_answered allowed versioned applies =
      upsert_allowed allowed
      ∙ ap (λ o. answer_upsert (upserted_or (o, after))) (published_plan_found versioned applies).0

with_signature-artifact :
    (s : SignatureField) (req up : SaveRequest)
    → with_signature s req ≡ some up
    → up.artifact ≡ req.artifact
unfolding with_signature
with_signature-artifact no_signature req up e =
    let same_request : req ≡ up = cc in ap (λ (q : SaveRequest). q.artifact) (sym same_request)
with_signature-artifact invalid_signature req up e = absurd cc
with_signature-artifact (signature_file name sig) req up e =
    let signed : SaveRequest = record req { signature = some sig; signature_name = name } in
    let same_request : signed ≡ up = cc in ap (λ (q : SaveRequest). q.artifact) (sym same_request)

module _ (t : Names.Formats) (f : Formats) (sha256 : List ℕ → String) (cfg : Config)
    (stamp now later : ℕ) (admin : Request) (form : Form) (name : String) (file : Reader)
    (up : SaveRequest) (m : Memory.MemoryStore) where
  -- The form's file is an upload of the request `up`, and both of its files are read without error.
  pub record IsUpload : Type 0 where
    pub has_file : form.file ≡ some (name, file)
    pub has_version : same (f.trim_space form.version) "" ≡ false
    pub is_request :
        with_signature form.signature (save_request (f.trim_space form.version) name file) ≡ some up
    pub whole : file.broken ≡ false
    pub whole_signature : is_broken up.signature ≡ false

  abbrev pub uploaded_meta : Meta
  uploaded_meta = meta_of t sha256 stamp now up file.bytes

  abbrev artifacts : ArtifactStore Memory.MemoryStore
  artifacts = memory_artifacts t sha256 stamp now

  upload_runs :
      authorize_admin f admin cfg.admin_bearer_token ≡ true
      → IsUpload
      → admin_upload_artifact_handler f cfg artifacts admin (some form) m
        ≡ answer_save f cfg admin (save t sha256 stamp now up m)
  unfolding admin_upload_artifact_handler upload_form upload_file save_upload
  upload_runs allowed u = rw allowed (
      ap (λ o. upload_file f cfg artifacts admin form o m) u.has_file
      ∙ rw u.has_version (ap (λ o. save_upload f cfg artifacts admin o m) u.is_request))

  -- An upload is answered with the name, the digest and the size of the artifact, and whoever
  -- downloads that name next gets the bytes that were uploaded: the request is an administrator's,
  -- the form has a file and a version, both files are read without error, and the signature's
  -- name is not the artifact's.
  pub uploaded_artifact_served :
      authorize_admin f admin cfg.admin_bearer_token ≡ true
      → IsUpload
      → uploaded_meta.signature_name ≢ uploaded_meta.artifact_name
      → let (answer, m') = admin_upload_artifact_handler f cfg artifacts admin (some form) m in
        (answer
          ≡ respond "" (
              artifact_body uploaded_meta.artifact_name
                (build_artifact_url f cfg admin uploaded_meta.artifact_name)
                (sha256 file.bytes)
                (length file.bytes)
                (signature_url f cfg admin uploaded_meta)))
        × (artifact_download_handler f cfg
              (memory_artifacts t sha256 stamp later)
              uploaded_meta.artifact_name
              m'
            ≡ respond "" (content_body uploaded_meta.artifact_name file.bytes))
  unfolding answer_save meta_of
  uploaded_artifact_served allowed u differ =
      let stores =
        save-stores t sha256 stamp now up file m
          (with_signature-artifact form.signature
              (save_request (f.trim_space form.version) name file) up u.is_request
            ∙ unfold save_request in refl)
          u.whole u.whole_signature in
      rw (upload_runs allowed u, stores)
        (
          refl,
          (unfold artifact_download_handler in
              ap (answer_open f cfg artifacts)
                (open-own t sha256 later uploaded_meta file.bytes _ m differ)
              ∙ unfold answer_open in refl),
        )
