-- ===== src/Server/Uploads.antt =====
-- The artifact handlers: adminUploadArtifactHandler, artifactDownloadHandler and buildArtifactURL.
use Prim.Native.String.{String}
use ping_santo.Prelude.{ℕ, ◌==◌, if◌then◌else◌, Bool, Option, none, some, List}
use ping_santo.Prelude.Texts.{same, join, trim_right}
use ping_santo.Artifacts.{
  Reader, SaveRequest, Meta, artifact_required, not_saved, Saved, saved, refused, Opened, opened,
  missing, unopened,
}
use ping_santo.Server.{
  Config, Formats, Request, Response, artifact_body, content_body, ArtifactStore, http_error,
  respond,
}
use ping_santo.Server.Access.{authorize_admin}

-- The field "signature" of a form: missing, not readable, or a file with its name.
pub data SignatureField : Type 0 where
  no_signature invalid_signature : SignatureField
  signature_file : String → Reader → SignatureField

-- A multipart form of `adminUploadArtifactHandler`. `file` is none where `FormFile` fails.
pub record Form : Type 0 where
  pub file : Option (String × Reader)
  pub version : String
  pub signature : SignatureField

abbrev is_slash : ℕ → Bool
is_slash c = c == 47

-- `strings.TrimRight(cfg.ArtifactPath, "/")`, with the default that stands for the empty path
unfoldable pub artifact_route : Config → String
unfolding trim_right
artifact_route cfg =
    let route = trim_right is_slash cfg.artifact_path in
    if same route "" then "/artifacts" else route

abbrev pub scheme_of : Option (List String) → String
scheme_of none = "http"
scheme_of (some _) = "https"

-- `req` in `adminUploadArtifactHandler`, with its trimmed version
unfoldable pub save_request : String → String → Reader → SaveRequest
save_request version name file = record {
  version = version;
  artifact = some file;
  artifact_name = name;
  signature = none;
  signature_name = "";
}

-- The field "signature"; none is one that is not readable
unfoldable pub with_signature : SignatureField → SaveRequest → Option SaveRequest
with_signature no_signature req = some req
with_signature invalid_signature req = none
with_signature (signature_file name file) req =
    some (record req { signature = some file; signature_name = name })

module _ (t : Formats) (cfg : Config) where
  -- `buildArtifactURL`
  unfoldable pub build_artifact_url : Request → String → String
  unfolding artifact_route trim_right
  build_artifact_url r name =
      let given = t.trim_space cfg.public_base_url in
      let base = if same given "" then join (scheme_of r.tls) (join "://" r.host) else given in
      join (trim_right is_slash base) (join (artifact_route cfg) (join "/" name))

  -- `signature_url` in the response
  unfoldable pub signature_url : Request → Meta → Option String
  unfolding build_artifact_url
  signature_url r meta =
      if same meta.signature_name "" then none else some (build_artifact_url r meta.signature_name)

  -- What is written when `Save` returns.
  unfoldable pub answer_save : {A : Type 0} → Request → Saved × A → Response × A
  unfolding build_artifact_url signature_url
  answer_save r (refused artifact_required, a) = (http_error 400 "artifact required", a)
  answer_save r (refused not_saved, a) = (http_error 500 "unable to save artifact", a)
  answer_save r (saved meta, a) = (
    respond "" (
        artifact_body meta.artifact_name (build_artifact_url r meta.artifact_name) meta.sha256
          meta.size (signature_url r meta)),
    a,
  )

  module _ {A : Type 0} (store : ArtifactStore A) where
    unfoldable pub save_upload : Request → Option SaveRequest → A → Response × A
    unfolding answer_save
    save_upload r none a = (http_error 400 "invalid signature field", a)
    save_upload r (some req) a = answer_save r (store.save req a)

    -- What follows the reading of the field "file"
    unfoldable pub upload_file : Request → Form → Option (String × Reader) → A → Response × A
    unfolding save_upload with_signature save_request
    upload_file r form none a = (http_error 400 "file field is required", a)
    upload_file r form (some (name, file)) a =
        let version = t.trim_space form.version in
        if same version ""
        then (http_error 400 "version is required", a)
        else save_upload r (with_signature form.signature (save_request version name file)) a

    -- What follows the parsing of the form, which is none where it does not parse
    unfoldable pub upload_form : Request → Option Form → A → Response × A
    unfolding upload_file
    upload_form r none a = (http_error 400 "invalid multipart form", a)
    upload_form r (some form) a = upload_file r form form.file a

    -- `adminUploadArtifactHandler`. The dependency `ArtifactStore` is never nil: `New` has a default.
    unfoldable pub admin_upload_artifact_handler : Request → Option Form → A → Response × A
    unfolding upload_form authorize_admin
    admin_upload_artifact_handler r form a =
        if authorize_admin t r cfg.admin_bearer_token
        then upload_form r form a
        else (http_error 401 "unauthorized", a)

    -- What `artifactDownloadHandler` writes. `http.ServeContent` is taken to send the whole content.
    unfoldable pub answer_open : Opened → Response
    answer_open missing = http_error 404 "404 page not found"
    answer_open unopened = http_error 500 "internal error"
    answer_open (opened bytes meta) = respond "" (content_body meta.artifact_name bytes)

    -- `artifactDownloadHandler`, with the variable `name` of the route
    unfoldable pub artifact_download_handler : String → A → Response
    unfolding answer_open
    artifact_download_handler name a = answer_open (store.open_artifact name a)
