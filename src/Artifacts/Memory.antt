-- ===== src/Artifacts/Memory.antt =====
-- MemoryStore: the artifacts in memory. SHA-256 with its hexadecimal form is a parameter.
use Prim.Native.String.{String}
use ping_santo.Prelude.{
  ℕ, ◌≡◌, ap, inl, inr, refl, if◌then◌else◌, Option-cases, Option, none, some, List, [], length,
}
use ping_santo.Prelude.Texts.{same}
use ping_santo.Prelude.Maps.{find, insert}
use ping_santo.Artifacts.Names.{Formats, artifact_name, signature_name}
use ping_santo.Artifacts.{
  Reader, SaveRequest, Meta, artifact_required, not_saved, Saved, saved, refused, Opened, opened,
  missing,
}

-- `MemoryStore`
pub record MemoryStore : Type 0 where
  pub files : List (String × List ℕ)
  pub metadata : List (String × Meta)

module _ (t : Formats) (sha256 : List ℕ → String) where
  -- `signatureName`, which is empty without a signature
  unfoldable pub signature_of : SaveRequest → String → String
  unfolding signature_name
  signature_of req artifact = elim req.signature [
    | none ↦ ""
    | some _ ↦ signature_name t req.version req.signature_name artifact
  ]

  -- `meta`, with the readings of the clock: for the name, and for the time of creation
  unfoldable pub meta_of : ℕ → ℕ → SaveRequest → List ℕ → Meta
  unfolding signature_of artifact_name
  meta_of stamp now req bytes =
      let name = artifact_name t req.version req.artifact_name stamp in
      record {
        artifact_name = name;
        signature_name = signature_of req name;
        sha256 = sha256 bytes;
        size = length bytes;
        created_at = now;
        path = name;
        signature_path = signature_of req name;
      }

  -- The assignments at the end of `Save`, with the bytes of the artifact and of the signature
  unfoldable pub store_files : Meta → List ℕ → List ℕ → MemoryStore → MemoryStore
  store_files meta bytes sig m =
      let files = insert meta.artifact_name bytes m.files in
      record {
        files = if same meta.signature_name "" then files else insert meta.signature_name sig files;
        metadata = insert meta.artifact_name meta m.metadata;
      }

  -- The reading of the signature in `Save`, and what follows it
  unfoldable pub save_signed : Option Reader → Meta → List ℕ → MemoryStore → Saved × MemoryStore
  unfolding store_files
  save_signed none meta bytes m = (saved meta, store_files meta bytes [] m)
  save_signed (some sig) meta bytes m =
      if sig.broken
      then (refused not_saved, m)
      else (saved meta, store_files meta bytes sig.bytes m)

  -- The reading of the artifact, and what follows it
  unfoldable pub save_read : ℕ → ℕ → SaveRequest → Option Reader → MemoryStore → Saved × MemoryStore
  unfolding save_signed meta_of
  save_read stamp now req none m = (refused artifact_required, m)
  save_read stamp now req (some reader) m =
      if reader.broken
      then (refused not_saved, m)
      else save_signed req.signature (meta_of stamp now req reader.bytes) reader.bytes m

  -- `Save`
  unfoldable pub save : ℕ → ℕ → SaveRequest → MemoryStore → Saved × MemoryStore
  unfolding save_read
  save stamp now req m = save_read stamp now req req.artifact m

-- `m.metadata[name]`, and what stands for it where there is none
unfoldable pub meta_or_new : ℕ → String → List ℕ → Option Meta → Meta
meta_or_new now name bytes (some meta) = meta
meta_or_new now name bytes none = record {
  artifact_name = name;
  signature_name = "";
  sha256 = "";
  size = length bytes;
  created_at = now;
  path = "";
  signature_path = "";
}

-- `Open`
unfoldable pub open_artifact : ℕ → String → MemoryStore → Opened
unfolding meta_or_new
open_artifact now name m = elim (find name m.files) [
  | none ↦ missing
  | some bytes ↦ opened bytes (meta_or_new now name bytes (find name m.metadata))
]

-- The bytes that `Open` gives
abbrev pub content : Opened → Option (List ℕ)
content (opened bytes meta) = some bytes
content _ = none

pub content-open_artifact :
    (now : ℕ) (name : String) (m : MemoryStore)
    → content (open_artifact now name m) ≡ find name m.files
unfolding open_artifact
content-open_artifact now name m = elim (Option-cases (find name m.files)) [
  | inl e ↦ rw (e, open_artifact) refl
  | inr (b, e) ↦ rw (e, open_artifact) refl
]

pub open_artifact-found :
    (now : ℕ) (name : String) (m : MemoryStore) (bytes : List ℕ) (meta : Meta)
    → find name m.files ≡ some bytes
    → find name m.metadata ≡ some meta
    → open_artifact now name m ≡ opened bytes meta
unfolding open_artifact meta_or_new
open_artifact-found now name m bytes meta e f =
    rw (e, open_artifact) (ap (λ o. opened bytes (meta_or_new now name bytes o)) f)
