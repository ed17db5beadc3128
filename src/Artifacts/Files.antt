-- ===== src/Artifacts/Files.antt =====
-- FileStore: the artifacts as files of a directory, keyed by their names in it.
-- `filepath.Clean`, SHA-256 and the copy buffers of Go's library are not looked into.
use Prim.Native.String.{String}
use ping_santo.Prelude.{
  ℕ, if◌then◌else◌, ◌||◌, Bool, true, false, Option, none, some, List, length, take,
}
use ping_santo.Prelude.Texts.{same, join}
use ping_santo.Prelude.Maps.{find, insert, remove}
use ping_santo.Artifacts.Names.{Formats, artifact_name, signature_name}
use ping_santo.Artifacts.{
  Reader, SaveRequest, Meta, artifact_required, not_saved, Saved, saved, refused, Opened, opened,
  missing, unopened,
}

abbrev pub Files : Type 0
Files = List (String × List ℕ)

-- What the calls for one file do: `true` is an error. A failed write leaves the first `written`
-- bytes, and `clean_up` is the removal of the temporary file.
pub record FileFaults : Type 0 where
  pub create : Bool
  pub write : Bool
  pub written : ℕ
  pub sync : Bool
  pub close : Bool
  pub rename : Bool
  pub clean_up : Bool

-- The temporary file of a path
abbrev pub temporary : String → String
temporary name = join name ".tmp"

-- `os.Remove(tmpPath)`, whose error is not looked at
unfoldable pub discard : FileFaults → String → Files → Files
discard io name files = if io.clean_up then files else remove (temporary name) files

-- A file is written under its temporary name, synced, closed and renamed. `true` says that this
-- failed. The reader's error is one of writing.
unfoldable pub publish : FileFaults → String → Reader → Files → Bool × Files
unfolding discard
publish io name reader files =
    let part = insert (temporary name) (take io.written reader.bytes) files in
    let whole = insert (temporary name) reader.bytes files in
    if io.create
    then (true, files)
    else if io.write || reader.broken
    then (true, discard io name part)
    else if io.sync || io.close || io.rename
    then (true, discard io name whole)
    else (false, insert name reader.bytes (remove (temporary name) whole))

module _ (t : Formats) (sha256 : List ℕ → String) where
  -- `meta` in `Save`, with the name of the signature; the paths are those in the directory
  unfoldable pub file_meta : ℕ → String → String → List ℕ → Meta
  file_meta now name sig bytes = record {
    artifact_name = name;
    signature_name = sig;
    sha256 = sha256 bytes;
    size = length bytes;
    created_at = now;
    path = name;
    signature_path = sig;
  }

  abbrev pub failed_or : Bool × Files → Meta → Saved × Files
  failed_or (true, files) meta = (refused not_saved, files)
  failed_or (false, files) meta = (saved meta, files)

  -- What follows the artifact's file in `Save`, with the reader of the signature. The signature's
  -- file is not synced.
  unfoldable pub publish_signature :
      FileFaults → ℕ → SaveRequest → String → List ℕ → Option Reader → Files → Saved × Files
  unfolding file_meta signature_name publish
  publish_signature io now req name bytes none files = (saved (file_meta now name "" bytes), files)
  publish_signature io now req name bytes (some sig) files =
      let sig_name = signature_name t req.version req.signature_name name in
      failed_or (publish (record io { sync = false }) sig_name sig files)
        (file_meta now name sig_name bytes)

  abbrev pub unless_failed : Bool × Files → (Files → Saved × Files) → Saved × Files
  unless_failed (true, files) next = (refused not_saved, files)
  unless_failed (false, files) next = next files

  -- `Save`, with the reader of the artifact
  unfoldable pub publish_artifact :
      FileFaults → FileFaults → ℕ → ℕ → SaveRequest → Option Reader → Files → Saved × Files
  unfolding artifact_name publish publish_signature
  publish_artifact io sig_io seconds now req none files = (refused artifact_required, files)
  publish_artifact io sig_io seconds now req (some reader) files =
      let name = artifact_name t req.version req.artifact_name seconds in
      unless_failed (publish io name reader files)
        (publish_signature sig_io now req name reader.bytes req.signature)

  -- `Save`: the name is stamped with the time in seconds.
  unfoldable pub save_file : FileFaults → FileFaults → ℕ → ℕ → SaveRequest → Files → Saved × Files
  unfolding publish_artifact
  save_file io sig_io seconds now req files =
      publish_artifact io sig_io seconds now req req.artifact files

-- `Open`; the two tests are errors of `os.Open` other than a missing file, and of `Stat`.
unfoldable pub open_file : (String → String) → Bool → (String → ℕ) → String → Files → Opened
open_file clean fails modified name files =
    if same name "" || fails then unopened else elim (find (clean name) files) [
      | none ↦ missing
      | some bytes ↦ opened bytes (record {
        artifact_name = name;
        signature_name = "";
        sha256 = "";
        size = length bytes;
        created_at = modified name;
        path = clean name;
        signature_path = "";
      })
    ]
