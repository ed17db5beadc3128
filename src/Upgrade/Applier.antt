-- ===== src/Upgrade/Applier.antt =====
-- agent/internal/upgrade/applier.go: a plan's artifact is downloaded, verified and unpacked.
-- The HTTP client, gzip, tar, SHA-256 and the verifier of signatures are parameters. The bundle
-- directory is new, so a file that is not written is not there; temporary files are left out.
pub mod Verified
mod Tests
use Prim.Native.String.{String}
use ping_santo.Prelude.{
  ℕ, ◌%◌, ◌/◌, ◌==◌, ltb, leb, ◌&&◌, ◌||◌, not, if◌then◌else◌, Bool, true, false, Option, none,
  some, List, [], ◌∷◌, ◌++◌, take,
}
use ping_santo.Prelude.Texts.{same}
use ping_santo.Prelude.Maps.{find, insert}

-- The fields of the plan's artifact that the applier reads
pub record Source : Type 0 where
  pub version : String
  pub url : String
  pub sha256 : String
  pub signature_url : String

-- What a request comes to: no response, or a status and a body that may break off.
pub data Reply : Type 0 where
  no_reply : Reply
  reply : ℕ → List ℕ → Bool → Reply

-- The kinds of a tar header, and a header with what follows it
pub data Kind : Type 0 where
  directory regular other_kind : Kind

pub record Entry : Type 0 where
  pub name : String
  pub kind : Kind
  pub mode : ℕ
  pub bytes : List ℕ
  pub broken : Bool

-- An extracted file
pub record Extracted : Type 0 where
  pub mode : ℕ
  pub bytes : List ℕ

-- What the applier is given: its libraries, and the answers of the server and the file system, where
-- `true` is an error. `unpack` gives the entries of an archive and whether it ends in an error, or
-- none if it is not a gzip file. `path_of` cleans a header's name and joins it to the directory.
-- `created_mode` is the mode of a new file behind the process's umask.
-- `walk` lists the files below a directory in the order of `filepath.WalkDir`.
pub record World : Type 0 where
  pub has_data_dir : Bool
  pub has_client : Bool
  pub clear_dir : Bool
  pub create_dir : Bool
  pub get : String → Reply
  pub write_file : String → Bool
  pub digest : List ℕ → String
  pub trim_space : String → String
  pub equal_fold : String → String → Bool
  pub open_artifact : Bool
  pub hash_fails : Bool
  pub verifier : Option (List ℕ → List ℕ → Bool)
  pub create_extract_dir : Bool
  pub open_archive : Bool
  pub unpack : List ℕ → Option (List Entry × Bool)
  pub path_of : String → String
  pub make_dir : String → Bool
  pub create_file : String → Bool
  pub created_mode : ℕ → ℕ
  pub close_file : String → Bool
  pub walk : List (String × Extracted) → Option (List (String × Extracted))
  pub base_name : String → String

-- The errors of `Apply`
pub data ApplyError : Type 0 where
  no_data_dir no_http_client clear_bundle create_bundle bad_download bad_digest : ApplyError
  bad_signature create_extract bad_archive no_binary : ApplyError

-- The files of the bundle directory
pub record Bundle : Type 0 where
  pub artifact : Option (List ℕ)
  pub signature : Option (List ℕ)
  pub extracted : List (String × Extracted)

-- What `Apply` returns: the path of the binary, or an error
pub data Applied : Type 0 where
  applied : String → Applied
  failed : ApplyError → Applied

abbrev pub empty_bundle : Bundle
empty_bundle = record { artifact = none; signature = none; extracted = [] }

-- The test on the status in `download`
unfoldable pub is_success : ℕ → Bool
is_success status = not (ltb status 200 || leb 300 status)

module _ (w : World) where
  -- What `download` makes of a response: none is an error.
  unfoldable pub downloaded : String → Reply → Option (List ℕ)
  unfolding is_success
  downloaded url no_reply = none
  downloaded url (reply status bytes broken) =
      if is_success status && not broken && not (w.write_file url) then some bytes else none

  -- `download`
  unfoldable pub download : String → Option (List ℕ)
  unfolding downloaded
  download url = downloaded url (w.get url)

  -- `verifySHA256` of the artifact; `true` is an error
  unfoldable pub verify_sha256 : List ℕ → String → Bool
  verify_sha256 bytes expected =
      if same expected ""
      then false
      else w.open_artifact
        || w.hash_fails
        || not (w.equal_fold (w.trim_space expected) (w.digest bytes))

  -- The verifier's answer, where one is configured
  unfoldable pub verify_signature : List ℕ → List ℕ → Bool
  verify_signature bytes sig = elim w.verifier [ none ↦ false | some verify ↦ verify bytes sig ]

  -- The mode that `os.OpenFile` leaves: a file that is there keeps its own, and the process's umask
  -- masks that of a new one.
  abbrev pub opened_mode : ℕ → Option Extracted → ℕ
  opened_mode mode none = w.created_mode mode
  opened_mode mode (some old) = old.mode

  -- A round of the loop of `extractTarGz`: whether it fails, and the files after it
  unfoldable pub extract_entry :
      Entry → List (String × Extracted) → Bool × List (String × Extracted)
  extract_entry e files =
      let path = w.path_of e.name in
      elim e.kind [
        | other_kind ↦ (false, files)
        | directory ↦ (w.make_dir path, files)
        | regular ↦ if w.make_dir path || w.create_file path then (true, files) else (
          e.broken || w.close_file path,
          insert path (record { mode = opened_mode e.mode (find path files); bytes = e.bytes })
              files,
        )
      ]

  -- The loop of `extractTarGz`; `ended` is the error at the end of the archive.
  unfoldable pub extract_entries :
      List Entry → Bool → List (String × Extracted) → Bool × List (String × Extracted)
  unfolding extract_entry
  extract_entries [] ended files = (ended, files)
  extract_entries (e ∷ es) ended files =
      let (fails, files') = extract_entry e files in
      let rest = extract_entries es ended files' in if fails then (true, files') else rest

  -- `extractTarGz`
  unfoldable pub extract_tar_gz : List ℕ → Bool × List (String × Extracted)
  unfolding extract_entries
  extract_tar_gz bytes = if w.open_archive then (true, []) else elim (w.unpack bytes) [
    | none ↦ (true, [])
    | some (entries, ended) ↦ extract_entries entries ended []
  ]

  -- The test `info.Mode()&0o111 == 0`, negated: one of the bits 0, 3 and 6 is set.
  unfoldable pub is_executable : ℕ → Bool
  is_executable mode = (mode % 2 == 1) || (mode / 8 % 2 == 1) || (mode / 64 % 2 == 1)

  -- `candidates` in `findBinary`
  unfoldable pub candidates : List (String × Extracted) → List String
  unfolding is_executable
  candidates [] = []
  candidates ((path, f) ∷ files) =
      let rest = candidates files in if is_executable f.mode then path ∷ rest else rest

  -- The loop over the candidates at the end of `findBinary`
  unfoldable pub named_agent : List String → Option String
  named_agent [] = none
  named_agent (path ∷ paths) =
      let rest = named_agent paths in
      if same (w.base_name path) "pingsanto-agent" then some path else rest

  unfoldable pub choose_binary : List String → Option String
  unfolding named_agent
  choose_binary [] = none
  choose_binary (path ∷ paths) = elim (named_agent (path ∷ paths)) [
    | some agent ↦ some agent
    | none ↦ some path
  ]

  -- `findBinary`
  unfoldable pub find_binary : List (String × Extracted) → Option String
  unfolding candidates choose_binary
  find_binary files = elim (w.walk files) [
    | none ↦ none
    | some listed ↦ choose_binary (candidates listed)
  ]

  abbrev pub found_or : Option String → Applied
  found_or (some path) = applied path
  found_or none = failed no_binary

  -- What follows the extraction in `Apply`
  unfoldable pub finish : Bool × List (String × Extracted) → Bundle → Applied × Bundle
  unfolding find_binary
  finish (true, files) b = (failed bad_archive, record b { extracted = files })
  finish (false, files) b = (found_or (find_binary files), record b { extracted = files })

  -- What follows the verification
  unfoldable pub unpack_artifact : List ℕ → Bundle → Applied × Bundle
  unfolding extract_tar_gz finish
  unpack_artifact bytes b =
      if w.create_extract_dir then (failed create_extract, b) else finish (extract_tar_gz bytes) b

  -- The signature's download in `Apply`, with what it gave
  unfoldable pub check_signature : List ℕ → Option (List ℕ) → Bundle → Applied × Bundle
  unfolding verify_signature unpack_artifact
  check_signature bytes none b = (failed bad_download, b)
  check_signature bytes (some sig) b =
      if verify_signature bytes sig
      then (failed bad_signature, record b { signature = some sig })
      else unpack_artifact bytes (record b { signature = some sig })

  -- What follows the artifact's download in `Apply`
  unfoldable pub check_artifact : Source → Option (List ℕ) → Applied × Bundle
  unfolding verify_sha256 check_signature download
  check_artifact source none = (failed bad_download, empty_bundle)
  check_artifact source (some bytes) =
      let b = record empty_bundle { artifact = some bytes } in
      if verify_sha256 bytes source.sha256
      then (failed bad_digest, b)
      else if same source.signature_url ""
      then unpack_artifact bytes b
      else check_signature bytes (download source.signature_url) b

  -- `Apply`
  unfoldable pub apply : Source → Applied × Bundle
  unfolding check_artifact download
  apply source =
      if not w.has_data_dir
      then (failed no_data_dir, empty_bundle)
      else if not w.has_client
      then (failed no_http_client, empty_bundle)
      else if w.clear_dir
      then (failed clear_bundle, empty_bundle)
      else if w.create_dir
      then (failed create_bundle, empty_bundle)
      else check_artifact source (download source.url)
