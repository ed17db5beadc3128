-- ===== src/Config.antt =====
-- agent/internal/config/state.go and config_writer.go: the agent's state file and its signed
-- configuration. YAML is a parameter, and so is the type of the state.
pub mod Commits
mod Tests
use Prim.Native.String.{String}
use ping_santo.Prelude.{
  ℕ, if◌then◌else◌, ◌||◌, Bool, true, false, Option, none, some, List, [], ◌∷◌, take,
}
use ping_santo.Prelude.Texts.{join}
use ping_santo.Prelude.Maps.{find, insert, remove}

abbrev pub Files : Type 0
Files = List (String × List ℕ)

-- What the calls of one method do: `true` is an error. A file that could be opened and not written
-- has the first `written` bytes. An error of `stat` is one other than that there is no file.
pub record StateFaults : Type 0 where
  pub mkdir : Bool
  pub stat : Bool
  pub open_temp : Bool
  pub write : Bool
  pub written : ℕ
  pub rename : Bool

-- The errors, by the text that they begin with
pub data StateError : Type 0 where
  ensure_dir already_exists check_file marshal_state write_temp commit_file : StateError

pub data Committed : Type 0 where
  committed : Committed
  not_committed : StateError → Committed

-- What `LoadState` returns: a state, or an error of reading or of parsing.
pub data Loaded (D : Type 0) : Type 0 where
  loaded : D → Loaded D
  unread unparsed : Loaded D

-- `yaml.Marshal` and `yaml.Unmarshal` at the state
pub record Yaml (D : Type 0) : Type 0 where
  pub marshal : D → Option (List ℕ)
  pub unmarshal : List ℕ → Option D

-- `os.WriteFile` of the temporary file and `os.Rename`
unfoldable pub commit : StateFaults → String → List ℕ → Files → Committed × Files
commit io path data_bytes files =
    let tmp = join path ".tmp" in
    if io.open_temp
    then (not_committed write_temp, files)
    else if io.write
    then (not_committed write_temp, insert tmp (take io.written data_bytes) files)
    else if io.rename
    then (not_committed commit_file, insert tmp data_bytes files)
    else (committed, insert path data_bytes (remove tmp files))

-- `WriteSignedConfig`; `here` says that the directory of the path is ".".
unfoldable pub write_signed_config :
    StateFaults → Bool → String → List ℕ → Files → Committed × Files
unfolding commit
write_signed_config io here path [] files = (committed, files)
write_signed_config io here path (b ∷ bs) files =
    if here
    then commit io path (b ∷ bs) files
    else if io.mkdir
    then (not_committed ensure_dir, files)
    else commit io path (b ∷ bs) files

module _ {D : Type 0} (yaml : Yaml D) where
  abbrev pub parsed : Option D → Loaded D
  parsed none = unparsed
  parsed (some d) = loaded d

  abbrev pub read : Option (List ℕ) → Loaded D
  read none = unread
  read (some data_bytes) = parsed (yaml.unmarshal data_bytes)

  -- `LoadState`; `fails` is an error of reading a file that is there.
  unfoldable pub load_state : Bool → String → Files → Loaded D
  load_state fails path files = if fails then unread else read (find path files)

  -- From the marshalling on, which `SaveState` and `UpdateState` share
  unfoldable pub commit_state : StateFaults → String → Option (List ℕ) → Files → Committed × Files
  unfolding commit
  commit_state io path none files = (not_committed marshal_state, files)
  commit_state io path (some data_bytes) files = commit io path data_bytes files

  -- `UpdateState`
  unfoldable pub update_state : StateFaults → String → D → Files → Committed × Files
  unfolding commit_state
  update_state io path d files =
      if io.mkdir
      then (not_committed ensure_dir, files)
      else commit_state io path (yaml.marshal d) files

  -- The part of `SaveState` that looks for an older file
  unfoldable pub save_new : StateFaults → String → D → Option (List ℕ) → Files → Committed × Files
  unfolding commit_state
  save_new io path d (some old) files = (not_committed already_exists, files)
  save_new io path d none files = commit_state io path (yaml.marshal d) files

  -- `SaveState`
  unfoldable pub save_state : StateFaults → String → D → Files → Committed × Files
  unfolding save_new
  save_state io path d files =
      if io.mkdir
      then (not_committed ensure_dir, files)
      else if io.stat
      then (not_committed check_file, files)
      else save_new io path d (find path files) files
