-- ===== src/Upgrade/Installer.antt =====
-- agent/internal/upgrade/installer.go: the installation of a binary, and its rollback.
-- The paths are the target, its backup and its temporary file; what os.Executable and EvalSymlinks
-- say of the target's path is left out but for their error.
pub mod Recovery
mod Tests
use ping_santo.Prelude.{ℕ, ◌||◌, if◌then◌else◌, Bool, true, false, Option, none, some, List, take}

-- A file with its mode
pub record Binary : Type 0 where
  pub bytes : List ℕ
  pub mode : ℕ

-- The files at the paths of an installation
pub record Disk : Type 0 where
  pub target : Option Binary
  pub backup : Option Binary
  pub temp : Option Binary

-- What the calls do: `true` is an error other than that a file is missing. A failed copy leaves the
-- first `copied` bytes.
pub record InstallFaults : Type 0 where
  pub executable : Bool
  pub no_source : Bool
  pub irregular : Bool
  pub remove_temp : Bool
  pub stat_target : Bool
  pub remove_backup : Bool
  pub back_up : Bool
  pub open_source : Bool
  pub open_temp : Bool
  pub copy : Bool
  pub copied : ℕ
  pub sync : Bool
  pub chmod : Bool
  pub rename : Bool
  pub clean_up : Bool
  pub stat_backup : Bool
  pub restore : Bool

-- The errors of `Install` and `Rollback`, by the text that each is wrapped in.
pub data InstallError : Type 0 where
  determine_executable bad_source remove_temp_file remove_backup_file backup_binary
        stat_target_file :
      InstallError
  copy_source chmod_temp publish_binary stat_backup_file rollback_rename : InstallError

-- What the calls return; the paths of `InstallResult` are fixed.
pub data Installed : Type 0 where
  installed : Installed
  failed : InstallError → Installed

-- What is done when the copy, the mode or the last renaming fails.
unfoldable pub put_back : InstallFaults → Disk → Disk
put_back io d =
    let cleaned = if io.clean_up then d else record d { temp = none } in
    if io.stat_backup || io.restore then cleaned else elim d.backup [
      | none ↦ cleaned
      | some old ↦ record cleaned { target = some old; backup = none }
    ]

-- `copyFile`: whether it fails, and the temporary file
unfoldable pub copy_file : InstallFaults → Binary → Option Binary → Bool × Option Binary
copy_file io source temp =
    if io.open_source || io.open_temp
    then (true, temp)
    else if io.copy
    then (true, some (record source { bytes = take io.copied source.bytes }))
    else (io.sync, some source)

-- `targetMode`: 0o755 where there is no target
unfoldable pub target_mode : Option Binary → ℕ
target_mode none = 493
target_mode (some old) = old.mode

-- What follows the copy in `Install`, with what `copyFile` did and the mode of the target
unfoldable pub publish_copy :
    InstallFaults → Binary → ℕ → Bool × Option Binary → Disk → Installed × Disk
unfolding put_back
publish_copy io source mode (true, temp) d =
    (failed copy_source, put_back io (record d { temp = temp }))
publish_copy io source mode (false, temp) d =
    if io.chmod
    then (failed chmod_temp, put_back io (record d { temp = temp }))
    else if io.rename
    then (
      failed publish_binary,
      put_back io (record d { temp = some (record source { mode = mode }) }),
    )
    else (installed, record d { target = some (record source { mode = mode }); temp = none })

-- What follows the backup
unfoldable pub install_copy : InstallFaults → Binary → ℕ → Disk → Installed × Disk
unfolding copy_file publish_copy
install_copy io source mode d = publish_copy io source mode (copy_file io source d.temp) d

-- The backup of the target, if there is one, and what follows
unfoldable pub back_up_and_copy : InstallFaults → Binary → Option Binary → Disk → Installed × Disk
unfolding install_copy target_mode
back_up_and_copy io source none d = install_copy io source (target_mode none) d
back_up_and_copy io source (some old) d =
    if io.remove_backup
    then (failed remove_backup_file, d)
    else if io.back_up
    then (failed backup_binary, record d { backup = none })
    else install_copy io source (target_mode (some old))
        (record d { target = none; backup = some old })

-- `Install` of a source file
unfoldable pub install : InstallFaults → Binary → Disk → Installed × Disk
unfolding back_up_and_copy
install io source d =
    if io.executable
    then (failed determine_executable, d)
    else if io.no_source || io.irregular
    then (failed bad_source, d)
    else if io.remove_temp
    then (failed remove_temp_file, d)
    else if io.stat_target
    then (failed stat_target_file, record d { temp = none })
    else back_up_and_copy io source d.target (record d { temp = none })

-- `Rollback` of an installation that succeeded
unfoldable pub rollback : InstallFaults → Disk → Installed × Disk
rollback io d = if io.stat_backup then (failed stat_backup_file, d) else elim d.backup [
  | none ↦ (installed, d)
  | some old ↦
      if io.restore
      then (failed rollback_rename, d)
      else (installed, record d { target = some old; backup = none })
]
