-- ===== src/Upgrade/Installer/Tests.antt =====
-- Installations that succeed and fail.
use ping_santo.Prelude.{◌≡◌, refl, true, none, some, [], ◌∷◌}
use ping_santo.Upgrade.Installer.{Binary, Disk, InstallFaults, failed, publish_binary, install}
use ping_santo.Upgrade.Installer.Recovery.{calm, Keeps, is_failed, install-Keeps}

abbrev old : Binary
old = record { bytes = 1 ∷ []; mode = 493 }

abbrev new : Binary
new = record { bytes = 2 ∷ []; mode = 420 }

abbrev disk : Disk
disk = record { target = some old; backup = none; temp = some new }

-- The last renaming fails.
abbrev unlucky : InstallFaults
unlucky = record calm { rename = true }

install-Keeps_example :
    (is_failed (install unlucky new disk).0 ≡ true)
    × Keeps unlucky new old (install unlucky new disk)
install-Keeps_example = install-Keeps unlucky new old disk refl

put_back_run :
    install unlucky new disk
    ≡ (failed publish_binary, record { target = some old; backup = none; temp = none })
unfolding install
put_back_run = refl

-- Where there was no target, a failure puts an older backup there.
stale_backup :
    install unlucky new (record { target = none; backup = some old; temp = none })
    ≡ (failed publish_binary, record { target = some old; backup = none; temp = none })
unfolding install
stale_backup = refl
