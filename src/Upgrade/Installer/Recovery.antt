-- ===== src/Upgrade/Installer/Recovery.antt =====
-- The binary that was installed before is kept.
use ping_santo.Prelude.{
  arith, ℕ, ap, ◌∙◌, ◌≡◌, ◌⊎◌, inl, inr, refl, sym, ◌||◌, if◌then◌else◌, Bool, true, false,
  Bool-cases, Option, none, some,
}
use mathlib.Core.Path.{subst}
use ping_santo.Upgrade.Installer.{
  copy_source, chmod_temp, publish_binary, Binary, Disk, InstallFaults, InstallError, Installed,
  installed, failed, put_back, copy_file, publish_copy, install_copy, back_up_and_copy, target_mode,
  install, rollback,
}

-- Every call succeeds.
abbrev pub calm : InstallFaults
calm = record {
  executable = false;
  no_source = false;
  irregular = false;
  remove_temp = false;
  stat_target = false;
  remove_backup = false;
  back_up = false;
  open_source = false;
  open_temp = false;
  copy = false;
  copied = 0;
  sync = false;
  chmod = false;
  rename = false;
  clean_up = false;
  stat_backup = false;
  restore = false;
}

-- One of the calls that `Install` looks at fails.
abbrev pub is_faulty : InstallFaults → Bool
is_faulty io =
    io.executable || io.no_source || io.irregular || io.remove_temp || io.stat_target
    || io.remove_backup || io.back_up || io.open_source || io.open_temp || io.copy || io.sync
    || io.chmod || io.rename

-- What is left of the binary `old`. It is the target after a failure, unless it could not be put
-- back; then it is the backup. After a success the source is the target, with the mode of `old`,
-- and `old` is the backup, which a rollback puts back.
abbrev pub Keeps : InstallFaults → Binary → Binary → Installed × Disk → Type 0
Keeps io source old (installed, d) =
    (d.target ≡ some (record source { mode = old.mode }))
    × (d.backup ≡ some old)
    × (d.temp ≡ none)
    × ((rollback calm d).1.target ≡ some old)
Keeps io source old (failed e, d) =
    (d.target ≡ some old) ⊎ ((d.backup ≡ some old) × ((io.stat_backup || io.restore) ≡ true))

put_back-Keeps :
    (io : InstallFaults) (source old : Binary) (e : InstallError) (temp : Option Binary)
    → Keeps io source old
        (failed e, put_back io (record { target = none; backup = some old; temp = temp }))
unfolding put_back
put_back-Keeps io source old e temp = elim (Bool-cases (io.stat_backup || io.restore)) [
  | inr works ↦ rw works (inl refl)
  | inl fails ↦ rw fails (inr (kept io.clean_up, refl))
]
  where
    kept :
        (b : Bool)
        → let d : Disk = record { target = none; backup = some old; temp = temp } in
          let cleaned : Disk = if b then d else record d { temp = none } in
          cleaned.backup ≡ some old
    kept true = refl
    kept false = refl

publish_copy-Keeps :
    (io : InstallFaults) (source old : Binary) (copied : Bool × Option Binary)
    (temp : Option Binary)
    → Keeps io source old (
        publish_copy io source old.mode copied
          (record { target = none; backup = some old; temp = temp }))
unfolding publish_copy
publish_copy-Keeps io source old (true, copied) temp =
    put_back-Keeps io source old copy_source copied
publish_copy-Keeps io source old (false, copied) temp = elim (Bool-cases io.chmod) [
  | inl e ↦ rw e (put_back-Keeps io source old chmod_temp copied)
  | inr e ↦ rw e (elim (Bool-cases io.rename) [
    | inl f ↦
        rw f
          (put_back-Keeps io source old publish_binary (some (record source { mode = old.mode })))
    | inr f ↦ rw f (refl, refl, refl, unfold rollback in refl)
  ])
]

back_up_and_copy-Keeps :
    (io : InstallFaults) (source old : Binary) (d : Disk)
    → d.target ≡ some old
    → Keeps io source old (back_up_and_copy io source (some old) d)
unfolding back_up_and_copy install_copy target_mode
back_up_and_copy-Keeps io source old d e = elim (Bool-cases io.remove_backup) [
  | inl f ↦ rw f (inl e)
  | inr f ↦ rw f (elim (Bool-cases io.back_up) [
    | inl g ↦ rw g (inl e)
    | inr g ↦ rw g (publish_copy-Keeps io source old (copy_file io source d.temp) d.temp)
  ])
]

install-Keeps_lem :
    (io : InstallFaults) (source old : Binary) (d : Disk)
    → d.target ≡ some old
    → Keeps io source old (install io source d)
unfolding install
install-Keeps_lem io source old d e = elim (Bool-cases io.executable) [
  | inl f ↦ rw f (inl e)
  | inr f ↦ rw f (elim (Bool-cases (io.no_source || io.irregular)) [
    | inl f ↦ rw f (inl e)
    | inr f ↦ rw f (elim (Bool-cases io.remove_temp) [
      | inl f ↦ rw f (inl e)
      | inr f ↦ rw f (elim (Bool-cases io.stat_target) [
        | inl f ↦ rw f (inl e)
        | inr f ↦ rw f (
            subst
              (λ o. Keeps io source old (back_up_and_copy io source o (record d { temp = none })))
              (sym e) (back_up_and_copy-Keeps io source old (record d { temp = none }) e))
      ])
    ])
  ])
]

abbrev pub is_failed : Installed → Bool
is_failed installed = false
is_failed (failed e) = true

copy_file-fails :
    (io : InstallFaults) (source : Binary) (temp : Option Binary)
    → (copy_file io source temp).0 ≡ (io.open_source || io.open_temp || io.copy || io.sync)
unfolding copy_file
copy_file-fails io source temp = ground arith

publish_copy-fails :
    (io : InstallFaults) (source : Binary) (mode : ℕ) (p : Bool × Option Binary) (d : Disk)
    → is_failed (publish_copy io source mode p d).0 ≡ (p.0 || io.chmod || io.rename)
unfolding publish_copy
publish_copy-fails io source mode (true, temp) d = refl
publish_copy-fails io source mode (false, temp) d = ground arith

back_up_and_copy-fails :
    (io : InstallFaults) (source old : Binary) (d : Disk)
    → is_failed (back_up_and_copy io source (some old) d).0 ≡ (
        io.remove_backup || io.back_up || io.open_source || io.open_temp || io.copy || io.sync
        || io.chmod || io.rename)
unfolding back_up_and_copy install_copy
back_up_and_copy-fails io source old d =
    let backed : Disk = record d { target = none; backup = some old } in
    ground (
      arith,
      publish_copy-fails io source (target_mode (some old)) (copy_file io source d.temp) backed,
      copy_file-fails io source d.temp,
    )

install-fails :
    (io : InstallFaults) (source old : Binary) (d : Disk)
    → d.target ≡ some old
    → is_failed (install io source d).0 ≡ is_faulty io
unfolding install
install-fails io source old d e =
    let rest : is_failed (back_up_and_copy io source d.target (record d { temp = none })).0 ≡ (
        io.remove_backup || io.back_up || io.open_source || io.open_temp || io.copy || io.sync
        || io.chmod || io.rename) =
      ap (λ o. is_failed (back_up_and_copy io source o (record d { temp = none })).0) e
      ∙ back_up_and_copy-fails io source old (record d { temp = none }) in
    ground (arith, rest)

-- Installing over a binary fails just when one of the calls fails, and never loses the binary. If it
-- succeeds, the source is the target, with the mode of the old binary, and the old binary is the
-- backup, which a Rollback without faults makes the target again. If it fails, the old binary is
-- the target again, or putting it back failed, and then it is the backup.
pub install-Keeps :
    (io : InstallFaults) (source old : Binary) (d : Disk)
    → d.target ≡ some old
    → (is_failed (install io source d).0 ≡ is_faulty io) × Keeps io source old (install io source d)
install-Keeps io source old d e =
    (install-fails io source old d e, install-Keeps_lem io source old d e)
