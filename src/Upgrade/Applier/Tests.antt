-- ===== src/Upgrade/Applier/Tests.antt =====
-- A plan without a signature, and one whose signature is refused.
use ping_santo.Prelude.{◌≡◌, refl, true, false, some, [], ◌∷◌}
use ping_santo.Prelude.Texts.{same}
use ping_santo.Prelude.Maps.{find, insert}
use ping_santo.Upgrade.Applier.{
  Source, World, reply, regular, applied, failed, bad_signature, apply,
}
use ping_santo.Upgrade.Applier.Verified.{Checked, apply-IsVerified}

-- The archive of the byte 7 has one executable file. The verifier refuses every signature.
abbrev world : World
world = record {
  has_data_dir = true;
  has_client = true;
  clear_dir = false;
  create_dir = false;
  get = λ url. reply 200 (7 ∷ []) false;
  write_file = λ url. false;
  digest = λ bytes. "d";
  trim_space = λ s. s;
  equal_fold = same;
  open_artifact = false;
  hash_fails = false;
  verifier = some (λ bytes sig. true);
  create_extract_dir = false;
  open_archive = false;
  unpack = λ bytes. some (
    (record { name = "bin"; kind = regular; mode = 493; bytes = 8 ∷ []; broken = false }) ∷ [],
    false,
  );
  path_of = λ name. name;
  make_dir = λ path. false;
  create_file = λ path. false;
  created_mode = λ mode. mode;
  close_file = λ path. false;
  walk = λ files. some files;
  base_name = λ path. path;
}

abbrev unsigned : Source
unsigned = record { version = "2.0"; url = "u"; sha256 = "d"; signature_url = "" }

-- A plan that leaves the signature out is applied, although there is a verifier.
unsigned_run : (apply world unsigned).0 ≡ applied "bin"
unfolding apply insert find
unsigned_run = refl

signed_run : (apply world (record unsigned { signature_url = "s" })).0 ≡ failed bad_signature
unfolding apply
signed_run = refl

apply-IsVerified_example : Checked world unsigned (apply world unsigned)
apply-IsVerified_example = apply-IsVerified world unsigned
