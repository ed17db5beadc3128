-- ===== src/Artifacts/Tests.antt =====
-- The artifact stores at concrete uploads, with texts that need no trimming.
use Prim.Native.String.{String}
use ping_santo.Prelude.{ℕ, ◌≡◌, ◌≢◌, refl, true, false, some, List, [], ◌∷◌, arith}
use ping_santo.Prelude.Texts.{same_iff}
use ping_santo.Artifacts.Names.{Formats, artifact_name, signature_name, stem, sanitized_base}
use ping_santo.Artifacts.{Reader, SaveRequest}
use ping_santo.Artifacts.Memory.{MemoryStore, save, meta_of, open_artifact, content}
use ping_santo.Artifacts.Files.{FileFaults, save_file, temporary}
use ping_santo.Artifacts.Saves.{signature_replaced}
use ping_santo.Artifacts.Safety.{own_name, sig_name, Whole, save_file-Whole}

abbrev plain : Formats
plain = record { trim_space = λ s. s; to_lower = λ s. s; decimal = λ n. "7" }

abbrev digest : List ℕ → String
digest bytes = "digest"

abbrev reads : List ℕ → Reader
reads bytes = record { bytes = bytes; broken = false }

abbrev upload : String → ℕ → SaveRequest
upload version n = record {
  version = version;
  artifact = some (reads (n ∷ []));
  artifact_name = "agent.tar.gz";
  signature = some (reads (100 ∷ n ∷ []));
  signature_name = "agent.sig";
}

abbrev empty : MemoryStore
empty = record { files = []; metadata = [] }

-- The last part of a version is taken for an extension.
names : artifact_name plain "1.2.3" "agent.tar.gz" 0 ≡ "1.2-7.tar.gz"
unfolding artifact_name
names = refl

signature_replaced_example :
    content (
      open_artifact 9
        (meta_of plain digest 1 2 (upload "1.2.3" 5) (5 ∷ [])).signature_name
        (save plain digest 3 4
          (upload "1.3.0" 6)
          (save plain digest 1 2 (upload "1.2.3" 5) empty).1).1)
    ≡ some (100 ∷ 6 ∷ [])
unfolding stem sanitized_base
signature_replaced_example =
    signature_replaced plain digest 1 3 2 4 9 (upload "1.2.3" 5) (upload "1.3.0" 6) (5 ∷ [])
      (reads (6 ∷ [])) (reads (100 ∷ 5 ∷ [])) (reads (100 ∷ 6 ∷ []))
      (save plain digest 1 2 (upload "1.2.3" 5) empty).1 refl refl refl refl refl refl refl

-- The rename of the signature fails.
abbrev io : FileFaults
io = record {
  create = false;
  write = false;
  written = 0;
  sync = false;
  close = false;
  rename = false;
  clean_up = false;
}

abbrev sig_io : FileFaults
sig_io = record io { rename = true }

artifact_apart :
    temporary (own_name plain digest io sig_io 1 2 (upload "1.2.3" 5) "1.sig") ≢ "1.sig"
unfolding artifact_name
artifact_apart e = ground (arith, (same_iff "1.2-7.tar.gz.tmp" "1.sig").1 e)

sig_apart : temporary (sig_name plain digest io sig_io 1 2 (upload "1.2.3" 5) "1.sig") ≢ "1.sig"
unfolding artifact_name signature_name
sig_apart e = ground (arith, (same_iff "1.sig.tmp" "1.sig").1 e)

save_file-Whole_example :
    Whole plain digest io sig_io 1 2
      (upload "1.2.3" 5)
      "1.sig"
      (some (reads (5 ∷ [])))
      (some (reads (100 ∷ 5 ∷ [])))
      []
      (save_file plain digest io sig_io 1 2 (upload "1.2.3" 5) [])
save_file-Whole_example =
    save_file-Whole plain digest io sig_io 1 2 (upload "1.2.3" 5) "1.sig" [] artifact_apart
      sig_apart
