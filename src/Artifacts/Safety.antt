-- ===== src/Artifacts/Safety.antt =====
-- What FileStore.Save leaves in the directory, whatever fails.
use Prim.Native.String.{String}
use ping_santo.Prelude.{
  ℕ, ◌≡◌, ◌≢◌, ◌⊎◌, inl, inr, refl, ◌∙◌, Bool, true, false, ◌||◌, ap, if◌then◌else◌, Bool-cases,
  Option, none, some, List, take, arith,
}
use ping_santo.Prelude.Texts.{same, same_iff}
use ping_santo.Prelude.Maps.{find, insert, remove, find-insert, find-remove}
use ping_santo.Artifacts.Names.{Formats, artifact_name, signature_name}
use ping_santo.Artifacts.{Saved, saved, refused, Reader, SaveRequest, Meta}
use ping_santo.Artifacts.Files.{
  Files, FileFaults, temporary, discard, publish, publish_signature, publish_artifact, save_file,
  file_meta, failed_or, unless_failed,
}

not_same : (s k : String) → s ≢ k → same s k ≡ false
not_same s k differ = ground (arith, same_iff s k)

-- One of the calls of `publish` fails, or the reader does.
abbrev pub fails : FileFaults → Reader → Bool
fails io reader = io.create || (io.write || reader.broken) || (io.sync || io.close || io.rename)

abbrev pub unsynced : FileFaults → FileFaults
unsynced io = record io { sync = false }

-- A save has no artifact to read, or a call or a reader of it fails.
abbrev pub save_fails : FileFaults → FileFaults → Option Reader → Option Reader → Bool
save_fails io sig_io none sig = true
save_fails io sig_io (some reader) none = fails io reader
save_fails io sig_io (some reader) (some sig) = fails io reader || fails (unsynced sig_io) sig

-- What is at `k` after the bytes of a reader, if there is one, are put at `name`.
abbrev pub after : String → Option Reader → String → Option (List ℕ) → Option (List ℕ)
after name none k old = old
after name (some reader) k old = if same name k then some reader.bytes else old

-- A failure leaves every file but the temporary one as it was.
abbrev pub Published : Bool → String → Reader → String → Files → Bool × Files → Type 0
Published faulty name reader k files (true, files') =
    (faulty ≡ true) × (find k files' ≡ find k files)
Published faulty name reader k files (false, files') =
    (faulty ≡ false) × (find k files' ≡ after name (some reader) k (find k files))

find-discard :
    (io : FileFaults) (name k : String) (bytes : List ℕ) (files : Files)
    → temporary name ≢ k
    → find k (discard io name (insert (temporary name) bytes files)) ≡ find k files
unfolding discard
find-discard io name k bytes files other =
    let apart = not_same (temporary name) k other in
    ground (
      arith,
      find-remove k (temporary name) (insert (temporary name) bytes files),
      find-insert k (temporary name) bytes files,
    )

published :
    (name : String) (reader : Reader) (k : String) (files : Files)
    → temporary name ≢ k
    → find k (
        insert name reader.bytes
          (remove (temporary name) (insert (temporary name) reader.bytes files)))
      ≡ after name (some reader) k (find k files)
published name reader k files other =
    let apart = not_same (temporary name) k other in
    find-insert k name reader.bytes
      (remove (temporary name) (insert (temporary name) reader.bytes files))
    ∙ ap (λ o. if same name k then some reader.bytes else o)
        (find-remove k (temporary name) (insert (temporary name) reader.bytes files)
          ∙ rw apart (find-insert k (temporary name) reader.bytes files ∙ rw apart refl))

publish-Published :
    (io : FileFaults) (name : String) (reader : Reader) (files : Files) (k : String)
    → temporary name ≢ k
    → Published (fails io reader) name reader k files (publish io name reader files)
unfolding publish
publish-Published io name reader files k other =
    let part = find-discard io name k (take io.written reader.bytes) files other in
    let whole = find-discard io name k reader.bytes files other in
    elim (Bool-cases io.create) [
      | inl e ↦ rw e (refl, refl)
      | inr e ↦ rw e (elim (Bool-cases (io.write || reader.broken)) [
        | inl f ↦ rw f (refl, part)
        | inr f ↦ rw f (elim (Bool-cases (io.sync || io.close || io.rename)) [
          | inl g ↦ rw g (refl, whole)
          | inr g ↦ rw g (refl, published name reader k files other)
        ])
      ])
    ]

module _ (t : Formats) (sha256 : List ℕ → String) (io sig_io : FileFaults) (seconds now : ℕ)
    (req : SaveRequest) (k : String) where
  -- The names that `Save` gives to its files
  abbrev pub own_name : String
  own_name = artifact_name t req.version req.artifact_name seconds

  abbrev pub sig_name : String
  sig_name = signature_name t req.version req.signature_name own_name

  -- A refused save leaves the file named `k` as it was, or all of the artifact in it; a save that
  -- is not refused puts all of both files in place.
  abbrev pub Whole : Option Reader → Option Reader → Files → Saved × Files → Type 0
  Whole artifact sig files (refused e, files') =
      (save_fails io sig_io artifact sig ≡ true)
      × ((find k files' ≡ find k files)
          ⊎ (find k files' ≡ after own_name artifact k (find k files)))
  Whole artifact sig files (saved meta, files') =
      (save_fails io sig_io artifact sig ≡ false)
      × (find k files' ≡ after sig_name sig k (after own_name artifact k (find k files)))

  then_signed :
      (reader sig : Reader) (files files₁ : Files) (meta : Meta) (p : Bool × Files)
      → fails io reader ≡ false
      → find k files₁ ≡ after own_name (some reader) k (find k files)
      → Published (fails (unsynced sig_io) sig) sig_name sig k files₁ p
      → Whole (some reader) (some sig) files (failed_or t sha256 p meta)
  then_signed reader sig files files₁ meta (true, files') works own (broke, kept) =
      (rw works broke, inr (kept ∙ own))
  then_signed reader sig files files₁ meta (false, files') works own (works', put) =
      (rw works works', put ∙ ap (after sig_name (some sig) k) own)

  signature-Whole :
      (reader : Reader) (sig : Option Reader) (files files₁ : Files)
      → temporary sig_name ≢ k
      → fails io reader ≡ false
      → find k files₁ ≡ after own_name (some reader) k (find k files)
      → Whole
          (some reader)
          sig
          files
          (publish_signature t sha256 sig_io now req own_name reader.bytes sig files₁)
  unfolding publish_signature
  signature-Whole reader none files files₁ other works own = (works, own)
  signature-Whole reader (some sig) files files₁ other works own =
      then_signed reader sig files files₁ (file_meta t sha256 now own_name sig_name reader.bytes)
        (publish (unsynced sig_io) sig_name sig files₁) works own
        (publish-Published (unsynced sig_io) sig_name sig files₁ k other)

  unsigned :
      (reader : Reader) (sig : Option Reader)
      → fails io reader ≡ true
      → save_fails io sig_io (some reader) sig ≡ true
  unsigned reader none broke = broke
  unsigned reader (some sig) broke = rw broke refl

  signed-Whole :
      (reader : Reader) (sig : Option Reader) (files : Files) (p : Bool × Files)
      → temporary sig_name ≢ k
      → Published (fails io reader) own_name reader k files p
      → Whole (some reader) sig files (
          unless_failed t sha256 p
            (publish_signature t sha256 sig_io now req own_name reader.bytes sig))
  signed-Whole reader sig files (true, files') other (broke, kept) =
      (unsigned reader sig broke, inl kept)
  signed-Whole reader sig files (false, files') other (works, own) =
      signature-Whole reader sig files files' other works own

  artifact-Whole :
      (artifact : Option Reader) (files : Files)
      → temporary own_name ≢ k
      → temporary sig_name ≢ k
      → Whole artifact req.signature files
          (publish_artifact t sha256 io sig_io seconds now req artifact files)
  unfolding publish_artifact
  artifact-Whole none files other other' = (refl, inl refl)
  artifact-Whole (some reader) files other other' =
      signed-Whole reader req.signature files (publish io own_name reader files) other'
        (publish-Published io own_name reader files k other)

  -- Save is refused just when there is no artifact or a call or a reader fails, and no part of an
  -- upload is seen then. For a name that is not one of the two temporary ones: a refused Save leaves
  -- the file of that name as it was, or all of the artifact's bytes if it is the artifact's name. A
  -- Save that is not refused puts all of the artifact's bytes at the artifact's name and then, if
  -- there is a signature, all of its bytes at the signature's name, and leaves other files as they
  -- were.
  pub save_file-Whole :
      (files : Files)
      → temporary own_name ≢ k
      → temporary sig_name ≢ k
      → Whole req.artifact req.signature files (save_file t sha256 io sig_io seconds now req files)
  unfolding save_file
  save_file-Whole files other other' = artifact-Whole req.artifact files other other'
