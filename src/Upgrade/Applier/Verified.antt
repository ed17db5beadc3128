-- ===== src/Upgrade/Applier/Verified.antt =====
-- Nothing is unpacked that was not verified.
use Prim.Native.String.{String}
use ping_santo.Prelude.{
  ℕ, ◌≡◌, ◌⊎◌, inl, inr, refl, sym, ap, not, if◌then◌else◌, Bool, true, false, Bool-cases, Option,
  none, some, List, [], arith,
}
use ping_santo.Prelude.Texts.{same, same_iff}
use ping_santo.Upgrade.Applier.{
  Source, Extracted, World, ApplyError, Bundle, Applied, failed, bad_archive, empty_bundle,
  no_data_dir, no_http_client, clear_bundle, create_bundle, bad_download, bad_digest, bad_signature,
  create_extract, no_binary, download, verify_sha256, verify_signature, extract_tar_gz, find_binary,
  found_or, finish, unpack_artifact, check_signature, check_artifact, apply,
}

module _ (w : World) where
  -- The plan has no digest, or the artifact's digest is the plan's, up to case and white space.
  abbrev pub HasDigest : List ℕ → Source → Type 0
  HasDigest bytes source =
      (source.sha256 ≡ "") ⊎ (w.equal_fold (w.trim_space source.sha256) (w.digest bytes) ≡ true)

  abbrev pub Accepts : Option (List ℕ → List ℕ → Bool) → List ℕ → List ℕ → Type 0
  Accepts none bytes sig = Unit
  Accepts (some verify) bytes sig = verify bytes sig ≡ false

  -- The plan has no signature, or its signature was downloaded, and the verifier, if there is one,
  -- accepts it.
  abbrev pub IsSigned : List ℕ → Source → Type 0
  IsSigned bytes source =
      (source.signature_url ≡ "")
      ⊎ ((sig : List ℕ) × (download w source.signature_url ≡ some sig)
          × Accepts w.verifier bytes sig)

  -- What comes of the extraction of `bytes`
  abbrev pub Unpacked : List ℕ → Applied × Bundle → Type 0
  Unpacked bytes (r, b) =
      (b.extracted ≡ (extract_tar_gz w bytes).1)
      × (((r ≡ failed bad_archive) × ((extract_tar_gz w bytes).0 ≡ true))
          ⊎ ((r ≡ found_or w (find_binary w b.extracted)) × ((extract_tar_gz w bytes).0 ≡ false)))

  -- Why a run stops before the extraction
  abbrev pub Because : Source → ApplyError → Type 0
  Because source no_data_dir = w.has_data_dir ≡ false
  Because source no_http_client = w.has_client ≡ false
  Because source clear_bundle = w.clear_dir ≡ true
  Because source create_bundle = w.create_dir ≡ true
  Because source bad_download =
      (download w source.url ≡ none) ⊎ (download w source.signature_url ≡ none)
  Because source bad_digest =
      (bytes : List ℕ) × (download w source.url ≡ some bytes)
      × (verify_sha256 w bytes source.sha256 ≡ true)
  Because source bad_signature =
      (bytes sig : List ℕ) × (download w source.url ≡ some bytes)
      × (download w source.signature_url ≡ some sig)
      × (verify_signature w bytes sig ≡ true)
  Because source create_extract = w.create_extract_dir ≡ true
  Because source bad_archive = ⊥
  Because source no_binary = ⊥

  -- Nothing was extracted, and there is an error, with its cause.
  abbrev pub Stopped : Source → Applied × Bundle → Type 0
  Stopped source (r, b) =
      ((e : ApplyError) × (r ≡ failed e) × Because source e) × (b.extracted ≡ [])

  digest_lem :
      (bytes : List ℕ) (source : Source)
      → verify_sha256 w bytes source.sha256 ≡ false
      → HasDigest bytes source
  unfolding verify_sha256
  digest_lem bytes source e = elim (Bool-cases (same source.sha256 "")) [
    | inl empty ↦ inl ((same_iff source.sha256 "").0 empty)
    | inr given ↦ inr (ground (arith, e, given))
  ]

  accepts_lem :
      (bytes sig : List ℕ) → verify_signature w bytes sig ≡ false → Accepts w.verifier bytes sig
  unfolding verify_signature
  accepts_lem bytes sig e = go w.verifier e
    where
      go :
          (v : Option (List ℕ → List ℕ → Bool))
          → elim v [ none ↦ false | some verify ↦ verify bytes sig ] ≡ false
          → Accepts v bytes sig
      go none h = tt
      go (some verify) h = h

  finish-Unpacked :
      (bytes : List ℕ) (x : Bool × List (String × Extracted)) (b : Bundle)
      → x ≡ extract_tar_gz w bytes
      → Unpacked bytes (finish w x b)
  unfolding finish
  finish-Unpacked bytes (true, files) b e = (ap (λ y. y.1) e, inl (refl, ap (λ y. y.0) (sym e)))
  finish-Unpacked bytes (false, files) b e = (ap (λ y. y.1) e, inr (refl, ap (λ y. y.0) (sym e)))

  -- What comes of a verified artifact
  abbrev Ends : Source → List ℕ → Applied × Bundle → Type 0
  Ends source bytes x = Stopped source x ⊎ Unpacked bytes x

  unpack-Ends :
      (source : Source) (bytes : List ℕ) (b : Bundle)
      → b.extracted ≡ []
      → Ends source bytes (unpack_artifact w bytes b)
  unfolding unpack_artifact
  unpack-Ends source bytes b e = elim (Bool-cases w.create_extract_dir) [
    | inl f ↦ rw f (inl ((create_extract, refl, refl), e))
    | inr f ↦ rw f (inr (finish-Unpacked bytes (extract_tar_gz w bytes) b refl))
  ]

  -- A run stops early, or what it extracts was downloaded from the plan's URL and verified.
  abbrev pub Checked : Source → Applied × Bundle → Type 0
  Checked source x =
      Stopped source x
      ⊎ ((bytes : List ℕ) × (download w source.url ≡ some bytes)
          × HasDigest bytes source
          × IsSigned bytes source
          × Unpacked bytes x)

  with_checks :
      (source : Source) (bytes : List ℕ) (x : Applied × Bundle)
      → download w source.url ≡ some bytes
      → HasDigest bytes source
      → IsSigned bytes source
      → Ends source bytes x
      → Checked source x
  with_checks source bytes x e digest signed (inl stopped) = inl stopped
  with_checks source bytes x e digest signed (inr unpacked) =
      inr (bytes, e, digest, signed, unpacked)

  check_signature-Checked :
      (source : Source) (bytes : List ℕ) (b : Bundle) (sig : Option (List ℕ))
      → download w source.url ≡ some bytes
      → HasDigest bytes source
      → download w source.signature_url ≡ sig
      → b.extracted ≡ []
      → Checked source (check_signature w bytes sig b)
  unfolding check_signature
  check_signature-Checked source bytes b none e digest f nil =
      inl ((bad_download, refl, inr f), nil)
  check_signature-Checked source bytes b (some sig) e digest f nil =
      elim (Bool-cases (verify_signature w bytes sig)) [
        | inl refuses ↦ rw refuses (inl ((bad_signature, refl, (bytes, sig, e, f, refuses)), nil))
        | inr accepts ↦ rw accepts (
            with_checks source bytes (unpack_artifact w bytes (record b { signature = some sig })) e
              digest (inr (sig, f, accepts_lem bytes sig accepts))
              (unpack-Ends source bytes (record b { signature = some sig }) nil))
      ]

  check_artifact-Checked :
      (source : Source) (artifact : Option (List ℕ))
      → download w source.url ≡ artifact
      → Checked source (check_artifact w source artifact)
  unfolding check_artifact
  check_artifact-Checked source none e = inl ((bad_download, refl, inl e), refl)
  check_artifact-Checked source (some bytes) e =
      let b : Bundle = record empty_bundle { artifact = some bytes } in
      elim (Bool-cases (verify_sha256 w bytes source.sha256)) [
        | inl differs ↦ rw differs (inl ((bad_digest, refl, (bytes, e, differs)), refl))
        | inr fits ↦
            let digest = digest_lem bytes source fits in
            rw fits (elim (Bool-cases (same source.signature_url "")) [
              | inl unsigned ↦ rw unsigned (
                  with_checks source bytes (unpack_artifact w bytes b) e digest
                    (inl ((same_iff source.signature_url "").0 unsigned))
                    (unpack-Ends source bytes b refl))
              | inr signed ↦ rw signed (
                  check_signature-Checked source bytes b (download w source.signature_url) e digest
                    refl refl)
            ])
      ]

  -- A test at the start of `Apply`
  guarded :
      (source : Source) (b : Bool) (e : ApplyError) (rest : Applied × Bundle)
      → (b ≡ true → Because source e)
      → Checked source rest
      → Checked source (if b then (failed e, empty_bundle) else rest)
  guarded source true e rest cause checked = inl ((e, refl, cause refl), refl)
  guarded source false e rest cause checked = checked

  -- `Apply` stops before anything is extracted, with an error that has its cause, or it extracts what was downloaded from
  -- the plan's URL, after its digest and its signature were checked, each where the plan has one.
  -- Then it fails if the archive is bad, and else gives the binary that is found among the
  -- files, or fails if there is none.
  pub apply-IsVerified : (source : Source) → Checked source (apply w source)
  unfolding apply
  apply-IsVerified source =
      guarded source (not w.has_data_dir) no_data_dir _ (λ f. ground (arith, f))
        (guarded source (not w.has_client) no_http_client _ (λ f. ground (arith, f))
          (guarded source w.clear_dir clear_bundle _ (λ f. f)
            (guarded source w.create_dir create_bundle _ (λ f. f)
              (check_artifact-Checked source (download w source.url) refl))))
