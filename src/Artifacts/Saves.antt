-- ===== src/Artifacts/Saves.antt =====
-- What the store in memory gives out after a Save.
use Prim.Native.String.{String}
use ping_santo.Prelude.{
  ℕ, ◌≡◌, ◌≢◌, ◌⊎◌, inl, inr, refl, sym, ap, ◌∙◌, if◌then◌else◌, ◌&&◌, ◌||◌, not, Bool, true, false,
  Bool-cases, Option, none, some, List, [], ◌∷◌, arith,
}
use mathlib.Core.Path.{subst}
use text.Mathlib.TextLemmas.{append-ne-nil_of_right_ne-nil, cons-ne-nil}
use ping_santo.Prelude.Texts.{same, same_iff, same_refl, join}
use ping_santo.Prelude.Maps.{find, insert, find-insert}
use ping_santo.Artifacts.Names.{
  Formats, stem, sanitized_base, signature_name, build_signature_name, artifact_name,
}
use ping_santo.Artifacts.{
  Reader, SaveRequest, Meta, opened, Saved, saved, refused, artifact_required, not_saved,
}
use ping_santo.Artifacts.Memory.{
  MemoryStore, signature_of, meta_of, store_files, save, save_signed, save_read, open_artifact,
  open_artifact-found, content, content-open_artifact,
}

abbrev pub signature_bytes : Option Reader → List ℕ
signature_bytes none = []
signature_bytes (some r) = r.bytes

-- Whether the reader of the signature ends in an error.
abbrev pub is_broken : Option Reader → Bool
is_broken none = false
is_broken (some r) = r.broken

-- What is open under the name `k` after the files of `meta` were stored.
abbrev pub after_save : Meta → List ℕ → List ℕ → String → Option (List ℕ) → Option (List ℕ)
after_save meta bytes sig k before =
    if not (same meta.signature_name "") && same meta.signature_name k
    then some sig
    else if same meta.artifact_name k
    then some bytes
    else before

same_join_nil : (s : String) → same (join s ".sig") "" ≡ false
same_join_nil s = elim (Bool-cases (same (join s ".sig") "")) [
  | inl e ↦ absurd (
      append-ne-nil_of_right_ne-nil s {t = ".sig"} (cons-ne-nil "." "sig")
        ((same_iff (join s ".sig") "").0 e))
  | inr e ↦ e
]

after_save_own :
    (meta : Meta) (bytes sig : List ℕ) (k : String) (before : Option (List ℕ))
    → meta.signature_name ≡ k
    → same k "" ≡ false
    → after_save meta bytes sig k before ≡ some sig
after_save_own meta bytes sig k before e some_name =
    let own : same meta.signature_name k ≡ true = rw e (same_refl k) in
    let named : same meta.signature_name "" ≡ false = rw e some_name in rw (named, own) refl

module _ (t : Formats) (sha256 : List ℕ → String) where
  find-store_files :
      (meta : Meta) (bytes sig : List ℕ) (m : MemoryStore) (k : String)
      → find k (store_files t sha256 meta bytes sig m).files
        ≡ after_save meta bytes sig k (find k m.files)
  unfolding store_files
  find-store_files meta bytes sig m k = elim (Bool-cases (same meta.signature_name "")) [
    | inl unsigned ↦ rw unsigned (find-insert k meta.artifact_name bytes m.files)
    | inr signed ↦ rw signed (
        find-insert k meta.signature_name sig (insert meta.artifact_name bytes m.files)
        ∙ ap (λ o. if same meta.signature_name k then some sig else o)
            (find-insert k meta.artifact_name bytes m.files))
  ]

  open-store_files :
      (later : ℕ) (meta : Meta) (bytes sig : List ℕ) (m : MemoryStore) (k : String)
      → content (open_artifact later k (store_files t sha256 meta bytes sig m))
        ≡ after_save meta bytes sig k (content (open_artifact later k m))
  open-store_files later meta bytes sig m k =
      content-open_artifact later k (store_files t sha256 meta bytes sig m)
      ∙ find-store_files meta bytes sig m k
      ∙ ap (after_save meta bytes sig k) (sym (content-open_artifact later k m))

  -- A save fails and changes nothing, or it stores what was read of both readers.
  abbrev Stores :
      ℕ → Meta → Reader → Option Reader → MemoryStore → String → Saved × MemoryStore → Type 0
  Stores later meta reader sig m k (r, m') =
      ((is_broken sig ≡ true) × (r ≡ refused not_saved) × (m' ≡ m))
      ⊎ ((is_broken sig ≡ false)
          × (r ≡ saved meta)
          × (content (open_artifact later k m')
              ≡ after_save meta reader.bytes (signature_bytes sig) k
                  (content (open_artifact later k m))))

  save_signed-Stores :
      (later : ℕ) (meta : Meta) (reader : Reader) (sig : Option Reader) (m : MemoryStore)
      (k : String)
      → Stores later meta reader sig m k (save_signed t sha256 sig meta reader.bytes m)
  unfolding save_signed
  save_signed-Stores later meta reader none m k =
      inr (refl, refl, open-store_files later meta reader.bytes [] m k)
  save_signed-Stores later meta reader (some sig) m k = elim (Bool-cases sig.broken) [
    | inl broken ↦ rw broken (inl (refl, refl, refl))
    | inr whole ↦
        rw whole (inr (refl, refl, open-store_files later meta reader.bytes sig.bytes m k))
  ]

  -- What `Save` does with the artifact's reader.
  abbrev pub Saves :
      ℕ → ℕ → ℕ → SaveRequest → Option Reader → MemoryStore → String → Saved × MemoryStore → Type 0
  Saves stamp now later req none m k (r, m') = (r ≡ refused artifact_required) × (m' ≡ m)
  Saves stamp now later req (some reader) m k (r, m') =
      let meta = meta_of t sha256 stamp now req reader.bytes in
      (((reader.broken || is_broken req.signature) ≡ true) × (r ≡ refused not_saved) × (m' ≡ m))
      ⊎ (((reader.broken || is_broken req.signature) ≡ false)
          × (r ≡ saved meta)
          × (content (open_artifact later k m')
              ≡ after_save meta reader.bytes (signature_bytes req.signature) k
                  (content (open_artifact later k m))))

  save_read-Saves :
      (stamp now later : ℕ) (req : SaveRequest) (artifact : Option Reader) (m : MemoryStore)
      → (k : String)
      → Saves stamp now later req artifact m k (save_read t sha256 stamp now req artifact m)
  unfolding save_read
  save_read-Saves stamp now later req none m k = (refl, refl)
  save_read-Saves stamp now later req (some reader) m k = elim (Bool-cases reader.broken) [
    | inl broken ↦ rw broken (inl (refl, refl, refl))
    | inr whole ↦ rw whole (
        save_signed-Stores later (meta_of t sha256 stamp now req reader.bytes) reader req.signature
          m k)
  ]

  -- Without an artifact `Save` refuses. With one it fails and changes nothing just when a reader ends
  -- in an error, and else returns the description of the artifact. Then the signature, if there is one, is what is open under the
  -- signature's name, and the artifact is what is open under its own name, unless that is the
  -- signature's too; every other name opens what it did before.
  pub save-Saves :
      (stamp now later : ℕ) (req : SaveRequest) (m : MemoryStore) (k : String)
      → Saves stamp now later req req.artifact m k (save t sha256 stamp now req m)
  unfolding save
  save-Saves stamp now later req m k = save_read-Saves stamp now later req req.artifact m k

  signature_of-stem :
      (req : SaveRequest) (sig : Reader) (artifact : String)
      → req.signature ≡ some sig
      → same (stem (sanitized_base t (req.version ∷ req.signature_name ∷ []))) "" ≡ false
      → signature_of t sha256 req artifact
        ≡ join (stem (sanitized_base t (req.version ∷ req.signature_name ∷ []))) ".sig"
  unfolding signature_of
  signature_of-stem req sig artifact e some_base =
      rw (e, signature_of) (unfold signature_name build_signature_name in rw some_base)

  -- A signed save that is read without error.
  save-signed :
      (stamp now later : ℕ) (req : SaveRequest) (reader sig : Reader) (m : MemoryStore) (k : String)
      → req.artifact ≡ some reader
      → req.signature ≡ some sig
      → reader.broken ≡ false
      → sig.broken ≡ false
      → content (open_artifact later k (save t sha256 stamp now req m).1)
        ≡ after_save
            (meta_of t sha256 stamp now req reader.bytes)
            reader.bytes
            sig.bytes
            k
            (content (open_artifact later k m))
  save-signed stamp now later req reader sig m k e f whole whole' =
      elim (subst (λ o. Saves stamp now later req o m k (save t sha256 stamp now req m)) e
        (save-Saves stamp now later req m k)) [
          | inl (broken, _, _) ↦ absurd (ground (arith, broken, ap is_broken f))
          | inr (_, _, opens) ↦
              opens
              ∙ ap
                  (λ o.
                    after_save (meta_of t sha256 stamp now req reader.bytes) reader.bytes
                      (signature_bytes o) k (content (open_artifact later k m)))
                  f
        ]

  -- A signed upload takes the place of the signature of any upload whose version has the same
  -- sanitized stem, a text that is not empty: under the name that a save gives to the signature of
  -- the old upload, the signature of the new one is open after the new one is saved. The new upload
  -- is read without error; the versions may differ.
  pub signature_replaced :
      (stamp stamp' now now' later : ℕ) (old new : SaveRequest) (bytes : List ℕ)
      → (reader sig sig' : Reader) (m : MemoryStore) → old.signature ≡ some sig
      → new.artifact ≡ some reader
      → new.signature ≡ some sig'
      → reader.broken ≡ false
      → sig'.broken ≡ false
      → let base = stem (sanitized_base t (old.version ∷ old.signature_name ∷ [])) in
        same base "" ≡ false
        → stem (sanitized_base t (new.version ∷ new.signature_name ∷ [])) ≡ base
        → content (
            open_artifact later
              (meta_of t sha256 stamp now old bytes).signature_name
              (save t sha256 stamp' now' new m).1)
          ≡ some sig'.bytes
  unfolding meta_of
  signature_replaced stamp stamp' now now' later old new bytes reader sig sig' m f e' f' whole
        whole' some_base same_base =
      let name = join (stem (sanitized_base t (old.version ∷ old.signature_name ∷ []))) ".sig" in
      let theirs : (meta_of t sha256 stamp' now' new reader.bytes).signature_name ≡ name =
        signature_of-stem new sig' (artifact_name t new.version new.artifact_name stamp') f'
          (rw same_base some_base)
        ∙ ap (λ s. join s ".sig") same_base in
      rw
        (signature_of-stem old sig (artifact_name t old.version old.artifact_name stamp) f
          some_base)
        (save-signed stamp' now' later new reader sig' m name e' f' whole whole'
          ∙ after_save_own (meta_of t sha256 stamp' now' new reader.bytes) reader.bytes sig'.bytes
              name _ theirs
              (same_join_nil (stem (sanitized_base t (old.version ∷ old.signature_name ∷ [])))))

  -- A save that is read without error stores both files.
  pub save-stores :
      (stamp now : ℕ) (req : SaveRequest) (reader : Reader) (m : MemoryStore)
      → req.artifact ≡ some reader
      → reader.broken ≡ false
      → is_broken req.signature ≡ false
      → let meta = meta_of t sha256 stamp now req reader.bytes in
        save t sha256 stamp now req m
        ≡ (saved meta, store_files t sha256 meta reader.bytes (signature_bytes req.signature) m)
  unfolding save save_read
  save-stores stamp now req reader m e whole whole' =
      ap (λ o. save_read t sha256 stamp now req o m) e
      ∙ rw whole (signed (meta_of t sha256 stamp now req reader.bytes) req.signature whole')
    where
      signed :
          (meta : Meta) (sig : Option Reader)
          → is_broken sig ≡ false
          → save_signed t sha256 sig meta reader.bytes m
            ≡ (saved meta, store_files t sha256 meta reader.bytes (signature_bytes sig) m)
      signed meta none h = unfold save_signed in refl
      signed meta (some s) h = unfold save_signed in rw h refl

  -- What is open under an artifact's own name.
  pub open-own :
      (later : ℕ) (meta : Meta) (bytes sig : List ℕ) (m : MemoryStore)
      → meta.signature_name ≢ meta.artifact_name
      → open_artifact later meta.artifact_name (store_files t sha256 meta bytes sig m)
        ≡ opened bytes meta
  open-own later meta bytes sig m differ =
      let apart : same meta.signature_name meta.artifact_name ≡ false =
        ground (arith, same_iff meta.signature_name meta.artifact_name) in
      let own = same_refl meta.artifact_name in
      let file : find meta.artifact_name (store_files t sha256 meta bytes sig m).files
          ≡ some bytes =
        find-store_files meta bytes sig m meta.artifact_name ∙ ground (arith, apart, own) in
      let described : find meta.artifact_name (store_files t sha256 meta bytes sig m).metadata
          ≡ some meta =
        unfold store_files in
        (find-insert meta.artifact_name meta.artifact_name meta m.metadata ∙ rw own refl) in
      open_artifact-found later meta.artifact_name (store_files t sha256 meta bytes sig m) bytes
        meta file described
