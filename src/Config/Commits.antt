-- ===== src/Config/Commits.antt =====
-- What is loaded after the state is saved or updated.
use Prim.Native.String.{String}
use ping_santo.Prelude.{
  ℕ, ◌≡◌, ◌≢◌, refl, ap, ◌∙◌, ◌||◌, Bool, true, false, Bool-cases, inl, inr, Option, none, some,
  List, take, arith, not,
}
use ping_santo.Prelude.Texts.{same, same_iff, same_refl, join}
use ping_santo.Prelude.Maps.{find, insert, remove, find-insert}
use ping_santo.Config.{
  Files, StateFaults, Committed, committed, not_committed, Yaml, loaded, commit, read, load_state,
  commit_state, update_state, save_new, save_state,
}

abbrev pub is_none : {A : Type 0} → Option A → Bool
is_none none = true
is_none (some a) = false

-- A call from the writing on fails.
abbrev pub write_fails : StateFaults → Bool
write_fails io = io.open_temp || io.write || io.rename

find-insert_own :
    (k : String) (bytes : List ℕ) (files : Files) → find k (insert k bytes files) ≡ some bytes
find-insert_own k bytes files = find-insert k k bytes files ∙ rw (same_refl k) refl

find-insert_other :
    (k id : String) (bytes : List ℕ) (files : Files)
    → id ≢ k
    → find k (insert id bytes files) ≡ find k files
find-insert_other k id bytes files apart =
    let differ : same id k ≡ false = ground (arith, same_iff id k) in
    find-insert k id bytes files ∙ rw differ refl

module _ {D : Type 0} (yaml : Yaml D) (path : String) (d : D) (files : Files) where
  -- A method that fails just when `faulty` says so, after which the state loads as it did, and after
  -- which `d` is loaded if it does not fail
  abbrev pub Commits : Bool → Committed × Files → Type 0
  Commits faulty (committed, files') =
      (faulty ≡ false) × (load_state yaml false path files' ≡ loaded d)
  Commits faulty (not_committed e, files') =
      (faulty ≡ true) × (load_state yaml false path files' ≡ load_state yaml false path files)

  module _
      (lawful : (d : D) (bytes : List ℕ)
        → yaml.marshal d ≡ some bytes
        → yaml.unmarshal bytes ≡ some d)
      (apart : join path ".tmp" ≢ path) where
    commit-Commits :
        (io : StateFaults) (bytes : List ℕ)
        → yaml.marshal d ≡ some bytes
        → Commits (write_fails io) (commit io path bytes files)
    unfolding commit load_state
    commit-Commits io bytes e =
        let tmp = join path ".tmp" in
        elim (Bool-cases io.open_temp) [
          | inl f ↦ rw f (refl, refl)
          | inr f ↦ rw f (elim (Bool-cases io.write) [
            | inl g ↦ rw g (
              refl,
              ap (read yaml) (find-insert_other path tmp (take io.written bytes) files apart),
            )
            | inr g ↦ rw g (elim (Bool-cases io.rename) [
              | inl h ↦ rw h (refl, ap (read yaml) (find-insert_other path tmp bytes files apart))
              | inr h ↦ rw h (
                refl,
                ap (read yaml) (find-insert_own path bytes (remove tmp files))
                    ∙ rw (lawful d bytes e) refl,
              )
            ])
          ])
        ]

    commit_state-Commits :
        (io : StateFaults) (o : Option (List ℕ))
        → yaml.marshal d ≡ o
        → Commits (is_none o || write_fails io) (commit_state yaml io path o files)
    unfolding commit_state
    commit_state-Commits io none e = (refl, refl)
    commit_state-Commits io (some bytes) e = commit-Commits io bytes e

    update_state-Commits :
        (io : StateFaults)
        → Commits
            (io.mkdir || is_none (yaml.marshal d) || write_fails io)
            (update_state yaml io path d files)
    unfolding update_state
    update_state-Commits io = elim (Bool-cases io.mkdir) [
      | inl f ↦ rw f (refl, refl)
      | inr f ↦ rw f (commit_state-Commits io (yaml.marshal d) refl)
    ]

    save_new-Commits :
        (io : StateFaults) (old : Option (List ℕ))
        → Commits
            (not (is_none old) || is_none (yaml.marshal d) || write_fails io)
            (save_new yaml io path d old files)
    unfolding save_new
    save_new-Commits io none = commit_state-Commits io (yaml.marshal d) refl
    save_new-Commits io (some old) = (refl, refl)

    save_state-Commits :
        (io : StateFaults)
        → Commits
            (io.mkdir
              || io.stat
              || not (is_none (find path files))
              || is_none (yaml.marshal d)
              || write_fails io)
            (save_state yaml io path d files)
    unfolding save_state
    save_state-Commits io = elim (Bool-cases io.mkdir) [
      | inl f ↦ rw f (refl, refl)
      | inr f ↦ rw f (elim (Bool-cases io.stat) [
        | inl g ↦ rw g (refl, refl)
        | inr g ↦ rw g (save_new-Commits io (find path files))
      ])
    ]

    -- Where unmarshalling gives back what was marshalled, and the temporary file has another name than
    -- the state file: UpdateState fails just when the state cannot be marshalled or a call fails, and
    -- SaveState also when the look at the state file fails or there is one. If it does not fail,
    -- LoadState gives the new state; if it fails, LoadState gives what it gave before.
    pub state-Commits :
        (io : StateFaults)
        → Commits
            (io.mkdir || is_none (yaml.marshal d) || write_fails io)
            (update_state yaml io path d files)
          × Commits
              (io.mkdir
                || io.stat
                || not (is_none (find path files))
                || is_none (yaml.marshal d)
                || write_fails io)
              (save_state yaml io path d files)
    state-Commits io = (update_state-Commits io, save_state-Commits io)
