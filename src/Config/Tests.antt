-- ===== src/Config/Tests.antt =====
-- A state that is one number.
use ping_santo.Prelude.{ℕ, ◌≡◌, ◌≢◌, refl, Option, none, some, List, [], ◌∷◌, true, false, arith}
use ping_santo.Prelude.Texts.{same_iff, join}
use ping_santo.Config.{Files, StateFaults, Yaml, update_state, save_state, load_state, loaded}
use ping_santo.Prelude.Maps.{find, insert, remove}
use ping_santo.Config.Commits.{Commits, state-Commits}

abbrev first_of : List ℕ → Option ℕ
first_of [] = none
first_of (n ∷ ns) = some n

abbrev yaml : Yaml ℕ
yaml = record { marshal = λ n. some (n ∷ []); unmarshal = first_of }

lawful : (n : ℕ) (bytes : List ℕ) → yaml.marshal n ≡ some bytes → yaml.unmarshal bytes ≡ some n
lawful n [] e = absurd cc
lawful n (m ∷ bytes) e = cc

apart : join "state.yaml" ".tmp" ≢ "state.yaml"
apart e = ground (arith, (same_iff "state.yaml.tmp" "state.yaml").1 e)

-- The disk is full.
abbrev full : StateFaults
full = record {
  mkdir = false;
  stat = false;
  open_temp = false;
  write = true;
  written = 0;
  rename = false;
}

abbrev files : Files
files = ("state.yaml", 5 ∷ []) ∷ []

state-Commits_example :
    Commits yaml "state.yaml" 6 files true (update_state yaml full "state.yaml" 6 files)
    × Commits yaml "state.yaml" 6 files true (save_state yaml full "state.yaml" 6 files)
unfolding find
state-Commits_example = state-Commits yaml "state.yaml" 6 files lawful apart full

updated :
    load_state yaml false "state.yaml"
      (update_state yaml (record full { write = false }) "state.yaml" 6 files).1
    ≡ loaded 6
unfolding load_state update_state find insert remove
updated = refl
