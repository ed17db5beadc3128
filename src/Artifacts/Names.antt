-- ===== src/Artifacts/Names.antt =====
-- The names of artifacts: sanitizedBase, normalizedExt and buildSignatureName.
use Prim.Native.Char.{code}
use Prim.Native.String.{String}
use ping_santo.Prelude.{
  ℕ, ◌==◌, leb, ◌&&◌, ◌||◌, not, if◌then◌else◌, Bool, true, false, List, [], ◌∷◌,
}
use ping_santo.Prelude.Texts.{same, join, has_suffix, trim_suffix, trim_left, trim_right}

-- What the names ask of Go's library: `strings.TrimSpace`, `strings.ToLower` and the verb "%d".
pub record Formats : Type 0 where
  pub trim_space : String → String
  pub to_lower : String → String
  pub decimal : ℕ → String

unfoldable pub has_slash : String → Bool
has_slash String.[] = false
has_slash (String.◌∷◌ c s) = (code c == 47) || has_slash s

-- `filepath.Ext`: from the last dot on, which must be behind every slash.
unfoldable pub ext : String → String
unfolding has_slash
ext String.[] = ""
ext (String.◌∷◌ c s) =
    let rest = ext s in
    if not (same rest "")
    then rest
    else if (code c == 46) && not (has_slash s)
    then String.◌∷◌ c s
    else ""

-- `strings.TrimSuffix(v, filepath.Ext(v))`
unfoldable pub stem : String → String
unfolding ext trim_suffix
stem v = trim_suffix (ext v) v

abbrev is_between : ℕ → ℕ → ℕ → Bool
is_between a b c = leb a c && leb c b

-- The characters that `sanitizeRegex` leaves: letters, digits, dot, underscore and dash.
unfoldable pub is_plain : ℕ → Bool
is_plain c =
    is_between 97 122 c
    || is_between 65 90 c
    || is_between 48 57 c
    || (c == 46)
    || (c == 95)
    || (c == 45)

-- `sanitizeRegex.ReplaceAllString(v, "-")`: each run of other characters becomes a dash. The flag
-- is that a run is under way.
unfoldable pub sanitize : Bool → String → String
unfolding is_plain
sanitize run String.[] = ""
sanitize run (String.◌∷◌ c s) =
    let kept = sanitize false s in
    let skipped = sanitize true s in
    if is_plain (code c) then String.◌∷◌ c kept else if run then skipped else join "-" skipped

-- The cutset "-_."
abbrev pub is_edge : ℕ → Bool
is_edge c = (c == 45) || (c == 95) || (c == 46)

-- `strings.Trim(v, "-_.")`
unfoldable pub trim_edges : String → String
unfolding trim_left trim_right
trim_edges v = trim_right is_edge (trim_left is_edge v)

module _ (t : Formats) where
  -- The loop of `sanitizedBase`; a value that is trimmed to nothing comes out as nothing too.
  unfoldable pub sanitized_base : List String → String
  unfolding stem sanitize trim_edges
  sanitized_base [] = ""
  sanitized_base (v ∷ vs) =
      let rest = sanitized_base vs in
      let w = trim_edges (sanitize false (stem (t.trim_space v))) in
      if same (t.trim_space v) "" then rest else if same w "" then rest else w

  -- `normalizedExt`
  unfoldable pub normalized_ext : String → String
  unfolding has_suffix ext
  normalized_ext name =
      let lower = t.to_lower name in
      if has_suffix ".tar.gz" lower
      then ".tar.gz"
      else if has_suffix ".tar.xz" lower
      then ".tar.xz"
      else if has_suffix ".tar.bz2" lower
      then ".tar.bz2"
      else if same (ext name) ""
      then ".bin"
      else ext name

  -- `buildSignatureName`
  unfoldable pub build_signature_name : String → String → String
  unfolding stem has_suffix
  build_signature_name base artifact_name =
      if not (same (stem base) "")
      then join (stem base) ".sig"
      else if has_suffix ".sig" (t.to_lower artifact_name)
      then artifact_name
      else join artifact_name ".sig"

  -- The base of an artifact's name
  unfoldable pub artifact_base : String → String → String
  unfolding sanitized_base
  artifact_base version name =
      let base = sanitized_base (version ∷ name ∷ []) in if same base "" then "artifact" else base

  -- `artifactName`, with the time that it is stamped with
  unfoldable pub artifact_name : String → String → ℕ → String
  unfolding artifact_base normalized_ext
  artifact_name version name stamp =
      join (artifact_base version name) (join "-" (join (t.decimal stamp) (normalized_ext name)))

  -- `signatureName`
  unfoldable pub signature_name : String → String → String → String
  unfolding sanitized_base build_signature_name
  signature_name version name artifact =
      build_signature_name (sanitized_base (version ∷ name ∷ [])) artifact
