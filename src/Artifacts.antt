-- ===== src/Artifacts.antt =====
-- controller/internal/artifacts/store.go: the stores of uploaded upgrade artifacts.
-- Go's text functions and SHA-256 are parameters. Times are numbers.
pub mod Names
pub mod Memory
pub mod Files
pub mod Saves
pub mod Safety
mod Tests
use Prim.Native.String.{String}
use ping_santo.Prelude.{ℕ, Option, List, Bool}

-- An `io.Reader`: what can be read from it, and whether reading ends in an error.
pub record Reader : Type 0 where
  pub bytes : List ℕ
  pub broken : Bool

-- `SaveRequest`
pub record SaveRequest : Type 0 where
  pub version : String
  pub artifact : Option Reader
  pub artifact_name : String
  pub signature : Option Reader
  pub signature_name : String

-- `Meta`
pub record Meta : Type 0 where
  pub artifact_name : String
  pub signature_name : String
  pub sha256 : String
  pub size : ℕ
  pub created_at : ℕ
  pub path : String
  pub signature_path : String

-- The errors of `Save`: `ErrArtifactRequired`, and every other.
pub data SaveError : Type 0 where
  artifact_required not_saved : SaveError

-- What `Save` returns.
pub data Saved : Type 0 where
  saved : Meta → Saved
  refused : SaveError → Saved

-- What `Open` returns: an error that `os.IsNotExist` is true of, or another.
pub data Opened : Type 0 where
  opened : List ℕ → Meta → Opened
  missing unopened : Opened
