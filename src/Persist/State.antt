-- ===== src/Persist/State.antt =====
-- The spill store's state, its errors, and the faults that the file system may choose.
-- A segment carries the bytes of its file: the path is a function of the sequence number. Sizes,
-- offsets and sequence numbers are ℕ, for int64 values that the store itself never makes negative.
use ping_santo.Prelude.{ℕ, Bool, false, if◌then◌else◌, Option, List, ◌≡◌, ap}

-- `segment`, with the contents of the file at `path`
pub record Segment : Type 0 where
  pub seq : ℕ
  pub size : ℕ
  pub bytes : List ℕ

-- `readerState`
pub record ReaderState : Type 0 where
  pub seq : ℕ
  pub offset : ℕ

-- `Store`. A pointer to a segment is its sequence number. `state_file` is the file state.json.
pub record Store : Type 0 where
  pub max_bytes : ℕ
  pub segment_size : ℕ
  pub segments : List Segment
  pub write_seg : Option ℕ
  pub head_state : ReaderState
  pub total_size : ℕ
  pub state_file : Option ReaderState

-- `batchEntry`
pub record BatchEntry : Type 0 where
  pub seq : ℕ
  pub bytes : ℕ

-- `Batch`
pub record Batch (R : Type 0) : Type 0 where
  pub results : List R
  pub entries : List BatchEntry

-- The errors that the calls return, by the text that each is wrapped in.
pub data Error : Type 0 where
  marshal_result close_segment create_segment write_segment sync_segment : Error
  remove_segment remove_for_max_bytes commit_state : Error
  open_for_read seek_segment read_segment decode_result : Error
  ensure_dir read_dir read_state parse_state open_segment nil_segment : Error

-- What each call to the operating system does: `true` is an error. A failed write may have written
-- the first `written` bytes. `remove` and the reads are asked for each segment, and `read` at each
-- offset too.
pub record Faults : Type 0 where
  pub close : Bool
  pub create : Bool
  pub write : Bool
  pub written : ℕ
  pub sync : Bool
  pub commit : Bool
  pub remove : ℕ → Bool
  pub reopen : ℕ → Bool
  pub seek : ℕ → Bool
  pub read : ℕ → ℕ → Bool

-- Every call succeeds.
abbrev pub no_faults : Faults
no_faults = record {
  close = false;
  create = false;
  write = false;
  written = 0;
  sync = false;
  commit = false;
  remove = λ _. false;
  reopen = λ _. false;
  seek = λ _. false;
  read = λ _ _. false;
}

pub data Result {ℓ} (A : Type ℓ) : Type ℓ where
  ok : A → Result A
  err : Error → Result A

-- A method of the store: what it wrote stays written when it returns an error.
abbrev pub Action : Type 0 → Type 0
Action A = Store → Result A × Store

abbrev pub pure : {A : Type 0} → A → Action A
pure a s = (ok a, s)

abbrev pub raise : {A : Type 0} → Error → Action A
raise e s = (err e, s)

-- The rest of a method, run in the state where its first part ended, unless that failed.
abbrev pub and_then : {A B : Type 0} → Result A → (A → Action B) → Action B
and_then (ok a) f s = f a s
and_then (err e) f s = (err e, s)

infixl 5 ◌>>=◌ ◌>>◌
abbrev pub ◌>>=◌ : {A B : Type 0} → Action A → (A → Action B) → Action B
◌>>=◌ m f s = and_then (m s).0 f (m s).1

abbrev pub ◌>>◌ : {A B : Type 0} → Action A → Action B → Action B
m >> k = m >>= λ _. k

abbrev pub modify : (Store → Store) → Action Unit
modify f s = (ok tt, f s)

-- `if err := ...; err != nil { return e }`
abbrev pub check : Bool → Error → Action Unit
check failed e s = if failed then (err e, s) else (ok tt, s)

pub bind-ok :
    {A B : Type 0} (m : Action A) (f : A → Action B) (s : Store) {a : A}
    → (m s).0 ≡ ok a
    → (m >>= f) s ≡ f a (m s).1
bind-ok m f s e = ap (λ r. and_then r f (m s).1) e

pub bind-eq :
    {A B : Type 0} (m : Action A) (f : A → Action B) (s t : Store) {a : A}
    → m s ≡ (ok a, t)
    → (m >>= f) s ≡ f a t
bind-eq m f s t e = ap (λ r. and_then r.0 f r.1) e
