-- ===== src/Persist/Opening.antt =====
-- Open and Close, and what Open calls: loadSegments, loadState and ensureWriteSegment.
pub mod Listings
pub mod Reopens
mod Tests
use ping_santo.Prelude.{
  ℕ, ◌+◌, ◌*◌, ◌^◌, ◌==◌, ltb, ◌||◌, if◌then◌else◌, Bool, false, Option, none, some, List, [], ◌∷◌,
  length, min,
}
use ping_santo.Persist.State.{
  Segment, ReaderState, Store, Faults, Error, ensure_dir, read_dir, read_state, parse_state,
  open_segment, close_segment, Result, ok, err, Action, pure, raise, modify, check, ◌>>◌,
}
use ping_santo.Persist.Segments.{insert_sorted, sort_segments, last_seq, sum_sizes}
use ping_santo.Persist.Writer.{create_segment_file}
use ping_santo.Persist.Names.{segment_number}

-- A file of the spill directory.
pub record File : Type 0 where
  pub name : List ℕ
  pub bytes : List ℕ

-- What reading and parsing state.json gives.
pub data StateFile : Type 0 where
  missing unreadable malformed : StateFile
  saved : ReaderState → StateFile

-- The spill directory. The files are in the order in which `os.ReadDir` lists them.
pub record Directory : Type 0 where
  pub files : List File
  pub state : StateFile

-- What the calls to the operating system do: `true` is an error. The last field is about the calls
-- that the store makes after it is opened too.
pub record OpenFaults : Type 0 where
  pub mkdir : Bool
  pub list : Bool
  pub stat : List ℕ → Bool
  pub append_to : Bool
  pub calls : Faults

-- The loop of `loadSegments`: the segments in the order of the directory. Their sizes are the
-- lengths of the files.
unfoldable pub scan : OpenFaults → List File → List Segment
unfolding segment_number
scan io [] = []
scan io (f ∷ fs) =
    let rest = scan io fs in
    elim (segment_number f.name) [
      | none ↦ rest
      | some q ↦
          if io.stat f.name
          then rest
          else (record { seq = q; size = length f.bytes; bytes = f.bytes }) ∷ rest
    ]

-- `loadSegments`
unfoldable pub load_segments : OpenFaults → List File → Action Unit
unfolding scan sort_segments sum_sizes
load_segments io files =
    check io.list read_dir
    >> modify (λ (s : Store). record s {
      segments = sort_segments (scan io files);
      total_size = sum_sizes (scan io files);
    })

-- The head where there is no state file.
abbrev pub first_head : List Segment → ReaderState → ReaderState
first_head [] h = h
first_head (g ∷ gs) h = record { seq = g.seq; offset = 0 }

-- `loadState`. The file's contents are also what the store last wrote to it.
unfoldable pub load_state : StateFile → Action Unit
load_state missing =
    modify (λ (s : Store). record s { head_state = first_head s.segments s.head_state })
load_state unreadable = raise read_state
load_state malformed = raise parse_state
load_state (saved h) = modify (λ (s : Store). record s { head_state = h; state_file = some h })

-- The case of `ensureWriteSegment` where there is a segment
unfoldable pub reopen_last : OpenFaults → Option ℕ → Action Unit
reopen_last io none = create_segment_file io.calls 1
reopen_last io (some q) =
    check io.append_to open_segment >> modify (λ (s : Store). record s { write_seg = some q })

-- `ensureWriteSegment`
unfoldable pub ensure_write_segment : OpenFaults → Action Unit
unfolding reopen_last last_seq
ensure_write_segment io s = elim s.write_seg [
  | none ↦ reopen_last io (last_seq s.segments) s
  | some _ ↦ pure tt s
]

-- `defaultMaxBytes`
abbrev pub default_max_bytes : ℕ
default_max_bytes = 2 * 2 ^ 30

-- The bounds that `Open` chooses; 0 stands for every number that is not positive.
unfoldable pub max_bytes_of : ℕ → ℕ
max_bytes_of n = if n == 0 then default_max_bytes else n

unfoldable pub segment_size_of : ℕ → ℕ → ℕ
segment_size_of max_bytes n = if (n == 0) || ltb max_bytes n then min max_bytes (64 * 2 ^ 20) else n

-- The store that `Open` starts from.
unfoldable pub blank : ℕ → ℕ → Store
unfolding max_bytes_of segment_size_of
blank max_bytes segment_size = record {
  max_bytes = max_bytes_of max_bytes;
  segment_size = segment_size_of (max_bytes_of max_bytes) segment_size;
  segments = [];
  write_seg = none;
  head_state = record { seq = 0; offset = 0 };
  total_size = 0;
  state_file = none;
}

-- `Open`, from the store that it fills
unfoldable pub fill : OpenFaults → Directory → Action Unit
fill io dir =
    check io.mkdir ensure_dir
    >> (load_segments io dir.files >> (load_state dir.state >> ensure_write_segment io))

abbrev pub opened_store : Result {0} Unit × Store → Result {0} Store
opened_store (ok _, s) = ok s
opened_store (err e, s) = err e

-- `Open`
unfoldable pub open_store : OpenFaults → Directory → ℕ → ℕ → Result {0} Store
unfolding blank
open_store io dir max_bytes segment_size = opened_store (fill io dir (blank max_bytes segment_size))

-- `Close`
unfoldable pub close_store : Faults → Action Unit
close_store io s = elim s.write_seg [ none ↦ pure tt s | some _ ↦ check io.close close_segment s ]
