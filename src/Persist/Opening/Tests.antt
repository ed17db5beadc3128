-- ===== src/Persist/Opening/Tests.antt =====
-- Spill directories, and what is opened on them.
use ping_santo.Prelude.{ℕ, ◌<◌, ◌^◌, ◌≡◌, refl, inl, none, some, List, [], ◌∷◌, arith}
use ping_santo.Persist.State.{Segment, Store, ok, err, parse_state, no_faults}
use ping_santo.Persist.Acker.{ack, ack_loop, ack_entry, drop_read, advance, consume}
use ping_santo.Persist.Writer.{remove_head_segment, persist_state}
use ping_santo.Persist.View.{Holds}
use ping_santo.Persist.View.Reads.{batch_of}
use ping_santo.Persist.Names.{segment_name, segment_number}
use ping_santo.Persist.Names.Numbers.{segment_number-segment_name}
use ping_santo.Persist.Opening.{
  File, Directory, saved, malformed, open_store, max_bytes_of, fill, load_segments, load_state,
}
use ping_santo.Persist.Opening.Listings.{no_files, foreign, found, file_of, no_open_faults}
use ping_santo.Persist.Opening.Reopens.{IsDirectoryOf, open_store-Holds, ack_survives}
use ping_santo.Persist.Tests.{byte_codec, pending, stored, stored-Holds}

long_name : segment_number (segment_name 1234567) ≡ some 1234567
long_name = segment_number-segment_name 1234567 (omega arith)

-- "segment-000042.log"
name_42 :
    segment_name 42
    ≡ 115 ∷ 101 ∷ 103 ∷ 109 ∷ 101 ∷ 110 ∷ 116 ∷ 45 ∷ 48 ∷ 48 ∷ 48 ∷ 48 ∷ 52 ∷ 50 ∷ 46 ∷ 108 ∷ 111
      ∷ 103 ∷ []
unfolding segment_name
name_42 = refl

-- "state.json"
abbrev state_name : List ℕ
state_name = 115 ∷ 116 ∷ 97 ∷ 116 ∷ 101 ∷ 46 ∷ 106 ∷ 115 ∷ 111 ∷ 110 ∷ []

state_is_foreign : segment_number state_name ≡ none
unfolding segment_number
state_is_foreign = refl

abbrev other_file : File
other_file = record { name = state_name; bytes = [] }

abbrev first : Segment
first = record { seq = 1; size = 10; bytes = 0 ∷ 0 ∷ 0 ∷ 1 ∷ 40 ∷ 0 ∷ 0 ∷ 0 ∷ 1 ∷ 41 ∷ [] }

abbrev second : Segment
second = record { seq = 2; size = 5; bytes = 0 ∷ 0 ∷ 0 ∷ 1 ∷ 42 ∷ [] }

-- `stored`, with its head on disk
abbrev settled : Store
settled = record stored { state_file = some (record { seq = 1; offset = 5 }) }

settled-Holds : Holds byte_codec settled (pending 1 41 ∷ pending 2 42 ∷ [])
settled-Holds = record {
  ascending = stored-Holds.ascending;
  total = stored-Holds.total;
  writer = stored-Holds.writer;
  at_head = stored-Holds.at_head;
}

abbrev settled_dir : Directory
settled_dir = record {
  files = file_of second ∷ other_file ∷ file_of first ∷ [];
  state = saved (record { seq = 1; offset = 5 });
}

settled_dir-IsDirectoryOf : IsDirectoryOf settled settled_dir
settled_dir-IsDirectoryOf = record {
  files = found (first ∷ []) second [] (foreign state_is_foreign (found [] first [] no_files));
  state = refl;
}

open_store-Holds_example :
    (t : Store) × (open_store no_open_faults settled_dir 0 10 ≡ ok t)
    × Holds byte_codec t (pending 1 41 ∷ pending 2 42 ∷ [])
    × (t.max_bytes ≡ max_bytes_of 0)
open_store-Holds_example =
    open_store-Holds byte_codec 0 10 settled settled_dir (pending 1 41 ∷ pending 2 42 ∷ [])
      settled-Holds settled_dir-IsDirectoryOf (inl refl) (omega arith, (omega arith, tt))

abbrev acked_dir : Directory
acked_dir = record { files = file_of second ∷ []; state = saved (record { seq = 2; offset = 0 }) }

acked_dir-IsDirectoryOf :
    IsDirectoryOf (ack no_faults (batch_of (pending 1 41 ∷ [])) stored).1 acked_dir
unfolding ack ack_loop ack_entry drop_read advance consume remove_head_segment persist_state
acked_dir-IsDirectoryOf = record { files = found [] second [] no_files; state = refl }

acked_numbers : 2 < 2 ^ 63
acked_numbers = omega arith

ack_survives_example :
    (u : Store) × (open_store no_open_faults acked_dir 15 10 ≡ ok u)
    × Holds byte_codec u (pending 2 42 ∷ [])
    × (u.max_bytes ≡ max_bytes_of 15)
unfolding ack ack_loop ack_entry drop_read advance consume remove_head_segment persist_state
ack_survives_example =
    ack_survives byte_codec 15 10 stored acked_dir (pending 1 41) [] (pending 2 42 ∷ [])
      stored-Holds acked_dir-IsDirectoryOf (acked_numbers, tt)

-- A state file that does not parse is an error.
malformed_state :
    open_store no_open_faults (record settled_dir { state = malformed }) 15 10 ≡ err parse_state
unfolding open_store fill load_segments load_state
malformed_state = refl
