-- ===== src/Persist/Reader.antt =====
-- ReadBatch: frames are read from the head position on, over as many segments as it takes.
use ping_santo.Prelude.{
  ℕ, zero, suc, ◌+◌, ◌-◌, ◌%◌, ◌^◌, ◌==◌, ltb, leb, if◌then◌else◌, Option, none, some, List, [],
  ◌∷◌, ◌++◌, length, take, drop,
}
use ping_santo.Persist.Frame.{Codec, get_uint32}
use ping_santo.Persist.State.{
  Segment, Faults, BatchEntry, Batch, Result, ok, err, open_for_read, seek_segment, read_segment,
  decode_result, Action,
}
use ping_santo.Persist.Segments.{from_seq}

-- What the inner loop has added, and the value of `readOffset` behind it.
pub record Chunk (R : Type 0) : Type 0 where
  pub results : List R
  pub entries : List BatchEntry
  pub read_offset : ℕ

-- `io.ReadFull` of n bytes: none stands for io.EOF and io.ErrUnexpectedEOF
unfoldable pub read_full : ℕ → List ℕ → Option (List ℕ)
read_full n bs = if leb n (length bs) then some (take n bs) else none

abbrev pub add_result : {R : Type 0} → R → BatchEntry → Result (Chunk R) → Result (Chunk R)
add_result r e (ok k) = ok (record k { results = r ∷ k.results; entries = e ∷ k.entries })
add_result r e (err x) = err x

-- `max <= 0` takes 1024; a `max` of 0 stands for every one that is not positive.
abbrev pub room_of : ℕ → ℕ
room_of max = if max == 0 then 1024 else max

module _ {R : Type 0} (c : Codec R) (io : Faults) where
  -- `4 + length` is a sum of uint32.
  abbrev frame_bytes : ℕ → ℕ
  frame_bytes n = (4 + n) % 2 ^ 32

  abbrev stop : ℕ → Result (Chunk R)
  stop offset = ok (record { results = []; entries = []; read_offset = offset })

  -- The inner loop: `room` is max - len(results), `bs` what the file holds behind `offset`.
  unfoldable pub read_frames : ℕ → Segment → ℕ → List ℕ → Result (Chunk R)
  unfolding read_full
  read_frames zero g offset bs = stop offset
  read_frames (suc room) g offset bs =
      if io.read g.seq offset then err read_segment else elim (read_full 4 bs) [
        | none ↦ stop offset
        | some header ↦ elim (read_full (get_uint32 header) (drop 4 bs)) [
          | none ↦ stop offset
          | some payload ↦ elim (c.unmarshal payload) [
            | none ↦ err decode_result
            | some r ↦
                let next = offset + frame_bytes (get_uint32 header) in
                let rest = read_frames room g next (drop (get_uint32 header) (drop 4 bs)) in
                add_result r (record { seq = g.seq; bytes = frame_bytes (get_uint32 header) })
                  (if leb g.size next then stop next else rest)
          ]
        ]
      ]

  abbrev add_chunk : Chunk R → Result (Batch R) → Result (Batch R)
  add_chunk k (ok b) =
      ok (record { results = k.results ++ b.results; entries = k.entries ++ b.entries })
  add_chunk k (err x) = err x

  -- The outer loop over `segments[segIndex:]`, with `start` and `offset` the loop's variables.
  unfoldable pub read_segments : ℕ → List Segment → ℕ → ℕ → Result (Batch R)
  read_segments room [] start offset = ok (record { results = []; entries = [] })
  read_segments zero (g ∷ gs) start offset = ok (record { results = []; entries = [] })
  read_segments (suc room) (g ∷ gs) start offset =
      let read_offset = if g.seq == start then offset else 0 in
      if io.reopen g.seq
      then err open_for_read
      else if io.seek g.seq
      then err seek_segment
      else elim (read_frames (suc room) g read_offset (drop read_offset g.bytes)) [
        | err x ↦ err x
        | ok k ↦
            let rest = read_segments (suc room - length k.results) gs 0 0 in
            if ltb k.read_offset g.size
            then ok (record { results = k.results; entries = k.entries })
            else add_chunk k rest
      ]

  -- The body of `ReadBatch`, at the segment list.
  unfoldable pub read_from : ℕ → List Segment → Action (Batch R)
  read_from max [] s = (ok (record { results = []; entries = [] }), s)
  read_from max (g ∷ gs) s =
      let start = if s.head_state.seq == 0 then g.seq else s.head_state.seq in
      elim (from_seq start (g ∷ gs)) [
        | some rest ↦ (read_segments (room_of max) rest start s.head_state.offset, s)
        | none ↦ (
          read_segments (room_of max) (g ∷ gs) g.seq 0,
          record s { head_state = record { seq = g.seq; offset = 0 } },
        )
      ]

  -- `ReadBatch`
  unfoldable pub read_batch : ℕ → Action (Batch R)
  read_batch max s = read_from max s.segments s
