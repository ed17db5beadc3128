-- ===== src/Persist/Writer.antt =====
-- Append, and what it calls: rotateIfNeeded, createSegment, enforceMaxBytes, removeHeadSegment and
-- persistState.
use ping_santo.Prelude.{
  ℕ, suc, ◌+◌, ◌-◌, ◌==◌, ltb, leb, if◌then◌else◌, false, none, some, List, [], ◌∷◌, ◌++◌, length,
  take,
}
use ping_santo.Persist.Frame.{Codec, frame}
use ping_santo.Persist.State.{
  Segment, Store, Faults, marshal_result, close_segment, create_segment, write_segment,
  sync_segment, nil_segment, remove_for_max_bytes, commit_state, Action, pure, raise, modify, check,
  ◌>>◌,
}
use ping_santo.Persist.Segments.{sort_segments, find_segment, update_segment}

-- `persistState`: the temporary file is renamed over state.json, or state.json stays as it was.
unfoldable pub persist_state : Faults → Action Unit
persist_state io = do
  check io.commit commit_state
  modify (λ s. record s { state_file = some s.head_state })

-- `createSegment`. Its number is above every one in the directory, so the file is a new one. The
-- old write segment, if there is one, is closed first.
unfoldable pub create_segment_file : Faults → ℕ → Action Unit
create_segment_file io seq s =
    if (elim s.write_seg [ none ↦ false | some _ ↦ io.close ])
    then raise close_segment s
    else if io.create
    then raise create_segment s
    else modify
        (λ (t : Store). record t {
          segments = sort_segments (t.segments ++ new ∷ []);
          write_seg = some seq;
        })
        s
  where
    new : Segment
    new = record { seq = seq; size = 0; bytes = [] }

-- `s.writeSeg.size`; the pointer is never dangling
abbrev pub write_size : Store → ℕ → ℕ
write_size s q = elim (find_segment q s.segments) [ none ↦ 0 | some g ↦ g.size ]

-- `rotateIfNeeded`
unfoldable pub rotate_if_needed : Faults → ℕ → Action Unit
unfolding create_segment_file
rotate_if_needed io required s = elim s.write_seg [
  | none ↦ create_segment_file io 1 s
  | some q ↦
      if leb (write_size s q + required) s.segment_size
      then pure tt s
      else create_segment_file io (suc q) s
]

-- Bytes that reach the file, which is open for appending.
abbrev pub write_bytes : List ℕ → Segment → Segment
write_bytes bs g = record g { bytes = g.bytes ++ bs }

-- `s.writeSeg.size += n; s.totalSize += n`
abbrev pub grow : ℕ → Segment → Segment
grow n g = record g { size = g.size + n }

-- What `Append` does with the open write segment.
unfoldable pub write_record : Faults → List ℕ → Action Unit
unfolding update_segment
write_record io bs s = elim s.write_seg [
  | none ↦ raise nil_segment s
  | some q ↦
      if io.write
      then raise write_segment
          (record s { segments = update_segment q (write_bytes (take io.written bs)) s.segments })
      else if io.sync
      then raise sync_segment (record s { segments = update_segment q (write_bytes bs) s.segments })
      else pure tt (record s {
        segments =
            update_segment q (grow (length bs)) (update_segment q (write_bytes bs) s.segments);
        total_size = s.total_size + length bs;
      })
]

-- `removeHeadSegment`, with the segment at the head given by the caller
unfoldable pub remove_head_segment : Segment → List Segment → Store → Store
remove_head_segment g gs s = record s {
  segments = gs;
  write_seg = elim s.write_seg [ none ↦ none | some q ↦ if g.seq == q then none else some q ];
}

-- One round of the loop of `enforceMaxBytes`, after `os.Remove`.
unfoldable pub evict : Segment → List Segment → Store → Store
unfolding remove_head_segment
evict g gs s =
    let t = remove_head_segment g gs (record s { total_size = s.total_size - g.size }) in
    if t.head_state.seq == g.seq
    then record t { head_state = record { seq = 0; offset = 0 } }
    else t

-- The loop of `enforceMaxBytes`; the list is `s.segments`.
unfoldable pub enforce_loop : Faults → List Segment → Action Unit
enforce_loop io [] s = pure tt s
enforce_loop io (g ∷ gs) s =
    let rest = enforce_loop io gs (evict g gs s) in
    if ltb s.max_bytes s.total_size
    then (if io.remove g.seq then raise remove_for_max_bytes s else rest)
    else pure tt s

-- `enforceMaxBytes`
unfoldable pub enforce_max_bytes : Faults → Action Unit
enforce_max_bytes io s = (do enforce_loop io s.segments; persist_state io) s

-- `Append`, behind `json.Marshal`
unfoldable pub append_payload : Faults → List ℕ → Action Unit
append_payload io payload =
    rotate_if_needed io (length (frame payload))
    >> (write_record io (frame payload) >> enforce_max_bytes io)

-- `Append`
unfoldable pub append : {R : Type 0} → Codec R → Faults → R → Action Unit
append c io r = elim (c.marshal r) [
  | none ↦ raise marshal_result
  | some payload ↦ append_payload io payload
]
