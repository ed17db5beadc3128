-- ===== src/Persist/Acker.antt =====
-- Ack, and SizeBytes.
use ping_santo.Prelude.{ℕ, ◌+◌, ◌-◌, ◌==◌, leb, if◌then◌else◌, Bool, true, false, List, [], ◌∷◌}
use ping_santo.Persist.State.{
  Segment, ReaderState, Store, Faults, BatchEntry, Batch, remove_segment, Action, pure, raise,
  ◌>>=◌, ◌>>◌,
}
use ping_santo.Persist.Writer.{remove_head_segment, persist_state}

-- The head moves over one entry, first to the entry's segment if it stood in another.
unfoldable pub advance : BatchEntry → ReaderState → ReaderState
advance e h =
    if h.seq == e.seq
    then record h { offset = h.offset + e.bytes }
    else record { seq = e.seq; offset = e.bytes }

abbrev pub next_head : List Segment → ReaderState
next_head [] = record { seq = 0; offset = 0 }
next_head (g ∷ gs) = record { seq = g.seq; offset = 0 }

-- The state after `os.Remove` of a segment that is read to its end.
unfoldable pub consume : Segment → List Segment → Store → Store
unfolding remove_head_segment
consume g gs s =
    let t = remove_head_segment g gs (record s { total_size = s.total_size - g.size }) in
    record t { head_state = next_head gs }

-- The rest of a round of the loop of `Ack`, behind `headSegment`; false is the `break`.
unfoldable pub drop_read : Faults → List Segment → Action Bool
drop_read io [] s = pure false s
drop_read io (g ∷ gs) s =
    if leb g.size s.head_state.offset
    then (if io.remove g.seq then raise remove_segment s else pure true (consume g gs s))
    else pure true s

-- One round of the loop of `Ack`.
unfoldable pub ack_entry : Faults → BatchEntry → Action Bool
ack_entry io e s = drop_read io s.segments (record s { head_state = advance e s.head_state })

abbrev pub unless_broken : Action Unit → Bool → Action Unit
unless_broken rest true = rest
unless_broken rest false = pure tt

-- The loop of `Ack`.
unfoldable pub ack_loop : Faults → List BatchEntry → Action Unit
ack_loop io [] = pure tt
ack_loop io (e ∷ es) = ack_entry io e >>= unless_broken (ack_loop io es)

-- `Ack`
unfoldable pub ack : {R : Type 0} → Faults → Batch R → Action Unit
ack io b = elim b.entries [ [] ↦ pure tt | e ∷ es ↦ ack_loop io (e ∷ es) >> persist_state io ]

-- `SizeBytes`
abbrev pub size_bytes : Store → ℕ
size_bytes s = s.total_size
