-- ===== src/Persist/Segments.antt =====
-- The segment list: sortSegments, segmentIndex, and updates through a segment pointer.
pub mod Order
use ping_santo.Prelude.{ℕ, ◌+◌, ◌==◌, ltb, if◌then◌else◌, Option, none, some, List, [], ◌∷◌}
use ping_santo.Persist.State.{Segment}

unfoldable pub insert_sorted : Segment → List Segment → List Segment
insert_sorted g [] = g ∷ []
insert_sorted g (h ∷ hs) = if ltb g.seq h.seq then g ∷ h ∷ hs else h ∷ insert_sorted g hs

-- `sortSegments`, as an insertion sort by sequence number
unfoldable pub sort_segments : List Segment → List Segment
unfolding insert_sorted
sort_segments [] = []
sort_segments (g ∷ gs) = insert_sorted g (sort_segments gs)

-- the sequence number of `segments[len(segments)-1]`
unfoldable pub last_seq : List Segment → Option ℕ
last_seq [] = none
last_seq (g ∷ []) = some g.seq
last_seq (g ∷ h ∷ hs) = last_seq (h ∷ hs)

-- The rest of the list from the first segment with the number on: `segmentIndex`, which returns
-- the index -1 where this is none.
unfoldable pub from_seq : ℕ → List Segment → Option (List Segment)
from_seq q [] = none
from_seq q (g ∷ gs) = if g.seq == q then some (g ∷ gs) else from_seq q gs

unfoldable pub find_segment : ℕ → List Segment → Option Segment
find_segment q [] = none
find_segment q (g ∷ gs) = if g.seq == q then some g else find_segment q gs

-- A write through the pointer to the segment numbered `q`.
unfoldable pub update_segment : ℕ → (Segment → Segment) → List Segment → List Segment
update_segment q f [] = []
update_segment q f (g ∷ gs) = if g.seq == q then f g ∷ gs else g ∷ update_segment q f gs

-- The sum of the sizes, which `loadSegments` takes and `totalSize` keeps.
unfoldable pub sum_sizes : List Segment → ℕ
sum_sizes [] = 0
sum_sizes (g ∷ gs) = g.size + sum_sizes gs
