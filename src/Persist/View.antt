-- ===== src/Persist/View.antt =====
-- The spill store as a queue: what it means that a store holds certain results, oldest first.
pub mod Frames
pub mod Reads
pub mod Acks
pub mod Grows
pub mod Evictions
pub mod Appends
pub mod Stale
use ping_santo.Prelude.{
  ℕ, ◌+◌, ◌<◌, ◌^◌, ◌≡◌, ◌⊎◌, refl, sym, ap, some, List, [], ◌∷◌, ◌++◌, length, All, arith,
  length-append, append_assoc,
}
use ping_santo.Persist.Frame.{Codec, frame, length-frame}
use ping_santo.Persist.State.{Segment, ReaderState, Store, BatchEntry}
use ping_santo.Persist.Segments.{last_seq, sum_sizes}
use ping_santo.Persist.Segments.Order.{Above}

-- A result on disk: the number of its segment, its payload, and what that decodes to.
pub record Pending (R : Type 0) : Type 0 where
  pub seq : ℕ
  pub payload : List ℕ
  pub result : R

abbrev pub result_of : {R : Type 0} → Pending R → R
result_of p = p.result

-- The entry of a batch that stands for the result.
abbrev pub stamp : {R : Type 0} → Pending R → BatchEntry
stamp p = record { seq = p.seq; bytes = 4 + length p.payload }

-- The bytes of a file that holds the results.
abbrev pub encode : {R : Type 0} → List (Pending R) → List ℕ
encode [] = []
encode (p ∷ ps) = frame p.payload ++ encode ps

pub length-encode-cons :
    {R : Type 0} (p : Pending R) (ps : List (Pending R))
    → length (encode (p ∷ ps)) ≡ 4 + length p.payload + length (encode ps)
length-encode-cons p ps =
    omega (arith, length-append (frame p.payload) (encode ps), length-frame p.payload)

pub encode-append :
    {R : Type 0} (ps qs : List (Pending R)) → encode (ps ++ qs) ≡ encode ps ++ encode qs
encode-append [] qs = refl
encode-append (p ∷ ps) qs =
    rw (encode-append ps qs) (sym (append_assoc (frame p.payload) (encode ps) (encode qs)))

pub length-encode-append :
    {R : Type 0} (acked : List (Pending R)) (p : Pending R) (ps : List (Pending R))
    → length (encode (acked ++ (p ∷ ps)))
      ≡ length (encode acked) + (4 + length p.payload) + length (encode ps)
length-encode-append acked p ps = omega (
  arith,
  ap length (encode-append acked (p ∷ ps)),
  length-append (encode acked) (encode (p ∷ ps)),
  length-encode-cons p ps,
)

module _ {R : Type 0} (c : Codec R) where
  -- The payload decodes to the result, and its frame's length fits in a uint32.
  abbrev pub InSegment : ℕ → Pending R → Type 0
  InSegment q p =
      (p.seq ≡ q) × (c.unmarshal p.payload ≡ some p.result) × (4 + length p.payload < 2 ^ 32)

  abbrev pub OnSegment : Segment → List (Pending R) → Type 0
  OnSegment g ps = All (InSegment g.seq) ps × (g.bytes ≡ encode ps) × (g.size ≡ length (encode ps))

  -- Whole segments, each with a result in it.
  abbrev pub Stored : List Segment → List (Pending R) → Type 0
  Stored [] ps = ps ≡ []
  Stored (g ∷ gs) ps =
      (p : Pending R) × (xs : List (Pending R)) × (ys : List (Pending R)) × (ps ≡ p ∷ (xs ++ ys))
      × OnSegment g (p ∷ xs)
      × Stored gs ys

  -- The head stands at the only segment, and that is empty.
  abbrev pub AtEmpty : ReaderState → Segment → List Segment → List (Pending R) → Type 0
  AtEmpty h g gs ps =
      (gs ≡ []) × (ps ≡ []) × OnSegment g [] × (h.offset ≡ 0) × ((h.seq ≡ 0) ⊎ (h.seq ≡ g.seq))

  -- The head stands in the first segment, behind the results `acked` and before `p`.
  abbrev pub AtResult : ReaderState → Segment → List Segment → List (Pending R) → Type 0
  AtResult h g gs ps =
      (acked : List (Pending R)) × (p : Pending R) × (xs : List (Pending R)) × (ys : List
        (Pending R))
      × (ps ≡ p ∷ (xs ++ ys))
      × OnSegment g (acked ++ (p ∷ xs))
      × (h.offset ≡ length (encode acked))
      × (((h.seq ≡ 0) × (acked ≡ [])) ⊎ (h.seq ≡ g.seq))
      × Stored gs ys

  abbrev pub AtHead : ReaderState → List Segment → List (Pending R) → Type 0
  AtHead h [] ps = (ps ≡ []) × (h.seq ≡ 0) × (h.offset ≡ 0)
  AtHead h (g ∷ gs) ps = AtEmpty h g gs ps ⊎ AtResult h g gs ps

  -- The store is well formed, and the results that are not acknowledged are `ps`, oldest first.
  pub record Holds (s : Store) (ps : List (Pending R)) : Type 0 where
    pub ascending : Above 0 s.segments
    pub total : s.total_size ≡ sum_sizes s.segments
    pub writer : s.write_seg ≡ last_seq s.segments
    pub at_head : AtHead s.head_state s.segments ps
