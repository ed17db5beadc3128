-- ===== src/Persist/View/Frames.antt =====
-- The inner loop of ReadBatch, over a file that holds whole frames.
use ping_santo.Prelude.{
  ℕ, zero, suc, ◌+◌, ◌<◌, ◌%◌, ◌^◌, ◌≡◌, refl, ap, List, [], ◌∷◌, ◌++◌, map, some, arith, length,
  take, drop, All, leb, if◌then◌else◌, length-append, take-length-append, drop-length-append,
  le→leb, lt→not_leb, take-nil,
}
use ping_santo.Persist.Frame.{Codec, frame, put_uint32, get_uint32, get_uint32-put_uint32}
use ping_santo.Persist.State.{Segment, ok, no_faults}
use ping_santo.Persist.Reader.{read_full, read_frames, add_result}
use ping_santo.Persist.View.{Pending, result_of, stamp, encode, InSegment, length-encode-cons}

read_full-append : (xs ys : List ℕ) → read_full (length xs) (xs ++ ys) ≡ some xs
unfolding read_full
read_full-append xs ys =
    rw (le→leb (length xs) (length (xs ++ ys)) (omega (arith, length-append xs ys)))
      (ap some (take-length-append xs ys))

-- The four bytes before a payload.
abbrev header : List ℕ → List ℕ
header payload = put_uint32 (length payload % 2 ^ 32)

read_full-header :
    (payload rest : List ℕ) → read_full 4 (frame payload ++ rest) ≡ some (header payload)
unfolding read_full frame put_uint32
read_full-header payload rest = ground arith

drop-header : (payload rest : List ℕ) → drop 4 (frame payload ++ rest) ≡ payload ++ rest
unfolding frame put_uint32
drop-header payload rest = refl

get_uint32-header :
    (payload : List ℕ) → 4 + length payload < 2 ^ 32 → get_uint32 (header payload) ≡ length payload
get_uint32-header payload h =
    let e : length payload % 2 ^ 32 ≡ length payload = omega arith in
    rw e (get_uint32-put_uint32 (length payload) (omega arith))

frame_bytes-small : (n : ℕ) → 4 + n < 2 ^ 32 → (4 + n) % 2 ^ 32 ≡ 4 + n
frame_bytes-small n h = omega arith

module _ {R : Type 0} (c : Codec R) where
  -- One round of the inner loop over a whole frame.
  read_frames-frame :
      (room : ℕ) (g : Segment) (offset : ℕ) (p : Pending R) (rest : List ℕ)
      → InSegment c g.seq p
      → read_frames c no_faults (suc room) g offset (frame p.payload ++ rest)
        ≡ add_result p.result (stamp p) (
            if leb g.size (offset + (4 + length p.payload))
            then ok (record {
              results = [];
              entries = [];
              read_offset = offset + (4 + length p.payload);
            })
            else read_frames c no_faults room g (offset + (4 + length p.payload)) rest)
  unfolding read_frames
  read_frames-frame room g offset p rest (at, decodes, small) =
      rw (read_full-header p.payload rest) (
        rw (get_uint32-header p.payload small, drop-header p.payload rest)
          (rw (read_full-append p.payload rest) (
            rw decodes (
              rw (
                get_uint32-header p.payload small,
                drop-header p.payload rest,
                drop-length-append p.payload rest,
                frame_bytes-small (length p.payload) small,
                ← at,
              )))))

  -- The inner loop over the rest of a file: it takes as many results as there is room for.
  pub read_frames-encode :
      (room : ℕ) (g : Segment) (offset : ℕ) (ps : List (Pending R))
      → All (InSegment c g.seq) ps
      → g.size ≡ offset + length (encode ps)
      → read_frames c no_faults room g offset (encode ps)
        ≡ ok (record {
          results = map result_of (take room ps);
          entries = map stamp (take room ps);
          read_offset = offset + length (encode (take room ps));
        })
  read_frames-encode zero g offset ps at size = unfold read_frames in ground arith
  read_frames-encode (suc room) g offset [] at size = unfold read_frames read_full in ground arith
  read_frames-encode (suc room) g offset (p ∷ []) at size =
      rw
        (
          read_frames-frame room g offset p [] at.0,
          le→leb g.size (offset + (4 + length p.payload)) (omega (arith, length-encode-cons p [])),
        )
        (ground (arith, take-nil {A = Pending R} room, length-encode-cons p []))
  read_frames-encode (suc room) g offset (p ∷ q ∷ ps) at size =
      rw (read_frames-frame room g offset p (encode (q ∷ ps)) at.0) (
        rw
          (
            lt→not_leb g.size (offset + (4 + length p.payload))
                (omega (arith, length-encode-cons p (q ∷ ps), length-encode-cons q ps)),
            read_frames-encode room g (offset + (4 + length p.payload)) (q ∷ ps) at.1
                (omega (arith, length-encode-cons p (q ∷ ps))),
          )
          (ground (arith, length-encode-cons p (take room (q ∷ ps)))))

pub length-encode-take :
    {R : Type 0} (n : ℕ) (ps : List (Pending R))
    → n < length ps
    → length (encode (take n ps)) < length (encode ps)
length-encode-take n [] h = absurd (omega arith)
length-encode-take zero (p ∷ ps) h = omega (arith, length-encode-cons p ps)
length-encode-take (suc n) (p ∷ ps) h =
    omega
      (arith, length-encode-cons p ps, length-encode-cons p (take n ps), length-encode-take n ps)
