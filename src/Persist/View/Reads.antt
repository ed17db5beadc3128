-- ===== src/Persist/View/Reads.antt =====
-- ReadBatch returns the oldest results and changes nothing.
use ping_santo.Prelude.{
  ℕ, zero, suc, ◌⊎◌, ◌+◌, ◌-◌, inl, inr, ◌≡◌, refl, ap, ◌∙◌, List, [], ◌∷◌, ◌++◌, map, some, arith,
  length, take, drop, if◌then◌else◌, length-append, drop-length-append, le→not_ltb, lt→ltb,
  length-map, sym, take-nil, take_all, take-append_ge, take-append_le, All-append_right, map-append,
  ◌==◌,
}
use native.Mathlib.Decide.{dec_le}
use ping_santo.Persist.Frame.{Codec}
use ping_santo.Persist.State.{Segment, Store, ReaderState, Batch, ok, no_faults}
use ping_santo.Persist.Reader.{read_from, read_batch, room_of, read_frames, read_segments}
use ping_santo.Persist.Segments.{from_seq}
use ping_santo.Persist.View.Frames.{read_frames-encode, length-encode-take}
use ping_santo.Persist.View.{
  Pending, result_of, stamp, encode, encode-append, InSegment, OnSegment, Stored, AtHead, Holds,
}

-- The batch that stands for the results.
abbrev pub batch_of : {R : Type 0} → List (Pending R) → Batch R
batch_of ps = record { results = map result_of ps; entries = map stamp ps }

batch_of-append :
    {R : Type 0} (ps qs : List (Pending R))
    → ok (batch_of (ps ++ qs))
      ≡ ok (record {
        results = map result_of ps ++ map result_of qs;
        entries = map stamp ps ++ map stamp qs;
      })
batch_of-append ps qs = rw (map-append result_of ps qs, map-append stamp ps qs)

module _ {R : Type 0} (c : Codec R) where
  -- What the inner loop finds behind the results `acked` of a segment.
  read_frames-OnSegment :
      (g : Segment) (room : ℕ) (acked ps : List (Pending R))
      → OnSegment c g (acked ++ ps)
      → read_frames c no_faults room g
          (length (encode acked))
          (drop (length (encode acked)) g.bytes)
        ≡ ok (record {
          results = map result_of (take room ps);
          entries = map stamp (take room ps);
          read_offset = length (encode acked) + length (encode (take room ps));
        })
  read_frames-OnSegment g room acked ps (all, bytes, size) =
      let behind : drop (length (encode acked)) g.bytes ≡ encode ps =
        ap (drop (length (encode acked))) (bytes ∙ encode-append acked ps)
        ∙ drop-length-append (encode acked) (encode ps) in
      rw behind (
        read_frames-encode c room g (length (encode acked)) ps
          (All-append_right (InSegment c g.seq) acked ps all)
          (rw (size, encode-append acked ps) (length-append (encode acked) (encode ps))))

  -- The outer loop returns what it has room for of the results `ys`.
  abbrev Returns : List Segment → List (Pending R) → ℕ → ℕ → Type 0
  Returns gs ys start offset =
      (room : ℕ) → read_segments c no_faults room gs start offset ≡ ok (batch_of (take room ys))

  -- The outer loop in a segment, where it begins behind the results `acked`.
  read_segments-step :
      (g : Segment) (gs : List Segment) (start offset : ℕ) (acked ps ys : List (Pending R))
      → (if g.seq == start then offset else 0) ≡ length (encode acked)
      → OnSegment c g (acked ++ ps)
      → Returns gs ys 0 0
      → Returns (g ∷ gs) (ps ++ ys) start offset
  unfolding read_segments
  read_segments-step g gs start offset acked ps ys at on rest zero = refl
  read_segments-step g gs start offset acked ps ys at on rest (suc room) =
      rw (at, read_frames-OnSegment g (suc room) acked ps on)
        (elim (dec_le (length ps) (suc room)) [
          | yes fits ↦
              rw (take-append_ge (suc room) ps ys fits, take_all (suc room) ps fits)
                (rw
                  (
                    le→not_ltb (length (encode acked) + length (encode ps)) g.size
                        (omega (arith, whole)),
                    length-map result_of ps,
                    rest (suc room - length ps),
                  )
                  (sym (batch_of-append ps (take (suc room - length ps) ys))))
          | no more ↦ rw (
            take-append_le (suc room) ps ys (omega arith),
            lt→ltb (length (encode acked) + length (encode (take (suc room) ps))) g.size
                (omega (arith, whole, length-encode-take (suc room) ps)),
          )
        ])
    where
      whole : g.size ≡ length (encode acked) + length (encode ps)
      whole = on.2 ∙ ap length (encode-append acked ps) ∙ length-append (encode acked) (encode ps)

  read_segments-Stored :
      (gs : List Segment) (ys : List (Pending R)) → Stored c gs ys → Returns gs ys 0 0
  unfolding read_segments
  read_segments-Stored [] ys e room = rw e (ap (λ l. ok (batch_of l)) (sym (take-nil room)))
  read_segments-Stored (g ∷ gs) ys (p, xs, zs, e, on, rest) room = rw e (
      read_segments-step g gs 0 0 [] (p ∷ xs) zs (ground arith) on (read_segments-Stored gs zs rest)
        room)

  start_at-head :
      (g : Segment) (h : ReaderState)
      → (h.seq ≡ 0) ⊎ (h.seq ≡ g.seq)
      → (if h.seq == 0 then g.seq else h.seq) ≡ g.seq
  start_at-head g h e = ground arith

  from_seq-head : (g : Segment) (gs : List Segment) → from_seq g.seq (g ∷ gs) ≡ some (g ∷ gs)
  unfolding from_seq
  from_seq-head g gs = ground arith

  read_from-AtHead :
      (max : ℕ) (gs : List Segment) (s : Store) (ps : List (Pending R))
      → AtHead c s.head_state gs ps
      → read_from c no_faults max gs s ≡ (ok (batch_of (take (room_of max) ps)), s)
  unfolding read_from
  read_from-AtHead max [] s ps (e, _, _) =
      rw e (ap (λ l. (ok (batch_of l), s)) (sym (take-nil (room_of max))))
  read_from-AtHead max (g ∷ gs) s ps (inl (e, e', on, at, seq)) =
      rw (start_at-head g s.head_state seq, read_from)
        (rw (from_seq-head g gs, read_from)
          (rw (
            start_at-head g s.head_state seq,
            e,
            e',
            read_segments-step g [] g.seq s.head_state.offset [] [] [] (ground arith) on
                (read_segments-Stored [] [] refl) (room_of max),
          )))
  read_from-AtHead max (g ∷ gs) s ps (inr (acked, p, xs, ys, e, on, at, seq, rest)) =
      rw (start_at-head g s.head_state (ground arith), read_from)
        (rw (from_seq-head g gs, read_from)
          (rw (
            start_at-head g s.head_state (ground arith),
            e,
            read_segments-step g gs g.seq s.head_state.offset acked (p ∷ xs) ys (ground arith) on
                (read_segments-Stored gs ys rest) (room_of max),
          )))

  -- ReadBatch returns the oldest results that the store holds, as many as were asked for (1024 if
  -- that is not positive), and leaves the store as it is.
  pub read_batch-Holds :
      (max : ℕ) (s : Store) (ps : List (Pending R))
      → Holds c s ps
      → read_batch c no_faults max s ≡ (ok (batch_of (take (room_of max) ps)), s)
  unfolding read_batch
  read_batch-Holds max s ps v = read_from-AtHead max s.segments s ps v.at_head
