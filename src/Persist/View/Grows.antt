-- ===== src/Persist/View/Grows.antt =====
-- The view of a segment list to which one record is written, in its last segment or in a new one.
use ping_santo.Prelude.{
  ℕ, ◌<◌, ◌≢◌, ◌≡◌, inl, inr, refl, sym, ap, ◌∙◌, Option, some, List, [], ◌∷◌, ◌++◌, arith, length,
  All-append, append_assoc, append-nil,
}
use mathlib.Core.Path.{subst}
use ping_santo.Persist.Frame.{Codec, frame, length-frame}
use ping_santo.Persist.State.{Segment, ReaderState}
use ping_santo.Persist.Segments.{last_seq, sum_sizes}
use ping_santo.Persist.Segments.Order.{update_last}
use ping_santo.Persist.Writer.{write_bytes, grow}
use ping_santo.Persist.View.{
  Pending, encode, encode-append, length-encode-append, InSegment, OnSegment, Stored, AtHead,
}

-- The write segment after a whole record has reached it.
abbrev pub add_frame : List ℕ → Segment → Segment
add_frame payload g = grow (length (frame payload)) (write_bytes (frame payload) g)

-- A segment that holds just one record.
abbrev pub one_frame : ℕ → List ℕ → Segment
one_frame q payload = add_frame payload (record { seq = q; size = 0; bytes = [] })

module _ {R : Type 0} (c : Codec R) (p : Pending R) where
  OnSegment-add_frame :
      (g : Segment) (xs : List (Pending R))
      → OnSegment c g xs
      → InSegment c g.seq p
      → OnSegment c (add_frame p.payload g) (xs ++ (p ∷ []))
  OnSegment-add_frame g xs (all, bytes, size) new = (
    All-append (InSegment c g.seq) xs (p ∷ []) all (new, tt),
    ap (λ l. l ++ frame p.payload) bytes
        ∙ sym (encode-append xs (p ∷ []) ∙ ap (λ l. encode xs ++ l) (append-nil (frame p.payload))),
    omega (arith, size, length-encode-append xs p [], length-frame p.payload),
  )

  here :
      (g : Segment)
      → Path (Option ℕ) (some g.seq) (some p.seq)
      → InSegment c p.seq p
      → InSegment c g.seq p
  here g at new = let e : p.seq ≡ g.seq = cc in subst (λ q. InSegment c q p) e new

  -- Behind whole segments, in the last of them.
  Stored-update_last :
      (gs : List Segment) (ys : List (Pending R))
      → Stored c gs ys
      → last_seq gs ≡ some p.seq
      → InSegment c p.seq p
      → Stored c (update_last (add_frame p.payload) gs) (ys ++ (p ∷ []))
  unfolding last_seq
  Stored-update_last [] ys s e new = cc
  Stored-update_last (g ∷ []) ys (x, xs, zs, e, on, rest) at new = (
    x,
    xs ++ (p ∷ []),
    [],
    rw (e, rest, append-nil xs, append-nil (xs ++ (p ∷ []))) refl,
    OnSegment-add_frame g (x ∷ xs) on (here g at new),
    refl,
  )
  Stored-update_last (g ∷ g' ∷ gs) ys (x, xs, zs, e, on, rest) at new = (
    x,
    xs,
    zs ++ (p ∷ []),
    rw e (ap (◌∷◌ x) (append_assoc xs zs (p ∷ []))),
    on,
    Stored-update_last (g' ∷ gs) zs rest at new,
  )

  -- Behind whole segments, in a new one.
  Stored-snoc :
      (gs : List Segment) (ys : List (Pending R)) (q : ℕ)
      → Stored c gs ys
      → InSegment c q p
      → Stored c (gs ++ (one_frame q p.payload ∷ [])) (ys ++ (p ∷ []))
  Stored-snoc [] ys q e new = (p, [], [], rw e, OnSegment-add_frame _ [] (tt, refl, refl) new, refl)
  Stored-snoc (g ∷ gs) ys q (x, xs, zs, e, on, rest) new = (
    x,
    xs,
    zs ++ (p ∷ []),
    rw e (ap (◌∷◌ x) (append_assoc xs zs (p ∷ []))),
    on,
    Stored-snoc gs zs q rest new,
  )

  -- The head stays where it is when the last segment grows.
  pub AtHead-update_last :
      (h : ReaderState) (gs : List Segment) (ps : List (Pending R))
      → AtHead c h gs ps
      → last_seq gs ≡ some p.seq
      → InSegment c p.seq p
      → AtHead c h (update_last (add_frame p.payload) gs) (ps ++ (p ∷ []))
  unfolding last_seq
  AtHead-update_last h [] ps v at new = cc
  AtHead-update_last h (g ∷ []) ps (inl (_, e, on, offset, seq)) at new = inr (
    [],
    p,
    [],
    [],
    ap (λ l. l ++ (p ∷ [])) e,
    OnSegment-add_frame g [] on (here g at new),
    offset,
    elim seq [ inl z ↦ inl (z, refl) | inr k ↦ inr k ],
    refl,
  )
  AtHead-update_last h (g ∷ []) ps (inr (acked, x, xs, ys, e, on, offset, seq, rest)) at new = inr (
    acked,
    x,
    xs ++ (p ∷ []),
    [],
    rw (e, rest, append-nil xs, append-nil (xs ++ (p ∷ []))) refl,
    subst (OnSegment c (add_frame p.payload g)) (append_assoc acked (x ∷ xs) (p ∷ []))
        (OnSegment-add_frame g (acked ++ (x ∷ xs)) on (here g at new)),
    offset,
    seq,
    refl,
  )
  AtHead-update_last h (g ∷ g' ∷ gs) ps (inl (e, _, _, _, _)) at new = cc
  AtHead-update_last h (g ∷ g' ∷ gs) ps (inr (acked, x, xs, ys, e, on, offset, seq, rest)) at new =
      inr (
        acked,
        x,
        xs,
        ys ++ (p ∷ []),
        rw e (ap (◌∷◌ x) (append_assoc xs ys (p ∷ []))),
        on,
        offset,
        seq,
        Stored-update_last (g' ∷ gs) ys rest at new,
      )

  -- Nor does it move when a segment is added, if the only segment is not empty.
  pub AtHead-snoc :
      (h : ReaderState) (gs : List Segment) (ps : List (Pending R)) (q : ℕ)
      → AtHead c h gs ps
      → (gs ≢ [] → 0 < sum_sizes gs)
      → InSegment c q p
      → AtHead c h (gs ++ (one_frame q p.payload ∷ [])) (ps ++ (p ∷ []))
  AtHead-snoc h [] ps q (e, seq, offset) full new = inr (
    [],
    p,
    [],
    [],
    ap (λ l. l ++ (p ∷ [])) e,
    OnSegment-add_frame _ [] (tt, refl, refl) new,
    offset,
    inl (seq, refl),
    refl,
  )
  AtHead-snoc h (g ∷ gs) ps q (inl (e, _, on, _, _)) full new =
      let some_size : 0 < sum_sizes (g ∷ gs) = full (λ k. cc) in
      let none_left : sum_sizes (g ∷ gs) ≡ 0 = rw e (unfold sum_sizes in omega (arith, on.2)) in
      absurd (omega arith)
  AtHead-snoc h (g ∷ gs) ps q (inr (acked, x, xs, ys, e, on, offset, seq, rest)) full new = inr (
    acked,
    x,
    xs,
    ys ++ (p ∷ []),
    rw e (ap (◌∷◌ x) (append_assoc xs ys (p ∷ []))),
    on,
    offset,
    seq,
    Stored-snoc gs ys q rest new,
  )
