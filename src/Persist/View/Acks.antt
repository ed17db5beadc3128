-- ===== src/Persist/View/Acks.antt =====
-- Ack removes the results of the batch, from the oldest on, and nothing else.
use ping_santo.Prelude.{
  ℕ, ◌+◌, ◌≡◌, ◌⊎◌, inl, inr, refl, sym, ap, ◌∙◌, ◌<◌, List, map, [], ◌∷◌, ◌++◌, some, true, false,
  le→leb, lt→not_leb, arith, length, All-append_right, append_assoc, leb,
}
use mathlib.Core.Path.{subst}
use ping_santo.Persist.Frame.{Codec}
use ping_santo.Persist.State.{Segment, Store, ReaderState, BatchEntry, ok, no_faults, bind-ok}
use ping_santo.Persist.Segments.{last_seq, sum_sizes}
use ping_santo.Persist.Acker.{
  advance, consume, drop_read, ack_entry, ack_loop, ack, unless_broken, next_head,
}
use ping_santo.Persist.Writer.{persist_state}
use ping_santo.Persist.View.Reads.{batch_of}
use ping_santo.Persist.Segments.Order.{Above, Above-lower, writer-tail}
use ping_santo.Persist.View.{
  Pending, stamp, encode, length-encode-cons, length-encode-append, InSegment, OnSegment, Stored,
  AtHead, Holds,
}

-- The head stands at the offset `a` of the segment numbered `q`, or is not set and `a` is 0.
advance_from :
    (h : ReaderState) (e : BatchEntry) (q a : ℕ)
    → 0 < q
    → e.seq ≡ q
    → h.offset ≡ a
    → ((h.seq ≡ 0) × (a ≡ 0)) ⊎ (h.seq ≡ q)
    → ((advance e h).seq ≡ q) × ((advance e h).offset ≡ a + e.bytes)
unfolding advance
advance_from h e q a pos at offset seq = ground arith

module _ {R : Type 0} (c : Codec R) where
  -- Whole segments are read from their first result on.
  pub Stored-AtHead :
      (gs : List Segment) (ps : List (Pending R)) → Stored c gs ps → AtHead c (next_head gs) gs ps
  Stored-AtHead [] ps e = (e, refl, refl)
  Stored-AtHead (g ∷ gs) ps (p, xs, ys, e, on, rest) =
      inr ([], p, xs, ys, e, on, refl, inr refl, rest)

  -- The store's segments, with the list at hand.
  record Parts (s : Store) (gs : List Segment) : Type 0 where
    same : s.segments ≡ gs
    ascending : Above 0 gs
    total : s.total_size ≡ sum_sizes gs
    writer : s.write_seg ≡ last_seq gs

  consume-Holds :
      (g : Segment) (gs : List Segment) (s : Store) (ps : List (Pending R))
      → Parts s (g ∷ gs)
      → Stored c gs ps
      → Holds c (consume g gs s) ps
  unfolding consume
  consume-Holds g gs s ps v rest = record {
    ascending = Above-lower gs (omega arith) v.ascending.1;
    total = unfold sum_sizes in omega arith;
    writer = writer-tail g gs s.write_seg v.ascending.1 v.writer;
    at_head = Stored-AtHead gs ps rest;
  }

  Parts-Holds :
      (s : Store) (gs : List Segment) (ps : List (Pending R))
      → Parts s gs
      → AtHead c s.head_state gs ps
      → Holds c s ps
  Parts-Holds s gs ps v h = record {
    ascending = subst (Above 0) (sym v.same) v.ascending;
    total = v.total ∙ ap sum_sizes (sym v.same);
    writer = v.writer ∙ ap last_seq (sym v.same);
    at_head = subst (λ l. AtHead c s.head_state l ps) (sym v.same) h;
  }

  -- The head has moved over `p`: the segment goes if that was its last result.
  drop_read-Holds :
      (g : Segment) (gs : List Segment) (s : Store) (acked : List (Pending R)) (p : Pending R)
      (xs ys : List (Pending R))
      → Parts s (g ∷ gs)
      → OnSegment c g (acked ++ (p ∷ xs))
      → s.head_state.seq ≡ g.seq
      → s.head_state.offset ≡ length (encode acked) + (4 + length p.payload)
      → Stored c gs ys
      → ((drop_read no_faults (g ∷ gs) s).0 ≡ ok true)
        × Holds c (drop_read no_faults (g ∷ gs) s).1 (xs ++ ys)
  unfolding drop_read
  drop_read-Holds g gs s acked p [] ys v on at offset rest =
      let read : leb g.size s.head_state.offset ≡ true =
        le→leb _ _ (omega (arith, on.2, length-encode-append acked p [])) in
      rw read (refl, consume-Holds g gs s ys v rest)
  drop_read-Holds g gs s acked p (q ∷ xs) ys v on at offset rest =
      let more : leb g.size s.head_state.offset ≡ false =
        lt→not_leb _ _
          (omega (arith, on.2, length-encode-append acked p (q ∷ xs), length-encode-cons q xs)) in
      rw more (
        refl,
        Parts-Holds s (g ∷ gs) (q ∷ (xs ++ ys)) v (
            inr (
              acked ++ (p ∷ []),
              q,
              xs,
              ys,
              refl,
              rw (append_assoc acked (p ∷ []) (q ∷ xs)) on,
              omega (arith, offset, length-encode-append acked p []),
              inr at,
              rest,
            )),
      )

  drop_read-advance :
      (gs : List Segment) (s : Store) (p : Pending R) (ps : List (Pending R))
      → Parts s gs
      → AtHead c s.head_state gs (p ∷ ps)
      → let t = record s { head_state = advance (stamp p) s.head_state } in
        ((drop_read no_faults gs t).0 ≡ ok true) × Holds c (drop_read no_faults gs t).1 ps
  drop_read-advance [] s p ps v (e, _, _) = cc
  drop_read-advance (g ∷ gs) s p ps v (inl (_, e, _, _, _)) = cc
  drop_read-advance (g ∷ gs) s p ps v (inr (acked, p', xs, ys, e, on, offset, seq, rest)) =
      let e₁ : p ≡ p' = cc in
      let e₂ : ps ≡ xs ++ ys = cc in
      let on' : OnSegment c g (acked ++ (p ∷ xs)) = rw e₁ on in
      let in_g : p.seq ≡ g.seq = (All-append_right (InSegment c g.seq) acked (p ∷ xs) on'.0).0.0 in
      let (seq', offset') =
        advance_from s.head_state (stamp p) g.seq (length (encode acked)) v.ascending.0 in_g offset
          (elim seq [ inl (z, none_yet) ↦ inl (z, rw none_yet) | inr here ↦ inr here ]) in
      rw e₂ (
        drop_read-Holds g gs (record s { head_state = advance (stamp p) s.head_state }) acked p xs
          ys (record { same = v.same; ascending = v.ascending; total = v.total; writer = v.writer })
          on' seq' offset' rest)

  ack_entry-Holds :
      (s : Store) (p : Pending R) (ps : List (Pending R))
      → Holds c s (p ∷ ps)
      → ((ack_entry no_faults (stamp p) s).0 ≡ ok true)
        × Holds c (ack_entry no_faults (stamp p) s).1 ps
  unfolding ack_entry
  ack_entry-Holds s p ps v =
      drop_read-advance s.segments s p ps
        (record { same = refl; ascending = v.ascending; total = v.total; writer = v.writer })
        v.at_head

  ack_loop-Holds :
      (ps qs : List (Pending R)) (s : Store)
      → Holds c s (ps ++ qs)
      → ((ack_loop no_faults (map stamp ps) s).0 ≡ ok tt)
        × Holds c (ack_loop no_faults (map stamp ps) s).1 qs
  unfolding ack_loop
  ack_loop-Holds [] qs s v = (refl, v)
  ack_loop-Holds (p ∷ ps) qs s v =
      let (more, v') = ack_entry-Holds s p (ps ++ qs) v in
      let step : ack_loop no_faults (map stamp (p ∷ ps)) s
          ≡ ack_loop no_faults (map stamp ps) (ack_entry no_faults (stamp p) s).1 =
        bind-ok (ack_entry no_faults (stamp p)) (unless_broken (ack_loop no_faults (map stamp ps)))
          s more in
      rw step (ack_loop-Holds ps qs (ack_entry no_faults (stamp p) s).1 v')

  -- Acknowledging a batch that stands for the oldest results succeeds, and leaves the results that
  -- follow; of a batch that is not empty the new head position is on disk.
  pub ack-Holds :
      (ps qs : List (Pending R)) (s : Store)
      → Holds c s (ps ++ qs)
      → let (r, t) = ack no_faults (batch_of ps) s in
        (r ≡ ok tt) × Holds c t qs × ((ps ≡ []) ⊎ (t.state_file ≡ some t.head_state))
  ack-Holds [] qs s v = unfold ack in (refl, v, inl refl)
  ack-Holds (p ∷ ps) qs s v =
      let (done, v') = ack_loop-Holds (p ∷ ps) qs s v in
      let step : ack no_faults (batch_of (p ∷ ps)) s
          ≡ persist_state no_faults (ack_loop no_faults (map stamp (p ∷ ps)) s).1 =
        unfold ack in
        bind-ok (ack_loop no_faults (map stamp (p ∷ ps))) (λ _. persist_state no_faults) s done in
      rw step (
        unfold persist_state in
        (
          refl,
          record {
            ascending = v'.ascending;
            total = v'.total;
            writer = v'.writer;
            at_head = v'.at_head;
          },
          inr refl,
        ))
