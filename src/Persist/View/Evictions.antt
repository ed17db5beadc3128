-- ===== src/Persist/View/Evictions.antt =====
-- enforceMaxBytes drops whole segments from the oldest on, until the rest fits.
use ping_santo.Prelude.{
  ℕ, suc, ◌+◌, ◌-◌, ◌≤◌, ◌<◌, ◌≡◌, ◌⊎◌, inl, inr, refl, ap, ◌∙◌, List, [], ◌∷◌, arith, length, ltb,
  ltb→lt, Bool-cases, drop, drop-drop, drop-length-append,
}
use mathlib.Core.Path.{subst}
use ping_santo.Persist.Frame.{Codec}
use ping_santo.Persist.State.{Segment, ReaderState, Store, ok, no_faults}
use ping_santo.Persist.Segments.{last_seq, sum_sizes}
use ping_santo.Persist.Segments.Order.{Above, Above-lower, writer-tail}
use ping_santo.Persist.Writer.{enforce_loop, evict}
use ping_santo.Persist.View.{Pending, Stored, AtHead, Holds}

module _ {R : Type 0} (c : Codec R) where
  -- With no position set, reading begins at the first result.
  pub Stored-unset :
      (h : ReaderState) (gs : List Segment) (ps : List (Pending R))
      → h.seq ≡ 0
      → h.offset ≡ 0
      → Stored c gs ps
      → AtHead c h gs ps
  Stored-unset h [] ps z o e = (e, z, o)
  Stored-unset h (g ∷ gs) ps z o (p, xs, ys, e, on, rest) =
      inr ([], p, xs, ys, e, on, o, inl (z, refl), rest)

  -- What lies behind the first segment, and how many results go with it.
  behind_first :
      (h : ReaderState) (g : Segment) (gs : List Segment) (ps : List (Pending R))
      → AtHead c h (g ∷ gs) ps
      → (k : ℕ) × Stored c gs (drop k ps) × (((h.seq ≡ 0) × (h.offset ≡ 0)) ⊎ (h.seq ≡ g.seq))
  behind_first h g gs ps (inl (e, e', _, offset, seq)) =
      (0, rw (e, e') refl, elim seq [ inl z ↦ inl (z, offset) | inr here ↦ inr here ])
  behind_first h g gs ps (inr (acked, p, xs, ys, e, _, offset, seq, rest)) = (
    suc (length xs),
    rw (e, drop-length-append xs ys) rest,
    elim seq [ inl (z, none_yet) ↦ inl (z, rw none_yet at offset) | inr here ↦ inr here ],
  )

  evict_unset :
      (g : Segment) (gs : List Segment) (s : Store)
      → ((s.head_state.seq ≡ 0) × (s.head_state.offset ≡ 0)) ⊎ (s.head_state.seq ≡ g.seq)
      → ((evict g gs s).head_state.seq ≡ 0) × ((evict g gs s).head_state.offset ≡ 0)
  unfolding evict
  evict_unset g gs s at = ground arith

  evict-parts :
      (g : Segment) (gs : List Segment) (s : Store)
      → ((evict g gs s).segments ≡ gs)
        × ((evict g gs s).total_size ≡ s.total_size - g.size)
        × ((evict g gs s).max_bytes ≡ s.max_bytes)
  unfolding evict
  evict-parts g gs s = ground arith

  evict-writer :
      (g : Segment) (gs : List Segment) (s : Store)
      → Above g.seq gs
      → s.write_seg ≡ last_seq (g ∷ gs)
      → (evict g gs s).write_seg ≡ last_seq gs
  unfolding evict
  evict-writer g gs s a e = ground (arith, writer-tail g gs s.write_seg a e)

  -- The results of the first segment are gone, and the others are as they were.
  evict-Holds :
      (g : Segment) (gs : List Segment) (s : Store) (ps : List (Pending R))
      → s.segments ≡ g ∷ gs
      → Holds c s ps
      → (k : ℕ) × Holds c (evict g gs s) (drop k ps)
  evict-Holds g gs s ps same v =
      let asc : Above 0 (g ∷ gs) = subst (Above 0) same v.ascending in
      let tot : s.total_size ≡ sum_sizes (g ∷ gs) = v.total ∙ ap sum_sizes same in
      let (k, rest, at) =
        behind_first s.head_state g gs ps
          (subst (λ l. AtHead c s.head_state l ps) same v.at_head) in
      let (seq, offset) = evict_unset g gs s at in
      let (gone, less, _) = evict-parts g gs s in
      (
        k,
        record {
          ascending = rw gone (Above-lower gs (omega arith) asc.1);
          total = rw gone (unfold sum_sizes in omega (arith, less, tot));
          writer = rw gone (evict-writer g gs s asc.1 (v.writer ∙ ap last_seq same));
          at_head = rw gone (Stored-unset _ gs (drop k ps) seq offset rest);
        },
      )

  -- The loop ends with the size within the cap, and has dropped nothing if it was so before.
  pub record Trims (s t : Store) (ps : List (Pending R)) : Type 0 where
    pub dropped : ℕ
    pub holds : Holds c t (drop dropped ps)
    pub capped : t.total_size ≤ t.max_bytes
    pub cap_kept : t.max_bytes ≡ s.max_bytes
    pub keeps : (s.max_bytes < s.total_size) ⊎ (dropped ≡ 0)

  pub enforce_loop-Trims :
      (gs : List Segment) (s : Store) (ps : List (Pending R))
      → s.segments ≡ gs
      → Holds c s ps
      → (t : Store) × (enforce_loop no_faults gs s ≡ (ok tt, t)) × Trims s t ps
  unfolding enforce_loop
  enforce_loop-Trims [] s ps same v = (
    s,
    refl,
    record {
      dropped = 0;
      holds = v;
      capped =
          let z : s.total_size ≡ 0 = v.total ∙ ap sum_sizes same ∙ (unfold sum_sizes in refl) in
          omega arith;
      cap_kept = refl;
      keeps = inr refl;
    },
  )
  enforce_loop-Trims (g ∷ gs) s ps same v = elim (Bool-cases (ltb s.max_bytes s.total_size)) [
    | inl over ↦
        let (gone, _, cap) = evict-parts g gs s in
        let (k, v') = evict-Holds g gs s ps same v in
        let (t, e, trims) = enforce_loop-Trims gs (evict g gs s) (drop k ps) gone v' in
        (
          t,
          rw over e,
          record {
            dropped = k + trims.dropped;
            holds = rw (← drop-drop k trims.dropped ps) trims.holds;
            capped = trims.capped;
            cap_kept = trims.cap_kept ∙ cap;
            keeps = inl (ltb→lt s.max_bytes s.total_size over);
          },
        )
    | inr fits ↦ (
      s,
      rw fits,
      record { dropped = 0; holds = v; capped = ground arith; cap_kept = refl; keeps = inr refl },
    )
  ]
