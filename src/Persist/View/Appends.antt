-- ===== src/Persist/View/Appends.antt =====
-- Append adds the result behind the others; enforceMaxBytes drops the oldest segments.
use ping_santo.Prelude.{
  ℕ, suc, ◌+◌, ◌≤◌, ◌<◌, not_leb→lt, ◌^◌, ◌≡◌, ◌≢◌, ◌⊎◌, inl, inr, refl, sym, ap, ◌∙◌, true, false,
  none, some, List, [], ◌∷◌, ◌++◌, arith, length, leb, Bool-cases, Option-cases, drop,
}
use ping_santo.Persist.Frame.{Codec, IsFaithful, frame, length-frame}
use ping_santo.Persist.State.{Segment, Store, ok, no_faults, bind-eq, ◌>>◌}
use ping_santo.Persist.Segments.{last_seq, sum_sizes, sort_segments, update_segment}
use ping_santo.Persist.Segments.Order.{
  Above, Under, update_last, update_segment-last, find_size, update_last_twice, update_last-snoc,
  nil_of_last_seq, sort_segments-snoc, Above-snoc, last_seq-snoc, sum_sizes-snoc, last_seq-Under,
  Above-update_last, last_seq-update_last, sum_sizes-update_last,
}
use ping_santo.Persist.Writer.{
  write_bytes, grow, write_size, rotate_if_needed, write_record, enforce_loop, enforce_max_bytes,
  append, append_payload, persist_state,
}
use ping_santo.Persist.View.Evictions.{enforce_loop-Trims}
use ping_santo.Persist.View.Grows.{add_frame, one_frame, AtHead-update_last, AtHead-snoc}
use ping_santo.Persist.View.{Pending, InSegment, Holds}

-- A new segment is opened for the number `q`.
abbrev opened : ℕ → Store → Store
opened q s = record s {
  segments = sort_segments (s.segments ++ (record { seq = q; size = 0; bytes = [] } ∷ []));
  write_seg = some q;
}

-- The bytes are in the segment numbered `q`.
abbrev written : ℕ → List ℕ → Store → Store
written q bs s = record s {
  segments = update_segment q (grow (length bs)) (update_segment q (write_bytes bs) s.segments);
  total_size = s.total_size + length bs;
}

rotate_first :
    (n : ℕ) (s : Store) → s.write_seg ≡ none → rotate_if_needed no_faults n s ≡ (ok tt, opened 1 s)
unfolding rotate_if_needed
rotate_first n s e = ground arith

rotate_keep :
    (n q : ℕ) (s : Store)
    → s.write_seg ≡ some q
    → leb (write_size s q + n) s.segment_size ≡ true
    → rotate_if_needed no_faults n s ≡ (ok tt, s)
unfolding rotate_if_needed
rotate_keep n q s e fits = ground arith

rotate_next :
    (n q : ℕ) (s : Store)
    → s.write_seg ≡ some q
    → leb (write_size s q + n) s.segment_size ≡ false
    → rotate_if_needed no_faults n s ≡ (ok tt, opened (suc q) s)
unfolding rotate_if_needed
rotate_next n q s e fits = ground arith

write_record_lem :
    (bs : List ℕ) (q : ℕ) (s : Store)
    → s.write_seg ≡ some q
    → write_record no_faults bs s ≡ (ok tt, written q bs s)
unfolding write_record
write_record_lem bs q s e = ground arith

update_segment_twice :
    (n q k : ℕ) (bs : List ℕ) (gs : List Segment)
    → Above n gs
    → last_seq gs ≡ some q
    → update_segment q (grow k) (update_segment q (write_bytes bs) gs)
      ≡ update_last (λ g. grow k (write_bytes bs g)) gs
update_segment_twice n q k bs gs a e = rw (update_segment-last n q (write_bytes bs) gs a e) (
    update_segment-last n q (grow k) (update_last (write_bytes bs) gs)
      (Above-update_last (write_bytes bs) 0 (λ g. (refl, omega arith)) n gs a)
      (last_seq-update_last (write_bytes bs) 0 (λ g. (refl, omega arith)) gs ∙ e)
    ∙ update_last_twice (write_bytes bs) (grow k) gs)

module _ {R : Type 0} (c : Codec R) where
  -- The last segment takes the record.
  written-Holds :
      (s : Store) (ps : List (Pending R)) (p : Pending R)
      → Holds c s ps
      → s.write_seg ≡ some p.seq
      → InSegment c p.seq p
      → Holds c (written p.seq (frame p.payload) s) (ps ++ (p ∷ []))
  written-Holds s ps p v e new =
      let last : last_seq s.segments ≡ some p.seq = sym v.writer ∙ e in
      let same =
        update_segment_twice 0 p.seq (length (frame p.payload)) (frame p.payload) s.segments
          v.ascending last in
      let grows : (g : Segment)
          → ((add_frame p.payload g).seq ≡ g.seq)
            × ((add_frame p.payload g).size ≡ g.size + length (frame p.payload)) =
        λ g. (refl, refl) in
      record {
        ascending =
            rw same (Above-update_last (add_frame p.payload) _ grows 0 s.segments v.ascending);
        total = rw same (
            ap (λ k. k + length (frame p.payload)) v.total
            ∙ sym (sum_sizes-update_last (add_frame p.payload) _ grows p.seq s.segments last));
        writer =
            rw same
              (v.writer ∙ sym (last_seq-update_last (add_frame p.payload) _ grows s.segments));
        at_head = rw same (AtHead-update_last c p s.head_state s.segments ps v.at_head last new);
      }

  -- A new segment takes the record.
  opened-Holds :
      (s : Store) (ps : List (Pending R)) (p : Pending R)
      → Holds c s ps
      → Under p.seq s.segments
      → 0 < p.seq
      → (s.segments ≢ [] → 0 < sum_sizes s.segments)
      → InSegment c p.seq p
      → Holds c (written p.seq (frame p.payload) (opened p.seq s)) (ps ++ (p ∷ []))
  opened-Holds s ps p v under pos full new =
      let empty : Segment = record { seq = p.seq; size = 0; bytes = [] } in
      let sorted = sort_segments-snoc 0 s.segments empty v.ascending under in
      let same =
        update_segment_twice 0 p.seq (length (frame p.payload)) (frame p.payload)
          (s.segments ++ (empty ∷ [])) (Above-snoc 0 s.segments empty v.ascending under pos)
          (last_seq-snoc s.segments empty)
        ∙ update_last-snoc (add_frame p.payload) s.segments empty in
      record {
        ascending =
            rw (sorted, same)
              (Above-snoc 0 s.segments (one_frame p.seq p.payload) v.ascending under pos);
        total =
            rw (sorted, same)
              (omega (arith, v.total, sum_sizes-snoc s.segments (one_frame p.seq p.payload)));
        writer = rw (sorted, same) (sym (last_seq-snoc s.segments (one_frame p.seq p.payload)));
        at_head =
            rw (sorted, same) (AtHead-snoc c p s.head_state s.segments ps p.seq v.at_head full new);
      }

  -- The record is written: where it goes, and what the store is then.
  record Writes (r : R) (payload : List ℕ) (s : Store) (ps : List (Pending R)) : Type 0 where
    seq : ℕ
    rotated : Store
    after : Store
    rotates : rotate_if_needed no_faults (length (frame payload)) s ≡ (ok tt, rotated)
    runs : write_record no_faults (frame payload) rotated ≡ (ok tt, after)
    holds : Holds c after (ps ++ (record { seq = seq; payload = payload; result = r } ∷ []))
    total : after.total_size ≡ s.total_size + length (frame payload)
    cap : after.max_bytes ≡ s.max_bytes

  module _ (r : R) (payload : List ℕ) (decodes : c.unmarshal payload ≡ some r)
      (small : 4 + length payload < 2 ^ 32) where
    abbrev pending : ℕ → Pending R
    pending q = record { seq = q; payload = payload; result = r }

    write_to :
        (q : ℕ) (s u : Store) (ps : List (Pending R))
        → rotate_if_needed no_faults (length (frame payload)) s ≡ (ok tt, u)
        → u.write_seg ≡ some q
        → Holds c (written q (frame payload) u) (ps ++ (pending q ∷ []))
        → u.total_size ≡ s.total_size
        → u.max_bytes ≡ s.max_bytes
        → Writes r payload s ps
    write_to q s u ps rotates at v tot cap = record {
      seq = q;
      after = written q (frame payload) u;
      rotated = u;
      rotates = rotates;
      runs = write_record_lem (frame payload) q u at;
      holds = v;
      total = ap (λ k. k + length (frame payload)) tot;
      cap = cap;
    }

    -- A segment is only closed when something is in it.
    full_segments :
        (n q : ℕ) (s : Store)
        → n ≤ s.segment_size
        → leb (write_size s q + n) s.segment_size ≡ false
        → 0 < sum_sizes s.segments
    full_segments n q s fits over =
        omega (arith, find_size q s.segments, not_leb→lt (write_size s q + n) s.segment_size over)

    writes :
        (s : Store) (ps : List (Pending R))
        → 4 + length payload ≤ s.segment_size
        → Holds c s ps
        → Writes r payload s ps
    writes s ps fits v = elim (Option-cases s.write_seg) [
      | inl e ↦
          let none_yet : s.segments ≡ [] = nil_of_last_seq s.segments (sym v.writer ∙ e) in
          write_to 1 s (opened 1 s) ps (rotate_first _ s e) refl
            (opened-Holds s ps (pending 1) v (rw none_yet tt) (omega arith)
              (λ h. absurd (h none_yet)) (refl, decodes, small))
            refl refl
      | inr (q, e) ↦
          elim (Bool-cases (leb (write_size s q + length (frame payload)) s.segment_size)) [
            | inl keep ↦
                write_to q s s ps (rotate_keep _ q s e keep) e
                  (written-Holds s ps (pending q) v e (refl, decodes, small)) refl refl
            | inr over ↦
                let last : last_seq s.segments ≡ some q = sym v.writer ∙ e in
                write_to (suc q) s (opened (suc q) s) ps (rotate_next _ q s e over) refl
                  (opened-Holds s ps (pending (suc q)) v
                    (last_seq-Under 0 q s.segments v.ascending last) (omega arith)
                    (λ _.
                      full_segments (length (frame payload)) q s
                        (omega (arith, length-frame payload)) over)
                    (refl, decodes, small))
                  refl refl
          ]
    ]

  -- The three parts of `Append`, in a run where each succeeds.
  append_lem :
      (r : R) (payload : List ℕ) (s m t u : Store)
      → c.marshal r ≡ some payload
      → rotate_if_needed no_faults (length (frame payload)) s ≡ (ok tt, m)
      → write_record no_faults (frame payload) m ≡ (ok tt, t)
      → enforce_loop no_faults t.segments t ≡ (ok tt, u)
      → append c no_faults r s ≡ persist_state no_faults u
  unfolding append append_payload enforce_max_bytes
  append_lem r payload s m t u encodes rotates runs loops =
      rw (encodes, append)
        (bind-eq (rotate_if_needed no_faults (length (frame payload)))
            (λ _. write_record no_faults (frame payload) >> enforce_max_bytes no_faults) s m rotates
          ∙ bind-eq (write_record no_faults (frame payload)) (λ _. enforce_max_bytes no_faults) m t
              runs
          ∙ bind-eq (enforce_loop no_faults t.segments) (λ _. persist_state no_faults) t u loops)

  -- Append without faults succeeds. The store then holds the result behind those that it held, less
  -- the oldest ones, which are dropped only if the sizes would otherwise exceed `max_bytes`; the
  -- size is within `max_bytes`, and the head position is on disk. The record fits in a segment, and
  -- its length in a uint32.
  pub append-Holds :
      (r : R) (payload : List ℕ) (s : Store) (ps : List (Pending R))
      → IsFaithful c
      → c.marshal r ≡ some payload
      → 4 + length payload < 2 ^ 32
      → 4 + length payload ≤ s.segment_size
      → Holds c s ps
      → let (result, t) = append c no_faults r s in
        (p : Pending R) × (k : ℕ) × (p.result ≡ r)
        × (result ≡ ok tt)
        × Holds c t (drop k (ps ++ (p ∷ [])))
        × (t.total_size ≤ t.max_bytes)
        × ((s.max_bytes < s.total_size + (4 + length payload)) ⊎ (k ≡ 0))
        × (t.state_file ≡ some t.head_state)
  append-Holds r payload s ps faithful encodes small fits v =
      let w = writes r payload (faithful.roundtrip r payload encodes) small s ps fits v in
      let new : Pending R = record { seq = w.seq; payload = payload; result = r } in
      let (u, looped, trims) =
        enforce_loop-Trims c w.after.segments w.after (ps ++ (new ∷ [])) refl w.holds in
      let done : append c no_faults r s ≡ persist_state no_faults u =
        append_lem r payload s w.rotated w.after u encodes w.rotates w.runs looped in
      let kept : (s.max_bytes < s.total_size + (4 + length payload)) ⊎ (trims.dropped ≡ 0) =
        elim trims.keeps [
          | inl h ↦ inl (omega (arith, w.total, w.cap, length-frame payload))
          | inr z ↦ inr z
        ] in
      rw done (
        unfold persist_state in
        (
          new,
          trims.dropped,
          refl,
          refl,
          record {
            ascending = trims.holds.ascending;
            total = trims.holds.total;
            writer = trims.holds.writer;
            at_head = trims.holds.at_head;
          },
          trims.capped,
          kept,
          refl,
        ))
