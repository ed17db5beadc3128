-- ===== src/Persist/View/Stale.antt =====
-- An acknowledgement that comes after enforceMaxBytes has dropped the batch's segment.
use ping_santo.Prelude.{◌≤◌, ◌≡◌, ◌≢◌, inl, inr, ap, ◌∙◌, List, [], ◌∷◌, arith, All-append_right}
use mathlib.Core.Path.{subst}
use ping_santo.Persist.Frame.{Codec}
use ping_santo.Persist.State.{Segment, Store, ReaderState, BatchEntry, ok, no_faults}
use ping_santo.Persist.Writer.{persist_state, remove_head_segment}
use ping_santo.Persist.Acker.{ack, ack_loop, ack_entry, drop_read, advance, consume}
use ping_santo.Persist.View.{Pending, InSegment, AtHead, Holds}

module _ {R : Type 0} (c : Codec R) where
  -- The oldest result lies in the first segment.
  first_seq :
      (h : ReaderState) (g : Segment) (gs : List Segment) (p : Pending R) (ps : List (Pending R))
      → AtHead c h (g ∷ gs) (p ∷ ps)
      → p.seq ≡ g.seq
  first_seq h g gs p ps (inl (_, e, _, _, _)) = cc
  first_seq h g gs p ps (inr (acked, p', xs, ys, e, on, _, _, _)) =
      let same : p ≡ p' = cc in
      ap (λ t. t.seq) same ∙ (All-append_right (InSegment c g.seq) acked (p' ∷ xs) on.0).0.0

  -- An entry of a segment that is no longer there, and at which the head does not stand, deletes the
  -- first segment if that is no longer than the entry, although its oldest result `p` is unread.
  pub stale_ack_deletes :
      (g : Segment) (gs : List Segment) (e : BatchEntry) (s : Store) (p : Pending R)
      (ps : List (Pending R))
      → Holds c s (p ∷ ps)
      → s.segments ≡ g ∷ gs
      → s.head_state.seq ≢ e.seq
      → e.seq ≢ g.seq
      → g.size ≤ e.bytes
      → let (r, t) = ack {R = R} no_faults (record { results = []; entries = e ∷ [] }) s in
        (p.seq ≡ g.seq) × (p.seq ≢ e.seq) × (r ≡ ok tt) × (t.segments ≡ gs)
  unfolding ack ack_loop ack_entry drop_read advance consume remove_head_segment persist_state
  stale_ack_deletes g gs e s p ps v same away other short =
      let at : p.seq ≡ g.seq =
        first_seq s.head_state g gs p ps
          (subst (λ l. AtHead c s.head_state l (p ∷ ps)) same v.at_head) in
      (at, ground (arith, at), ground arith, ground arith)
