-- ===== src/Persist/Opening/Reopens.antt =====
-- Open finds in the directory what the store that wrote it held.
use ping_santo.Prelude.{
  ℕ, ◌<◌, ◌^◌, ◌≡◌, ◌⊎◌, inl, inr, refl, sym, ap, ◌∙◌, Option, none, some, List, [], ◌∷◌, ◌++◌, All,
  arith, length, Option-cases,
}
use ping_santo.Persist.Frame.{Codec}
use ping_santo.Persist.State.{Segment, ReaderState, Store, ok, no_faults}
use ping_santo.Persist.Segments.{last_seq, sum_sizes, sort_segments, insert_sorted}
use ping_santo.Persist.Segments.Order.{Above, nil_of_last_seq}
use ping_santo.Persist.Writer.{create_segment_file}
use ping_santo.Persist.Acker.{ack}
use ping_santo.Persist.View.Acks.{ack-Holds}
use ping_santo.Persist.View.Reads.{batch_of}
use ping_santo.Persist.View.{Pending, Stored, AtHead, Holds, length-encode-cons}
use ping_santo.Persist.Opening.{
  Directory, StateFile, missing, saved, first_head, load_segments, load_state, reopen_last,
  ensure_write_segment, blank, fill, open_store, opened_store, max_bytes_of, segment_size_of,
}
use ping_santo.Persist.Opening.Listings.{Listing, IsWhole, no_open_faults, scan-Listing}

-- The contents of state.json
abbrev pub on_disk : Option ReaderState → StateFile
on_disk none = missing
on_disk (some h) = saved h

-- The directory is the store's: its segment files, and its state file.
pub record IsDirectoryOf (s : Store) (dir : Directory) : Type 0 where
  pub files : Listing dir.files s.segments
  pub state : dir.state ≡ on_disk s.state_file

-- The head is on disk, or nothing of the first segment is acknowledged and there is no state file.
abbrev pub IsSaved : Store → Type 0
IsSaved s = (s.state_file ≡ some s.head_state) ⊎ ((s.state_file ≡ none) × (s.head_state.offset ≡ 0))

-- Segment numbers are int64 values.
abbrev pub HasSmallNumbers : Store → Type 0
HasSmallNumbers s = All (λ g. g.seq < 2 ^ 63) s.segments

-- The store that is opened on the segments, with the head and the state file.
abbrev loaded : ℕ → ℕ → List Segment → ReaderState → Option ReaderState → Store
loaded m z gs h f = record {
  max_bytes = max_bytes_of m;
  segment_size = segment_size_of (max_bytes_of m) z;
  segments = gs;
  write_seg = none;
  head_state = h;
  total_size = sum_sizes gs;
  state_file = f;
}

module _ {R : Type 0} (c : Codec R) where
  sizes-Stored :
      (gs : List Segment) (ps : List (Pending R))
      → Stored c gs ps
      → All (λ (g : Segment). g.size ≡ length g.bytes) gs
  sizes-Stored [] ps e = tt
  sizes-Stored (g ∷ gs) ps (p, xs, ys, _, (_, bytes, size), rest) =
      (size ∙ sym (ap length bytes), sizes-Stored gs ys rest)

  sizes-AtHead :
      (h : ReaderState) (gs : List Segment) (ps : List (Pending R))
      → AtHead c h gs ps
      → All (λ (g : Segment). g.size ≡ length g.bytes) gs
  sizes-AtHead h [] ps at = tt
  sizes-AtHead h (g ∷ gs) ps (inl (e, _, (_, bytes, size), _, _)) =
      (size ∙ sym (ap length bytes), rw e tt)
  sizes-AtHead h (g ∷ gs) ps (inr (acked, p, xs, ys, _, (_, bytes, size), _, _, rest)) =
      (size ∙ sym (ap length bytes), sizes-Stored gs ys rest)

  whole :
      (gs : List Segment)
      → All (λ (g : Segment). g.size ≡ length g.bytes) gs
      → All (λ (g : Segment). g.seq < 2 ^ 63) gs
      → All IsWhole gs
  whole [] sizes small = tt
  whole (g ∷ gs) sizes small = ((sizes.0, small.0), whole gs sizes.1 small.1)

  -- Without a state file the head is put at the first segment's start.
  first_head-AtHead :
      (h b : ReaderState) (gs : List Segment) (ps : List (Pending R))
      → h.offset ≡ 0
      → b.seq ≡ 0
      → b.offset ≡ 0
      → AtHead c h gs ps
      → AtHead c (first_head gs b) gs ps
  first_head-AtHead h b [] ps z bz bo at = (at.0, bz, bo)
  first_head-AtHead h b (g ∷ gs) ps z bz bo (inl (e, e', on, _, _)) =
      inl (e, e', on, refl, inr refl)
  first_head-AtHead h b (g ∷ gs) ps z bz bo (inr ([], p, xs, ys, e, on, _, _, rest)) =
      inr ([], p, xs, ys, e, on, refl, inr refl, rest)
  first_head-AtHead h b (g ∷ gs) ps z bz bo (inr (a ∷ acked, p, xs, ys, _, _, offset, _, _)) =
      absurd (omega (arith, z, offset, length-encode-cons a acked))

  -- The write segment is the last one, or a new first one.
  ensure-Holds :
      (m z : ℕ) (gs : List Segment) (h : ReaderState) (f : Option ReaderState)
      → (ps : List (Pending R)) → Above 0 gs
      → AtHead c h gs ps
      → let (r, t) = ensure_write_segment no_open_faults (loaded m z gs h f) in
        (r ≡ ok tt) × Holds c t ps × (t.max_bytes ≡ max_bytes_of m)
  unfolding ensure_write_segment reopen_last
  ensure-Holds m z gs h f ps above at = elim (Option-cases (last_seq gs)) [
    | inl e ↦
        let nil = nil_of_last_seq gs e in
        let (no_results, unset, start) = rw nil at at in
        rw (e, reopen_last)
          (unfold create_segment_file in
            rw nil (
              unfold sort_segments insert_sorted last_seq in
              (
                refl,
                record {
                  ascending = (omega arith, tt);
                  total = unfold sum_sizes in refl;
                  writer = refl;
                  at_head = inl (refl, no_results, (tt, refl, refl), start, inl unset);
                },
                refl,
              )))
    | inr (q, e) ↦
        rw (e, reopen_last)
          (refl, record { ascending = above; total = refl; writer = sym e; at_head = at }, refl)
  ]

  -- The directory of a store, opened.
  fill-Holds :
      (m z : ℕ) (s : Store) (dir : Directory) (ps : List (Pending R))
      → Holds c s ps
      → IsDirectoryOf s dir
      → IsSaved s
      → HasSmallNumbers s
      → let (r, t) = fill no_open_faults dir (blank m z) in
        (r ≡ ok tt) × Holds c t ps × (t.max_bytes ≡ max_bytes_of m)
  unfolding fill load_segments load_state blank
  fill-Holds m z s dir ps v d kept small =
      let (sorted, summed) =
        scan-Listing 0 dir.files s.segments d.files
          (whole s.segments (sizes-AtHead s.head_state s.segments ps v.at_head) small)
          v.ascending in
      rw (sorted, summed, d.state)
        (elim kept [
          | inl e ↦ rw e (
              ensure-Holds m z s.segments s.head_state (some s.head_state) ps v.ascending v.at_head)
          | inr (e, o) ↦ rw e (
              ensure-Holds m z s.segments (first_head s.segments (record { seq = 0; offset = 0 }))
                none ps v.ascending
                (first_head-AtHead s.head_state _ s.segments ps o refl refl v.at_head))
        ])

  -- Opening the directory of a store succeeds, with any bounds: the new store holds the results that
  -- the old one held. The files may stand in any order and among files with other names, no call
  -- fails, the segments' numbers are int64 values, and the old store's head is on disk, or there
  -- is no state file and nothing of the first segment is acknowledged.
  pub open_store-Holds :
      (m z : ℕ) (s : Store) (dir : Directory) (ps : List (Pending R))
      → Holds c s ps
      → IsDirectoryOf s dir
      → IsSaved s
      → HasSmallNumbers s
      → (t : Store) × (open_store no_open_faults dir m z ≡ ok t)
        × Holds c t ps
        × (t.max_bytes ≡ max_bytes_of m)
  unfolding open_store
  open_store-Holds m z s dir ps v d kept small =
      let (done, v', bound) = fill-Holds m z s dir ps v d kept small in
      (
        (fill no_open_faults dir (blank m z)).1,
        ap (λ r. opened_store (r, (fill no_open_faults dir (blank m z)).1)) done,
        v',
        bound,
      )

  -- What was acknowledged stays so: when the directory is opened that a store leaves behind an
  -- acknowledgement without faults of its oldest results, at least one of them, the new store holds
  -- those that followed, and no other. The segments' numbers are int64 values.
  pub ack_survives :
      (m z : ℕ) (s : Store) (dir : Directory) (p : Pending R) (ps qs : List (Pending R))
      → Holds c s ((p ∷ ps) ++ qs)
      → let t = (ack no_faults (batch_of (p ∷ ps)) s).1 in
        IsDirectoryOf t dir
        → HasSmallNumbers t
        → (u : Store) × (open_store no_open_faults dir m z ≡ ok u)
          × Holds c u qs
          × (u.max_bytes ≡ max_bytes_of m)
  ack_survives m z s dir p ps qs v d small =
      let (_, v', on_disk) = ack-Holds c (p ∷ ps) qs s v in
      let t = (ack no_faults (batch_of (p ∷ ps)) s).1 in
      open_store-Holds m z t dir qs v' d (elim on_disk [ inl e ↦ absurd cc | inr e ↦ inl e ]) small
