-- ===== src/Persist/Opening/Listings.antt =====
-- What loadSegments makes of the directory of a store.
use ping_santo.Prelude.{
  ℕ, ◌+◌, ◌^◌, ◌<◌, lt→ltb, ◌≡◌, refl, sym, ap, ◌∙◌, false, none, List, [], ◌∷◌, ◌++◌, All, arith,
  length, All-append, All-append_left, All-append_right,
}
use ping_santo.Persist.State.{Segment, no_faults}
use ping_santo.Persist.Segments.{insert_sorted, sort_segments, sum_sizes}
use ping_santo.Persist.Segments.Order.{Above}
use ping_santo.Persist.Names.{segment_name, segment_number}
use ping_santo.Persist.Names.Numbers.{segment_number-segment_name}
use ping_santo.Persist.Opening.{File, OpenFaults, scan}

abbrev pub no_open_faults : OpenFaults
no_open_faults = record {
  mkdir = false;
  list = false;
  stat = λ _. false;
  append_to = false;
  calls = no_faults;
}

-- The file of a segment
abbrev pub file_of : Segment → File
file_of g = record { name = segment_name g.seq; bytes = g.bytes }

-- The directory has the file of each of the segments once, among files whose names are not those of
-- segments. Its order is free.
pub data Listing : List File → List Segment → Type 0 where
  no_files : Listing [] []
  foreign :
      {f : File} {fs : List File} {gs : List Segment}
      → segment_number f.name ≡ none
      → Listing fs gs
      → Listing (f ∷ fs) gs
  found :
      {fs : List File}
      → (gs : List Segment) (g : Segment) (hs : List Segment) → Listing fs (gs ++ hs)
      → Listing (file_of g ∷ fs) (gs ++ (g ∷ hs))

-- The segment's size is that of its file, and its number is an int64.
abbrev pub IsWhole : Segment → Type 0
IsWhole g = (g.size ≡ length g.bytes) × (g.seq < 2 ^ 63)

insert_between :
    (n : ℕ) (gs : List Segment) (g : Segment) (hs : List Segment)
    → Above n (gs ++ (g ∷ hs))
    → (insert_sorted g (gs ++ hs) ≡ gs ++ (g ∷ hs)) × Above n (gs ++ hs)
unfolding insert_sorted
insert_between n [] g [] a = (refl, tt)
insert_between n [] g (h ∷ hs) a = (rw (lt→ltb g.seq h.seq a.1.0), (omega arith, a.1.1))
insert_between n (f ∷ gs) g hs a =
    let (e, above) = insert_between f.seq gs g hs a.1 in
    let later : f.seq < g.seq = Above-middle f.seq gs g hs a.1 in (ground (arith, e), (a.0, above))
  where
    Above-middle :
        (n : ℕ) (gs : List Segment) (g : Segment) (hs : List Segment)
        → Above n (gs ++ (g ∷ hs))
        → n < g.seq
    Above-middle n [] g hs a = a.0
    Above-middle n (f ∷ gs) g hs a = omega (arith, Above-middle f.seq gs g hs a.1, a.0)

sum_sizes-middle :
    (gs : List Segment) (g : Segment) (hs : List Segment)
    → sum_sizes (gs ++ (g ∷ hs)) ≡ g.size + sum_sizes (gs ++ hs)
unfolding sum_sizes
sum_sizes-middle [] g hs = refl
sum_sizes-middle (f ∷ gs) g hs = omega (arith, sum_sizes-middle gs g hs)

sum_sizes-cons : (g : Segment) (gs : List Segment) → sum_sizes (g ∷ gs) ≡ g.size + sum_sizes gs
unfolding sum_sizes
sum_sizes-cons g gs = refl

-- A file of a segment is loaded as it was.
scan-file :
    (g : Segment) (fs : List File)
    → IsWhole g
    → scan no_open_faults (file_of g ∷ fs) ≡ g ∷ scan no_open_faults fs
unfolding scan
scan-file g fs (size, small) =
    loads ∙ ap (λ n. (record g { size = n }) ∷ scan no_open_faults fs) (sym size)
  where
    loads :
        scan no_open_faults (file_of g ∷ fs)
        ≡ (record g { size = length g.bytes }) ∷ scan no_open_faults fs
    loads = rw (segment_number-segment_name g.seq small, scan)

scan-foreign :
    (f : File) (fs : List File)
    → segment_number f.name ≡ none
    → scan no_open_faults (f ∷ fs) ≡ scan no_open_faults fs
unfolding scan
scan-foreign f fs e = rw (e, scan)

-- The segments are loaded in their order, whatever the order of the files.
pub scan-Listing :
    (n : ℕ) (fs : List File) (gs : List Segment)
    → Listing fs gs
    → All IsWhole gs
    → Above n gs
    → (sort_segments (scan no_open_faults fs) ≡ gs)
      × (sum_sizes (scan no_open_faults fs) ≡ sum_sizes gs)
unfolding sort_segments
scan-Listing n _ _ no_files whole a = (unfold scan in refl, unfold scan in refl)
scan-Listing n _ gs (foreign {f} {fs} e listing) whole a =
    rw (scan-foreign f fs e) (scan-Listing n fs gs listing whole a)
scan-Listing n _ _ (found {fs} gs g hs listing) whole a =
    let front = All-append_left IsWhole gs (g ∷ hs) whole in
    let (own, back) = All-append_right IsWhole gs (g ∷ hs) whole in
    let (inserts, above) = insert_between n gs g hs a in
    let (sorted, summed) =
      scan-Listing n fs (gs ++ hs) listing (All-append IsWhole gs hs front back) above in
    rw (scan-file g fs own) (
      ap (insert_sorted g) sorted ∙ inserts,
      sum_sizes-cons g _ ∙ ap (λ k. g.size + k) summed ∙ sym (sum_sizes-middle gs g hs),
    )
