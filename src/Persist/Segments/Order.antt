-- ===== src/Persist/Segments/Order.antt =====
-- Segment lists in ascending order: the order is kept, and the write segment is the last one.
use ping_santo.Prelude.{
  ℕ, suc, ◌+◌, ◌≤◌, ◌<◌, ◌≡◌, refl, ap, ◌∙◌, ◌==◌, if◌then◌else◌, lt→ltb, Option, none, some, List,
  [], ◌∷◌, ◌++◌, arith,
}
use ping_santo.Persist.State.{Segment}
use ping_santo.Persist.Segments.{
  insert_sorted, sort_segments, last_seq, update_segment, find_segment, sum_sizes,
}

-- Segment numbers rise from above `n` on.
abbrev pub Above : ℕ → List Segment → Type 0
Above n [] = Unit
Above n (g ∷ gs) = (n < g.seq) × Above g.seq gs

-- No segment has a number from `n` on.
abbrev pub Under : ℕ → List Segment → Type 0
Under n [] = Unit
Under n (g ∷ gs) = (g.seq < n) × Under n gs

pub Above-lower : {m n : ℕ} (gs : List Segment) → m ≤ n → Above n gs → Above m gs
Above-lower [] h a = tt
Above-lower (g ∷ gs) h a = (omega arith, a.1)

-- The last number of an ascending list is above its bound.
pub last_seq-Above :
    (n : ℕ) (g : Segment) (gs : List Segment)
    → Above n (g ∷ gs)
    → (q : ℕ) × (last_seq (g ∷ gs) ≡ some q) × (n < q)
unfolding last_seq
last_seq-Above n g [] h = (g.seq, refl, h.0)
last_seq-Above n g (g' ∷ gs) (h, k) =
    let (q, e, l) = last_seq-Above g.seq g' gs k in (q, e, omega arith)

pub last_seq-Under :
    (n q : ℕ) (gs : List Segment) → Above n gs → last_seq gs ≡ some q → Under (suc q) gs
unfolding last_seq
last_seq-Under n q [] a e = tt
last_seq-Under n q (g ∷ []) a e = ground arith
last_seq-Under n q (g ∷ g' ∷ gs) a e =
    let under = last_seq-Under g.seq q (g' ∷ gs) a.1 e in (omega arith, under)

-- A segment with a higher number than the others stays at the end of the sorted list.
pub sort_segments-snoc :
    (n : ℕ) (gs : List Segment) (new : Segment)
    → Above n gs
    → Under new.seq gs
    → sort_segments (gs ++ (new ∷ [])) ≡ gs ++ (new ∷ [])
unfolding sort_segments insert_sorted
sort_segments-snoc n [] new a u = refl
sort_segments-snoc n (g ∷ []) new a u = rw (lt→ltb g.seq new.seq u.0)
sort_segments-snoc n (g ∷ g' ∷ gs) new a u =
    rw (sort_segments-snoc g.seq (g' ∷ gs) new a.1 u.1, lt→ltb g.seq g'.seq a.1.0)

pub Above-snoc :
    (n : ℕ) (gs : List Segment) (new : Segment)
    → Above n gs
    → Under new.seq gs
    → n < new.seq
    → Above n (gs ++ (new ∷ []))
Above-snoc n [] new a u h = (h, tt)
Above-snoc n (g ∷ gs) new a u h = (a.0, Above-snoc g.seq gs new a.1 u.1 u.0)

pub last_seq-snoc : (gs : List Segment) (new : Segment) → last_seq (gs ++ (new ∷ [])) ≡ some new.seq
unfolding last_seq
last_seq-snoc [] new = refl
last_seq-snoc (g ∷ []) new = refl
last_seq-snoc (g ∷ g' ∷ gs) new = last_seq-snoc (g' ∷ gs) new

pub sum_sizes-snoc :
    (gs : List Segment) (new : Segment) → sum_sizes (gs ++ (new ∷ [])) ≡ sum_sizes gs + new.size
unfolding sum_sizes
sum_sizes-snoc [] new = omega arith
sum_sizes-snoc (g ∷ gs) new = omega (arith, sum_sizes-snoc gs new)

-- `removeHeadSegment` forgets the write segment just when that was the only one.
pub writer-tail :
    (g : Segment) (gs : List Segment) (w : Option ℕ)
    → Above g.seq gs
    → w ≡ last_seq (g ∷ gs)
    → elim w [ none ↦ none | some q ↦ if g.seq == q then none else some q ] ≡ last_seq gs
unfolding last_seq
writer-tail g [] w a e = ground arith
writer-tail g (g' ∷ gs) w a e =
    let (q, e', l) = last_seq-Above g.seq g' gs a in ground (arith, e ∙ e')

-- What `f` does to the last segment.
abbrev pub update_last : (Segment → Segment) → List Segment → List Segment
update_last f [] = []
update_last f (g ∷ []) = f g ∷ []
update_last f (g ∷ g' ∷ gs) = g ∷ update_last f (g' ∷ gs)

pub update_segment-last :
    (n q : ℕ) (f : Segment → Segment) (gs : List Segment)
    → Above n gs
    → last_seq gs ≡ some q
    → update_segment q f gs ≡ update_last f gs
unfolding update_segment last_seq
update_segment-last n q f [] a e = refl
update_segment-last n q f (g ∷ []) a e = ground arith
update_segment-last n q f (g ∷ g' ∷ gs) a e =
    let (q', e', l) = last_seq-Above g.seq g' gs a.1 in
    ground (arith, e, e', update_segment-last g.seq q f (g' ∷ gs) a.1 e)

-- An update that keeps the number, and adds `k` to the size.
module _ (f : Segment → Segment) (k : ℕ)
    (grows : (g : Segment) → ((f g).seq ≡ g.seq) × ((f g).size ≡ g.size + k)) where
  pub Above-update_last : (n : ℕ) (gs : List Segment) → Above n gs → Above n (update_last f gs)
  Above-update_last n [] a = tt
  Above-update_last n (g ∷ []) a = (omega (arith, grows g), tt)
  Above-update_last n (g ∷ g' ∷ gs) a = (a.0, Above-update_last g.seq (g' ∷ gs) a.1)

  pub last_seq-update_last : (gs : List Segment) → last_seq (update_last f gs) ≡ last_seq gs
  unfolding last_seq
  last_seq-update_last [] = refl
  last_seq-update_last (g ∷ []) = ap some (grows g).0
  last_seq-update_last (g ∷ g' ∷ []) = ap some (grows g').0
  last_seq-update_last (g ∷ g' ∷ g'' ∷ gs) = last_seq-update_last (g' ∷ g'' ∷ gs)

  pub sum_sizes-update_last :
      (q : ℕ) (gs : List Segment)
      → last_seq gs ≡ some q
      → sum_sizes (update_last f gs) ≡ sum_sizes gs + k
  unfolding sum_sizes last_seq
  sum_sizes-update_last q [] e = cc
  sum_sizes-update_last q (g ∷ []) e = omega (arith, grows g)
  sum_sizes-update_last q (g ∷ g' ∷ gs) e = omega (arith, sum_sizes-update_last q (g' ∷ gs) e)

pub update_last-snoc :
    (f : Segment → Segment) (gs : List Segment) (new : Segment)
    → update_last f (gs ++ (new ∷ [])) ≡ gs ++ (f new ∷ [])
update_last-snoc f [] new = refl
update_last-snoc f (g ∷ []) new = refl
update_last-snoc f (g ∷ g' ∷ gs) new = ap (◌∷◌ g) (update_last-snoc f (g' ∷ gs) new)

pub update_last_twice :
    (f f' : Segment → Segment) (gs : List Segment)
    → update_last f' (update_last f gs) ≡ update_last (λ g. f' (f g)) gs
update_last_twice f f' [] = refl
update_last_twice f f' (g ∷ []) = refl
update_last_twice f f' (g ∷ g' ∷ []) = refl
update_last_twice f f' (g ∷ g' ∷ g'' ∷ gs) = ap (◌∷◌ g) (update_last_twice f f' (g' ∷ g'' ∷ gs))

pub nil_of_last_seq : (gs : List Segment) → last_seq gs ≡ none → gs ≡ []
unfolding last_seq
nil_of_last_seq [] e = refl
nil_of_last_seq (g ∷ []) e = cc
nil_of_last_seq (g ∷ g' ∷ gs) e =
    let k : ◌≡◌ {A = List Segment} (g' ∷ gs) [] = nil_of_last_seq (g' ∷ gs) e in cc

-- The size that is read through a segment's number is part of the sum.
pub find_size :
    (q : ℕ) (gs : List Segment)
    → elim (find_segment q gs) [ none ↦ 0 | some g ↦ g.size ] ≤ sum_sizes gs
unfolding find_segment sum_sizes
find_size q [] = omega arith
find_size q (g ∷ gs) = ground (arith, find_size q gs)
