-- ===== src/Queue/Fifo.antt =====
-- What leaves the queue, in which order, and where each item goes.
use Prim.Native.String.{String}
use ping_santo.Prelude.{
  ℕ, zero, suc, ◌≡◌, inl, inr, refl, sym, ap, ◌∙◌, true, false, Option, none, some, List, [], ◌∷◌,
  ◌++◌, map, arith, append_assoc, Bool-cases, leb, length, ◌&&◌, ltb,
}
use mathlib.Core.Path.{subst}
use ping_santo.Queue.{
  Spill, Queue, Event, queue_spill, queue_drop, note, inc64, lose, hand_over, spill_oldest,
  spill_loop, drop_oldest, make_room, enqueue, spill_down, free_slot, may_spill,
}

-- What becomes of an item that leaves: the store takes it, the store refuses it, or it is dropped
-- without being offered to the store.
pub data Fate : Type 0 where
  spilt refused evicted : Fate

-- How often a counter is incremented.
abbrev pub bump : ℕ → ℕ → ℕ
bump zero n = n
bump (suc k) n = bump k (inc64 n)

abbrev pub count_spilt : {R : Type 0} → List (R × Fate) → ℕ
count_spilt [] = 0
count_spilt ((x, spilt) ∷ gone) = suc (count_spilt gone)
count_spilt ((x, refused) ∷ gone) = count_spilt gone
count_spilt ((x, evicted) ∷ gone) = count_spilt gone

abbrev pub count_lost : {R : Type 0} → List (R × Fate) → ℕ
count_lost [] = 0
count_lost ((x, spilt) ∷ gone) = count_lost gone
count_lost ((x, refused) ∷ gone) = suc (count_lost gone)
count_lost ((x, evicted) ∷ gone) = suc (count_lost gone)

abbrev pub item_of : {R : Type 0} → R × Fate → R
item_of (x, fate) = x

abbrev pub note_all : {A : Type 0} → List A → Option (List A) → Option (List A)
note_all [] log = log
note_all (a ∷ l) log = note_all l (note a log)

module _ {R S : Type 0} (ops : Spill R S) (monitor_id : R → String) where
  -- The event that is recorded for an item.
  abbrev pub event_of : R × Fate → Event
  event_of (x, spilt) = record { type = queue_spill; monitor_id = monitor_id x }
  event_of (x, refused) = record { type = queue_drop; monitor_id = monitor_id x }
  event_of (x, evicted) = record { type = queue_drop; monitor_id = monitor_id x }

  -- The store's states while the items leave; a fate is what the store answered.
  abbrev pub Answers : Option S → List (R × Fate) → Option S → Type 0
  Answers s [] s' = s' ≡ s
  Answers none ((x, spilt) ∷ gone) s' = ⊥
  Answers none ((x, refused) ∷ gone) s' = ⊥
  Answers none ((x, evicted) ∷ gone) s' = Answers none gone s'
  Answers (some s) ((x, spilt) ∷ gone) s' =
      ((ops.append x s).0 ≡ true) × Answers (some (ops.append x s).1) gone s'
  Answers (some s) ((x, refused) ∷ gone) s' =
      ((ops.append x s).0 ≡ false) × Answers (some (ops.append x s).1) gone s'
  Answers (some s) ((x, evicted) ∷ gone) s' = Answers (some s) gone s'

  Answers-evicted :
      (o : Option S) (x : R) (gone : List (R × Fate)) (o' : Option S)
      → Answers o gone o'
      → Answers o ((x, Fate.evicted) ∷ gone) o'
  Answers-evicted none x gone o' a = a
  Answers-evicted (some s) x gone o' a = a

  -- The items `gone` leave the queue `q` one by one, and `q'` is left.
  pub data Leaves (q' : Queue R S) : Queue R S → List (R × Fate) → Type 0 where
    stay : {q : Queue R S} → q ≡ q' → Leaves q' q []
    spilt :
        {q : Queue R S} {x : R} {xs : List R} {s : S} {gone : List (R × Fate)}
        → q.items ≡ x ∷ xs
        → q.spill ≡ some s
        → (ops.append x s).0 ≡ true
        → Leaves q'
            (hand_over ops monitor_id x xs (record q { spill = some (ops.append x s).1 }))
            gone
        → Leaves q' q ((x, Fate.spilt) ∷ gone)
    refused :
        {q : Queue R S} {x : R} {xs : List R} {s : S} {gone : List (R × Fate)}
        → q.items ≡ x ∷ xs
        → q.spill ≡ some s
        → (ops.append x s).0 ≡ false
        → Leaves q' (lose ops monitor_id x xs (record q { spill = some (ops.append x s).1 })) gone
        → Leaves q' q ((x, Fate.refused) ∷ gone)
    evicted :
        {q : Queue R S} {x : R} {xs : List R} {gone : List (R × Fate)}
        → q.items ≡ x ∷ xs
        → Leaves q' (lose ops monitor_id x xs q) gone
        → Leaves q' q ((x, Fate.evicted) ∷ gone)

  -- What the queue and its recorders show of that.
  pub record Accounts (q q' : Queue R S) (gone : List (R × Fate)) : Type 0 where
    pub order : map item_of gone ++ q'.items ≡ q.items
    pub spilled : q'.spilled ≡ bump (count_spilt gone) q.spilled
    pub dropped : q'.dropped ≡ bump (count_lost gone) q.dropped
    pub events : q'.events ≡ note_all (map event_of gone) q.events
    pub store : Answers q.spill gone q'.spill
    pub capacity : q'.capacity ≡ q.capacity
    pub threshold : q'.threshold ≡ q.threshold

  Leaves-Accounts :
      {q' q : Queue R S} {gone : List (R × Fate)} → Leaves q' q gone → Accounts q q' gone
  unfolding lose hand_over
  Leaves-Accounts (stay e) = record {
    order = ap (λ t. t.items) (sym e);
    spilled = ap (λ t. t.spilled) (sym e);
    dropped = ap (λ t. t.dropped) (sym e);
    events = ap (λ t. t.events) (sym e);
    store = ap (λ t. t.spill) (sym e);
    capacity = ap (λ t. t.capacity) (sym e);
    threshold = ap (λ t. t.threshold) (sym e);
  }
  Leaves-Accounts {q'} {q} (spilt {x = x} {gone = gone} e s a l) =
      let v = Leaves-Accounts l in
      record {
        order = ap (◌∷◌ x) v.order ∙ sym e;
        spilled = v.spilled;
        dropped = v.dropped;
        events = v.events;
        store = subst (λ o. Answers o ((x, Fate.spilt) ∷ gone) q'.spill) (sym s) (a, v.store);
        capacity = v.capacity;
        threshold = v.threshold;
      }
  Leaves-Accounts {q'} {q} (refused {x = x} {gone = gone} e s a l) =
      let v = Leaves-Accounts l in
      record {
        order = ap (◌∷◌ x) v.order ∙ sym e;
        spilled = v.spilled;
        dropped = v.dropped;
        events = v.events;
        store = subst (λ o. Answers o ((x, Fate.refused) ∷ gone) q'.spill) (sym s) (a, v.store);
        capacity = v.capacity;
        threshold = v.threshold;
      }
  Leaves-Accounts {q'} {q} (evicted {x = x} {gone = gone} e l) =
      let v = Leaves-Accounts l in
      record {
        order = ap (◌∷◌ x) v.order ∙ sym e;
        spilled = v.spilled;
        dropped = v.dropped;
        events = v.events;
        store = Answers-evicted q.spill x gone q'.spill v.store;
        capacity = v.capacity;
        threshold = v.threshold;
      }

  Leaves-trans :
      {q' m q : Queue R S} {gone more : List (R × Fate)}
      → Leaves m q gone
      → Leaves q' m more
      → Leaves q' q (gone ++ more)
  Leaves-trans {q'} {more = more} (stay e) k = subst (λ t. Leaves q' t more) (sym e) k
  Leaves-trans (spilt e s a l) k = spilt e s a (Leaves-trans l k)
  Leaves-trans (refused e s a l) k = refused e s a (Leaves-trans l k)
  Leaves-trans (evicted e l) k = evicted e (Leaves-trans l k)

  -- Whatever is offered, the queue that is left is the one that the code computes.
  abbrev pub Ends : Queue R S → Queue R S → Type 0
  Ends q q' = (gone : List (R × Fate)) × Leaves q' q gone

  spill_oldest-Ends :
      (o : Option S) (xs : List R) (q : Queue R S)
      → q.spill ≡ o
      → q.items ≡ xs
      → Ends q (spill_oldest ops monitor_id o xs q).0
  unfolding spill_oldest
  spill_oldest-Ends none xs q s e = ([], stay refl)
  spill_oldest-Ends (some s) [] q at e = ([], stay refl)
  spill_oldest-Ends (some s) (x ∷ xs) q at e = elim (Bool-cases (ops.append x s).0) [
    | inl a ↦ ((x, Fate.spilt) ∷ [], spilt e at a (stay (rw a)))
    | inr a ↦ ((x, Fate.refused) ∷ [], refused e at a (stay (rw a)))
  ]

  drop_oldest-Ends :
      (xs : List R) (q : Queue R S) → q.items ≡ xs → Ends q (drop_oldest ops monitor_id xs q).0
  unfolding drop_oldest
  drop_oldest-Ends [] q e = ([], stay refl)
  drop_oldest-Ends (x ∷ xs) q e = ((x, Fate.evicted) ∷ [], evicted e (stay refl))

  spill_oldest_items :
      (o : Option S) (x : R) (xs : List R) (q : Queue R S)
      → (spill_oldest ops monitor_id o (x ∷ xs) q).1 ≡ true
      → (spill_oldest ops monitor_id o (x ∷ xs) q).0.items ≡ xs
  unfolding spill_oldest hand_over
  spill_oldest_items none x xs q h = cc
  spill_oldest_items (some s) x xs q h = ground arith

  Ends-trans : (q m q' : Queue R S) → Ends q m → Ends m q' → Ends q q'
  Ends-trans q m q' (gone, l) (more, k) = (gone ++ more, Leaves-trans l k)

  spill_loop-Ends :
      (xs : List R) (q : Queue R S) → q.items ≡ xs → Ends q (spill_loop ops monitor_id xs q)
  unfolding spill_loop
  spill_loop-Ends [] q e = ([], stay refl)
  spill_loop-Ends (x ∷ xs) q e =
      let first = spill_oldest-Ends q.spill (x ∷ xs) q refl e in
      let q' = (spill_oldest ops monitor_id q.spill (x ∷ xs) q).0 in
      elim (Bool-cases (leb q.threshold (length (x ∷ xs)))) [
        | inr below ↦ rw below ([], stay refl)
        | inl reached ↦ elim (Bool-cases (spill_oldest ops monitor_id q.spill (x ∷ xs) q).1) [
          | inr stuck ↦ rw (reached, stuck) first
          | inl gone_on ↦
              rw (reached, gone_on)
                (Ends-trans q q' _ first
                  (spill_loop-Ends xs q' (spill_oldest_items q.spill x xs q gone_on)))
        ]
      ]

  make_room-Ends : (q : Queue R S) → Ends q (make_room ops monitor_id q).0
  unfolding make_room
  make_room-Ends q =
      let first = spill_oldest-Ends q.spill q.items q refl refl in
      let q' = (spill_oldest ops monitor_id q.spill q.items q).0 in
      elim (Bool-cases
        ((spill_oldest ops monitor_id q.spill q.items q).1 && ltb (length q'.items) q.capacity)) [
          | inl roomy ↦ rw roomy first
          | inr full ↦ rw full (Ends-trans q q' _ first (drop_oldest-Ends q'.items q' refl))
        ]

  spill_down-Ends : (q : Queue R S) → Ends q (spill_down ops monitor_id q)
  unfolding spill_down
  spill_down-Ends q = elim (Bool-cases (may_spill q.spill q.threshold)) [
    | inl may ↦ rw may (spill_loop-Ends q.items q refl)
    | inr may_not ↦ rw may_not ([], stay refl)
  ]

  pub spill_down-Accounts :
      (q : Queue R S) → (gone : List (R × Fate)) × Accounts q (spill_down ops monitor_id q) gone
  spill_down-Accounts q = let (gone, leaves) = spill_down-Ends q in (gone, Leaves-Accounts leaves)

  pub spill_oldest-Accounts :
      (q : Queue R S)
      → (gone : List (R × Fate)) × Accounts q (spill_oldest ops monitor_id q.spill q.items q).0 gone
  spill_oldest-Accounts q =
      let (gone, leaves) = spill_oldest-Ends q.spill q.items q refl refl in
      (gone, Leaves-Accounts leaves)

  -- Without a store there is none afterwards.
  Answers-from_none : (o : Option S) (gone : List (R × Fate)) → Answers none gone o → o ≡ none
  Answers-from_none o [] a = a
  Answers-from_none o ((x, Fate.spilt) ∷ gone) a = absurd a
  Answers-from_none o ((x, Fate.refused) ∷ gone) a = absurd a
  Answers-from_none o ((x, Fate.evicted) ∷ gone) a = Answers-from_none o gone a

  pub Answers-none :
      (o o' : Option S) (gone : List (R × Fate)) → o ≡ none → Answers o gone o' → o' ≡ none
  Answers-none o o' gone e a = Answers-from_none o' gone (subst (λ t. Answers t gone o') e a)

  pub free_slot-Ends : (q : Queue R S) → Ends q (free_slot ops monitor_id q).0
  unfolding free_slot
  free_slot-Ends q =
      let q₁ = spill_down ops monitor_id q in
      let first = spill_down-Ends q in
      elim (Bool-cases (leb q₁.capacity (length q₁.items))) [
        | inl full ↦ rw full (Ends-trans q q₁ _ first (make_room-Ends q₁))
        | inr roomy ↦ rw roomy first
      ]

  -- Enqueue loses nothing silently. The items that leave are the oldest ones, in order, and the new
  -- result is the last one; each that leaves is counted and recorded once, as spilled if the store
  -- took it and as dropped if the store refused it or was not asked; capacity and threshold stay.
  pub enqueue-Accounts :
      (r : R) (q : Queue R S)
      → let q' = (enqueue ops monitor_id r q).0 in
        (gone : List (R × Fate)) × (map item_of gone ++ q'.items ≡ q.items ++ (r ∷ []))
        × (q'.spilled ≡ bump (count_spilt gone) q.spilled)
        × (q'.dropped ≡ bump (count_lost gone) q.dropped)
        × (q'.events ≡ note_all (map event_of gone) q.events)
        × Answers q.spill gone q'.spill
        × (q'.capacity ≡ q.capacity)
        × (q'.threshold ≡ q.threshold)
  unfolding enqueue
  enqueue-Accounts r q =
      let (gone, leaves) = free_slot-Ends q in
      let v = Leaves-Accounts leaves in
      (
        gone,
        sym (append_assoc (map item_of gone) (free_slot ops monitor_id q).0.items (r ∷ []))
            ∙ ap (λ l. l ++ (r ∷ [])) v.order,
        v.spilled,
        v.dropped,
        v.events,
        v.store,
        v.capacity,
        v.threshold,
      )
