-- ===== src/Queue/Bounds.antt =====
-- How long the queue can get.
use Prim.Native.String.{String}
use ping_santo.Prelude.{
  ℕ, ◌≤◌, ◌<◌, ◌≡◌, ◌⊎◌, inl, inr, refl, true, Option, none, List, [], ◌∷◌, arith, length,
  length-append, length-drop, leb, ltb, ◌&&◌, Bool-cases, not_leb→lt, map, ap,
}
use ping_santo.Queue.Fifo.{
  Fate, item_of, Accounts, Answers-none, spill_down-Accounts, spill_oldest-Accounts,
  enqueue-Accounts,
}
use ping_santo.Queue.{
  Spill, Queue, Ratio, new_queue, attach_spill, drain, lose, spill_oldest, spill_down, drop_oldest,
  make_room, free_slot, enqueue,
}

-- The queue is within its capacity, which is at least 1; with a store, so is the threshold.
pub record IsBounded {R S : Type 0} (q : Queue R S) : Type 0 where
  pub positive : 0 < q.capacity
  pub within : length q.items ≤ q.capacity
  pub spill_at : (q.spill ≡ none) ⊎ ((0 < q.threshold) × (q.threshold ≤ q.capacity))

pub new_queue-IsBounded : {R S : Type 0} (n : ℕ) → IsBounded (new_queue {R = R} {S = S} n)
unfolding new_queue
new_queue-IsBounded n = ground arith

module _ {R S : Type 0} where
  -- A fraction of the capacity is at most the capacity.
  pub attach_spill-IsBounded :
      (f : Ratio) (store : Option S) (ratio : f.Float) (q : Queue R S)
      → ((r : f.Float) → (f.is_fraction r ≡ true) → f.scale q.capacity r ≤ q.capacity)
      → f.is_fraction f.four_fifths ≡ true
      → IsBounded q
      → IsBounded (attach_spill f store ratio q)
  unfolding attach_spill
  attach_spill-IsBounded f store ratio q small four v =
      ground (arith, small ratio, small f.four_fifths)

  -- Drain hands out a prefix of the items and keeps the rest; the bound still holds.
  pub drain-IsBounded : (max : ℕ) (q : Queue R S) → IsBounded q → IsBounded (drain max q).1
  unfolding drain
  drain-IsBounded max q v =
      ground (arith, length-drop max q.items, length-drop (length q.items) q.items)

module _ {R S : Type 0} (ops : Spill R S) (monitor_id : R → String) where
  -- Fewer items are left than there were.
  Accounts-shorter :
      (q q' : Queue R S) (gone : List (R × Fate))
      → Accounts ops monitor_id q q' gone
      → length q'.items ≤ length q.items
  Accounts-shorter q q' gone v =
      omega (arith, ap length v.order, length-append (map item_of gone) q'.items)

  drop_oldest_below :
      (xs : List R) (q : Queue R S)
      → q.items ≡ xs
      → 0 < q.capacity
      → length q.items ≤ q.capacity
      → length (drop_oldest ops monitor_id xs q).0.items < q.capacity
  unfolding drop_oldest lose
  drop_oldest_below [] q e pos h = rw e pos
  drop_oldest_below (x ∷ xs) q e pos h = omega (arith, ap length e)

  drop_oldest_capacity :
      (xs : List R) (q : Queue R S) → (drop_oldest ops monitor_id xs q).0.capacity ≡ q.capacity
  unfolding drop_oldest lose
  drop_oldest_capacity [] q = refl
  drop_oldest_capacity (x ∷ xs) q = refl

  make_room_below :
      (q : Queue R S)
      → 0 < q.capacity
      → length q.items ≤ q.capacity
      → length (make_room ops monitor_id q).0.items < q.capacity
  unfolding make_room
  make_room_below q pos h =
      let (gone, v) = spill_oldest-Accounts ops monitor_id q in
      let q' = (spill_oldest ops monitor_id q.spill q.items q).0 in
      let less = Accounts-shorter q q' gone v in
      elim (Bool-cases
        ((spill_oldest ops monitor_id q.spill q.items q).1 && ltb (length q'.items) q.capacity)) [
          | inl roomy ↦ rw roomy (ground (arith, roomy))
          | inr full ↦ rw full (
              let below =
                drop_oldest_below q'.items q' refl (omega (arith, v.capacity))
                  (omega (arith, v.capacity, less)) in
              omega (arith, below, v.capacity))
        ]

  free_slot_below :
      (q : Queue R S) → IsBounded q → length (free_slot ops monitor_id q).0.items < q.capacity
  unfolding free_slot
  free_slot_below q b =
      let q₁ = spill_down ops monitor_id q in
      let (gone, v) = spill_down-Accounts ops monitor_id q in
      let less = Accounts-shorter q q₁ gone v in
      elim (Bool-cases (leb q₁.capacity (length q₁.items))) [
        | inl full ↦ rw full (
            let below =
              make_room_below q₁ (omega (arith, v.capacity, b.positive))
                (omega (arith, v.capacity, less, b.within)) in
            omega (arith, below, v.capacity))
        | inr roomy ↦
            rw roomy (omega (arith, v.capacity, not_leb→lt q₁.capacity (length q₁.items) roomy))
      ]

  -- Enqueue keeps the queue within its capacity, whatever the store answers.
  pub enqueue-IsBounded :
      (r : R) (q : Queue R S) → IsBounded q → IsBounded (enqueue ops monitor_id r q).0
  enqueue-IsBounded r q b =
      let (gone, order, _, _, _, answers, cap, thr) = enqueue-Accounts ops monitor_id r q in
      record {
        positive = omega (arith, cap, b.positive);
        within =
            unfold enqueue in
            omega (
              arith,
              cap,
              free_slot_below q b,
              length-append (free_slot ops monitor_id q).0.items (r ∷ []),
            );
        spill_at = elim b.spill_at [
          | inl none_at ↦ inl (Answers-none ops monitor_id _ _ gone none_at answers)
          | inr (pos, le) ↦ inr (omega (arith, thr), omega (arith, thr, cap))
        ];
      }
