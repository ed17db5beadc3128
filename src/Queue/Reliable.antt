-- ===== src/Queue/Reliable.antt =====
-- The queue over a store that takes whatever it is offered, and over one that refuses.
use Prim.Native.String.{String}
use ping_santo.Prelude.{
  ◌≤◌, ◌<◌, ◌≡◌, inl, inr, refl, sym, ap, true, false, Option, some, List, [], ◌∷◌, ◌++◌, arith,
  length, length-append, leb, Bool-cases, lt→ltb, lt→not_leb, not_leb→lt,
}
use mathlib.Core.Path.{subst}
use ping_santo.Queue.{
  Spill, Queue, lose, hand_over, spill_oldest, spill_loop, spill_down, free_slot, enqueue, inc64,
  may_spill,
}

module _ {R S : Type 0} (ops : Spill R S) (monitor_id : R → String) where
  -- Below the threshold, with a store, and nothing dropped on the way from `q`.
  pub record IsSpilled (q q' : Queue R S) : Type 0 where
    pub below : length q'.items < q.threshold
    pub none_dropped : q'.dropped ≡ q.dropped
    pub capacity : q'.capacity ≡ q.capacity

  module _ (reliable : (r : R) (s : S) → (ops.append r s).0 ≡ true) where
    taken :
        (x : R) (xs : List R) (q : Queue R S) (o : Option S) (s : S)
        → o ≡ some s
        → spill_oldest ops monitor_id o (x ∷ xs) q
          ≡ (hand_over ops monitor_id x xs (record q { spill = some (ops.append x s).1 }), true)
    unfolding spill_oldest
    taken x xs q o s at = rw (at, reliable x s, spill_oldest)

    spill_loop-IsSpilled :
        (xs : List R) (q : Queue R S) (s : S)
        → q.items ≡ xs
        → q.spill ≡ some s
        → 0 < q.threshold
        → IsSpilled q (spill_loop ops monitor_id xs q)
    unfolding spill_loop hand_over
    spill_loop-IsSpilled [] q s e at pos = record {
      below = omega (arith, ap length e);
      none_dropped = refl;
      capacity = refl;
    }
    spill_loop-IsSpilled (x ∷ xs) q s e at pos =
        let s' = (ops.append x s).1 in
        let next = hand_over ops monitor_id x xs (record q { spill = some s' }) in
        let rest = spill_loop-IsSpilled xs next s' refl refl pos in
        elim (Bool-cases (leb q.threshold (length (x ∷ xs)))) [
          | inr below ↦ rw below (record {
            below = omega (arith, ap length e, not_leb→lt q.threshold (length (x ∷ xs)) below);
            none_dropped = refl;
            capacity = refl;
          })
          | inl reached ↦
              rw (reached, taken x xs q q.spill s at)
                (record {
                  below = rest.below;
                  none_dropped = rest.none_dropped;
                  capacity = rest.capacity;
                })
        ]

    -- Over a store that takes whatever it is offered, with a threshold between 1 and the capacity,
    -- Enqueue drops nothing, says so, and leaves at most `threshold` items in memory.
    pub enqueue_reliable :
        (r : R) (q : Queue R S) (s : S)
        → q.spill ≡ some s
        → 0 < q.threshold
        → q.threshold ≤ q.capacity
        → let (q', dropped) = enqueue ops monitor_id r q in
          (q'.dropped ≡ q.dropped) × (dropped ≡ false) × (length q'.items ≤ q.threshold)
    unfolding enqueue free_slot spill_down
    enqueue_reliable r q s at pos le =
        let v = spill_loop-IsSpilled q.items q s refl at pos in
        let q₁ = spill_loop ops monitor_id q.items q in
        let may : may_spill q.spill q.threshold ≡ true =
          subst (λ o. may_spill o q.threshold ≡ true) (sym at) (lt→ltb 0 q.threshold pos) in
        let roomy : leb q₁.capacity (length q₁.items) ≡ false =
          lt→not_leb _ _ (omega (arith, v.below, v.capacity)) in
        rw (may, roomy)
          (v.none_dropped, refl, omega (arith, v.below, length-append q₁.items (r ∷ [])))

  -- A store that refuses costs a result that Enqueue does not report: the oldest item is dropped
  -- and counted, and `dropped` is false.
  pub enqueue_refused :
      (r x : R) (xs : List R) (q : Queue R S) (s : S)
      → q.spill ≡ some s
      → q.items ≡ x ∷ xs
      → 0 < q.threshold
      → q.threshold ≤ length q.items
      → length q.items ≤ q.capacity
      → (ops.append x s).0 ≡ false
      → let (q', dropped) = enqueue ops monitor_id r q in
        (dropped ≡ false) × (q'.dropped ≡ inc64 q.dropped) × (q'.items ≡ xs ++ (r ∷ []))
  unfolding enqueue free_slot spill_down spill_loop spill_oldest lose
  enqueue_refused r x xs q s at e pos reached within refuses = ground (arith, ap length e)
