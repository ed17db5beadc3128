-- ===== src/Transmit/Live.antt =====
-- What flushQueue does with the queue's results.
use Prim.Native.String.{String}
use ping_santo.Prelude.{
  ℕ, zero, suc, ◌+◌, ◌≡◌, arith, sym, ap, ◌∙◌, Bool, Option, none, some, List, [], ◌∷◌, ◌++◌, map,
  append_assoc, map-append, if◌then◌else◌,
}
use mathlib.Core.Path.{subst}
use ping_santo.Persist.Frame.{Codec}
use ping_santo.Persist.State.{Store, Faults}
use ping_santo.Queue.{Queue, enqueue, Spill, inc64}
use ping_santo.Queue.Fifo.{Fate, bump, count_spilt, count_lost, item_of, Answers, enqueue-Accounts}
use ping_santo.Backfill.{RateLimit}
use ping_santo.Transmit.{spill_to}

bump_add : (j k n : ℕ) → bump (j + k) n ≡ bump k (bump j n)
bump_add zero k n = let e : 0 + k ≡ k = omega arith in ap (λ i. bump i n) e
bump_add (suc j) k n =
    let e : suc j + k ≡ suc (j + k) = omega arith in ap (λ i. bump i n) e ∙ bump_add j k (inc64 n)

module _ {R : Type 0} where
  count_lost-append :
      (gone more : List (R × Fate)) → count_lost (gone ++ more) ≡ count_lost gone + count_lost more
  count_lost-append [] more = omega arith
  count_lost-append ((x, Fate.spilt) ∷ gone) more = count_lost-append gone more
  count_lost-append ((x, Fate.refused) ∷ gone) more = omega (arith, count_lost-append gone more)
  count_lost-append ((x, Fate.evicted) ∷ gone) more = omega (arith, count_lost-append gone more)

  count_spilt-append :
      (gone more : List (R × Fate))
      → count_spilt (gone ++ more) ≡ count_spilt gone + count_spilt more
  count_spilt-append [] more = omega arith
  count_spilt-append ((x, Fate.spilt) ∷ gone) more = omega (arith, count_spilt-append gone more)
  count_spilt-append ((x, Fate.refused) ∷ gone) more = count_spilt-append gone more
  count_spilt-append ((x, Fate.evicted) ∷ gone) more = count_spilt-append gone more

module _ {R S : Type 0} (ops : Spill R S) (monitor_id : R → String) where
  Answers-append :
      (o m o' : Option S) (gone more : List (R × Fate))
      → Answers ops monitor_id o gone m
      → Answers ops monitor_id m more o'
      → Answers ops monitor_id o (gone ++ more) o'
  Answers-append o m o' [] more a b = subst (λ t. Answers ops monitor_id t more o') a b
  Answers-append none m o' ((x, Fate.spilt) ∷ gone) more a b = absurd a
  Answers-append none m o' ((x, Fate.refused) ∷ gone) more a b = absurd a
  Answers-append none m o' ((x, Fate.evicted) ∷ gone) more a b =
      Answers-append none m o' gone more a b
  Answers-append (some s) m o' ((x, Fate.spilt) ∷ gone) more (a, rest) b =
      (a, Answers-append (some (ops.append x s).1) m o' gone more rest b)
  Answers-append (some s) m o' ((x, Fate.refused) ∷ gone) more (a, rest) b =
      (a, Answers-append (some (ops.append x s).1) m o' gone more rest b)
  Answers-append (some s) m o' ((x, Fate.evicted) ∷ gone) more a b =
      Answers-append (some s) m o' gone more a b

  -- The results `added` were enqueued one by one, and `gone` left meanwhile.
  pub record Enqueues (added : List R) (gone : List (R × Fate)) (q q' : Queue R S) : Type 0 where
    pub order : map item_of gone ++ q'.items ≡ q.items ++ added
    pub spilled : q'.spilled ≡ bump (count_spilt gone) q.spilled
    pub dropped : q'.dropped ≡ bump (count_lost gone) q.dropped
    pub store : Answers ops monitor_id q.spill gone q'.spill

  Enqueues-order :
      (a b : List R) (gone more : List (R × Fate)) (q m q' : Queue R S)
      → map item_of gone ++ m.items ≡ q.items ++ a
      → map item_of more ++ q'.items ≡ m.items ++ b
      → map item_of (gone ++ more) ++ q'.items ≡ q.items ++ (a ++ b)
  Enqueues-order a b gone more q m q' e f =
      ap (λ l. l ++ q'.items) (map-append item_of gone more)
      ∙ append_assoc (map item_of gone) (map item_of more) q'.items
      ∙ ap (λ l. map item_of gone ++ l) f
      ∙ sym (append_assoc (map item_of gone) m.items b)
      ∙ ap (λ l. l ++ b) e
      ∙ append_assoc q.items a b

  pub Enqueues-trans :
      (a b : List R) (gone more : List (R × Fate)) (q m q' : Queue R S)
      → Enqueues a gone q m
      → Enqueues b more m q'
      → Enqueues (a ++ b) (gone ++ more) q q'
  Enqueues-trans a b gone more q m q' v w = record {
    order = Enqueues-order a b gone more q m q' v.order w.order;
    spilled =
        w.spilled
        ∙ ap (bump (count_spilt more)) v.spilled
        ∙ sym (bump_add (count_spilt gone) (count_spilt more) q.spilled)
        ∙ ap (λ n. bump n q.spilled) (sym (count_spilt-append gone more));
    dropped =
        w.dropped
        ∙ ap (bump (count_lost more)) v.dropped
        ∙ sym (bump_add (count_lost gone) (count_lost more) q.dropped)
        ∙ ap (λ n. bump n q.dropped) (sym (count_lost-append gone more));
    store = Answers-append q.spill m.spill q'.spill gone more v.store w.store;
  }

  pub enqueue-Enqueues :
      (r : R) (q : Queue R S)
      → (gone : List (R × Fate)) × Enqueues (r ∷ []) gone q (enqueue ops monitor_id r q).0
  enqueue-Enqueues r q =
      let (gone, order, spilled, dropped, _, store, _, _) = enqueue-Accounts ops monitor_id r q in
      (gone, record { order = order; spilled = spilled; dropped = dropped; store = store })

module _ (rate : RateLimit) {R : Type 0} (codec : Codec R) (monitor_id : R → String) where
  abbrev Enqueued : Faults → List R → List (R × Fate) → Queue R Store → Queue R Store → Type 0
  Enqueued io added gone q q' =
      Enqueues (spill_to rate codec monitor_id io) monitor_id added gone q q'

  -- What a `Send` of the drained results that takes them, or fails, leaves of them.
  abbrev pub taken : Bool → List R → List R
  taken fails results = if fails then [] else results

  abbrev pub given_back : Bool → List R → List R
  given_back fails results = if fails then results else []
