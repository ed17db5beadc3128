-- ===== src/Metrics/Tallies.antt =====
-- The additions of ObserveReadiness to the counters of readiness, done and to be done.
use Prim.Native.String.{String}
use ping_santo.Prelude.{
  ℕ, zero, suc, ◌+◌, ◌%◌, ◌^◌, ◌≡◌, refl, ◌&&◌, not, Bool, true, false, if◌then◌else◌, List, [],
  ◌∷◌, ap, count, arith,
}
use ping_santo.Queue.{inc64}
use ping_santo.Metrics.{
  Category, Metrics, Operation, add_ready, add_not_ready, add_alert, store_ready, store_categories,
  add_category, perform, Observation, ObserveStep, begins, does_next, count_categories,
  dedupe_categories, operations, advance, interleave,
}

abbrev pub is_add_ready : Operation → Bool
is_add_ready add_ready = true
is_add_ready _ = false

abbrev pub is_add_not_ready : Operation → Bool
is_add_not_ready add_not_ready = true
is_add_not_ready _ = false

abbrev pub is_add_alert : Operation → Bool
is_add_alert add_alert = true
is_add_alert _ = false

-- The call found the agent not ready and observes that it is, or the other way round.
abbrev pub gains : Bool → Bool → Bool
gains prev observes = observes && not prev

abbrev pub loses : Bool → Bool → Bool
loses prev observes = not observes && prev

-- How many operations of a kind the calls have still to do
abbrev pub to_do : (Operation → Bool) → List Observation → ℕ
to_do is [] = 0
to_do is (c ∷ cs) = count is c.rest + to_do is cs

-- A counter, with what is still to be added to it, is ahead of where it started by the calls that
-- are tallied; it is a uint64.
abbrev pub Tallies :
    (Metrics → ℕ)
    → (Operation → Bool)
    → (Bool → Bool → Bool)
    → ℕ
    → List Observation × Metrics
    → Type 0
Tallies counter is tallied start (cs, m) =
    (counter m + to_do is cs) % 2 ^ 64
    ≡ (start + count (λ c. tallied c.prev c.observes) cs) % 2 ^ 64

module _ (trim_space to_lower : String → String) (counter : Metrics → ℕ) (is : Operation → Bool)
    (tallied : Bool → Bool → Bool)
    (adds : (o : Operation) (m : Metrics)
      → counter (perform o m) ≡ (if is o then inc64 (counter m) else counter m))
    (planned : (prev ready : Bool) (categories : List Category)
      → count is (operations trim_space to_lower prev ready categories)
        ≡ (if tallied prev ready then 1 else 0)) where
  -- One operation keeps the sum of a counter and what is to be added to it, and which calls there are.
  abbrev Kept : List Observation × Metrics → List Observation → Metrics → Type 0
  Kept (cs', m') cs m =
      ((counter m' + to_do is cs') % 2 ^ 64 ≡ (counter m + to_do is cs) % 2 ^ 64)
      × (count (λ c. tallied c.prev c.observes) cs' ≡ count (λ c. tallied c.prev c.observes) cs)

  next_of :
      (c : Observation) (cs : List Observation) (m : Metrics) (rest : List Operation)
      → c.rest ≡ rest
      → Kept
          (elim rest [ [] ↦ (c ∷ cs, m) | o ∷ os ↦ (record c { rest = os } ∷ cs, perform o m) ])
          (c ∷ cs)
          m
  next_of c cs m [] e = (refl, refl)
  next_of c cs m (o ∷ os) e =
      let known = ap (count is) e in let added = adds o m in (ground (arith, known, added), refl)

  advance-Kept : (i : ℕ) (cs : List Observation) (m : Metrics) → Kept (advance i cs m) cs m
  unfolding advance
  advance-Kept i [] m = (refl, refl)
  advance-Kept zero (c ∷ cs) m = next_of c cs m c.rest refl
  advance-Kept (suc i) (c ∷ cs) m =
      let (sum, same_calls) = advance-Kept i cs m in (omega (arith, sum), omega (arith, same_calls))

  pub interleave-Tallies_lem :
      (start : ℕ) (steps : List ObserveStep) (cs : List Observation) (m : Metrics)
      → Tallies counter is tallied start (cs, m)
      → Tallies counter is tallied start (interleave trim_space to_lower steps (cs, m))
  unfolding interleave
  interleave-Tallies_lem start [] cs m h = h
  interleave-Tallies_lem start (begins ready categories ∷ steps) cs m h =
      let n = planned m.ready ready categories in
      interleave-Tallies_lem start steps _ m (omega (arith, h, n))
  interleave-Tallies_lem start (does_next i ∷ steps) cs m h =
      let (sum, same_calls) = advance-Kept i cs m in
      interleave-Tallies_lem start steps (advance i cs m).0 (advance i cs m).1
        (omega (arith, h, sum, same_calls))

module _ (trim_space to_lower : String → String) where
  adds_no_other :
      (is : Operation → Bool)
      → ((c : Category) → is (add_category c) ≡ false)
      → (cs : List Category) → count is (count_categories trim_space to_lower cs) ≡ 0
  unfolding count_categories
  adds_no_other is other [] = refl
  adds_no_other is other (c ∷ cs) = rw other (omega (arith, adds_no_other is other cs))

  pub ready_planned :
      (prev ready : Bool) (categories : List Category)
      → count is_add_ready (operations trim_space to_lower prev ready categories)
        ≡ (if gains prev ready then 1 else 0)
  unfolding operations
  ready_planned true true cs = refl
  ready_planned false true cs = refl
  ready_planned true false cs =
      let none_more =
        adds_no_other is_add_ready (λ c. refl) (dedupe_categories trim_space to_lower [] cs) in
      omega (arith, none_more)
  ready_planned false false cs = refl

  pub not_ready_planned :
      (prev ready : Bool) (categories : List Category)
      → count is_add_not_ready (operations trim_space to_lower prev ready categories)
        ≡ (if loses prev ready then 1 else 0)
  unfolding operations
  not_ready_planned true true cs = refl
  not_ready_planned false true cs = refl
  not_ready_planned true false cs =
      let none_more =
        adds_no_other is_add_not_ready (λ c. refl) (dedupe_categories trim_space to_lower [] cs) in
      omega (arith, none_more)
  not_ready_planned false false cs = refl

  pub alert_planned :
      (prev ready : Bool) (categories : List Category)
      → count is_add_alert (operations trim_space to_lower prev ready categories)
        ≡ (if loses prev ready then 1 else 0)
  unfolding operations
  alert_planned true true cs = refl
  alert_planned false true cs = refl
  alert_planned true false cs =
      let none_more =
        adds_no_other is_add_alert (λ c. refl) (dedupe_categories trim_space to_lower [] cs) in
      omega (arith, none_more)
  alert_planned false false cs = refl

pub ready_adds :
    (o : Operation) (m : Metrics)
    → (perform o m).ready_transitions
      ≡ (if is_add_ready o then inc64 m.ready_transitions else m.ready_transitions)
unfolding perform
ready_adds add_ready m = refl
ready_adds add_not_ready m = refl
ready_adds add_alert m = refl
ready_adds (store_ready b) m = refl
ready_adds (store_categories cs) m = refl
ready_adds (add_category c) m = refl

pub not_ready_adds :
    (o : Operation) (m : Metrics)
    → (perform o m).not_ready_transitions
      ≡ (if is_add_not_ready o then inc64 m.not_ready_transitions else m.not_ready_transitions)
unfolding perform
not_ready_adds add_ready m = refl
not_ready_adds add_not_ready m = refl
not_ready_adds add_alert m = refl
not_ready_adds (store_ready b) m = refl
not_ready_adds (store_categories cs) m = refl
not_ready_adds (add_category c) m = refl

pub alert_adds :
    (o : Operation) (m : Metrics)
    → (perform o m).ready_alerts ≡ (if is_add_alert o then inc64 m.ready_alerts else m.ready_alerts)
unfolding perform
alert_adds add_ready m = refl
alert_adds add_not_ready m = refl
alert_adds add_alert m = refl
alert_adds (store_ready b) m = refl
alert_adds (store_categories cs) m = refl
alert_adds (add_category c) m = refl
