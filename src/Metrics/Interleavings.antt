-- ===== src/Metrics/Interleavings.antt =====
-- What the counters of readiness count when calls of ObserveReadiness overlap.
use Prim.Native.String.{String}
use ping_santo.Prelude.{◌≡◌, refl, ◌∙◌, Bool, true, false, List, [], ◌∷◌}
use ping_santo.Metrics.{
  Category, Metrics, Operation, add_ready, add_not_ready, add_alert, store_ready, store_categories,
  add_category, perform, Observation, ObserveStep, begins, does_next, count_categories,
  dedupe_categories, operations, advance, interleave,
}
use ping_santo.Metrics.Tallies.{
  Tallies, is_add_ready, is_add_not_ready, is_add_alert, gains, loses, interleave-Tallies_lem,
  ready_planned, not_ready_planned, alert_planned, ready_adds, not_ready_adds, alert_adds,
}

module _ (trim_space to_lower : String → String) where
  -- The steps of the call at the head of the list for its operations
  abbrev pub steps_for : List Operation → List ObserveStep
  steps_for [] = []
  steps_for (o ∷ os) = does_next 0 ∷ steps_for os

  abbrev pub alone : Bool → Bool → List Category → List ObserveStep
  alone prev ready categories =
      begins ready categories ∷ steps_for (operations trim_space to_lower prev ready categories)

  -- The state that the operations leave
  abbrev ready_after : List Operation → Bool → Bool
  ready_after [] b = b
  ready_after (store_ready b' ∷ os) b = ready_after os b'
  ready_after (add_ready ∷ os) b = ready_after os b
  ready_after (add_not_ready ∷ os) b = ready_after os b
  ready_after (add_alert ∷ os) b = ready_after os b
  ready_after (store_categories cs ∷ os) b = ready_after os b
  ready_after (add_category c ∷ os) b = ready_after os b

  -- The call at the head of the list works off its operations.
  Works : Observation → List Operation → List Observation → Metrics → Type 0
  Works c os cs m =
      let (cs', m') =
        interleave trim_space to_lower (steps_for os) (record c { rest = os } ∷ cs, m) in
      (cs' ≡ record c { rest = [] } ∷ cs) × (m'.ready ≡ ready_after os m.ready)

  steps_for-Works :
      (c : Observation) (os : List Operation) (cs : List Observation) (m : Metrics)
      → Works c os cs m
  unfolding Works interleave advance perform
  steps_for-Works c [] cs m = (refl, refl)
  steps_for-Works c (add_ready ∷ os) cs m = steps_for-Works c os cs _
  steps_for-Works c (add_not_ready ∷ os) cs m = steps_for-Works c os cs _
  steps_for-Works c (add_alert ∷ os) cs m = steps_for-Works c os cs _
  steps_for-Works c (store_ready b ∷ os) cs m = steps_for-Works c os cs _
  steps_for-Works c (store_categories ds ∷ os) cs m = steps_for-Works c os cs _
  steps_for-Works c (add_category d ∷ os) cs m = steps_for-Works c os cs _

  ready_after-count_categories :
      (cs : List Category) (b : Bool) → ready_after (count_categories trim_space to_lower cs) b ≡ b
  unfolding count_categories
  ready_after-count_categories [] b = refl
  ready_after-count_categories (c ∷ cs) b = ready_after-count_categories cs b

  ready_after-operations :
      (prev ready : Bool) (categories : List Category)
      → ready_after (operations trim_space to_lower prev ready categories) prev ≡ ready
  unfolding operations
  ready_after-operations true true cs = refl
  ready_after-operations false true cs = refl
  ready_after-operations true false cs =
      ready_after-count_categories (dedupe_categories trim_space to_lower [] cs) false
  ready_after-operations false false cs = refl

  alone_lem :
      (ready : Bool) (categories : List Category) (cs : List Observation) (m : Metrics)
      → let (cs', m') = interleave trim_space to_lower (alone m.ready ready categories) (cs, m) in
        (cs' ≡ record { prev = m.ready; observes = ready; rest = [] } ∷ cs) × (m'.ready ≡ ready)
  unfolding Works interleave
  alone_lem ready categories cs m =
      let os = operations trim_space to_lower m.ready ready categories in
      let (calls, left) =
        steps_for-Works (record { prev = m.ready; observes = ready; rest = os }) os cs m in
      (calls, left ∙ ready_after-operations m.ready ready categories)

  -- However calls of ObserveReadiness overlap, each one that loaded the other state is counted once,
  -- and no other call is: one that found the agent not ready and observes that it is adds one to the
  -- ready transitions, and one that found it ready and observes that it is not adds one to the
  -- transitions to not ready and one to the alerts. What a call has still to add is taken into
  -- account, and the counters are uint64. A call that then runs to its end while no other call goes
  -- on finds the state that there is, and leaves the one that it observes.
  pub interleave-Tallies :
      (steps : List ObserveStep) (m : Metrics) (ready : Bool) (categories : List Category)
      → let run = interleave trim_space to_lower steps ([], m) in
        Tallies (λ n. n.ready_transitions) is_add_ready gains m.ready_transitions run
        × Tallies (λ n. n.not_ready_transitions) is_add_not_ready loses m.not_ready_transitions run
        × Tallies (λ n. n.ready_alerts) is_add_alert loses m.ready_alerts run
        × let (cs', m') = interleave trim_space to_lower (alone run.1.ready ready categories) run in
          (cs' ≡ record { prev = run.1.ready; observes = ready; rest = [] } ∷ run.0)
          × (m'.ready ≡ ready)
  interleave-Tallies steps m ready categories = (
    interleave-Tallies_lem trim_space to_lower (λ n. n.ready_transitions) is_add_ready gains
        ready_adds (ready_planned trim_space to_lower) m.ready_transitions steps [] m refl,
    interleave-Tallies_lem trim_space to_lower (λ n. n.not_ready_transitions) is_add_not_ready loses
        not_ready_adds (not_ready_planned trim_space to_lower) m.not_ready_transitions steps [] m
        refl,
    interleave-Tallies_lem trim_space to_lower (λ n. n.ready_alerts) is_add_alert loses alert_adds
        (alert_planned trim_space to_lower) m.ready_alerts steps [] m refl,
    alone_lem ready categories (interleave trim_space to_lower steps ([], m)).0
        (interleave trim_space to_lower steps ([], m)).1,
  )
