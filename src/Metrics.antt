-- ===== src/Metrics.antt =====
-- agent/internal/metrics/store.go: the agent's gauges and counters. Go's strings.TrimSpace and
-- strings.ToLower are parameters.
pub mod Sync
pub mod Tallies
pub mod Interleavings
mod Tests
use Prim.Native.String.{String}
use ping_santo.Prelude.{
  ℕ, zero, suc, ◌++◌, ◌&&◌, ◌||◌, if◌then◌else◌, Bool, true, false, List, [], ◌∷◌,
}
use ping_santo.Prelude.Texts.{same}
use ping_santo.Queue.{QueueCall, observe_depth, inc_drops, inc_spills, inc64}

-- `ReadinessCategory` and `categoryKey`
pub record Category : Type 0 where
  pub name : String
  pub severity : String

-- `Store`, without the text of the reason. `ready` is that `readinessState` is 1, and
-- `category_totals` is the map from a category to its counter.
pub record Metrics : Type 0 where
  pub queue_depth : ℕ
  pub queue_drops : ℕ
  pub queue_spills : ℕ
  pub backfill_pending_bytes : ℕ
  pub ready : Bool
  pub categories : List Category
  pub ready_transitions : ℕ
  pub not_ready_transitions : ℕ
  pub ready_alerts : ℕ
  pub category_totals : List (Category × ℕ)

-- `NewStore`
unfoldable pub new_metrics : Metrics
new_metrics = record {
  queue_depth = 0;
  queue_drops = 0;
  queue_spills = 0;
  backfill_pending_bytes = 0;
  ready = false;
  categories = [];
  ready_transitions = 0;
  not_ready_transitions = 0;
  ready_alerts = 0;
  category_totals = [];
}

-- The methods of `queueRecorder`
unfoldable pub record_call : QueueCall → Metrics → Metrics
record_call (observe_depth depth) m = record m { queue_depth = depth }
record_call inc_drops m = record m { queue_drops = inc64 m.queue_drops }
record_call inc_spills m = record m { queue_spills = inc64 m.queue_spills }

unfoldable pub record_calls : List QueueCall → Metrics → Metrics
record_calls [] m = m
record_calls (c ∷ cs) m = record_calls cs (record_call c m)

-- The method of `backfillRecorder`; the size of a store is not negative
unfoldable pub observe_pending_bytes : ℕ → Metrics → Metrics
observe_pending_bytes bytes m = record m { backfill_pending_bytes = bytes }

abbrev pub same_category : Category → Category → Bool
same_category c d = same c.name d.name && same c.severity d.severity

unfoldable pub is_seen : Category → List Category → Bool
is_seen c [] = false
is_seen c (d ∷ ds) = same_category c d || is_seen c ds

-- `getCategoryCounter(category).Add(1)`, behind the normalisation
unfoldable pub count_category : Category → List (Category × ℕ) → List (Category × ℕ)
count_category c [] = (c, 1) ∷ []
count_category c ((d, n) ∷ totals) =
    let rest = count_category c totals in
    if same_category c d then (d, inc64 n) ∷ totals else (d, n) ∷ rest

-- The atomic operations of `ObserveReadiness`, which takes no mutex
pub data Operation : Type 0 where
  add_ready add_not_ready add_alert : Operation
  store_ready : Bool → Operation
  store_categories : List Category → Operation
  add_category : Category → Operation

unfoldable pub perform : Operation → Metrics → Metrics
perform add_ready m = record m { ready_transitions = inc64 m.ready_transitions }
perform add_not_ready m = record m { not_ready_transitions = inc64 m.not_ready_transitions }
perform add_alert m = record m { ready_alerts = inc64 m.ready_alerts }
perform (store_ready ready) m = record m { ready = ready }
perform (store_categories categories) m = record m { categories = categories }
perform (add_category c) m = record m { category_totals = count_category c m.category_totals }

-- A call of `ObserveReadiness` that runs: what it loaded, what it observes, and what it has still to
-- do
pub record Observation : Type 0 where
  pub prev : Bool
  pub observes : Bool
  pub rest : List Operation

-- What happens next: a call begins and loads the state, or the call of a number does its next
-- operation.
pub data ObserveStep : Type 0 where
  begins : Bool → List Category → ObserveStep
  does_next : ℕ → ObserveStep

-- The next operation of the call of a number, if there is one
unfoldable pub advance : ℕ → List Observation → Metrics → List Observation × Metrics
advance i [] m = ([], m)
advance zero (c ∷ cs) m = elim c.rest [
  | [] ↦ (c ∷ cs, m)
  | o ∷ os ↦ (record c { rest = os } ∷ cs, perform o m)
]
advance (suc i) (c ∷ cs) m = let (cs', m') = advance i cs m in (c ∷ cs', m')

module _ (trim_space to_lower : String → String) where
  -- `normalizeCategoryName`
  unfoldable pub normalize_category_name : String → String
  normalize_category_name name = if same (trim_space name) "" then "unknown" else trim_space name

  -- `normalizeSeverity`
  unfoldable pub normalize_severity : String → String
  normalize_severity severity =
      let s = trim_space (to_lower severity) in
      if same s ""
      then "unknown"
      else if same s "info" || same s "informational"
      then "info"
      else if same s "warn" || same s "warning"
      then "warning"
      else (if same s "critical" || same s "crit" then "critical" else s)

  unfoldable pub normalized : Category → Category
  normalized c = record {
    name = normalize_category_name c.name;
    severity = normalize_severity c.severity;
  }

  -- `dedupeCategories`, with the categories that were seen
  unfoldable pub dedupe_categories : List Category → List Category → List Category
  dedupe_categories seen [] = []
  dedupe_categories seen (c ∷ cs) =
      let skipped = dedupe_categories seen cs in
      let rest = dedupe_categories (normalized c ∷ seen) cs in
      if same (trim_space c.name) "" || is_seen (normalized c) seen
      then skipped
      else normalized c ∷ rest

  -- The additions of the loop in `ObserveReadiness`; `getCategoryCounter` normalises again.
  unfoldable pub count_categories : List Category → List Operation
  count_categories [] = []
  count_categories (c ∷ cs) = add_category (normalized c) ∷ count_categories cs

  -- What `ObserveReadiness` does behind its first line, which loaded `prev`
  unfoldable pub operations : Bool → Bool → List Category → List Operation
  operations prev true categories =
      (if prev then [] else add_ready ∷ []) ++ (store_ready true ∷ store_categories [] ∷ [])
  operations prev false categories =
      let deduped = dedupe_categories [] categories in
      (if prev then add_not_ready ∷ add_alert ∷ [] else [])
      ++ (store_ready false
          ∷ store_categories deduped
          ∷ (if prev then count_categories deduped else []))

  -- Calls of `ObserveReadiness` in several goroutines, an atomic operation at a time
  unfoldable pub interleave :
      List ObserveStep → List Observation × Metrics → List Observation × Metrics
  unfolding operations advance
  interleave [] (cs, m) = (cs, m)
  interleave (begins ready categories ∷ steps) (cs, m) =
      let call : Observation = record {
        prev = m.ready;
        observes = ready;
        rest = operations m.ready ready categories;
      } in
      interleave steps (call ∷ cs, m)
  interleave (does_next i ∷ steps) (cs, m) = interleave steps (advance i cs m)
