-- ===== src/Plans/History.antt =====
-- What the history of an agent shows.
use Prim.Native.String.{String}
use mathlib.Core.Path.{subst}
use ping_santo.Prelude.{
  Bool, sym, ◌+◌, ◌++◌, count, drop, take-append-drop, append-nil, ℕ, zero, suc, ◌≤◌, ◌≡◌, ◌&&◌,
  inl, inr, refl, ap, ◌∙◌, Bool-cases, arith, if◌then◌else◌, List, [], ◌∷◌, length, take,
  length-take, All, ltb, ltb→lt, not_ltb→le, min, ◌==◌,
}
use ping_santo.Prelude.Texts.{same, same_iff}
use ping_santo.Plans.{
  UpgradeReport, MemoryStore, reports_of, insert_report, sort_reports, list_upgrade_history,
}

-- The report is the agent's.
abbrev pub IsOf : String → UpgradeReport → Type 0
IsOf id r = r.agent_id ≡ id

-- Each report is at least as late as every one behind it.
abbrev pub IsLatestFirst : List UpgradeReport → Type 0
IsLatestFirst [] = Unit
IsLatestFirst (r ∷ rs) = All (λ q. q.completed_at ≤ r.completed_at) rs × IsLatestFirst rs

reports_of-IsOf : (id : String) (rs : List UpgradeReport) → All (IsOf id) (reports_of id rs)
unfolding reports_of
reports_of-IsOf id [] = tt
reports_of-IsOf id (r ∷ rs) = elim (Bool-cases (same r.agent_id id)) [
  | inl own ↦ rw own ((same_iff r.agent_id id).0 own, reports_of-IsOf id rs)
  | inr foreign ↦ rw foreign (reports_of-IsOf id rs)
]

module _ (P : UpgradeReport → Type 0) where
  insert_report-All :
      (r : UpgradeReport) (rs : List UpgradeReport) → P r → All P rs → All P (insert_report r rs)
  unfolding insert_report
  insert_report-All r [] h hs = (h, tt)
  insert_report-All r (q ∷ qs) h (g, gs) = elim (Bool-cases (ltb r.completed_at q.completed_at)) [
    | inl later ↦ rw later (g, insert_report-All r qs h gs)
    | inr first ↦ rw first (h, (g, gs))
  ]

  sort_reports-All : (rs : List UpgradeReport) → All P rs → All P (sort_reports rs)
  unfolding sort_reports
  sort_reports-All [] hs = tt
  sort_reports-All (r ∷ rs) (h, hs) =
      insert_report-All r (sort_reports rs) h (sort_reports-All rs hs)

  take-All : (n : ℕ) (rs : List UpgradeReport) → All P rs → All P (take n rs)
  take-All zero rs hs = tt
  take-All (suc n) [] hs = tt
  take-All (suc n) (r ∷ rs) (h, hs) = (h, take-All n rs hs)

not_later :
    (a b : ℕ) (rs : List UpgradeReport)
    → a ≤ b
    → All (λ q. q.completed_at ≤ a) rs
    → All (λ q. q.completed_at ≤ b) rs
not_later a b [] le hs = tt
not_later a b (r ∷ rs) le (h, hs) = (omega (arith, h, le), not_later a b rs le hs)

insert_report-IsLatestFirst :
    (r : UpgradeReport) (rs : List UpgradeReport)
    → IsLatestFirst rs
    → IsLatestFirst (insert_report r rs)
unfolding insert_report
insert_report-IsLatestFirst r [] s = (tt, tt)
insert_report-IsLatestFirst r (q ∷ qs) (le, s) =
    elim (Bool-cases (ltb r.completed_at q.completed_at)) [
      | inl later ↦ rw later (
        insert_report-All (λ p. p.completed_at ≤ q.completed_at) r qs
            (omega (arith, ltb→lt r.completed_at q.completed_at later)) le,
        insert_report-IsLatestFirst r qs s,
      )
      | inr first ↦
          let before = not_ltb→le r.completed_at q.completed_at first in
          rw first ((before, not_later q.completed_at r.completed_at qs before le), (le, s))
    ]

sort_reports-IsLatestFirst : (rs : List UpgradeReport) → IsLatestFirst (sort_reports rs)
unfolding sort_reports
sort_reports-IsLatestFirst [] = tt
sort_reports-IsLatestFirst (r ∷ rs) =
    insert_report-IsLatestFirst r (sort_reports rs) (sort_reports-IsLatestFirst rs)

length-insert_report :
    (r : UpgradeReport) (rs : List UpgradeReport) → length (insert_report r rs) ≡ suc (length rs)
unfolding insert_report
length-insert_report r [] = refl
length-insert_report r (q ∷ qs) = elim (Bool-cases (ltb r.completed_at q.completed_at)) [
  | inl later ↦ rw later (ap suc (length-insert_report r qs))
  | inr first ↦ rw first refl
]

length-sort_reports : (rs : List UpgradeReport) → length (sort_reports rs) ≡ length rs
unfolding sort_reports
length-sort_reports [] = refl
length-sort_reports (r ∷ rs) =
    length-insert_report r (sort_reports rs) ∙ ap suc (length-sort_reports rs)

-- The agent's report that passes a test
abbrev pub is_own : String → (UpgradeReport → Bool) → UpgradeReport → Bool
is_own id passes r = same r.agent_id id && passes r

count-reports_of :
    (id : String) (passes : UpgradeReport → Bool) (rs : List UpgradeReport)
    → count passes (reports_of id rs) ≡ count (is_own id passes) rs
unfolding reports_of
count-reports_of id passes [] = refl
count-reports_of id passes (r ∷ rs) = elim (Bool-cases (same r.agent_id id)) [
  | inl own ↦ rw own (ap (λ n. (if passes r then 1 else 0) + n) (count-reports_of id passes rs))
  | inr foreign ↦ rw foreign (omega (arith, count-reports_of id passes rs))
]

length-reports_of :
    (id : String) (rs : List UpgradeReport)
    → length (reports_of id rs) ≡ count (λ r. same r.agent_id id) rs
unfolding reports_of
length-reports_of id [] = refl
length-reports_of id (r ∷ rs) = elim (Bool-cases (same r.agent_id id)) [
  | inl own ↦ rw own (omega (arith, length-reports_of id rs))
  | inr foreign ↦ rw foreign (omega (arith, length-reports_of id rs))
]

count-insert_report :
    (passes : UpgradeReport → Bool) (r : UpgradeReport) (rs : List UpgradeReport)
    → count passes (insert_report r rs) ≡ count passes (r ∷ rs)
unfolding insert_report
count-insert_report passes r [] = refl
count-insert_report passes r (q ∷ qs) = elim (Bool-cases (ltb r.completed_at q.completed_at)) [
  | inl later ↦ rw later (omega (arith, count-insert_report passes r qs))
  | inr first ↦ rw first refl
]

count-sort_reports :
    (passes : UpgradeReport → Bool) (rs : List UpgradeReport)
    → count passes (sort_reports rs) ≡ count passes rs
unfolding sort_reports
count-sort_reports passes [] = refl
count-sort_reports passes (r ∷ rs) =
    omega (arith, count-insert_report passes r (sort_reports rs), count-sort_reports passes rs)

-- The reports `shown` are the latest of the agent's among `stored`: with some more behind them, each
-- at most as late as every one shown, they are the agent's reports, each as often as it is stored.
abbrev pub ShowsLatest : String → List UpgradeReport → List UpgradeReport → Type 0
ShowsLatest id stored shown =
    (more : List UpgradeReport) × IsLatestFirst (shown ++ more)
    × ((passes : UpgradeReport → Bool)
        → count passes (shown ++ more) ≡ count (is_own id passes) stored)

-- The history of an agent is sorted, the latest report first, and shows the latest of the reports
-- that are stored for the agent, each as it is stored: all of them if the limit is not positive,
-- and else as many as the limit if there are more. It shows no report of another agent.
pub list_upgrade_history-IsLatestFirst :
    (id : String) (limit : ℕ) (m : MemoryStore)
    → let shown = list_upgrade_history id limit m in
      let n = count (λ r. same r.agent_id id) m.reports in
      ShowsLatest id m.reports shown
      × All (IsOf id) shown
      × (length shown ≡ (if limit == 0 then n else min limit n))
unfolding list_upgrade_history
list_upgrade_history-IsLatestFirst id limit m =
    let own_reports = reports_of id m.reports in
    let sorted = sort_reports own_reports in
    let own = sort_reports-All (IsOf id) own_reports (reports_of-IsOf id m.reports) in
    let latest = sort_reports-IsLatestFirst own_reports in
    let n = length-sort_reports own_reports ∙ length-reports_of id m.reports in
    let stored : (passes : UpgradeReport → Bool)
        → count passes sorted ≡ count (is_own id passes) m.reports =
      λ passes. count-sort_reports passes own_reports ∙ count-reports_of id passes m.reports in
    elim (Bool-cases (ltb 0 limit && ltb limit (length sorted))) [
      | inl cut ↦ rw cut (
        (
          drop limit sorted,
          subst IsLatestFirst (sym (take-append-drop limit sorted)) latest,
          λ passes. ap (count passes) (take-append-drop limit sorted) ∙ stored passes,
        ),
        take-All (IsOf id) limit sorted own,
        ground (arith, length-take limit sorted, cut, n),
      )
      | inr whole ↦ rw whole (
        (
          [],
          subst IsLatestFirst (sym (append-nil sorted)) latest,
          λ passes. ap (count passes) (append-nil sorted) ∙ stored passes,
        ),
        own,
        ground (arith, whole, n),
      )
    ]
