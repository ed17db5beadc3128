-- ===== src/Server/Reports.antt =====
-- The reports of agents, as administrators see them, on the store in memory.
use Prim.Native.String.{String}
use ping_santo.Prelude.{
  ℕ, ◌≡◌, ◌≢◌, refl, ap, ◌∙◌, false, Bool-cases, inl, inr, if◌then◌else◌, Option, none, some, List,
  [], ◌∷◌, ◌++◌, arith,
}
use ping_santo.Prelude.Texts.{same, same_iff}
use ping_santo.Plans.{
  MemoryStore, UpgradeReport, Texts, reports_of, list_upgrade_history, record_upgrade_report,
}
use ping_santo.Server.{Config, Request, Response, no_body, http_error}
use ping_santo.Server.Access.{Caller, agent, unknown, extract_agent_id}
use ping_santo.Server.Agents.{report_handler, report_for, answer_report}
use ping_santo.Server.Admin.{admin_history_handler}
use ping_santo.Server.Memory.{memory_plans, formats_of}

reports_of-append :
    (id : String) (rs : List UpgradeReport) (r : UpgradeReport)
    → reports_of id (rs ++ (r ∷ []))
      ≡ (if same r.agent_id id then reports_of id rs ++ (r ∷ []) else reports_of id rs)
unfolding reports_of
reports_of-append id [] r = refl
reports_of-append id (q ∷ rs) r = elim (Bool-cases (same q.agent_id id)) [
  | inl own ↦ elim (Bool-cases (same r.agent_id id)) [
    | inl e ↦ rw (own, e) (ap (◌∷◌ q) (reports_of-append id rs r ∙ rw e refl))
    | inr e ↦ rw (own, e) (ap (◌∷◌ q) (reports_of-append id rs r ∙ rw e refl))
  ]
  | inr other ↦ rw other (reports_of-append id rs r)
]

-- The history depends on the agent's own reports alone.
history-own :
    (id : String) (limit : ℕ) (m m' : MemoryStore)
    → reports_of id m'.reports ≡ reports_of id m.reports
    → list_upgrade_history id limit m' ≡ list_upgrade_history id limit m
unfolding list_upgrade_history
history-own id limit m m' e = rw e refl

module _ (t : Texts) (cfg : Config) (now : ℕ) (r : Request) (body : Option UpgradeReport)
    (m : MemoryStore) where
  abbrev reported : Response × MemoryStore
  reported = report_handler (formats_of t) cfg (memory_plans t now) r body m

  reported_for :
      (c : Caller)
      → extract_agent_id (formats_of t) r cfg.agent_auth_mode ≡ c
      → reported ≡ report_for (formats_of t) cfg (memory_plans t now) c body m
  unfolding report_handler
  reported_for c e = ap (λ d. report_for (formats_of t) cfg (memory_plans t now) d body m) e

  -- The reports that administrators see of an agent after a call.
  abbrev pub Reported : Caller → Option UpgradeReport → Response × MemoryStore → Type 0
  Reported (unknown text) _ (answer, m') = (answer ≡ http_error 401 text) × (m' ≡ m)
  Reported (agent id) none (answer, m') = (answer ≡ http_error 400 "invalid json") × (m' ≡ m)
  Reported (agent id) (some report) (answer, m') =
      (answer ≡ record { status = 204; etag = ""; body = no_body })
      × (reports_of id m'.reports
          ≡ reports_of id m.reports ++ ((record report { agent_id = id }) ∷ []))
      × (m'.plans ≡ m.plans)

  -- What the history of `other` is made of.
  others_kept :
      (c : Caller) (b : Option UpgradeReport) (other : String)
      → ((id : String) → c ≡ agent id → id ≢ other)
      → let m' = (report_for (formats_of t) cfg (memory_plans t now) c b m).1 in
        reports_of other m'.reports ≡ reports_of other m.reports
  unfolding report_for answer_report record_upgrade_report
  others_kept (unknown text) b other apart = refl
  others_kept (agent id) none other apart = refl
  others_kept (agent id) (some report) other apart =
      let differ : id ≢ other = apart id refl in
      let not_other : same id other ≡ false = ground (arith, same_iff id other) in
      reports_of-append other m.reports (record report { agent_id = id }) ∙ rw not_other refl

  -- A call with a report, whatever comes of it, changes nothing of what administrators see of the
  -- history of another agent than the caller.
  pub history_isolated :
      (other : String) (later : ℕ) (admin : Request)
      → ((id : String)
          → extract_agent_id (formats_of t) r cfg.agent_auth_mode ≡ agent id
          → id ≢ other)
      → admin_history_handler (formats_of t) cfg (memory_plans t later) admin other reported.1
        ≡ admin_history_handler (formats_of t) cfg (memory_plans t later) admin other m
  unfolding admin_history_handler report_handler
  history_isolated other later admin apart =
      let kept =
        others_kept (extract_agent_id (formats_of t) r cfg.agent_auth_mode) body other apart in
      rw (history-own other _ m reported.1 kept) refl
