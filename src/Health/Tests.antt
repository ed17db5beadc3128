-- ===== src/Health/Tests.antt =====
-- The checker at concrete inputs.
use ping_santo.Prelude.{◌≡◌, ◌↔◌, refl, true, false, [], ◌∷◌, none, some, arith}
use ping_santo.Prelude.Texts.{same_iff}
use ping_santo.Health.{
  Checker, monitor_sync_failing, certificate_expiring_soon, ready, reasons_at, queue_reasons,
  sync_reasons, error_reasons, cert_reasons, is_recent, observe_monitor_sync,
}
use ping_santo.Health.Readiness.{
  HasRoom, IsSynced, IsForgotten, LastsAnHour, ready_iff, failed_sync_blocks,
}

abbrev synced : Checker
synced = record {
  queue_capacity = 10;
  stale_after = 100;
  last_monitor_success = some 50;
  monitor_err = "";
  last_monitor_error = none;
  cert_expiry = some 1000;
}

reports :
    ready 120 (some 3) (observe_monitor_sync 60 (some "timeout") synced)
    ≡ (false, monitor_sync_failing "timeout" ∷ certificate_expiring_soon ∷ [])
unfolding ready reasons_at queue_reasons sync_reasons error_reasons cert_reasons is_recent
    observe_monitor_sync
reports = refl

ready_iff_example : ((ready 120 (some 3) synced).0 ≡ true) ↔ (
    HasRoom (some 3) 10
    × IsSynced 120 100 (some 50)
    × IsForgotten 120 100 "" none
    × LastsAnHour 120 (some 1000))
ready_iff_example = ready_iff 120 (some 3) synced

blocked_by_failure :
    (ready 500 (some 3) (observe_monitor_sync 60 (some "timeout") synced)).0 ≡ false
blocked_by_failure =
    failed_sync_blocks 500 60 "timeout" (some 3) synced (λ e. ground (arith, same_iff "timeout" ""))
      (omega arith)
