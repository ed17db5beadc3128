-- ===== src/Health.antt =====
-- agent/internal/health/checker.go: whether the agent is ready, and if not, why. Times and durations
-- are nanoseconds, and the zero time is none.
pub mod Readiness
mod Tests
use Prim.Native.String.{String}
use ping_santo.Prelude.{
  ℕ, ◌+◌, ◌-◌, ◌==◌, ltb, leb, ◌&&◌, ◌||◌, not, if◌then◌else◌, Bool, true, false, Option, none,
  some, List, [], ◌∷◌, ◌++◌, map,
}
use ping_santo.Prelude.Texts.{same}

-- `Checker`, without the metrics store. An error of the empty text stands for none.
pub record Checker : Type 0 where
  pub queue_capacity : ℕ
  pub stale_after : ℕ
  pub last_monitor_success : Option ℕ
  pub monitor_err : String
  pub last_monitor_error : Option ℕ
  pub cert_expiry : Option ℕ

-- The reasons, with the values that their texts show.
pub data Reason : Type 0 where
  queue_capacity_exceeded : Reason
  monitors_not_yet_synced : Reason
  monitor_sync_stale : ℕ → Reason
  monitor_sync_failing : String → Reason
  certificate_expired certificate_expiring_soon : Reason

pub data Severity : Type 0 where
  info warning critical : Severity

-- The severity of the category of a reason
unfoldable pub severity_of : Reason → Severity
severity_of queue_capacity_exceeded = warning
severity_of monitors_not_yet_synced = info
severity_of (monitor_sync_stale d) = warning
severity_of (monitor_sync_failing e) = critical
severity_of certificate_expired = critical
severity_of certificate_expiring_soon = warning

-- `NewChecker`; a `stale_after` of 0 stands for every one that is not positive
unfoldable pub new_checker : ℕ → ℕ → Checker
new_checker queue_capacity stale_after = record {
  queue_capacity = queue_capacity;
  stale_after = if stale_after == 0 then 60000000000 else stale_after;
  last_monitor_success = none;
  monitor_err = "";
  last_monitor_error = none;
  cert_expiry = none;
}

-- `ObserveMonitorSync`
unfoldable pub observe_monitor_sync : ℕ → Option String → Checker → Checker
observe_monitor_sync ts (some e) c = record c { monitor_err = e; last_monitor_error = some ts }
observe_monitor_sync ts none c = record c {
  last_monitor_success = some ts;
  monitor_err = "";
  last_monitor_error = none;
}

-- `SetCertExpiry`
unfoldable pub set_cert_expiry : Option ℕ → Checker → Checker
set_cert_expiry expiry c = record c { cert_expiry = expiry }

-- The four parts of `Ready`. The depth is that of the metrics store's snapshot, if there is a store.
unfoldable pub queue_reasons : Option ℕ → ℕ → List Reason
queue_reasons none capacity = []
queue_reasons (some depth) capacity =
    if ltb 0 capacity && leb capacity depth then queue_capacity_exceeded ∷ [] else []

-- `now.Sub` of a later time is negative, and so is not over `stale_after`.
unfoldable pub sync_reasons : ℕ → ℕ → Option ℕ → List Reason
sync_reasons now stale_after none = monitors_not_yet_synced ∷ []
sync_reasons now stale_after (some last) =
    if ltb 0 stale_after && ltb stale_after (now - last)
    then monitor_sync_stale (now - last) ∷ []
    else []

-- The time since the zero time is longer than any `stale_after`.
unfoldable pub is_recent : ℕ → ℕ → Option ℕ → Bool
is_recent now stale_after none = false
is_recent now stale_after (some last) = leb (now - last) stale_after

unfoldable pub error_reasons : ℕ → ℕ → String → Option ℕ → List Reason
error_reasons now stale_after e last =
    if not (same e "") && (stale_after == 0 || is_recent now stale_after last)
    then monitor_sync_failing e ∷ []
    else []

unfoldable pub cert_reasons : ℕ → Option ℕ → List Reason
cert_reasons now none = []
cert_reasons now (some expiry) =
    if leb expiry now
    then certificate_expired ∷ []
    else (if ltb (expiry - now) 3600000000000 then certificate_expiring_soon ∷ [] else [])

-- `reasons` in `Ready`
unfoldable pub reasons_at : ℕ → Option ℕ → Checker → List Reason
reasons_at now depth c =
    queue_reasons depth c.queue_capacity
    ++ (sync_reasons now c.stale_after c.last_monitor_success
        ++ (error_reasons now c.stale_after c.monitor_err c.last_monitor_error
            ++ cert_reasons now c.cert_expiry))

abbrev pub is_empty : {A : Type 0} → List A → Bool
is_empty [] = true
is_empty (x ∷ xs) = false

-- `Ready`
unfoldable pub ready : ℕ → Option ℕ → Checker → Bool × List Reason
ready now depth c = (is_empty (reasons_at now depth c), reasons_at now depth c)

-- What `Ready` tells the metrics store: whether it is ready, and the severities of the categories.
unfoldable pub observed : ℕ → Option ℕ → Checker → Bool × List Severity
observed now depth c = ((ready now depth c).0, map severity_of (ready now depth c).1)
