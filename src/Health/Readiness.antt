-- ===== src/Health/Readiness.antt =====
-- When the agent is ready.
use Prim.Native.String.{String}
use ping_santo.Prelude.{
  ℕ, ◌+◌, ◌≤◌, ◌<◌, ◌≡◌, ◌≢◌, ◌⊎◌, ◌↔◌, inl, inr, refl, ◌&&◌, true, false, Bool-cases, arith, List,
  [], ◌∷◌, ◌++◌, Option, none, some,
}
use ping_santo.Prelude.Texts.{same_iff}
use ping_santo.Health.{
  Checker, observe_monitor_sync, queue_reasons, sync_reasons, is_recent, error_reasons,
  cert_reasons, reasons_at, is_empty, ready,
}

-- No part of the check objects.
abbrev pub HasRoom : Option ℕ → ℕ → Type 0
HasRoom none capacity = Unit
HasRoom (some depth) capacity = (capacity ≡ 0) ⊎ (depth < capacity)

abbrev pub IsSynced : ℕ → ℕ → Option ℕ → Type 0
IsSynced now stale_after none = ⊥
IsSynced now stale_after (some last) = (stale_after ≡ 0) ⊎ (now ≤ last + stale_after)

abbrev pub IsOld : ℕ → ℕ → Option ℕ → Type 0
IsOld now stale_after none = Unit
IsOld now stale_after (some last) = last + stale_after < now

abbrev pub IsForgotten : ℕ → ℕ → String → Option ℕ → Type 0
IsForgotten now stale_after e last = (e ≡ "") ⊎ ((0 < stale_after) × IsOld now stale_after last)

abbrev pub LastsAnHour : ℕ → Option ℕ → Type 0
LastsAnHour now none = Unit
LastsAnHour now (some expiry) = now + 3600000000000 ≤ expiry

queue_reasons-empty :
    (depth : Option ℕ) (capacity : ℕ)
    → (is_empty (queue_reasons depth capacity) ≡ true) ↔ HasRoom depth capacity
unfolding queue_reasons
queue_reasons-empty none capacity = ground arith
queue_reasons-empty (some depth) capacity = ground arith

sync_reasons-empty :
    (now stale_after : ℕ) (last : Option ℕ)
    → (is_empty (sync_reasons now stale_after last) ≡ true) ↔ IsSynced now stale_after last
unfolding sync_reasons
sync_reasons-empty now stale_after none = ground arith
sync_reasons-empty now stale_after (some last) = ground arith

error_reasons-empty :
    (now stale_after : ℕ) (e : String) (last : Option ℕ)
    → (is_empty (error_reasons now stale_after e last) ≡ true) ↔ IsForgotten now stale_after e last
unfolding error_reasons is_recent
error_reasons-empty now stale_after e none = ground (arith, same_iff e "")
error_reasons-empty now stale_after e (some last) = ground (arith, same_iff e "")

cert_reasons-empty :
    (now : ℕ) (expiry : Option ℕ)
    → (is_empty (cert_reasons now expiry) ≡ true) ↔ LastsAnHour now expiry
unfolding cert_reasons
cert_reasons-empty now none = ground arith
cert_reasons-empty now (some expiry) = ground arith

is_empty-append : {A : Type 0} (xs ys : List A) → is_empty (xs ++ ys) ≡ (is_empty xs && is_empty ys)
is_empty-append [] ys = refl
is_empty-append (x ∷ xs) ys = refl

-- The agent is ready just when the queue has room, a monitor sync succeeded within `stale_after`, no
-- sync failed since that is still recent, and the certificate lasts another hour.
pub ready_iff :
    (now : ℕ) (depth : Option ℕ) (c : Checker)
    → ((ready now depth c).0 ≡ true) ↔ (
        HasRoom depth c.queue_capacity
        × IsSynced now c.stale_after c.last_monitor_success
        × IsForgotten now c.stale_after c.monitor_err c.last_monitor_error
        × LastsAnHour now c.cert_expiry)
unfolding ready reasons_at
ready_iff now depth c =
    let a = queue_reasons depth c.queue_capacity in
    let b = sync_reasons now c.stale_after c.last_monitor_success in
    let d = error_reasons now c.stale_after c.monitor_err c.last_monitor_error in
    let e = cert_reasons now c.cert_expiry in
    ground (
      arith,
      is_empty-append a (b ++ (d ++ e)),
      is_empty-append b (d ++ e),
      is_empty-append d e,
      queue_reasons-empty depth c.queue_capacity,
      sync_reasons-empty now c.stale_after c.last_monitor_success,
      error_reasons-empty now c.stale_after c.monitor_err c.last_monitor_error,
      cert_reasons-empty now c.cert_expiry,
    )

-- No success is later than `at`.
abbrev pub IsNotAfter : ℕ → Option ℕ → Type 0
IsNotAfter at none = Unit
IsNotAfter at (some last) = last ≤ at

forgotten_is_stale :
    (now at stale_after : ℕ) (e : String) (last : Option ℕ)
    → e ≢ ""
    → IsNotAfter at last
    → IsForgotten now stale_after e (some at)
    → ¬ (IsSynced now stale_after last)
forgotten_is_stale now at stale_after e none given before forgotten synced = synced
forgotten_is_stale now at stale_after e (some last) given before (inl blank) synced = given blank
forgotten_is_stale now at stale_after e (some last) given before (inr (pos, old)) (inl off) =
    omega (arith, pos, off)
forgotten_is_stale now at stale_after e (some last) given before (inr (pos, old)) (inr fresh) =
    omega (arith, old, fresh, before)

-- Once a sync has failed, the agent is not ready again before a sync succeeds: at first the error
-- stands against it, and by the time that is forgotten the last success is stale. The error has a
-- text, and no success is later than it.
pub failed_sync_blocks :
    (now at : ℕ) (e : String) (depth : Option ℕ) (c : Checker)
    → e ≢ ""
    → IsNotAfter at c.last_monitor_success
    → (ready now depth (observe_monitor_sync at (some e) c)).0 ≡ false
unfolding observe_monitor_sync
failed_sync_blocks now at e depth c given before =
    let c' = observe_monitor_sync at (some e) c in
    elim (Bool-cases (ready now depth c').0) [
      | inr blocked ↦ blocked
      | inl is_ready ↦
          let (_, synced, forgotten, _) = (ready_iff now depth c').0 is_ready in
          absurd (
            forgotten_is_stale now at c.stale_after e c.last_monitor_success given before forgotten
              synced)
    ]
