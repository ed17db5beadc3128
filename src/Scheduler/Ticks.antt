-- ===== src/Scheduler/Ticks.antt =====
-- What a tick does to each monitor, and that it does so once.
use Prim.Native.String.{String}
use ping_santo.Prelude.{
  ℕ, ◌≤◌, ◌<◌, ◌≡◌, ◌⊎◌, inl, inr, refl, ap, ◌∙◌, Bool, true, false, Bool-cases, arith,
  if◌then◌else◌, List, [], ◌∷◌, ◌++◌, append-nil,
}
use ping_santo.Scheduler.{
  MonitorSpec, Job, Entry, Scheduler, interval_of, fuel_of, job_of, is_due, tick_entry,
  tick_entries, tick,
}
use ping_santo.Scheduler.Grid.{IsNext, skip-IsNext}

interval_of-pos : (spec : MonitorSpec) → 0 < interval_of spec
interval_of-pos spec = ground arith

-- A monitor that is due gets a job for the time that it was due at, if the channel has room, and its
-- next time is the first one of its grid after now. Any other monitor stays as it is.
pub data Ticked (now : ℕ) (takes : Bool) (e : Entry) (jobs : List Job) (e' : Entry) : Type 0 where
  due :
      e.paused ≡ false
      → e.next ≤ now
      → jobs ≡ (if takes then job_of e ∷ [] else [])
      → IsNext now (interval_of e.spec) e.next e'.next
      → e'.spec ≡ e.spec
      → e'.paused ≡ false
      → Ticked now takes e jobs e'
  waits : (e.paused ≡ true) ⊎ (now < e.next) → jobs ≡ [] → e' ≡ e → Ticked now takes e jobs e'

is_due_holds : (now : ℕ) (e : Entry) → is_due now e ≡ true → (e.paused ≡ false) × (e.next ≤ now)
unfolding is_due
is_due_holds now e h = ground arith

is_due_fails : (now : ℕ) (e : Entry) → is_due now e ≡ false → (e.paused ≡ true) ⊎ (now < e.next)
unfolding is_due
is_due_fails now e h = ground arith

not_due : (now : ℕ) (e : Entry) → (e.paused ≡ true) ⊎ (now < e.next) → is_due now e ≡ false
unfolding is_due
not_due now e h = ground arith

tick_entry-Ticked :
    (now : ℕ) (takes : Bool) (e : Entry)
    → Ticked now takes e (tick_entry now takes e).0 (tick_entry now takes e).1
unfolding tick_entry
tick_entry-Ticked now takes e = elim (Bool-cases (is_due now e)) [
  | inr not_yet ↦ rw not_yet (waits (is_due_fails now e not_yet) refl refl)
  | inl at_last ↦
      let (active, late) = is_due_holds now e at_last in
      let next =
        skip-IsNext (fuel_of now e.next) now (interval_of e.spec) e.next (interval_of-pos e.spec)
          (omega arith) in
      rw at_last (due active late refl next refl active)
]

-- Every monitor of the scheduler, in the order of the list, and the jobs that it gets.
pub data AllTicked (now : ℕ) (takes : String → Bool)
    : List (String × Entry) → List Job → List (String × Entry) → Type 0 where
  none_left : AllTicked now takes [] [] []
  ticked :
      {id : String} {e e' : Entry} {es es' : List (String × Entry)} {jobs more : List Job}
      → Ticked now (takes id) e jobs e'
      → AllTicked now takes es more es'
      → AllTicked now takes ((id, e) ∷ es) (jobs ++ more) ((id, e') ∷ es')

tick_entries-AllTicked :
    (now : ℕ) (takes : String → Bool) (es : List (String × Entry))
    → AllTicked now takes es (tick_entries now takes es).0 (tick_entries now takes es).1
unfolding tick_entries
tick_entries-AllTicked now takes [] = none_left
tick_entries-AllTicked now takes ((id, e) ∷ es) =
    ticked (tick_entry-Ticked now (takes id) e) (tick_entries-AllTicked now takes es)

pub tick-AllTicked :
    (now : ℕ) (takes : String → Bool) (s : Scheduler)
    → (jobs : List Job) × ((tick now takes s).sent ≡ s.sent ++ jobs)
      × AllTicked now takes s.entries jobs (tick now takes s).entries
unfolding tick
tick-AllTicked now takes s =
    ((tick_entries now takes s.entries).0, refl, tick_entries-AllTicked now takes s.entries)

-- What is not due is left alone.
abbrev pub NoneDue : ℕ → List (String × Entry) → Type 0
NoneDue now [] = Unit
NoneDue now ((id, e) ∷ es) = ((e.paused ≡ true) ⊎ (now < e.next)) × NoneDue now es

tick_entries-NoneDue :
    (now : ℕ) (takes : String → Bool) (es : List (String × Entry))
    → NoneDue now es
    → tick_entries now takes es ≡ ([], es)
unfolding tick_entries tick_entry
tick_entries-NoneDue now takes [] h = refl
tick_entries-NoneDue now takes ((id, e) ∷ es) (h, hs) =
    rw (not_due now e h, tick_entries-NoneDue now takes es hs) refl

pub tick-NoneDue :
    (now : ℕ) (takes : String → Bool) (s : Scheduler) → NoneDue now s.entries → tick now takes s ≡ s
unfolding tick
tick-NoneDue now takes s h =
    rw (tick_entries-NoneDue now takes s.entries h)
      (ap (λ l. record s { sent = l }) (append-nil s.sent))

Ticked-not_due :
    (now earlier : ℕ) (takes : Bool) (e e' : Entry) (jobs : List Job)
    → earlier ≤ now
    → Ticked now takes e jobs e'
    → (e'.paused ≡ true) ⊎ (earlier < e'.next)
Ticked-not_due now earlier takes e e' jobs le (due _ _ _ next _ _) =
    inr (omega (arith, next.later, le))
Ticked-not_due now earlier takes e e' jobs le (waits (inl paused) _ stays) =
    inl (ap (λ x. x.paused) stays ∙ paused)
Ticked-not_due now earlier takes e e' jobs le (waits (inr early) _ stays) =
    inr (omega (arith, early, le, ap (λ x. x.next) stays))

AllTicked-NoneDue :
    (now earlier : ℕ) (takes : String → Bool) (es es' : List (String × Entry)) (jobs : List Job)
    → earlier ≤ now
    → AllTicked now takes es jobs es'
    → NoneDue earlier es'
AllTicked-NoneDue now earlier takes es es' jobs le none_left = tt
AllTicked-NoneDue now earlier takes es es' jobs le (ticked t ts) =
    (Ticked-not_due now earlier _ _ _ _ le t, AllTicked-NoneDue now earlier takes _ _ _ le ts)

-- A time is served once: a second tick at that time, or at an earlier one, changes nothing and sends
-- nothing, also for the monitors whose jobs the channel had no room for.
pub tick_once :
    (now earlier : ℕ) (takes takes' : String → Bool) (s : Scheduler)
    → earlier ≤ now
    → tick earlier takes' (tick now takes s) ≡ tick now takes s
tick_once now earlier takes takes' s le =
    let (jobs, _, all) = tick-AllTicked now takes s in
    tick-NoneDue earlier takes' (tick now takes s)
      (AllTicked-NoneDue now earlier takes s.entries _ jobs le all)
