-- ===== src/Scheduler/Updates.antt =====
-- What Update does to the map of monitors and to their times.
use Prim.Native.String.{String}
use ping_santo.Prelude.{
  ℕ, ◌+◌, ◌≤◌, ◌<◌, ◌≡◌, inl, inr, refl, ap, ◌∙◌, Bool, false, Bool-cases, arith, if◌then◌else◌,
  List, [], ◌∷◌, Option, none, some, All,
}
use ping_santo.Prelude.Texts.{same}
use ping_santo.Prelude.Maps.{find, insert, find-insert}
use ping_santo.Scheduler.{MonitorSpec, Entry, Scheduler, interval_of, add_specs, update, tick}
use ping_santo.Scheduler.Ticks.{NoneDue, tick-NoneDue}

-- The last of the specs with that id, if there is one.
unfoldable pub newest : ℕ → String → List MonitorSpec → Option Entry → Option Entry
newest now id [] o = o
newest now id (spec ∷ specs) o = newest now id specs (
    if same spec.monitor_id id
    then some (record { spec = spec; next = now + interval_of spec; paused = false })
    else o)

find-add_specs :
    (now : ℕ) (id : String) (specs : List MonitorSpec) (es : List (String × Entry))
    → find id (add_specs now specs es) ≡ newest now id specs (find id es)
unfolding add_specs newest
find-add_specs now id [] es = refl
find-add_specs now id (spec ∷ specs) es =
    let e : Entry = record { spec = spec; next = now + interval_of spec; paused = false } in
    find-add_specs now id specs (insert spec.monitor_id e es)
    ∙ ap (newest now id specs) (find-insert id spec.monitor_id e es)

-- After Update the scheduler has the monitors that it was given and no others; of specs with one id
-- the last counts. Each is due one interval from now, whenever it was due before. No job is sent.
pub update-find :
    (now : ℕ) (id : String) (specs : List MonitorSpec) (s : Scheduler)
    → (find id (update now specs s).entries ≡ newest now id specs none)
      × ((update now specs s).sent ≡ s.sent)
unfolding update find
update-find now id specs s = (find-add_specs now id specs [], refl)

insert-NoneDue :
    (t : ℕ) (id : String) (e : Entry) (es : List (String × Entry))
    → t < e.next
    → NoneDue t es
    → NoneDue t (insert id e es)
unfolding insert
insert-NoneDue t id e [] h hs = (inr h, tt)
insert-NoneDue t id e ((j, f) ∷ es) h (g, gs) = elim (Bool-cases (same j id)) [
  | inl here ↦ rw here (inr h, gs)
  | inr elsewhere ↦ rw elsewhere (g, insert-NoneDue t id e es h gs)
]

add_specs-NoneDue :
    (t now d : ℕ) (specs : List MonitorSpec) (es : List (String × Entry))
    → t < now + d
    → All (λ spec. d ≤ interval_of spec) specs
    → NoneDue t es
    → NoneDue t (add_specs now specs es)
unfolding add_specs
add_specs-NoneDue t now d [] es early slow h = h
add_specs-NoneDue t now d (spec ∷ specs) es early (le, slow) h =
    add_specs-NoneDue t now d specs _ early slow (
      insert-NoneDue t spec.monitor_id
        (record { spec = spec; next = now + interval_of spec; paused = false }) es
        (omega (arith, early, le)) h)

-- What happens to a scheduler.
pub data Call : Type 0 where
  updates : ℕ → List MonitorSpec → Call
  ticks : ℕ → (String → Bool) → Call

unfoldable pub after : List Call → Scheduler → Scheduler
after [] s = s
after (updates now specs ∷ calls) s = after calls (update now specs s)
after (ticks now takes ∷ calls) s = after calls (tick now takes s)

-- Every interval is at least `d`, and no tick comes as late as `d` after the last update, at `u`.
abbrev pub IsRestless : ℕ → ℕ → List Call → Type 0
IsRestless d u [] = Unit
IsRestless d u (updates now specs ∷ calls) =
    All (λ spec. d ≤ interval_of spec) specs × IsRestless d now calls
IsRestless d u (ticks now takes ∷ calls) = (now < u + d) × IsRestless d u calls

abbrev Quiet : ℕ → ℕ → Scheduler → Type 0
Quiet d u s = (t : ℕ) → t < u + d → NoneDue t s.entries

after_restless :
    (d u : ℕ) (calls : List Call) (s : Scheduler)
    → Quiet d u s
    → IsRestless d u calls
    → (after calls s).sent ≡ s.sent
unfolding after update
after_restless d u [] s quiet h = refl
after_restless d u (updates now specs ∷ calls) s quiet (slow, h) =
    after_restless d now calls (update now specs s)
      (λ t early. add_specs-NoneDue t now d specs [] early slow tt) h
after_restless d u (ticks now takes ∷ calls) s quiet (early, h) =
    ap (λ t. (after calls t).sent) (tick-NoneDue now takes s (quiet now early))
    ∙ after_restless d u calls s quiet h

-- Updates that come more often than every interval starve every monitor: from an update on, as long
-- as no tick comes a whole interval after the last update, no job is sent.
pub updates_starve :
    (d u : ℕ) (specs : List MonitorSpec) (calls : List Call) (s : Scheduler)
    → All (λ spec. d ≤ interval_of spec) specs
    → IsRestless d u calls
    → (after calls (update u specs s)).sent ≡ s.sent
unfolding update
updates_starve d u specs calls s slow h =
    after_restless d u calls (update u specs s)
      (λ t early. add_specs-NoneDue t u d specs [] early slow tt) h
