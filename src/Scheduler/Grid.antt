-- ===== src/Scheduler/Grid.antt =====
-- The loop that moves a monitor's next time.
use ping_santo.Prelude.{
  ℕ, zero, suc, ◌+◌, ◌*◌, ◌≤◌, ◌<◌, ◌≡◌, ◌⊎◌, inl, inr, refl, ap, Bool-cases, arith, ltb, ltb→lt,
  not_ltb→le,
}
use native.Mathlib.Nat.{suc-mul}
use ping_santo.Scheduler.{skip}

-- The next time is a whole number of intervals on, and the first one after now, if the old one was due.
pub record IsNext (now interval old next : ℕ) : Type 0 where
  pub steps : ℕ
  pub on_grid : next ≡ old + steps * interval
  pub later : now < next
  pub first : (steps ≡ 0) ⊎ (next ≤ now + interval)

suc_times : (k n : ℕ) → suc k * n ≡ n + k * n
suc_times k n = omega (arith, suc-mul k n)

first_step :
    (now interval next next' : ℕ)
    → next ≤ now
    → IsNext now interval (next + interval) next'
    → next' ≤ now + interval
first_step now interval next next' due v = elim v.first [
  | inr le ↦ le
  | inl none ↦ let none_on = ap (λ k. k * interval) none in omega (arith, v.on_grid, none_on, due)
]

pub skip-IsNext :
    (fuel now interval next : ℕ)
    → 0 < interval
    → now < next + fuel
    → IsNext now interval next (skip fuel now interval next)
unfolding skip
skip-IsNext zero now interval next pos enough = record {
  steps = 0;
  on_grid = omega arith;
  later = omega (arith, enough);
  first = inl refl;
}
skip-IsNext (suc fuel) now interval next pos enough = elim (Bool-cases (ltb now next)) [
  | inl early ↦
      rw early (record {
        steps = 0;
        on_grid = omega arith;
        later = ltb→lt now next early;
        first = inl refl;
      })
  | inr due ↦
      let v = skip-IsNext fuel now interval (next + interval) pos (omega (arith, pos, enough)) in
      rw due (record {
        steps = suc v.steps;
        on_grid = omega (arith, v.on_grid, suc_times v.steps interval);
        later = v.later;
        first = inr (first_step now interval next _ (not_ltb→le now next due) v);
      })
]
