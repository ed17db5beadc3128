-- ===== src/Prelude/Maps.antt =====
-- Maps from texts, as lists of pairs.
use Prim.Native.String.{String}
use mathlib.Core.Path.{◌≡◌, refl, ◌∙◌}
use mathlib.Core.Logic.{inl, inr}
use mathlib.Core.Bool.{false}
use mathlib.Core.Option.{Option, none, some}
use mathlib.Core.List.{List, [], ◌∷◌}
use native.Mathlib.Omega.{arith}
use ping_santo.Prelude.Tests.{if◌then◌else◌, Bool-cases}
use ping_santo.Prelude.Lists.{All}
use ping_santo.Prelude.Texts.{same, same_iff}

module _ {V : Type 0} where
  -- `m[id]`
  unfoldable pub find : String → List (String × V) → Option V
  find id [] = none
  find id ((j, v) ∷ m) = if same j id then some v else find id m

  -- `m[id] = v`
  unfoldable pub insert : String → V → List (String × V) → List (String × V)
  insert id v [] = (id, v) ∷ []
  insert id v ((j, w) ∷ m) =
      let rest = insert id v m in if same j id then (id, v) ∷ m else (j, w) ∷ rest

  -- `delete(m, id)`
  unfoldable pub remove : String → List (String × V) → List (String × V)
  remove id [] = []
  remove id ((j, w) ∷ m) = let rest = remove id m in if same j id then rest else (j, w) ∷ rest

  pub find-insert :
      (k id : String) (v : V) (m : List (String × V))
      → find k (insert id v m) ≡ (if same id k then some v else find k m)
  unfolding find insert
  find-insert k id v [] = refl
  find-insert k id v ((j, w) ∷ m) =
      ground (arith, find-insert k id v m, same_iff j id, same_iff j k, same_iff id k)

  pub find-remove :
      (k id : String) (m : List (String × V))
      → find k (remove id m) ≡ (if same id k then none else find k m)
  unfolding find remove
  find-remove k id [] = ground arith
  find-remove k id ((j, w) ∷ m) =
      ground (arith, find-remove k id m, same_iff j id, same_iff j k, same_iff id k)

  -- No key stands in the list twice.
  abbrev pub Distinct : List (String × V) → Type 0
  Distinct [] = Unit
  Distinct ((j, w) ∷ m) = (find j m ≡ none) × Distinct m

  pub insert-Distinct :
      (id : String) (v : V) (m : List (String × V)) → Distinct m → Distinct (insert id v m)
  unfolding insert
  insert-Distinct id v [] d = (unfold find in refl, tt)
  insert-Distinct id v ((j, w) ∷ m) (fresh, d) = elim (Bool-cases (same j id)) [
    | inl here ↦
        let e : j ≡ id = (same_iff j id).0 here in
        let gone : find id m ≡ none = rw (← e) fresh in rw here (gone, d)
    | inr elsewhere ↦
        let apart : same id j ≡ false = ground (arith, same_iff id j, same_iff j id) in
        let gone : find j (insert id v m) ≡ none = find-insert j id v m ∙ rw apart fresh in
        rw elsewhere (gone, insert-Distinct id v m d)
  ]

  pub remove-Distinct : (id : String) (m : List (String × V)) → Distinct m → Distinct (remove id m)
  unfolding remove
  remove-Distinct id [] d = tt
  remove-Distinct id ((j, w) ∷ m) (fresh, d) = elim (Bool-cases (same j id)) [
    | inl here ↦ rw here (remove-Distinct id m d)
    | inr elsewhere ↦
        let apart : same id j ≡ false = ground (arith, same_iff id j, same_iff j id) in
        let gone : find j (remove id m) ≡ none = find-remove j id m ∙ rw apart fresh in
        rw elsewhere (gone, remove-Distinct id m d)
  ]

  -- What holds of every pair stays so.
  pub insert-All :
      (P : String × V → Type 0) (id : String) (v : V) (m : List (String × V))
      → P (id, v)
      → All P m
      → All P (insert id v m)
  unfolding insert
  insert-All P id v [] new hs = (new, tt)
  insert-All P id v ((j, w) ∷ m) new (h, hs) = elim (Bool-cases (same j id)) [
    | inl here ↦ rw here (new, hs)
    | inr elsewhere ↦ rw elsewhere (h, insert-All P id v m new hs)
  ]

  pub remove-All :
      (P : String × V → Type 0) (id : String) (m : List (String × V))
      → All P m
      → All P (remove id m)
  unfolding remove
  remove-All P id [] hs = tt
  remove-All P id ((j, w) ∷ m) (h, hs) = elim (Bool-cases (same j id)) [
    | inl here ↦ rw here (remove-All P id m hs)
    | inr elsewhere ↦ rw elsewhere (h, remove-All P id m hs)
  ]
