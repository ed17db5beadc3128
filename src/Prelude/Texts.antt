-- ===== src/Prelude/Texts.antt =====
-- The test on texts, by a name of its own beside `==` on numbers.
use Prim.Native.Nat.{ℕ}
use Prim.Native.Char.{code}
use Prim.Native.String.{String, ◌++◌}
use mathlib.Core.Path.{◌≡◌, refl, sym, ◌∙◌}
use mathlib.Core.Logic.{◌↔◌, inl, inr}
use mathlib.Core.Bool.{Bool, true, ◌&&◌, ◌||◌}
use mathlib.Core.Option.{Option, none, some}
use mathlib.Core.List.{List, [], ◌∷◌}
use text.Mathlib.Text
use text.Mathlib.TextEquality.{eq_iff, Char-path}
use text.Mathlib.TextLemmas.{nil-append, cons-append}
use text.Mathlib.TextPositions.{eq_refl}
use ping_santo.Prelude.Tests.{◌==◌, if◌then◌else◌, ==_iff, Bool-cases}

abbrev pub same : String → String → Bool
same s t = Text.◌==◌ s t

pub same_iff : (s t : String) → (same s t ≡ true) ↔ (s ≡ t)
same_iff = eq_iff

pub same_refl : (s : String) → same s s ≡ true
same_refl = eq_refl

abbrev pub join : String → String → String
join s t = s ++ t

-- `strings.TrimPrefix` behind `strings.HasPrefix`
unfoldable pub after_prefix : String → String → Option String
after_prefix String.[] s = some s
after_prefix (String.◌∷◌ c p) String.[] = none
after_prefix (String.◌∷◌ c p) (String.◌∷◌ d s) =
    let rest = after_prefix p s in if code c == code d then rest else none

-- `strings.HasSuffix`, with the suffix first
unfoldable pub has_suffix : String → String → Bool
has_suffix t String.[] = same String.[] t
has_suffix t (String.◌∷◌ c s) = same (String.◌∷◌ c s) t || has_suffix t s

-- `strings.TrimSuffix`, with the suffix first
unfoldable pub trim_suffix : String → String → String
trim_suffix t String.[] = String.[]
trim_suffix t (String.◌∷◌ c s) =
    let rest = trim_suffix t s in if same (String.◌∷◌ c s) t then String.[] else String.◌∷◌ c rest

-- `strings.TrimRight`, by a test on the codes of the characters of the cutset
unfoldable pub trim_right : (ℕ → Bool) → String → String
trim_right cut String.[] = String.[]
trim_right cut (String.◌∷◌ c s) =
    let rest = trim_right cut s in
    if cut (code c) && same rest String.[] then String.[] else String.◌∷◌ c rest

-- `strings.TrimLeft`
unfoldable pub trim_left : (ℕ → Bool) → String → String
trim_left cut String.[] = String.[]
trim_left cut (String.◌∷◌ c s) =
    let rest = trim_left cut s in if cut (code c) then rest else String.◌∷◌ c s

-- The codes of the characters of a text: its bytes, if it is ASCII.
abbrev pub codes : String → List ℕ
codes String.[] = []
codes (String.◌∷◌ c s) = code c ∷ codes s

-- What follows a prefix
pub after_prefix-join : (p s x : String) → after_prefix p s ≡ some x → s ≡ join p x
unfolding after_prefix
after_prefix-join String.[] s x e = let f : s ≡ x = cc in f ∙ sym (nil-append x)
after_prefix-join (String.◌∷◌ c p) String.[] x e = absurd cc
after_prefix-join (String.◌∷◌ c p) (String.◌∷◌ d s) x e = elim (Bool-cases (code c == code d)) [
  | inr differ ↦ let clash : ◌≡◌ {A = Option String} none (some x) = rw differ at e in absurd cc
  | inl matching ↦
      let rest : after_prefix p s ≡ some x = rw matching at e in
      let head : d ≡ c = Char-path d c (sym ((==_iff (code c) (code d)).0 matching)) in
      rw (head, after_prefix-join p s x rest) (sym (cons-append c p x))
]

pub join-after_prefix : (p x : String) → after_prefix p (join p x) ≡ some x
unfolding after_prefix
join-after_prefix String.[] x = rw (nil-append x) refl
join-after_prefix (String.◌∷◌ c p) x =
    rw (cons-append c p x, (==_iff (code c) (code c)).1 refl) (join-after_prefix p x)
