-- ===== src/Common/Texts.antt =====
-- JavaScript strings as lists of UTF-16 code units, with their equality and a map keyed by them.
use Prim.Native.Char.{code}
use Prim.Native.Nat.{ℕ}
use Prim.Native.String.{String}
use mathlib.Core.Path.{◌≡◌, refl, sym, subst}
use mathlib.Core.Logic.{◌↔◌, inl, inr}
use mathlib.Core.Bool.{Bool, true, false, ◌&&◌}
use mathlib.Core.Option.{Option, some}
use mathlib.Core.List.{List, [], ◌∷◌}
use native.Mathlib.Omega.{arith}
use goatrouter.Common.Tests.{◌==◌, Bool-cases, if◌then◌else◌}

abbrev pub Text : Type 0
Text = List ℕ

-- The code units of a literal; the literals of the source are ASCII.
abbrev pub codes : String → Text
codes String.[] = []
codes (String.◌∷◌ c s) = code c ∷ codes s

-- `===` on strings.
unfoldable pub text_eq : Text → Text → Bool
text_eq [] [] = true
text_eq [] (b ∷ t) = false
text_eq (a ∷ s) [] = false
text_eq (a ∷ s) (b ∷ t) = a == b && text_eq s t

text_eq→eq : (s t : Text) → text_eq s t ≡ true → s ≡ t
unfolding text_eq
text_eq→eq [] [] h = refl
text_eq→eq [] (b ∷ t) h = ground arith
text_eq→eq (a ∷ s) [] h = ground arith
text_eq→eq (a ∷ s) (b ∷ t) h = ground (arith, text_eq→eq s t)

pub text_eq_refl : (s : Text) → text_eq s s ≡ true
unfolding text_eq
text_eq_refl [] = refl
text_eq_refl (a ∷ s) = ground (arith, text_eq_refl s)

eq→text_eq : (s t : Text) → s ≡ t → text_eq s t ≡ true
eq→text_eq s t e = subst (λ u. text_eq s u ≡ true) e (text_eq_refl s)

pub text_eq_iff : (s t : Text) → (text_eq s t ≡ true) ↔ (s ≡ t)
text_eq_iff s t = (text_eq→eq s t, eq→text_eq s t)

pub text_eq_sym : (s t : Text) → text_eq s t ≡ false → text_eq t s ≡ false
text_eq_sym s t h = elim (Bool-cases (text_eq t s)) [
  | inl same ↦ cc (h, (text_eq_iff s t).1 (sym ((text_eq_iff t s).0 same)))
  | inr other ↦ other
]

-- `Map<string, V>` as a function from keys.
module _ {ℓ} {V : Type ℓ} where
  -- `map.set(key, value)`.
  unfoldable pub update : (Text → Option V) → Text → V → Text → Option V
  update m k v j = if text_eq k j then some v else m j

  pub update_self : (m : Text → Option V) (k : Text) (v : V) → update m k v k ≡ some v
  unfolding update
  update_self m k v = ground (arith, text_eq_refl k)

  pub update_ne : (m : Text → Option V) (k j : Text) (v : V) → ¬ (k ≡ j) → update m k v j ≡ m j
  unfolding update
  update_ne m k j v h = ground (arith, text_eq_iff k j)
