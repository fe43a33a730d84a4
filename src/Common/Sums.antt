-- ===== src/Common/Sums.antt =====
-- Sums of integers over the values of a dictionary with integer keys.
use mathlib.Core.Path.{◌≡◌}
use mathlib.Core.Logic.{inl, inr}
use mathlib.Core.Option.{some, some-injective}
use mathlib.Core.List.{[], ◌∷◌}
use ll2games_rpg_server.Common.Tests.{Bool-cases}
use ll2games_rpg_server.Common.Keys.{Dict, lookup, insert, ℤ_eq}
use ll2games_rpg_server.Common.Int.{ℤ, pos, ◌+ℤ◌, eqb_ℤ, int_laws, parts}

module _ {V : Type 0} (f : V → ℤ) where
  abbrev pub sum_over : Dict ℤ V → ℤ
  sum_over [] = pos 0
  sum_over ((k, v) ∷ d) = f v +ℤ sum_over d

  -- A write changes the sum by the difference of the values.
  pub sum_over-insert :
      (k : ℤ) (old new : V) (d : Dict ℤ V)
      → lookup k d ≡ some old
      → sum_over (insert k new d) +ℤ f old ≡ sum_over d +ℤ f new
  sum_over-insert k old new [] e = cc
  sum_over-insert k old new ((j, v) ∷ d) e = elim (Bool-cases (eqb_ℤ k j)) [
    | inl hit ↦
        let same : v ≡ old = some-injective _ _ (rw hit at e) in rw (hit, same) (omega int_laws)
    | inr miss ↦
        let ih = sum_over-insert k old new d (rw miss at e) in rw miss (omega (int_laws, parts ih))
  ]
