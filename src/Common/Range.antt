-- ===== src/Common/Range.antt =====
-- A test that is run on every number below a bound.
use Prim.Native.Nat.{ℕ, zero, suc, ◌<◌}
use mathlib.Core.Path.{◌≡◌, refl, sym, ap, ◌∙◌}
use mathlib.Core.Logic.{inl, inr}
use mathlib.Core.Bool.{Bool, true, false, false≢true}
use native.Mathlib.Omega.{arith}
use magic_lantern.Common.Tests.{◌==◌, if◌then◌else◌, Bool-cases}

-- No number under `bound` fails the test.
unfoldable pub passes : (ℕ → Bool) → ℕ → Bool
passes test zero = true
passes test (suc bound) = if test bound then passes test bound else false

pub passes_each :
    (test : ℕ → Bool) (bound : ℕ) → passes test bound ≡ true → (k : ℕ) → k < bound → test k ≡ true
unfolding passes
passes_each test zero table k under = absurd (omega (arith, under))
passes_each test (suc bound) table k under =
    let earlier = passes_each test bound in
    elim (Bool-cases (test bound)) [
      | inl e ↦ elim (Bool-cases (k == bound)) [
        | inl same ↦ let at : k ≡ bound = ground (arith, same) in ap test at ∙ e
        | inr other ↦ earlier (sym (rw e refl) ∙ table) k (ground (arith, under, other))
      ]
      | inr e ↦ absurd (false≢true (sym (rw e refl) ∙ table))
    ]
