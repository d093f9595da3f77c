-- ===== src/Base/Loop.antt =====
-- Loops `while (test) body` on fuel, and the rule for their end.
use Prim.Native.Nat.{ℕ, zero, suc, ◌<◌}
use mathlib.Core.Path.{◌≡◌}
use mathlib.Core.Bool.{Bool, true, false}
use mathlib.Core.Logic.{inl, inr}
use native.Mathlib.Omega.{arith}
use micro_os.Base.Decide.{Bool-cases}

module _ {ℓ} {S : Type ℓ} (test : S → Bool) (body : S → S) where
  unfoldable pub while : S → ℕ → S
  while s zero = s
  while s (suc fuel) = elim (test s) [ false ↦ s | true ↦ while (body s) fuel ]

  -- Each round keeps `P` and lowers `left`: with fuel above `left` the loop ends by its test, and `P` holds at the end.
  pub while-ends {κ} :
      (P : S → Type κ) (left : S → ℕ)
      → ((s : S) → test s ≡ true → P s → P (body s) × (left (body s) < left s))
      → (s : S) → P s
      → (fuel : ℕ) → left s < fuel
      → (test (while s fuel) ≡ false) × P (while s fuel)
  unfolding while
  while-ends P left advances s start zero enough = absurd (omega arith)
  while-ends P left advances s start (suc fuel) enough = elim (Bool-cases (test s)) [
    | inr ended ↦ rw (ended, while) (ended, start)
    | inl going ↦
        let (kept, fewer) = advances s going start in
        rw (going, while) (while-ends P left advances (body s) kept fuel (omega arith))
  ]
