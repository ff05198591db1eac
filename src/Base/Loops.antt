-- ===== src/Base/Loops.antt =====
-- The counting loops of the kernel, `for (c = i; c < i + n; c++)`, and how a statement about the
-- counter and the state is carried through all of their rounds.
use Prim.Native.Nat.{ℕ, zero, suc, ◌+◌}
use mathlib.Core.Path.{◌≡◌, subst}
use native.Mathlib.Omega.{arith}

unfoldable pub for_range {ℓ} : {S : Type ℓ} → ℕ → ℕ → (ℕ → S → S) → S → S
for_range zero _ _ s = s
for_range (suc rounds) c round s = for_range rounds (c + 1) round (round c s)

module _ {ℓ κ} {S : Type ℓ} (Holds : ℕ → S → Type κ) (round : ℕ → S → S)
    (step : (c : ℕ) (s : S) → Holds c s → Holds (c + 1) (round c s)) where
  -- What holds at the first value of the counter, and is kept by a round, holds at the last.
  pub for_range_inv :
      (rounds c last : ℕ) (s : S)
      → c + rounds ≡ last
      → Holds c s
      → Holds last (for_range rounds c round s)
  unfolding for_range
  for_range_inv zero c last s sum start = subst (λ x. Holds x s) (omega arith) start
  for_range_inv (suc rounds) c last s sum start =
      for_range_inv rounds (c + 1) last (round c s) (omega arith) (step c s start)
