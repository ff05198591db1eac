-- ===== src/Process/Requests.antt =====
-- Operations that a process performs on its way, whatever the rest of the system does.
use progetto_sistemi_operati.Base.{ℕ, ◌⊎◌, inr}
use progetto_sistemi_operati.Process.{Tree, ret, perform, leave, fault, out_of_fuel, and_then}

module _ {O U : Type 0} (P : O → U → Type 0) where
  -- Wherever the run returns, it has performed an operation with the property before.
  unfoldable pub Asks : {A : Type 0} → Tree O U A → Type 0
  Asks (ret a u) = ⊥
  Asks (perform o u next) = P o u ⊎ ((r : ℕ) (v : U) → Asks (next r v))
  Asks (leave e u) = Unit {0}
  Asks fault = Unit {0}
  Asks out_of_fuel = Unit {0}

  -- If a program always asks, so does one that runs another before it.
  pub Asks-and_then :
      {A B : Type 0} (t : Tree O U A) (k : A → U → Tree O U B)
      → ((a : A) (u : U) → Asks (k a u))
      → Asks (and_then t k)
  unfolding Asks
  Asks-and_then (ret a u) k f = f a u
  Asks-and_then (perform o u next) k f = inr (λ r v. Asks-and_then (next r v) k f)
  Asks-and_then (leave e u) k f = tt
  Asks-and_then fault k f = tt
  Asks-and_then out_of_fuel k f = tt
