-- ===== src/Process.antt =====
-- Programs that run as processes, above the nucleus. Such a program acts on the memory `U` and, at
-- an operation `O`, hands the machine over: to the nucleus, to the device, to the other processes.
-- It goes on with an answer and with the memory as it then is.
pub mod Protocol
pub mod Requests
use progetto_sistemi_operati.Base.{ℕ}
use progetto_sistemi_operati.Store.{Exit}

-- A run as the tree of all that the rest of the system may do. `leave` is the end by `LDST` or
-- `PANIC`, `fault` an access through a null pointer or out of an array.
pub data Tree (O U A : Type 0) : Type 0 where
  ret : A → U → Tree O U A
  perform : O → U → (ℕ → U → Tree O U A) → Tree O U A
  leave : Exit → U → Tree O U A
  fault : Tree O U A
  out_of_fuel : Tree O U A

abbrev pub Proc : Type 0 → Type 0 → Type 0 → Type 0
Proc O U A = U → Tree O U A

abbrev pub and_then : {O U A B : Type 0} → Tree O U A → (A → U → Tree O U B) → Tree O U B
and_then (ret a u) k = k a u
and_then (perform o u next) k = perform o u (λ r v. and_then (next r v) k)
and_then (leave e u) k = leave e u
and_then fault k = fault
and_then out_of_fuel k = out_of_fuel

infixl 5 ◌>>=◌ ◌>>◌
abbrev pub ◌>>=◌ : {O U A B : Type 0} → Proc O U A → (A → Proc O U B) → Proc O U B
◌>>=◌ m k u = and_then (m u) k

abbrev pub ◌>>◌ : {O U B : Type 0} → Proc O U (Unit {0}) → Proc O U B → Proc O U B
m >> k = m >>= λ _. k

abbrev pub pure : {O U A : Type 0} → A → Proc O U A
pure a u = ret a u

abbrev pub gets : {O U A : Type 0} → (U → A) → Proc O U A
gets f u = ret (f u) u

abbrev pub modify : {O U : Type 0} → (U → U) → Proc O U (Unit {0})
modify f u = ret tt (f u)

-- An operation, and one whose answer is not used.
abbrev pub ask : {O U : Type 0} → O → Proc O U ℕ
ask o u = perform o u (λ r v. ret r v)

abbrev pub call : {O U : Type 0} → O → Proc O U (Unit {0})
call o u = perform o u (λ r v. ret tt v)

abbrev pub exit : {O U A : Type 0} → Exit → Proc O U A
exit e u = leave e u
