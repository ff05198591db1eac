-- ===== src/Process/Protocol.antt =====
-- A semaphore that guards a part of the memory, and the processes that keep to it.
use progetto_sistemi_operati.Base.{ℕ, ◌≡◌, Bool, true, false}
use progetto_sistemi_operati.Store.{Exit}
use progetto_sistemi_operati.Process.{Tree, ret, perform, leave, fault, out_of_fuel, and_then}

-- What an operation does to the semaphore: it takes it, gives it back, ends the process, or none of
-- these. At one of the kind `alone` the process must not hold it.
pub data Effect : Type 0 where
  takes gives ends alone other : Effect

-- The process keeps to the semaphore on every path: it takes it only when it does not hold it, and
-- gives back only what it holds; while it does not hold it, it hands the guarded part over as it
-- found it (`l`); it neither ends nor leaves with the semaphore held, nor has it at an operation `alone`. In return, what is guarded does
-- not change at an operation while the process holds the semaphore. `Inv` holds of the guarded part
-- whenever the semaphore is taken, and must hold again when it is given back. `Answers` says what the
-- rest of the system may answer and do to the memory, `Leaves` what holds where the process leaves,
-- and `Q` where it returns. No path faults or lacks fuel.
module _ {O U P : Type 0} (effect : O → Effect) (guarded : U → P) (Inv : P → Type 0)
    (Answers : O → U → ℕ → U → Type 0) (Leaves : Exit → U → Type 0) where
  -- What a turn of the others may have done to the guarded part.
  abbrev pub Kept : Bool → U → U → Type 0
  Kept true u v = guarded v ≡ guarded u
  Kept false u v = Unit {0}

  abbrev pub Still : Bool → P → U → Type 0
  Still true l u = Unit {0}
  Still false l u = guarded u ≡ l

  abbrev pub Turn : Effect → Bool → P → U → (Bool → (U → Type 0) → Type 0) → Type 0
  Turn takes h l u rest = (h ≡ false) × (guarded u ≡ l) × rest true (λ v. Inv (guarded v))
  Turn gives h l u rest = (h ≡ true) × Inv (guarded u) × rest false (λ v. Unit {0})
  Turn ends h l u rest = (h ≡ false) × (guarded u ≡ l)
  Turn alone h l u rest = (h ≡ false) × (guarded u ≡ l) × rest false (λ v. Unit {0})
  Turn other h l u rest = Still h l u × rest h (Kept h u)

  unfoldable pub Follows : {A : Type 0} → (Bool → A → U → Type 0) → Bool → P → Tree O U A → Type 0
  Follows Q h l (ret a u) = Still h l u × Q h a u
  Follows Q h l (leave e u) = (h ≡ false) × (guarded u ≡ l) × Leaves e u
  Follows Q h l fault = ⊥
  Follows Q h l out_of_fuel = ⊥
  Follows Q h l (perform o u next) =
      Turn (effect o) h l u
        (λ h' K. (r : ℕ) (v : U) → Answers o u r v → K v → Follows Q h' (guarded v) (next r v))

  Turn-map :
      (e : Effect) (h : Bool) (l : P) (u : U) (rest rest' : Bool → (U → Type 0) → Type 0)
      → ((h' : Bool) (K : U → Type 0) → rest h' K → rest' h' K)
      → Turn e h l u rest
      → Turn e h l u rest'
  Turn-map takes h l u rest rest' f t = (t.0, t.1, f _ _ t.2)
  Turn-map gives h l u rest rest' f t = (t.0, t.1, f _ _ t.2)
  Turn-map ends h l u rest rest' f t = t
  Turn-map alone h l u rest rest' f t = (t.0, t.1, f _ _ t.2)
  Turn-map other h l u rest rest' f t = (t.0, f _ _ t.1)

  -- One program after another.
  pub Follows-and_then :
      {A B : Type 0} (Q : Bool → A → U → Type 0) (R : Bool → B → U → Type 0) (t : Tree O U A)
      (k : A → U → Tree O U B) (h : Bool) (l : P)
      → Follows Q h l t
      → ((h' : Bool) (l' : P) (a : A) (u : U) → Still h' l' u → Q h' a u → Follows R h' l' (k a u))
      → Follows R h l (and_then t k)
  unfolding Follows
  Follows-and_then Q R (ret a u) k h l f g = g h l a u f.0 f.1
  Follows-and_then Q R (leave e u) k h l f g = f
  Follows-and_then Q R fault k h l f g = absurd f
  Follows-and_then Q R out_of_fuel k h l f g = absurd f
  Follows-and_then Q R (perform o u next) k h l f g =
      Turn-map (effect o) h l u _ _
        (λ h' K rest r v a kept.
          Follows-and_then Q R (next r v) k h' (guarded v) (rest r v a kept) g)
        f

  -- What the guarded part was counts only for a process that does not hold the semaphore.
  Turn-held :
      (e : Effect) (l l' : P) (u : U) (rest rest' : Bool → (U → Type 0) → Type 0)
      → ((h' : Bool) (K : U → Type 0) → rest h' K → rest' h' K)
      → Turn e true l u rest
      → Turn e true l' u rest'
  Turn-held takes l l' u rest rest' f t = absurd (cc)
  Turn-held gives l l' u rest rest' f t = (t.0, t.1, f _ _ t.2)
  Turn-held ends l l' u rest rest' f t = absurd (cc)
  Turn-held alone l l' u rest rest' f t = absurd (cc)
  Turn-held other l l' u rest rest' f t = (tt, f _ _ t.1)

  pub Follows-held :
      {A : Type 0} (Q : Bool → A → U → Type 0) (t : Tree O U A) (l l' : P)
      → Follows Q true l t
      → Follows Q true l' t
  unfolding Follows
  Follows-held Q (ret a u) l l' f = f
  Follows-held Q (leave e u) l l' f = absurd (cc)
  Follows-held Q fault l l' f = f
  Follows-held Q out_of_fuel l l' f = f
  Follows-held Q (perform o u next) l l' f = Turn-held (effect o) l l' u _ _ (λ h' K rest. rest) f
