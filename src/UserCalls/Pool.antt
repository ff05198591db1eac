-- ===== src/UserCalls/Pool.antt =====
-- The system calls of user processes and the swap pool.
use Prim.Native.Nat.{bit_and}
use progetto_sistemi_operati.Base.{
  ℕ, zero, suc, ◌+◌, ◌-◌, ◌/◌, ◌%◌, ◌^◌, ◌≤◌, ◌<◌, ◌≡◌, refl, ap, fun_ext, Bool, false, arith, ◌==◌,
  ltb, leb, ◌||◌, Bool-cases, inl, inr,
}
use progetto_sistemi_operati.Store.{Exit, ldst}
use progetto_sistemi_operati.Supports.{deallocate_support}
use progetto_sistemi_operati.Swap.{minus_one}
use progetto_sistemi_operati.Process.{Tree}
use progetto_sistemi_operati.Process.Protocol.{Follows}
use progetto_sistemi_operati.World.{Op, World, Layout}
use progetto_sistemi_operati.Pager.{terminate_sys}
use progetto_sistemi_operati.Pager.Contract.{KeepsPool, KeepsPool-free}
use progetto_sistemi_operati.Pager.Ends.{terminate_sys-KeepsPool, set_asid-swap_part}
use progetto_sistemi_operati.UserCalls.{
  state_of, reg, return_from, write_chars, write_refused, write_terminal_sys, read_chars,
  read_terminal_sys, user_stack_top, kuseg, launch,
}

-- Where a call leaves, it loads the saved exception state.
abbrev pub Resumes : ℕ → Exit → World → Type 0
Resumes sup e u = e ≡ ldst (state_of sup u)

-- No call returns: it leaves, or the process ends.
abbrev pub Never : Bool → Unit {0} → World → Type 0
Never h a u = ⊥

module _ (y : Layout) (i sup : ℕ) (nonzero : (sup == 0) ≡ false) where
  abbrev pub Keeps : World → Tree Op World (Unit {0}) → Type 0
  Keeps w t = KeepsPool y i sup 1 (Resumes sup) Never false w t

  pub ends : (asid : ℕ) (w : World) → Keeps w (terminate_sys y asid w)
  ends asid w = terminate_sys-KeepsPool y i sup 1 (Resumes sup) Never asid w nonzero

  write_chars-KeepsPool :
      (n addr written : ℕ) (w : World)
      → KeepsPool y i sup 1
          (Resumes sup)
          (λ h a u. (h ≡ false) × Unit {0})
          false
          w
          (write_chars y sup n addr written w)
  unfolding write_chars Follows
  write_chars-KeepsPool zero addr written w = (refl, (refl, tt))
  write_chars-KeepsPool (suc n) addr written w = (
    refl,
    refl,
    λ status v a k. elim (Bool-cases (bit_and status 0xFF == 5)) [
      | inl e ↦ rw e (write_chars-KeepsPool n (addr + 1) (written + 1) v)
      | inr e ↦ rw e (refl, (refl, tt))
    ],
  )

  pub write_terminal_sys-KeepsPool :
      (asid : ℕ) (w : World) → Keeps w (write_terminal_sys y sup asid w)
  unfolding write_terminal_sys return_from Follows
  write_terminal_sys-KeepsPool asid w =
      elim (Bool-cases (write_refused (reg sup y.reg_a1 w) (reg sup y.reg_a2 w))) [
        | inl e ↦ rw e (ends asid w)
        | inr e ↦ rw e (
          refl,
          refl,
          λ r v a k.
              KeepsPool-free y i sup 1 (Resumes sup) (λ _ _. Unit {0}) Never
                (write_chars y sup (reg sup y.reg_a2 w) (reg sup y.reg_a1 w) 0 v) _ v
                (write_chars-KeepsPool (reg sup y.reg_a2 w) (reg sup y.reg_a1 w) 0 v)
                (λ written u _. elim (Bool-cases (written == reg sup y.reg_a2 w)) [
                  | inl e ↦ rw e (refl, λ r1 v1 a1 k1. (refl, refl, refl))
                  | inr e ↦ rw e (refl, λ r1 v1 a1 k1. (refl, refl, refl))
                ]),
        )
      ]

  read_chars-KeepsPool :
      (asid fuel addr len : ℕ) (w : World)
      → addr ≤ user_stack_top
      → user_stack_top < fuel + addr
      → Keeps w (read_chars y sup asid fuel addr len w)
  unfolding read_chars return_from Follows
  read_chars-KeepsPool asid zero addr len w low enough = absurd (omega arith)
  read_chars-KeepsPool asid (suc fuel) addr len w low enough =
      elim (Bool-cases (leb user_stack_top addr)) [
        | inl e ↦ rw (e, read_chars) (refl, λ r v a k. ends asid v)
        | inr e ↦
            rw (e, read_chars)
              (
                refl,
                refl,
                λ status v a k. elim (Bool-cases (bit_and status 0xFF == 5)) [
                  | inl ok ↦ rw ok (elim (Bool-cases (status / 2 ^ 8 % 2 ^ 8 == 10)) [
                    | inl stop ↦ rw stop (refl, λ r1 v1 a1 k1. (refl, refl, refl))
                    | inr more ↦ rw more (
                        read_chars-KeepsPool asid fuel (addr + 1) (len + 1) _ (ground (arith, e))
                          (omega arith))
                  ])
                  | inr bad ↦ rw bad (refl, λ r1 v1 a1 k1. (refl, refl, refl))
                ],
              )
      ]

  pub read_terminal_sys-KeepsPool :
      (asid : ℕ) (w : World) → Keeps w (read_terminal_sys y sup asid w)
  unfolding read_terminal_sys Follows
  read_terminal_sys-KeepsPool asid w =
      let addr = reg sup y.reg_a1 w in
      elim (Bool-cases (ltb addr kuseg || leb user_stack_top addr)) [
        | inl e ↦ rw e (ends asid w)
        | inr e ↦ rw e (
          refl,
          refl,
          λ r v a k.
              read_chars-KeepsPool asid (user_stack_top - addr + 1) addr 0 v (ground (arith, e))
                (ground (arith, e)),
        )
      ]

  -- The new structure is another one than the process's own.
  pub launch-KeepsPool :
      (new_asid u : ℕ) (w : World) → (u == i) ≡ false → Keeps w (launch y sup new_asid u w)
  unfolding launch return_from deallocate_support Follows
  launch-KeepsPool new_asid u w differ = (
    ap (λ (f : ℕ → ℕ). (w.pool, f)) (fun_ext (λ p. rw differ refl)),
    λ r v a k. elim (Bool-cases (r == minus_one)) [
      | inl e ↦ rw e (refl, set_asid-swap_part i u 0 v, refl)
      | inr e ↦ rw e (refl, refl, λ r1 v1 a1 k1. (refl, refl, refl))
    ],
  )
