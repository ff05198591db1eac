-- ===== src/UserCalls/Handler.antt =====
-- The handler of the exceptions that the nucleus passes up, on every path that the rest of the
-- system may take.
use Prim.Native.Nat.{bit_and}
use progetto_sistemi_operati.Base.{
  ℕ, ◌≡◌, refl, subst, false, none, some, List, [], ◌∷◌, ◌==◌, Bool-cases, inl, inr, eq_of_==,
}
use progetto_sistemi_operati.Memory.{s_list, support_free}
use progetto_sistemi_operati.Listx.View.{View, Rings}
use progetto_sistemi_operati.Nucleus.Platform.{getexeccode}
use progetto_sistemi_operati.Supports.{allocate_support_lem}
use progetto_sistemi_operati.Process.Protocol.{Follows}
use progetto_sistemi_operati.World.{World, Layout}
use progetto_sistemi_operati.Pager.{program_trap}
use progetto_sistemi_operati.Pager.Contract.{Own, structures}
use progetto_sistemi_operati.UserCalls.{
  state_of, reg, return_from, execute_refused, execute_sys, support_syscall_handler,
  general_exception_handler,
}
use progetto_sistemi_operati.UserCalls.Pool.{
  Keeps, ends, write_terminal_sys-KeepsPool, read_terminal_sys-KeepsPool, launch-KeepsPool,
}

module _ (y : Layout) (i sup : ℕ) (nonzero : (sup == 0) ≡ false) where
  -- A free structure is not the process's own.
  free_other :
      (w : World) (view : View) (u : ℕ) (us : List ℕ)
      → Rings w.store.links view
      → view.items support_free ≡ some (structures (u ∷ us))
      → view.owner (s_list i) ≡ none
      → (u == i) ≡ false
  free_other w view u us r listed mine = elim (Bool-cases (u == i)) [
    | inr e ↦ e
    | inl e ↦
        let owned : view.owner (s_list i) ≡ some support_free =
          subst (λ j. view.owner (s_list j) ≡ some support_free) (eq_of_== u i e)
            (r.owned support_free _ listed).0 in
        absurd (cc)
  ]

  granted :
      (asid : ℕ) (w : World) (view : View) (spare : List ℕ)
      → Rings w.store.links view
      → view.items support_free ≡ some (structures spare)
      → view.owner (s_list i) ≡ none
      → execute_refused asid (reg sup y.reg_a1 w) ≡ false
      → Keeps y i sup nonzero w (execute_sys y sup asid w)
  unfolding execute_sys return_from Follows
  granted asid w view [] r listed mine e =
      rw (e, (allocate_support_lem w.store view [] r listed).0 refl) (refl, refl, refl)
  granted asid w view (u ∷ us) r listed mine e =
      let taken =
        (allocate_support_lem w.store view (structures (u ∷ us)) r listed).1 u (structures us)
          refl in
      let other = free_other w view u us r listed mine in
      rw (e, taken.0) (launch-KeepsPool y i sup nonzero (reg sup y.reg_a1 w) u _ other)

  execute_sys-KeepsPool :
      (asid : ℕ) (w : World) → Own i w → Keeps y i sup nonzero w (execute_sys y sup asid w)
  unfolding execute_sys
  execute_sys-KeepsPool asid w own = elim (Bool-cases (execute_refused asid (reg sup y.reg_a1 w))) [
    | inl e ↦ rw e (ends y i sup nonzero asid w)
    | inr e ↦ granted asid w own.view own.spare own.rings own.listed own.mine e
  ]

  support_syscall_handler-KeepsPool :
      (asid : ℕ) (w : World)
      → Own i w
      → Keeps y i sup nonzero w (support_syscall_handler y sup asid w)
  unfolding support_syscall_handler program_trap
  support_syscall_handler-KeepsPool asid w own =
      let n = reg sup y.reg_a0 w in
      elim (Bool-cases (n == 2)) [
        | inl e ↦ rw e (ends y i sup nonzero asid w)
        | inr e2 ↦ elim (Bool-cases (n == 4)) [
          | inl e ↦ rw (e2, e) (write_terminal_sys-KeepsPool y i sup nonzero asid w)
          | inr e4 ↦ elim (Bool-cases (n == 5)) [
            | inl e ↦ rw (e2, e4, e) (read_terminal_sys-KeepsPool y i sup nonzero asid w)
            | inr e5 ↦ elim (Bool-cases (n == 6)) [
              | inl e ↦ rw (e2, e4, e5, e) (execute_sys-KeepsPool asid w own)
              | inr e6 ↦ rw (e2, e4, e5, e6) (ends y i sup nonzero asid w)
            ]
          ]
        ]
      ]

  -- For a process with a support structure that is in use, the handler of system calls and program
  -- traps never returns, faults or runs on, whatever the call and its arguments are: on every path it
  -- changes the swap pool only while it holds its semaphore, which it holds neither at a `DOIO` or a
  -- `PASSEREN` of another semaphore nor where it leaves, and it ends by loading the saved exception
  -- state or by ending the process.
  pub general_exception_handler-KeepsPool :
      (w : World) → Own i w → Keeps y i sup nonzero w (general_exception_handler y w)
  unfolding general_exception_handler program_trap Follows
  general_exception_handler-KeepsPool w own = (
    refl,
    λ r v a k.
        rw (a.pointer refl, nonzero)
          (elim (Bool-cases (bit_and (state_of sup v).cause getexeccode == 8)) [
            | inl e ↦ rw e (support_syscall_handler-KeepsPool _ v (a.own own))
            | inr e ↦ rw e (ends y i sup nonzero _ v)
          ]),
  )
